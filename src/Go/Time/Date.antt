-- ===== src/Go/Time/Date.antt =====
-- The instant of a date and a clock time, and that the calendar reading of an instant leads back.
use field_docket.Base.{
  ℕ, zero, suc, ◌+◌, ◌-◌, ◌*◌, ◌/◌, ◌%◌, ◌≤◌, ◌<◌, ◌≡◌, refl, ◌∙◌, List, [], ◌∷◌, arith,
}
use native.Mathlib.Decide.{dec_lt}
use field_docket.Go.Time.{
  year_days, month_days, year_from, month_from, year_of, month_of, Civil, civil, nanos_per_second,
  nanos_per_milli, seconds_per_day, is_leap,
}
use field_docket.Go.Time.Order.{
  year_days-pos, year_from-inside, year_from-past, year_from_bounds, sum, month_days-sum,
}

-- Each fourth year is longer by a day, but the hundredth is not, but the four hundredth is.
unfoldable pub days_before_year : ℕ → ℕ
days_before_year y = 365 * y + (y + 3) / 4 + (y + 399) / 400 - (y + 99) / 100

-- The days of the first `k` months.
unfoldable pub days_before : List ℕ → ℕ → ℕ
days_before ns zero = 0
days_before [] (suc k) = 0
days_before (n ∷ ns) (suc k) = n + days_before ns k

-- The days of the month behind the first `k`.
unfoldable pub days_at : List ℕ → ℕ → ℕ
days_at [] k = 0
days_at (n ∷ ns) zero = n
days_at (n ∷ ns) (suc k) = days_at ns k

unfoldable pub day_number : ℕ → ℕ → ℕ → ℕ
unfolding days_before_year days_before month_days
day_number y m d = days_before_year y + days_before (month_days y) (m - 1) + (d - 1)

-- `time.Date` in UTC, for fields in range.
unfoldable pub date : ℕ → ℕ → ℕ → ℕ → ℕ → ℕ → ℕ → ℕ
unfolding day_number
date y m d hour minute second nanos =
    (day_number y m d * seconds_per_day + hour * 3600 + minute * 60 + second) * nanos_per_second
    + nanos

days_before_year-suc : (y : ℕ) → days_before_year (suc y) ≡ days_before_year y + year_days y
unfolding days_before_year year_days is_leap
days_before_year-suc y = ground arith

year_from-sum :
    (fuel y d : ℕ)
    → d < fuel
    → days_before_year (year_from fuel y d).0 + (year_from fuel y d).1 ≡ days_before_year y + d
year_from-sum zero y d h = elim h [ ]
year_from-sum (suc fuel) y d h = elim (dec_lt d (year_days y)) [
  | yes inside ↦ rw (year_from-inside fuel y d inside) refl
  | no past ↦
      let pos = year_days-pos y in
      rw (year_from-past fuel y d (omega arith)) (
        omega (
          arith,
          days_before_year-suc y,
          year_from-sum fuel (suc y) (d - year_days y) (omega arith),
        ))
]

month_from-inside : (n : ℕ) (ns : List ℕ) (m d : ℕ) → d < n → month_from (n ∷ ns) m d ≡ (m, d)
unfolding month_from
month_from-inside n ns m d h = ground arith

month_from-past :
    (n : ℕ) (ns : List ℕ) (m d : ℕ)
    → n ≤ d
    → month_from (n ∷ ns) m d ≡ month_from ns (suc m) (d - n)
unfolding month_from
month_from-past n ns m d h = ground arith

-- The month that is found begins where the days before it end, and is long enough.
month_from-sum :
    (ns : List ℕ) (m d : ℕ)
    → d < sum ns
    → let r = month_from ns m d in
      (days_before ns (r.0 - m) + r.1 ≡ d) × (r.1 < days_at ns (r.0 - m)) × (m ≤ r.0)
unfolding days_before days_at
month_from-sum [] m d h = elim h [ ]
month_from-sum (n ∷ ns) m d h = elim (dec_lt d n) [
  | yes inside ↦
      let here : m - m ≡ 0 = omega arith in
      rw (month_from-inside n ns m d inside, here) (omega arith, inside, omega arith)
  | no past ↦
      let (total, short, after) = month_from-sum ns (suc m) (d - n) (omega arith) in
      let next : (month_from ns (suc m) (d - n)).0 - m
          ≡ suc ((month_from ns (suc m) (d - n)).0 - suc m) =
        omega arith in
      rw (month_from-past n ns m d (omega arith), next) (omega (arith, total), short, omega arith)
]

clock-sum :
    (ms : ℕ)
    → ms < 86_400_000
    → ms / 3_600_000 * 3600 + ms / 60_000 % 60 * 60 + ms / 1000 % 60 ≡ ms / 1000
clock-sum ms h = omega arith

-- The date of a day and of a clock's fields is the wall time to the millisecond.
instant-sum :
    (w : ℕ)
    → let ms = w / nanos_per_milli % (seconds_per_day * 1000) in
      (w / (nanos_per_second * seconds_per_day) * seconds_per_day + ms / 1000) * nanos_per_second
        + ms % 1000 * nanos_per_milli
      ≡ w - w % nanos_per_milli
instant-sum w = omega arith

abbrev days_of : ℕ → ℕ
days_of w = w / (nanos_per_second * seconds_per_day)

first_year : (d : ℕ) → days_before_year 0 + d ≡ d
unfolding days_before_year
first_year d = omega arith

day_number-civil : (w : ℕ) → day_number (civil w).year (civil w).month (civil w).day ≡ days_of w
unfolding civil day_number
day_number-civil w =
    let days = days_of w in
    let y = year_of days in
    let years = year_from-sum (suc days) 0 days (omega arith) ∙ first_year days in
    let inside = (year_from_bounds (suc days) 0 days (omega arith)).1 in
    let (months, short, after) = month_from-sum (month_days y.0) 1 y.1 (rw month_days-sum inside) in
    add3 (days_before_year y.0) (days_before (month_days y.0) ((month_of y.0 y.1).0 - 1))
      (month_of y.0 y.1).1 y.1 days months years
  where
    add3 : (a b c r d : ℕ) → b + c ≡ r → a + r ≡ d → a + b + (c + 1 - 1) ≡ d
    add3 a b c r d h k = omega (arith, h, k)

-- A reading is a day of its month, and the date of its fields is the instant to the millisecond.
pub record IsDate (w : ℕ) (c : Civil) : Type 0 where
  pub day : c.day ≤ days_at (month_days c.year) (c.month - 1)
  pub instant :
      date c.year c.month c.day c.hour c.minute c.second (c.milli * nanos_per_milli)
      ≡ w - w % nanos_per_milli

pub civil-IsDate : (w : ℕ) → IsDate w (civil w)
unfolding civil date
civil-IsDate w =
    let days = days_of w in
    let y = year_of days in
    let inside = (year_from_bounds (suc days) 0 days (omega arith)).1 in
    let (months, short, after) = month_from-sum (month_days y.0) 1 y.1 (rw month_days-sum inside) in
    record { day = fits _ _ short; instant = whole (day_number-civil w) }
  where
    fits : (d n : ℕ) → d < n → d + 1 ≤ n
    fits d n h = omega (arith, h)

    whole :
        {n : ℕ}
        → n ≡ days_of w
        → let ms = w / nanos_per_milli % (seconds_per_day * 1000) in
          (n * seconds_per_day + ms / 3_600_000 * 3600 + ms / 60_000 % 60 * 60 + ms / 1000 % 60)
              * nanos_per_second
            + ms % 1000 * nanos_per_milli
          ≡ w - w % nanos_per_milli
    whole h =
        let ms = w / nanos_per_milli % (seconds_per_day * 1000) in
        omega (arith, h, clock-sum ms (omega arith), instant-sum w)
