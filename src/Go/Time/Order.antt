-- ===== src/Go/Time/Order.antt =====
-- Calendar readings are in range, and order instants as instants are ordered.
use field_docket.Base.{
  ℕ, zero, suc, ◌+◌, ◌-◌, ◌*◌, ◌/◌, ◌%◌, ◌≤◌, ◌<◌, ◌≡◌, refl, ◌∙◌, List, [], ◌∷◌, arith, compare,
  Ordering, length, All,
}
use native.Mathlib.Decide.{dec_lt, ℕ_discrete}
use field_docket.Base.Compare.{and_then, and_then_assoc}
use field_docket.Go.Time.{
  year_days, month_days, year_from, month_from, year_of, month_of, Civil, civil, nanos_per_second,
  nanos_per_milli, seconds_per_day,
}

pub year_days-pos : (y : ℕ) → 0 < year_days y
unfolding year_days
year_days-pos y = ground arith

pub year_from-inside : (fuel y d : ℕ) → d < year_days y → year_from (suc fuel) y d ≡ (y, d)
unfolding year_from
year_from-inside fuel y d h = ground arith

pub year_from-past :
    (fuel y d : ℕ)
    → year_days y ≤ d
    → year_from (suc fuel) y d ≡ year_from fuel (suc y) (d - year_days y)
unfolding year_from
year_from-past fuel y d h = ground arith

-- With more fuel than days the search ends inside a year.
pub year_from_bounds :
    (fuel y d : ℕ)
    → d < fuel
    → (y ≤ (year_from fuel y d).0) × ((year_from fuel y d).1 < year_days (year_from fuel y d).0)
year_from_bounds zero y d h = elim h [ ]
year_from_bounds (suc fuel) y d h = elim (dec_lt d (year_days y)) [
  | yes inside ↦ rw (year_from-inside fuel y d inside) (omega arith, inside)
  | no past ↦
      let pos = year_days-pos y in
      let r = year_from_bounds fuel (suc y) (d - year_days y) (omega arith) in
      rw (year_from-past fuel y d (omega arith)) (omega arith, r.1)
]

pub compare-year_from :
    (fuel fuel' y d d' : ℕ)
    → d < fuel
    → d' < fuel'
    → compare d d'
      ≡ and_then
          (compare (year_from fuel y d).0 (year_from fuel' y d').0)
          (compare (year_from fuel y d).1 (year_from fuel' y d').1)
compare-year_from zero fuel' y d d' h h' = elim h [ ]
compare-year_from (suc fuel) zero y d d' h h' = elim h' [ ]
compare-year_from (suc fuel) (suc fuel') y d d' h h' = elim (dec_lt d (year_days y)) [
  | yes inside ↦ elim (dec_lt d' (year_days y)) [
    | yes inside' ↦ rw (year_from-inside, inside, year_from-inside, inside') (ground arith)
    | no past' ↦
        rw (year_from-inside, inside, year_from-past fuel' y d' (omega arith))
          (ground (
            arith,
            (year_from_bounds fuel' (suc y) (d' - year_days y) (omega (arith, year_days-pos y))).0,
          ))
  ]
  | no past ↦ elim (dec_lt d' (year_days y)) [
    | yes inside' ↦
        rw (year_from-inside fuel' y d' inside', year_from-past fuel y d (omega arith))
          (ground (
            arith,
            (year_from_bounds fuel (suc y) (d - year_days y) (omega (arith, year_days-pos y))).0,
          ))
    | no past' ↦
        rw
          (
            year_from-past fuel y d (omega arith),
            year_from-past fuel' y d' (omega arith),
            ← compare-year_from fuel fuel' (suc y) (d - year_days y) (d' - year_days y)
                (omega (arith, year_days-pos y)) (omega (arith, year_days-pos y)),
          )
          (ground arith)
  ]
]

abbrev pub sum : List ℕ → ℕ
sum [] = 0
sum (n ∷ ns) = n + sum ns

month_from_bounds :
    (ns : List ℕ) (m d : ℕ)
    → All (λ n. n ≤ 31) ns
    → d < sum ns
    → (m ≤ (month_from ns m d).0)
      × ((month_from ns m d).0 < m + length ns)
      × ((month_from ns m d).1 < 31)
unfolding month_from
month_from_bounds [] m d a h = elim h [ ]
month_from_bounds (n ∷ ns) m d a h = ground (arith, month_from_bounds ns (suc m) (d - n) a.1)

month_from-ge : (ns : List ℕ) (m d : ℕ) → m ≤ (month_from ns m d).0
unfolding month_from
month_from-ge [] m d = omega arith
month_from-ge (n ∷ ns) m d = ground (arith, month_from-ge ns (suc m) (d - n))

compare-month_from :
    (ns : List ℕ) (m d d' : ℕ)
    → compare d d'
      ≡ and_then
          (compare (month_from ns m d).0 (month_from ns m d').0)
          (compare (month_from ns m d).1 (month_from ns m d').1)
unfolding month_from
compare-month_from [] m d d' = ground arith
compare-month_from (n ∷ ns) m d d' = ground (
  arith,
  compare-month_from ns (suc m) (d - n) (d' - n),
  month_from-ge ns (suc m) (d - n),
  month_from-ge ns (suc m) (d' - n),
)

pub month_days-sum : (y : ℕ) → sum (month_days y) ≡ year_days y
unfolding month_days year_days
month_days-sum y = ground arith

month_days-le : (y : ℕ) → All (λ n. n ≤ 31) (month_days y)
unfolding month_days
month_days-le y = ground arith

length-month_days : (y : ℕ) → length (month_days y) ≡ 12
unfolding month_days
length-month_days y = refl

-- The earlier reading, field by field.
abbrev pub compare_civil : Civil → Civil → Ordering
compare_civil c c' = and_then (compare c.year c'.year) (
    and_then (compare c.month c'.month) (
      and_then (compare c.day c'.day) (
        and_then (compare c.hour c'.hour) (
          and_then (compare c.minute c'.minute)
            (and_then (compare c.second c'.second) (compare c.milli c'.milli))))))

abbrev days_of : ℕ → ℕ
days_of w = w / (nanos_per_second * seconds_per_day)

abbrev millis_of : ℕ → ℕ
millis_of w = w / nanos_per_milli % (seconds_per_day * 1000)

compare-days-millis :
    (w w' : ℕ)
    → compare (w / nanos_per_milli) (w' / nanos_per_milli)
      ≡ and_then (compare (days_of w) (days_of w')) (compare (millis_of w) (millis_of w'))
compare-days-millis w w' = ground arith

compare-clock :
    (ms ms' : ℕ)
    → ms < 86_400_000
    → ms' < 86_400_000
    → compare ms ms'
      ≡ and_then (compare (ms / 3_600_000) (ms' / 3_600_000)) (
          and_then (compare (ms / 60_000 % 60) (ms' / 60_000 % 60)) (
            and_then
              (compare (ms / 1000 % 60) (ms' / 1000 % 60))
              (compare (ms % 1000) (ms' % 1000))))
compare-clock ms ms' h h' = ground arith

shift-compare : (a b : ℕ) → compare (a + 1) (b + 1) ≡ compare a b
shift-compare a b = ground arith

-- Within one year the day decides the month and the day of the month; years apart decide alone.
compare-in_year :
    (y y' r r' : ℕ)
    → and_then (compare y y') (compare r r')
      ≡ and_then (compare y y') (
          and_then
            (compare (month_of y r).0 (month_of y' r').0)
            (compare ((month_of y r).1 + 1) ((month_of y' r').1 + 1)))
compare-in_year y y' r r' = elim (ℕ_discrete y y') [
  | yes e ↦ rw (e, shift-compare, ← compare-month_from (month_days y') 1 r r') refl
  | no ne ↦ ground arith
]

-- Days of the calendar compare by year, then month, then day of the month.
compare-date :
    (d d' : ℕ)
    → let y = year_of d in
      let y' = year_of d' in
      compare d d'
      ≡ and_then (compare y.0 y'.0) (
          and_then
            (compare (month_of y.0 y.1).0 (month_of y'.0 y'.1).0)
            (compare ((month_of y.0 y.1).1 + 1) ((month_of y'.0 y'.1).1 + 1)))
compare-date d d' =
    compare-year_from (suc d) (suc d') 0 d d' (omega arith) (omega arith)
    ∙ compare-in_year (year_of d).0 (year_of d').0 (year_of d).1 (year_of d').1

-- Calendar readings order wall times, to the millisecond.
pub compare-civil :
    (w w' : ℕ)
    → compare_civil (civil w) (civil w') ≡ compare (w / nanos_per_milli) (w' / nanos_per_milli)
unfolding civil
compare-civil w w' = rw (
  compare-days-millis w w',
  compare-date (days_of w) (days_of w'),
  compare-clock (millis_of w) (millis_of w') (omega arith) (omega arith),
  and_then_assoc,
  and_then_assoc,
)

-- A reading whose fields fit the places of a time layout.
pub record InRange (c : Civil) : Type 0 where
  pub month : (1 ≤ c.month) × (c.month ≤ 12)
  pub day : (1 ≤ c.day) × (c.day ≤ 31)
  pub hour : c.hour < 24
  pub minute : c.minute < 60
  pub second : c.second < 60
  pub milli : c.milli < 1000

pub civil-InRange : (w : ℕ) → InRange (civil w)
unfolding civil
civil-InRange w =
    let y = year_of (days_of w) in
    let inside = (year_from_bounds (suc (days_of w)) 0 (days_of w) (omega arith)).1 in
    let m =
      month_from_bounds (month_days y.0) 1 y.1 (month_days-le y.0) (rw month_days-sum inside) in
    let twelve = length-month_days y.0 in
    record {
      month = omega arith;
      day = omega arith;
      hour = omega arith;
      minute = omega arith;
      second = omega arith;
      milli = omega arith;
    }
