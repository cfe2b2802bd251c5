-- ===== src/Go/Time.antt =====
-- `time.Time`: an instant, the zone that it is shown in, and its civil date and clock.
pub mod Order
pub mod Date
pub mod Rfc3339
use field_docket.Base.{
  ℕ, zero, suc, ◌+◌, ◌-◌, ◌*◌, ◌/◌, ◌%◌, ◌≡◌, Bool, true, false, not, ◌&&◌, ◌||◌, List, [], ◌∷◌,
  ltb, ◌==◌, if◌then◌else◌,
}

-- Seconds east of UTC, or west of it.
pub data Offset : Type 0 where
  east : ℕ → Offset
  west : ℕ → Offset

-- `instant` counts nanoseconds from 0000-01-01T00:00:00Z. Instants before that year, which
-- neither a clock nor an RFC 3339 text in UTC yields, are not represented.
pub record Time : Type 0 where
  pub instant : ℕ
  pub offset : Offset

abbrev pub nanos_per_second : ℕ
nanos_per_second = 1_000_000_000

abbrev pub nanos_per_milli : ℕ
nanos_per_milli = 1_000_000

abbrev pub seconds_per_day : ℕ
seconds_per_day = 86_400

-- 0001-01-01T00:00:00Z, Go's zero time: the year 0 has 366 days.
abbrev pub zero_instant : ℕ
zero_instant = 366 * seconds_per_day * nanos_per_second

-- 1970-01-01T00:00:00Z in milliseconds from the year 0: 719528 days.
abbrev pub unix_epoch_millis : ℕ
unix_epoch_millis = 719_528 * seconds_per_day * 1000

-- `t.IsZero()`
unfoldable pub is_zero : Time → Bool
is_zero t = t.instant == zero_instant

-- `t.UTC()`
unfoldable pub utc : Time → Time
utc t = record t { offset = east 0 }

-- The nanoseconds that the clock of the zone shows.
abbrev pub wall : Time → ℕ
wall t = elim t.offset [
  | east s ↦ t.instant + s * nanos_per_second
  | west s ↦ t.instant - s * nanos_per_second
]

-- The zero value of `time.Time`.
abbrev pub zero_time : Time
zero_time = record { instant = zero_instant; offset = east 0 }

unfoldable pub is_leap : ℕ → Bool
is_leap y = y % 4 == 0 && not (y % 100 == 0) || y % 400 == 0

unfoldable pub year_days : ℕ → ℕ
unfolding is_leap
year_days y = if is_leap y then 366 else 365

unfoldable pub month_days : ℕ → List ℕ
unfolding is_leap
month_days y =
    31 ∷ (if is_leap y then 29 else 28) ∷ 31 ∷ 30 ∷ 31 ∷ 30 ∷ 31 ∷ 31 ∷ 30 ∷ 31 ∷ 30 ∷ 31 ∷ []

-- The year that holds day `d`, counted from the first day of year `y`, and the day in it.
unfoldable pub year_from : ℕ → ℕ → ℕ → ℕ × ℕ
year_from zero y d = (y, d)
year_from (suc fuel) y d = elim (ltb d (year_days y)) [
  | true ↦ (y, d)
  | false ↦ year_from fuel (suc y) (d - year_days y)
]

-- The month that holds day `d`, counted from the first day of month `m`, and the day in it.
unfoldable pub month_from : List ℕ → ℕ → ℕ → ℕ × ℕ
month_from [] m d = (m, d)
month_from (n ∷ rest) m d = elim (ltb d n) [
  | true ↦ (m, d)
  | false ↦ month_from rest (suc m) (d - n)
]

pub record Civil : Type 0 where
  pub year : ℕ
  pub month : ℕ
  pub day : ℕ
  pub hour : ℕ
  pub minute : ℕ
  pub second : ℕ
  pub milli : ℕ

abbrev pub year_of : ℕ → ℕ × ℕ
year_of d = year_from (suc d) 0 d

abbrev pub month_of : ℕ → ℕ → ℕ × ℕ
month_of y d = month_from (month_days y) 1 d

-- The calendar and clock reading of a wall time, to the millisecond.
unfoldable pub civil : ℕ → Civil
unfolding year_from month_from year_days month_days
civil w =
    let days = w / (nanos_per_second * seconds_per_day) in
    let ms = w / nanos_per_milli % (seconds_per_day * 1000) in
    let y = year_of days in
    let m = month_of y.0 y.1 in
    record {
      year = y.0;
      month = m.0;
      day = m.1 + 1;
      hour = ms / 3_600_000;
      minute = ms / 60_000 % 60;
      second = ms / 1000 % 60;
      milli = ms % 1000;
    }
