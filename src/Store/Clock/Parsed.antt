-- ===== src/Store/Clock/Parsed.antt =====
-- internal/store/store.go: `formatTime`, read back by `time.Parse(time.RFC3339, …)`.
use field_docket.Base.{
  ℕ, ◌+◌, ◌-◌, ◌*◌, ◌/◌, ◌%◌, ◌≤◌, ◌≡◌, refl, sym, ap, ap₂, ◌∙◌, false, some, none, arith, Bytes,
  concat, take, drop,
}
use field_docket.Go.Errors.{Result, ok}
use field_docket.Go.Decimal.{pad}
use field_docket.Go.Text.{is_empty, trim_space}
use field_docket.Go.Text.Trim.{trim_space-graphic}
use field_docket.Go.Time.{
  Time, east, Civil, civil, year_of, month_of, is_zero, nanos_per_milli, nanos_per_second,
  seconds_per_day, unix_epoch_millis,
}
use field_docket.Go.Time.Order.{civil-InRange}
use field_docket.Go.Time.Date.{date, civil-IsDate}
use field_docket.Go.Time.Rfc3339.{parse_rfc3339, parse_time}
use field_docket.Go.Time.Rfc3339.Spelled.{spelled, parse_rfc3339-spelled}
use field_docket.Store.Clock.{layout, format_time, InFourDigits, year_field-pad, format_time-layout}

-- The time in UTC, to the millisecond.
abbrev pub truncated : Time → Time
truncated t = record { instant = t.instant - t.instant % nanos_per_milli; offset = east 0 }

pub format_time-spelled : (t : Time) → InFourDigits t → format_time t ≡ spelled (civil t.instant)
unfolding layout pad
format_time-spelled t h = format_time-layout t ∙ rw (year_field-pad (civil t.instant).year h) refl

date-nanos : (y m d h mi s n : ℕ) → date y m d h mi s 0 + n ≡ date y m d h mi s n
unfolding date
date-nanos y m d h mi s n = omega arith

parse_time-strict :
    (lax : Bytes → Result Time) (s : Bytes) {t : Time}
    → parse_rfc3339 s ≡ some t
    → parse_time lax s ≡ ok t
unfolding parse_time
parse_time-strict lax s h =
    ap (λ o. elim o as (λ x. Result Time) [ none ↦ lax s | some t ↦ ok t ]) h

-- For years before 10000, a stored timestamp is read by `time.Parse` as the time that it was made
-- from, in UTC and cut to the millisecond, whatever zone that time was given in.
pub parse_time-format_time :
    (lax : Bytes → Result Time) (t : Time)
    → InFourDigits t
    → parse_time lax (format_time t) ≡ ok (truncated t)
parse_time-format_time lax t h =
    let c = civil t.instant in
    let is_date = civil-IsDate t.instant in
    parse_time-strict lax (format_time t) (
      ap parse_rfc3339 (format_time-spelled t h)
      ∙ parse_rfc3339-spelled c (civil-InRange t.instant) h is_date.day
      ∙ ap (λ i. some (record { instant = i; offset = east 0 }))
          (date-nanos c.year c.month c.day c.hour c.minute c.second (c.milli * nanos_per_milli)
            ∙ is_date.instant))

-- A stored timestamp has no white space at its ends.
pub trim_space-format_time :
    (t : Time) → InFourDigits t → trim_space (format_time t) ≡ format_time t
unfolding pad
trim_space-format_time t h =
    let text = spelled (civil t.instant) in
    ap trim_space (format_time-spelled t h)
    ∙ trim_space-graphic (b'0' + (civil t.instant).year / 10 / 10 / 10 % 10) b'Z'
        (take 22 (drop 1 text)) (ground arith) refl
    ∙ sym (format_time-spelled t h)

pub is_empty-format_time : (t : Time) → InFourDigits t → is_empty (format_time t) ≡ false
unfolding pad is_empty
is_empty-format_time t h = ap is_empty (format_time-spelled t h)

-- The reading of a day and of the milliseconds in it.
abbrev reading : ℕ → ℕ → Civil
reading days ms =
    let y = year_of days in
    let m = month_of y.0 y.1 in
    record {
      year = y.0;
      month = m.0;
      day = m.1 + 1;
      hour = ms / 3_600_000;
      minute = ms / 60_000 % 60;
      second = ms / 1000 % 60;
      milli = ms % 1000;
    }

civil-truncated : (w : ℕ) → civil (w - w % nanos_per_milli) ≡ civil w
unfolding civil
civil-truncated w =
    let v = w - w % nanos_per_milli in
    let day = nanos_per_second * seconds_per_day in
    let days : v / day ≡ w / day = omega arith in
    let ms : v / nanos_per_milli % (seconds_per_day * 1000)
        ≡ w / nanos_per_milli % (seconds_per_day * 1000) =
      omega arith in
    ap₂ reading days ms

-- The cut time is stored as the same text.
pub format_time-truncated : (t : Time) → format_time (truncated t) ≡ format_time t
format_time-truncated t =
    format_time-layout (truncated t)
    ∙ ap (λ c. concat (layout c)) (civil-truncated t.instant)
    ∙ sym (format_time-layout t)

-- The times of the Unix epoch and after it.
abbrev pub IsUnix : Time → Type 0
IsUnix t = unix_epoch_millis * nanos_per_milli ≤ t.instant

pub is_zero-truncated : (t : Time) → IsUnix t → is_zero (truncated t) ≡ false
unfolding is_zero
is_zero-truncated t h = ground (arith, h)
