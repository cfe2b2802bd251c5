-- ===== src/Store/Clock.antt =====
-- internal/store/store.go: the stored timestamp format (`timeLayout`, `formatTime`).
pub mod Parsed
use field_docket.Base.{
  ℕ, ◌/◌, ◌<◌, ◌≡◌, refl, ap, ◌∙◌, [], ◌∷◌, arith, List, compare, Ordering, ltb, if◌then◌else◌,
  Bytes, codes, concat,
}
use field_docket.Base.Compare.{
  compare_bytes, and_then, compare_parts, SameLengths, compare_bytes-concat, compare_bytes_refl,
}
use field_docket.Go.Decimal.{pad, decimal, length-pad, compare_bytes-pad}
use field_docket.Go.Time.{Time, utc, wall, Civil, civil, nanos_per_milli}
use field_docket.Go.Time.Order.{compare_civil, compare-civil, InRange, civil-InRange}

-- `2006`: four digits, more from the year 10000 on.
pub year_field : ℕ → Bytes
year_field y = if ltb y 10000 then pad 4 y else decimal y

-- The parts of the layout 2006-01-02T15:04:05.000Z, whose Z is a literal character.
unfoldable pub layout : Civil → List Bytes
unfolding year_field
layout c =
    year_field c.year
    ∷ codes "-"
    ∷ pad 2 c.month
    ∷ codes "-"
    ∷ pad 2 c.day
    ∷ codes "T"
    ∷ pad 2 c.hour
    ∷ codes ":"
    ∷ pad 2 c.minute
    ∷ codes ":"
    ∷ pad 2 c.second
    ∷ codes "."
    ∷ pad 3 c.milli
    ∷ codes "Z"
    ∷ []

-- `formatTime`
unfoldable pub format_time : Time → Bytes
unfolding utc civil layout pad decimal
format_time t = concat (layout (civil (wall (utc t))))

-- The milliseconds of an instant.
abbrev pub millis : Time → ℕ
millis t = t.instant / nanos_per_milli

-- The year fits its four places.
abbrev pub InFourDigits : Time → Type 0
InFourDigits t = (civil t.instant).year < 10000

pub year_field-pad : (y : ℕ) → y < 10000 → year_field y ≡ pad 4 y
unfolding year_field
year_field-pad y h = ground arith

layout-SameLengths :
    (c c' : Civil) → c.year < 10000 → c'.year < 10000 → SameLengths (layout c) (layout c')
unfolding layout
layout-SameLengths c c' h h' =
    rw (year_field-pad, h, year_field-pad, h') (omega (arith, length-pad))

two_places : (n m : ℕ) → n < 100 → m < 100 → compare_bytes (pad 2 n) (pad 2 m) ≡ compare n m
two_places n m h h' = compare_bytes-pad 2 n m h h'

and_then-eq : (o : Ordering) → and_then o Ordering.eq ≡ o
and_then-eq Ordering.lt = refl
and_then-eq Ordering.eq = refl
and_then-eq Ordering.gt = refl

compare_parts-layout :
    (c c' : Civil)
    → InRange c
    → InRange c'
    → c.year < 10000
    → c'.year < 10000
    → compare_parts (layout c) (layout c') ≡ compare_civil c c'
unfolding layout
compare_parts-layout c c' r r' h h' =
    rw
      (
        year_field-pad c.year h,
        year_field-pad c'.year h',
        compare_bytes-pad 4 c.year c'.year h h',
        two_places c.month c'.month (omega arith) (omega arith),
        two_places c.day c'.day (omega arith) (omega arith),
        two_places c.hour c'.hour (omega arith) (omega arith),
        two_places c.minute c'.minute (omega arith) (omega arith),
        two_places c.second c'.second (omega arith) (omega arith),
        compare_bytes-pad 3 c.milli c'.milli r.milli r'.milli,
      )
      (simp (compare_bytes_refl, and_then-eq))

wall-utc : (t : Time) → wall (utc t) ≡ t.instant
unfolding utc
wall-utc t = omega arith

-- The zone of a time leaves no trace in the stored text.
pub format_time-layout : (t : Time) → format_time t ≡ concat (layout (civil t.instant))
unfolding format_time
format_time-layout t = ap (λ w. concat (layout (civil w))) (wall-utc t)

-- Stored timestamps compare as texts exactly as the instants compare to the millisecond, whatever
-- zones the times are given in, for years before 10000.
pub compare-format_time :
    (t t' : Time)
    → InFourDigits t
    → InFourDigits t'
    → compare_bytes (format_time t) (format_time t') ≡ compare (millis t) (millis t')
compare-format_time t t' h h' =
    rw (format_time-layout, format_time-layout)
      (compare_bytes-concat (layout (civil t.instant)) (layout (civil t'.instant))
          (layout-SameLengths (civil t.instant) (civil t'.instant) h h')
        ∙ compare_parts-layout (civil t.instant) (civil t'.instant) (civil-InRange t.instant)
            (civil-InRange t'.instant) h h'
        ∙ compare-civil t.instant t'.instant)
