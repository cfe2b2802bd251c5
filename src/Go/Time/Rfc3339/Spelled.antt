-- ===== src/Go/Time/Rfc3339/Spelled.antt =====
-- Texts in the layout 2006-01-02T15:04:05.000Z, as the strict parser reads them.
use field_docket.Base.{
  ℕ, zero, suc, ◌+◌, ◌-◌, ◌*◌, ◌/◌, ◌%◌, ◌^◌, ◌≤◌, ◌<◌, ◌≡◌, refl, sym, ap, ◌∙◌, true, false, [],
  ◌∷◌, ◌++◌, append_assoc, some, Bytes, codes, length, drop, ltb, arith,
}
use field_docket.Go.Decimal.{pad, div-lt}
use field_docket.Go.Time.{east, month_days, Civil, nanos_per_milli}
use field_docket.Go.Time.Order.{InRange}
use field_docket.Go.Time.Date.{days_at, date}
use field_docket.Go.Time.Rfc3339.{
  ◌>>=◌, is_digit, value_or, digits_value, parse_uint, slice, is_separated, split_digits,
  nanoseconds, parse_fraction, parse_zone, parse_rest, parse_rfc3339,
}

digits_value-append :
    (x : ℕ) (s t : Bytes) → digits_value x (s ++ t) ≡ (digits_value x s >>= λ y. digits_value y t)
unfolding digits_value
digits_value-append x [] t = refl
digits_value-append x (c ∷ s) t = ground (arith, digits_value-append (x * 10 + (c - b'0')) s t)

last_digit : (n : ℕ) → digits_value (n / 10) ((b'0' + n % 10) ∷ []) ≡ some n
unfolding digits_value
last_digit n = ground arith

digits_value-pad : (w n : ℕ) → n < 10 ^ w → digits_value 0 (pad w n) ≡ some n
unfolding pad digits_value
digits_value-pad zero n h = ap some (omega arith)
digits_value-pad (suc w) n h =
    digits_value-append 0 (pad w (n / 10)) _
    ∙ rw (digits_value-pad w (n / 10) (div-lt n w h)) (last_digit n)

parse_uint-pad :
    (w n low high : ℕ) → n < 10 ^ w → low ≤ n → n ≤ high → parse_uint (pad w n) low high ≡ some n
unfolding parse_uint
parse_uint-pad w n low high h hl hh = rw (digits_value-pad w n h) (ground arith)

-- The steps of the parser, for a text whose parts are read as numbers.
parse_rfc3339-steps :
    (s : Bytes) (year month day hour minute second : ℕ)
    → ltb (length s) 19 ≡ false
    → parse_uint (slice s 0 4) 0 9999 ≡ some year
    → parse_uint (slice s 5 7) 1 12 ≡ some month
    → parse_uint (slice s 8 10) 1 (days_at (month_days year) (month - 1)) ≡ some day
    → parse_uint (slice s 11 13) 0 23 ≡ some hour
    → parse_uint (slice s 14 16) 0 59 ≡ some minute
    → parse_uint (slice s 17 19) 0 59 ≡ some second
    → is_separated s ≡ true
    → parse_rfc3339 s ≡ parse_rest (date year month day hour minute second 0) (drop 19 s)
unfolding parse_rfc3339 parse_rest
parse_rfc3339-steps s year month day hour minute second long y m d h mi sec sep =
    rw (parse_rfc3339, long, y, m, d, h, mi, sec, sep) refl

abbrev pub spelled : Civil → Bytes
spelled c =
    pad 4 c.year
    ++ b'-' ∷ pad 2 c.month
    ++ b'-' ∷ pad 2 c.day
    ++ b'T' ∷ pad 2 c.hour
    ++ b':' ∷ pad 2 c.minute
    ++ b':' ∷ pad 2 c.second
    ++ b'.' ∷ pad 3 c.milli
    ++ b'Z' ∷ []

split_digit :
    (n : ℕ) (tail : Bytes)
    → split_digits ((b'0' + n % 10) ∷ tail)
      ≡ ((b'0' + n % 10) ∷ (split_digits tail).0, (split_digits tail).1)
unfolding split_digits
split_digit n tail = ground arith

split_digits-pad :
    (w n : ℕ) (tail : Bytes)
    → split_digits (pad w n ++ tail) ≡ (pad w n ++ (split_digits tail).0, (split_digits tail).1)
unfolding pad
split_digits-pad zero n tail = refl
split_digits-pad (suc w) n tail =
    ap split_digits (append_assoc (pad w (n / 10)) _ tail)
    ∙ split_digits-pad w (n / 10) _
    ∙ rw (split_digit n tail) (
        ap (λ t. (t, (split_digits tail).1))
          (sym (append_assoc (pad w (n / 10)) ((b'0' + n % 10) ∷ []) (split_digits tail).0)))

nanoseconds-pad : (ms : ℕ) → ms < 1000 → nanoseconds (pad 3 ms) ≡ ms * nanos_per_milli
unfolding nanoseconds pad
nanoseconds-pad ms h = ap (λ o. value_or 0 o * 10 ^ 6) (digits_value-pad 3 ms h)

parse_fraction-digits :
    (d : ℕ) (s : Bytes)
    → is_digit d ≡ true
    → parse_fraction (b'.' ∷ d ∷ s)
      ≡ (nanoseconds (split_digits (d ∷ s)).0, (split_digits (d ∷ s)).1)
unfolding parse_fraction
parse_fraction-digits d s h = rw h refl

digit_of : (n : ℕ) → is_digit (b'0' + n % 10) ≡ true
digit_of n = ground arith

-- The fraction and the zone of a spelled.
parse_fraction-pad :
    (ms : ℕ)
    → ms < 1000
    → parse_fraction (b'.' ∷ pad 3 ms ++ b'Z' ∷ []) ≡ (ms * nanos_per_milli, codes "Z")
unfolding pad split_digits
parse_fraction-pad ms h =
    parse_fraction-digits _ _ (digit_of (ms / 10 / 10))
    ∙ ap (λ r. (nanoseconds r.0, r.1)) (split_digits-pad 3 ms (b'Z' ∷ []))
    ∙ ap (λ n. (n, codes "Z")) (nanoseconds-pad ms h)

parse_rest-spelled :
    (t ms : ℕ)
    → ms < 1000
    → parse_rest t (b'.' ∷ pad 3 ms ++ b'Z' ∷ [])
      ≡ some (record { instant = t + ms * nanos_per_milli; offset = east 0 })
unfolding parse_rest parse_zone
parse_rest-spelled t ms h = rw (parse_fraction-pad ms h) refl

pub parse_rfc3339-spelled :
    (c : Civil)
    → InRange c
    → c.year < 10000
    → c.day ≤ days_at (month_days c.year) (c.month - 1)
    → parse_rfc3339 (spelled c)
      ≡ some (record {
        instant = date c.year c.month c.day c.hour c.minute c.second 0 + c.milli * nanos_per_milli;
        offset = east 0;
      })
unfolding pad is_separated
parse_rfc3339-spelled c r year day =
    parse_rfc3339-steps (spelled c) c.year c.month c.day c.hour c.minute c.second refl
      (parse_uint-pad 4 c.year 0 9999 year (omega arith) (omega arith))
      (parse_uint-pad 2 c.month 1 12 (omega arith) (omega arith) (omega arith))
      (parse_uint-pad 2 c.day 1 (days_at (month_days c.year) (c.month - 1)) (omega arith)
        (omega arith) day)
      (parse_uint-pad 2 c.hour 0 23 (omega arith) (omega arith) (omega arith))
      (parse_uint-pad 2 c.minute 0 59 (omega arith) (omega arith) (omega arith))
      (parse_uint-pad 2 c.second 0 59 (omega arith) (omega arith) (omega arith)) refl
    ∙ parse_rest-spelled (date c.year c.month c.day c.hour c.minute c.second 0) c.milli r.milli
