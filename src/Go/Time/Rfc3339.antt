-- ===== src/Go/Time/Rfc3339.antt =====
-- `time.Parse(time.RFC3339, …)`: its strict parser, and the general one as a parameter behind it.
pub mod Spelled
use field_docket.Base.{
  ℕ, zero, suc, ◌+◌, ◌-◌, ◌*◌, ◌/◌, ◌%◌, ◌^◌, Bool, true, false, not, ◌&&◌, ◌||◌, List, [], ◌∷◌,
  Option, none, some, Bytes, codes, length, take, drop, ltb, leb, ◌==◌, if◌then◌else◌,
}
use field_docket.Go.Errors.{Result, ok}
use field_docket.Go.Time.{Time, east, west, month_days, nanos_per_second}
use field_docket.Go.Time.Date.{days_at, date}

abbrev pub is_digit : ℕ → Bool
is_digit c = leb b'0' c && leb c b'9'

infixl 5 ◌>>=◌
abbrev pub ◌>>=◌ {ℓ κ} : {A : Type ℓ} {B : Type κ} → Option A → (A → Option B) → Option B
none >>= next = none
some a >>= next = next a

unfoldable pub digits_value : ℕ → Bytes → Option ℕ
digits_value x [] = some x
digits_value x (c ∷ s) =
    let rest = digits_value (x * 10 + (c - b'0')) s in if is_digit c then rest else none

abbrev in_range : ℕ → ℕ → ℕ → Option ℕ
in_range low high x = if ltb x low || ltb high x then none else some x

-- `parseUint`; none is `ok = false`.
unfoldable pub parse_uint : Bytes → ℕ → ℕ → Option ℕ
unfolding digits_value
parse_uint s low high = do x ← digits_value 0 s; in_range low high x

-- `s[i:j]`, inside the text.
abbrev pub slice : Bytes → ℕ → ℕ → Bytes
slice s i j = take (j - i) (drop i s)

abbrev same_at : Bytes → ℕ → ℕ → Bool
same_at s i c = elim (drop i s) [ [] ↦ false | x ∷ rest ↦ x == c ]

unfoldable pub is_separated : Bytes → Bool
is_separated s =
    same_at s 4 b'-'
    && (same_at s 7 b'-' && (same_at s 10 b'T' && (same_at s 13 b':' && same_at s 16 b':')))

-- The digits that a text begins with, and what follows them.
unfoldable pub split_digits : Bytes → Bytes × Bytes
split_digits [] = ([], [])
split_digits (c ∷ s) =
    let rest = split_digits s in if is_digit c then (c ∷ rest.0, rest.1) else ([], c ∷ s)

abbrev value_or : ℕ → Option ℕ → ℕ
value_or d none = d
value_or d (some x) = x

-- `parseNanoseconds`: the digits behind the ninth are dropped.
unfoldable pub nanoseconds : Bytes → ℕ
unfolding digits_value
nanoseconds ds = value_or 0 (digits_value 0 (take 9 ds)) * 10 ^ (9 - length ds)

-- The optional fraction of the second.
unfoldable pub parse_fraction : Bytes → ℕ × Bytes
unfolding split_digits nanoseconds
parse_fraction [] = (0, [])
parse_fraction (c ∷ []) = (0, c ∷ [])
parse_fraction (c ∷ d ∷ s) =
    let run = split_digits (d ∷ s) in
    if c == b'.' && is_digit d then (nanoseconds run.0, run.1) else (0, c ∷ d ∷ s)

abbrev zoned : ℕ → ℕ → ℕ → Option Time
zoned t sign offset =
    if sign == b'-'
    then some (record { instant = t + offset * nanos_per_second; offset = west offset })
    else if ltb t (offset * nanos_per_second)
    then none
    else some (record { instant = t - offset * nanos_per_second; offset = east offset })

-- The zone, for the instant that the fields mean in UTC. An instant before the year 0 is not
-- represented: none here.
unfoldable pub parse_zone : ℕ → Bytes → Option Time
unfolding parse_uint
parse_zone t (z ∷ []) = if z == b'Z' then some (record { instant = t; offset = east 0 }) else none
parse_zone t (sign ∷ h ∷ h' ∷ colon ∷ m ∷ m' ∷ []) = do
  hour ← parse_uint (h ∷ h' ∷ []) 0 23
  minute ← parse_uint (m ∷ m' ∷ []) 0 59
  (if (sign == b'-' || sign == b'+') && colon == b':'
      then zoned t sign ((hour * 60 + minute) * 60)
      else none)
parse_zone t _ = none

-- What follows the seconds.
unfoldable pub parse_rest : ℕ → Bytes → Option Time
unfolding parse_fraction parse_zone
parse_rest t s = let fraction = parse_fraction s in parse_zone (t + fraction.0) fraction.1

-- `parseRFC3339`
unfoldable pub parse_rfc3339 : Bytes → Option Time
unfolding parse_uint date days_at month_days is_separated parse_rest
parse_rfc3339 s = if ltb (length s) 19 then none else do
  year ← parse_uint (slice s 0 4) 0 9999
  month ← parse_uint (slice s 5 7) 1 12
  day ← parse_uint (slice s 8 10) 1 (days_at (month_days year) (month - 1))
  hour ← parse_uint (slice s 11 13) 0 23
  minute ← parse_uint (slice s 14 16) 0 59
  second ← parse_uint (slice s 17 19) 0 59
  (if is_separated s
      then parse_rest (date year month day hour minute second 0) (drop 19 s)
      else none)

-- `time.Parse(time.RFC3339, s)`; `lax` is the general parser, which is tried on what the strict one
-- does not take.
unfoldable pub parse_time : (Bytes → Result Time) → Bytes → Result Time
unfolding parse_rfc3339
parse_time lax s = elim (parse_rfc3339 s) [ none ↦ lax s | some t ↦ ok t ]
