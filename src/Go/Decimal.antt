-- ===== src/Go/Decimal.antt =====
-- Numbers as text: `%d`, and the zero-padded fields of a time layout.
use field_docket.Base.{
  ℕ, zero, suc, ◌+◌, ◌/◌, ◌%◌, ◌^◌, ◌<◌, ◌≡◌, refl, sym, ◌∙◌, true, false, [], ◌∷◌, ◌++◌, arith,
  Bytes, compare, length, length-append, ltb,
}
use field_docket.Base.Compare.{compare_bytes, and_then, compare_bytes-append}
use native.Mathlib.Nat.{pow-suc}

-- The last `w` digits.
unfoldable pub pad : ℕ → ℕ → Bytes
pad zero n = []
pad (suc w) n = pad w (n / 10) ++ (b'0' + n % 10) ∷ []

digits_loop : ℕ → ℕ → Bytes → Bytes
digits_loop zero n out = out
digits_loop (suc fuel) n out = elim (ltb n 10) [
  | true ↦ (b'0' + n) ∷ out
  | false ↦ digits_loop fuel (n / 10) ((b'0' + n % 10) ∷ out)
]

-- `%d` of a natural number.
unfoldable pub decimal : ℕ → Bytes
unfolding digits_loop
decimal n = digits_loop (suc n) n []

pub length-pad : (w n : ℕ) → length (pad w n) ≡ w
unfolding pad
length-pad zero n = refl
length-pad (suc w) n =
    omega (arith, length-append {0} (pad w (n / 10)) ((b'0' + n % 10) ∷ []), length-pad w (n / 10))

pub div-lt : (n w : ℕ) → n < 10 ^ suc w → n / 10 < 10 ^ w
div-lt n w h = omega (arith, pow-suc 10 w)

digit-compare : (a b : ℕ) → compare_bytes ((b'0' + a) ∷ []) ((b'0' + b) ∷ []) ≡ compare a b
unfolding compare_bytes
digit-compare a b = ground arith

compare-digits :
    (n m : ℕ) → compare n m ≡ and_then (compare (n / 10) (m / 10)) (compare (n % 10) (m % 10))
compare-digits n m = ground arith

-- Padded fields compare as text the way they compare as numbers.
pub compare_bytes-pad :
    (w n m : ℕ) → n < 10 ^ w → m < 10 ^ w → compare_bytes (pad w n) (pad w m) ≡ compare n m
unfolding pad compare_bytes
compare_bytes-pad zero n m h h' = ground arith
compare_bytes-pad (suc w) n m h h' =
    rw
      (
        compare_bytes-append (pad w (n / 10)) (pad w (m / 10)) _ _
            (length-pad w (n / 10) ∙ sym (length-pad w (m / 10))),
        compare_bytes-pad w (n / 10) (m / 10) (div-lt n w h) (div-lt m w h'),
        digit-compare (n % 10) (m % 10),
      )
      (sym (compare-digits n m))
