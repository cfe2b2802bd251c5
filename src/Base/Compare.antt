-- ===== src/Base/Compare.antt =====
-- The order of Go strings and of SQLite's BINARY collation: bytes, left to right.
use field_docket.Base.Lists.{Bytes, length, concat}
use Prim.Native.Nat.{ℕ, ◌+◌, ◌*◌, ◌≤◌, ◌<◌, compare, Ordering}
use mathlib.Core.Path.{◌≡◌, refl, ap, ◌∙◌}
use mathlib.Core.Bool.{Bool, true, false}
use mathlib.Core.Logic.{◌↔◌}
use mathlib.Core.List.{List, [], ◌∷◌, ◌++◌}
use native.Mathlib.Omega.{arith}

-- The second order decides where the first sees no difference.
abbrev pub and_then : Ordering → Ordering → Ordering
and_then Ordering.lt o = Ordering.lt
and_then Ordering.eq o = o
and_then Ordering.gt o = Ordering.gt

abbrev pub flip : Ordering → Ordering
flip Ordering.lt = Ordering.gt
flip Ordering.eq = Ordering.eq
flip Ordering.gt = Ordering.lt

unfoldable pub compare_bytes : Bytes → Bytes → Ordering
compare_bytes [] [] = Ordering.eq
compare_bytes [] (y ∷ ys) = Ordering.lt
compare_bytes (x ∷ xs) [] = Ordering.gt
compare_bytes (x ∷ xs) (y ∷ ys) = and_then (compare x y) (compare_bytes xs ys)

abbrev pub is_lt : Ordering → Bool
is_lt Ordering.lt = true
is_lt Ordering.eq = false
is_lt Ordering.gt = false

abbrev pub is_eq : Ordering → Bool
is_eq Ordering.lt = false
is_eq Ordering.eq = true
is_eq Ordering.gt = false

pub and_then_assoc : (a b c : Ordering) → and_then (and_then a b) c ≡ and_then a (and_then b c)
and_then_assoc Ordering.lt b c = refl
and_then_assoc Ordering.eq b c = refl
and_then_assoc Ordering.gt b c = refl

pub flip-and_then : (a b : Ordering) → flip (and_then a b) ≡ and_then (flip a) (flip b)
flip-and_then Ordering.lt b = refl
flip-and_then Ordering.eq b = refl
flip-and_then Ordering.gt b = refl

pub compare_bytes-eq : (a b : Bytes) → (compare_bytes a b ≡ Ordering.eq) ↔ (a ≡ b)
unfolding compare_bytes
compare_bytes-eq [] [] = (λ _. refl, λ _. refl)
compare_bytes-eq [] (y ∷ ys) = (λ h. cc, λ h. cc)
compare_bytes-eq (x ∷ xs) [] = (λ h. cc, λ h. cc)
compare_bytes-eq (x ∷ xs) (y ∷ ys) = ground (arith, compare_bytes-eq xs ys)

pub compare_bytes_refl : (a : Bytes) → compare_bytes a a ≡ Ordering.eq
compare_bytes_refl a = (compare_bytes-eq a a).1 refl

pub compare_bytes-flip : (a b : Bytes) → compare_bytes b a ≡ flip (compare_bytes a b)
unfolding compare_bytes
compare_bytes-flip [] [] = refl
compare_bytes-flip [] (y ∷ ys) = refl
compare_bytes-flip (x ∷ xs) [] = refl
compare_bytes-flip (x ∷ xs) (y ∷ ys) = ground (arith, compare_bytes-flip xs ys)

pub compare_bytes_trans :
    (a b c : Bytes)
    → compare_bytes a b ≡ Ordering.lt
    → compare_bytes b c ≡ Ordering.lt
    → compare_bytes a c ≡ Ordering.lt
unfolding compare_bytes
compare_bytes_trans [] [] c p q = cc
compare_bytes_trans [] (y ∷ b) [] p q = cc
compare_bytes_trans [] (y ∷ b) (z ∷ c) p q = refl
compare_bytes_trans (x ∷ a) [] c p q = cc
compare_bytes_trans (x ∷ a) (y ∷ b) [] p q = cc
compare_bytes_trans (x ∷ a) (y ∷ b) (z ∷ c) p q = ground (arith, compare_bytes_trans a b c)

-- Texts that begin with parts of one length compare part by part.
pub compare_bytes-append :
    (a b c d : Bytes)
    → length a ≡ length b
    → compare_bytes (a ++ c) (b ++ d) ≡ and_then (compare_bytes a b) (compare_bytes c d)
unfolding compare_bytes
compare_bytes-append [] [] c d h = refl
compare_bytes-append [] (y ∷ b) c d h = absurd (omega arith)
compare_bytes-append (x ∷ a) [] c d h = absurd (omega arith)
compare_bytes-append (x ∷ a) (y ∷ b) c d h =
    ground (arith, compare_bytes-append a b c d (omega arith))

mul-lt : (q q' k : ℕ) → q < q' → q * k + k ≤ q' * k
mul-lt q q' k h = grind arith

-- Numbers in one mixed radix compare digit by digit.
pub compare-radix :
    (k q r q' r' : ℕ)
    → r < k
    → r' < k
    → compare (q * k + r) (q' * k + r') ≡ and_then (compare q q') (compare r r')
compare-radix k q r q' r' h h' = ground (arith, mul-lt q q' k, mul-lt q' q k)

abbrev pub same : Bytes → Bytes → Bool
same a b = is_eq (compare_bytes a b)

pub same_iff : (a b : Bytes) → (same a b ≡ true) ↔ (a ≡ b)
same_iff a b = ground (arith, compare_bytes-eq a b)

-- Texts in parts of equal lengths compare part by part.
abbrev pub compare_parts : List Bytes → List Bytes → Ordering
compare_parts [] [] = Ordering.eq
compare_parts [] (b ∷ bs) = Ordering.lt
compare_parts (a ∷ as') [] = Ordering.gt
compare_parts (a ∷ as') (b ∷ bs) = and_then (compare_bytes a b) (compare_parts as' bs)

abbrev pub SameLengths : List Bytes → List Bytes → Type 0
SameLengths [] [] = Unit
SameLengths [] (b ∷ bs) = ⊥
SameLengths (a ∷ as') [] = ⊥
SameLengths (a ∷ as') (b ∷ bs) = (length a ≡ length b) × SameLengths as' bs

pub compare_bytes-concat :
    (as' bs : List Bytes)
    → SameLengths as' bs
    → compare_bytes (concat as') (concat bs) ≡ compare_parts as' bs
unfolding compare_bytes
compare_bytes-concat [] [] h = refl
compare_bytes-concat [] (b ∷ bs) h = absurd h
compare_bytes-concat (a ∷ as') [] h = absurd h
compare_bytes-concat (a ∷ as') (b ∷ bs) h =
    compare_bytes-append a b (concat as') (concat bs) h.0
    ∙ ap (and_then (compare_bytes a b)) (compare_bytes-concat as' bs h.1)
