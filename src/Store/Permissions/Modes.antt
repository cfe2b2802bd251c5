-- ===== src/Store/Permissions/Modes.antt =====
-- The mode test `perm&0o077 != 0` of CheckPermissions as arithmetic.
use Prim.Native.Nat.{min, digits, bit_and, bit_and-bitwise}
use native.Mathlib.Nat.{le_refl}
use field_docket.Base.{ℕ, zero, suc, ◌+◌, ◌*◌, ◌/◌, ◌%◌, ◌≤◌, ◌≡◌, refl, ◌↔◌, false, arith}
use field_docket.Store.Permissions.{is_loose}

-- The digits that two numbers share, for `count` digits.
abbrev shared : ℕ → ℕ → ℕ → ℕ
shared count a b = digits (λ _. 0) min count a b

shared-zero : (count a : ℕ) → shared count a 0 ≡ 0
shared-zero zero a = refl
shared-zero (suc count) zero = refl
shared-zero (suc count) (suc a) = omega (arith, shared-zero count (suc a / 2))

zero-shared : (count b : ℕ) → shared count 0 b ≡ 0
zero-shared zero b = refl
zero-shared (suc count) b = refl

abbrev fewer : ℕ → ℕ
fewer zero = zero
fewer (suc count) = count

-- The lowest digit stands apart from the others.
shared-lowest :
    (count a b : ℕ)
    → a ≤ count
    → shared count a b ≡ shared (fewer count) (a / 2) (b / 2) * 2 + min (a % 2) (b % 2)
shared-lowest zero zero b h = omega arith
shared-lowest zero (suc a) b h = absurd (omega arith)
shared-lowest (suc count) zero b h = omega (arith, zero-shared count (b / 2))
shared-lowest (suc count) (suc a) b h = refl

half_fewer : (count a : ℕ) → a ≤ count → a / 2 ≤ fewer count
half_fewer zero a h = omega arith
half_fewer (suc count) a h = omega arith

-- A mask whose lowest digit is one shares the lowest digit, and what the rest of it shares.
shared-more :
    (count a mask : ℕ) {rest : ℕ}
    → a ≤ count
    → mask % 2 ≡ 1
    → shared (fewer count) (a / 2) (mask / 2) ≡ rest
    → shared count a mask ≡ rest * 2 + a % 2
shared-more count a mask h odd ih = omega (arith, shared-lowest count a mask h)

-- The six bits of 0o077 are the remainder by 64.
shared-six : (count a : ℕ) → a ≤ count → shared count a 0o077 ≡ a % 64
shared-six count a h =
    let h1 = half_fewer count a h in
    let h2 = half_fewer _ _ h1 in
    let h3 = half_fewer _ _ h2 in
    let h4 = half_fewer _ _ h3 in
    let h5 = half_fewer _ _ h4 in
    let six = shared-more _ _ 0o077 h refl (
      shared-more _ _ 0o037 h1 refl (
        shared-more _ _ 0o017 h2 refl (
          shared-more _ _ 0o7 h3 refl
            (shared-more _ _ 0o3 h4 refl (shared-more _ _ 0o1 h5 refl (shared-zero _ _)))))) in
    omega (arith, six)

bit_and-six : (a : ℕ) → bit_and a 0o077 ≡ a % 64
bit_and-six a = simp bit_and-bitwise (shared-six a a (le_refl a))

-- The test looks at the six bits of the group and the others: a mode passes it if none is set.
pub is_loose_iff : (perm : ℕ) → (is_loose perm ≡ false) ↔ (perm % 64 ≡ 0)
unfolding is_loose
is_loose_iff perm = ground (arith, bit_and-six perm)
