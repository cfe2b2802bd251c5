-- ===== src/Server/Review/Walk/Cut.antt =====
-- A page of a match and the rows behind it.
use field_docket.Base.{
  ℕ, zero, suc, ◌<◌, ◌≡◌, refl, ap, ◌⊎◌, inl, inr, arith, List, [], ◌∷◌, ◌++◌, take, length,
}
use field_docket.Store.Types.{Record}

abbrev pub IsCut : ℕ → List Record → Type 0
IsCut n rows =
    (xs : List Record) × (k : Record) × (ys : List Record) × (rows ≡ xs ++ k ∷ ys)
    × (take n rows ≡ xs ++ k ∷ [])
    × (length ys < length rows)
    × (length (take n rows) < length rows)

pub page-IsCut : (n : ℕ) (rows : List Record) → (take (suc n) rows ≡ rows) ⊎ IsCut (suc n) rows
page-IsCut n [] = inl refl
page-IsCut zero (x ∷ []) = inl refl
page-IsCut zero (x ∷ y ∷ ys) = inr ([], x, y ∷ ys, refl, refl, omega arith, omega arith)
page-IsCut (suc n) (x ∷ rows) = elim (page-IsCut n rows) [
  | inl whole ↦ inl (ap (λ t. x ∷ t) whole)
  | inr (xs, k, ys, e, cut, shorter, more) ↦ inr (
    x ∷ xs,
    k,
    ys,
    ap (λ t. x ∷ t) e,
    ap (λ t. x ∷ t) cut,
    omega (arith, shorter),
    omega (arith, more),
  )
]
