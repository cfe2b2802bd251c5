-- ===== src/Go/Path/Replay.antt =====
-- A part that `Clean` kept is taken again by a later `Clean` as the parts that led to it were.
use field_docket.Base.{
  ◌≡◌, refl, sym, ap, ◌∙◌, Bool, true, false, List, [], ◌∷◌, reverse, arith, Bytes, All, Bool-cases,
  inl, inr,
}
use mathlib.Core.List.{reverse-append}
use field_docket.Base.Compare.{compare_bytes, same}
use field_docket.Go.Text.{is_empty}
use field_docket.Go.Path.{dot, dot_dot, pop, push, push_all}
use field_docket.Go.Path.Parts.{NoSlash, IsPart, push_all-append, push-IsPart}

push-part :
    (r : Bool) (st : List Bytes) (p : Bytes)
    → is_empty p ≡ false
    → same p dot ≡ false
    → same p dot_dot ≡ false
    → push r st p ≡ p ∷ st
unfolding push
push-part r st p named no_dot part = ground arith

push-back : (r : Bool) (st : List Bytes) → push r st dot_dot ≡ pop r st
unfolding push is_empty compare_bytes
push-back r st = refl

pop-back :
    (r : Bool) (st : List Bytes) (p : Bytes)
    → same p dot_dot ≡ true
    → pop r (p ∷ st) ≡ dot_dot ∷ p ∷ st
unfolding pop
pop-back r st p e = ground arith

pop-part : (r : Bool) (st : List Bytes) (p : Bytes) → same p dot_dot ≡ false → pop r (p ∷ st) ≡ st
unfolding pop
pop-part r st p e = ground arith

-- Taking the kept parts `kept` behind `st`.
abbrev pub replay : Bool → List Bytes → List Bytes → List Bytes
replay r st kept = push_all r st (reverse kept)

replay-cons :
    (r : Bool) (st : List Bytes) (p : Bytes) (kept : List Bytes)
    → replay r st (p ∷ kept) ≡ push r (replay r st kept) p
unfolding push_all
replay-cons r st p kept =
    ap (push_all r st) (reverse-append (p ∷ []) kept) ∙ push_all-append r st (reverse kept) (p ∷ [])

-- In `Clean` with `inner`, nothing is lost for a later `Clean` with `r` behind `st`.
module _ (inner r : Bool) (st : List Bytes) (base : replay r st (pop inner []) ≡ pop r st) where
  pop-replay :
      (kept : List Bytes)
      → All IsPart kept
      → pop r (replay r st kept) ≡ replay r st (pop inner kept)
  unfolding push_all
  pop-replay [] h = sym base
  pop-replay (top ∷ kept) h = elim (Bool-cases (same top dot_dot)) [
    | inl back ↦
        rw (pop-back inner kept top back)
          (sym (replay-cons r st dot_dot (top ∷ kept) ∙ push-back r (replay r st (top ∷ kept))))
    | inr part ↦
        ap (pop r)
          (replay-cons r st top kept ∙ push-part r (replay r st kept) top h.0.named h.0.no_dot part)
        ∙ pop-part r (replay r st kept) top part
        ∙ ap (replay r st) (sym (pop-part inner kept top part))
  ]

  push-replay :
      (kept : List Bytes) (p : Bytes)
      → All IsPart kept
      → push r (replay r st kept) p ≡ replay r st (push inner kept p)
  unfolding push
  push-replay kept p h = go (is_empty p) refl (same p dot) refl (same p dot_dot) refl
    where
      go :
          (a : Bool)
          → is_empty p ≡ a
          → (b : Bool) → same p dot ≡ b
          → (c : Bool) → same p dot_dot ≡ c
          → (elim a as (λ x. List Bytes) [
            | true ↦ replay r st kept
            | false ↦ elim b as (λ x. List Bytes) [
              | true ↦ replay r st kept
              | false ↦ elim c as (λ x. List Bytes) [
                | true ↦ pop r (replay r st kept)
                | false ↦ p ∷ replay r st kept
              ]
            ]
          ])
            ≡ replay r st (elim a as (λ x. List Bytes) [
              | true ↦ kept
              | false ↦ elim b as (λ x. List Bytes) [
                | true ↦ kept
                | false ↦ elim c as (λ x. List Bytes) [ true ↦ pop inner kept | false ↦ p ∷ kept ]
              ]
            ])
      go true e b d c f = refl
      go false e true d c f = refl
      go false e false d true f = pop-replay kept h
      go false e false d false f =
          sym (replay-cons r st p kept ∙ push-part r (replay r st kept) p e d f)

  pub push_all-replay :
      (kept ps : List Bytes)
      → All IsPart kept
      → All NoSlash ps
      → push_all r (replay r st kept) ps ≡ replay r st (push_all inner kept ps)
  unfolding push_all
  push_all-replay kept [] h n = refl
  push_all-replay kept (p ∷ ps) h n =
      ap (λ k. push_all r k ps) (push-replay kept p h)
      ∙ push_all-replay (push inner kept p) ps (push-IsPart inner kept p h n.0) n.1
