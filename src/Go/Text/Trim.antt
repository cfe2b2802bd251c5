-- ===== src/Go/Text/Trim.antt =====
-- `TrimSpace` on a padded text.
use mathlib.Core.List.{reverse-append, reverse-reverse}
use field_docket.Base.{
  ℕ, zero, suc, ◌-◌, ◌≡◌, refl, sym, ap, ◌∙◌, arith, Bool, true, false, ◌&&◌, ◌||◌, [], ◌∷◌, ◌++◌,
  append_assoc, reverse, Bytes, All, All-reverse, ◌==◌, leb, if◌then◌else◌,
}
use field_docket.Go.Text.{is_space1, leading_space, trailing_space, trim_while, trim_space}

-- White space of JSON.
abbrev pub is_json_space : ℕ → Bool
is_json_space c = c == b' ' || c == 0x09 || c == 0x0a || c == 0x0d

abbrev pub IsPad : Bytes → Type 0
IsPad = All (λ c. is_json_space c ≡ true)

json_space-is_space1 : (c : ℕ) → is_json_space c ≡ true → is_space1 c ≡ true
json_space-is_space1 c h = ground (arith, h)

leading_space-space1 : (c : ℕ) (s : Bytes) → is_space1 c ≡ true → leading_space (c ∷ s) ≡ 1
unfolding leading_space
leading_space-space1 c [] h = rw h refl
leading_space-space1 c (a ∷ []) h = rw h refl
leading_space-space1 c (a ∷ b ∷ s) h = rw h refl

trailing_space-space1 : (c : ℕ) (s : Bytes) → is_space1 c ≡ true → trailing_space (c ∷ s) ≡ 1
unfolding trailing_space
trailing_space-space1 c [] h = rw h refl
trailing_space-space1 c (a ∷ []) h = rw h refl
trailing_space-space1 c (a ∷ b ∷ s) h = rw h refl

module _ (space : Bytes → ℕ)
    (spaces : (c : ℕ) (s : Bytes) → is_space1 c ≡ true → space (c ∷ s) ≡ 1) where
  trim_while-pad :
      (pad : Bytes) (x : ℕ) (s : Bytes)
      → IsPad pad
      → space (x ∷ s) ≡ 0
      → trim_while space 0 (pad ++ x ∷ s) ≡ x ∷ s
  unfolding trim_while
  trim_while-pad [] x s h e = rw e refl
  trim_while-pad (c ∷ pad) x s (hc, h) e =
      rw (spaces c (pad ++ x ∷ s) (json_space-is_space1 c hc)) (trim_while-pad pad x s h e)

trim_while-parts :
    (space : Bytes → ℕ) (skip : ℕ) (s : Bytes)
    → (dropped : Bytes) × (s ≡ dropped ++ trim_while space skip s)
unfolding trim_while
trim_while-parts space skip [] = ([], refl)
trim_while-parts space (suc k) (x ∷ s) =
    let (d, e) = trim_while-parts space k s in (x ∷ d, ap (λ t. x ∷ t) e)
trim_while-parts space zero (x ∷ s) =
    let (d, e) = trim_while-parts space (space (x ∷ s) - 1) s in
    elim (space (x ∷ s) == 0)
      as (λ b.
        (dropped : Bytes) × (x ∷ s
          ≡ dropped ++ (if b then x ∷ s else trim_while space (space (x ∷ s) - 1) s))) [
            | true ↦ ([], refl)
            | false ↦ (x ∷ d, ap (λ t. x ∷ t) e)
          ]

-- A text whose first and last bytes are no white space, between white space.
pub trim_space-pad :
    (pre post : Bytes) (x y : ℕ) (s : Bytes)
    → IsPad pre
    → IsPad post
    → leading_space (x ∷ s ++ y ∷ post) ≡ 0
    → trailing_space (y ∷ reverse (x ∷ s)) ≡ 0
    → trim_space (pre ++ (x ∷ s ++ y ∷ post)) ≡ x ∷ s ++ y ∷ []
unfolding trim_space
trim_space-pad pre post x y s hpre hpost hx hy =
    let text = x ∷ s in
    ap (λ t. reverse (trim_while trailing_space 0 (reverse t)))
      (trim_while-pad leading_space leading_space-space1 pre x (s ++ y ∷ post) hpre hx)
    ∙ ap (λ t. reverse (trim_while trailing_space 0 t))
        (reverse-append text (y ∷ post)
          ∙ ap (λ t. t ++ reverse text) (reverse-append (y ∷ []) post)
          ∙ append_assoc (reverse post) (y ∷ []) (reverse text))
    ∙ ap reverse (
        trim_while-pad trailing_space trailing_space-space1 (reverse post) y (reverse text)
          (All-reverse (λ c. is_json_space c ≡ true) post hpost) hy)
    ∙ reverse-append (y ∷ []) (reverse text)
    ∙ ap (λ t. t ++ y ∷ []) (reverse-reverse text)

-- Behind its leading white space, what is left is the beginning of the text.
pub trim_space-begins :
    (pre : Bytes) (x : ℕ) (s : Bytes)
    → IsPad pre
    → leading_space (x ∷ s) ≡ 0
    → (rest : Bytes) × (trim_space (pre ++ x ∷ s) ++ rest ≡ x ∷ s)
unfolding trim_space
trim_space-begins pre x s hpre hx =
    let (d, e) = trim_while-parts trailing_space 0 (reverse (x ∷ s)) in
    let kept = trim_while trailing_space 0 (reverse (x ∷ s)) in
    (
      reverse d,
      ap (λ t. reverse (trim_while trailing_space 0 (reverse t)) ++ reverse d)
            (trim_while-pad leading_space leading_space-space1 pre x s hpre hx)
          ∙ sym (reverse-append d kept)
          ∙ ap reverse (sym e)
          ∙ reverse-reverse (x ∷ s),
    )

-- The visible characters of ASCII.
abbrev pub is_graphic : ℕ → Bool
is_graphic c = leb 0x21 c && leb c 0x7e

leading_space-graphic : (c : ℕ) (s : Bytes) → is_graphic c ≡ true → leading_space (c ∷ s) ≡ 0
unfolding leading_space
leading_space-graphic c [] h = ground (arith, h)
leading_space-graphic c (a ∷ []) h = ground (arith, h)
leading_space-graphic c (a ∷ b ∷ s) h = ground (arith, h)

trailing_space-graphic : (c : ℕ) (s : Bytes) → is_graphic c ≡ true → trailing_space (c ∷ s) ≡ 0
unfolding trailing_space
trailing_space-graphic c [] h = ground (arith, h)
trailing_space-graphic c (a ∷ []) h = ground (arith, h)
trailing_space-graphic c (a ∷ b ∷ s) h = ground (arith, h)

-- A text that begins and ends with visible characters is trimmed already.
pub trim_space-graphic :
    (x y : ℕ) (s : Bytes)
    → is_graphic x ≡ true
    → is_graphic y ≡ true
    → trim_space (x ∷ s ++ y ∷ []) ≡ x ∷ s ++ y ∷ []
trim_space-graphic x y s hx hy =
    trim_space-pad [] [] x y s tt tt (leading_space-graphic x _ hx) (trailing_space-graphic y _ hy)
