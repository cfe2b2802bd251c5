-- ===== src/Go/Path/Parts.antt =====
-- The parts of a path: what they are, and how they are read back.
use field_docket.Base.{
  All-reverse, ℕ, ◌≡◌, refl, ap, ◌∙◌, Bool, true, false, List, [], ◌∷◌, ◌++◌, Bytes, All, ◌==◌,
}
use field_docket.Base.Compare.{compare_bytes, same}
use field_docket.Go.Text.{join_with, is_empty}
use field_docket.Go.Path.{
  slash, dot, dot_dot, split_path, prepend, pop, push, push_all, is_rooted, parts_of,
}

abbrev pub NoSlash : Bytes → Type 0
NoSlash = All (λ c. (c == slash) ≡ false)

-- A part that stays: not empty, not `.`, and without a slash.
pub record IsPart (p : Bytes) : Type 0 where
  pub named : is_empty p ≡ false
  pub no_dot : same p dot ≡ false
  pub no_slash : NoSlash p

prepend-NoSlash :
    (c : ℕ) (ps : List Bytes) → (c == slash) ≡ false → All NoSlash ps → All NoSlash (prepend c ps)
prepend-NoSlash c [] e h = ((e, tt), tt)
prepend-NoSlash c (p ∷ ps) e h = ((e, h.0), h.1)

pub split_path-NoSlash : (s : Bytes) → All NoSlash (split_path s)
unfolding split_path
split_path-NoSlash [] = (tt, tt)
split_path-NoSlash (c ∷ s) = go (c == slash) refl (split_path-NoSlash s)
  where
    go :
        (b : Bool)
        → (c == slash) ≡ b
        → All NoSlash (split_path s)
        → All NoSlash (elim b [ true ↦ [] ∷ split_path s | false ↦ prepend c (split_path s) ])
    go true e h = (tt, h)
    go false e h = prepend-NoSlash c (split_path s) e h

pub push_all-append :
    (rooted : Bool) (kept xs ys : List Bytes)
    → push_all rooted kept (xs ++ ys) ≡ push_all rooted (push_all rooted kept xs) ys
unfolding push_all
push_all-append rooted kept [] ys = refl
push_all-append rooted kept (x ∷ xs) ys = push_all-append rooted (push rooted kept x) xs ys

dot_dot-IsPart : IsPart dot_dot
unfolding is_empty compare_bytes
dot_dot-IsPart = record { named = refl; no_dot = refl; no_slash = (refl, (refl, tt)) }

pop-IsPart : (rooted : Bool) (kept : List Bytes) → All IsPart kept → All IsPart (pop rooted kept)
unfolding pop
pop-IsPart true [] h = tt
pop-IsPart false [] h = (dot_dot-IsPart, tt)
pop-IsPart rooted (top ∷ kept) h = go (same top dot_dot)
  where
    go :
        (b : Bool)
        → All IsPart (elim b as (λ x. List Bytes) [ true ↦ dot_dot ∷ top ∷ kept | false ↦ kept ])
    go true = (dot_dot-IsPart, h)
    go false = h.1

pub push-IsPart :
    (rooted : Bool) (kept : List Bytes) (p : Bytes)
    → All IsPart kept
    → NoSlash p
    → All IsPart (push rooted kept p)
unfolding push
push-IsPart rooted kept p h n = go (is_empty p) refl (same p dot) refl (same p dot_dot)
  where
    go :
        (a : Bool)
        → is_empty p ≡ a
        → (b : Bool) → same p dot ≡ b
        → (c : Bool)
        → All IsPart (elim a as (λ x. List Bytes) [
          | true ↦ kept
          | false ↦ elim b as (λ x. List Bytes) [
            | true ↦ kept
            | false ↦ elim c as (λ x. List Bytes) [ true ↦ pop rooted kept | false ↦ p ∷ kept ]
          ]
        ])
    go true e b d c = h
    go false e true d c = h
    go false e false d true = pop-IsPart rooted kept h
    go false e false d false = (record { named = e; no_dot = d; no_slash = n }, h)

pub push_all-IsPart :
    (rooted : Bool) (kept ps : List Bytes)
    → All IsPart kept
    → All NoSlash ps
    → All IsPart (push_all rooted kept ps)
unfolding push_all
push_all-IsPart rooted kept [] h n = h
push_all-IsPart rooted kept (p ∷ ps) h n =
    push_all-IsPart rooted (push rooted kept p) ps (push-IsPart rooted kept p h n.0) n.1

pub parts_of-IsPart : (path : Bytes) → All IsPart (parts_of path)
unfolding parts_of
parts_of-IsPart path =
    All-reverse IsPart _
      (push_all-IsPart (is_rooted path) [] (split_path path) tt (split_path-NoSlash path))

-- Reading a rendered list back.
split_path-part : (p s : Bytes) → NoSlash p → split_path (p ++ slash ∷ s) ≡ p ∷ split_path s
unfolding split_path
split_path-part [] s h = refl
split_path-part (c ∷ p) s h = rw (h.0, split_path, split_path-part p s h.1) refl

split_path-last : (p : Bytes) → NoSlash p → split_path p ≡ p ∷ []
unfolding split_path
split_path-last [] h = refl
split_path-last (c ∷ p) h = rw (h.0, split_path, split_path-last p h.1) refl

pub split_path-join_with :
    (p : Bytes) (ps : List Bytes)
    → All NoSlash (p ∷ ps)
    → split_path (join_with (slash ∷ []) (p ∷ ps)) ≡ p ∷ ps
unfolding join_with
split_path-join_with p [] h = split_path-last p h.0
split_path-join_with p (q ∷ qs) h =
    split_path-part p _ h.0 ∙ ap (◌∷◌ p) (split_path-join_with q qs h.1)
