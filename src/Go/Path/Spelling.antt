-- ===== src/Go/Path/Spelling.antt =====
-- `Clean` is idempotent, and `Abs` does not depend on how a path is spelled.
use field_docket.Base.{
  ℕ, ◌≡◌, refl, sym, ap, ap₂, ◌∙◌, Bool, true, false, List, [], ◌∷◌, ◌++◌, reverse, arith, Bytes,
  All, ◌==◌, Bool-cases, inl, inr,
}
use field_docket.Base.Compare.{compare_bytes}
use field_docket.Go.Errors.{Result, ok}
use field_docket.Go.Text.{join_with, is_empty}
use field_docket.Go.Path.{
  slash, split_path, prepend, pop, push, push_all, is_rooted, parts_of, render, clean, join_path,
  abs,
}
use field_docket.Go.Path.Parts.{
  NoSlash, IsPart, push_all-append, split_path-NoSlash, parts_of-IsPart, split_path-join_with,
}
use field_docket.Go.Path.Replay.{replay, push_all-replay}

-- `Clean` reads its own result back.
push_all-parts_of :
    (r : Bool) (st : List Bytes) (path : Bytes)
    → replay r st (pop (is_rooted path) []) ≡ pop r st
    → push_all r st (parts_of path) ≡ push_all r st (split_path path)
unfolding parts_of push_all
push_all-parts_of r st path base =
    sym
      (push_all-replay (is_rooted path) r st base [] (split_path path) tt (split_path-NoSlash path))

All-NoSlash : (ps : List Bytes) → All IsPart ps → All NoSlash ps
All-NoSlash [] h = tt
All-NoSlash (p ∷ ps) h = (h.0.no_slash, All-NoSlash ps h.1)

push_all-render :
    (b r : Bool) (st ps : List Bytes)
    → All IsPart ps
    → push_all r st (split_path (render b ps)) ≡ push_all r st ps
unfolding render push_all push split_path join_with is_empty compare_bytes
push_all-render true r st [] h = refl
push_all-render false r st [] h = refl
push_all-render true r st (p ∷ ps) h =
    ap (push_all r st) (split_path-join_with p ps (All-NoSlash (p ∷ ps) h))
push_all-render false r st (p ∷ ps) h =
    ap (push_all r st) (split_path-join_with p ps (All-NoSlash (p ∷ ps) h))

is_rooted-join_with :
    (p : Bytes) (ps : List Bytes) → IsPart p → is_rooted (join_with (slash ∷ []) (p ∷ ps)) ≡ false
unfolding join_with is_rooted is_empty
is_rooted-join_with [] ps h = cc
is_rooted-join_with (c ∷ p) [] h = h.no_slash.0
is_rooted-join_with (c ∷ p) (q ∷ qs) h = h.no_slash.0

is_rooted-render : (b : Bool) (ps : List Bytes) → All IsPart ps → is_rooted (render b ps) ≡ b
unfolding render is_rooted
is_rooted-render true ps h = refl
is_rooted-render false [] h = refl
is_rooted-render false (p ∷ ps) h = is_rooted-join_with p ps h.0

pub is_rooted-clean : (path : Bytes) → is_rooted (clean path) ≡ is_rooted path
unfolding clean
is_rooted-clean path = is_rooted-render (is_rooted path) (parts_of path) (parts_of-IsPart path)

push_all-clean :
    (r : Bool) (st : List Bytes) (path : Bytes)
    → replay r st (pop (is_rooted path) []) ≡ pop r st
    → push_all r st (split_path (clean path)) ≡ push_all r st (split_path path)
unfolding clean
push_all-clean r st path base =
    push_all-render (is_rooted path) r st (parts_of path) (parts_of-IsPart path)
    ∙ push_all-parts_of r st path base

replay-pop : (r : Bool) → replay r [] (pop r []) ≡ pop r []
unfolding push_all pop push is_empty compare_bytes
replay-pop true = refl
replay-pop false = refl

pub clean-clean : (path : Bytes) → clean (clean path) ≡ clean path
unfolding clean parts_of
clean-clean path = ap₂ render (is_rooted-clean path) (
    ap reverse (
      ap (λ r. push_all r [] (split_path (clean path))) (is_rooted-clean path)
      ∙ push_all-clean (is_rooted path) [] path (replay-pop (is_rooted path))))

IsNonempty : List Bytes → Type 0
IsNonempty [] = ⊥
IsNonempty (p ∷ ps) = Unit

prepend-IsNonempty : (c : ℕ) (ps : List Bytes) → IsNonempty (prepend c ps)
unfolding IsNonempty
prepend-IsNonempty c [] = tt
prepend-IsNonempty c (p ∷ ps) = tt

prepend-append :
    (c : ℕ) (ps qs : List Bytes) → IsNonempty ps → prepend c (ps ++ qs) ≡ prepend c ps ++ qs
unfolding IsNonempty
prepend-append c [] qs h = absurd h
prepend-append c (p ∷ ps) qs h = refl

split_path-IsNonempty : (s : Bytes) → IsNonempty (split_path s)
unfolding split_path IsNonempty
split_path-IsNonempty [] = tt
split_path-IsNonempty (c ∷ s) = go (c == slash)
  where
    go :
        (b : Bool)
        → IsNonempty (elim b as (λ x. List Bytes) [
          | true ↦ [] ∷ split_path s
          | false ↦ prepend c (split_path s)
        ])
    go true = tt
    go false = prepend-IsNonempty c (split_path s)

split_path-append : (a b : Bytes) → split_path (a ++ slash ∷ b) ≡ split_path a ++ split_path b
unfolding split_path
split_path-append [] b = refl
split_path-append (c ∷ a) b = go (c == slash) (split_path-append a b)
  where
    go :
        (t : Bool)
        → split_path (a ++ slash ∷ b) ≡ split_path a ++ split_path b
        → (elim t as (λ x. List Bytes) [
          | true ↦ [] ∷ split_path (a ++ slash ∷ b)
          | false ↦ prepend c (split_path (a ++ slash ∷ b))
        ])
          ≡ (elim t as (λ x. List Bytes) [
            | true ↦ [] ∷ split_path a
            | false ↦ prepend c (split_path a)
          ])
            ++ split_path b
    go true ih = ap (◌∷◌ []) ih
    go false ih =
        ap (prepend c) ih ∙ prepend-append c (split_path a) (split_path b) (split_path-IsNonempty a)

replay-relative : (r : Bool) (st : List Bytes) → replay r st (pop false []) ≡ pop r st
unfolding push_all pop push is_empty compare_bytes
replay-relative r st = refl

pub join_path-two :
    (d path : Bytes) → is_rooted d ≡ true → join_path (d ∷ path ∷ []) ≡ clean (d ++ slash ∷ path)
unfolding join_path join_with is_empty is_rooted
join_path-two [] path h = cc
join_path-two (c ∷ d) path h = refl

pub is_rooted-append : (d s : Bytes) → is_rooted d ≡ true → is_rooted (d ++ s) ≡ true
unfolding is_rooted
is_rooted-append [] s h = cc
is_rooted-append (c ∷ d) s h = h

-- Behind a directory a relative path and its cleaned form come to the same.
clean-behind :
    (d path : Bytes)
    → is_rooted d ≡ true
    → is_rooted path ≡ false
    → clean (d ++ slash ∷ clean path) ≡ clean (d ++ slash ∷ path)
unfolding clean parts_of
clean-behind d path h rel = ap₂ render roots (ap reverse parts)
  where
    roots : is_rooted (d ++ slash ∷ clean path) ≡ is_rooted (d ++ slash ∷ path)
    roots = is_rooted-append d _ h ∙ sym (is_rooted-append d _ h)

    behind :
        (q : Bytes)
        → push_all (is_rooted (d ++ slash ∷ q)) [] (split_path (d ++ slash ∷ q))
          ≡ push_all true (push_all true [] (split_path d)) (split_path q)
    behind q =
        ap₂ (λ (r : Bool) (ps : List Bytes). push_all r [] ps) (is_rooted-append d _ h)
          (split_path-append d q)
        ∙ push_all-append true [] (split_path d) (split_path q)

    parts :
        push_all (is_rooted (d ++ slash ∷ clean path)) [] (split_path (d ++ slash ∷ clean path))
        ≡ push_all (is_rooted (d ++ slash ∷ path)) [] (split_path (d ++ slash ∷ path))
    parts =
        behind (clean path)
        ∙ push_all-clean true (push_all true [] (split_path d)) path (
            ap (λ r. replay true (push_all true [] (split_path d)) (pop r [])) rel
            ∙ replay-relative true (push_all true [] (split_path d)))
        ∙ sym (behind path)

abs-rooted :
    (cwd : Result Bytes) (path : Bytes) → is_rooted path ≡ true → abs cwd path ≡ ok (clean path)
unfolding abs
abs-rooted cwd path h = ground arith

abs-relative :
    (d path : Bytes) → is_rooted path ≡ false → abs (ok d) path ≡ ok (join_path (d ∷ path ∷ []))
unfolding abs
abs-relative d path h = ground arith

-- The absolute form of a path is that of its cleaned form, from an absolute working directory.
pub abs-clean : (d path : Bytes) → is_rooted d ≡ true → abs (ok d) (clean path) ≡ abs (ok d) path
abs-clean d path h = elim (Bool-cases (is_rooted path)) [
  | inl rooted ↦
      abs-rooted (ok d) (clean path) (is_rooted-clean path ∙ rooted)
      ∙ ap ok (clean-clean path)
      ∙ sym (abs-rooted (ok d) path rooted)
  | inr rel ↦
      abs-relative d (clean path) (is_rooted-clean path ∙ rel)
      ∙ ap ok (
          join_path-two d (clean path) h ∙ clean-behind d path h rel ∙ sym (join_path-two d path h))
      ∙ sym (abs-relative d path rel)
]
