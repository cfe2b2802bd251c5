-- ===== src/Command/Main/Endings.antt =====
-- Which errors of the server end a session cleanly.
use field_docket.Base.{
  negsuc, pos, ℤ, ◌≡◌, refl, sym, ap, ◌∙◌, ap₂, ◌↔◌, ◌⊎◌, inl, inr, arith, Bool, true, false, ◌||◌,
  List, [], ◌∷◌, ◌++◌, Option, none, some, any_of, if◌then◌else◌, ==_iff,
}
use field_docket.Go.Errors.{
  Error, text, wrap, join, eof, rpc, not_exist, exist, tx_done, sqlite, foreign, is_eof, rpc_code,
  or_else,
}
use field_docket.Command.Main.{
  Machine, Store, code_server_closing, same_code, is_clean_shutdown, run,
}

-- The errors of the tree that wrap and join nothing, from left to right.
unfoldable pub leaves : Error → List Error
leaves (wrap m e) = leaves e
leaves (join a b) = leaves a ++ leaves b
leaves e = e ∷ []

abbrev pub is_end_of_input : Error → Bool
is_end_of_input eof = true
is_end_of_input _ = false

abbrev pub code_of : Error → Option ℤ
code_of (rpc c m) = some c
code_of _ = none

-- The code of the first JSON-RPC error.
abbrev pub first_code : List Error → Option ℤ
first_code [] = none
first_code (e ∷ es) = or_else (code_of e) (first_code es)

any_of-append :
    (p : Error → Bool) (xs ys : List Error) → any_of p (xs ++ ys) ≡ (any_of p xs || any_of p ys)
any_of-append p [] ys = refl
any_of-append p (x ∷ xs) ys = ground (arith, any_of-append p xs ys)

or_else_assoc : (a b c : Option ℤ) → or_else (or_else a b) c ≡ or_else a (or_else b c)
or_else_assoc none b c = refl
or_else_assoc (some x) b c = refl

or_else-none : (a : Option ℤ) → or_else a none ≡ a
or_else-none none = refl
or_else-none (some x) = refl

first_code-append :
    (xs ys : List Error) → first_code (xs ++ ys) ≡ or_else (first_code xs) (first_code ys)
first_code-append [] ys = refl
first_code-append (x ∷ xs) ys =
    ap (or_else (code_of x)) (first_code-append xs ys)
    ∙ sym (or_else_assoc (code_of x) (first_code xs) (first_code ys))

is_eof-leaves : (e : Error) → is_eof e ≡ any_of is_end_of_input (leaves e)
unfolding is_eof leaves
is_eof-leaves (text m) = refl
is_eof-leaves (wrap m e) = is_eof-leaves e
is_eof-leaves (join a b) =
    ap₂ (λ x y. x || y) (is_eof-leaves a) (is_eof-leaves b)
    ∙ sym (any_of-append is_end_of_input (leaves a) (leaves b))
is_eof-leaves (not_exist m) = refl
is_eof-leaves (exist m) = refl
is_eof-leaves tx_done = refl
is_eof-leaves eof = refl
is_eof-leaves (sqlite c m) = refl
is_eof-leaves (rpc c m) = refl
is_eof-leaves (foreign m) = refl

rpc_code-leaves : (e : Error) → rpc_code e ≡ first_code (leaves e)
unfolding rpc_code leaves
rpc_code-leaves (text m) = refl
rpc_code-leaves (wrap m e) = rpc_code-leaves e
rpc_code-leaves (join a b) =
    ap₂ or_else (rpc_code-leaves a) (rpc_code-leaves b)
    ∙ sym (first_code-append (leaves a) (leaves b))
rpc_code-leaves (not_exist m) = refl
rpc_code-leaves (exist m) = refl
rpc_code-leaves tx_done = refl
rpc_code-leaves eof = refl
rpc_code-leaves (sqlite c m) = refl
rpc_code-leaves (rpc c m) = refl
rpc_code-leaves (foreign m) = refl

same_code_iff : (a b : ℤ) → (same_code a b ≡ true) ↔ (a ≡ b)
unfolding same_code
same_code_iff (pos m) (pos n) = (λ h. ap pos ((==_iff m n).0 h), λ h. (==_iff m n).1 cc)
same_code_iff (pos m) (negsuc n) = (λ h. cc, λ h. cc)
same_code_iff (negsuc m) (pos n) = (λ h. cc, λ h. cc)
same_code_iff (negsuc m) (negsuc n) = (λ h. ap negsuc ((==_iff m n).0 h), λ h. (==_iff m n).1 cc)

-- The end of the input somewhere in the tree, or the code -32004 of its first JSON-RPC error.
abbrev pub IsEnd : Error → Type 0
IsEnd e =
    (any_of is_end_of_input (leaves e) ≡ true) ⊎ (first_code (leaves e) ≡ some (negsuc 32_003))

is_clean_shutdown-IsEnd : (e : Error) → (is_clean_shutdown (some e) ≡ true) ↔ IsEnd e
unfolding is_clean_shutdown
is_clean_shutdown-IsEnd e = by_code (is_eof e) (rpc_code e) (is_eof-leaves e) (rpc_code-leaves e)
  where
    by_code :
        (b : Bool) (c : Option ℤ)
        → b ≡ any_of is_end_of_input (leaves e)
        → c ≡ first_code (leaves e)
        → ((b || elim c as (λ x. Bool) [
          | none ↦ false
          | some code ↦ same_code code code_server_closing
        ])
            ≡ true)
          ↔ IsEnd e
    by_code true c hb hc = (λ _. inl (sym hb), λ _. refl)
    by_code false none hb hc = (λ h. cc, λ x. elim x [ inl h ↦ cc | inr h ↦ cc ])
    by_code false (some code) hb hc = (
      λ h. inr (sym hc ∙ ap some ((same_code_iff code code_server_closing).0 h)),
      λ x. elim x [ inl h ↦ cc | inr h ↦ (same_code_iff code code_server_closing).1 cc ],
    )

-- `run` reports no error exactly if the server ends without one, or with one in whose tree of
-- wrapped and joined errors there is an end of the input, or the first JSON-RPC error says that
-- the server is closing. Otherwise it reports the server's error.
run-IsEnd :
    (M : Machine) (st : Option (Store M)) (unavailable : Option Error) (w : M.World) (e : Error)
    → (M.serve st unavailable w).1 ≡ some e
    → (((run M st unavailable w).1 ≡ none) ↔ IsEnd e)
      × (((run M st unavailable w).1 ≡ none) ⊎ ((run M st unavailable w).1 ≡ some e))
unfolding run
run-IsEnd M st unavailable w e h =
    rw (h) (by_test (is_clean_shutdown (some e)) (is_clean_shutdown-IsEnd e))
  where
    by_test :
        (b : Bool)
        → (b ≡ true) ↔ IsEnd e
        → (((if b then none else some e) ≡ none) ↔ IsEnd e)
          × (((if b then none else some e) ≡ none) ⊎ ((if b then none else some e) ≡ some e))
    by_test true (there, back) = ((λ _. there refl, λ _. refl), inl refl)
    by_test false (there, back) = ((λ n. cc, λ x. let no = back x in cc), inr refl)
