-- ===== src/Command/Exempt.antt =====
-- Which stores the allowlist exempts.
use field_docket.Base.{
  ◌≡◌, sym, ◌∙◌, ◌↔◌, ◌⊎◌, true, List, [], ◌∷◌, map, arith, Bytes, if◌then◌else◌,
}
use field_docket.Base.Compare.{same_iff}
use field_docket.Go.Errors.{ok, ok-injective}
use field_docket.Go.Path.{clean, abs, is_rooted, join_path}
use field_docket.Go.Path.Spelling.{abs-clean}
use field_docket.Command.{any_names, allowlisted}

-- The absolute form of a path, from the working directory `d`.
abbrev pub located : Bytes → Bytes → Bytes
located d path = if is_rooted path then clean path else join_path (d ∷ path ∷ [])

pub abs-located : (d path : Bytes) → abs (ok d) path ≡ ok (located d path)
unfolding abs
abs-located d path = ground arith

-- Some entry lies where the path does.
abbrev pub IsListed : Bytes → Bytes → List Bytes → Type 0
IsListed d path [] = ⊥
IsListed d path (entry ∷ entries) = (located d entry ≡ located d path) ⊎ IsListed d path entries

any_names-IsListed :
    (d path : Bytes) (entries : List Bytes)
    → (any_names (ok d) (located d path) entries ≡ ok true) ↔ IsListed d path entries
unfolding any_names
any_names-IsListed d path [] = (λ h. ground arith, λ h. absurd h)
any_names-IsListed d path (entry ∷ entries) =
    rw (abs-located d entry) (
      ground
        (arith, same_iff (located d entry) (located d path), any_names-IsListed d path entries))

-- From a known working directory the allowlist exempts a store exactly if one of its entries is
-- the store's path when both are made absolute and cleaned.
pub allowlisted-IsListed :
    (d path : Bytes) (entries : List Bytes)
    → (allowlisted (ok d) path entries ≡ ok true) ↔ IsListed d path entries
unfolding allowlisted
allowlisted-IsListed d path [] = (λ h. ground arith, λ h. absurd h)
allowlisted-IsListed d path (entry ∷ entries) =
    rw (abs-located d path) (any_names-IsListed d path (entry ∷ entries))

located-clean : (d path : Bytes) → is_rooted d ≡ true → located d (clean path) ≡ located d path
located-clean d path h =
    ok-injective (sym (abs-located d (clean path)) ∙ abs-clean d path h ∙ abs-located d path)

IsListed-clean :
    (d path : Bytes) (entries : List Bytes)
    → is_rooted d ≡ true
    → IsListed d (clean path) (map clean entries) ↔ IsListed d path entries
IsListed-clean d path [] h = (λ x. x, λ x. x)
IsListed-clean d path (entry ∷ entries) h =
    ground (arith, located-clean d path h, located-clean d entry h, IsListed-clean d path entries h)

-- How the paths are spelled does not matter: with an absolute working directory, cleaning the
-- store's path and every entry changes no exemption.
allowlisted-clean :
    (d path : Bytes) (entries : List Bytes)
    → is_rooted d ≡ true
    → (allowlisted (ok d) (clean path) (map clean entries) ≡ ok true)
      ↔ (allowlisted (ok d) path entries ≡ ok true)
allowlisted-clean d path entries h =
    let before = allowlisted-IsListed d (clean path) (map clean entries) in
    let after = allowlisted-IsListed d path entries in
    let same_entries = IsListed-clean d path entries h in
    (λ e. after.1 (same_entries.0 (before.0 e)), λ e. before.1 (same_entries.1 (after.0 e)))
