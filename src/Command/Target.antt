-- ===== src/Command/Target.antt =====
-- Which stores are served.
use field_docket.Base.{
  ◌≡◌, refl, sym, ap, ◌∙◌, ◌↔◌, ◌⊎◌, inl, inr, Bool, true, false, List, [], ◌∷◌, arith, Bytes, none,
  if◌then◌else◌,
}
use mathlib.Core.Path.{subst}
use field_docket.Go.Errors.{Result, ok, err, ◌>>=◌, ok-injective}
use field_docket.Go.Host.{Host}
use field_docket.Config.{File, Config, load}
use field_docket.Store.Permissions.{PermissionIssue, Files, check_permissions}
use field_docket.Store.Permissions.Private.{ArePrivate, check_permissions-nil}
use field_docket.Command.Exempt.{IsListed, allowlisted-IsListed}
use field_docket.Command.{
  StoreTarget, store_path, judge, allowlisted, resolve_store, usable, unusable_for,
}

-- Nothing outside the owner's account reaches the store's files, or this cannot be seen.
abbrev pub IsGuarded : Files → Bytes → Type 0
IsGuarded F path = (F.is_windows ≡ true) ⊎ ArePrivate F path

abbrev pub IsExempt : Host → Config → Bytes → Type 0
IsExempt H cfg path = allowlisted H.cwd path cfg.allow_unsafe_permissions ≡ ok true

-- A target of a path that is served exactly where it is clear or exempted.
abbrev pub IsDecision : Bytes → Type 0 → Type 0 → StoreTarget → Type 0
IsDecision path Clear Exempted t = (t.path ≡ path) × ((t.unusable ≡ none) ↔ (Clear ⊎ Exempted))

decide :
    (H : Host) (cfg : Config) (path : Bytes) (issues : List PermissionIssue) {t : StoreTarget}
    → judge H cfg path issues ≡ ok t
    → IsDecision path (issues ≡ []) (IsExempt H cfg path) t
unfolding judge
decide H cfg path [] {t} h =
    subst (IsDecision path ([] ≡ []) (IsExempt H cfg path)) (ok-injective h)
      (refl, (λ _. inl refl, λ _. refl))
decide H cfg path (issue ∷ issues) {t} h =
    by_list (allowlisted H.cwd path cfg.allow_unsafe_permissions) refl h
  where
    by_list :
        (r : Result Bool)
        → allowlisted H.cwd path cfg.allow_unsafe_permissions ≡ r
        → (do exempt ← r; ok (if exempt then usable path else unusable_for path (issue ∷ issues)))
          ≡ ok t
        → IsDecision path ((issue ∷ issues) ≡ []) (IsExempt H cfg path) t
    by_list (ok true) e h' =
        subst (IsDecision path ((issue ∷ issues) ≡ []) (IsExempt H cfg path)) (ok-injective h')
          (refl, (λ _. inr e, λ _. refl))
    by_list (ok false) e h' =
        subst (IsDecision path ((issue ∷ issues) ≡ []) (IsExempt H cfg path)) (ok-injective h')
          (refl, (λ n. ground arith, λ x. elim x [ inl n ↦ cc | inr y ↦ ground arith ]))
    by_list (err x) e h' = cc

pub resolve_store-judged :
    (H : Host) (F : Files) (unmarshal : Bytes → Result File) (override : Bytes) {cfg : Config}
    {path : Bytes} {t : StoreTarget}
    → load H unmarshal override ≡ ok cfg
    → store_path H cfg ≡ ok path
    → resolve_store H F unmarshal override ≡ ok t
    → IsDecision path (IsGuarded F path) (IsExempt H cfg path) t
unfolding resolve_store
resolve_store-judged H F unmarshal override {cfg} {path} {t} loaded placed h =
    by_issues (check_permissions F path) refl (rw (loaded, placed) at h)
  where
    by_issues :
        (r : Result (List PermissionIssue))
        → check_permissions F path ≡ r
        → (do issues ← r; judge H cfg path issues) ≡ ok t
        → IsDecision path (IsGuarded F path) (IsExempt H cfg path) t
    by_issues (err x) e h' = cc
    by_issues (ok issues) e h' =
        let (place, served) = decide H cfg path issues h' in
        let guarded = check_permissions-nil F path in
        (
          place,
          (
            (λ n. elim (served.0 n) [
              | inl clear ↦ inl (guarded.0 (e ∙ ap ok clear))
              | inr exempt ↦ inr exempt
            ]),
            (λ x. elim x [
              | inl g ↦ served.1 (inl (ok-injective (sym e ∙ guarded.1 g)))
              | inr exempt ↦ served.1 (inr exempt)
            ]),
          ),
        )

-- A target is served exactly where its store is guarded, or an entry of the allowlist is the
-- store's path when both are made absolute from the directory `d` and cleaned.
pub record Decided (F : Files) (d : Bytes) (cfg : Config) (path : Bytes) (t : StoreTarget)
    : Type 0 where
  pub place : t.path ≡ path
  pub served :
      (t.unusable ≡ none) ↔ (IsGuarded F path ⊎ IsListed d path cfg.allow_unsafe_permissions)

-- From a known working directory, a target that is resolved has the path that the configuration
-- gives or the default is, and it can be served exactly if the program runs on Windows, if the
-- database and the files beside it are private, or if an entry of the configuration's allowlist
-- is that path when both are made absolute and cleaned.
pub resolve_store-Decided :
    (H : Host) (F : Files) (unmarshal : Bytes → Result File) (override : Bytes) {d : Bytes}
    {cfg : Config} {path : Bytes} {t : StoreTarget}
    → H.cwd ≡ ok d
    → load H unmarshal override ≡ ok cfg
    → store_path H cfg ≡ ok path
    → resolve_store H F unmarshal override ≡ ok t
    → Decided F d cfg path t
resolve_store-Decided H F unmarshal override {d} {cfg} {path} here loaded placed h =
    let (place, served) = resolve_store-judged H F unmarshal override loaded placed h in
    let listed : IsExempt H cfg path ↔ IsListed d path cfg.allow_unsafe_permissions =
      rw here (allowlisted-IsListed d path cfg.allow_unsafe_permissions) in
    record { place = place; served = ground (arith, served, listed) }
