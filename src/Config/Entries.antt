-- ===== src/Config/Entries.antt =====
-- internal/config/config.go: the paths of a loaded configuration.
use field_docket.Base.{
  ◌≡◌, ◌≢◌, refl, sym, ap, ◌∙◌, Bool, true, false, List, [], ◌∷◌, ◌++◌, arith, Bytes, codes, drop,
  All, if◌then◌else◌, Bool-cases, ◌⊎◌, inl, inr,
}
use mathlib.Core.Path.{subst}
use field_docket.Base.Compare.{same, compare_bytes}
use field_docket.Go.Errors.{Error, Result, ok, err, ◌>>=◌, context, >>=-eq-ok, ok-injective}
use field_docket.Go.Text.{trim_space, has_prefix, is_empty}
use field_docket.Go.Path.{slash, is_rooted, join_path}
use field_docket.Go.Path.Spelling.{is_rooted-clean, is_rooted-append, join_path-two}
use field_docket.Go.Host.{Host}
use field_docket.Config.{
  Config, File, unread, defaults, tilde, is_plain, below_home, expand_tilde, load_store,
  load_entries, from_file, config_path, load_at, load,
}

-- A path that is there, and that is neither the home directory's name nor one below it.
pub record IsResolved (path : Bytes) : Type 0 where
  pub named : path ≢ []
  pub not_home : path ≢ codes "~"
  pub not_below : (rest : Bytes) → path ≢ codes "~/" ++ rest

pub is_plain-home : is_plain (codes "~") ≡ false
unfolding is_plain compare_bytes
is_plain-home = refl

pub is_plain-below : (rest : Bytes) → is_plain (codes "~/" ++ rest) ≡ false
unfolding is_plain has_prefix compare_bytes
is_plain-below rest = refl

is_plain-IsResolved :
    (path : Bytes) → is_empty path ≡ false → is_plain path ≡ true → IsResolved path
unfolding is_empty
is_plain-IsResolved path full plain = record {
  named = λ e. let none : true ≡ false = sym (ap is_empty e) ∙ full in cc;
  not_home = λ e. let contrary : true ≡ false = sym plain ∙ ap is_plain e ∙ is_plain-home in cc;
  not_below =
      λ rest e. let contrary : true ≡ false = sym plain ∙ ap is_plain e ∙ is_plain-below rest in cc;
}

IsResolved-rooted : (path : Bytes) → is_rooted path ≡ true → IsResolved path
unfolding is_rooted
IsResolved-rooted [] h = cc
IsResolved-rooted (c ∷ path) h = record {
  named = λ e. ground arith;
  not_home = λ e. ground arith;
  not_below = λ rest e. ground arith;
}

join_path-rooted :
    (home rest : Bytes) → is_rooted home ≡ true → is_rooted (join_path (home ∷ rest ∷ [])) ≡ true
join_path-rooted home rest h =
    ap is_rooted (join_path-two home rest h)
    ∙ is_rooted-clean (home ++ slash ∷ rest)
    ∙ is_rooted-append home (slash ∷ rest) h

pub expand_tilde-home :
    (H : Host) (path field : Bytes) {home : Bytes}
    → H.home ≡ ok home
    → expand_tilde H path field ≡ ok (if is_plain path then path else below_home path home)
unfolding expand_tilde
expand_tilde-home H path field found = rw found (ground arith)

IsResolved-below_home :
    (path home : Bytes) → is_rooted home ≡ true → IsResolved (below_home path home)
IsResolved-below_home path home rooted = elim (Bool-cases (same path tilde)) [
  | inl whole ↦ rw whole (IsResolved-rooted home rooted)
  | inr part ↦ rw part (IsResolved-rooted _ (join_path-rooted home (drop 2 path) rooted))
]

expand_tilde-IsResolved :
    (H : Host) (path field : Bytes) {home expanded : Bytes}
    → H.home ≡ ok home
    → is_rooted home ≡ true
    → is_empty path ≡ false
    → expand_tilde H path field ≡ ok expanded
    → IsResolved expanded
expand_tilde-IsResolved H path field {home} found rooted named h =
    subst IsResolved (ok-injective (sym (expand_tilde-home H path field found) ∙ h)) resolved
  where
    resolved : IsResolved (if is_plain path then path else below_home path home)
    resolved = elim (Bool-cases (is_plain path)) [
      | inl plain ↦ rw plain (is_plain-IsResolved path named plain)
      | inr tilded ↦ rw tilded (IsResolved-below_home path home rooted)
    ]

load_entries-IsResolved :
    (H : Host) (entries : List Bytes) {home : Bytes} {allowed : List Bytes}
    → H.home ≡ ok home
    → is_rooted home ≡ true
    → load_entries H entries ≡ ok allowed
    → All IsResolved allowed
unfolding load_entries
load_entries-IsResolved H [] found rooted h = subst (All IsResolved) (ok-injective h) tt
load_entries-IsResolved H (entry ∷ entries) {allowed = final} found rooted h =
    by_blank (λ a. load_entries-IsResolved H entries {allowed = a} found rooted)
      (is_empty (trim_space entry)) refl h
  where
    by_blank :
        ((a : List Bytes) → load_entries H entries ≡ ok a → All IsResolved a)
        → (b : Bool) → is_empty (trim_space entry) ≡ b
        → (if b then load_entries H entries else (do
          expanded ← expand_tilde H (trim_space entry) (codes "allow_unsafe_permissions entry")
          allowed ← load_entries H entries
          ok (expanded ∷ allowed)))
          ≡ ok final
        → All IsResolved final
    by_blank ih true e h' = ih _ h'
    by_blank ih false e h' =
        let (expanded, here, h1) = >>=-eq-ok _ _ h' in
        let (rest, later, h2) = >>=-eq-ok _ _ h1 in
        let all : All IsResolved (expanded ∷ rest) =
          (expand_tilde-IsResolved H _ _ found rooted e here, ih rest later) in
        subst (All IsResolved) (ok-injective h2) all

-- A store path that the file gives.
abbrev pub IsStore : Bytes → Type 0
IsStore path = (path ≡ []) ⊎ IsResolved path

load_store-IsStore :
    (H : Host) (raw : Bytes) {home path : Bytes}
    → H.home ≡ ok home
    → is_rooted home ≡ true
    → load_store H raw ≡ ok path
    → IsStore path
unfolding load_store
load_store-IsStore H raw {home} {path} found rooted h = by_blank (is_empty (trim_space raw)) refl h
  where
    by_blank :
        (b : Bool)
        → is_empty (trim_space raw) ≡ b
        → (if b then ok [] else expand_tilde H (trim_space raw) (codes "store path")) ≡ ok path
        → IsStore path
    by_blank true e h' = inl (sym (ok-injective h'))
    by_blank false e h' = inr (expand_tilde-IsResolved H _ _ found rooted e h')

-- What a loaded configuration promises.
pub record IsLoaded (c : Config) : Type 0 where
  pub store : IsStore c.store
  pub entries : All IsResolved c.allow_unsafe_permissions

from_file-IsLoaded :
    (H : Host) (f : File) {home : Bytes} {c : Config}
    → H.home ≡ ok home
    → is_rooted home ≡ true
    → from_file H f ≡ ok c
    → IsLoaded c
unfolding from_file
from_file-IsLoaded H f found rooted h =
    let (store, stored, h1) = >>=-eq-ok _ _ h in
    let (allowed, entries, h2) = >>=-eq-ok _ _ h1 in
    subst IsLoaded (ok-injective h2) (record {
      store = load_store-IsStore H f.store found rooted stored;
      entries = load_entries-IsResolved H f.allow_unsafe_permissions found rooted entries;
    })

unread-IsLoaded :
    (path : Bytes) (named : Bool) (e : Error) {c : Config} → unread path named e ≡ ok c → IsLoaded c
unfolding unread
unread-IsLoaded path named e {c} h =
    subst IsLoaded (is_default h) (record { store = inl refl; entries = tt })
  where
    is_default : unread path named e ≡ ok c → defaults ≡ c
    is_default h' = ground arith

load_at-IsLoaded :
    (H : Host) (unmarshal : Bytes → Result File) (path : Bytes) (named : Bool) {home : Bytes}
    {c : Config}
    → H.home ≡ ok home
    → is_rooted home ≡ true
    → load_at H unmarshal (path, named) ≡ ok c
    → IsLoaded c
unfolding load_at
load_at-IsLoaded H unmarshal path named {c} found rooted h = by_file (H.read_file path) h
  where
    by_file :
        (r : Result Bytes)
        → (elim r as (λ x. Result Config) [
          | err e ↦ unread path named e
          | ok text ↦ (do
            f ← context (codes "parsing config " ++ path) (unmarshal text)
            from_file H f)
        ])
          ≡ ok c
        → IsLoaded c
    by_file (err e) h1 = unread-IsLoaded path named e h1
    by_file (ok text) h1 =
        let parsed = context (codes "parsing config " ++ path) (unmarshal text) in
        let (f, _, h2) = >>=-eq-ok parsed (from_file H) h1 in from_file-IsLoaded H f found rooted h2

-- On a machine with an absolute home directory, a configuration that loads has an empty store
-- path or one that is not `~` and does not begin with `~/`; and no entry of its allowlist is empty,
-- is `~` or begins with `~/`.
pub load-IsLoaded :
    (H : Host) (unmarshal : Bytes → Result File) (override : Bytes) {home : Bytes} {c : Config}
    → H.home ≡ ok home
    → is_rooted home ≡ true
    → load H unmarshal override ≡ ok c
    → IsLoaded c
unfolding load
load-IsLoaded H unmarshal override found rooted h =
    let (p, located, h1) = >>=-eq-ok (config_path H override) (load_at H unmarshal) h in
    load_at-IsLoaded H unmarshal p.0 p.1 found rooted h1
