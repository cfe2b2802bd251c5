-- ===== src/Config/Expansion.antt =====
-- internal/config/config.go: what a configuration makes of the texts of its file.
use field_docket.Base.{
  ◌≡◌, ◌≢◌, refl, sym, ap, ◌∙◌, ◌⊎◌, inl, inr, true, false, List, [], ◌∷◌, ◌++◌, arith, Bytes,
  codes, Bool-cases,
}
use field_docket.Base.Compare.{compare_bytes}
use field_docket.Go.Errors.{ok}
use field_docket.Go.Text.{trim_space, has_prefix, is_empty}
use field_docket.Go.Path.{join_path}
use field_docket.Go.Host.{Host}
use field_docket.Config.{
  Config, File, is_plain, below_home, expand_tilde, load_store, load_entries, from_file,
}
use field_docket.Config.Entries.{is_plain-home, is_plain-below, expand_tilde-home}

-- The path that a text stands for: the home directory, one below it, or the text itself.
abbrev pub Expands : Bytes → Bytes → Bytes → Type 0
Expands home written path =
    ((written ≡ codes "~") × (path ≡ home))
    ⊎ ((rest : Bytes) × (written ≡ codes "~/" ++ rest) × (path ≡ join_path (home ∷ rest ∷ [])))
    ⊎ ((written ≢ codes "~") × ((rest : Bytes) → written ≢ codes "~/" ++ rest) × (path ≡ written))

-- The paths of the entries that are not blank, in order.
abbrev pub Follows : Bytes → List Bytes → List Bytes → Type 0
Follows home [] paths = paths ≡ []
Follows home (entry ∷ entries) paths =
    ((trim_space entry ≡ []) × Follows home entries paths)
    ⊎ ((trim_space entry ≢ [])
        × (path : Bytes) × (rest : List Bytes) × (paths ≡ path ∷ rest)
        × Expands home (trim_space entry) path
        × Follows home entries rest)

-- No store path where the text is blank.
abbrev pub Places : Bytes → Bytes → Bytes → Type 0
Places home written path =
    ((trim_space written ≡ []) × (path ≡ []))
    ⊎ ((trim_space written ≢ []) × Expands home (trim_space written) path)

is_plain-cases :
    (path : Bytes)
    → is_plain path ≡ false
    → (path ≡ codes "~") ⊎ ((rest : Bytes) × (path ≡ codes "~/" ++ rest))
unfolding is_plain has_prefix compare_bytes
is_plain-cases [] h = cc
is_plain-cases (c ∷ []) h = ground arith
is_plain-cases (c ∷ d ∷ rest) h =
    let e : (c ≡ 126) × (d ≡ 47) = ground arith in inr (rest, rw (e.0, e.1) refl)

is_empty-nil : (s : Bytes) → is_empty s ≡ true → s ≡ []
unfolding is_empty
is_empty-nil [] h = refl
is_empty-nil (c ∷ s) h = cc

is_empty-cons : (s : Bytes) → is_empty s ≡ false → s ≢ []
unfolding is_empty
is_empty-cons s h e = let contrary : true ≡ false = sym (ap is_empty e) ∙ h in cc

below_home-home : (home : Bytes) → below_home (codes "~") home ≡ home
unfolding compare_bytes
below_home-home home = refl

below_home-below :
    (rest home : Bytes) → below_home (codes "~/" ++ rest) home ≡ join_path (home ∷ rest ∷ [])
unfolding compare_bytes
below_home-below rest home = refl

module _ (H : Host) {home : Bytes} (found : H.home ≡ ok home) where
  expand_tilde-Expands :
      (path field : Bytes) → (p : Bytes) × (expand_tilde H path field ≡ ok p) × Expands home path p
  expand_tilde-Expands path field = elim (Bool-cases (is_plain path)) [
    | inl plain ↦ (
      path,
      expand_tilde-home H path field found ∙ rw plain refl,
      inr (
          inr (
            (λ e. let contrary : true ≡ false = sym plain ∙ ap is_plain e ∙ is_plain-home in cc),
            (λ rest e.
                let contrary : true ≡ false = sym plain ∙ ap is_plain e ∙ is_plain-below rest in
                cc),
            refl,
          )),
    )
    | inr tilded ↦ (
      below_home path home,
      expand_tilde-home H path field found ∙ rw tilded refl,
      elim (is_plain-cases path tilded) [
        | inl whole ↦ inl (whole, ap (λ t. below_home t home) whole ∙ below_home-home home)
        | inr (rest, e) ↦
            inr (inl (rest, e, ap (λ t. below_home t home) e ∙ below_home-below rest home))
      ],
    )
  ]

  load_entries-Follows :
      (entries : List Bytes)
      → (paths : List Bytes) × (load_entries H entries ≡ ok paths) × Follows home entries paths
  unfolding load_entries
  load_entries-Follows [] = ([], refl, refl)
  load_entries-Follows (entry ∷ entries) =
      let (rest, loaded, follows) = load_entries-Follows entries in
      elim (Bool-cases (is_empty (trim_space entry))) [
        | inl blank ↦ (rest, rw (blank, loaded) refl, inl (is_empty-nil _ blank, follows))
        | inr full ↦
            let (path, expanded, is) =
              expand_tilde-Expands (trim_space entry) (codes "allow_unsafe_permissions entry") in
            (
              path ∷ rest,
              rw (full, expanded, loaded) refl,
              inr (is_empty-cons _ full, path, rest, refl, is, follows),
            )
      ]

  load_store-Places :
      (raw : Bytes) → (path : Bytes) × (load_store H raw ≡ ok path) × Places home raw path
  unfolding load_store
  load_store-Places raw = elim (Bool-cases (is_empty (trim_space raw))) [
    | inl blank ↦ ([], rw blank refl, inl (is_empty-nil _ blank, refl))
    | inr full ↦
        let (path, expanded, is) = expand_tilde-Expands (trim_space raw) (codes "store path") in
        (path, rw (full, expanded) refl, inr (is_empty-cons _ full, is))
  ]

  -- Where the home directory is known, every file gives a configuration: it has no store path if
  -- the file's is blank, and else the one that the trimmed text stands for; and its allowlist has,
  -- in order, the paths that the trimmed entries stand for, less the blank ones. A text stands for
  -- the home directory if it is `~`, for the rest joined to that if it begins with `~/`, and else
  -- for itself.
  pub from_file-Follows :
      (f : File)
      → (c : Config) × (from_file H f ≡ ok c)
        × Places home f.store c.store
        × Follows home f.allow_unsafe_permissions c.allow_unsafe_permissions
  unfolding from_file
  from_file-Follows f =
      let (store, stored, places) = load_store-Places f.store in
      let (paths, loaded, follows) = load_entries-Follows f.allow_unsafe_permissions in
      (
        record { store = store; allow_unsafe_permissions = paths },
        rw (stored, loaded) refl,
        places,
        follows,
      )
