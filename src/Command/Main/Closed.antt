-- ===== src/Command/Main/Closed.antt =====
-- cmd/field-docket/main.go: the handles of the store when the process ends.
use field_docket.Base.{
  ◌≡◌, refl, ◌⊎◌, inl, inr, Bool, true, false, List, [], ◌∷◌, Bytes, codes, Option, none, some,
}
use mathlib.Core.Path.{subst}
use field_docket.Base.Compare.{same}
use field_docket.Go.Errors.{Error, Result, ok, err, ◌>>=◌}
use field_docket.Go.Flag.{parse_flags}
use field_docket.Go.Host.{Host}
use field_docket.Config.{File}
use field_docket.Store.Permissions.{Files}
use field_docket.Store.Open.Accounts.{Accounts, IsAccounted}
use field_docket.Command.{resolve_store, config_flag, parse_config_flag}
use field_docket.Command.Main.{
  Machine, Ended, Status, returned, exited, fatal, serve_target, snapshot_target, snapshot_settled,
  run_snapshot, main_serve, after_snapshot, main,
}
use field_docket.Command.Main.Balanced.{
  IsQuiet, IsBalanced, kept-IsBalanced, none-opened, usage-IsKept, snapshot_target-IsBalanced,
  IsSound, serve_target-IsSound,
}

-- The arguments ask for a snapshot.
abbrev pub is_subcommand : List Bytes → Bool
is_subcommand [] = false
is_subcommand (arg ∷ args) = same arg (codes "snapshot")

module _ (M : Machine) (L : Accounts M.platform) (A : IsAccounted M.platform L) (Q : IsQuiet M L)
    (H : Host) (F : Files) (unmarshal : Bytes → Result File) (quote : Bytes → Bytes) where
  abbrev Balanced : M.World → M.World → Type 0
  Balanced w w' = IsBalanced M L A Q (L.opened w) (L.closed w) w'

  untouched : (w : M.World) → Balanced w w
  untouched w = none-opened M L A Q w w (refl, refl)

  too_many :
      (path : Bytes) (rest : List Bytes) (w : M.World)
      → Balanced w (snapshot_settled M H F unmarshal quote (path, rest) w).0
  unfolding snapshot_settled
  too_many path [] w = none-opened M L A Q w _ (usage-IsKept M L A Q w)
  too_many path (dest ∷ []) w =
      elim (resolve_store H F unmarshal path)
        as (λ r.
          Balanced w
            (elim r as (λ x. M.World × Option Error) [
              | err e ↦ (w, some e)
              | ok t ↦ snapshot_target M dest t w
            ]).0) [ err e ↦ untouched w | ok t ↦ snapshot_target-IsBalanced M L A Q dest t w ]
  too_many path (dest ∷ d ∷ rest) w = none-opened M L A Q w _ (usage-IsKept M L A Q w)

  run_snapshot-IsBalanced :
      (args : List Bytes) (w : M.World) → Balanced w (run_snapshot M H F unmarshal quote args w).0
  unfolding run_snapshot
  run_snapshot-IsBalanced args w =
      elim (parse_flags config_flag [] false args)
        as (λ r.
          Balanced w
            (elim r as (λ x. M.World × Option Error) [
              | err e ↦ (w, some e)
              | ok settled ↦ snapshot_settled M H F unmarshal quote settled w
            ]).0) [ err e ↦ untouched w | ok (path, rest) ↦ too_many path rest w ]

  after_snapshot-IsBalanced :
      (w : M.World) (r : M.World × Option Error)
      → Balanced w r.0
      → Balanced w (after_snapshot M H F unmarshal quote r).0
  after_snapshot-IsBalanced w (w', none) b = b
  after_snapshot-IsBalanced w (w', some e) b =
      kept-IsBalanced M L A Q (L.opened w) (L.closed w) w' _ (Q.log _ w') b

  main_serve-IsSound :
      (args : List Bytes) (w : M.World)
      → IsSound M L A Q (L.opened w) (L.closed w) (main_serve M H F unmarshal quote args w)
  unfolding main_serve
  main_serve-IsSound args w =
      elim (parse_config_flag quote args >>= λ path. resolve_store H F unmarshal path)
        as (λ r. IsSound M L A Q (L.opened w) (L.closed w) (elim r as (λ x. Ended M) [
          | err e ↦ fatal M (codes "field-docket: ") e w
          | ok t ↦ serve_target M t w
        ])) [ err e ↦ tt | ok t ↦ serve_target-IsSound M L A Q t w ]

  -- The worlds in which a run may end, by how it ends and what it was asked for.
  Ends : M.World → Bool → Ended M → Type 0
  Ends w asked (w', status) = (status ≡ returned) ⊎ (asked ≡ true) → Balanced w w'

  sound-Ends :
      (w : M.World) (r : Ended M) → IsSound M L A Q (L.opened w) (L.closed w) r → Ends w false r
  unfolding Ends
  sound-Ends w (w', returned) s _ = s
  sound-Ends w (w', exited) s (inl e) = cc
  sound-Ends w (w', exited) s (inr e) = cc

  main-Ends :
      (args : List Bytes) (w : M.World)
      → Ends w (is_subcommand args) (main M H F unmarshal quote args w)
  unfolding main Ends
  main-Ends [] w = sound-Ends w _ (main_serve-IsSound [] w)
  main-Ends (arg ∷ args) w =
      elim (same arg (codes "snapshot"))
        as (λ b. Ends w b (elim b as (λ x. Ended M) [
          | true ↦ after_snapshot M H F unmarshal quote (run_snapshot M H F unmarshal quote args w)
          | false ↦ main_serve M H F unmarshal quote (arg ∷ args) w
        ])) [
          | true ↦ λ _. after_snapshot-IsBalanced w _ (run_snapshot-IsBalanced args w)
          | false ↦ sound-Ends w _ (main_serve-IsSound (arg ∷ args) w)
        ]

  -- Where only `sql.Open` and `Close` open and close handles: a process that returns from `main`,
  -- and one that was asked for a snapshot however it ends, has closed every handle that it opened,
  -- whatever the system, the driver, the server and the settings answer.
  pub main-IsBalanced :
      (args : List Bytes) (w : M.World) {w' : M.World} {status : Status}
      → main M H F unmarshal quote args w ≡ (w', status)
      → (status ≡ returned) ⊎ (is_subcommand args ≡ true)
      → IsBalanced M L A Q (L.opened w) (L.closed w) w'
  unfolding Ends
  main-IsBalanced args w h why = subst (Ends w (is_subcommand args)) h (main-Ends args w) why
