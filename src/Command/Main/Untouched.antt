-- ===== src/Command/Main/Untouched.antt =====
-- What the command does with a store that others can reach and that is not exempt.
use field_docket.Base.{
  ◌≡◌, refl, sym, ap, ◌∙◌, ◌≢◌, ◌⊎◌, true, false, List, [], ◌∷◌, ◌++◌, Bytes, codes, none, some,
  if◌then◌else◌,
}
use field_docket.Base.Compare.{same, same_iff}
use field_docket.Go.Errors.{Error, message, Result, ok, err}
use field_docket.Go.Flag.{parse_flags}
use field_docket.Go.Host.{Host}
use field_docket.Config.{File, Config, load}
use field_docket.Store.Permissions.{Files}
use field_docket.Store.Open.{open_store}
use field_docket.Command.{StoreTarget, store_path, resolve_store, no_leftover, parse_config_flag}
use field_docket.Command.Target.{IsGuarded, IsExempt, resolve_store-judged}
use field_docket.Command.Main.{
  Machine, Ended, fatal, run, is_clean_shutdown, after_run, serve_opened, serve_target, main_serve,
  after_snapshot, run_snapshot, main,
}

-- The subcommand's name is no argument of the server.
parse_config_flag-subcommand :
    (quote : Bytes → Bytes) (args : List Bytes) {path : Bytes}
    → parse_config_flag quote (codes "snapshot" ∷ args) ≢ ok path
unfolding parse_config_flag parse_flags no_leftover
parse_config_flag-subcommand quote args h = cc

module _ (M : Machine) (H : Host) (F : Files) (unmarshal : Bytes → Result File)
    (quote : Bytes → Bytes) where
  pub main-serves :
      (args : List Bytes) (w : M.World) {path : Bytes}
      → parse_config_flag quote args ≡ ok path
      → main M H F unmarshal quote args w ≡ main_serve M H F unmarshal quote args w
  unfolding main
  main-serves [] w h = refl
  main-serves (arg ∷ args) w {path} h =
      elim (same arg (codes "snapshot"))
          as (λ b.
            same arg (codes "snapshot") ≡ b
            → elim b as (λ x. Ended M) [
              | true ↦
                  after_snapshot M H F unmarshal quote (run_snapshot M H F unmarshal quote args w)
              | false ↦ main_serve M H F unmarshal quote (arg ∷ args) w
            ]
              ≡ main_serve M H F unmarshal quote (arg ∷ args) w) [
                | true ↦ λ e.
                    elim (parse_config_flag-subcommand quote args (
                      ap (λ a. parse_config_flag quote (a ∷ args)) (sym ((same_iff arg _).0 e))
                      ∙ h)) [ ]
                | false ↦ λ e. refl
              ]
        refl

  module _ {A : Type 0} (part : M.World → A)
      (logs : (m : Bytes) (w : M.World) → part (M.log m w) ≡ part w)
      (serves : (e : Error) (w : M.World) → part (M.serve none (some e) w).0 ≡ part w) where
    after_run-part :
        (e : Error) (w : M.World) → part (after_run M (λ w'. w') (run M none (some e) w)).0 ≡ part w
    unfolding run
    after_run-part e w =
        let (w', failure) = M.serve none (some e) w in
        elim (if is_clean_shutdown failure then none else failure)
          as (λ f. part (after_run M (λ v. v) (w', f)).0 ≡ part w) [
            | none ↦ serves e w
            | some x ↦ logs _ w' ∙ serves e w
          ]

    refused-part :
        (t : StoreTarget) (w : M.World) → t.unusable ≢ none → part (serve_target M t w).0 ≡ part w
    unfolding serve_target
    refused-part t w h =
        elim (t.unusable)
            as (λ u.
              u ≢ none
              → part
                  (elim u as (λ x. Ended M) [
                    | some why ↦
                        after_run M (λ w'. w')
                          (run M none (some why) (M.log (codes "field-docket: " ++ message why) w))
                    | none ↦ serve_opened M (open_store M.platform t.path w)
                  ]).0
                ≡ part w) [
                  | none ↦ λ n. elim (n refl) [ ]
                  | some why ↦ λ n. after_run-part why _ ∙ logs _ w
                ]
          h

    -- When the command is to serve, and the store of its configuration is neither guarded nor
    -- exempt, it leaves alone whatever logging and a server without a store leave alone: the
    -- store's files, for one. This holds however the run ends.
    pub main-part :
        (args : List Bytes) (w : M.World) {override path : Bytes} {cfg : Config}
        → parse_config_flag quote args ≡ ok override
        → load H unmarshal override ≡ ok cfg
        → store_path H cfg ≡ ok path
        → ¬ (IsGuarded F path ⊎ IsExempt H cfg path)
        → part (main M H F unmarshal quote args w).0 ≡ part w
    unfolding main_serve
    main-part args w {override} {path} {cfg} parsed loaded placed unsafe =
        ap (λ x. part x.0) (main-serves args w parsed) ∙ rw (main_serve, parsed) by_target
      where
        by_target :
            part
              (elim (resolve_store H F unmarshal override) as (λ x. Ended M) [
                | err e ↦ fatal M (codes "field-docket: ") e w
                | ok t ↦ serve_target M t w
              ]).0
            ≡ part w
        by_target =
            elim (resolve_store H F unmarshal override)
                as (λ r.
                  resolve_store H F unmarshal override ≡ r
                  → part
                      (elim r as (λ x. Ended M) [
                        | err e ↦ fatal M (codes "field-docket: ") e w
                        | ok t ↦ serve_target M t w
                      ]).0
                    ≡ part w) [
                      | err e ↦ λ h. logs _ w
                      | ok t ↦ λ h.
                          let d = resolve_store-judged H F unmarshal override loaded placed h in
                          refused-part t w (λ n. unsafe (d.1.0 n))
                    ]
              refl
