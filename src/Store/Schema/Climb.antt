-- ===== src/Store/Schema/Climb.antt =====
-- What a migration does to the database: all of the ladder that is left, or nothing.
use field_docket.Base.{
  ℤ, ◌≡◌, refl, sym, ap, codes, if◌then◌else◌, ◌∙◌, Bool, true, false, List, ◌++◌, append_assoc,
  Option, none, some, Bytes,
}
use mathlib.Core.Path.{subst}
use field_docket.Go.Errors.{is_tx_done, wrap, Error, tx_done, Result, ok, err}
use field_docket.Store.Schema.{
  Database, above, settle, migrations, climb, record_version, finish, deferred, apply, migrate,
  schema_version, too_new,
}
use field_docket.Store.Schema.Driver.{IsDatabase}
use field_docket.Store.Schema.Steps.{
  ladder_from, version_from, climb-doing, climb-lasting, record_version-doing,
  record_version-lasting,
}

module _ (D : Database) (L : IsDatabase D) where
  -- On an error the database has what it had before; otherwise it has what is in the log.
  abbrev pub Ends : List Bytes → List Bytes → D.State × Option Error → Type 0
  Ends before log (s, some e) = L.ran s ≡ before
  Ends before log (s, none) = L.ran s ≡ log

  Ends-if :
      (before log : List Bytes) (s : D.State) (e e' : Error) (b : Bool)
      → L.ran s ≡ before
      → Ends before log (s, if b then some e else some e')
  Ends-if before log s e e' true h = h
  Ends-if before log s e e' false h = h

  Ends-settle :
      (before log : List Bytes) (s : D.State) (e : Error) (r : Option Error)
      → L.ran s ≡ before
      → Ends before log (s, settle (some e) r)
  unfolding settle
  Ends-settle before log s e none h = h
  Ends-settle before log s e (some x) h = Ends-if before log s e _ (is_tx_done x) h

  -- An error that is returned before anything lasts.
  deferred-Ends :
      (before log : List Bytes) (tx : D.Tx) (e : Error)
      → L.lasting tx ≡ before
      → Ends before log (deferred D tx (some e))
  unfolding deferred
  deferred-Ends before log tx e h =
      Ends-settle before log _ e (D.rollback tx).1 (L.rollbacks tx ∙ h)

  -- A successful commit, whose rollback finds the transaction over.
  Ends-over :
      (before log : List Bytes) (s : D.State) (r : Option Error)
      → L.ran s ≡ log
      → r ≡ some tx_done
      → Ends before log (s, settle none r)
  unfolding settle is_tx_done
  Ends-over before log s r h over = subst (λ y. Ends before log (s, settle none y)) (sym over) h

  finish-Ends :
      (before : List Bytes) (tx : D.Tx)
      → L.lasting tx ≡ before
      → Ends before (L.doing tx) (finish D tx)
  unfolding finish deferred
  finish-Ends before tx h = by_outcome (D.commit tx).1 refl
    where
      over : D.Tx
      over = (D.commit tx).0

      by_outcome :
          (out : Option Error)
          → (D.commit tx).1 ≡ out
          → Ends before (L.doing tx) (elim out [
            | none ↦ deferred D over none
            | some e ↦ deferred D over (some (wrap (codes "committing schema migration") e))
          ])
      by_outcome none done =
          let (all, ended) = L.commits tx done in
          Ends-over before (L.doing tx) _ _ (L.rollbacks over ∙ all) ended
      by_outcome (some e) failed =
          deferred-Ends before (L.doing tx) over _ (L.commit-lasting tx e failed ∙ h)

  -- What the statements of a migration are, from the version that the database has.
  abbrev pub Climbed : D.State → D.State × Option Error → Type 0
  Climbed s =
      Ends (L.ran s)
        (L.ran s ++ (ladder_from (L.version s) migrations ++ version_from (L.version s)))

  after_step :
      (before log : List Bytes) (step : D.Tx × Option Error) (next : D.Tx → D.State × Option Error)
      → L.lasting step.0 ≡ before
      → (step.1 ≡ none → Ends before log (next step.0))
      → Ends before log
          (let (tx, out) = step in elim out [ some e ↦ deferred D tx (some e) | none ↦ next tx ])
  after_step before log (tx, none) next h ends = ends refl
  after_step before log (tx, some e) next h ends = deferred-Ends before log tx e h

  apply-Climbed :
      (s : D.State) (tx : D.Tx)
      → L.doing tx ≡ L.ran s
      → L.lasting tx ≡ L.ran s
      → Climbed s (apply D (L.version s) tx)
  unfolding apply
  apply-Climbed s tx start last =
      let v = L.version s in
      let log = L.ran s ++ (ladder_from v migrations ++ version_from v) in
      let climbed = climb D v migrations tx in
      let recorded = record_version D v climbed.0 in
      let still : L.lasting climbed.0 ≡ L.ran s = climb-lasting D L v migrations tx ∙ last in
      let unchanged : L.lasting recorded.0 ≡ L.ran s =
        record_version-lasting D L v climbed.0 ∙ still in
      after_step (L.ran s) log climbed
        (λ tx'.
          let (tx'', out) = record_version D v tx' in
          elim out [ some e ↦ deferred D tx'' (some e) | none ↦ finish D tx'' ])
        still
        (λ h. after_step (L.ran s) log recorded (finish D) unchanged (λ h'.
          subst (λ l. Ends (L.ran s) l (finish D recorded.0))
            (record_version-doing D L v climbed.0 h'
              ∙ ap (λ l. l ++ version_from v)
                  (climb-doing D L v migrations tx h
                    ∙ ap (λ l. l ++ ladder_from v migrations) start)
              ∙ append_assoc (L.ran s) (ladder_from v migrations) (version_from v))
            (finish-Ends (L.ran s) recorded.0 unchanged)))

  checked_version :
      (s : D.State) (tx : D.Tx) (v : ℤ) (b : Bool)
      → D.begin s ≡ ok tx
      → v ≡ L.version s
      → Climbed s (elim b [ true ↦ deferred D tx (some (too_new v)) | false ↦ apply D v tx ])
  checked_version s tx v true begun same = deferred-Ends _ _ tx (too_new v) (L.begins s tx begun).1
  checked_version s tx v false begun same =
      let (start, last) = L.begins s tx begun in
      subst (λ w. Climbed s (apply D w tx)) (sym same) (apply-Climbed s tx start last)

  -- After a migration that reports an error, the statements that have taken effect in the
  -- database are those that had before it. After one that reports none, they are these, then all
  -- statements of the steps whose version is above the one that the database had, in order, and
  -- last, if this program's version is above it too, the one that sets the version. The driver is
  -- any that behaves as documented.
  pub migrate-Climbed : (s : D.State) → Climbed s (migrate D s)
  unfolding migrate
  migrate-Climbed s = by_begin (D.begin s) refl
    where
      by_version :
          (tx : D.Tx)
          → D.begin s ≡ ok tx
          → (r : Result ℤ) → D.user_version tx ≡ r
          → Climbed s (elim r [
            | err e ↦ deferred D tx (some (wrap (codes "reading schema version") e))
            | ok v ↦ elim (above v schema_version) [
              | true ↦ deferred D tx (some (too_new v))
              | false ↦ apply D v tx
            ]
          ])
      by_version tx b (ok v) h = checked_version s tx v _ b (L.reads s tx v b h)
      by_version tx b (err e) h = deferred-Ends _ _ tx _ (L.begins s tx b).1

      by_begin :
          (r : Result D.Tx)
          → D.begin s ≡ r
          → Climbed s (elim r [
            | err e ↦ (s, some (wrap (codes "beginning schema migration") e))
            | ok tx ↦ elim (D.user_version tx) [
              | err e ↦ deferred D tx (some (wrap (codes "reading schema version") e))
              | ok v ↦ elim (above v schema_version) [
                | true ↦ deferred D tx (some (too_new v))
                | false ↦ apply D v tx
              ]
            ]
          ])
      by_begin (ok tx) b = by_version tx b (D.user_version tx) refl
      by_begin (err e) b = refl
