-- ===== src/Store/Schema/Newer.antt =====
-- A database that a newer program has migrated is refused.
use field_docket.Base.{
  ℤ, ℕ, pos, ◌<◌, ◌≡◌, ◌≢◌, refl, ap, ◌∙◌, Bool, true, false, List, Bytes, Option, none, some,
  arith, codes, if◌then◌else◌,
}
use field_docket.Go.Errors.{Error, wrap, is_tx_done, Result, ok, err}
use field_docket.Store.Schema.{
  Database, above, settle, deferred, apply, migrate, schema_version, too_new,
}
use field_docket.Store.Schema.Driver.{IsDatabase}
use field_docket.Store.Schema.Climb.{Ends, migrate-Climbed}

if-some : (b : Bool) (e e' : Error) → (if b then some e else some e') ≡ none → ⊥
if-some true e e' h = ground arith
if-some false e e' h = ground arith

settle-some : (e : Error) (r : Option Error) → settle (some e) r ≡ none → ⊥
unfolding settle
settle-some e none h = ground arith
settle-some e (some x) h = if-some (is_tx_done x) e _ h

above-pos : (n : ℕ) → schema_version < n → above (pos n) schema_version ≡ true
unfolding above
above-pos n h = ground arith

module _ (D : Database) (L : IsDatabase D) where
  deferred-some : (tx : D.Tx) (e : Error) → (deferred D tx (some e)).1 ≢ none
  unfolding deferred
  deferred-some tx e h = settle-some e (D.rollback tx).1 h

  checked-newer :
      (tx : D.Tx) (v : ℤ) (b : Bool)
      → b ≡ true
      → (elim b as (λ x. D.State × Option Error) [
        | true ↦ deferred D tx (some (too_new v))
        | false ↦ apply D v tx
      ]).1
        ≢ none
  checked-newer tx v true h = deferred-some tx (too_new v)
  checked-newer tx v false h = cc

  refuses :
      (s : D.State) {n : ℕ} → L.version s ≡ pos n → schema_version < n → (migrate D s).1 ≢ none
  unfolding migrate
  refuses s {n} found newer = by_begin (D.begin s) refl
    where
      by_version :
          (tx : D.Tx)
          → D.begin s ≡ ok tx
          → (r : Result ℤ) → D.user_version tx ≡ r
          → (elim r as (λ x. D.State × Option Error) [
            | err e ↦ deferred D tx (some (wrap (codes "reading schema version") e))
            | ok v ↦ elim (above v schema_version) [
              | true ↦ deferred D tx (some (too_new v))
              | false ↦ apply D v tx
            ]
          ]).1
            ≢ none
      by_version tx b (ok v) h =
          checked-newer tx v _
            (ap (λ w. above w schema_version) (L.reads s tx v b h ∙ found) ∙ above-pos n newer)
      by_version tx b (err e) h = deferred-some tx _

      by_begin :
          (r : Result D.Tx)
          → D.begin s ≡ r
          → (elim r as (λ x. D.State × Option Error) [
            | err e ↦ (s, some (wrap (codes "beginning schema migration") e))
            | ok tx ↦ elim (D.user_version tx) [
              | err e ↦ deferred D tx (some (wrap (codes "reading schema version") e))
              | ok v ↦ elim (above v schema_version) [
                | true ↦ deferred D tx (some (too_new v))
                | false ↦ apply D v tx
              ]
            ]
          ]).1
            ≢ none
      by_begin (ok tx) b = by_version tx b (D.user_version tx) refl
      by_begin (err e) b = λ r. ground arith

  Ends-some :
      (before log : List Bytes) (out : D.State × Option Error)
      → Ends D L before log out
      → out.1 ≢ none
      → L.ran out.0 ≡ before
  Ends-some before log (s, some e) h failed = h
  Ends-some before log (s, none) h failed = absurd (failed refl)

  -- Over a driver that behaves as documented, a migration of a database whose version is greater
  -- than this program's reports an error, and the statements that have taken effect in the
  -- database are those that had before it.
  pub migrate-newer :
      (s : D.State) {n : ℕ}
      → L.version s ≡ pos n
      → schema_version < n
      → ((migrate D s).1 ≢ none) × (L.ran (migrate D s).0 ≡ L.ran s)
  migrate-newer s found newer =
      let refused = refuses s found newer in
      (refused, Ends-some _ _ (migrate D s) (migrate-Climbed D L s) refused)
