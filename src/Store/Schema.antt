-- ===== src/Store/Schema.antt =====
-- internal/store/schema.go: the migration ladder, and the transaction that applies it.
pub mod Driver
pub mod Steps
pub mod Climb
pub mod Newer
use field_docket.Base.{
  negsuc, pos, ℤ, ℕ, suc, Bool, true, false, List, [], ◌∷◌, ◌++◌, Option, none, some, Bytes, codes,
  ltb, leb, if◌then◌else◌,
}
use field_docket.Go.Errors.{Error, text, wrap, join, is_tx_done, Result, ok, err}
use field_docket.Go.Decimal.{decimal}

-- What migrate uses of database/sql. `left` is the database that the end of a transaction leaves.
pub record Database : Type 1 where
  pub State : Type 0
  pub Tx : Type 0
  pub begin : State → Result Tx
  pub user_version : Tx → Result ℤ
  pub exec : Tx → Bytes → Tx × Option Error
  pub commit : Tx → Tx × Option Error
  pub rollback : Tx → Tx × Option Error
  pub left : Tx → State

abbrev pub schema_version : ℕ
schema_version = 1

pub record Migration : Type 0 where
  pub version : ℕ
  pub stmts : List Bytes

unfoldable pub create_table : Bytes
create_table =
    codes "CREATE TABLE observation (\n\t\t\t\tid          TEXT NOT NULL PRIMARY KEY,\n"
    ++ codes "\t\t\t\trecorded_at TEXT NOT NULL,\n\t\t\t\tclass       TEXT NOT NULL,\n"
    ++ codes "\t\t\t\tobservation TEXT NOT NULL,\n\t\t\t\tscope_kind  TEXT NOT NULL,\n"
    ++ codes "\t\t\t\tscope_ref   TEXT NOT NULL DEFAULT '',\n\t\t\t\tsubject     TEXT "
    ++ codes "NOT NULL DEFAULT '',\n\t\t\t\tagent       TEXT NOT NULL DEFAULT ''\n"
    ++ codes "\t\t\t) "
    ++ codes "STRICT"

unfoldable pub index_recorded : Bytes
index_recorded =
    codes "CREATE INDEX observation_by_recorded ON observation(recorded_at DESC, id "
    ++ codes "DESC)"

unfoldable pub index_class : Bytes
index_class =
    codes "CREATE INDEX observation_by_class ON observation(class, recorded_at " ++ codes "DESC)"

unfoldable pub index_scope : Bytes
index_scope =
    codes "CREATE INDEX observation_by_scope ON observation(scope_kind, scope_ref, "
    ++ codes "recorded_at "
    ++ codes "DESC)"

unfoldable pub no_update : Bytes
no_update =
    codes "CREATE TRIGGER observation_no_update BEFORE UPDATE ON observation\n\t\t\t "
    ++ codes "BEGIN SELECT RAISE(ABORT, 'observation is append-only'); "
    ++ codes "END"

unfoldable pub no_delete : Bytes
no_delete =
    codes "CREATE TRIGGER observation_no_delete BEFORE DELETE ON observation\n\t\t\t "
    ++ codes "BEGIN SELECT RAISE(ABORT, 'observation is append-only'); "
    ++ codes "END"

unfoldable pub migrations : List Migration
migrations =
    record {
      version = 1;
      stmts =
          create_table ∷ index_recorded ∷ index_class ∷ index_scope ∷ no_update ∷ no_delete ∷ [];
    }
    ∷ []

-- `current > v` and `v <= current` for a Go int.
unfoldable pub above : ℤ → ℕ → Bool
above (pos n) v = ltb v n
above (negsuc n) v = false

unfoldable pub passed : ℕ → ℤ → Bool
passed v (pos n) = leb v n
passed v (negsuc n) = false

abbrev pub signed : ℤ → Bytes
signed (pos n) = decimal n
signed (negsuc n) = codes "-" ++ decimal (suc n)

-- What the deferred rollback makes of a result: its error joins in, unless the transaction is over.
unfoldable pub settle : Option Error → Option Error → Option Error
settle result none = result
settle result (some e) =
    if is_tx_done e
    then result
    else some (elim result [
      | none ↦ wrap (codes "rolling back schema migration") e
      | some first ↦ join first (wrap (codes "rolling back schema migration") e)
    ])

abbrev pub set_version : Bytes
set_version = codes "PRAGMA user_version = " ++ decimal schema_version

unfoldable pub too_new : ℤ → Error
too_new current = text (
    codes "store schema version "
    ++ (signed current
        ++ (codes " is newer than this binary supports ("
            ++ (decimal schema_version ++ codes "); upgrade field-docket"))))

module _ (D : Database) where
  -- Statements in order, up to the first that fails.
  unfoldable pub exec_all : ℕ → List Bytes → D.Tx → D.Tx × Option Error
  exec_all v [] tx = (tx, none)
  exec_all v (stmt ∷ stmts) tx =
      let (tx', out) = D.exec tx stmt in
      elim out [
        | none ↦ exec_all v stmts tx'
        | some e ↦ (tx', some (wrap (codes "applying schema version " ++ decimal v) e))
      ]

  -- The steps that the store has not passed.
  unfoldable pub climb : ℤ → List Migration → D.Tx → D.Tx × Option Error
  climb current [] tx = (tx, none)
  climb current (m ∷ ms) tx = elim (passed m.version current) [
    | true ↦ climb current ms tx
    | false ↦
        let (tx', out) = exec_all m.version m.stmts tx in
        elim out [ none ↦ climb current ms tx' | some e ↦ (tx', some e) ]
  ]

  unfoldable pub record_version : ℤ → D.Tx → D.Tx × Option Error
  record_version current tx = elim (passed schema_version current) [
    | true ↦ (tx, none)
    | false ↦
        let (tx', out) = D.exec tx set_version in
        elim out [
          | none ↦ (tx', none)
          | some e ↦
              (tx', some (wrap (codes "recording schema version " ++ decimal schema_version) e))
        ]
  ]

  -- The return of `result`: the deferred rollback runs first, and its error joins in.
  unfoldable pub deferred : D.Tx → Option Error → D.State × Option Error
  deferred tx result = let (tx', out) = D.rollback tx in (D.left tx', settle result out)

  unfoldable pub finish : D.Tx → D.State × Option Error
  finish tx =
      let (tx', out) = D.commit tx in
      elim out [
        | none ↦ deferred tx' none
        | some e ↦ deferred tx' (some (wrap (codes "committing schema migration") e))
      ]

  unfoldable pub apply : ℤ → D.Tx → D.State × Option Error
  apply current tx =
      let (tx', stopped) = climb current migrations tx in
      elim stopped [
        | some e ↦ deferred tx' (some e)
        | none ↦
            let (tx'', out) = record_version current tx' in
            elim out [ some e ↦ deferred tx'' (some e) | none ↦ finish tx'' ]
      ]

  unfoldable pub migrate : D.State → D.State × Option Error
  migrate s = elim (D.begin s) [
    | err e ↦ (s, some (wrap (codes "beginning schema migration") e))
    | ok tx ↦ elim (D.user_version tx) [
      | err e ↦ deferred tx (some (wrap (codes "reading schema version") e))
      | ok current ↦ elim (above current schema_version) [
        | true ↦ deferred tx (some (too_new current))
        | false ↦ apply current tx
      ]
    ]
  ]
