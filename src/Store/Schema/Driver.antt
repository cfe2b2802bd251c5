-- ===== src/Store/Schema/Driver.antt =====
-- internal/store/schema.go: what the migration relies on of database/sql.
use field_docket.Base.{ℤ, ◌≡◌, List, [], ◌∷◌, ◌++◌, none, some, Bytes}
use field_docket.Go.Errors.{Error, tx_done, ok}
use field_docket.Store.Schema.{Database}

-- The documented behaviour of a transaction. `ran` lists the statements that took effect in a
-- database, `doing` those that a transaction sees, and `lasting` those that are left if it is not
-- committed from here on. A statement that succeeds is seen behind the others, and none lasts by
-- itself, whether it succeeds or not. A commit that succeeds makes those that are seen last, and
-- the transaction is over then; one that fails makes none last. A rollback, even of a transaction
-- that is over, leaves what lasts.
pub record IsDatabase (D : Database) : Type 0 where
  pub ran : D.State → List Bytes
  pub doing : D.Tx → List Bytes
  pub lasting : D.Tx → List Bytes
  pub version : D.State → ℤ
  pub begins :
      (s : D.State) (tx : D.Tx) → D.begin s ≡ ok tx → (doing tx ≡ ran s) × (lasting tx ≡ ran s)
  pub reads :
      (s : D.State) (tx : D.Tx) (v : ℤ)
      → D.begin s ≡ ok tx
      → D.user_version tx ≡ ok v
      → v ≡ version s
  pub execs :
      (tx : D.Tx) (stmt : Bytes)
      → (D.exec tx stmt).1 ≡ none
      → doing (D.exec tx stmt).0 ≡ doing tx ++ stmt ∷ []
  pub exec-lasting : (tx : D.Tx) (stmt : Bytes) → lasting (D.exec tx stmt).0 ≡ lasting tx
  pub commits :
      (tx : D.Tx)
      → (D.commit tx).1 ≡ none
      → (lasting (D.commit tx).0 ≡ doing tx) × ((D.rollback (D.commit tx).0).1 ≡ some tx_done)
  pub commit-lasting :
      (tx : D.Tx) (e : Error) → (D.commit tx).1 ≡ some e → lasting (D.commit tx).0 ≡ lasting tx
  pub rollbacks : (tx : D.Tx) → ran (D.left (D.rollback tx).0) ≡ lasting tx
