-- ===== src/Store/Sqlite.antt =====
-- The database driver (modernc.org/sqlite behind database/sql), which internal/store calls: its
-- operations on SQL text, and the documented behaviour of SQL that the package relies on.
pub mod Memory
pub mod Parse
use field_docket.Base.{
  ℕ, ◌≡◌, List, [], ◌∷◌, ◌++◌, map, Option, none, some, Bytes, codes, length, take, select,
}
use field_docket.Go.Errors.{Error, Result, ok, err}
use field_docket.Store.Types.{Record, ClassCount}
use field_docket.Store.Key.{order_desc}
use field_docket.Store.Key.Order.{DistinctIds}
use field_docket.Store.Tally.{tally}
use field_docket.Store.Filter.Clauses.{Clause, hold_all, predicate_text, predicate_args}

-- A bound argument.
pub data Arg : Type 0 where
  text : Bytes → Arg
  int : ℕ → Arg

-- What reading a *sql.Rows to its end comes to: the query fails, a row cannot be decoded, the
-- iteration ends early (both close the rows, which may fail too), closing fails, or all rows.
pub data Rows (A : Type 0) : Type 0 where
  query_failed : Error → Rows A
  scan_failed : Error → Option Error → Rows A
  iteration_failed : Error → Option Error → Rows A
  close_failed : Error → Rows A
  rows : List A → Rows A

pub record Sqlite : Type 1 where
  -- The database, and a read transaction on it.
  pub State : Type 0
  pub Tx : Type 0
  -- The rows of the observation table.
  pub table : State → List Record
  pub visible : Tx → List Record
  pub begin_read : State → Result Tx
  pub query_records : Tx → Bytes → List Arg → Rows Record
  pub query_count : Tx → Bytes → List Arg → Result ℕ
  pub query_tally : Tx → Bytes → List Arg → Rows ClassCount
  pub rollback : Tx → Option Error
  -- ExecContext of an INSERT.
  pub insert : State → Bytes → List Arg → State × Option Error

abbrev pub columns : Bytes
columns = codes "id, recorded_at, class, observation, scope_kind, scope_ref, subject, agent"

abbrev pub page_sql : Bytes → Bytes
page_sql predicate =
    codes "SELECT "
    ++ (columns
        ++ (codes " FROM observation"
            ++ (predicate ++ codes " ORDER BY recorded_at DESC, id DESC LIMIT ?")))

abbrev pub count_sql : Bytes → Bytes
count_sql predicate = codes "SELECT COUNT(*) FROM observation" ++ predicate

abbrev pub tally_sql : Bytes → Bytes
tally_sql predicate =
    codes "SELECT class, COUNT(*) FROM observation"
    ++ (predicate ++ codes " GROUP BY class ORDER BY COUNT(*) DESC, class ASC")

abbrev pub insert_sql : Bytes
insert_sql =
    codes "INSERT INTO observation\n\t\t(id, recorded_at, class, observation, scope_kind, "
    ++ codes "scope_ref, subject, agent)\n\t\tVALUES (?, ?, ?, ?, ?, ?, ?, ?)"

abbrev pub insert_args : Record → List Arg
insert_args r =
    text r.id
    ∷ text r.recorded_at
    ∷ text r.class
    ∷ text (r.observation).text
    ∷ text r.scope_kind
    ∷ text r.scope_ref
    ∷ text r.subject
    ∷ text r.agent
    ∷ []

-- The documented behaviour: a read transaction sees one snapshot; a SELECT that is read to its
-- end returns what SQL says; an INSERT adds its row or, on an error, nothing; ids are a key.
pub record IsSqlite (D : Sqlite) : Type 0 where
  pub snapshot : (s : D.State) (tx : D.Tx) → D.begin_read s ≡ ok tx → D.visible tx ≡ D.table s
  pub selects :
      (tx : D.Tx) (cs : List Clause) (n : ℕ) (rs : List Record)
      → D.query_records tx
          (page_sql (predicate_text cs))
          (map text (predicate_args cs) ++ int n ∷ [])
        ≡ rows rs
      → rs ≡ take n (order_desc (select (hold_all cs) (D.visible tx)))
  pub counts :
      (tx : D.Tx) (cs : List Clause) (n : ℕ)
      → D.query_count tx (count_sql (predicate_text cs)) (map text (predicate_args cs)) ≡ ok n
      → n ≡ length (select (hold_all cs) (D.visible tx))
  pub tallies :
      (tx : D.Tx) (cs : List Clause) (gs : List ClassCount)
      → D.query_tally tx (tally_sql (predicate_text cs)) (map text (predicate_args cs)) ≡ rows gs
      → gs ≡ tally (select (hold_all cs) (D.visible tx))
  pub inserts :
      (s : D.State) (r : Record)
      → (D.insert s insert_sql (insert_args r)).1 ≡ none
      → D.table (D.insert s insert_sql (insert_args r)).0 ≡ D.table s ++ r ∷ []
  pub insert_fails :
      (s : D.State) (r : Record) (e : Error)
      → (D.insert s insert_sql (insert_args r)).1 ≡ some e
      → D.table (D.insert s insert_sql (insert_args r)).0 ≡ D.table s
  pub primary_key : (s : D.State) → DistinctIds (D.table s)
