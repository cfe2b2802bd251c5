-- ===== src/Store/Listing.antt =====
-- internal/store/store.go: `List`, a page of observations with the total and the tally.
pub mod Answers
pub mod Paging
pub mod Growth
use field_docket.Base.{
  negsuc, pos, ℤ, ℕ, zero, suc, List, [], ◌∷◌, ◌++◌, map, Bool, true, false, Option, none, some,
  Bytes, codes, if◌then◌else◌,
}
use field_docket.Go.Errors.{Error, wrap, join, is_tx_done, Result, ok, err, ◌>>=◌, context}
use field_docket.Store.Types.{Record, Filter, ClassCount}
use field_docket.Store.Filter.{where_sql}
use field_docket.Store.Sqlite.{
  Sqlite, Arg, Rows, query_failed, scan_failed, iteration_failed, close_failed, rows, page_sql,
  count_sql, tally_sql,
}

abbrev pub default_limit : ℕ
default_limit = 50

-- `if limit <= 0 { limit = defaultLimit }`
unfoldable pub page_limit : ℤ → ℕ
page_limit (pos zero) = default_limit
page_limit (pos (suc n)) = suc n
page_limit (negsuc n) = default_limit

-- What `List` returns on success.
pub record Page : Type 0 where
  pub records : List Record
  pub total : ℕ
  pub classes : List ClassCount

-- `errors.Join(err, rows.Close())`
abbrev and_close : Error → Option Error → Error
and_close e none = e
and_close e (some c) = join e c

-- A `rows.Next` loop to its end, with the prefix that each failure gets.
unfoldable pub read_rows : {A : Type 0} → Bytes → Bytes → Bytes → Rows A → Result (List A)
read_rows reading decoding closing (query_failed e) = err (wrap reading e)
read_rows reading decoding closing (scan_failed e c) = err (and_close (wrap decoding e) c)
read_rows reading decoding closing (iteration_failed e c) = err (and_close (wrap reading e) c)
read_rows reading decoding closing (close_failed e) = err (wrap closing e)
read_rows reading decoding closing (rows xs) = ok xs

-- The deferred rollback: its error, unless the transaction is done, joins the result's.
unfoldable pub close_review : {A : Type 0} → Option Error → Result A → Result A
close_review none r = r
close_review (some e) r = if is_tx_done e then r else elim r [
  | ok a ↦ err (wrap (codes "closing review") e)
  | err e' ↦ err (join e' (wrap (codes "closing review") e))
]

module _ (D : Sqlite) where
  -- The three reads on one transaction, for a predicate with its arguments.
  unfoldable pub read_with : D.Tx → ℕ → Bytes × List Bytes → Result Page
  unfolding read_rows
  read_with tx limit (predicate, args) =
      let bound = map Arg.text args in
      do
        recs ←
            read_rows (codes "reading observations") (codes "decoding observation")
              (codes "closing observation rows")
              (D.query_records tx (page_sql predicate) (bound ++ Arg.int limit ∷ []))
        total ←
            context (codes "counting observations") (D.query_count tx (count_sql predicate) bound)
        classes ←
            read_rows (codes "tallying classes") (codes "decoding class tally")
              (codes "closing class tally rows") (D.query_tally tx (tally_sql predicate) bound)
        ok (record { records = recs; total = total; classes = classes })

  -- `List`
  unfoldable pub list : D.State → Filter → Result Page
  unfolding read_with close_review is_tx_done page_limit where_sql
  list s f = do
    tx ← context (codes "beginning review") (D.begin_read s)
    close_review (D.rollback tx) (read_with tx (page_limit f.limit) (where_sql f))
