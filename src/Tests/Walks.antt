-- ===== src/Tests/Walks.antt =====
-- The listings of the database in memory, which all succeed.
use field_docket.Base.{◌≡◌, refl, length, take}
use field_docket.Go.Errors.{ok}
use field_docket.Store.Types.{Filter}
use field_docket.Store.Filter.Clauses.{clauses_of, where_sql-clauses_of}
use field_docket.Store.Key.{order_desc}
use field_docket.Store.Listing.{Page, page_limit, list}
use field_docket.Store.Listing.Answers.{answer, list-answer}
use field_docket.Store.Sqlite.Memory.{memory, memory-IsSqlite, memory_reads, Table, found}
use field_docket.Store.Tally.{tally}

pub memory_lists : (t : Table) (f : Filter) → (p : Page) × (list memory t f ≡ ok p)
memory_lists t f =
    let cs = clauses_of f in
    let (paged, counted, tallied) = memory_reads t cs (page_limit f.limit) in
    (
      answer f t.0,
      list-answer memory memory-IsSqlite t f t (take (page_limit f.limit) (order_desc (found t cs)))
          (length (found t cs)) (tally (found t cs)) refl (rw (where_sql-clauses_of) paged)
          (rw (where_sql-clauses_of) counted) (rw (where_sql-clauses_of) tallied) refl,
    )
