-- ===== src/Store/Filter/Matches.antt =====
-- Which observations a filter matches: "set fields combine with AND".
use field_docket.Base.{
  ◌≡◌, refl, Bool, true, false, not, ◌&&◌, ◌||◌, List, [], ◌∷◌, ◌++◌, arith, if◌then◌else◌,
}
use field_docket.Base.Compare.{compare_bytes, is_lt, same}
use field_docket.Go.Text.{is_empty}
use field_docket.Go.Time.{is_zero}
use field_docket.Store.Clock.{format_time}
use field_docket.Store.Key.{compare_key}
use field_docket.Store.Types.{Filter, Record}
use field_docket.Store.Filter.Clauses.{
  Clause, holds, hold_all, when, cursor_clauses, clauses_of, predicate_text, predicate_args,
  where_sql-clauses_of,
}
use field_docket.Store.Filter.{where_sql}

-- Recorded before the cursor: before the pair, or before the instant where no id is given.
unfoldable pub before_cursor : Filter → Record → Bool
before_cursor f r =
    if is_zero f.before
    then true
    else if is_empty f.before_id
    then is_lt (compare_bytes r.recorded_at (format_time f.before))
    else is_lt (compare_key r.recorded_at r.id (format_time f.before) f.before_id)

-- Every field but the cursor.
unfoldable pub in_scope : Filter → Record → Bool
in_scope f r =
    (is_empty f.class || same r.class f.class)
    && (is_empty f.scope_kind || same r.scope_kind f.scope_kind)
    && (is_empty f.scope_ref || same r.scope_ref f.scope_ref)
    && (is_zero f.since || not (is_lt (compare_bytes r.recorded_at (format_time f.since))))

unfoldable pub matches : Filter → Record → Bool
unfolding in_scope before_cursor
matches f r = in_scope f r && before_cursor f r

hold_all-append :
    (cs ds : List Clause) (r : Record) → hold_all (cs ++ ds) r ≡ (hold_all cs r && hold_all ds r)
hold_all-append [] ds r = refl
hold_all-append (c ∷ cs) ds r = ground (arith, hold_all-append cs ds r)

hold_all-when :
    (b : Bool) (c : Clause) (r : Record) → hold_all (when (not b) c) r ≡ (b || holds r c)
hold_all-when true c r = refl
hold_all-when false c r = ground arith

hold_all-cursor : (f : Filter) (r : Record) → hold_all (cursor_clauses f) r ≡ before_cursor f r
unfolding cursor_clauses before_cursor
hold_all-cursor f r = ground arith

-- The conditions of a filter, under SQL's reading of them, hold of the rows that it matches.
pub hold_all-clauses_of : (f : Filter) (r : Record) → hold_all (clauses_of f) r ≡ matches f r
unfolding clauses_of matches
hold_all-clauses_of f r = rw (
  hold_all-append,
  hold_all-append,
  hold_all-append,
  hold_all-append,
  hold_all-when (is_empty f.class),
  hold_all-when (is_empty f.scope_kind),
  hold_all-when (is_empty f.scope_ref),
  hold_all-when (is_zero f.since),
  hold_all-cursor,
)

-- What `where` renders reads as exactly the filter: its text and arguments are those of
-- conditions that hold, in SQL, of the rows in the filter's class, scope and time window and
-- behind its cursor, and of no others.
pub where_sql-matches :
    (f : Filter)
    → (cs : List Clause) × (where_sql f ≡ (predicate_text cs, predicate_args cs))
      × ((r : Record) → hold_all cs r ≡ matches f r)
where_sql-matches f = (clauses_of f, where_sql-clauses_of f, hold_all-clauses_of f)
