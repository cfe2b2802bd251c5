-- ===== src/Store/Listing/Answers.antt =====
-- A listing answers its filter: the page, the total and the tally are those of one snapshot.
use field_docket.Base.{
  ℕ, ◌≡◌, refl, sym, ap, ◌∙◌, List, [], ◌∷◌, ◌++◌, map, arith, Option, none, some, Bytes, length,
  take, select, fun_ext,
}
use field_docket.Go.Errors.{Error, Result, ok, >>=-eq-ok, context-eq-ok, ok-injective}
use field_docket.Store.Types.{Record, Filter, ClassCount}
use field_docket.Store.Filter.{where_sql}
use field_docket.Store.Filter.Clauses.{
  Clause, hold_all, clauses_of, predicate_text, predicate_args, where_sql-clauses_of,
}
use field_docket.Store.Filter.Matches.{matches, hold_all-clauses_of}
use field_docket.Store.Key.{order_desc}
use field_docket.Store.Tally.{tally}
use field_docket.Store.Sqlite.{
  Sqlite, IsSqlite, Arg, page_sql, count_sql, tally_sql, Rows, query_failed, scan_failed,
  iteration_failed, close_failed, rows,
}
use field_docket.Store.Listing.{Page, page_limit, read_rows, close_review, read_with, list}

-- The observations of a table that match a filter, the newest first.
unfoldable pub matching : Filter → List Record → List Record
unfolding matches order_desc select
matching f table = order_desc (select (matches f) table)

-- What a review of a table should return.
abbrev pub answer : Filter → List Record → Page
answer f table = record {
  records = take (page_limit f.limit) (matching f table);
  total = length (select (matches f) table);
  classes = tally (select (matches f) table);
}

read_rows-eq-ok :
    {A : Type 0} (a b c : Bytes) (q : Rows A) {xs : List A}
    → read_rows a b c q ≡ ok xs
    → q ≡ rows xs
unfolding read_rows
read_rows-eq-ok a b c (query_failed e) h = cc
read_rows-eq-ok a b c (scan_failed e d) h = cc
read_rows-eq-ok a b c (iteration_failed e d) h = cc
read_rows-eq-ok a b c (close_failed e) h = cc
read_rows-eq-ok a b c (rows xs) h = cc

close_review-eq-ok :
    {A : Type 0} (o : Option Error) (r : Result A) {a : A} → close_review o r ≡ ok a → r ≡ ok a
unfolding close_review
close_review-eq-ok none r h = h
close_review-eq-ok (some e) r h = ground arith

Page-eq :
    {rs rs' : List Record} {n n' : ℕ} {cs cs' : List ClassCount}
    → rs ≡ rs'
    → n ≡ n'
    → cs ≡ cs'
    → ◌≡◌ {A = Page}
        (record { records = rs; total = n; classes = cs })
        (record { records = rs'; total = n'; classes = cs' })
Page-eq p q r = λ i. record { records = p i; total = q i; classes = r i }

hold_all-eq-matches : (f : Filter) → hold_all (clauses_of f) ≡ matches f
hold_all-eq-matches f = fun_ext (hold_all-clauses_of f)

module _ (D : Sqlite) (L : IsSqlite D) where
  read_with-eq-ok :
      (tx : D.Tx) (n : ℕ) (cs : List Clause) {p : Page}
      → read_with D tx n (predicate_text cs, predicate_args cs) ≡ ok p
      → let found = select (hold_all cs) (D.visible tx) in
        p ≡ record {
          records = take n (order_desc found);
          total = length found;
          classes = tally found;
        }
  unfolding read_with
  read_with-eq-ok tx n cs {p} h =
      let (recs, got, h1) = >>=-eq-ok _ _ h in
      let (total, counted, h2) = >>=-eq-ok _ _ h1 in
      let (classes, grouped, h3) = >>=-eq-ok _ _ h2 in
      let e1 = L.selects tx cs n recs (read_rows-eq-ok _ _ _ _ got) in
      let e2 = L.counts tx cs total (context-eq-ok _ _ counted) in
      let e3 = L.tallies tx cs classes (read_rows-eq-ok _ _ _ _ grouped) in
      sym (ok-injective h3) ∙ Page-eq e1 e2 e3

  read_review-eq-ok :
      (tx : D.Tx) (f : Filter) {p : Page}
      → read_with D tx (page_limit f.limit) (where_sql f) ≡ ok p
      → p ≡ answer f (D.visible tx)
  unfolding matching
  read_review-eq-ok tx f h =
      rw (hold_all-eq-matches f) at
        (read_with-eq-ok tx (page_limit f.limit) (clauses_of f) (rw (where_sql-clauses_of f) at h))

  -- Over a driver that behaves as documented, a listing that succeeds returns the newest matching
  -- observations of the table at the start of its read transaction, no more than the limit, the
  -- number of all that match, and their tally.
  pub list-eq-ok :
      (s : D.State) (f : Filter) {p : Page} → list D s f ≡ ok p → p ≡ answer f (D.table s)
  unfolding list
  list-eq-ok s f h =
      let (tx, begun, closed) = >>=-eq-ok _ _ h in
      let seen = L.snapshot s tx (context-eq-ok _ _ begun) in
      read_review-eq-ok tx f (close_review-eq-ok (D.rollback tx) _ closed) ∙ ap (answer f) seen

  runs :
      (s : D.State) (f : Filter) (tx : D.Tx) (found : List Record) (n : ℕ)
      (groups : List ClassCount)
      → D.begin_read s ≡ ok tx
      → D.query_records tx
          (page_sql (where_sql f).0)
          (map Arg.text (where_sql f).1 ++ Arg.int (page_limit f.limit) ∷ [])
        ≡ rows found
      → D.query_count tx (count_sql (where_sql f).0) (map Arg.text (where_sql f).1) ≡ ok n
      → D.query_tally tx (tally_sql (where_sql f).0) (map Arg.text (where_sql f).1) ≡ rows groups
      → D.rollback tx ≡ none
      → list D s f ≡ ok (record { records = found; total = n; classes = groups })
  unfolding list read_with read_rows close_review
  runs s f tx found n groups begun paged counted tallied closed =
      rw (begun, closed, paged, counted, tallied) refl

  -- Over a driver that behaves as documented, a listing whose transaction begins, whose three reads
  -- succeed and whose rollback reports no error succeeds with the answer to its filter.
  pub list-answer :
      (s : D.State) (f : Filter) (tx : D.Tx) (found : List Record) (n : ℕ)
      (groups : List ClassCount)
      → D.begin_read s ≡ ok tx
      → D.query_records tx
          (page_sql (where_sql f).0)
          (map Arg.text (where_sql f).1 ++ Arg.int (page_limit f.limit) ∷ [])
        ≡ rows found
      → D.query_count tx (count_sql (where_sql f).0) (map Arg.text (where_sql f).1) ≡ ok n
      → D.query_tally tx (tally_sql (where_sql f).0) (map Arg.text (where_sql f).1) ≡ rows groups
      → D.rollback tx ≡ none
      → list D s f ≡ ok (answer f (D.table s))
  list-answer s f tx found n groups begun paged counted tallied closed =
      let run = runs s f tx found n groups begun paged counted tallied closed in
      run ∙ ap ok (list-eq-ok s f run)
