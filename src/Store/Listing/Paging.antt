-- ===== src/Store/Listing/Paging.antt =====
-- Paging backward: the last row of a page, passed as `before` and `before_id`, resumes the listing
-- just behind that row.
use field_docket.Base.{
  ◌≡◌, refl, ap, take, length, sym, ◌∙◌, List, ◌∷◌, ◌++◌, true, false, ◌&&◌, arith, Bytes,
  All-of_append, select, select-All, select-select, &&-true, fun_ext,
}
use field_docket.Base.Compare.{compare_bytes, is_lt, compare_bytes_trans, compare_bytes-eq}
use field_docket.Go.Text.{is_empty}
use field_docket.Go.Time.{Time, is_zero}
use field_docket.Store.Clock.{format_time}
use field_docket.Store.Types.{Record, Filter}
use field_docket.Store.Filter.Matches.{in_scope, before_cursor, matches}
use field_docket.Store.Key.{compare_key, precedes}
use field_docket.Store.Key.Order.{
  length-order_desc, compare_key_trans, DistinctIds, order_desc-All, order_desc-IsNewestFirst,
  select-DistinctIds, select-order_desc, select-precedes,
}
use field_docket.Store.Listing.Answers.{matching, list-eq-ok}
use field_docket.Store.Listing.{Page, page_limit, list}
use field_docket.Store.Sqlite.{Sqlite, IsSqlite}
use field_docket.Go.Errors.{ok}

-- The filter for the page behind the row `k`, whose timestamp reads as `at`.
unfoldable pub resume : Filter → Record → Time → Filter
resume f k at = record f { before = at; before_id = k.id }

-- `at` and the id of `k` make a cursor: a set time that is stored as `k` is stamped, and an id.
pub record IsCursor (k : Record) (at : Time) : Type 0 where
  pub set : is_zero at ≡ false
  pub stamped : format_time at ≡ k.recorded_at
  pub named : is_empty k.id ≡ false

precedes-compare_key :
    (r k : Record) → precedes r k ≡ is_lt (compare_key r.recorded_at r.id k.recorded_at k.id)
unfolding precedes
precedes-compare_key r k = refl

precedes-not_later :
    (r k : Record) (at : Bytes)
    → precedes r k ≡ true
    → is_lt (compare_bytes k.recorded_at at) ≡ true
    → is_lt (compare_bytes r.recorded_at at) ≡ true
unfolding precedes
precedes-not_later r k at p h = ground (
  arith,
  compare_bytes_trans r.recorded_at k.recorded_at at,
  compare_bytes-eq r.recorded_at k.recorded_at,
)

-- A row that an earlier cursor admits admits all that precede it.
before_cursor-precedes :
    (f : Filter) (r k : Record)
    → before_cursor f k ≡ true
    → precedes r k ≡ true
    → before_cursor f r ≡ true
unfolding before_cursor
before_cursor-precedes f r k h p = ground (
  arith,
  precedes-not_later r k (format_time f.before),
  precedes-compare_key r k,
  compare_key_trans r.recorded_at r.id k.recorded_at k.id (format_time f.before) f.before_id,
)

before_cursor-resume :
    (f : Filter) (k : Record) {at : Time}
    → IsCursor k at
    → (r : Record) → before_cursor (resume f k at) r ≡ precedes r k
unfolding before_cursor resume
before_cursor-resume f k c r = rw (c.set, c.named, c.stamped, precedes-compare_key)

in_scope-resume :
    (f : Filter) (k : Record) (at : Time) (r : Record) → in_scope (resume f k at) r ≡ in_scope f r
unfolding in_scope resume
in_scope-resume f k at r = refl

matches-parts : (f : Filter) (r : Record) → matches f r ≡ (in_scope f r && before_cursor f r)
unfolding matches
matches-parts f r = refl

matches-resume :
    (f : Filter) (k : Record) {at : Time}
    → IsCursor k at
    → before_cursor f k ≡ true
    → (r : Record) → matches (resume f k at) r ≡ (matches f r && precedes r k)
matches-resume f k {at} c h r = ground (
  arith,
  matches-parts (resume f k at) r,
  matches-parts f r,
  in_scope-resume f k at r,
  before_cursor-resume f k c r,
  before_cursor-precedes f r k h,
)

-- A row that is listed matches.
listed-matches :
    (f : Filter) (table xs ys : List Record) (k : Record)
    → matching f table ≡ xs ++ k ∷ ys
    → matches f k ≡ true
unfolding matching
listed-matches f table xs ys k listed =
    let all = order_desc-All (λ r. matches f r ≡ true) _ (select-All (matches f) table) in
    (All-of_append _ xs (k ∷ ys) (rw listed at all)).1.0

-- The page behind a row of the listing is the rest of the listing: no row is skipped and none
-- comes twice, also where rows share a timestamp.
pub matching-resume :
    (f : Filter) (table xs ys : List Record) (k : Record) {at : Time}
    → DistinctIds table
    → IsCursor k at
    → matching f table ≡ xs ++ k ∷ ys
    → matching (resume f k at) table ≡ ys
unfolding matching
matching-resume f table xs ys k {at} d c listed =
    let admitted =
      (&&-true _ _ (sym (matches-parts f k) ∙ listed-matches f table xs ys k listed)).1 in
    let sorted = order_desc-IsNewestFirst _ (select-DistinctIds (matches f) table d) in
    rw
      (
        fun_ext (matches-resume f k c admitted),
        ← select-select (λ r. precedes r k) (matches f) table,
        ← select-order_desc (λ r. precedes r k) (select (matches f) table)
            (select-DistinctIds (matches f) table d),
        listed,
      )
      (select-precedes xs ys k (rw listed at sorted))

length-matching :
    (f : Filter) (table : List Record)
    → length (matching f table) ≡ length (select (matches f) table)
unfolding matching
length-matching f table = length-order_desc (select (matches f) table)

module _ (D : Sqlite) (L : IsSqlite D) where
  -- Over a driver that behaves as documented, a listing that resumes behind a row of a listing,
  -- whose timestamp reads as a set time and whose id is not empty, and that succeeds, returns the
  -- page that follows that row and counts the rows behind it.
  pub list-resume :
      (s : D.State) (f : Filter) (xs ys : List Record) (k : Record) {at : Time} {p : Page}
      → IsCursor k at
      → matching f (D.table s) ≡ xs ++ k ∷ ys
      → list D s (resume f k at) ≡ ok p
      → (p.records ≡ take (page_limit f.limit) ys) × (p.total ≡ length ys)
  unfolding resume
  list-resume s f xs ys k {at} {p} cursor found h =
      let answered = list-eq-ok D L s (resume f k at) h in
      let rest = matching-resume f (D.table s) xs ys k (L.primary_key s) cursor found in
      (
        ap (λ (q : Page). q.records) answered ∙ ap (take (page_limit f.limit)) rest,
        ap (λ (q : Page). q.total) answered
            ∙ sym (length-matching (resume f k at) (D.table s))
            ∙ ap length rest,
      )
