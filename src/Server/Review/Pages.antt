-- ===== src/Server/Review/Pages.antt =====
-- What `review_observations` returns.
use field_docket.Base.{
  ◌≤◌, ◌≡◌, refl, sym, ap, ◌∙◌, true, false, List, map, arith, Bytes, length, length-map,
  length-take, take, select,
}
use Prim.Native.Nat.{min}
use field_docket.Go.Errors.{Result, ok, err}
use field_docket.Go.Time.{Time}
use field_docket.Store.Types.{Record, Filter}
use field_docket.Store.Filter.Matches.{matches}
use field_docket.Store.Sqlite.{Sqlite, IsSqlite}
use field_docket.Store.Key.Order.{length-order_desc}
use field_docket.Store.Tally.Counts.{total_count, total_count-tally}
use field_docket.Store.Listing.{Page, page_limit, list}
use field_docket.Store.Listing.Answers.{matching, answer, list-eq-ok}
use field_docket.Server.Types.{Outcome, refused, failed, answered}
use field_docket.Server.Record.Refusals.{serving}
use field_docket.Server.Review.{
  ReviewInput, ReviewOutput, Checked, good, bad, review_filter, view, review_output, list_from,
  review_observations,
}

-- The answer that a review of a table should give.
abbrev pub expected : Filter → List Record → ReviewOutput
expected f table = review_output (answer f table)

answered-injective : {A : Type 0} {a b : A} → answered a ≡ answered b → a ≡ b
answered-injective h = cc

module _ (D : Sqlite) (L : IsSqlite D) where
  list_from-answered :
      (f : Filter) (s : D.State) {out : ReviewOutput}
      → list_from D f (serving D s) ≡ answered out
      → out ≡ expected f (D.table s)
  unfolding list_from
  list_from-answered f s {out} h = go (list D s f) refl h
    where
      go :
          (r : Result Page)
          → list D s f ≡ r
          → ◌≡◌ {A = Outcome ReviewOutput}
              (elim r [ ok p ↦ answered (review_output p) | err e ↦ failed e ])
              (answered out)
          → out ≡ expected f (D.table s)
      go (ok p) e h' = rw (← list-eq-ok D L s f e) (answered-injective (sym h'))
      go (err x) e h' = cc

  -- Over a driver that behaves as documented, a review of a served store that answers was given a
  -- filter that it could read, and its output is the one that the filter and the table determine.
  pub review-answered :
      (unicode : Bytes → Bytes) (parse : Bytes → Result Time) (s : D.State) (input : ReviewInput)
      {out : ReviewOutput}
      → review_observations D unicode parse (serving D s) input ≡ answered out
      → (f : Filter) × (review_filter unicode parse input ≡ good f) × (out ≡ expected f (D.table s))
  unfolding review_observations
  review-answered unicode parse s input {out} h = go (review_filter unicode parse input) refl h
    where
      go :
          (c : Checked Filter)
          → review_filter unicode parse input ≡ c
          → ◌≡◌ {A = Outcome ReviewOutput}
              (elim c [ bad m ↦ refused m | good f ↦ list_from D f (serving D s) ])
              (answered out)
          → (f : Filter) × (review_filter unicode parse input ≡ good f)
            × (out ≡ expected f (D.table s))
      go (good f) e h' = (f, e, list_from-answered f s h')
      go (bad m) e h' = cc

-- The parts of an answer agree: the page has at most as many entries as the limit, the class counts
-- add up to the total, an answer that is not truncated holds the whole match, and one that is
-- truncated has as many entries as the limit.
pub expected_consistent :
    (f : Filter) (table : List Record)
    → let out = expected f table in
      (length out.observations ≤ page_limit f.limit)
      × (total_count out.class_counts ≡ out.total)
      × (out.truncated ≡ false → length out.observations ≡ out.total)
      × (out.truncated ≡ true → length out.observations ≡ page_limit f.limit)
unfolding review_output matching
expected_consistent f table =
    let page = take (page_limit f.limit) (matching f table) in
    let found = select (matches f) table in
    let shown : length (map view page) ≡ min (page_limit f.limit) (length found) =
      length-map view page
      ∙ length-take (page_limit f.limit) (matching f table)
      ∙ ap (min (page_limit f.limit)) (length-order_desc found) in
    let sum = total_count-tally found in
    (omega (arith, shown), sum, λ h. ground (arith, shown), λ h. ground (arith, shown))
