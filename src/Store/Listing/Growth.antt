-- ===== src/Store/Listing/Growth.antt =====
-- What an append changes in later listings.
use field_docket.Base.{
  ◌+◌, ◌≡◌, sym, ap, ◌∙◌, Bool, List, [], ◌∷◌, ◌++◌, arith, Bytes, length, select, if◌then◌else◌,
}
use mathlib.Core.Path.{subst}
use field_docket.Go.Errors.{Result, ok}
use field_docket.Go.Time.{Time}
use field_docket.Store.Types.{Observation, Record, Filter}
use field_docket.Store.Filter.Matches.{matches}
use field_docket.Store.Sqlite.{Sqlite, IsSqlite}
use field_docket.Store.Append.{append}
use field_docket.Store.Append.Recorded.{Recorded, append-Recorded}
use field_docket.Store.Listing.{Page, list}
use field_docket.Store.Listing.Answers.{list-eq-ok}

length-select-snoc :
    (p : Record → Bool) (rs : List Record) (r : Record)
    → length (select p (rs ++ r ∷ [])) ≡ length (select p rs) + (if p r then 1 else 0)
unfolding select
length-select-snoc p [] r = ground arith
length-select-snoc p (q ∷ rs) r = ground (arith, length-select-snoc p rs r)

module _ (D : Sqlite) (L : IsSqlite D) where
  appended_rows :
      (at : Time) (random : Result Bytes) (o : Observation) (s s' : D.State) {r : Record}
      → append D at random o s ≡ (s', ok r)
      → D.table s' ≡ D.table s ++ r ∷ []
  appended_rows at random o s s' h =
      let recorded = append-Recorded D L at random o s in
      (subst (Recorded D at random o s) h recorded).3

  -- Over a driver that behaves as documented: between two listings by one filter that succeed, an
  -- append that returns a record raises the total by one if the filter matches the record, and
  -- not at all if it does not.
  pub append-list_total :
      (at : Time) (random : Result Bytes) (o : Observation) (s s' : D.State) (f : Filter)
      {r : Record} {p p' : Page}
      → list D s f ≡ ok p
      → append D at random o s ≡ (s', ok r)
      → list D s' f ≡ ok p'
      → p'.total ≡ p.total + (if matches f r then 1 else 0)
  append-list_total at random o s s' f {r} {p} {p'} before added after =
      let first = ap (λ (q : Page). q.total) (list-eq-ok D L s f before) in
      let second = ap (λ (q : Page). q.total) (list-eq-ok D L s' f after) in
      let rows = ap (λ t. length (select (matches f) t)) (appended_rows at random o s s' added) in
      second
      ∙ rows
      ∙ length-select-snoc (matches f) (D.table s) r
      ∙ ap (λ n. n + (if matches f r then 1 else 0)) (sym first)
