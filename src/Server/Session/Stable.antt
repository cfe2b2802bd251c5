-- ===== src/Server/Session/Stable.antt =====
-- Pages behind a cursor while observations are recorded.
use field_docket.Base.{
  ◌<◌, ◌≡◌, refl, sym, ap, ◌∙◌, false, List, ◌++◌, append-nil, arith, Bytes, All, All-map_of,
  select-append, select-eq-nil, Ordering,
}
use field_docket.Base.Compare.{compare_bytes}
use field_docket.Go.Errors.{Result}
use field_docket.Go.Time.{Time, is_zero}
use field_docket.Store.Clock.{format_time, millis, InFourDigits, compare-format_time}
use field_docket.Store.Types.{Record, Filter}
use field_docket.Store.Filter.Matches.{before_cursor, matches}
use field_docket.Store.Key.{compare_key}
use field_docket.Store.Listing.Answers.{matching}
use field_docket.Store.Sqlite.{Sqlite, IsSqlite}
use field_docket.Server.Types.{answered}
use field_docket.Server.Record.Refusals.{serving}
use field_docket.Server.Review.{ReviewInput, ReviewOutput, good, review_filter, review_observations}
use field_docket.Server.Review.Pages.{expected, review-answered}
use field_docket.Server.Session.{Session}
use field_docket.Server.Session.Growth.{IsEntry, Session-Grows}

-- A later millisecond than that of the cursor.
abbrev pub IsAfter : Time → Time → Result Bytes → Type 0
IsAfter before at random = (millis before < millis at) × InFourDigits at

entry-unmatched :
    (f : Filter)
    → is_zero f.before ≡ false
    → InFourDigits f.before
    → (r : Record) → IsEntry (IsAfter f.before) r
    → matches f r ≡ false
unfolding matches before_cursor compare_key
entry-unmatched f set digits r (at, _, (later, at_digits), stamp, _, _) =
    let order = compare-format_time at f.before at_digits digits in
    let newer : compare_bytes r.recorded_at (format_time f.before) ≡ Ordering.gt =
      rw (stamp, order) (ground (arith, later)) in
    ground (arith, newer)

good-injective : {f g : Filter} → good f ≡ good g → f ≡ g
good-injective h = cc

expected-append :
    (f : Filter) (table added : List Record)
    → All (λ r. matches f r ≡ false) added
    → expected f (table ++ added) ≡ expected f table
unfolding matching
expected-append f table added h =
    rw (select-append (matches f) table added, select-eq-nil (matches f) added h, append-nil) refl

module _ (D : Sqlite) (L : IsSqlite D) (unicode : Bytes → Bytes) (parse : Bytes → Result Time) where
  -- Over a driver that behaves as documented: a review behind a cursor whose time is set returns,
  -- whenever it answers, the same page, total and counts, however many observations have been
  -- recorded at later milliseconds than the cursor's in between, for years before 10000.
  pub review-stable :
      (input : ReviewInput) {f : Filter} {s s' : D.State} {out out' : ReviewOutput}
      → review_filter unicode parse input ≡ good f
      → is_zero f.before ≡ false
      → InFourDigits f.before
      → Session D unicode (IsAfter f.before) s s'
      → review_observations D unicode parse (serving D s) input ≡ answered out
      → review_observations D unicode parse (serving D s') input ≡ answered out'
      → out' ≡ out
  review-stable input {f} {s} {s'} read set digits session first later =
      let (g, rg, e) = review-answered D L unicode parse s input first in
      let (g', rg', e') = review-answered D L unicode parse s' input later in
      let (added, rows, entries) = Session-Grows D L unicode (IsAfter f.before) session in
      let same : g ≡ f = good-injective (sym rg ∙ read) in
      let same' : g' ≡ f = good-injective (sym rg' ∙ read) in
      e'
      ∙ ap (λ h. expected h (D.table s')) same'
      ∙ ap (expected f) rows
      ∙ expected-append f (D.table s) added
          (All-map_of (IsEntry (IsAfter f.before)) added (entry-unmatched f set digits) entries)
      ∙ ap (λ h. expected h (D.table s)) (sym same)
      ∙ sym e
