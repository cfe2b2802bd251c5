-- ===== src/Server/Review/Consistent.antt =====
-- How the parts of an answer of review_observations agree with each other and with the docket.
use field_docket.Base.{
  ℤ, pos, negsuc, ℕ, zero, suc, ◌≤◌, ◌≡◌, refl, sym, ap, ◌∙◌, Bool, true, false, List, [], ◌∷◌,
  ◌++◌, map, arith, Bytes, length, take, drop, take-append-drop, All, All-of_append, select, ltb,
}
use mathlib.Core.Path.{subst}
use mathlib.Core.List.{Mem, mem-cons_self, mem-cons_of_mem}
use field_docket.Go.Errors.{Result}
use field_docket.Go.Time.{Time}
use field_docket.Store.Types.{Record, Filter}
use field_docket.Store.Filter.Matches.{matches}
use field_docket.Store.Key.Order.{order_desc-All}
use field_docket.Store.Sqlite.{Sqlite, IsSqlite}
use field_docket.Store.Tally.Counts.{total_count}
use field_docket.Store.Listing.{page_limit}
use field_docket.Store.Listing.Answers.{matching}
use field_docket.Server.Types.{answered}
use field_docket.Server.Record.Refusals.{serving}
use field_docket.Server.Clip.Runes.{clip_bounds}
use field_docket.Server.Review.{
  ReviewInput, ReviewOutput, ObservationView, view, review_output, review_observations,
}
use field_docket.Server.Review.Limit.{review_filter-limit}
use field_docket.Server.Review.Pages.{expected, review-answered, expected_consistent}

-- An entry has the fields of a row, and of its text a beginning of at most 1000 bytes, with a mark
-- where the text is longer.
pub record Shows (v : ObservationView) (r : Record) : Type 0 where
  pub same_id : v.id ≡ r.id
  pub same_time : v.recorded_at ≡ r.recorded_at
  pub same_class : v.class ≡ r.observation.class
  pub same_kind : v.scope_kind ≡ r.observation.scope_kind
  pub same_ref : v.scope_ref ≡ r.observation.scope_ref
  pub same_subject : v.subject ≡ r.observation.subject
  pub same_agent : v.agent ≡ r.observation.agent
  pub short : length v.observation ≤ 1000
  pub beginning : (rest : Bytes) × (v.observation ++ rest ≡ r.observation.text)
  pub marked : v.observation_truncated ≡ ltb 1000 (length r.observation.text)

view-Shows : (r : Record) → Shows (view r) r
unfolding view
view-Shows r =
    let (short, beginning, marked, _) = clip_bounds r.observation.text 1000 in
    record {
      same_id = refl;
      same_time = refl;
      same_class = refl;
      same_kind = refl;
      same_ref = refl;
      same_subject = refl;
      same_agent = refl;
      short = short;
      beginning = beginning;
      marked = marked;
    }

-- An entry of a row of the table.
abbrev pub IsShown : List Record → ObservationView → Type 0
IsShown table v = (r : Record) × Mem r table × Shows v r

All-Mem : {P : Record → Type 0} (xs : List Record) → ((x : Record) → Mem x xs → P x) → All P xs
All-Mem [] h = tt
All-Mem (x ∷ xs) h = (h x mem-cons_self, All-Mem xs (λ y there. h y (mem-cons_of_mem x there)))

All-select :
    (P : Record → Type 0) (p : Record → Bool) (xs : List Record) → All P xs → All P (select p xs)
unfolding select
All-select P p [] h = tt
All-select P p (x ∷ xs) h = ground (arith, All-select P p xs h.1, h.0)

All-take : (P : Record → Type 0) (n : ℕ) (xs : List Record) → All P xs → All P (take n xs)
All-take P n xs h =
    (All-of_append P (take n xs) (drop n xs) (subst (All P) (sym (take-append-drop n xs)) h)).0

All-view : (table xs : List Record) → All (λ r. Mem r table) xs → All (IsShown table) (map view xs)
All-view table [] h = tt
All-view table (x ∷ xs) h = ((x, h.0, view-Shows x), All-view table xs h.1)

expected-IsShown :
    (f : Filter) (table : List Record) → All (IsShown table) (expected f table).observations
unfolding review_output matching
expected-IsShown f table =
    let kept = All-select (λ r. Mem r table) (matches f) table (All-Mem table (λ r there. there)) in
    All-view table _ (
      All-take (λ r. Mem r table) (page_limit f.limit) _
        (order_desc-All (λ r. Mem r table) (select (matches f) table) kept))

-- The number of entries that an input asks for: 50 where its limit is not positive.
abbrev pub asked : ℤ → ℕ
asked (pos zero) = 50
asked (pos (suc n)) = suc n
asked (negsuc n) = 50

page_limit-asked : (n : ℤ) → page_limit n ≡ asked n
unfolding page_limit
page_limit-asked (pos zero) = refl
page_limit-asked (pos (suc n)) = refl
page_limit-asked (negsuc n) = refl

-- What an answer promises, of a docket with these rows.
pub record IsConsistent (input : ReviewInput) (table : List Record) (out : ReviewOutput)
    : Type 0 where
  pub shown : All (IsShown table) out.observations
  pub bounded : length out.observations ≤ asked input.limit
  pub counted : total_count out.class_counts ≡ out.total
  pub whole : out.truncated ≡ false → length out.observations ≡ out.total
  pub cut : out.truncated ≡ true → length out.observations ≡ asked input.limit

-- Over a driver that behaves as documented, in an answer of a served store each entry has the
-- fields of a stored row and a beginning of its text, of at most 1000 bytes and marked where it is
-- not all; there are at most as many entries as the input asks for, which is 50 where its limit is
-- not positive; the class counts add up to the total; an answer that is not marked as truncated
-- has as many entries as the total, and one that is has as many as the input asks for.
pub review-IsConsistent :
    (D : Sqlite) (L : IsSqlite D) (unicode : Bytes → Bytes) (parse : Bytes → Result Time)
    (s : D.State) (input : ReviewInput) {out : ReviewOutput}
    → review_observations D unicode parse (serving D s) input ≡ answered out
    → IsConsistent input (D.table s) out
review-IsConsistent D L unicode parse s input answers =
    let (f, read, is) = review-answered D L unicode parse s input answers in
    let limit : page_limit f.limit ≡ asked input.limit =
      ap page_limit (review_filter-limit unicode parse input read) ∙ page_limit-asked input.limit in
    let (bounded, counted, whole, cut) = expected_consistent f (D.table s) in
    subst (IsConsistent input (D.table s)) (sym is) (record {
      shown = expected-IsShown f (D.table s);
      bounded = omega (arith, bounded, limit);
      counted = counted;
      whole = whole;
      cut = λ h. cut h ∙ limit;
    })
