-- ===== src/Server/Review/Walk/Whole.antt =====
-- internal/server/review.go: the entries that a walk collects.
use mathlib.Core.Path.{subst}
use field_docket.Base.{
  ℤ, pos, negsuc, ap₂, ℕ, zero, suc, ◌<◌, ◌≡◌, refl, sym, ap, ◌∙◌, inl, inr, arith, true, false,
  List, [], ◌∷◌, ◌++◌, map, append_assoc, Bytes, none, some, All, All-of_append, length, length-map,
  take, select, ltb,
}
use field_docket.Go.Errors.{Result, ok}
use field_docket.Go.Time.{Time, utc}
use field_docket.Store.Types.{Record, Filter}
use field_docket.Store.Sqlite.{Sqlite, IsSqlite}
use field_docket.Store.Key.Order.{length-order_desc, order_desc-All, select_keeps-All}
use field_docket.Store.Filter.Matches.{matches}
use field_docket.Store.Listing.{Page, page_limit, list}
use field_docket.Store.Listing.Answers.{matching, list-eq-ok}
use field_docket.Store.Listing.Paging.{resume, matching-resume}
use field_docket.Server.Types.{answered}
use field_docket.Server.Record.Refusals.{serving}
use field_docket.Server.Review.{
  ReviewInput, ReviewOutput, ObservationView, good, review_filter, view, review_output, list_from,
  review_observations,
}
use field_docket.Server.Review.Pages.{expected}
use field_docket.Server.Review.Walk.{next_page, last, Seen, prepend, behind, step, walk}
use field_docket.Server.Review.Walk.Cut.{page-IsCut}
use field_docket.Server.Review.Walk.Next.{IsReadable, next_filter}

last-view : (xs : List Record) (k : Record) → last (map view (xs ++ k ∷ [])) ≡ some (view k)
unfolding last
last-view [] k = refl
last-view (x ∷ []) k = refl
last-view (x ∷ y ∷ xs) k = last-view (y ∷ xs) k

map-append : (xs ys : List Record) → map view (xs ++ ys) ≡ map view xs ++ map view ys
map-append [] ys = refl
map-append (x ∷ xs) ys = ap (λ t. view x ∷ t) (map-append xs ys)

page_limit-suc : (l : ℤ) → (n : ℕ) × (page_limit l ≡ suc n)
unfolding page_limit
page_limit-suc (pos zero) = (49, refl)
page_limit-suc (pos (suc n)) = (n, refl)
page_limit-suc (negsuc n) = (49, refl)

length-matching :
    (f : Filter) (table : List Record)
    → length (matching f table) ≡ length (select (matches f) table)
unfolding matching
length-matching f table = length-order_desc (select (matches f) table)

-- Whether an answer is truncated, by its page.
truncated-page :
    (f : Filter) (table : List Record)
    → (expected f table).truncated
      ≡ ltb (length (take (page_limit f.limit) (matching f table))) (length (matching f table))
unfolding review_output
truncated-page f table =
    ap₂ ltb (length-map view (take (page_limit f.limit) (matching f table)))
      (sym (length-matching f table))

observations-page :
    (f : Filter) (table : List Record)
    → (expected f table).observations ≡ map view (take (page_limit f.limit) (matching f table))
unfolding review_output
observations-page f table = refl

-- An answer that holds the whole match ends the walk.
behind-last :
    (go : ReviewInput → Seen) (input : ReviewInput) (out : ReviewOutput)
    → out.truncated ≡ false
    → behind go input out ≡ some out.observations
unfolding behind
behind-last go input out h = rw h refl

behind-more :
    (go : ReviewInput → Seen) (input : ReviewInput) (out : ReviewOutput) {v : ObservationView}
    {vs : List ObservationView}
    → out.truncated ≡ true
    → last out.observations ≡ some v
    → go (next_page input v) ≡ some vs
    → behind go input out ≡ some (out.observations ++ vs)
unfolding behind
behind-more go input out h e g =
    ap
      (λ b. elim b as (λ x. Seen) [
        | false ↦ some out.observations
        | true ↦ elim (last out.observations) as (λ x. Seen) [
          | none ↦ none
          | some v ↦ prepend out.observations (go (next_page input v))
        ]
      ])
      h
    ∙ ap
        (λ o. elim o as (λ x. Seen) [
          | none ↦ none
          | some v ↦ prepend out.observations (go (next_page input v))
        ])
        e
    ∙ ap (prepend out.observations) g

module _ (D : Sqlite) (L : IsSqlite D) (unicode : Bytes → Bytes) (parse : Bytes → Result Time)
    (s : D.State) (lists : (f : Filter) → (p : Page) × (list D s f ≡ ok p))
    (readable : All (IsReadable parse) (D.table s)) where
  review-answers :
      (input : ReviewInput) {f : Filter}
      → review_filter unicode parse input ≡ good f
      → review_observations D unicode parse (serving D s) input ≡ answered (expected f (D.table s))
  unfolding review_observations review_output
  review-answers input {f} h =
      let (p, e) = lists f in
      rw (review_observations, h, list_from, e)
        (ap (λ q. answered (review_output q)) (list-eq-ok D L s f e))

  matching-IsReadable : (f : Filter) → All (IsReadable parse) (matching f (D.table s))
  unfolding matching
  matching-IsReadable f =
      order_desc-All (IsReadable parse) _
        (select_keeps-All (IsReadable parse) (matches f) (D.table s) readable)

  -- Over a driver that behaves as documented, for a state of which every listing succeeds and whose
  -- rows all have texts that make a cursor come back as they are stored: paging backward by the last
  -- row of each answer, from any review that can be read, ends in more reviews than there are
  -- matching rows, and its entries are those of all the rows that match, the newest first.
  pub walk-matching :
      (n : ℕ) (input : ReviewInput) {f : Filter}
      → review_filter unicode parse input ≡ good f
      → length (matching f (D.table s)) < n
      → walk D unicode parse s n input ≡ some (map view (matching f (D.table s)))
  unfolding walk
  walk-matching zero input h short = absurd (omega (arith, short))
  walk-matching (suc n) input {f} h short =
      let rows = matching f (D.table s) in
      let out = expected f (D.table s) in
      let (m, limit) = page_limit-suc f.limit in
      let page : out.observations ≡ map view (take (suc m) rows) =
        observations-page f (D.table s) ∙ ap (λ l. map view (take l rows)) limit in
      let cut : out.truncated ≡ ltb (length (take (suc m) rows)) (length rows) =
        truncated-page f (D.table s) ∙ ap (λ l. ltb (length (take l rows)) (length rows)) limit in
      rw (step, review-answers input h)
        (elim (page-IsCut m rows) [
          | inl whole ↦
              behind-last (walk D unicode parse s n) input out
                (cut ∙ ap (λ t. ltb (length t) (length rows)) whole ∙ ground arith)
              ∙ ap some (page ∙ ap (map view) whole)
          | inr (xs, k, ys, e, taken, shorter, more) ↦
              let r =
                (All-of_append _ xs (k ∷ ys)
                  (subst (All (IsReadable parse)) e (matching-IsReadable f))).1.0 in
              let f' = resume f k (utc r.at) in
              let rest : matching f' (D.table s) ≡ ys =
                matching-resume f (D.table s) xs ys k (L.primary_key s) r.cursor e in
              let ih =
                walk-matching n (next_page input (view k)) (next_filter unicode parse input k r h)
                  (rw rest (omega (arith, short, shorter))) in
              behind-more (walk D unicode parse s n) input out (cut ∙ ground (arith, more))
                (ap last (page ∙ ap (map view) taken) ∙ last-view xs k)
                (ih ∙ ap (λ t. some (map view t)) rest)
              ∙ ap some (
                  ap (λ t. t ++ map view ys) (page ∙ ap (map view) taken)
                  ∙ sym (map-append (xs ++ k ∷ []) ys)
                  ∙ ap (map view) (append_assoc xs (k ∷ []) ys ∙ sym e))
        ])
