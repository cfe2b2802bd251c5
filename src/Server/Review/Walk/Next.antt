-- ===== src/Server/Review/Walk/Next.antt =====
-- internal/server/review.go: the filter that the cursor behind a row reads as.

use field_docket.Base.{
  ◌≡◌, refl, ap, ◌∙◌, arith, true, false, not, ◌&&◌, Bytes, codes, if◌then◌else◌,
}
use field_docket.Go.Errors.{Result, ok}
use field_docket.Go.Text.{trim_space, is_empty}
use field_docket.Go.Time.{Time, utc, is_zero}
use field_docket.Store.Types.{Record, Filter}
use field_docket.Store.Listing.Paging.{resume, IsCursor}
use field_docket.Server.Review.{
  ReviewInput, Checked, good, bad, read_time, check_cursor, review_filter, unpaired_before_id, view,
  ◌>>=◌,
}
use field_docket.Server.Record.{grouping_key}
use field_docket.Server.Review.Walk.{next_page}

-- The texts of a row that make a cursor come back as they are stored.
pub record IsReadable (parse : Bytes → Result Time) (k : Record) : Type 0 where
  pub at : Time
  pub stamp : is_empty (trim_space k.recorded_at) ≡ false
  pub parses : parse (trim_space k.recorded_at) ≡ ok at
  pub cursor : IsCursor k (utc at)
  pub trimmed : trim_space k.id ≡ k.id

good-injective : {A : Type 0} {a b : A} → good a ≡ good b → a ≡ b
good-injective h = cc

check_cursor-good : (f g : Filter) → check_cursor f ≡ good g → f ≡ g
unfolding check_cursor
check_cursor-good f g h =
    elim (not (is_empty f.before_id) && is_zero f.before)
        as (λ b. (if b then bad unpaired_before_id else good f) ≡ good g → f ≡ g) [
          | true ↦ λ e. cc
          | false ↦ λ e. good-injective e
        ]
      h

check_cursor-set : (f : Filter) → is_zero f.before ≡ false → check_cursor f ≡ good f
unfolding check_cursor
check_cursor-set f h = ground (arith, h)

>>=-eq-good :
    {A B : Type 0} (first : Checked A) (next : A → Checked B) {b : B}
    → (first >>= next) ≡ good b
    → (a : A) × (first ≡ good a) × (next a ≡ good b)
>>=-eq-good (good a) next h = (a, refl, h)
>>=-eq-good (bad m) next h = cc

-- The filter of an input with these times.
abbrev filter_of : (Bytes → Bytes) → ReviewInput → Time → Time → Filter
filter_of unicode input since before = record {
  class = grouping_key unicode input.class;
  scope_kind = trim_space input.scope_kind;
  scope_ref = grouping_key unicode input.scope_ref;
  since = since;
  before = before;
  before_id = trim_space input.before_id;
  limit = input.limit;
}

module _ (unicode : Bytes → Bytes) (parse : Bytes → Result Time) where
  read_time-row :
      (name : Bytes) (k : Record) (r : IsReadable parse k)
      → read_time parse name k.recorded_at ≡ good (utc r.at)
  unfolding read_time
  read_time-row name k r = rw (r.stamp, r.parses) refl

  -- The filter of the next page.
  pub next_filter :
      (input : ReviewInput) (k : Record) (r : IsReadable parse k) {f : Filter}
      → review_filter unicode parse input ≡ good f
      → review_filter unicode parse (next_page input (view k)) ≡ good (resume f k (utc r.at))
  unfolding review_filter view resume
  next_filter input k r {f} h =
      let rest : Time → Checked Filter = λ since.
        read_time parse (codes "before") input.before >>= λ before.
        check_cursor (filter_of unicode input since before) in
      let (since, hs, h1) = >>=-eq-good (read_time parse (codes "since") input.since) rest h in
      let (before, hb, h2) =
        >>=-eq-good (read_time parse (codes "before") input.before)
          (λ b. check_cursor (filter_of unicode input since b)) h1 in
      let same = check_cursor-good (filter_of unicode input since before) f h2 in
      rw (hs, read_time-row (codes "before") k r, r.trimmed)
        (check_cursor-set _ (r.cursor.set) ∙ ap (λ g. good (resume g k (utc r.at))) same)
