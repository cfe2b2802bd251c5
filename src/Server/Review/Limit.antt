-- ===== src/Server/Review/Limit.antt =====
-- internal/server/review.go: the limit of the filter that an input is read as.
use field_docket.Base.{◌≡◌, ap, not, ◌&&◌, true, false, Bytes, if◌then◌else◌, sym, codes}
use field_docket.Go.Errors.{Result}
use field_docket.Go.Text.{is_empty}
use field_docket.Go.Time.{Time, is_zero}
use field_docket.Store.Types.{Filter}
use field_docket.Server.Review.{
  ReviewInput, Checked, good, bad, unpaired_before_id, ◌>>=◌, read_time, check_cursor,
  review_filter,
}

bind-good :
    {A B : Type 0} (c : Checked A) (next : A → Checked B) {b : B}
    → (c >>= next) ≡ good b
    → (a : A) × (next a ≡ good b)
bind-good (good a) next h = (a, h)
bind-good (bad m) next h = cc

good-injective : {A : Type 0} {a b : A} → good a ≡ good b → a ≡ b
good-injective h = cc

check_cursor-good : (f : Filter) {f' : Filter} → check_cursor f ≡ good f' → f' ≡ f
unfolding check_cursor
check_cursor-good f {f'} h =
    elim (not (is_empty f.before_id) && is_zero f.before)
        as (λ b.
          ◌≡◌ {A = Checked Filter} (if b then bad unpaired_before_id else good f) (good f')
          → f' ≡ f) [ true ↦ λ e. cc | false ↦ λ e. good-injective (sym e) ]
      h

pub review_filter-limit :
    (unicode : Bytes → Bytes) (parse : Bytes → Result Time) (input : ReviewInput) {f : Filter}
    → review_filter unicode parse input ≡ good f
    → f.limit ≡ input.limit
unfolding review_filter
review_filter-limit unicode parse input h =
    let (since, h) = bind-good (read_time parse (codes "since") input.since) _ h in
    let (before, h) = bind-good (read_time parse (codes "before") input.before) _ h in
    ap (λ t. t.limit) (check_cursor-good _ h)
