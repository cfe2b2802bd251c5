-- ===== src/Server/Review.antt =====
-- internal/server/review.go: the tool `review_observations`.
pub mod Limit
pub mod Pages
pub mod Consistent
pub mod Walk
use field_docket.Base.{
  ℤ, ℕ, Bool, true, false, not, ◌&&◌, List, [], ◌∷◌, ◌++◌, map, Option, none, some, Bytes, codes,
  length, ltb, if◌then◌else◌,
}
use field_docket.Go.Errors.{Error, message, Result, ok, err}
use field_docket.Go.Text.{trim_space, to_lower, is_empty}
use field_docket.Go.Time.{Time, utc, is_zero, zero_time}
use field_docket.Store.Types.{Record, Filter, ClassCount}
use field_docket.Store.Sqlite.{Sqlite}
use field_docket.Store.Listing.{Page, list}
use field_docket.Server.Types.{Outcome, refused, failed, answered, panicked, Deps}
use field_docket.Server.Clip.{clip}
use field_docket.Server.Record.{grouping_key}

-- `reviewInput`
pub record ReviewInput : Type 0 where
  pub class : Bytes
  pub scope_kind : Bytes
  pub scope_ref : Bytes
  pub since : Bytes
  pub before : Bytes
  pub before_id : Bytes
  pub limit : ℤ

-- `observationView`
pub record ObservationView : Type 0 where
  pub id : Bytes
  pub recorded_at : Bytes
  pub class : Bytes
  pub observation : Bytes
  pub scope_kind : Bytes
  pub scope_ref : Bytes
  pub subject : Bytes
  pub agent : Bytes
  pub observation_truncated : Bool

-- `reviewOutput`; `classCount` has the fields of the store's `ClassCount`.
pub record ReviewOutput : Type 0 where
  pub observations : List ObservationView
  pub class_counts : List ClassCount
  pub total : ℕ
  pub truncated : Bool

abbrev pub observation_text_cap : ℕ
observation_text_cap = 1000

abbrev pub unpaired_before_id : Bytes
unpaired_before_id = codes "before_id must be passed together with before"

-- A step of the handler that may end it by a tool error.
pub data Checked (A : Type 0) : Type 0 where
  good : A → Checked A
  bad : Bytes → Checked A

infixl 5 ◌>>=◌
abbrev pub ◌>>=◌ : {A B : Type 0} → Checked A → (A → Checked B) → Checked B
good a >>= f = f a
bad m >>= f = bad m

-- An optional timestamp: the zero time where the text is blank. `parse` is
-- `time.Parse(time.RFC3339, …)`.
unfoldable pub read_time : (Bytes → Result Time) → Bytes → Bytes → Checked Time
read_time parse name raw =
    if is_empty (trim_space raw) then good zero_time else elim (parse (trim_space raw)) [
      | ok t ↦ good (utc t)
      | err e ↦ bad (name ++ (codes " must be an RFC 3339 timestamp: " ++ message e))
    ]

-- A cursor's id needs its timestamp.
unfoldable pub check_cursor : Filter → Checked Filter
check_cursor f =
    if not (is_empty f.before_id) && is_zero f.before then bad unpaired_before_id else good f

-- The filter that an input asks for.
unfoldable pub review_filter :
    (Bytes → Bytes) → (Bytes → Result Time) → ReviewInput → Checked Filter
unfolding check_cursor
review_filter unicode parse input = do
  since ← read_time parse (codes "since") input.since
  before ← read_time parse (codes "before") input.before
  check_cursor (record {
    class = grouping_key unicode input.class;
    scope_kind = trim_space input.scope_kind;
    scope_ref = grouping_key unicode input.scope_ref;
    since = since;
    before = before;
    before_id = trim_space input.before_id;
    limit = input.limit;
  })

-- One entry of the answer.
unfoldable pub view : Record → ObservationView
view r =
    let (text, clipped) = clip (r.observation).text observation_text_cap in
    record {
      id = r.id;
      recorded_at = r.recorded_at;
      class = r.class;
      observation = text;
      scope_kind = r.scope_kind;
      scope_ref = r.scope_ref;
      subject = r.subject;
      agent = r.agent;
      observation_truncated = clipped;
    }

unfoldable pub review_output : Page → ReviewOutput
review_output p =
    let views = map view p.records in
    record {
      observations = views;
      class_counts = p.classes;
      total = p.total;
      truncated = ltb (length views) p.total;
    }

module _ (D : Sqlite) where
  -- The call on `d.store`, which panics on a nil store.
  unfoldable pub list_from : Filter → Deps D → Outcome ReviewOutput
  list_from f d = elim (d.store) [
    | none ↦ panicked
    | some s ↦ elim (list D s f) [ ok p ↦ answered (review_output p) | err e ↦ failed e ]
  ]

  -- `reviewObservations`
  unfoldable pub review_observations :
      (Bytes → Bytes) → (Bytes → Result Time) → Deps D → ReviewInput → Outcome ReviewOutput
  unfolding list_from
  review_observations unicode parse d input = elim (d.unavailable) [
    | some e ↦ refused (message e)
    | none ↦ elim (review_filter unicode parse input) [ bad m ↦ refused m | good f ↦ list_from f d ]
  ]
