-- ===== src/Store/Types.antt =====
-- internal/store/store.go: the records of the package.
use field_docket.Base.{ℤ, pos, ℕ, Bytes, []}
use field_docket.Go.Time.{Time, zero_time}

pub record Observation : Type 0 where
  pub class : Bytes
  pub text : Bytes
  pub scope_kind : Bytes
  pub scope_ref : Bytes
  pub subject : Bytes
  pub agent : Bytes

-- `Record` embeds the observation.
pub record Record : Type 0 where
  pub id : Bytes
  pub recorded_at : Bytes
  pub observation : Observation
  pub open observation use *

pub record Filter : Type 0 where
  pub class : Bytes
  pub scope_kind : Bytes
  pub scope_ref : Bytes
  pub since : Time
  pub before : Time
  pub before_id : Bytes
  pub limit : ℤ

pub record ClassCount : Type 0 where
  pub class : Bytes
  pub count : ℕ

abbrev pub empty_filter : Filter
empty_filter = record {
  class = [];
  scope_kind = [];
  scope_ref = [];
  since = zero_time;
  before = zero_time;
  before_id = [];
  limit = pos 0;
}
