-- ===== src/Server/Record.antt =====
-- internal/server/record.go: the tool `record_observation`.
pub mod Refusals
use field_docket.Base.{
  Bool, true, false, ◌&&◌, List, [], ◌∷◌, Option, none, some, Bytes, codes, if◌then◌else◌,
}
use field_docket.Base.Compare.{same, compare_bytes}
use field_docket.Go.Errors.{Error, message, Result, ok, err}
use field_docket.Go.Text.{trim_space, to_lower, is_empty}
use field_docket.Go.Time.{Time}
use field_docket.Store.Types.{Observation, Record}
use field_docket.Store.Sqlite.{Sqlite}
use field_docket.Store.Append.{append}
use field_docket.Server.Types.{
  Outcome, refused, failed, answered, panicked, Deps, CallToolRequest, client_name,
}

-- `recordInput`
pub record RecordInput : Type 0 where
  pub observation : Bytes
  pub class : Bytes
  pub scope_kind : Bytes
  pub scope_ref : Bytes
  pub subject : Bytes

-- `recordOutput`
pub record RecordOutput : Type 0 where
  pub id : Bytes
  pub recorded_at : Bytes

abbrev pub scope_project : Bytes
scope_project = codes "project"

abbrev pub scope_user : Bytes
scope_user = codes "user"

abbrev pub blank_observation : Bytes
blank_observation = codes "observation is required and cannot be blank"

abbrev pub blank_class : Bytes
blank_class = codes "class is required and cannot be blank"

abbrev pub missing_scope_ref : Bytes
missing_scope_ref =
    codes
      "scope_ref is required when scope_kind is project; pass the project as owner/repo, or set scope_kind to user"

-- The case and the surrounding space of a grouping key are noise.
unfoldable pub grouping_key : (Bytes → Bytes) → Bytes → Bytes
grouping_key unicode s = to_lower unicode (trim_space s)

-- `scopeKind`, with its defensive default.
unfoldable pub scope_kind_of : Bytes → Bytes
scope_kind_of s = if is_empty (trim_space s) then scope_project else trim_space s

module _ (D : Sqlite) where
  -- What `Append` returns, as the handler passes it on.
  unfoldable pub answer_append : Deps D → D.State × Result Record → Deps D × Outcome RecordOutput
  answer_append d (s, ok r) =
      (record d { store = some s }, answered (record { id = r.id; recorded_at = r.recorded_at }))
  answer_append d (s, err e) = (record d { store = some s }, failed e)

  -- The call on `d.store`, which panics on a nil store.
  unfoldable pub append_to :
      Time → Result Bytes → Observation → Deps D → Deps D × Outcome RecordOutput
  unfolding answer_append
  append_to at random o d = elim (d.store) [
    | none ↦ (d, panicked)
    | some s ↦ answer_append d (append D at random o s)
  ]

  -- The handler behind the check of `d.unavailable`.
  unfoldable pub record_available :
      (Bytes → Bytes)
      → Time
      → Result Bytes
      → Deps D
      → Option CallToolRequest
      → RecordInput
      → Deps D × Outcome RecordOutput
  unfolding append_to
  record_available unicode at random d req input =
      let observation = trim_space input.observation in
      let class = grouping_key unicode input.class in
      let scope_kind = scope_kind_of input.scope_kind in
      let scope_ref = grouping_key unicode input.scope_ref in
      if is_empty observation
      then (d, refused blank_observation)
      else if is_empty class
      then (d, refused blank_class)
      else if same scope_kind scope_project && is_empty scope_ref
      then (d, refused missing_scope_ref)
      else append_to at random
          (record {
            class = class;
            text = observation;
            scope_kind = scope_kind;
            scope_ref = scope_ref;
            subject = trim_space input.subject;
            agent = client_name req;
          })
          d

  -- `recordObservation`, with the clock's time and the random bytes that an append would use.
  unfoldable pub record_observation :
      (Bytes → Bytes)
      → Time
      → Result Bytes
      → Deps D
      → Option CallToolRequest
      → RecordInput
      → Deps D × Outcome RecordOutput
  unfolding record_available
  record_observation unicode at random d req input = elim (d.unavailable) [
    | some e ↦ (d, refused (message e))
    | none ↦ record_available unicode at random d req input
  ]
