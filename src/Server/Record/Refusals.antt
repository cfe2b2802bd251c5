-- ===== src/Server/Record/Refusals.antt =====
-- What `record_observation` refuses, and what it leaves in the table.
use field_docket.Base.{
  ◌≡◌, refl, ◌∙◌, inl, inr, Bool, true, false, ◌&&◌, ◌||◌, [], ◌∷◌, ◌++◌, arith, Option, none, some,
  Bytes, Bool-cases,
}
use field_docket.Base.Compare.{same}
use field_docket.Go.Errors.{Result, ok, err}
use field_docket.Go.Text.{trim_space, is_empty}
use field_docket.Go.Time.{Time}
use field_docket.Store.Clock.{format_time}
use field_docket.Store.Id.{new_uuid_v7}
use field_docket.Store.Types.{Observation, Record}
use field_docket.Store.Sqlite.{Sqlite, IsSqlite}
use field_docket.Store.Append.{append}
use field_docket.Store.Append.Recorded.{Recorded, append-Recorded}
use field_docket.Server.Types.{
  Outcome, refused, failed, answered, panicked, Deps, CallToolRequest, client_name,
}
use field_docket.Server.Record.{
  RecordInput, RecordOutput, scope_project, grouping_key, scope_kind_of, record_available,
  record_observation, answer_append,
}

abbrev pub is_refused : {A : Type 0} → Outcome A → Bool
is_refused (refused m) = true
is_refused (failed e) = false
is_refused (answered a) = false
is_refused panicked = false

-- Malformed input: a blank observation, a blank class, or the project scope with no reference.
unfoldable pub malformed : (Bytes → Bytes) → RecordInput → Bool
malformed unicode input =
    is_empty (trim_space input.observation)
    || is_empty (grouping_key unicode input.class)
    || same (scope_kind_of input.scope_kind) scope_project
      && is_empty (grouping_key unicode input.scope_ref)

-- The observation that well-formed input records.
unfoldable pub normalized : (Bytes → Bytes) → Option CallToolRequest → RecordInput → Observation
normalized unicode req input = record {
  class = grouping_key unicode input.class;
  text = trim_space input.observation;
  scope_kind = scope_kind_of input.scope_kind;
  scope_ref = grouping_key unicode input.scope_ref;
  subject = trim_space input.subject;
  agent = client_name req;
}

module _ (D : Sqlite) where
  abbrev pub serving : D.State → Deps D
  serving s = record { store = some s; unavailable = none }

  serving_available :
      (unicode : Bytes → Bytes) (at : Time) (random : Result Bytes) (s : D.State)
      (req : Option CallToolRequest) (input : RecordInput)
      → record_observation D unicode at random (serving s) req input
        ≡ record_available D unicode at random (serving s) req input
  unfolding record_observation
  serving_available unicode at random s req input = refl

  answer_append-not_refused :
      (d : Deps D) (r : D.State × Result Record) → is_refused (answer_append D d r).1 ≡ false
  unfolding answer_append
  answer_append-not_refused d (s, ok r) = refl
  answer_append-not_refused d (s, err e) = refl

  -- A served store is refused exactly the malformed input, whatever it holds and whatever the time
  -- and the random bytes are; and a refusal leaves everything as it was.
  pub record_refuses :
      (unicode : Bytes → Bytes) (at : Time) (random : Result Bytes) (s : D.State)
      (req : Option CallToolRequest) (input : RecordInput)
      → let (d, outcome) = record_observation D unicode at random (serving s) req input in
        (is_refused outcome ≡ malformed unicode input)
        × (malformed unicode input ≡ true → d ≡ serving s)
  unfolding record_observation malformed
  record_refuses unicode at random s req input =
      let o : Observation = record {
        class = grouping_key unicode input.class;
        text = trim_space input.observation;
        scope_kind = scope_kind_of input.scope_kind;
        scope_ref = grouping_key unicode input.scope_ref;
        subject = trim_space input.subject;
        agent = client_name req;
      } in
      (
        ground (arith, answer_append-not_refused (serving s) (append D at random o s)),
        λ h. ground arith,
      )

  -- Well-formed input goes to the store's append in its normal form.
  pub record_well_formed :
      (unicode : Bytes → Bytes) (at : Time) (random : Result Bytes) (s : D.State)
      (req : Option CallToolRequest) (input : RecordInput)
      → malformed unicode input ≡ false
      → record_observation D unicode at random (serving s) req input
        ≡ answer_append D (serving s) (append D at random (normalized unicode req input) s)
  unfolding record_observation malformed normalized
  record_well_formed unicode at random s req input h = ground arith

-- What a call leaves behind, by its outcome: an answer names the one row that was added behind the
-- others; any other outcome has added none.
abbrev pub Effect :
    (D : Sqlite)
    → Observation
    → Time
    → Result Bytes
    → D.State
    → Deps D × Outcome RecordOutput
    → Type 0
Effect D o at random s (d, answered out) =
    (s' : D.State) × (r : Record) × (d ≡ serving D s')
    × (D.table s' ≡ D.table s ++ r ∷ [])
    × (r.observation ≡ o)
    × (r.id ≡ out.id)
    × (r.recorded_at ≡ out.recorded_at)
    × (out.recorded_at ≡ format_time at)
    × (new_uuid_v7 at random ≡ ok r.id)
Effect D o at random s (d, refused m) = d ≡ serving D s
Effect D o at random s (d, failed e) =
    (s' : D.State) × (d ≡ serving D s') × (D.table s' ≡ D.table s)
Effect D o at random s (d, panicked) = ⊥

answer_append-Effect :
    (D : Sqlite) (at : Time) (random : Result Bytes) (o : Observation) (s : D.State)
    (r : D.State × Result Record)
    → Recorded D at random o s r
    → Effect D o at random s (answer_append D (serving D s) r)
unfolding answer_append
answer_append-Effect D at random o s (s', ok r) h = (s', r, refl, h.3, h.0, refl, refl, h.1, h.2)
answer_append-Effect D at random o s (s', err e) h = (s', refl, h)

refused-Effect :
    (D : Sqlite) (o : Observation) (at : Time) (random : Result Bytes) (s : D.State)
    (x : Deps D × Outcome RecordOutput)
    → is_refused x.1 ≡ true
    → x.0 ≡ serving D s
    → Effect D o at random s x
refused-Effect D o at random s (d, refused m) h e = e
refused-Effect D o at random s (d, failed m) h e = cc
refused-Effect D o at random s (d, answered m) h e = cc
refused-Effect D o at random s (d, panicked) h e = cc

-- Over a driver that behaves as documented, on a served store, every call answers, refuses or
-- fails, and never panics. An answer has added one row, the normal form of the input under the time
-- that was given and the id that was minted, behind all the rows that were there; any other outcome
-- has left the table as it was.
pub record_observation-Effect :
    (D : Sqlite)
    → IsSqlite D
    → (unicode : Bytes → Bytes) (at : Time) (random : Result Bytes) (s : D.State)
      (req : Option CallToolRequest) (input : RecordInput)
    → Effect D
        (normalized unicode req input)
        at
        random
        s
        (record_observation D unicode at random (serving D s) req input)
record_observation-Effect D L unicode at random s req input =
    let refuses = record_refuses D unicode at random s req input in
    elim (Bool-cases (malformed unicode input)) [
      | inl bad ↦
          refused-Effect D (normalized unicode req input) at random s _ (refuses.0 ∙ bad)
            (refuses.1 bad)
      | inr good ↦ rw (record_well_formed D unicode at random s req input good) (
          answer_append-Effect D at random (normalized unicode req input) s _
            (append-Recorded D L at random (normalized unicode req input) s))
    ]
