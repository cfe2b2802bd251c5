-- ===== src/Server/Docket.antt =====
-- internal/server: calls of both tools on one store, and what such calls should do to a docket that
-- is no more than a list of observations.
pub mod Explained
use field_docket.Base.{◌≡◌, true, false, List, [], ◌∷◌, ◌++◌, Bytes, Option}
use field_docket.Go.Errors.{Result}
use field_docket.Go.Time.{Time}
use field_docket.Store.Types.{Record, Filter}
use field_docket.Store.Clock.{format_time}
use field_docket.Store.Sqlite.{Sqlite}
use field_docket.Server.Types.{Outcome, refused, failed, answered, panicked, Deps, CallToolRequest}
use field_docket.Server.Record.{RecordInput, RecordOutput, record_observation}
use field_docket.Server.Record.Refusals.{malformed, normalized}
use field_docket.Server.Review.{
  ReviewInput, ReviewOutput, good, bad, review_filter, review_observations,
}
use field_docket.Server.Review.Pages.{expected}

-- A call of a tool; a record with the time and the random bytes that an append would use.
pub data Call : Type 0 where
  recording : Time → Result Bytes → Option CallToolRequest → RecordInput → Call
  reviewing : ReviewInput → Call

pub data Reply : Type 0 where
  recorded : Outcome RecordOutput → Reply
  reviewed : Outcome ReviewOutput → Reply

module _ (D : Sqlite) (unicode : Bytes → Bytes) (parse : Bytes → Result Time) where
  unfoldable pub serve_call : Call → Deps D → Deps D × Reply
  serve_call (recording at random req input) d =
      let (d', outcome) = record_observation D unicode at random d req input in
      (d', recorded outcome)
  serve_call (reviewing input) d = (d, reviewed (review_observations D unicode parse d input))

  -- One call after the other, as SQLite orders those of all the processes that share the docket.
  unfoldable pub serve_calls : List Call → Deps D → Deps D × List Reply
  unfolding serve_call
  serve_calls [] d = (d, [])
  serve_calls (c ∷ calls) d =
      let (d', reply) = serve_call c d in
      let (d'', replies) = serve_calls calls d' in (d'', reply ∷ replies)

module _ (unicode : Bytes → Bytes) (parse : Bytes → Result Time) where
  -- A record of well-formed input adds the row that it names, or fails and adds none; one of
  -- malformed input is refused.
  abbrev pub Files :
      Time
      → Option CallToolRequest
      → RecordInput
      → Outcome RecordOutput
      → List Record
      → List Record
      → Type 0
  Files at req input (answered out) rows rows' =
      (r : Record) × (rows' ≡ rows ++ r ∷ [])
      × (malformed unicode input ≡ false)
      × (r.observation ≡ normalized unicode req input)
      × (r.id ≡ out.id)
      × (r.recorded_at ≡ out.recorded_at)
      × (out.recorded_at ≡ format_time at)
  Files at req input (refused m) rows rows' = (rows' ≡ rows) × (malformed unicode input ≡ true)
  Files at req input (failed e) rows rows' = (rows' ≡ rows) × (malformed unicode input ≡ false)
  Files at req input panicked rows rows' = ⊥

  -- A review shows what its filter makes of the rows, or fails; one that cannot be read is refused.
  abbrev pub Shows : ReviewInput → Outcome ReviewOutput → List Record → Type 0
  Shows input (answered out) rows =
      (f : Filter) × (review_filter unicode parse input ≡ good f) × (out ≡ expected f rows)
  Shows input (refused m) rows = review_filter unicode parse input ≡ bad m
  Shows input (failed e) rows = (f : Filter) × (review_filter unicode parse input ≡ good f)
  Shows input panicked rows = ⊥

  abbrev pub Does : Call → Reply → List Record → List Record → Type 0
  Does (recording at random req input) (recorded o) rows rows' = Files at req input o rows rows'
  Does (recording at random req input) (reviewed o) rows rows' = ⊥
  Does (reviewing input) (recorded o) rows rows' = ⊥
  Does (reviewing input) (reviewed o) rows rows' = (rows' ≡ rows) × Shows input o rows

  -- The replies are those of a list of observations to which the calls happen one after the other.
  pub data Explains : List Call → List Reply → List Record → List Record → Type 0 where
    finished : {rows : List Record} → Explains [] [] rows rows
    then :
        {c : Call} {calls : List Call} {reply : Reply} {replies : List Reply}
        {rows rows1 rows2 : List Record}
        → Does c reply rows rows1
        → Explains calls replies rows1 rows2
        → Explains (c ∷ calls) (reply ∷ replies) rows rows2
