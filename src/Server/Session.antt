-- ===== src/Server/Session.antt =====
-- internal/server: a sequence of calls on one served docket.
pub mod Growth
pub mod Stable
use field_docket.Base.{◌≡◌, Bytes, Option}
use field_docket.Go.Errors.{Result}
use field_docket.Go.Time.{Time}
use field_docket.Store.Sqlite.{Sqlite}
use field_docket.Server.Types.{Outcome, CallToolRequest}
use field_docket.Server.Record.{RecordInput, RecordOutput, record_observation}
use field_docket.Server.Record.Refusals.{serving}

-- The calls of `record_observation` that lead from one state of the docket to another, whatever
-- their outcomes, at times and with random bytes that `When` admits. The calls may be those of any
-- processes that share the docket: SQLite lets one at a time write. A review is not among them,
-- since it changes nothing.
pub data Session (D : Sqlite) (unicode : Bytes → Bytes) (When : Time → Result Bytes → Type 0)
    : D.State → D.State → Type 0 where
  idle : {s : D.State} → Session D unicode When s s
  then :
      {s s1 s2 : D.State} (at : Time) (random : Result Bytes) (req : Option CallToolRequest)
      (input : RecordInput) (outcome : Outcome RecordOutput)
      → When at random
      → record_observation D unicode at random (serving D s) req input ≡ (serving D s1, outcome)
      → Session D unicode When s1 s2
      → Session D unicode When s s2
