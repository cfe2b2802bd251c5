-- ===== src/Server/Registration.antt =====
-- internal/server/server.go: `New`, which registers the tools with the MCP library.
pub mod Descriptions
pub mod Named
pub mod Limits
pub mod Scopes
use field_docket.Base.{Bool, true, false, List, [], ◌∷◌, Option, none, some, Bytes, codes}
use field_docket.Go.Errors.{Error, Result}
use field_docket.Go.Time.{Time}
use field_docket.Store.Sqlite.{Sqlite}
use field_docket.Server.Types.{Outcome, Deps, CallToolRequest}
use field_docket.Server.Record.{RecordInput, RecordOutput, record_observation}
use field_docket.Server.Review.{ReviewInput, ReviewOutput, review_observations}
use field_docket.Server.Middleware.{Request, tolerate_null_arguments}
use field_docket.Server.Schema.{Schema, record_schema, review_schema, ◌>>=◌}
use field_docket.Server.Registration.Descriptions.{record_description, review_description}

-- `mcp.Implementation`
pub record Implementation : Type 0 where
  pub name : Bytes
  pub title : Bytes
  pub version : Bytes

-- `mcp.ToolAnnotations`
pub record ToolAnnotations : Type 0 where
  pub read_only_hint : Bool
  pub open_world_hint : Option Bool

-- `mcp.Tool`
pub record Tool : Type 0 where
  pub name : Bytes
  pub description : Bytes
  pub input_schema : Schema
  pub annotations : Option ToolAnnotations

-- A method value of `deps`, which shares the one `deps` with the others.
pub data Handler (D : Sqlite) : Type 0 where
  records :
      (Time
        → Result Bytes
        → Deps D
        → Option CallToolRequest
        → RecordInput
        → Deps D × Outcome RecordOutput)
      → Handler D
  reviews : (Deps D → ReviewInput → Outcome ReviewOutput) → Handler D

abbrev pub Middleware : Type 0 → Type 0 → Type 0
Middleware R A = (Bytes → Request R → A) → Bytes → Request R → A

-- What `New` has passed to the MCP library for one server, each list in the order of the calls.
pub record Server (D : Sqlite) (R A : Type 0) : Type 0 where
  pub deps : Deps D
  pub implementation : Implementation
  pub middleware : List (Middleware R A)
  pub tools : List (Tool × Handler D)

abbrev pub server_name : Bytes
server_name = codes "field-docket"

abbrev pub server_title : Bytes
server_title = codes "Field Docket"

-- `serverVersion`, where the build injects no other.
abbrev pub server_version : Bytes
server_version = codes "dev"

abbrev pub record_tool : Schema → Tool
record_tool schema = record {
  name = codes "record_observation";
  description = record_description;
  input_schema = schema;
  annotations = none;
}

abbrev pub review_tool : Schema → Tool
review_tool schema = record {
  name = codes "review_observations";
  description = review_description;
  input_schema = schema;
  annotations = some (record { read_only_hint = true; open_world_hint = some false });
}

-- `New`, for the injected version and the schemas that `jsonschema.For` infers from the two
-- input types; none is a panic.
unfoldable pub new_server :
    (D : Sqlite) {R A : Type 0}
    → (Bytes → Bytes)
    → (Bytes → Result Time)
    → Bytes
    → Result Schema
    → Result Schema
    → Option D.State
    → Option Error
    → Option (Server D R A)
new_server D unicode parse version for_record for_review st unavailable = do
  recorded ← record_schema for_record
  reviewed ← review_schema for_review
  some (record {
    deps = record { store = st; unavailable = unavailable };
    implementation = record { name = server_name; title = server_title; version = version };
    middleware = tolerate_null_arguments ∷ [];
    tools =
        (record_tool recorded, records (record_observation D unicode))
        ∷ (review_tool reviewed, reviews (review_observations D unicode parse))
        ∷ [];
  })
