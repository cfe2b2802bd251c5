-- ===== src/Server/Middleware.antt =====
-- internal/server/server.go: `tolerateNullArguments`.
pub mod Nulls
use field_docket.Base.{Bool, true, false, Bytes, codes, Option, none, some, if◌then◌else◌}
use field_docket.Base.Compare.{same}
use field_docket.Go.Text.{trim_space}

-- `*mcp.CallToolParams`, whose arguments are raw JSON, nil where the request has none.
pub record CallToolParams : Type 0 where
  pub name : Bytes
  pub arguments : Option Bytes

-- `mcp.Request`: a tool call, whose params may be nil, or another request.
pub data Request (R : Type 0) : Type 0 where
  call_tool : Option CallToolParams → Request R
  another : R → Request R

abbrev pub json_null : Bytes
json_null = codes "null"

unfoldable pub without_null : Option Bytes → Option Bytes
without_null none = none
without_null (some raw) = if same (trim_space raw) json_null then none else some raw

-- The request as it is handed on.
unfoldable pub tolerant : {R : Type 0} → Request R → Request R
unfolding without_null
tolerant (call_tool none) = call_tool none
tolerant (call_tool (some p)) = call_tool (some (record p { arguments = without_null p.arguments }))
tolerant (another r) = another r

-- `tolerateNullArguments`
unfoldable pub tolerate_null_arguments :
    {R A : Type 0} → (Bytes → Request R → A) → Bytes → Request R → A
unfolding tolerant
tolerate_null_arguments next method req = next method (tolerant req)
