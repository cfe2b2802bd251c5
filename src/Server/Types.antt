-- ===== src/Server/Types.antt =====
-- internal/server: what the handlers share (`deps`, `toolError`, `clientName`).
use field_docket.Base.{Option, none, some, Bytes, []}
use field_docket.Go.Errors.{Error}
use field_docket.Store.Sqlite.{Sqlite}

-- What a handler returns: a tool error with its text (`toolError`), a Go error, an output, or no
-- return at all because a nil store was used.
pub data Outcome (A : Type 0) : Type 0 where
  refused : Bytes → Outcome A
  failed : Error → Outcome A
  answered : A → Outcome A
  panicked : Outcome A

-- `deps`
pub record Deps (D : Sqlite) : Type 0 where
  pub store : Option D.State
  pub unavailable : Option Error

-- `*mcp.CallToolRequest`, as far as `clientName` follows it; a pointer may be nil.
pub record InitializeParams : Type 0 where
  pub client_info : Option Bytes

pub record Session : Type 0 where
  pub initialize_params : Option InitializeParams

pub record CallToolRequest : Type 0 where
  pub session : Option Session

abbrev of_params : Option InitializeParams → Bytes
of_params none = []
of_params (some p) = elim (p.client_info) [ none ↦ [] | some name ↦ name ]

abbrev of_session : Option Session → Bytes
of_session none = []
of_session (some s) = of_params s.initialize_params

-- `clientName`
unfoldable pub client_name : Option CallToolRequest → Bytes
client_name none = []
client_name (some req) = of_session req.session
