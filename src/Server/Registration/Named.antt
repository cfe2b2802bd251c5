-- ===== src/Server/Registration/Named.antt =====
-- The tools of a server by their names.
use field_docket.Base.{List, [], ◌∷◌, Option, none, some, Bytes, if◌then◌else◌}
use field_docket.Base.Compare.{same}
use field_docket.Store.Sqlite.{Sqlite}
use field_docket.Server.Registration.{Tool, Handler}

-- The tool that was registered under a name, with its handler.
abbrev pub tool_named : {D : Sqlite} → Bytes → List (Tool × Handler D) → Option (Tool × Handler D)
tool_named name [] = none
tool_named name ((t, h) ∷ rest) = if same t.name name then some (t, h) else tool_named name rest
