-- ===== src/Store/Location.antt =====
-- internal/store/path.go: `DefaultPath`.
use field_docket.Base.{[], ◌∷◌, Bytes, codes, if◌then◌else◌}
use field_docket.Go.Errors.{Result, ok, ◌>>=◌, context}
use field_docket.Go.Text.{is_empty}
use field_docket.Go.Path.{join_path}
use field_docket.Go.Host.{Host}

abbrev state_variable : Bytes
state_variable = codes "XDG_STATE_HOME"

-- `$XDG_STATE_HOME`, or `~/.local/state` where that is empty.
unfoldable pub state_base : Host → Result Bytes
state_base H =
    if is_empty (H.getenv state_variable)
    then (do
      home ← context (codes "resolving home directory for the default store path") H.home
      ok (join_path (home ∷ codes ".local" ∷ codes "state" ∷ [])))
    else ok (H.getenv state_variable)

unfoldable pub default_store_path : Host → Result Bytes
unfolding state_base
default_store_path H = do
  base ← state_base H
  ok (join_path (base ∷ codes "field-docket" ∷ codes "field-docket.db" ∷ []))
