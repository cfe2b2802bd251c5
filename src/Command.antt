-- ===== src/Command.antt =====
-- cmd/field-docket/main.go: what the command decides before it serves.
pub mod Exempt
pub mod Target
pub mod Arguments
pub mod Main
use field_docket.Base.{
  Bool, true, false, List, [], ◌∷◌, ◌++◌, Bytes, codes, Option, none, some, if◌then◌else◌,
}
use field_docket.Base.Compare.{same}
use field_docket.Go.Errors.{Error, text, Result, ok, err, ◌>>=◌, context}
use field_docket.Go.Text.{is_empty}
use field_docket.Go.Path.{abs}
use field_docket.Go.Host.{Host}
use field_docket.Go.Flag.{parse_flags}
use field_docket.Config.{File, Config, load}
use field_docket.Store.Location.{default_store_path}
use field_docket.Store.Permissions.{PermissionIssue, Files, check_permissions, unsafe_store_error}

-- `storeTarget`
pub record StoreTarget : Type 0 where
  pub path : Bytes
  pub unusable : Option Error

-- The loop of `allowlisted`.
unfoldable pub any_names : Result Bytes → Bytes → List Bytes → Result Bool
any_names cwd want [] = ok false
any_names cwd want (entry ∷ entries) =
    let rest = any_names cwd want entries in
    do
      got ← context (codes "resolving allow_unsafe_permissions entry " ++ entry) (abs cwd entry)
      if same got want then ok true else rest

-- `allowlisted`; `cwd` is the working directory.
unfoldable pub allowlisted : Result Bytes → Bytes → List Bytes → Result Bool
unfolding any_names
allowlisted cwd path [] = ok false
allowlisted cwd path (entry ∷ entries) = do
  want ← context (codes "resolving store path " ++ path) (abs cwd path)
  any_names cwd want (entry ∷ entries)

-- The store's path: the configured one, or the default.
unfoldable pub store_path : Host → Config → Result Bytes
unfolding default_store_path
store_path H cfg = if is_empty cfg.store then default_store_path H else ok cfg.store

abbrev pub usable : Bytes → StoreTarget
usable path = record { path = path; unusable = none }

abbrev pub unusable_for : Bytes → List PermissionIssue → StoreTarget
unusable_for path issues = record { path = path; unusable = some (unsafe_store_error issues) }

-- The decision that the issues of the check lead to.
unfoldable pub judge : Host → Config → Bytes → List PermissionIssue → Result StoreTarget
unfolding allowlisted
judge H cfg path [] = ok (usable path)
judge H cfg path (issue ∷ issues) = do
  exempt ← allowlisted H.cwd path cfg.allow_unsafe_permissions
  ok (if exempt then usable path else unusable_for path (issue ∷ issues))

-- `resolveStore`
unfoldable pub resolve_store : Host → Files → (Bytes → Result File) → Bytes → Result StoreTarget
unfolding load store_path judge
resolve_store H F unmarshal override = do
  cfg ← load H unmarshal override
  path ← store_path H cfg
  issues ← check_permissions F path
  judge H cfg path issues

abbrev pub config_flag : Bytes
config_flag = codes "config"

-- What `parseConfigFlag` makes of the arguments that are left. `quote` is `%q`, which leaves
-- printable characters by Go's Unicode tables.
unfoldable pub no_leftover : (Bytes → Bytes) → Bytes × List Bytes → Result Bytes
no_leftover quote (path, []) = ok path
no_leftover quote (path, arg ∷ args) = err (
    text
      (codes "unexpected argument " ++ (quote arg ++ codes " (the only subcommand is snapshot)")))

-- `parseConfigFlag`
unfoldable pub parse_config_flag : (Bytes → Bytes) → List Bytes → Result Bytes
unfolding no_leftover
parse_config_flag quote args = parse_flags config_flag [] false args >>= no_leftover quote
