-- ===== src/Config.antt =====
-- internal/config/config.go: where the configuration is, and what it says.
pub mod Entries
pub mod Expansion
pub mod Defaults
use field_docket.Base.{
  Bool, true, false, not, ◌&&◌, List, [], ◌∷◌, ◌++◌, Bytes, codes, drop, if◌then◌else◌,
}
use field_docket.Base.Compare.{same}
use field_docket.Go.Errors.{Error, wrap, is_not_exist, Result, ok, err, ◌>>=◌, context}
use field_docket.Go.Text.{trim_space, has_prefix, is_empty}
use field_docket.Go.Path.{join_path}
use field_docket.Go.Host.{Host}

-- `Config`
pub record Config : Type 0 where
  pub store : Bytes
  pub allow_unsafe_permissions : List Bytes

-- `file`, which `yaml.Unmarshal` fills in.
pub record File : Type 0 where
  pub store : Bytes
  pub allow_unsafe_permissions : List Bytes

abbrev pub tilde : Bytes
tilde = codes "~"

abbrev pub tilde_slash : Bytes
tilde_slash = codes "~/"

-- `path != "~" && !strings.HasPrefix(path, "~/")`
unfoldable pub is_plain : Bytes → Bool
is_plain path = not (same path tilde) && not (has_prefix path tilde_slash)

abbrev pub below_home : Bytes → Bytes → Bytes
below_home path home = if same path tilde then home else join_path (home ∷ drop 2 path ∷ [])

-- `expandTilde`
unfoldable pub expand_tilde : Host → Bytes → Bytes → Result Bytes
unfolding is_plain
expand_tilde H path field =
    if is_plain path
    then ok path
    else do home ← context (codes "expanding ~ in " ++ field) H.home; ok (below_home path home)

abbrev pub config_variable : Bytes
config_variable = codes "FIELD_DOCKET_CONFIG"

abbrev pub xdg_variable : Bytes
xdg_variable = codes "XDG_CONFIG_HOME"

unfoldable pub name_path : Bool → Result Bytes → Result (Bytes × Bool)
name_path named r = do path ← r; ok (path, named)

-- The directory of the default: `$XDG_CONFIG_HOME`, or `~/.config` where that is empty.
unfoldable pub config_base : Host → Result Bytes
config_base H =
    if is_empty (H.getenv xdg_variable)
    then (do
      home ← context (codes "resolving config dir") H.home
      ok (join_path (home ∷ codes ".config" ∷ [])))
    else ok (H.getenv xdg_variable)

-- `filepath.Join(base, "field-docket", "config.yml")`, which nobody named.
unfoldable pub default_path : Result Bytes → Result (Bytes × Bool)
default_path r = do
  base ← r
  ok (join_path (base ∷ codes "field-docket" ∷ codes "config.yml" ∷ []), false)

-- `configPath`: the path, and whether the operator named it.
unfoldable pub config_path : Host → Bytes → Result (Bytes × Bool)
unfolding expand_tilde config_base name_path default_path
config_path H override =
    if not (is_empty (trim_space override))
    then name_path true (expand_tilde H (trim_space override) (codes "--config path"))
    else if not (is_empty (trim_space (H.getenv config_variable)))
    then name_path true
        (expand_tilde H (trim_space (H.getenv config_variable)) (codes "FIELD_DOCKET_CONFIG path"))
    else default_path (config_base H)

-- The store's path, empty where the file does not give one.
unfoldable pub load_store : Host → Bytes → Result Bytes
unfolding expand_tilde
load_store H raw =
    if is_empty (trim_space raw)
    then ok []
    else expand_tilde H (trim_space raw) (codes "store path")

-- The loop over the entries.
unfoldable pub load_entries : Host → List Bytes → Result (List Bytes)
unfolding expand_tilde
load_entries H [] = ok []
load_entries H (entry ∷ entries) =
    let rest = load_entries H entries in
    if is_empty (trim_space entry) then rest else do
      expanded ← expand_tilde H (trim_space entry) (codes "allow_unsafe_permissions entry")
      allowed ← rest
      ok (expanded ∷ allowed)

-- The configuration that a file gives.
unfoldable pub from_file : Host → File → Result Config
unfolding load_store load_entries
from_file H f = do
  store ← load_store H f.store
  allowed ← load_entries H f.allow_unsafe_permissions
  ok (record { store = store; allow_unsafe_permissions = allowed })

-- `&Config{}`
abbrev pub defaults : Config
defaults = record { store = []; allow_unsafe_permissions = [] }

-- What becomes of a file that cannot be read.
unfoldable pub unread : Bytes → Bool → Error → Result Config
unread path named e =
    if is_not_exist e
    then if named
      then err (
          wrap
            (codes "config "
              ++ (path
                  ++ codes
                      " does not exist; omit --config and $FIELD_DOCKET_CONFIG to start on defaults"))
            e)
      else ok defaults
    else err (wrap (codes "reading config " ++ path) e)

-- The part of `Load` behind the path. `unmarshal` is `yaml.Unmarshal` into a `file`.
unfoldable pub load_at : Host → (Bytes → Result File) → Bytes × Bool → Result Config
unfolding from_file unread
load_at H unmarshal (path, named) = elim (H.read_file path) [
  | err e ↦ unread path named e
  | ok text ↦ do f ← context (codes "parsing config " ++ path) (unmarshal text); from_file H f
]

-- `Load`
unfoldable pub load : Host → (Bytes → Result File) → Bytes → Result Config
unfolding config_path load_at
load H unmarshal override = config_path H override >>= load_at H unmarshal
