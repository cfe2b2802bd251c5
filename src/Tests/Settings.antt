-- ===== src/Tests/Settings.antt =====
-- The settings of a machine with one configuration file, and of one without.
use field_docket.Base.{◌≡◌, refl, true, false, List, [], ◌∷◌, ◌++◌, Bytes, codes, if◌then◌else◌}
use field_docket.Base.Compare.{same, compare_bytes}
use field_docket.Go.Errors.{not_exist, is_not_exist, Result, ok, err}
use field_docket.Go.Text.{trim_space, is_empty, has_prefix, join_with}
use field_docket.Go.Path.{
  is_rooted, clean, join_path, split_path, parts_of, push_all, push, render, abs,
}
use field_docket.Go.Flag.{read_flag}
use field_docket.Go.Host.{Host}
use field_docket.Config.{
  File, Config, load, load_at, config_path, config_base, name_path, default_path, expand_tilde,
  is_plain, load_store, load_entries, from_file,
}
use field_docket.Config.Entries.{IsLoaded, load-IsLoaded}
use field_docket.Config.Expansion.{Places, Follows, from_file-Follows}
use field_docket.Store.Permissions.{Files, check_permissions}
use field_docket.Command.{
  parse_config_flag, store_path, usable, resolve_store, judge, allowlisted, any_names,
}
use field_docket.Command.Target.{Decided, resolve_store-Decided}
use field_docket.Command.Arguments.{
  Setting, spell, last_value, command_line, is_failure, parse_config_flag-spell,
}

abbrev default_file : Bytes
default_file = codes "/h/.config/field-docket/config.yml"

abbrev pub with_file : Host
with_file = record {
  getenv = λ name. [];
  home = ok (codes "/h");
  cwd = ok (codes "/w");
  read_file = λ p. if same p default_file then ok (codes "x") else err (not_exist []);
}

abbrev pub unmarshal : Bytes → Result File
unmarshal s =
    ok (record { store = codes " ~/d "; allow_unsafe_permissions = codes "/h/./d" ∷ [] ∷ [] })

abbrev pub configured : Config
configured = record { store = codes "/h/d"; allow_unsafe_permissions = codes "/h/./d" ∷ [] }

pub loaded : load with_file unmarshal [] ≡ ok configured
unfolding load load_at config_path config_base name_path default_path expand_tilde is_plain
    load_store load_entries from_file trim_space is_empty has_prefix join_path clean join_with
    compare_bytes parts_of render is_rooted push_all split_path push
loaded = refl

load-IsLoaded_example : IsLoaded configured
unfolding is_rooted
load-IsLoaded_example = load-IsLoaded with_file unmarshal [] refl refl loaded

-- The file says where the store is, and has a blank entry.
abbrev written : File
written = record {
  store = codes " ~/d ";
  allow_unsafe_permissions = codes "/h/./d" ∷ codes " " ∷ codes "~" ∷ [];
}

from_file-Follows_example :
    (c : Config) × (from_file with_file written ≡ ok c)
    × Places (codes "/h") written.store c.store
    × Follows (codes "/h") written.allow_unsafe_permissions c.allow_unsafe_permissions
from_file-Follows_example = from_file-Follows with_file refl written

abbrev without_file : Host
without_file = record with_file { read_file = λ p. err (not_exist []) }

located : config_path without_file [] ≡ ok (default_file, false)
unfolding config_path config_base default_path trim_space is_empty join_path clean join_with
    parts_of render is_rooted push_all split_path push compare_bytes
located = refl

absent : is_not_exist (not_exist []) ≡ true
unfolding is_not_exist
absent = refl

abbrev settings : List Setting
settings =
    record { two_dashes = true; joined = true; value = codes "/a" }
    ∷ record { two_dashes = false; joined = false; value = codes "-b" }
    ∷ []

parse_config_flag-spell_example :
    (parse_config_flag (λ s. s) (command_line settings true) ≡ ok (last_value [] settings))
    × (is_failure (parse_config_flag (λ s. s) (spell settings ++ codes "snapshto" ∷ [])) ≡ true)
unfolding read_flag
parse_config_flag-spell_example =
    parse_config_flag-spell (λ s. s) settings true (codes "snapshto") [] refl

-- Every file of the store can be read by all.
abbrev pub readable : Files
readable = record {
  is_windows = false;
  lstat = λ p. ok (record { is_symlink = false; perm = 0o644 });
  stat = λ p. err (not_exist []);
}

placed : store_path with_file configured ≡ ok (codes "/h/d")
unfolding store_path is_empty
placed = refl

resolved : resolve_store with_file readable unmarshal [] ≡ ok (usable (codes "/h/d"))
unfolding resolve_store load load_at config_path config_base name_path default_path expand_tilde
    is_plain load_store load_entries from_file trim_space is_empty has_prefix join_path clean
    join_with compare_bytes parts_of render is_rooted push_all split_path push store_path
    check_permissions judge allowlisted any_names abs
resolved = refl

resolve_store-Decided_example :
    Decided readable (codes "/w") configured (codes "/h/d") (usable (codes "/h/d"))
resolve_store-Decided_example =
    resolve_store-Decided with_file readable unmarshal [] refl loaded placed resolved
