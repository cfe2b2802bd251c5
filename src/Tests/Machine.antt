-- ===== src/Tests/Machine.antt =====
-- A machine on which the command runs: a docket, a directory `/t` with one place for a staged file,
-- and handles that are numbered in the order of their opening.
pub mod Laws
use field_docket.Base.{
  ℕ, ◌≡◌, ◌≢◌, refl, sym, ap, ◌∙◌, arith, Bool, true, false, List, [], ◌∷◌, ◌++◌, Bytes, codes,
  length, Option, none, some, if◌then◌else◌,
}
use field_docket.Base.Compare.{same, same_iff, compare_bytes}
use field_docket.Go.Errors.{Error, exist, foreign, eof, Result, ok, err, ok-injective}
use field_docket.Go.Path.{
  dir, clean, join_path, parts_of, render, is_rooted, push_all, split_path, push, up_to_slash,
}
use field_docket.Go.Text.{is_empty, join_with}
use field_docket.Store.Open.{Platform}
use field_docket.Store.Open.Accounts.{Accounts, IsAccounted}
use field_docket.Store.Snapshot.{staged}
use field_docket.Store.Snapshot.Views.{FileState, View, IsDisk}
use field_docket.Command.Main.{Machine, disk}
use field_docket.Command.Main.Balanced.{IsQuiet}

pub record World : Type 0 where
  pub docket : Bytes
  pub entries : Bytes → FileState
  pub stage : FileState
  pub opened : List ℕ
  pub closed : List ℕ
  pub said : List Bytes

-- A place of a file: the staged one, or a directory entry.
pub data Place : Type 0 where
  tmp : Place
  entry : Bytes → Place

abbrev pub stage_name : Bytes
stage_name = codes "/t/.s"

abbrev pub tmp_name : Bytes
tmp_name = codes "/t/.s/snapshot.db"

abbrev pub place_by : Bool → Bytes → Place
place_by true p = tmp
place_by false p = entry p

abbrev pub place : Bytes → Place
place p = place_by (same p tmp_name) p

abbrev pub file : World → Place → FileState
file w tmp = w.stage
file w (entry n) = w.entries n

abbrev pub is_below : Bytes → Place → Bool
is_below p tmp = same p stage_name
is_below p (entry n) = false

abbrev pub refuse : {A : Type 0} → A → A × Option Error
refuse w = (w, some (foreign []))

unfoldable pub make_at : Bool → FileState → Result Bytes
make_at true none = ok stage_name
make_at _ _ = err (exist [])

unfoldable pub exec_at : Option ℕ → Place → World → World × Option Error
exec_at (some h) tmp w = (record w { stage = some (0o644, w.docket) }, none)
exec_at _ _ w = refuse w

unfoldable pub chmod_at : Place → FileState → ℕ → World → World × Option Error
chmod_at tmp (some (m', content)) m w = (record w { stage = some (m, content) }, none)
chmod_at _ _ m w = refuse w

unfoldable pub rename_at : Place → Place → World → World × Option Error
rename_at tmp (entry n) w =
    (record w { entries = λ p. if same p n then w.stage else w.entries p; stage = none }, none)
rename_at _ _ w = refuse w

unfoldable pub remove_at : Bool → World → World × Option Error
remove_at true w = (record w { stage = none }, none)
remove_at false w = refuse w

abbrev pub store_platform : Platform
store_platform = record {
  pool = record {
    World = World;
    Handle = ℕ;
    close = λ h w. (record w { closed = w.closed ++ h ∷ [] }, none);
  };
  NewFile = Bytes;
  make_dirs = λ p m w. (w, none);
  create_new = λ p m w. (w, err (exist []));
  close_file = λ f w. (w, none);
  open_db = λ d w. (record w { opened = w.opened ++ length w.opened ∷ [] }, ok (length w.opened));
  set_max_open = λ h n w. w;
  ping = λ h w. (w, none);
  migrate = λ h w. (w, none);
  wait = λ w d. (w, none);
}

-- The client closes the server's input.
abbrev pub machine : Machine
machine = record {
  platform = store_platform;
  make_temp_dir = λ d pattern w. (w, make_at (same d (codes "/t")) w.stage);
  exec = λ h q p w. exec_at h (place p) w;
  chmod = λ p m w. chmod_at (place p) (file w (place p)) m w;
  rename = λ p d w. rename_at (place p) (place d) w;
  remove_all = λ p w. remove_at (same p stage_name) w;
  log = λ m w. record w { said = w.said ++ m ∷ [] };
  print_line = λ m w. (w, none);
  print_defaults = λ w. w;
  serve = λ st e w. (w, some eof);
}

abbrev pub accounts : Accounts store_platform
accounts = record { opened = λ w. w.opened; closed = λ w. w.closed }

pub accounted : IsAccounted store_platform accounts
accounted = record {
  make_dirs = λ p m w. (refl, refl);
  create_new = λ p m w. (refl, refl);
  close_file = λ f w. (refl, refl);
  set_max_open = λ h n w. (refl, refl);
  ping = λ h w. (refl, refl);
  migrate = λ h w. (refl, refl);
  wait = λ w d. (refl, refl);
  open_db = λ d w. (refl, refl);
  close = λ h w. (refl, refl);
}
