-- ===== src/Store/Snapshot.antt =====
-- internal/store/store.go: `Snapshot`.
pub mod Views
pub mod Staging
pub mod Copies
pub mod Unchanged
pub mod Watched
pub mod Seen
use field_docket.Base.{
  ℕ, Bool, true, false, List, [], ◌∷◌, Bytes, codes, Option, none, some, if◌then◌else◌,
}
use field_docket.Go.Errors.{Error, wrap, is_not_exist, Result, ok, err}
use field_docket.Go.Path.{dir, join_path}
use field_docket.Store.Closing.{join_errors}

-- The operating system and the read handle, as far as `Snapshot` calls them: `os.MkdirTemp`,
-- `ExecContext` of a statement with one argument, `os.Chmod`, `os.Rename` and `os.RemoveAll`.
pub record Disk : Type 1 where
  pub World : Type 0
  pub make_temp_dir : Bytes → Bytes → World → World × Result Bytes
  pub exec : Bytes → Bytes → World → World × Option Error
  pub chmod : Bytes → ℕ → World → World × Option Error
  pub rename : Bytes → Bytes → World → World × Option Error
  pub remove_all : Bytes → World → World × Option Error

abbrev pub vacuum_into : Bytes
vacuum_into = codes "VACUUM INTO ?"

-- `tmpPath`
abbrev pub staged : Bytes → Bytes
staged stage = join_path (stage ∷ codes "snapshot.db" ∷ [])

-- The error after the removal.
unfoldable pub cleared : Option Error → Option Error → Option Error
unfolding join_errors
cleared failure none = failure
cleared failure (some e) =
    if is_not_exist e
    then failure
    else join_errors failure (some (wrap (codes "clearing snapshot staging directory") e))

module _ (D : Disk) where
  abbrev pub Done : Type 0
  Done = D.World × Option Error

  unfoldable pub move : Bytes → Bytes → D.World → Done
  move tmp_path dest w =
      let (w', failure) = D.rename tmp_path dest w in
      elim failure [
        | some e ↦ (w', some (wrap (codes "moving snapshot into place") e))
        | none ↦ (w', none)
      ]

  unfoldable pub secure : Bytes → Bytes → D.World → Done
  unfolding move
  secure tmp_path dest w =
      let (w', failure) = D.chmod tmp_path 0o600 w in
      elim failure [
        | some e ↦ (w', some (wrap (codes "securing snapshot") e))
        | none ↦ move tmp_path dest w'
      ]

  -- The body between the staging directory's creation and its removal.
  unfoldable pub write_copy : Bytes → Bytes → D.World → Done
  unfolding secure
  write_copy tmp_path dest w =
      let (w', failure) = D.exec vacuum_into tmp_path w in
      elim failure [
        | some e ↦ (w', some (wrap (codes "writing snapshot") e))
        | none ↦ secure tmp_path dest w'
      ]

  -- The deferred function, which runs whatever the body returned.
  unfoldable pub clear : Bytes → Done → Done
  unfolding cleared
  clear stage (w, failure) = let (w', left) = D.remove_all stage w in (w', cleared failure left)

  -- `Snapshot`
  unfoldable pub snapshot : Bytes → D.World → Done
  unfolding write_copy clear
  snapshot dest w =
      let (w', r) = D.make_temp_dir (dir dest) (codes ".field-docket-snapshot-*") w in
      elim r [
        | err e ↦ (w', some (wrap (codes "reserving snapshot staging directory") e))
        | ok stage ↦ clear stage (write_copy (staged stage) dest w')
      ]
