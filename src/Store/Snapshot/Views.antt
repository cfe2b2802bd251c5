-- ===== src/Store/Snapshot/Views.antt =====
-- What the operations that `Snapshot` uses do to files.
use field_docket.Base.{ℕ, ◌≡◌, ◌≢◌, Bool, true, false, Bytes, Option, none, some}
use field_docket.Go.Errors.{Error, ok}
use field_docket.Go.Path.{dir}
use field_docket.Store.Snapshot.{Disk, vacuum_into, staged, cleared}

-- A file: its permission bits and its bytes.
abbrev pub FileState : Type 0
FileState = Option (ℕ × Bytes)

-- What the names mean: the directory entry that a name leads to, the entries in a directory's
-- tree, the file at an entry, and the docket that the read handle sees.
pub record View (World : Type 0) : Type 1 where
  pub Place : Type 0
  pub place : Bytes → Place
  pub is_below : Bytes → Place → Bool
  pub file : World → Place → FileState
  pub image : World → Bytes

-- Nothing but the entry may change.
abbrev pub IsElsewhere : {World : Type 0} (V : View World) → Bytes → World → World → Type 0
IsElsewhere V path w w' = (q : V.Place) → q ≢ V.place path → V.file w' q ≡ V.file w q

-- What the operations promise. A staging directory is new and in the directory asked for. `VACUUM
-- INTO` writes at its destination only, and when it succeeds it has written the docket, with some
-- mode. `chmod` changes the mode only. `rename` moves the file or changes nothing. `RemoveAll`
-- touches nothing outside the tree, and leaves nothing in it unless it reports an error other than
-- that the tree is not there.
pub record IsDisk (D : Disk) (V : View D.World) : Type 0 where
  pub temp_files :
      (d pattern : Bytes) (w : D.World) (q : V.Place)
      → V.file (D.make_temp_dir d pattern w).0 q ≡ V.file w q
  pub temp_image :
      (d pattern : Bytes) (w : D.World) → V.image (D.make_temp_dir d pattern w).0 ≡ V.image w
  pub temp_new :
      (d pattern : Bytes) (w : D.World) {stage : Bytes}
      → (D.make_temp_dir d pattern w).1 ≡ ok stage
      → (q : V.Place) → V.is_below stage q ≡ true
      → V.file w q ≡ none
  pub temp_inside :
      (path pattern : Bytes) (w : D.World) {stage : Bytes}
      → (D.make_temp_dir (dir path) pattern w).1 ≡ ok stage
      → V.is_below stage (V.place path) ≡ false
  pub temp_below :
      (d pattern : Bytes) (w : D.World) {stage : Bytes}
      → (D.make_temp_dir d pattern w).1 ≡ ok stage
      → V.is_below stage (V.place (staged stage)) ≡ true
  pub vacuum_else : (p : Bytes) (w : D.World) → IsElsewhere V p w (D.exec vacuum_into p w).0
  pub vacuum_copies :
      (p : Bytes) (w : D.World)
      → (D.exec vacuum_into p w).1 ≡ none
      → (m : ℕ) × (V.file (D.exec vacuum_into p w).0 (V.place p) ≡ some (m, V.image w))
  pub chmod_else : (p : Bytes) (m : ℕ) (w : D.World) → IsElsewhere V p w (D.chmod p m w).0
  pub chmod_sets :
      (p : Bytes) (m m' : ℕ) (content : Bytes) (w : D.World)
      → V.file w (V.place p) ≡ some (m', content)
      → (D.chmod p m w).1 ≡ none
      → V.file (D.chmod p m w).0 (V.place p) ≡ some (m, content)
  pub rename_fails :
      (p d : Bytes) (w : D.World) {e : Error}
      → (D.rename p d w).1 ≡ some e
      → (q : V.Place) → V.file (D.rename p d w).0 q ≡ V.file w q
  pub rename_moves :
      (p d : Bytes) (w : D.World)
      → (D.rename p d w).1 ≡ none
      → V.file (D.rename p d w).0 (V.place d) ≡ V.file w (V.place p)
  pub rename_else :
      (p d : Bytes) (w : D.World) (q : V.Place)
      → q ≢ V.place p
      → q ≢ V.place d
      → V.file (D.rename p d w).0 q ≡ V.file w q
  pub remove_else :
      (p : Bytes) (w : D.World) (q : V.Place)
      → V.is_below p q ≡ false
      → V.file (D.remove_all p w).0 q ≡ V.file w q
  pub remove_empties :
      (p : Bytes) (w : D.World)
      → cleared none (D.remove_all p w).1 ≡ none
      → (q : V.Place) → V.is_below p q ≡ true
      → V.file (D.remove_all p w).0 q ≡ none
