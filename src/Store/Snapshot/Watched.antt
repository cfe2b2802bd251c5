-- ===== src/Store/Snapshot/Watched.antt =====
-- internal/store/store.go: `Snapshot` on operations that record what they leave behind.
use field_docket.Base.{◌≡◌, refl, List, [], ◌∷◌, arith, Bytes}
use field_docket.Store.Snapshot.{Disk, Done, move, secure, write_copy, clear, snapshot}

-- The same operations, and the states that they left behind, the last one first.
abbrev pub watched : Disk → Disk
watched D = record {
  World = D.World × List D.World;
  make_temp_dir = λ d p x. let r = D.make_temp_dir d p x.0 in ((r.0, r.0 ∷ x.1), r.1);
  exec = λ q p x. let r = D.exec q p x.0 in ((r.0, r.0 ∷ x.1), r.1);
  chmod = λ p m x. let r = D.chmod p m x.0 in ((r.0, r.0 ∷ x.1), r.1);
  rename = λ p d x. let r = D.rename p d x.0 in ((r.0, r.0 ∷ x.1), r.1);
  remove_all = λ p x. let r = D.remove_all p x.0 in ((r.0, r.0 ∷ x.1), r.1);
}

module _ (D : Disk) where
  move-watched :
      (tmp dest : Bytes) (x : D.World × List D.World)
      → let (done, failure) = move (watched D) tmp dest x in (done.0, failure) ≡ move D tmp dest x.0
  unfolding move
  move-watched tmp dest (w, log) = ground arith

  secure-watched :
      (tmp dest : Bytes) (x : D.World × List D.World)
      → let (done, failure) = secure (watched D) tmp dest x in
        (done.0, failure) ≡ secure D tmp dest x.0
  unfolding secure
  secure-watched tmp dest (w, log) = ground (arith, move-watched tmp dest)

  write_copy-watched :
      (tmp dest : Bytes) (x : D.World × List D.World)
      → let (done, failure) = write_copy (watched D) tmp dest x in
        (done.0, failure) ≡ write_copy D tmp dest x.0
  unfolding write_copy
  write_copy-watched tmp dest (w, log) = ground (arith, secure-watched tmp dest)

  clear-watched :
      (stage : Bytes) (x : Done (watched D))
      → let (done, failure) = clear (watched D) stage x in
        (done.0, failure) ≡ clear D stage ((x.0).0, x.1)
  unfolding clear
  clear-watched stage x = refl

  -- To be watched changes neither what a snapshot does nor what it reports.
  pub snapshot-watched :
      (dest : Bytes) (w : D.World)
      → let (done, failure) = snapshot (watched D) dest (w, []) in
        (done.0, failure) ≡ snapshot D dest w
  unfolding snapshot
  snapshot-watched dest w = grind (arith, write_copy-watched, clear-watched)
