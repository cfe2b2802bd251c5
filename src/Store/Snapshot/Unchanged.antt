-- ===== src/Store/Snapshot/Unchanged.antt =====
-- internal/store/store.go: `Snapshot`, as a sequence of steps that keep some part of the world.
use field_docket.Base.{ℕ, ◌≡◌, ◌∙◌, Bytes, codes, some, arith}
use field_docket.Go.Errors.{wrap, ok, err}
use field_docket.Go.Path.{dir}
use field_docket.Store.Snapshot.{
  Disk, Done, staged, vacuum_into, move, secure, write_copy, clear, snapshot,
}

module _ (D : Disk) {A : Type 0} (part : D.World → A)
    (makes : (d p : Bytes) (w : D.World) → part (D.make_temp_dir d p w).0 ≡ part w)
    (execs : (q p : Bytes) (w : D.World) → part (D.exec q p w).0 ≡ part w)
    (chmods : (p : Bytes) (m : ℕ) (w : D.World) → part (D.chmod p m w).0 ≡ part w)
    (renames : (p d : Bytes) (w : D.World) → part (D.rename p d w).0 ≡ part w)
    (removes : (p : Bytes) (w : D.World) → part (D.remove_all p w).0 ≡ part w) where
  move-part : (tmp dest : Bytes) (w : D.World) → part (move D tmp dest w).0 ≡ part w
  unfolding move
  move-part tmp dest w = ground (arith, renames tmp dest w)

  secure-part : (tmp dest : Bytes) (w : D.World) → part (secure D tmp dest w).0 ≡ part w
  unfolding secure
  secure-part tmp dest w =
      ground (arith, chmods tmp 0o600 w, move-part tmp dest (D.chmod tmp 0o600 w).0)

  write_copy-part : (tmp dest : Bytes) (w : D.World) → part (write_copy D tmp dest w).0 ≡ part w
  unfolding write_copy
  write_copy-part tmp dest w =
      ground (arith, execs vacuum_into tmp w, secure-part tmp dest (D.exec vacuum_into tmp w).0)

  clear-part : (stage : Bytes) (done : Done D) → part (clear D stage done).0 ≡ part done.0
  unfolding clear
  clear-part stage done = removes stage done.0

  pub snapshot-part : (dest : Bytes) (w : D.World) → part (snapshot D dest w).0 ≡ part w
  unfolding snapshot
  snapshot-part dest w =
      let (w', r) = D.make_temp_dir (dir dest) (codes ".field-docket-snapshot-*") w in
      let made = makes (dir dest) (codes ".field-docket-snapshot-*") w in
      elim r
        as (λ x.
          part
            (elim x as (λ y. Done D) [
              | err e ↦ (w', some (wrap (codes "reserving snapshot staging directory") e))
              | ok stage ↦ clear D stage (write_copy D (staged stage) dest w')
            ]).0
          ≡ part w) [
            | err e ↦ made
            | ok stage ↦
                clear-part stage (write_copy D (staged stage) dest w')
                ∙ write_copy-part (staged stage) dest w'
                ∙ made
          ]
