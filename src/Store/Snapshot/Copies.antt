-- ===== src/Store/Snapshot/Copies.antt =====
-- internal/store/store.go: what `Snapshot` leaves at its destination and elsewhere.
use field_docket.Base.{
  ℕ, ◌≡◌, refl, sym, arith, ◌∙◌, ap, ◌≢◌, true, false, Bytes, codes, Option, none, some,
}
use mathlib.Core.Path.{subst}
use field_docket.Go.Errors.{Error, wrap, ok, err}
use field_docket.Go.Path.{dir}
use field_docket.Store.Snapshot.{Disk, Done, staged, write_copy, cleared, clear, snapshot}
use field_docket.Store.Closing.{join_errors}
use field_docket.Store.Snapshot.Views.{View, IsDisk}
use field_docket.Store.Snapshot.Staging.{
  Landed, Landed-along, private_copy, write_copy-else, write_copy-Landed,
}

cleared-none :
    (failure left : Option Error)
    → cleared failure left ≡ none
    → (failure ≡ none) × (cleared none left ≡ none)
unfolding cleared join_errors
cleared-none none left h = (refl, h)
cleared-none (some e) none h = cc
cleared-none (some e) (some e') h = ground arith

module _ (D : Disk) (V : View D.World) (L : IsDisk D V) where
  abbrev pattern : Bytes
  pattern = codes ".field-docket-snapshot-*"

  -- A file that was there before is outside the staging directory.
  pub existing :
      (dest stage : Bytes) (w : D.World) (q : V.Place) {f : ℕ × Bytes}
      → (D.make_temp_dir (dir dest) pattern w).1 ≡ ok stage
      → V.file w q ≡ some f
      → V.is_below stage q ≡ false
  existing dest stage w q {f} made there =
      elim (V.is_below stage q) as (λ b. V.is_below stage q ≡ b → b ≡ false) [
        | true ↦ λ below. let gone = L.temp_new (dir dest) pattern w made q below in cc
        | false ↦ λ below. refl
      ]
        refl

  module _ (dest stage : Bytes) (w : D.World)
      (made : (D.make_temp_dir (dir dest) pattern w).1 ≡ ok stage) where
    abbrev begun : D.World
    begun = (D.make_temp_dir (dir dest) pattern w).0

    abbrev body : Done D
    body = write_copy D (staged stage) dest begun

    -- A place outside the staging directory is not that of the staged file.
    pub not_staged : {q : V.Place} → V.is_below stage q ≡ false → q ≢ V.place (staged stage)
    not_staged h e = let t = L.temp_below (dir dest) pattern w made in cc

    outside-clear :
        (q : V.Place)
        → V.is_below stage q ≡ false
        → q ≢ V.place dest
        → V.file (clear D stage body).0 q ≡ V.file w q
    unfolding clear
    outside-clear q below apart =
        L.remove_else stage body.0 q below
        ∙ write_copy-else D V L (staged stage) dest (not_staged (L.temp_inside dest pattern w made))
            begun q (not_staged below) apart
        ∙ L.temp_files (dir dest) pattern w q

    -- The error of the whole, and the destination.
    finished :
        Landed
          (V.file w (V.place dest))
          (private_copy D V L w)
          body.1
          (V.file (clear D stage body).0 (V.place dest))
    unfolding clear
    finished =
        let inside = L.temp_inside dest pattern w made in
        Landed-along body.1 _ (L.temp_files (dir dest) pattern w (V.place dest))
          (ap (λ i. some (0o600, i)) (L.temp_image (dir dest) pattern w))
          (subst (λ f. Landed (V.file begun (V.place dest)) (some (0o600, V.image begun)) body.1 f)
            (sym (L.remove_else stage body.0 (V.place dest) inside))
            (write_copy-Landed D V L (staged stage) dest (not_staged inside) begun))

    all_clear :
        (clear D stage body).1 ≡ none
        → (V.file (clear D stage body).0 (V.place dest) ≡ private_copy D V L w)
          × ((q : V.Place) → q ≢ V.place dest → V.file (clear D stage body).0 q ≡ V.file w q)
    unfolding clear
    all_clear h =
        let (done, emptied) = cleared-none body.1 _ h in
        (
          subst
              (λ f.
                Landed (V.file w (V.place dest)) (private_copy D V L w) f
                  (V.file (clear D stage body).0 (V.place dest)))
              done finished,
          λ q apart.
              elim (V.is_below stage q)
                  as (λ b. V.is_below stage q ≡ b → V.file (clear D stage body).0 q ≡ V.file w q) [
                    | true ↦ λ below.
                        L.remove_empties stage body.0 emptied q below
                        ∙ sym (L.temp_new (dir dest) pattern w made q below)
                    | false ↦ λ below. outside-clear q below apart
                  ]
                refl,
        )

  pub snapshot-done :
      {dest : Bytes} {w w' : D.World}
      → snapshot D dest w ≡ (w', none)
      → (V.file w' (V.place dest) ≡ some (0o600, V.image w))
        × ((q : V.Place) → q ≢ V.place dest → V.file w' q ≡ V.file w q)
  unfolding snapshot
  snapshot-done {dest} {w} {w'} h =
      elim (D.make_temp_dir (dir dest) pattern w).1
          as (λ r.
            (D.make_temp_dir (dir dest) pattern w).1 ≡ r
            → elim r as (λ x. Done D) [
              | err e ↦ (
                (D.make_temp_dir (dir dest) pattern w).0,
                some (wrap (codes "reserving snapshot staging directory") e),
              )
              | ok stage ↦
                  clear D stage
                    (write_copy D (staged stage) dest (D.make_temp_dir (dir dest) pattern w).0)
            ]
              ≡ (w', none)
            → (V.file w' (V.place dest) ≡ some (0o600, V.image w))
              × ((q : V.Place) → q ≢ V.place dest → V.file w' q ≡ V.file w q)) [
                | err e ↦ λ made h'. let no = ap (λ x. x.1) h' in cc
                | ok stage ↦ λ made h'.
                    let moved = ap (λ x. x.0) h' in
                    let (at_dest, elsewhere) = all_clear dest stage w made (ap (λ x. x.1) h') in
                    (
                      ap (λ v. V.file v (V.place dest)) (sym moved) ∙ at_dest,
                      λ q apart. ap (λ v. V.file v q) (sym moved) ∙ elsewhere q apart,
                    )
              ]
        refl h

  -- Over operations that behave as documented, a snapshot that reports no error has put at the
  -- destination a file that only its owner may read and that holds the docket as the snapshot
  -- found it; every other file is as it was, so nothing is left of the staging directory either.
  pub snapshot-copies :
      {dest : Bytes} {w w' : D.World}
      → snapshot D dest w ≡ (w', none)
      → (q : V.Place) → q ≢ V.place dest
      → (V.file w' (V.place dest) ≡ some (0o600, V.image w)) × (V.file w' q ≡ V.file w q)
  snapshot-copies h q apart =
      let (at_dest, elsewhere) = snapshot-done h in (at_dest, elsewhere q apart)
