-- ===== src/Store/Snapshot/Seen.antt =====
-- internal/store/store.go: `Snapshot`, as another process sees the files between its steps, or as a
-- crash leaves them.
use field_docket.Base.{
  ℕ, ◌≡◌, refl, ◌∙◌, ap, ◌≢◌, ◌⊎◌, inl, inr, false, List, [], ◌∷◌, All, Bytes, codes, none, some,
}
use field_docket.Go.Errors.{wrap, ok, err}
use field_docket.Go.Path.{dir}
use field_docket.Store.Snapshot.{
  Disk, Done, vacuum_into, staged, move, secure, write_copy, clear, snapshot,
}
use field_docket.Store.Snapshot.Watched.{watched, snapshot-watched}
use field_docket.Store.Snapshot.Views.{FileState, View, IsDisk}
use field_docket.Store.Snapshot.Copies.{existing, not_staged}

-- What every state should show: at the destination what was there or the finished copy, and at
-- another entry what was there.
abbrev pub IsIntact : {W : Type 0} (V : View W) → Bytes → V.Place → W → W → Type 0
IsIntact V dest q w w' =
    ((V.file w' (V.place dest) ≡ V.file w (V.place dest))
      ⊎ (V.file w' (V.place dest) ≡ some (0o600, V.image w)))
    × (V.file w' q ≡ V.file w q)

module _ (D : Disk) (V : View D.World) (L : IsDisk D V) (dest : Bytes) (q : V.Place)
    (start : D.World) (other : q ≢ V.place dest) where
  abbrev Intact : D.World → Type 0
  Intact = IsIntact V dest q start

  -- Nothing has been moved to the destination yet.
  abbrev Before : D.World → Type 0
  Before w = (V.file w (V.place dest) ≡ V.file start (V.place dest)) × (V.file w q ≡ V.file start q)

  abbrev AllIntact : D.World × List D.World → Type 0
  AllIntact x = Intact x.0 × All Intact x.1

  abbrev copy : FileState
  copy = some (0o600, V.image start)

  Before-Intact : {w : D.World} → Before w → Intact w
  Before-Intact (b, k) = (inl b, k)

  module _ (tmp : Bytes) (apart : V.place dest ≢ V.place tmp) (apart' : q ≢ V.place tmp) where
    move-AllIntact :
        (w : D.World) (log : List D.World)
        → Before w
        → V.file w (V.place tmp) ≡ copy
        → All Intact log
        → AllIntact (move (watched D) tmp dest (w, log)).0
    unfolding move
    move-AllIntact w log (before, kept) made seen =
        elim (D.rename tmp dest w).1
            as (λ r.
              (D.rename tmp dest w).1 ≡ r
              → AllIntact
                  (elim r as (λ x. Done (watched D)) [
                    | some e ↦ (
                      ((D.rename tmp dest w).0, (D.rename tmp dest w).0 ∷ log),
                      some (wrap (codes "moving snapshot into place") e),
                    )
                    | none ↦ (((D.rename tmp dest w).0, (D.rename tmp dest w).0 ∷ log), none)
                  ]).0) [
                    | some e ↦ λ h.
                        let same = L.rename_fails tmp dest w h in
                        let now : Intact _ = (inl (same (V.place dest) ∙ before), same q ∙ kept) in
                        (now, (now, seen))
                    | none ↦ λ h.
                        let now : Intact _ = (
                          inr (L.rename_moves tmp dest w h ∙ made),
                          L.rename_else tmp dest w q apart' other ∙ kept,
                        ) in
                        (now, (now, seen))
                  ]
          refl

    chmod-Before : (m : ℕ) (w : D.World) → Before w → Before (D.chmod tmp m w).0
    chmod-Before m w (before, kept) =
        (L.chmod_else tmp m w (V.place dest) apart ∙ before, L.chmod_else tmp m w q apart' ∙ kept)

    exec-Before : (w : D.World) → Before w → Before (D.exec vacuum_into tmp w).0
    exec-Before w (before, kept) =
        (L.vacuum_else tmp w (V.place dest) apart ∙ before, L.vacuum_else tmp w q apart' ∙ kept)

    secure-AllIntact :
        (w : D.World) (log : List D.World) (m : ℕ)
        → Before w
        → V.file w (V.place tmp) ≡ some (m, V.image start)
        → All Intact log
        → AllIntact (secure (watched D) tmp dest (w, log)).0
    unfolding secure
    secure-AllIntact w log m before made seen =
        let w' = (D.chmod tmp 0o600 w).0 in
        let before' = chmod-Before 0o600 w before in
        elim (D.chmod tmp 0o600 w).1
            as (λ r.
              (D.chmod tmp 0o600 w).1 ≡ r
              → AllIntact
                  (elim r as (λ x. Done (watched D)) [
                    | some e ↦ ((w', w' ∷ log), some (wrap (codes "securing snapshot") e))
                    | none ↦ move (watched D) tmp dest (w', w' ∷ log)
                  ]).0) [
                    | some e ↦ λ h. (Before-Intact before', (Before-Intact before', seen))
                    | none ↦ λ h.
                        move-AllIntact w' (w' ∷ log) before'
                          (L.chmod_sets tmp 0o600 m (V.image start) w made h)
                          (Before-Intact before', seen)
                  ]
          refl

    write_copy-AllIntact :
        (w : D.World) (log : List D.World)
        → Before w
        → V.image w ≡ V.image start
        → All Intact log
        → AllIntact (write_copy (watched D) tmp dest (w, log)).0
    unfolding write_copy
    write_copy-AllIntact w log before same seen =
        let w' = (D.exec vacuum_into tmp w).0 in
        let before' = exec-Before w before in
        elim (D.exec vacuum_into tmp w).1
            as (λ r.
              (D.exec vacuum_into tmp w).1 ≡ r
              → AllIntact
                  (elim r as (λ x. Done (watched D)) [
                    | some e ↦ ((w', w' ∷ log), some (wrap (codes "writing snapshot") e))
                    | none ↦ secure (watched D) tmp dest (w', w' ∷ log)
                  ]).0) [
                    | some e ↦ λ h. (Before-Intact before', (Before-Intact before', seen))
                    | none ↦ λ h.
                        let (m, made) = L.vacuum_copies tmp w h in
                        secure-AllIntact w' (w' ∷ log) m before' (made ∙ ap (λ i. some (m, i)) same)
                          (Before-Intact before', seen)
                  ]
          refl

  clear-AllIntact :
      (stage : Bytes) (done : Done (watched D))
      → V.is_below stage (V.place dest) ≡ false
      → V.is_below stage q ≡ false
      → AllIntact done.0
      → AllIntact (clear (watched D) stage done).0
  unfolding clear
  clear-AllIntact stage ((w, log), failure) outside outside' ((at_dest, kept), seen) =
      let same = L.remove_else stage w (V.place dest) outside in
      let now : Intact (D.remove_all stage w).0 = (
        elim at_dest [ inl e ↦ inl (same ∙ e) | inr e ↦ inr (same ∙ e) ],
        L.remove_else stage w q outside' ∙ kept,
      ) in
      (now, (now, seen))

-- To record the states that its steps leave behind changes neither what a snapshot does nor what it
-- reports. Over operations that behave as documented, in every such state, however the snapshot
-- ends: the destination holds what it held at the start or the whole private copy of the docket,
-- and any other file that there was at the start is as it was.
pub snapshot-IsIntact :
    (D : Disk) (V : View D.World)
    → IsDisk D V
    → (dest : Bytes) (w : D.World) (q : V.Place) {f : ℕ × Bytes} → q ≢ V.place dest
    → V.file w q ≡ some f
    → let (done, failure) = snapshot (watched D) dest (w, []) in
      ((done.0, failure) ≡ snapshot D dest w) × All (IsIntact V dest q w) done.1
unfolding snapshot
snapshot-IsIntact D V L dest w q other there = (
  snapshot-watched D dest w,
  let pattern = codes ".field-docket-snapshot-*" in
      let w' = (D.make_temp_dir (dir dest) pattern w).0 in
      let before : Before D V L dest q w other w' =
        (L.temp_files (dir dest) pattern w (V.place dest), L.temp_files (dir dest) pattern w q) in
      let intact = Before-Intact D V L dest q w other before in
      elim (D.make_temp_dir (dir dest) pattern w).1
          as (λ r.
            (D.make_temp_dir (dir dest) pattern w).1 ≡ r
            → All (IsIntact V dest q w)
                (elim r as (λ x. Done (watched D)) [
                  | err e ↦
                      ((w', w' ∷ []), some (wrap (codes "reserving snapshot staging directory") e))
                  | ok stage ↦
                      clear (watched D) stage
                        (write_copy (watched D) (staged stage) dest (w', w' ∷ []))
                ]).0.1) [
                  | err e ↦ λ made. (intact, tt)
                  | ok stage ↦ λ made.
                      let inside = L.temp_inside dest pattern w made in
                      let outside = existing D V L dest stage w q made there in
                      (clear-AllIntact D V L dest q w other stage
                        (write_copy (watched D) (staged stage) dest (w', w' ∷ [])) inside outside
                        (write_copy-AllIntact D V L dest q w other (staged stage)
                          (not_staged D V L dest stage w made inside)
                          (not_staged D V L dest stage w made outside) w' (w' ∷ []) before
                          (L.temp_image (dir dest) pattern w) (intact, tt))).1
                ]
        refl,
)
