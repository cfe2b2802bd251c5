-- ===== src/Store/Snapshot/Staging.antt =====
-- What the body of `Snapshot` does between the staging directory's creation and its removal.
use field_docket.Base.{ℕ, ◌≡◌, refl, ◌∙◌, ◌≢◌, Bytes, codes, Option, none, some}
use field_docket.Go.Errors.{Error, wrap}
use field_docket.Store.Snapshot.{Disk, Done, vacuum_into, move, secure, write_copy}
use field_docket.Store.Snapshot.Views.{FileState, View, IsDisk}

-- What the destination holds after the body, by its error: what it held, or the copy.
abbrev pub Landed : FileState → FileState → Option Error → FileState → Type 0
Landed before copy none now = now ≡ copy
Landed before copy (some e) now = now ≡ before

pub Landed-along :
    {b b' c c' : FileState} (failure : Option Error) (now : FileState)
    → b ≡ b'
    → c ≡ c'
    → Landed b c failure now
    → Landed b' c' failure now
Landed-along none now hb hc l = l ∙ hc
Landed-along (some e) now hb hc l = l ∙ hb

module _ (D : Disk) (V : View D.World) (L : IsDisk D V) where
  abbrev pub private_copy : D.World → FileState
  private_copy w = some (0o600, V.image w)

  module _ (tmp dest : Bytes) (apart : V.place dest ≢ V.place tmp) where
    move-else :
        (w : D.World) (q : V.Place)
        → q ≢ V.place tmp
        → q ≢ V.place dest
        → V.file (move D tmp dest w).0 q ≡ V.file w q
    unfolding move
    move-else w q nt nd =
        elim (D.rename tmp dest w).1
          as (λ r.
            V.file
              (elim r as (λ x. Done D) [
                | some e ↦
                    ((D.rename tmp dest w).0, some (wrap (codes "moving snapshot into place") e))
                | none ↦ ((D.rename tmp dest w).0, none)
              ]).0
              q
            ≡ V.file w q) [
              | some e ↦ L.rename_else tmp dest w q nt nd
              | none ↦ L.rename_else tmp dest w q nt nd
            ]

    move-Landed :
        (w : D.World)
        → Landed
            (V.file w (V.place dest))
            (V.file w (V.place tmp))
            (move D tmp dest w).1
            (V.file (move D tmp dest w).0 (V.place dest))
    unfolding move
    move-Landed w =
        elim (D.rename tmp dest w).1
            as (λ r.
              (D.rename tmp dest w).1 ≡ r
              → let (w', failure) = elim r as (λ x. Done D) [
                | some e ↦
                    ((D.rename tmp dest w).0, some (wrap (codes "moving snapshot into place") e))
                | none ↦ ((D.rename tmp dest w).0, none)
              ] in
                Landed (V.file w (V.place dest)) (V.file w (V.place tmp)) failure
                  (V.file w' (V.place dest))) [
                    | some e ↦ λ h. L.rename_fails tmp dest w h (V.place dest)
                    | none ↦ λ h. L.rename_moves tmp dest w h
                  ]
          refl

    secure-else :
        (w : D.World) (q : V.Place)
        → q ≢ V.place tmp
        → q ≢ V.place dest
        → V.file (secure D tmp dest w).0 q ≡ V.file w q
    unfolding secure
    secure-else w q nt nd =
        let w' = (D.chmod tmp 0o600 w).0 in
        elim (D.chmod tmp 0o600 w).1
          as (λ r.
            V.file
              (elim r as (λ x. Done D) [
                | some e ↦ (w', some (wrap (codes "securing snapshot") e))
                | none ↦ move D tmp dest w'
              ]).0
              q
            ≡ V.file w q) [
              | some e ↦ L.chmod_else tmp 0o600 w q nt
              | none ↦ move-else w' q nt nd ∙ L.chmod_else tmp 0o600 w q nt
            ]

    secure-Landed :
        (w : D.World) (m : ℕ) (content : Bytes)
        → V.file w (V.place tmp) ≡ some (m, content)
        → Landed
            (V.file w (V.place dest))
            (some (0o600, content))
            (secure D tmp dest w).1
            (V.file (secure D tmp dest w).0 (V.place dest))
    unfolding secure
    secure-Landed w m content h =
        let w' = (D.chmod tmp 0o600 w).0 in
        elim (D.chmod tmp 0o600 w).1
            as (λ r.
              (D.chmod tmp 0o600 w).1 ≡ r
              → let (w2, failure) = elim r as (λ x. Done D) [
                | some e ↦ (w', some (wrap (codes "securing snapshot") e))
                | none ↦ move D tmp dest w'
              ] in
                Landed (V.file w (V.place dest)) (some (0o600, content)) failure
                  (V.file w2 (V.place dest))) [
                    | some e ↦ λ hr. L.chmod_else tmp 0o600 w (V.place dest) apart
                    | none ↦ λ hr.
                        Landed-along _ _ (L.chmod_else tmp 0o600 w (V.place dest) apart)
                          (L.chmod_sets tmp 0o600 m content w h hr) (move-Landed w')
                  ]
          refl

    pub write_copy-else :
        (w : D.World) (q : V.Place)
        → q ≢ V.place tmp
        → q ≢ V.place dest
        → V.file (write_copy D tmp dest w).0 q ≡ V.file w q
    unfolding write_copy
    write_copy-else w q nt nd =
        let w' = (D.exec vacuum_into tmp w).0 in
        elim (D.exec vacuum_into tmp w).1
          as (λ r.
            V.file
              (elim r as (λ x. Done D) [
                | some e ↦ (w', some (wrap (codes "writing snapshot") e))
                | none ↦ secure D tmp dest w'
              ]).0
              q
            ≡ V.file w q) [
              | some e ↦ L.vacuum_else tmp w q nt
              | none ↦ secure-else w' q nt nd ∙ L.vacuum_else tmp w q nt
            ]

    pub write_copy-Landed :
        (w : D.World)
        → Landed
            (V.file w (V.place dest))
            (private_copy w)
            (write_copy D tmp dest w).1
            (V.file (write_copy D tmp dest w).0 (V.place dest))
    unfolding write_copy
    write_copy-Landed w =
        let w' = (D.exec vacuum_into tmp w).0 in
        elim (D.exec vacuum_into tmp w).1
            as (λ r.
              (D.exec vacuum_into tmp w).1 ≡ r
              → let (w2, failure) = elim r as (λ x. Done D) [
                | some e ↦ (w', some (wrap (codes "writing snapshot") e))
                | none ↦ secure D tmp dest w'
              ] in
                Landed (V.file w (V.place dest)) (private_copy w) failure
                  (V.file w2 (V.place dest))) [
                    | some e ↦ λ hr. L.vacuum_else tmp w (V.place dest) apart
                    | none ↦ λ hr.
                        let (m, copied) = L.vacuum_copies tmp w hr in
                        Landed-along _ _ (L.vacuum_else tmp w (V.place dest) apart) refl
                          (secure-Landed w' m (V.image w) copied)
                  ]
          refl
