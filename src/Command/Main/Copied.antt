-- ===== src/Command/Main/Copied.antt =====
-- The subcommand `snapshot` from the command line to the file that it leaves.
use field_docket.Base.{
  ◌≡◌, refl, sym, ap, ◌∙◌, List, [], ◌∷◌, ◌++◌, Bytes, codes, Option, none, some, ℕ,
}
use mathlib.Core.Path.{subst}
use field_docket.Base.Compare.{compare_bytes}
use field_docket.Go.Errors.{Error, message, Result, ok, err}
use field_docket.Go.Flag.{positional, read_flag}
use field_docket.Go.Host.{Host}
use field_docket.Config.{File}
use field_docket.Store.Permissions.{Files}
use field_docket.Store.Closing.{close, close_handle}
use field_docket.Store.Open.{open_store}
use field_docket.Store.Open.Complete.{open_store-reads}
use field_docket.Store.Snapshot.{snapshot}
use field_docket.Store.Snapshot.Views.{View, IsDisk}
use field_docket.Store.Snapshot.Copies.{snapshot-done}
use field_docket.Command.{StoreTarget, resolve_store}
use field_docket.Command.Arguments.{
  Setting, spell, last_value, parse_flags-spell, parse_flags-stray,
}
use field_docket.Command.Main.{
  Machine, Store, returned, disk, close_at_end, warn, snapshot_opened, snapshot_target,
  snapshot_settled, run_snapshot, after_snapshot, main,
}

module _ (M : Machine) (V : View M.World) (S : (h : M.Handle) → IsDisk (disk M (some h)) V)
    (dest : Bytes)
    (logs : (m : Bytes) (w : M.World) → V.file (M.log m w) (V.place dest) ≡ V.file w (V.place dest))
    (closes : (h : M.Handle) (w : M.World)
      → V.file (M.close h w).0 (V.place dest) ≡ V.file w (V.place dest)) where
  abbrev at_dest : M.World → Option (ℕ × Bytes)
  at_dest w = V.file w (V.place dest)

  close_handle-at_dest :
      (prefix : Bytes) (h : Option M.Handle) (w : M.World)
      → at_dest (close_handle M.pool prefix h w).0 ≡ at_dest w
  unfolding close_handle
  close_handle-at_dest prefix none w = refl
  close_handle-at_dest prefix (some h) w = closes h w

  close_at_end-at_dest : (st : Store M) (w : M.World) → at_dest (close_at_end M st w) ≡ at_dest w
  unfolding close_at_end close
  close_at_end-at_dest st w =
      let w' = (close M.pool (some st) w).0.0 in
      let closed = close_handle-at_dest _ st.write_db _ ∙ close_handle-at_dest _ st.read_db w in
      elim (close M.pool (some st) w).1
        as (λ failure.
          at_dest (elim failure as (λ x. M.World) [
            | none ↦ w'
            | some e ↦ M.log (codes "field-docket: closing store: " ++ message e) w'
          ])
          ≡ at_dest w) [ none ↦ closed | some e ↦ logs _ w' ∙ closed ]

  -- What a snapshot that succeeds has done, with the store as it was when it was opened.
  abbrev pub IsCopied : StoreTarget → M.World → M.World → Type 0
  IsCopied t w w' =
      (w1 : M.World) × (st : Store M) × (open_store M.platform t.path (warn M t w) ≡ (w1, ok st))
      × (V.file w' (V.place dest) ≡ some (0o600, V.image w1))

  snapshot_opened-copies :
      {w1 w' : M.World} (st : Store M) (rh : M.Handle)
      → st.read_db ≡ some rh
      → snapshot_opened M dest (w1, ok st) ≡ (w', none)
      → V.file w' (V.place dest) ≡ some (0o600, V.image w1)
  unfolding snapshot_opened
  snapshot_opened-copies {w1} {w'} st rh reads h =
      let (w2, failure) = snapshot (disk M st.read_db) dest w1 in
      ap at_dest (sym (ap (λ x. x.0) h))
      ∙ close_at_end-at_dest st w2
      ∙ (snapshot-done (disk M st.read_db) V (subst (λ r. IsDisk (disk M r) V) (sym reads) (S rh))
          (ap (λ f. (w2, f)) (ap (λ x. x.1) h))).0

  snapshot_target-copies :
      (t : StoreTarget) (w : M.World) {w' : M.World}
      → snapshot_target M dest t w ≡ (w', none)
      → IsCopied t w w'
  unfolding snapshot_target snapshot_opened
  snapshot_target-copies t w {w'} h = by_store (open_store M.platform t.path (warn M t w)) refl h
    where
      by_store :
          (r : M.World × Result (Store M))
          → open_store M.platform t.path (warn M t w) ≡ r
          → snapshot_opened M dest r ≡ (w', none)
          → IsCopied t w w'
      by_store (w1, err e) opened h' = cc
      by_store (w1, ok st) opened h' =
          let (rh, reads) = open_store-reads M.platform t.path (warn M t w) opened in
          (w1, st, opened, snapshot_opened-copies st rh reads h')

  module _ (H : Host) (F : Files) (unmarshal : Bytes → Result File) (quote : Bytes → Bytes) where
    settled-copies :
        (path : Bytes) (w : M.World) {w' : M.World}
        → snapshot_settled M H F unmarshal quote (path, dest ∷ []) w ≡ (w', none)
        → (t : StoreTarget) × (resolve_store H F unmarshal path ≡ ok t) × IsCopied t w w'
    unfolding snapshot_settled
    settled-copies path w {w'} h = by_target (resolve_store H F unmarshal path) refl h
      where
        by_target :
            (r : Result StoreTarget)
            → resolve_store H F unmarshal path ≡ r
            → elim r as (λ x. M.World × Option Error) [
              | err e ↦ (w, some e)
              | ok t ↦ snapshot_target M dest t w
            ]
              ≡ (w', none)
            → (t : StoreTarget) × (resolve_store H F unmarshal path ≡ ok t) × IsCopied t w w'
        by_target (err e) resolved h' = cc
        by_target (ok t) resolved h' = (t, resolved, snapshot_target-copies t w h')

    after_snapshot-returned :
        (r : M.World × Option Error) {w' : M.World}
        → after_snapshot M H F unmarshal quote r ≡ (w', returned)
        → r ≡ (w', none)
    after_snapshot-returned (w, none) h = cc
    after_snapshot-returned (w, some e) h = cc

    -- Over operations that behave as documented, where logging and the closing of the handles
    -- leave the destination alone, and for any settings before a destination that is no flag:
    -- when `field-docket snapshot` returns, it has opened the store that the last setting leads
    -- to, served or not, and the destination is a file that only its owner may read and that
    -- holds that docket as it was once opened.
    pub main-copies :
        (ss : List Setting) (w : M.World) {w' : M.World}
        → read_flag dest ≡ positional
        → main M H F unmarshal quote (codes "snapshot" ∷ (spell ss ++ dest ∷ [])) w ≡ (w', returned)
        → (t : StoreTarget) × (resolve_store H F unmarshal (last_value [] ss) ≡ ok t)
          × IsCopied t w w'
    unfolding main compare_bytes
    main-copies ss w {w'} plain h =
        let parsed =
          parse_flags-spell [] ss (dest ∷ [])
          ∙ parse_flags-stray (last_value [] ss) dest [] plain in
        settled-copies (last_value [] ss) w (
          rw (run_snapshot, parsed) at
            (after_snapshot-returned (run_snapshot M H F unmarshal quote (spell ss ++ dest ∷ []) w)
              h))
