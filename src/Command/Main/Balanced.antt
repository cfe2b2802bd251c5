-- ===== src/Command/Main/Balanced.antt =====
-- The handles of the store over a whole run of the command.
use field_docket.Base.{
  ℕ, ◌≡◌, refl, sym, ap, ◌∙◌, append-nil, List, [], ◌++◌, reverse, Bytes, codes, Option, none, some,
  if◌then◌else◌,
}
use field_docket.Go.Errors.{Error, message, Result, ok, err}
use field_docket.Store.Closing.{close}
use field_docket.Store.Closing.Released.{open_handles, close-log}
use field_docket.Store.Open.{open_store}
use field_docket.Store.Open.Accounts.{
  Accounts, IsKept, IsAccounted, IsSettled, close-opened, open_store-IsSettled,
}
use field_docket.Store.Snapshot.{snapshot}
use field_docket.Store.Snapshot.Unchanged.{snapshot-part}
use field_docket.Command.{StoreTarget}
use field_docket.Command.Main.{
  Machine, Store, Ended, returned, exited, disk, close_at_end, run, is_clean_shutdown, after_run,
  serve_opened, serve_target, usage_line, usage, suspect, warn, snapshot_opened, snapshot_target,
}

-- The machine's other operations open and close no handle of the store.
pub record IsQuiet (M : Machine) (L : Accounts M.platform) : Type 0 where
  pub log : (m : Bytes) (w : M.World) → IsKept L w (M.log m w)
  pub serve :
      (st : Option (Store M)) (e : Option Error) (w : M.World) → IsKept L w (M.serve st e w).0
  pub exec : (h : Option M.Handle) (q p : Bytes) (w : M.World) → IsKept L w (M.exec h q p w).0
  pub make_temp_dir : (d p : Bytes) (w : M.World) → IsKept L w (M.make_temp_dir d p w).0
  pub chmod : (p : Bytes) (m : ℕ) (w : M.World) → IsKept L w (M.chmod p m w).0
  pub rename : (p d : Bytes) (w : M.World) → IsKept L w (M.rename p d w).0
  pub remove_all : (p : Bytes) (w : M.World) → IsKept L w (M.remove_all p w).0
  pub print_line : (m : Bytes) (w : M.World) → IsKept L w (M.print_line m w).0
  pub print_defaults : (w : M.World) → IsKept L w (M.print_defaults w)

module _ (M : Machine) (L : Accounts M.platform) (A : IsAccounted M.platform L)
    (Q : IsQuiet M L) where
  -- All the handles that were opened since the lists were these are closed.
  abbrev pub IsBalanced : List M.Handle → List M.Handle → M.World → Type 0
  IsBalanced o c w = (hs : List M.Handle) × (L.opened w ≡ o ++ reverse hs) × (L.closed w ≡ c ++ hs)

  pub kept-IsBalanced :
      (o c : List M.Handle) (w w' : M.World) → IsKept L w w' → IsBalanced o c w → IsBalanced o c w'
  kept-IsBalanced o c w w' (ko, kc) (hs, ho, hc) = (hs, ko ∙ ho, kc ∙ hc)

  from-IsSettled :
      (w w' : M.World) (r : M.World × Result (Store M))
      → IsKept L w w'
      → IsSettled M.platform L A (L.opened w') (L.closed w') r
      → IsSettled M.platform L A (L.opened w) (L.closed w) r
  from-IsSettled w w' (v, err e) (ko, kc) (hs, ho, hc) =
      (hs, ho ∙ ap (λ l. l ++ reverse hs) ko, hc ∙ ap (λ l. l ++ hs) kc)
  from-IsSettled w w' (v, ok st) (ko, kc) (ho, hc) =
      (ho ∙ ap (λ l. l ++ reverse (open_handles M.pool (some st))) ko, hc ∙ kc)

  close_at_end-IsBalanced :
      (o c : List M.Handle) (st : Store M) (w : M.World)
      → IsSettled M.platform L A o c (w, ok st)
      → IsBalanced o c (close_at_end M st w)
  unfolding close_at_end
  close_at_end-IsBalanced o c st w (ho, hc) =
      let w' = (close M.pool (some st) w).0.0 in
      let closed : IsBalanced o c w' = (
        open_handles M.pool (some st),
        close-opened M.platform L A st w ∙ ho,
        (close-log M.pool L.closed (λ h v. (A.close h v).1) (some st) w).0
            ∙ ap (λ l. l ++ open_handles M.pool (some st)) hc,
      ) in
      elim (close M.pool (some st) w).1
        as (λ failure. IsBalanced o c (elim failure as (λ x. M.World) [
          | none ↦ w'
          | some e ↦ M.log (codes "field-docket: closing store: " ++ message e) w'
        ])) [ none ↦ closed | some e ↦ kept-IsBalanced o c w' _ (Q.log _ w') closed ]

  -- The handles of a store that is still held when nothing else opens or closes any.
  kept-IsSettled :
      (o c : List M.Handle) (st : Store M) (w w' : M.World)
      → IsKept L w w'
      → IsSettled M.platform L A o c (w, ok st)
      → IsSettled M.platform L A o c (w', ok st)
  kept-IsSettled o c st w w' (ko, kc) (ho, hc) = (ko ∙ ho, kc ∙ hc)

  snapshot-IsKept :
      (h : Option M.Handle) (dest : Bytes) (w : M.World) → IsKept L w (snapshot (disk M h) dest w).0
  snapshot-IsKept h dest w = (
    snapshot-part (disk M h) L.opened (λ d p v. (Q.make_temp_dir d p v).0)
        (λ q p v. (Q.exec h q p v).0) (λ p m v. (Q.chmod p m v).0) (λ p d v. (Q.rename p d v).0)
        (λ p v. (Q.remove_all p v).0) dest w,
    snapshot-part (disk M h) L.closed (λ d p v. (Q.make_temp_dir d p v).1)
        (λ q p v. (Q.exec h q p v).1) (λ p m v. (Q.chmod p m v).1) (λ p d v. (Q.rename p d v).1)
        (λ p v. (Q.remove_all p v).1) dest w,
  )

  warn-IsKept : (t : StoreTarget) (w : M.World) → IsKept L w (warn M t w)
  unfolding warn
  warn-IsKept t w =
      elim (t.unusable)
        as (λ u.
          IsKept L w
            (elim u as (λ x. M.World) [ none ↦ w | some why ↦ M.log (suspect M t.path) w ])) [
              | none ↦ (refl, refl)
              | some why ↦ Q.log _ w
            ]

  pub usage-IsKept : (w : M.World) → IsKept L w (usage M w)
  unfolding usage
  usage-IsKept w =
      elim (M.print_line (usage_line M) w).1
        as (λ f. IsKept L w (elim f as (λ x. M.World) [
          | some e ↦ (M.print_line (usage_line M) w).0
          | none ↦ M.print_defaults (M.print_line (usage_line M) w).0
        ])) [
          | some e ↦ Q.print_line (usage_line M) w
          | none ↦
              let (o1, c1) = Q.print_line (usage_line M) w in
              let (o2, c2) = Q.print_defaults (M.print_line (usage_line M) w).0 in
              (o2 ∙ o1, c2 ∙ c1)
        ]

  snapshot_opened-IsBalanced :
      (o c : List M.Handle) (dest : Bytes) (r : M.World × Result (Store M))
      → IsSettled M.platform L A o c r
      → IsBalanced o c (snapshot_opened M dest r).0
  unfolding snapshot_opened
  snapshot_opened-IsBalanced o c dest (w, err e) s = s
  snapshot_opened-IsBalanced o c dest (w, ok st) s =
      close_at_end-IsBalanced o c st (snapshot (disk M st.read_db) dest w).0
        (kept-IsSettled o c st w _ (snapshot-IsKept st.read_db dest w) s)

  pub snapshot_target-IsBalanced :
      (dest : Bytes) (t : StoreTarget) (w : M.World)
      → IsBalanced (L.opened w) (L.closed w) (snapshot_target M dest t w).0
  unfolding snapshot_target
  snapshot_target-IsBalanced dest t w =
      snapshot_opened-IsBalanced (L.opened w) (L.closed w) dest
        (open_store M.platform t.path (warn M t w))
        (from-IsSettled w (warn M t w) _ (warn-IsKept t w)
          (open_store-IsSettled M.platform L A t.path (warn M t w)))

  pub none-opened : (w w' : M.World) → IsKept L w w' → IsBalanced (L.opened w) (L.closed w) w'
  none-opened w w' (ko, kc) = ([], ko ∙ sym (append-nil _), kc ∙ sym (append-nil _))

  -- What a process that returns from `main` leaves.
  abbrev pub IsSound : List M.Handle → List M.Handle → Ended M → Type 0
  IsSound o c (w, returned) = IsBalanced o c w
  IsSound o c (w, exited) = Unit

  serve_opened-IsSound :
      (o c : List M.Handle) (r : M.World × Result (Store M))
      → IsSettled M.platform L A o c r
      → IsSound o c (serve_opened M r)
  unfolding serve_opened run
  serve_opened-IsSound o c (w, err e) s = tt
  serve_opened-IsSound o c (w, ok st) s =
      let (w', failure) = M.serve (some st) none w in
      elim (if is_clean_shutdown failure then none else failure)
        as (λ f. IsSound o c (after_run M (close_at_end M st) (w', f))) [
          | none ↦
              close_at_end-IsBalanced o c st w'
                (kept-IsSettled o c st w w' (Q.serve (some st) none w) s)
          | some e ↦ tt
        ]

  pub serve_target-IsSound :
      (t : StoreTarget) (w : M.World) → IsSound (L.opened w) (L.closed w) (serve_target M t w)
  unfolding serve_target run
  serve_target-IsSound t w =
      elim (t.unusable)
        as (λ u. IsSound (L.opened w) (L.closed w) (elim u as (λ x. Ended M) [
          | some why ↦
              after_run M (λ w'. w')
                (run M none (some why) (M.log (codes "field-docket: " ++ message why) w))
          | none ↦ serve_opened M (open_store M.platform t.path w)
        ])) [
          | none ↦
              serve_opened-IsSound _ _ (open_store M.platform t.path w)
                (open_store-IsSettled M.platform L A t.path w)
          | some why ↦
              let w1 = M.log (codes "field-docket: " ++ message why) w in
              let (w', failure) = M.serve none (some why) w1 in
              elim (if is_clean_shutdown failure then none else failure)
                as (λ f. IsSound (L.opened w) (L.closed w) (after_run M (λ v. v) (w', f))) [
                  | none ↦
                      let (o1, c1) = Q.log (codes "field-docket: " ++ message why) w in
                      let (o2, c2) = Q.serve none (some why) w1 in
                      none-opened w w' (o2 ∙ o1, c2 ∙ c1)
                  | some e ↦ tt
                ]
        ]
