-- ===== src/Store/Open/Accounts.antt =====
-- internal/store/store.go: what becomes of the handles that `Open` opens.
use field_docket.Base.{
  ℕ, ◌≡◌, refl, sym, ap, ◌∙◌, true, false, List, [], ◌∷◌, ◌++◌, append_assoc, append-nil, reverse,
  Bytes, codes, Option, none, some,
}
use field_docket.Go.Errors.{Error, wrap, is_exist, Result, ok, err}
use field_docket.Go.Path.{dir}
use field_docket.Store.Closing.{Handles, close, close_handle}
use field_docket.Store.Closing.Released.{open_handles, close-log}
use field_docket.Store.Opening.{initialize}
use field_docket.Store.Opening.Unchanged.{initialize-part}
use field_docket.Store.Open.{
  Platform, connection, Opened, give_up, start, open_read, connect, close_new, create_file,
  open_store, dsn,
}

-- What `sql.Open` adds to the handles that were opened.
abbrev pub added : {A : Type 0} → List A → Result A → List A
added opened (ok h) = opened ++ h ∷ []
added opened (err e) = opened

-- The driver's lists of the handles that it has opened and of those that it was told to close.
-- Only `sql.Open`, when it succeeds, and `Close` add to them.
pub record Accounts (P : Platform) : Type 0 where
  pub opened : P.World → List P.Handle
  pub closed : P.World → List P.Handle

abbrev pub IsKept : {P : Platform} → Accounts P → P.World → P.World → Type 0
IsKept L w w' = (L.opened w' ≡ L.opened w) × (L.closed w' ≡ L.closed w)

pub record IsAccounted (P : Platform) (L : Accounts P) : Type 0 where
  pub make_dirs : (p : Bytes) (m : ℕ) (w : P.World) → IsKept L w (P.make_dirs p m w).0
  pub create_new : (p : Bytes) (m : ℕ) (w : P.World) → IsKept L w (P.create_new p m w).0
  pub close_file : (f : P.NewFile) (w : P.World) → IsKept L w (P.close_file f w).0
  pub set_max_open : (h : P.Handle) (n : ℕ) (w : P.World) → IsKept L w (P.set_max_open h n w)
  pub ping : (h : P.Handle) (w : P.World) → IsKept L w (P.ping h w).0
  pub migrate : (h : P.Handle) (w : P.World) → IsKept L w (P.migrate h w).0
  pub wait : (w : P.World) (d : ℕ) → IsKept L w (P.wait w d).0
  pub open_db :
      (d : Bytes) (w : P.World)
      → (L.opened (P.open_db d w).0 ≡ added (L.opened w) (P.open_db d w).1)
        × (L.closed (P.open_db d w).0 ≡ L.closed w)
  pub close :
      (h : P.Handle) (w : P.World)
      → (L.opened (P.close h w).0 ≡ L.opened w) × (L.closed (P.close h w).0 ≡ L.closed w ++ h ∷ [])

module _ (P : Platform) (L : Accounts P) (A : IsAccounted P L) where
  -- From a world with these lists: an error leaves all that was opened closed, and a store holds
  -- all that was opened.
  abbrev pub IsSettled : List P.Handle → List P.Handle → Opened P → Type 0
  IsSettled o c (w, err e) =
      (hs : List P.Handle) × (L.opened w ≡ o ++ reverse hs) × (L.closed w ≡ c ++ hs)
  IsSettled o c (w, ok st) =
      (L.opened w ≡ o ++ reverse (open_handles P.pool (some st))) × (L.closed w ≡ c)

  close_handle-opened :
      (prefix : Bytes) (h : Option P.Handle) (w : P.World)
      → L.opened (close_handle P.pool prefix h w).0 ≡ L.opened w
  unfolding close_handle
  close_handle-opened prefix none w = refl
  close_handle-opened prefix (some h) w = (A.close h w).0

  pub close-opened :
      (st : Handles P.pool) (w : P.World) → L.opened (close P.pool (some st) w).0.0 ≡ L.opened w
  unfolding close
  close-opened st w = close_handle-opened _ st.write_db _ ∙ close_handle-opened _ st.read_db w

  give_up-IsSettled :
      (o c : List P.Handle) (st : Handles P.pool) (w : P.World) (e : Error)
      → L.opened w ≡ o ++ reverse (open_handles P.pool (some st))
      → L.closed w ≡ c
      → IsSettled o c (give_up P st w e)
  unfolding give_up
  give_up-IsSettled o c st w e ho hc = (
    open_handles P.pool (some st),
    close-opened st w ∙ ho,
    (close-log P.pool L.closed (λ h w. (A.close h w).1) (some st) w).0
        ∙ ap (λ l. l ++ open_handles P.pool (some st)) hc,
  )

  start-IsSettled :
      (o c : List P.Handle) (wh rh : P.Handle) (w : P.World)
      → L.opened w ≡ o ++ wh ∷ rh ∷ []
      → L.closed w ≡ c
      → IsSettled o c (start P wh rh w)
  unfolding start
  start-IsSettled o c wh rh w ho hc =
      let st : Handles P.pool = record { read_db = some rh; write_db = some wh } in
      let C = connection P wh in
      let ho' =
        initialize-part C L.opened (λ v. (A.ping wh v).0) (λ v. (A.migrate wh v).0)
          (λ v d. (A.wait v d).0) w
        ∙ ho in
      let hc' =
        initialize-part C L.closed (λ v. (A.ping wh v).1) (λ v. (A.migrate wh v).1)
          (λ v d. (A.wait v d).1) w
        ∙ hc in
      elim (initialize C w).1
        as (λ failure. IsSettled o c (elim failure as (λ x. Opened P) [
          | some e ↦ give_up P st (initialize C w).0 e
          | none ↦ ((initialize C w).0, ok st)
        ])) [ some e ↦ give_up-IsSettled o c st (initialize C w).0 e ho' hc' | none ↦ (ho', hc') ]

  open_read-IsSettled :
      (o c : List P.Handle) (path : Bytes) (wh : P.Handle) (w : P.World)
      → L.opened w ≡ o ++ wh ∷ []
      → L.closed w ≡ c
      → IsSettled o c (open_read P path wh w)
  unfolding open_read
  open_read-IsSettled o c path wh w ho hc =
      let w1 = P.set_max_open wh 1 w in
      let ho1 = (A.set_max_open wh 1 w).0 ∙ ho in
      let hc1 = (A.set_max_open wh 1 w).1 ∙ hc in
      elim (P.open_db (dsn path false) w1).1
          as (λ r.
            L.opened (P.open_db (dsn path false) w1).0 ≡ added (L.opened w1) r
            → IsSettled o c (elim r as (λ x. Opened P) [
              | err e ↦
                  give_up P (record { read_db = none; write_db = some wh })
                    (P.open_db (dsn path false) w1).0 (wrap (codes "opening store for reading") e)
              | ok rh ↦ start P wh rh (P.open_db (dsn path false) w1).0
            ])) [
              | err e ↦ λ h.
                  give_up-IsSettled o c (record { read_db = none; write_db = some wh }) _
                    (wrap (codes "opening store for reading") e) (h ∙ ho1)
                    ((A.open_db (dsn path false) w1).1 ∙ hc1)
              | ok rh ↦ λ h.
                  start-IsSettled o c wh rh _
                    (h ∙ ap (λ l. l ++ rh ∷ []) ho1 ∙ append_assoc o (wh ∷ []) (rh ∷ []))
                    ((A.open_db (dsn path false) w1).1 ∙ hc1)
            ]
        ((A.open_db (dsn path false) w1).0)

  connect-IsSettled :
      (o c : List P.Handle) (path : Bytes) (w : P.World)
      → L.opened w ≡ o
      → L.closed w ≡ c
      → IsSettled o c (connect P path w)
  unfolding connect
  connect-IsSettled o c path w ho hc =
      elim (P.open_db (dsn path true) w).1
          as (λ r.
            L.opened (P.open_db (dsn path true) w).0 ≡ added (L.opened w) r
            → IsSettled o c (elim r as (λ x. Opened P) [
              | err e ↦
                  give_up P (record { read_db = none; write_db = none })
                    (P.open_db (dsn path true) w).0 (wrap (codes "opening store for writing") e)
              | ok wh ↦ open_read P path wh (P.open_db (dsn path true) w).0
            ])) [
              | err e ↦ λ h.
                  give_up-IsSettled o c (record { read_db = none; write_db = none }) _
                    (wrap (codes "opening store for writing") e) (h ∙ ho ∙ sym (append-nil o))
                    ((A.open_db (dsn path true) w).1 ∙ hc)
              | ok wh ↦ λ h.
                  open_read-IsSettled o c path wh _ (h ∙ ap (λ l. l ++ wh ∷ []) ho)
                    ((A.open_db (dsn path true) w).1 ∙ hc)
            ]
        ((A.open_db (dsn path true) w).0)

  close_new-IsSettled :
      (o c : List P.Handle) (path : Bytes) (f : P.NewFile) (w : P.World)
      → L.opened w ≡ o
      → L.closed w ≡ c
      → IsSettled o c (close_new P path f w)
  unfolding close_new
  close_new-IsSettled o c path f w ho hc =
      let (o', c') = A.close_file f w in
      elim (P.close_file f w).1
        as (λ r. IsSettled o c (elim r as (λ x. Opened P) [
          | some e ↦ ((P.close_file f w).0, err (wrap (codes "closing newly created store file") e))
          | none ↦ connect P path (P.close_file f w).0
        ])) [
          | some e ↦ ([], o' ∙ ho ∙ sym (append-nil o), c' ∙ hc ∙ sym (append-nil c))
          | none ↦ connect-IsSettled o c path (P.close_file f w).0 (o' ∙ ho) (c' ∙ hc)
        ]

  create_file-IsSettled :
      (o c : List P.Handle) (path : Bytes) (w : P.World)
      → L.opened w ≡ o
      → L.closed w ≡ c
      → IsSettled o c (create_file P path w)
  unfolding create_file
  create_file-IsSettled o c path w ho hc =
      let (o', c') = A.create_new path 0o600 w in
      let w' = (P.create_new path 0o600 w).0 in
      elim (P.create_new path 0o600 w).1
        as (λ r. IsSettled o c (elim r as (λ x. Opened P) [
          | ok f ↦ close_new P path f w'
          | err e ↦ elim (is_exist e) as (λ x. Opened P) [
            | true ↦ connect P path w'
            | false ↦ (w', err (wrap (codes "creating store file") e))
          ]
        ])) [
          | ok f ↦ close_new-IsSettled o c path f w' (o' ∙ ho) (c' ∙ hc)
          | err e ↦
              elim (is_exist e)
                as (λ b. IsSettled o c (elim b as (λ x. Opened P) [
                  | true ↦ connect P path w'
                  | false ↦ (w', err (wrap (codes "creating store file") e))
                ])) [
                  | true ↦ connect-IsSettled o c path w' (o' ∙ ho) (c' ∙ hc)
                  | false ↦ ([], o' ∙ ho ∙ sym (append-nil o), c' ∙ hc ∙ sym (append-nil c))
                ]
        ]

  -- Where only `sql.Open` and `Close` open and close handles: when `Open` fails, every handle
  -- that it opened is closed, in the order opposite to that of the opening; when it returns a
  -- store, it has closed none, and the handles that it opened are those that the store holds.
  pub open_store-IsSettled :
      (path : Bytes) (w : P.World) → IsSettled (L.opened w) (L.closed w) (open_store P path w)
  unfolding open_store
  open_store-IsSettled path w =
      let (o', c') = A.make_dirs (dir path) 0o700 w in
      elim (P.make_dirs (dir path) 0o700 w).1
        as (λ r. IsSettled (L.opened w) (L.closed w) (elim r as (λ x. Opened P) [
          | some e ↦
              ((P.make_dirs (dir path) 0o700 w).0, err (wrap (codes "creating store directory") e))
          | none ↦ create_file P path (P.make_dirs (dir path) 0o700 w).0
        ])) [
          | some e ↦ ([], o' ∙ sym (append-nil _), c' ∙ sym (append-nil _))
          | none ↦ create_file-IsSettled _ _ path (P.make_dirs (dir path) 0o700 w).0 o' c'
        ]
