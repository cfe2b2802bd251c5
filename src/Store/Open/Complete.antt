-- ===== src/Store/Open/Complete.antt =====
-- internal/store/store.go: the handles of a store that `Open` returns.
use field_docket.Base.{◌≡◌, refl, arith, Bool, true, false, Bytes, Option, none, some}
use field_docket.Go.Errors.{ok, err}
use field_docket.Store.Closing.{Handles}
use field_docket.Store.Open.{
  Platform, Opened, give_up, start, open_read, connect, close_new, create_file, open_store,
}

module _ (P : Platform) where
  abbrev is_there : Option P.Handle → Bool
  is_there none = false
  is_there (some h) = true

  abbrev is_complete : Opened P → Bool
  is_complete (w, err e) = true
  is_complete (w, ok st) = is_there st.read_db

  abbrev IsComplete : Opened P → Type 0
  IsComplete r = is_complete r ≡ true

  start-IsComplete : (wh rh : P.Handle) (w : P.World) → IsComplete (start P wh rh w)
  unfolding start give_up
  start-IsComplete wh rh w = ground arith

  open_read-IsComplete :
      (path : Bytes) (wh : P.Handle) (w : P.World) → IsComplete (open_read P path wh w)
  unfolding open_read give_up
  open_read-IsComplete path wh w = ground (arith, start-IsComplete wh)

  connect-IsComplete : (path : Bytes) (w : P.World) → IsComplete (connect P path w)
  unfolding connect give_up
  connect-IsComplete path w = ground (arith, open_read-IsComplete path)

  close_new-IsComplete :
      (path : Bytes) (f : P.NewFile) (w : P.World) → IsComplete (close_new P path f w)
  unfolding close_new
  close_new-IsComplete path f w = ground (arith, connect-IsComplete path)

  create_file-IsComplete : (path : Bytes) (w : P.World) → IsComplete (create_file P path w)
  unfolding create_file
  create_file-IsComplete path w = ground (arith, connect-IsComplete path, close_new-IsComplete path)

  open_store-IsComplete : (path : Bytes) (w : P.World) → IsComplete (open_store P path w)
  unfolding open_store
  open_store-IsComplete path w = ground (arith, create_file-IsComplete path)

  pub open_store-reads :
      (path : Bytes) (w : P.World) {w' : P.World} {st : Handles P.pool}
      → open_store P path w ≡ (w', ok st)
      → (rh : P.Handle) × (st.read_db ≡ some rh)
  open_store-reads path w {w'} {st} h =
      elim (st.read_db) as (λ r. is_there r ≡ true → (rh : P.Handle) × (r ≡ some rh)) [
        | none ↦ λ no. cc
        | some rh ↦ λ _. (rh, refl)
      ]
        (rw (h) at (open_store-IsComplete path w))
