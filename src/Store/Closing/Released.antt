-- ===== src/Store/Closing/Released.antt =====
-- Closing a store closes every handle that is open, once, and leaves none.
use field_docket.Base.{
  ◌≡◌, refl, List, [], ◌∷◌, ◌++◌, append_assoc, append-nil, Option, none, some, sym, ap, ◌∙◌, Bytes,
}
use field_docket.Store.Closing.{Pool, Handles, close_handle, join_errors, close, closed}

abbrev handle_list : {A : Type 0} → Option A → List A
handle_list none = []
handle_list (some h) = h ∷ []

module _ (P : Pool) where
  -- The handles of a store that are open, the read handle first.
  abbrev pub open_handles : Option (Handles P) → List P.Handle
  open_handles none = []
  open_handles (some st) = handle_list st.read_db ++ handle_list st.write_db

  close-closed : (w : P.World) → close P (some (closed P)) w ≡ ((w, some (closed P)), none)
  unfolding close close_handle join_errors
  close-closed w = refl

  module _ (log : P.World → List P.Handle)
      (closes : (h : P.Handle) (w : P.World) → log (P.close h w).0 ≡ log w ++ h ∷ []) where
    close_handle-log :
        (prefix : Bytes) (h : Option P.Handle) (w : P.World)
        → log (close_handle P prefix h w).0 ≡ log w ++ handle_list h
    unfolding close_handle
    close_handle-log prefix none w = sym (append-nil (log w))
    close_handle-log prefix (some h) w = closes h w

    -- Whatever errors the driver reports: closing a store closes each of its open handles, the
    -- read handle first, and closing it again closes nothing and reports no error. `log` lists the
    -- handles that the driver was told to close.
    pub close-log :
        (st : Option (Handles P)) (w : P.World)
        → let ((w', st'), failure) = close P st w in
          (log w' ≡ log w ++ open_handles st)
          × (open_handles st' ≡ [])
          × (close P st' w' ≡ ((w', st'), none))
    unfolding close
    close-log none w = (sym (append-nil (log w)), refl, refl)
    close-log (some st) w = (
      close_handle-log _ st.write_db _
          ∙ ap (λ l. l ++ handle_list st.write_db) (close_handle-log _ st.read_db w)
          ∙ append_assoc (log w) (handle_list st.read_db) (handle_list st.write_db),
      refl,
      close-closed _,
    )
