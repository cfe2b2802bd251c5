-- ===== src/Store/Closing.antt =====
-- internal/store/store.go: `Close`, which releases both handles.
pub mod Released
use field_docket.Base.{Option, none, some, Bytes, codes}
use field_docket.Go.Errors.{Error, wrap, join}

-- The driver's handles, and `Close` on one of them.
pub record Pool : Type 1 where
  pub World : Type 0
  pub Handle : Type 0
  pub close : Handle → World → World × Option Error

-- `errors.Join(errs...)` of the errors that are there.
unfoldable pub join_errors : Option Error → Option Error → Option Error
join_errors none e = e
join_errors (some e) none = some e
join_errors (some e) (some e') = some (join e e')

module _ (P : Pool) where
  -- `Store`, as far as its handles go.
  pub record Handles : Type 0 where
    pub read_db : Option P.Handle
    pub write_db : Option P.Handle

  -- One `if` of the function. The handle is nil behind it.
  unfoldable pub close_handle : Bytes → Option P.Handle → P.World → P.World × Option Error
  close_handle prefix none w = (w, none)
  close_handle prefix (some h) w =
      let (w', failure) = P.close h w in
      (w', elim failure [ none ↦ none | some e ↦ some (wrap prefix e) ])

  abbrev pub closed : Handles
  closed = record { read_db = none; write_db = none }

  -- `Close` on a store, which may be nil.
  unfoldable pub close : Option Handles → P.World → (P.World × Option Handles) × Option Error
  close none w = ((w, none), none)
  close (some st) w =
      let (w1, e1) = close_handle (codes "closing store read handle") st.read_db w in
      let (w2, e2) = close_handle (codes "closing store write handle") st.write_db w1 in
      ((w2, some closed), join_errors e1 e2)
