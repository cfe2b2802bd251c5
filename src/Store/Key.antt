-- ===== src/Store/Key.antt =====
-- The sort key of the listing: `recorded_at`, then `id`, the newest first.
pub mod Order
use field_docket.Base.{
  ℕ, ◌≡◌, refl, ap, Bool, true, false, ◌&&◌, List, [], ◌∷◌, ◌++◌, arith, Ordering, Bytes,
  if◌then◌else◌, All, select,
}
use field_docket.Base.Compare.{
  compare_bytes, and_then, flip, is_lt, compare_bytes-eq, compare_bytes-flip, compare_bytes_trans,
  compare_bytes_refl,
}
use field_docket.Store.Types.{Record}

-- SQLite's comparison of the row values (recorded_at, id).
unfoldable pub compare_key : Bytes → Bytes → Bytes → Bytes → Ordering
compare_key at id at' id' = and_then (compare_bytes at at') (compare_bytes id id')

-- `a` is recorded before `b`.
unfoldable pub precedes : Record → Record → Bool
unfolding compare_key
precedes a b = is_lt (compare_key a.recorded_at a.id b.recorded_at b.id)

unfoldable pub insert_desc : Record → List Record → List Record
insert_desc r [] = r ∷ []
insert_desc r (x ∷ xs) =
    let rest = insert_desc r xs in if precedes r x then x ∷ rest else r ∷ x ∷ xs

-- ORDER BY recorded_at DESC, id DESC
unfoldable pub order_desc : List Record → List Record
unfolding insert_desc
order_desc [] = []
order_desc (r ∷ rs) = insert_desc r (order_desc rs)
