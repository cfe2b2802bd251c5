-- ===== src/Store/Tally.antt =====
-- Counting rows by class: GROUP BY class, ORDER BY COUNT(*) DESC, class ASC.
pub mod Counts
use field_docket.Base.{
  ℕ, suc, ◌+◌, Bool, ◌&&◌, ◌||◌, List, [], ◌∷◌, ◌==◌, ltb, if◌then◌else◌, Bytes,
}
use field_docket.Base.Compare.{compare_bytes, is_lt, same}
use field_docket.Store.Types.{Record, ClassCount}

-- One more row of a class.
unfoldable pub count_class : Bytes → List ClassCount → List ClassCount
count_class c [] = record { class = c; count = 1 } ∷ []
count_class c (g ∷ gs) =
    let rest = count_class c gs in
    if same g.class c then record { class = g.class; count = suc g.count } ∷ gs else g ∷ rest

unfoldable pub group_classes : List Record → List ClassCount
unfolding count_class
group_classes [] = []
group_classes (r ∷ rs) = count_class r.class (group_classes rs)

abbrev pub ahead : ClassCount → ClassCount → Bool
ahead g h = ltb h.count g.count || g.count == h.count && is_lt (compare_bytes g.class h.class)

unfoldable pub insert_group : ClassCount → List ClassCount → List ClassCount
insert_group g [] = g ∷ []
insert_group g (h ∷ hs) = let rest = insert_group g hs in if ahead h g then h ∷ rest else g ∷ h ∷ hs

unfoldable pub order_groups : List ClassCount → List ClassCount
unfolding insert_group
order_groups [] = []
order_groups (g ∷ gs) = insert_group g (order_groups gs)

-- The rows of the tally.
unfoldable pub tally : List Record → List ClassCount
unfolding group_classes order_groups
tally rs = order_groups (group_classes rs)
