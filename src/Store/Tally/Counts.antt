-- ===== src/Store/Tally/Counts.antt =====
-- What a tally says of the rows: it accounts for each of them, under its class.
use field_docket.Base.{
  ℕ, suc, ◌+◌, ◌≡◌, refl, ◌∙◌, List, [], ◌∷◌, arith, if◌then◌else◌, Bytes, length, select,
}
use field_docket.Base.Compare.{same, same_iff}
use field_docket.Store.Types.{Record, ClassCount}
use field_docket.Store.Tally.{count_class, group_classes, insert_group, order_groups, tally}

abbrev pub total_count : List ClassCount → ℕ
total_count [] = 0
total_count (g ∷ gs) = g.count + total_count gs

-- The count that the tally gives for a class, 0 if it has no row for it.
abbrev pub count_of : Bytes → List ClassCount → ℕ
count_of c [] = 0
count_of c (g ∷ gs) = (if same g.class c then g.count else 0) + count_of c gs

total_count-count_class :
    (c : Bytes) (gs : List ClassCount) → total_count (count_class c gs) ≡ suc (total_count gs)
unfolding count_class
total_count-count_class c [] = refl
total_count-count_class c (g ∷ gs) = ground (arith, total_count-count_class c gs)

total_count-group_classes : (rs : List Record) → total_count (group_classes rs) ≡ length rs
unfolding group_classes
total_count-group_classes [] = refl
total_count-group_classes (r ∷ rs) =
    omega (arith, total_count-count_class r.class (group_classes rs), total_count-group_classes rs)

total_count-insert_group :
    (g : ClassCount) (gs : List ClassCount)
    → total_count (insert_group g gs) ≡ g.count + total_count gs
unfolding insert_group
total_count-insert_group g [] = refl
total_count-insert_group g (h ∷ hs) = ground (arith, total_count-insert_group g hs)

total_count-order_groups : (gs : List ClassCount) → total_count (order_groups gs) ≡ total_count gs
unfolding order_groups
total_count-order_groups [] = refl
total_count-order_groups (g ∷ gs) =
    omega (arith, total_count-insert_group g (order_groups gs), total_count-order_groups gs)

-- The counts add up to the number of rows.
pub total_count-tally : (rs : List Record) → total_count (tally rs) ≡ length rs
unfolding tally
total_count-tally rs = total_count-order_groups (group_classes rs) ∙ total_count-group_classes rs

module _ (c : Bytes) where
  count_of-count_class :
      (d : Bytes) (gs : List ClassCount)
      → count_of c (count_class d gs) ≡ (if same d c then 1 else 0) + count_of c gs
  unfolding count_class
  count_of-count_class d [] = refl
  count_of-count_class d (g ∷ gs) = ground (arith, count_of-count_class d gs, same_iff g.class d)

  count_of-group_classes :
      (rs : List Record) → count_of c (group_classes rs) ≡ length (select (λ r. same r.class c) rs)
  unfolding group_classes select
  count_of-group_classes [] = refl
  count_of-group_classes (r ∷ rs) =
      ground (arith, count_of-count_class r.class (group_classes rs), count_of-group_classes rs)

  count_of-insert_group :
      (g : ClassCount) (gs : List ClassCount) → count_of c (insert_group g gs) ≡ count_of c (g ∷ gs)
  unfolding insert_group
  count_of-insert_group g [] = refl
  count_of-insert_group g (h ∷ hs) = ground (arith, count_of-insert_group g hs)

  count_of-order_groups : (gs : List ClassCount) → count_of c (order_groups gs) ≡ count_of c gs
  unfolding order_groups
  count_of-order_groups [] = refl
  count_of-order_groups (g ∷ gs) =
      omega (arith, count_of-insert_group g (order_groups gs), count_of-order_groups gs)

  -- Each class is counted as often as it occurs.
  pub count_of-tally :
      (rs : List Record) → count_of c (tally rs) ≡ length (select (λ r. same r.class c) rs)
  unfolding tally
  count_of-tally rs = count_of-order_groups (group_classes rs) ∙ count_of-group_classes rs
