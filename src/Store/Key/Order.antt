-- ===== src/Store/Key/Order.antt =====
-- The listing order: sorting by the key, and cutting a sorted list at one of its keys.
use field_docket.Base.{
  suc, ◌≡◌, refl, ap, ◌∙◌, Bool, true, false, List, [], ◌∷◌, ◌++◌, arith, Ordering, Bytes, inl, inr,
  Bool-cases, if◌then◌else◌, All, All-map_of, All-of_append, length, select, select-eq_self,
}
use field_docket.Base.Compare.{
  is_lt, compare_bytes-eq, compare_bytes-flip, compare_bytes_trans, compare_bytes_refl,
}
use field_docket.Store.Types.{Record}
use field_docket.Store.Key.{compare_key, precedes, insert_desc, order_desc}

pub compare_key_trans :
    (at id at' id' at'' id'' : Bytes)
    → compare_key at id at' id' ≡ Ordering.lt
    → compare_key at' id' at'' id'' ≡ Ordering.lt
    → compare_key at id at'' id'' ≡ Ordering.lt
unfolding compare_key
compare_key_trans at id at' id' at'' id'' p q = ground (
  arith,
  compare_bytes_trans at at' at'',
  compare_bytes_trans id id' id'',
  compare_bytes-eq at at',
  compare_bytes-eq at' at'',
)

pub is_lt-lt : (o : Ordering) → is_lt o ≡ true → o ≡ Ordering.lt
is_lt-lt o h = ground arith

pub precedes_trans :
    (a b c : Record) → precedes a b ≡ true → precedes b c ≡ true → precedes a c ≡ true
unfolding precedes
precedes_trans a b c p q = ap is_lt (
    compare_key_trans a.recorded_at a.id b.recorded_at b.id c.recorded_at c.id (is_lt-lt _ p)
      (is_lt-lt _ q))

pub precedes_irrefl : (a : Record) → precedes a a ≡ false
unfolding precedes
precedes_irrefl a = rw (compare_bytes_refl, compare_bytes_refl)

pub precedes_asymm : (a b : Record) → precedes a b ≡ true → precedes b a ≡ false
unfolding precedes
precedes_asymm a b p =
    ground (arith, compare_bytes-flip a.recorded_at b.recorded_at, compare_bytes-flip a.id b.id)

-- Rows with different ids are ordered.
pub precedes_total : (a b : Record) → (a.id ≡ b.id → ⊥) → precedes a b ≡ false → precedes b a ≡ true
unfolding precedes
precedes_total a b ne p = ground (
  arith,
  compare_bytes-flip a.recorded_at b.recorded_at,
  compare_bytes-flip a.id b.id,
  compare_bytes-eq a.id b.id,
)

-- The newest first, and no two with one key.
abbrev pub IsNewestFirst : List Record → Type 0
IsNewestFirst [] = Unit
IsNewestFirst (x ∷ xs) = All (λ y. precedes y x ≡ true) xs × IsNewestFirst xs

-- Rows of a table with the primary key `id`.
abbrev pub DistinctIds : List Record → Type 0
DistinctIds [] = Unit
DistinctIds (x ∷ xs) = All (λ y. x.id ≡ y.id → ⊥) xs × DistinctIds xs

module _ {ℓ} (P : Record → Type ℓ) where
  insert_desc-All : (r : Record) (xs : List Record) → P r → All P xs → All P (insert_desc r xs)
  unfolding insert_desc
  insert_desc-All r [] p h = (p, tt)
  insert_desc-All r (x ∷ xs) p h = elim (Bool-cases (precedes r x)) [
    | inl older ↦ rw older (h.0, insert_desc-All r xs p h.1)
    | inr newer ↦ rw newer (p, h)
  ]

  pub order_desc-All : (xs : List Record) → All P xs → All P (order_desc xs)
  unfolding order_desc
  order_desc-All [] h = tt
  order_desc-All (x ∷ xs) h = insert_desc-All x (order_desc xs) h.0 (order_desc-All xs h.1)

  pub select_keeps-All : (p : Record → Bool) (xs : List Record) → All P xs → All P (select p xs)
  unfolding select
  select_keeps-All p [] h = tt
  select_keeps-All p (x ∷ xs) h = elim (Bool-cases (p x)) [
    | inl pass ↦ rw pass (h.0, select_keeps-All p xs h.1)
    | inr fail ↦ rw fail (select_keeps-All p xs h.1)
  ]

insert_desc-IsNewestFirst :
    (r : Record) (xs : List Record)
    → All (λ y. r.id ≡ y.id → ⊥) xs
    → IsNewestFirst xs
    → IsNewestFirst (insert_desc r xs)
unfolding insert_desc
insert_desc-IsNewestFirst r [] d h = (tt, tt)
insert_desc-IsNewestFirst r (x ∷ xs) d h = elim (Bool-cases (precedes r x)) [
  | inl older ↦ rw older (
    insert_desc-All (λ y. precedes y x ≡ true) r xs older h.0,
    insert_desc-IsNewestFirst r xs d.1 h.1,
  )
  | inr newer ↦
      let first = precedes_total r x d.0 newer in
      rw newer ((first, All-map_of _ xs (λ y q. precedes_trans y x r q first) h.0), h)
]

-- Rows with distinct ids are listed strictly newest first.
pub order_desc-IsNewestFirst : (xs : List Record) → DistinctIds xs → IsNewestFirst (order_desc xs)
unfolding order_desc
order_desc-IsNewestFirst [] d = tt
order_desc-IsNewestFirst (x ∷ xs) d =
    insert_desc-IsNewestFirst x (order_desc xs) (order_desc-All _ xs d.0)
      (order_desc-IsNewestFirst xs d.1)

length-insert_desc : (r : Record) (xs : List Record) → length (insert_desc r xs) ≡ suc (length xs)
unfolding insert_desc
length-insert_desc r [] = refl
length-insert_desc r (x ∷ xs) = ground (arith, length-insert_desc r xs)

pub length-order_desc : (xs : List Record) → length (order_desc xs) ≡ length xs
unfolding order_desc
length-order_desc [] = refl
length-order_desc (x ∷ xs) =
    omega (arith, length-insert_desc x (order_desc xs), length-order_desc xs)

pub select-DistinctIds :
    (p : Record → Bool) (xs : List Record) → DistinctIds xs → DistinctIds (select p xs)
unfolding select
select-DistinctIds p [] d = tt
select-DistinctIds p (x ∷ xs) d = elim (Bool-cases (p x)) [
  | inl pass ↦ rw pass (select_keeps-All _ p xs d.0, select-DistinctIds p xs d.1)
  | inr fail ↦ rw fail (select-DistinctIds p xs d.1)
]

-- A row in front of all others is listed first.
insert_desc-newest :
    (r : Record) (xs : List Record) → All (λ y. precedes y r ≡ true) xs → insert_desc r xs ≡ r ∷ xs
unfolding insert_desc
insert_desc-newest r [] h = refl
insert_desc-newest r (x ∷ xs) h = rw (precedes_asymm x r h.0)

select-insert_desc :
    (p : Record → Bool) (r : Record) (xs : List Record)
    → All (λ y. r.id ≡ y.id → ⊥) xs
    → IsNewestFirst xs
    → select p (insert_desc r xs) ≡ (if p r then insert_desc r (select p xs) else select p xs)
unfolding insert_desc select
select-insert_desc p r [] d h = refl
select-insert_desc p r (x ∷ xs) d h = elim (Bool-cases (precedes r x)) [
  | inl older ↦ ground (arith, select-insert_desc p r xs d.1 h.1)
  | inr newer ↦
      let first = precedes_total r x d.0 newer in
      let rest = All-map_of _ xs (λ y q. precedes_trans y x r q first) h.0 in
      ground (arith, insert_desc-newest r (select p xs) (select_keeps-All _ p xs rest))
]

-- Selecting rows and listing them commute.
pub select-order_desc :
    (p : Record → Bool) (xs : List Record)
    → DistinctIds xs
    → select p (order_desc xs) ≡ order_desc (select p xs)
unfolding order_desc select
select-order_desc p [] d = refl
select-order_desc p (x ∷ xs) d =
    select-insert_desc p x (order_desc xs) (order_desc-All _ xs d.0)
      (order_desc-IsNewestFirst xs d.1)
    ∙ ground (arith, select-order_desc p xs d.1)

-- The rows before one of a listing are those that follow it.
pub select-precedes :
    (xs ys : List Record) (k : Record)
    → IsNewestFirst (xs ++ k ∷ ys)
    → select (λ r. precedes r k) (xs ++ k ∷ ys) ≡ ys
unfolding select
select-precedes [] ys k h = rw (precedes_irrefl k) (select-eq_self _ ys h.0)
select-precedes (x ∷ xs) ys k h =
    let later = (All-of_append _ xs (k ∷ ys) h.0).1.0 in
    rw (precedes_asymm k x later) (select-precedes xs ys k h.1)
