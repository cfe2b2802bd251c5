-- ===== src/Store/Sqlite/Memory.antt =====
-- A database in memory that behaves as the package expects of SQLite: it reads the SQL text that
-- it is given, and keeps a list of rows with distinct ids. It shows that the laws can be met.
use field_docket.Base.{
  ℕ, ◌≡◌, refl, sym, ap, ap₂, ◌∙◌, List, [], ◌∷◌, ◌++◌, map, append-nil, Option, none, some, Bytes,
  codes, length, take, select, All, All-append,
}
use native.Mathlib.Decide.{ℕ_discrete}
use field_docket.Go.Errors.{Error, foreign, Result, ok, err, ok-injective}
use field_docket.Store.Types.{Record, ClassCount}
use field_docket.Store.Key.{order_desc}
use field_docket.Store.Key.Order.{DistinctIds}
use field_docket.Store.Tally.{tally}
use field_docket.Store.Filter.Clauses.{Clause, hold_all, predicate_text, predicate_args}
use field_docket.Store.Sqlite.{
  Sqlite, IsSqlite, Arg, text, int, Rows, query_failed, rows, page_sql, count_sql, tally_sql,
  columns,
}
use field_docket.Store.Sqlite.Parse.{strip, select_where, select_where-text, IsEnd}

-- The rows of a table, which have distinct ids.
abbrev pub Table : Type 0
Table = (rs : List Record) × DistinctIds rs

abbrev pub refuse : Error
refuse = foreign (codes "SQL logic error")

abbrev pub page_head : Bytes
page_head = codes "SELECT " ++ (columns ++ codes " FROM observation")

abbrev pub page_tail : Bytes
page_tail = codes " ORDER BY recorded_at DESC, id DESC LIMIT ?"

abbrev pub count_head : Bytes
count_head = codes "SELECT COUNT(*) FROM observation"

abbrev pub tally_head : Bytes
tally_head = codes "SELECT class, COUNT(*) FROM observation"

abbrev pub tally_tail : Bytes
tally_tail = codes " GROUP BY class ORDER BY COUNT(*) DESC, class ASC"

Bytes_discrete : Discrete Bytes
Bytes_discrete = hlevel ℕ_discrete

unfoldable pub found : Table → List Clause → List Record
unfolding select
found t cs = select (hold_all cs) t.0

unfoldable pub page_of : Table → Option (List Clause × List Arg) → Rows Record
unfolding found order_desc
page_of t (some (cs, int n ∷ [])) = rows (take n (order_desc (found t cs)))
page_of t _ = query_failed refuse

unfoldable pub count_of : Table → Option (List Clause × List Arg) → Result ℕ
unfolding found
count_of t (some (cs, left)) = ok (length (found t cs))
count_of t none = err refuse

unfoldable pub tally_of : Table → Option (List Clause × List Arg) → Rows ClassCount
unfolding found tally
tally_of t (some (cs, left)) = rows (tally (found t cs))
tally_of t none = query_failed refuse

tails : IsEnd page_tail × IsEnd [] × IsEnd tally_tail
unfolding strip
tails = (
  record { no_and = refl; no_where = refl },
  record { no_and = refl; no_where = refl },
  record { no_and = refl; no_where = refl },
)

-- A row whose id no other row has.
unfoldable pub fresh? : (id : Bytes) (rs : List Record) → Dec (All (λ r. r.id ≡ id → ⊥) rs)
unfolding Bytes_discrete
fresh? id [] = yes tt
fresh? id (r ∷ rs) = elim (Bytes_discrete r.id id) [
  | yes taken ↦ no (λ h. h.0 taken)
  | no other ↦ elim (fresh? id rs) [ yes rest ↦ yes (other, rest) | no clash ↦ no (λ h. clash h.1) ]
]

pub snoc-DistinctIds :
    (rs : List Record) (r : Record)
    → DistinctIds rs
    → All (λ q. q.id ≡ r.id → ⊥) rs
    → DistinctIds (rs ++ r ∷ [])
snoc-DistinctIds [] r d h = (tt, tt)
snoc-DistinctIds (q ∷ rs) r d h =
    (All-append _ rs (r ∷ []) d.0 (h.0, tt), snoc-DistinctIds rs r d.1 h.1)

-- The row that an INSERT binds.
unfoldable pub decode_row : List Arg → Option Record
decode_row (text a ∷ text b ∷ text c ∷ text d ∷ text e ∷ text f ∷ text g ∷ text h ∷ []) =
    some (record {
      id = a;
      recorded_at = b;
      observation = record {
        class = c;
        text = d;
        scope_kind = e;
        scope_ref = f;
        subject = g;
        agent = h;
      };
    })
decode_row _ = none

insert_if : (t : Table) (r : Record) → Dec (All (λ q. q.id ≡ r.id → ⊥) t.0) → Table × Option Error
insert_if t r (yes new) = ((t.0 ++ r ∷ [], snoc-DistinctIds t.0 r t.1 new), none)
insert_if t r (no clash) = (t, some (foreign (codes "UNIQUE constraint failed")))

unfoldable pub insert_of : Table → Option Record → Table × Option Error
unfolding insert_if fresh?
insert_of t (some r) = insert_if t r (fresh? r.id t.0)
insert_of t none = (t, some refuse)

abbrev pub memory : Sqlite
memory = record {
  State = Table;
  Tx = Table;
  table = λ t. t.0;
  visible = λ t. t.0;
  begin_read = λ t. ok t;
  query_records = λ t sql as'. page_of t (select_where page_head page_tail sql as');
  query_count = λ t sql as'. count_of t (select_where count_head [] sql as');
  query_tally = λ t sql as'. tally_of t (select_where tally_head tally_tail sql as');
  rollback = λ t. none;
  insert = λ t sql as'. insert_of t (decode_row as');
}

rows-injective : {A : Type 0} {a b : List A} → rows a ≡ rows b → a ≡ b
rows-injective h = cc

module _ (cs : List Clause) where
  select_count :
      select_where count_head [] (count_sql (predicate_text cs)) (map text (predicate_args cs))
      ≡ some (cs, [])
  select_count =
      ap₂ (select_where count_head []) (ap (λ p. count_head ++ p) (sym (append-nil _)))
        (sym (append-nil _))
      ∙ select_where-text count_head [] cs [] tails.1

  select_tally :
      select_where tally_head tally_tail
        (tally_sql (predicate_text cs))
        (map text (predicate_args cs))
      ≡ some (cs, [])
  select_tally =
      ap (select_where tally_head tally_tail (tally_sql (predicate_text cs))) (sym (append-nil _))
      ∙ select_where-text tally_head tally_tail cs [] tails.2

insert_if-laws :
    (t : Table) (r : Record) (new? : Dec (All (λ q. q.id ≡ r.id → ⊥) t.0))
    → ((insert_if t r new?).1 ≡ none → (insert_if t r new?).0.0 ≡ t.0 ++ r ∷ [])
      × ((e : Error) → (insert_if t r new?).1 ≡ some e → (insert_if t r new?).0.0 ≡ t.0)
unfolding insert_if
insert_if-laws t r (yes new) = (λ h. refl, λ e h. cc)
insert_if-laws t r (no clash) = (λ h. cc, λ e h. refl)

pub memory-IsSqlite : IsSqlite memory
unfolding page_of count_of tally_of insert_of decode_row
memory-IsSqlite = record {
  snapshot = λ s tx e. ap (λ (t : Table). t.0) (sym (ok-injective e));
  selects = λ t cs n rs e.
      rows-injective
        (sym e ∙ ap (page_of t) (select_where-text page_head page_tail cs (int n ∷ []) tails.0));
  counts = λ t cs n e. ok-injective (sym e ∙ ap (count_of t) (select_count cs));
  tallies = λ t cs gs e. rows-injective (sym e ∙ ap (tally_of t) (select_tally cs));
  inserts = λ t r e. (insert_if-laws t r (fresh? r.id t.0)).0 e;
  insert_fails = λ t r x e. (insert_if-laws t r (fresh? r.id t.0)).1 x e;
  primary_key = λ t. t.1;
}

-- The database answers the three queries of every list of conditions.
pub memory_reads :
    (t : Table) (cs : List Clause) (n : ℕ)
    → (memory.query_records t
          (page_sql (predicate_text cs))
          (map text (predicate_args cs) ++ int n ∷ [])
        ≡ rows (take n (order_desc (found t cs))))
      × (memory.query_count t (count_sql (predicate_text cs)) (map text (predicate_args cs))
          ≡ ok (length (found t cs)))
      × (memory.query_tally t (tally_sql (predicate_text cs)) (map text (predicate_args cs))
          ≡ rows (tally (found t cs)))
unfolding page_of count_of tally_of
memory_reads t cs n = (
  ap (page_of t) (select_where-text page_head page_tail cs (int n ∷ []) tails.0),
  ap (count_of t) (select_count cs),
  ap (tally_of t) (select_tally cs),
)
