-- ===== src/Store/Filter/Clauses.antt =====
-- The SQL conditions that a filter can set, what each selects, and that `where` renders them.
use field_docket.Base.{
  ◌≡◌, refl, sym, ap, ap₂, append-nil, Bool, true, false, not, ◌&&◌, List, [], ◌∷◌, ◌++◌, map, inl,
  inr, Bool-cases, if◌then◌else◌, Bytes, codes, concat, concat-append,
}
use mathlib.Core.List.{map-append}
use field_docket.Base.Compare.{compare_bytes, is_lt, same}
use field_docket.Go.Text.{is_empty}
use field_docket.Go.Time.{is_zero}
use field_docket.Store.Clock.{format_time}
use field_docket.Store.Key.{compare_key}
use field_docket.Store.Types.{Filter, Record}
use field_docket.Store.Filter.{Draft, draft, add_if, add_cursor, where_text, where_sql}

pub data Clause : Type 0 where
  class_eq : Bytes → Clause
  scope_kind_eq : Bytes → Clause
  scope_ref_eq : Bytes → Clause
  recorded_ge : Bytes → Clause
  key_lt : Bytes → Bytes → Clause
  recorded_lt : Bytes → Clause

abbrev pub clause_text : Clause → Bytes
clause_text (class_eq v) = codes "class = ?"
clause_text (scope_kind_eq v) = codes "scope_kind = ?"
clause_text (scope_ref_eq v) = codes "scope_ref = ?"
clause_text (recorded_ge v) = codes "recorded_at >= ?"
clause_text (key_lt v w) = codes "(recorded_at, id) < (?, ?)"
clause_text (recorded_lt v) = codes "recorded_at < ?"

abbrev pub clause_args : Clause → List Bytes
clause_args (class_eq v) = v ∷ []
clause_args (scope_kind_eq v) = v ∷ []
clause_args (scope_ref_eq v) = v ∷ []
clause_args (recorded_ge v) = v ∷ []
clause_args (key_lt v w) = v ∷ w ∷ []
clause_args (recorded_lt v) = v ∷ []

-- SQL's reading of a condition on a row, under the BINARY collation.
abbrev pub holds : Record → Clause → Bool
holds r (class_eq v) = same r.class v
holds r (scope_kind_eq v) = same r.scope_kind v
holds r (scope_ref_eq v) = same r.scope_ref v
holds r (recorded_ge v) = not (is_lt (compare_bytes r.recorded_at v))
holds r (key_lt v w) = is_lt (compare_key r.recorded_at r.id v w)
holds r (recorded_lt v) = is_lt (compare_bytes r.recorded_at v)

-- Conditions joined by AND; no condition selects every row.
abbrev pub hold_all : List Clause → Record → Bool
hold_all [] r = true
hold_all (c ∷ cs) r = holds r c && hold_all cs r

abbrev pub predicate_text : List Clause → Bytes
predicate_text cs = where_text (map clause_text cs)

abbrev pub predicate_args : List Clause → List Bytes
predicate_args cs = concat (map clause_args cs)

abbrev pub when : Bool → Clause → List Clause
when b c = if b then c ∷ [] else []

unfoldable pub cursor_clauses : Filter → List Clause
cursor_clauses f =
    if is_zero f.before
    then []
    else if is_empty f.before_id
    then recorded_lt (format_time f.before) ∷ []
    else key_lt (format_time f.before) f.before_id ∷ []

-- The conditions that a filter sets: one for each field that is not empty or zero.
unfoldable pub clauses_of : Filter → List Clause
unfolding cursor_clauses
clauses_of f =
    when (not (is_empty f.class)) (class_eq f.class)
    ++ when (not (is_empty f.scope_kind)) (scope_kind_eq f.scope_kind)
    ++ when (not (is_empty f.scope_ref)) (scope_ref_eq f.scope_ref)
    ++ when (not (is_zero f.since)) (recorded_ge (format_time f.since))
    ++ cursor_clauses f

-- The two slices hold these conditions.
abbrev Drafts : List Clause → Draft → Type 0
Drafts cs d = (map clause_text cs ≡ d.clauses) × (predicate_args cs ≡ d.args)

snoc-Drafts :
    (c : Clause) (cs : List Clause) (d : Draft)
    → Drafts cs d
    → Drafts (cs ++ c ∷ []) (add_if true (clause_text c) (clause_args c) d)
snoc-Drafts c cs d h = (
  rw map-append (ap (λ t. t ++ clause_text c ∷ []) h.0),
  rw (map-append, concat-append, append-nil) (ap (λ t. t ++ clause_args c) h.1),
)

add_if-Drafts :
    (b : Bool) (c : Clause) (cs : List Clause) (d : Draft)
    → Drafts cs d
    → Drafts (cs ++ when b c) (add_if b (clause_text c) (clause_args c) d)
add_if-Drafts true c cs d h = snoc-Drafts c cs d h
add_if-Drafts false c cs d h = rw append-nil h

add_cursor-Drafts :
    (f : Filter) (cs : List Clause) (d : Draft)
    → Drafts cs d
    → Drafts (cs ++ cursor_clauses f) (add_cursor f d)
unfolding add_cursor cursor_clauses
add_cursor-Drafts f cs d h = elim (Bool-cases (is_zero f.before)) [
  | inl unset ↦ rw (unset, append-nil) h
  | inr set ↦ elim (Bool-cases (is_empty f.before_id)) [
    | inl coarse ↦ rw (set, coarse) (snoc-Drafts (recorded_lt (format_time f.before)) cs d h)
    | inr exact ↦ rw (set, exact) (snoc-Drafts (key_lt (format_time f.before) f.before_id) cs d h)
  ]
]

-- `where` renders exactly the conditions that the filter sets, joined by AND in one order, and
-- binds their arguments in that order.
pub where_sql-clauses_of :
    (f : Filter) → where_sql f ≡ (predicate_text (clauses_of f), predicate_args (clauses_of f))
unfolding where_sql clauses_of draft
where_sql-clauses_of f =
    let h1 = add_if-Drafts (not (is_empty f.class)) (class_eq f.class) [] _ (refl, refl) in
    let h2 = add_if-Drafts (not (is_empty f.scope_kind)) (scope_kind_eq f.scope_kind) _ _ h1 in
    let h3 = add_if-Drafts (not (is_empty f.scope_ref)) (scope_ref_eq f.scope_ref) _ _ h2 in
    let h4 = add_if-Drafts (not (is_zero f.since)) (recorded_ge (format_time f.since)) _ _ h3 in
    let h = add_cursor-Drafts f _ _ h4 in
    ap₂ (λ (cs : List Bytes) (as' : List Bytes). (where_text cs, as')) (sym h.0) (sym h.1)
