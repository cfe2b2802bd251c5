-- ===== src/Store/Sqlite/Parse.antt =====
-- Reading a WHERE clause back: the SQL text that `where` writes determines its conditions.
use field_docket.Base.{
  ℕ, zero, suc, ◌≤◌, ◌<◌, ◌≡◌, refl, ap, ap₂, ◌∙◌, List, [], ◌∷◌, ◌++◌, map, append_assoc, arith,
  Option, none, some, Bytes, codes, ◌==◌, if◌then◌else◌, length,
}
use mathlib.Core.List.{map-append}
use field_docket.Base.Compare.{same, same_iff}
use field_docket.Go.Text.{join_with}
use field_docket.Store.Filter.Clauses.{
  Clause, class_eq, scope_kind_eq, scope_ref_eq, recorded_ge, key_lt, recorded_lt, clause_text,
  clause_args, predicate_text, predicate_args,
}
use field_docket.Store.Sqlite.{Arg, text}

-- What is left of a text behind a prefix.
unfoldable pub strip : Bytes → Bytes → Option Bytes
strip [] s = some s
strip (p ∷ ps) [] = none
strip (p ∷ ps) (c ∷ s) = let rest = strip ps s in if p == c then rest else none

strip-append : (p s : Bytes) → strip p (p ++ s) ≡ some s
unfolding strip
strip-append [] s = refl
strip-append (c ∷ p) s = ground (arith, strip-append p s)

-- The forms of a condition, by the number of arguments that each binds.
pub data Form : Type 0 where
  unary : (Bytes → Clause) → Form
  binary : (Bytes → Bytes → Clause) → Form

-- The condition at the head of a text, with the rest of the text.
parse_form : Bytes → Option (Form × Bytes)
parse_form s = elim (strip (codes "class = ?") s) [
  | some r ↦ some (unary class_eq, r)
  | none ↦ elim (strip (codes "scope_kind = ?") s) [
    | some r ↦ some (unary scope_kind_eq, r)
    | none ↦ elim (strip (codes "scope_ref = ?") s) [
      | some r ↦ some (unary scope_ref_eq, r)
      | none ↦ elim (strip (codes "recorded_at >= ?") s) [
        | some r ↦ some (unary recorded_ge, r)
        | none ↦ elim (strip (codes "(recorded_at, id) < (?, ?)") s) [
          | some r ↦ some (binary key_lt, r)
          | none ↦ elim (strip (codes "recorded_at < ?") s) [
            | some r ↦ some (unary recorded_lt, r)
            | none ↦ none
          ]
        ]
      ]
    ]
  ]
]

abbrev form_of : Clause → Form
form_of (class_eq v) = unary class_eq
form_of (scope_kind_eq v) = unary scope_kind_eq
form_of (scope_ref_eq v) = unary scope_ref_eq
form_of (recorded_ge v) = unary recorded_ge
form_of (key_lt v w) = binary key_lt
form_of (recorded_lt v) = unary recorded_lt

parse_form-clause_text :
    (c : Clause) (s : Bytes) → parse_form (clause_text c ++ s) ≡ some (form_of c, s)
unfolding parse_form strip
parse_form-clause_text (class_eq v) s = refl
parse_form-clause_text (scope_kind_eq v) s = refl
parse_form-clause_text (scope_ref_eq v) s = refl
parse_form-clause_text (recorded_ge v) s = refl
parse_form-clause_text (key_lt v w) s = refl
parse_form-clause_text (recorded_lt v) s = refl

-- A condition with its arguments, and the arguments that are left.
bind_form : Form → List Arg → Option (Clause × List Arg)
bind_form (unary c) (text v ∷ as') = some (c v, as')
bind_form (binary c) (text v ∷ text w ∷ as') = some (c v w, as')
bind_form f as' = none

bind_form-form_of :
    (c : Clause) (as' : List Arg)
    → bind_form (form_of c) (map text (clause_args c) ++ as') ≡ some (c, as')
unfolding bind_form
bind_form-form_of (class_eq v) as' = refl
bind_form-form_of (scope_kind_eq v) as' = refl
bind_form-form_of (scope_ref_eq v) as' = refl
bind_form-form_of (recorded_ge v) as' = refl
bind_form-form_of (key_lt v w) as' = refl
bind_form-form_of (recorded_lt v) as' = refl

-- The conditions of a WHERE clause, with the text behind them and the arguments that are left.
abbrev Parsed : Type 0
Parsed = Option (List Clause × Bytes × List Arg)

abbrev cons_parsed : Clause → Parsed → Parsed
cons_parsed c none = none
cons_parsed c (some (cs, s, as')) = some (c ∷ cs, s, as')

abbrev pub bind_some {ℓ κ} : {A : Type ℓ} {B : Type κ} → Option A → (A → Option B) → Option B
bind_some none f = none
bind_some (some a) f = f a

parse_conditions : ℕ → Bytes → List Arg → Parsed
parse_conditions zero s as' = none
parse_conditions (suc fuel) s as' = bind_some (parse_form s) λ (form, rest).
    bind_some (bind_form form as') λ (c, left). elim (strip (codes " AND ") rest) [
      | some more ↦ cons_parsed c (parse_conditions fuel more left)
      | none ↦ some (c ∷ [], rest, left)
    ]

parse_predicate : Bytes → List Arg → Parsed
parse_predicate s as' = elim (strip (codes " WHERE ") s) [
  | some conditions ↦ parse_conditions (length as') conditions as'
  | none ↦ some ([], s, as')
]

-- Text that ends a predicate.
pub record IsEnd (s : Bytes) : Type 0 where
  pub no_and : strip (codes " AND ") s ≡ none
  pub no_where : strip (codes " WHERE ") s ≡ none

abbrev continue : ℕ → Clause → Bytes → List Arg → Parsed
continue fuel c rest left = elim (strip (codes " AND ") rest) [
  | some more ↦ cons_parsed c (parse_conditions fuel more left)
  | none ↦ some (c ∷ [], rest, left)
]

parse_conditions-step :
    (fuel : ℕ) (c : Clause) (rest : Bytes) (left : List Arg)
    → parse_conditions (suc fuel) (clause_text c ++ rest) (map text (clause_args c) ++ left)
      ≡ continue fuel c rest left
unfolding parse_conditions
parse_conditions-step fuel c rest left =
    rw (parse_form-clause_text c rest)
      (ap (λ o. bind_some o (λ (d, more). continue fuel d rest more)) (bind_form-form_of c left))

split_args :
    (c : Clause) (cs : List Clause) (as' : List Arg)
    → map text (predicate_args (c ∷ cs)) ++ as'
      ≡ map text (clause_args c) ++ (map text (predicate_args cs) ++ as')
split_args c cs as' = rw (map-append, append_assoc)

parse_conditions-join :
    (fuel : ℕ) (c : Clause) (cs : List Clause) (s : Bytes) (as' : List Arg)
    → length cs < fuel
    → IsEnd s
    → parse_conditions fuel
        (join_with (codes " AND ") (map clause_text (c ∷ cs)) ++ s)
        (map text (predicate_args (c ∷ cs)) ++ as')
      ≡ some (c ∷ cs, s, as')
unfolding join_with strip
parse_conditions-join zero c cs s as' h e = elim h [ ]
parse_conditions-join (suc fuel) c [] s as' h e =
    ap (parse_conditions (suc fuel) (clause_text c ++ s)) (split_args c [] as')
    ∙ parse_conditions-step fuel c s as'
    ∙ rw e.no_and
parse_conditions-join (suc fuel) c (d ∷ cs) s as' h e =
    let j = join_with (codes " AND ") (map clause_text (d ∷ cs)) in
    let left = map text (predicate_args (d ∷ cs)) ++ as' in
    ap₂ (parse_conditions (suc fuel)) (append_assoc (clause_text c) (codes " AND " ++ j) s)
      (split_args c (d ∷ cs) as')
    ∙ parse_conditions-step fuel c (codes " AND " ++ (j ++ s)) left
    ∙ ap
        (λ (o : Option Bytes). elim o [
          | some more ↦ cons_parsed c (parse_conditions fuel more left)
          | none ↦ some (c ∷ [], codes " AND " ++ (j ++ s), left)
        ])
        (strip-append (codes " AND ") (j ++ s))
    ∙ ap (cons_parsed c) (parse_conditions-join fuel d cs s as' (omega arith) e)

args-enough :
    (cs : List Clause) (as' : List Arg) → length cs ≤ length (map text (predicate_args cs) ++ as')
args-enough [] as' = omega arith
args-enough (class_eq v ∷ cs) as' = omega (arith, args-enough cs as')
args-enough (scope_kind_eq v ∷ cs) as' = omega (arith, args-enough cs as')
args-enough (scope_ref_eq v ∷ cs) as' = omega (arith, args-enough cs as')
args-enough (recorded_ge v ∷ cs) as' = omega (arith, args-enough cs as')
args-enough (key_lt v w ∷ cs) as' = omega (arith, args-enough cs as')
args-enough (recorded_lt v ∷ cs) as' = omega (arith, args-enough cs as')

parse_predicate-text :
    (cs : List Clause) (s : Bytes) (as' : List Arg)
    → IsEnd s
    → parse_predicate (predicate_text cs ++ s) (map text (predicate_args cs) ++ as')
      ≡ some (cs, s, as')
unfolding parse_predicate
parse_predicate-text [] s as' e = rw (e.no_where, parse_predicate)
parse_predicate-text (c ∷ cs) s as' e =
    let j = join_with (codes " AND ") (map clause_text (c ∷ cs)) in
    let bound = map text (predicate_args (c ∷ cs)) ++ as' in
    ap
      (λ (o : Option Bytes). elim o [
        | some conditions ↦ parse_conditions (length bound) conditions bound
        | none ↦ some ([], codes " WHERE " ++ (j ++ s), bound)
      ])
      (strip-append (codes " WHERE ") (j ++ s))
    ∙ parse_conditions-join _ c cs s as' (args-enough (c ∷ cs) as') e

-- Runs a query: the conditions between `head` and `tail`, and the arguments behind theirs.
unfoldable pub select_where : Bytes → Bytes → Bytes → List Arg → Option (List Clause × List Arg)
unfolding strip parse_predicate parse_conditions parse_form bind_form
select_where head tail sql as' = bind_some (strip head sql) λ rest.
    bind_some (parse_predicate rest as')
      λ (cs, end, left). if same end tail then some (cs, left) else none

pub select_where-text :
    (head tail : Bytes) (cs : List Clause) (as' : List Arg)
    → IsEnd tail
    → select_where head tail
        (head ++ (predicate_text cs ++ tail))
        (map text (predicate_args cs) ++ as')
      ≡ some (cs, as')
unfolding select_where
select_where-text head tail cs as' e =
    rw (strip-append head _, parse_predicate-text cs tail as' e, (same_iff tail tail).1 refl)
