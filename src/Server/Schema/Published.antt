-- ===== src/Server/Schema/Published.antt =====
-- What the published schemas say.
use field_docket.Base.{
  ◌≡◌, refl, sym, ap, ◌∙◌, false, List, [], ◌∷◌, Option, none, some, Bytes, codes, Bool-cases,
  Option-cases, inl, inr,
}
use field_docket.Base.Compare.{same, same_iff, compare_bytes}
use field_docket.Go.Errors.{Result}
use field_docket.Server.Record.{scope_project}
use field_docket.Server.Schema.{
  Property, Schema, property, replaced, assign, must_schema, json_string, scope_kinds, max_limit,
  scope_kind_name, limit_name, record_schema, review_schema, ◌>>=◌,
}

pub some-injective : {A : Type 0} {a b : A} → some a ≡ some b → a ≡ b
some-injective h = cc

pub bind-some :
    {A B : Type 0} (o : Option A) (next : A → Option B) {b : B}
    → (o >>= next) ≡ some b
    → (a : A) × (o ≡ some a) × (next a ≡ some b)
bind-some none next h = cc
bind-some (some a) next h = (a, refl, h)

property-replaced :
    (name : Bytes) (write : Property → Property) (ps : List (Bytes × Property))
    → property name (replaced write name ps)
      ≡ elim (property name ps) [ none ↦ none | some q ↦ some (write q) ]
unfolding property
property-replaced name write [] = refl
property-replaced name write ((n, p) ∷ ps) = elim (Bool-cases (same name n)) [
  | inl e ↦ rw (e, e) refl
  | inr e ↦ rw (e, e) (property-replaced name write ps)
]

property-kept :
    (name other : Bytes) (write : Property → Property) (ps : List (Bytes × Property))
    → same other name ≡ false
    → property other (replaced write name ps) ≡ property other ps
unfolding property
property-kept name other write [] h = refl
property-kept name other write ((n, p) ∷ ps) h = elim (Bool-cases (same name n)) [
  | inl e ↦ rw (e, ← (same_iff name n).0 e, h) refl
  | inr e ↦ rw (e, property-kept name other write ps h) refl
]

assign-found :
    (name : Bytes) (write : Property → Property) (s : Schema) {q : Property}
    → property name s.properties ≡ some q
    → assign name write s ≡ some (record s { properties = replaced write name s.properties })
unfolding assign
assign-found name write s e = rw (assign, e) refl

assign-absent :
    (name : Bytes) (write : Property → Property) (s : Schema)
    → property name s.properties ≡ none
    → assign name write s ≡ none
unfolding assign
assign-absent name write s e = rw (assign, e) refl

-- An assignment that does not panic writes the property that it names and no other.
assign-some :
    (name : Bytes) (write : Property → Property) (s : Schema) {s' : Schema}
    → assign name write s ≡ some s'
    → (q : Property) × (property name s.properties ≡ some q)
      × (property name s'.properties ≡ some (write q))
      × ((other : Bytes)
          → same other name ≡ false
          → property other s'.properties ≡ property other s.properties)
assign-some name write s {s'} h = elim (Option-cases (property name s.properties)) [
  | inl e ↦ let none' = sym (assign-absent name write s e) ∙ h in cc
  | inr (q, e) ↦
      let written : s'.properties ≡ replaced write name s.properties =
        ap (λ t. t.properties) (some-injective (sym h ∙ assign-found name write s e)) in
      (
        q,
        e,
        ap (property name) written ∙ property-replaced name write s.properties ∙ rw e refl,
        λ other apart.
            ap (property other) written ∙ property-kept name other write s.properties apart,
      )
]

-- The vocabulary and the default of `scope_kind` in a recorded input.
pub record_schema-scope_kind :
    (inferred : Result Schema) {s : Schema}
    → record_schema inferred ≡ some s
    → (q : Property) × (property scope_kind_name s.properties ≡ some q)
      × (q.enum ≡ scope_kinds)
      × (q.default ≡ some (json_string scope_project))
unfolding record_schema
record_schema-scope_kind inferred h =
    let (s, _, h) = bind-some (must_schema inferred) _ h in
    let (s1, first, h) = bind-some (assign scope_kind_name _ s) _ h in
    let (q, _, at, _) = assign-some scope_kind_name _ s first in
    let (q1, was, now, _) = assign-some scope_kind_name _ s1 h in
    let same_q = some-injective (sym at ∙ was) in (_, now, ap (λ p. p.enum) (sym same_q), refl)

-- The bounds and the default of `limit` in a review's input.
pub review_schema-limit :
    (inferred : Result Schema) {s : Schema}
    → review_schema inferred ≡ some s
    → (q : Property) × (property limit_name s.properties ≡ some q)
      × (q.minimum ≡ some 1)
      × (q.maximum ≡ some max_limit)
      × (q.default ≡ some (codes "50"))
unfolding review_schema compare_bytes
review_schema-limit inferred h =
    let (s, _, h) = bind-some (must_schema inferred) _ h in
    let (s1, first, h) = bind-some (assign limit_name _ s) _ h in
    let (s2, second, h) = bind-some (assign limit_name _ s1) _ h in
    let (s3, third, h) = bind-some (assign limit_name _ s2) _ h in
    let (q, _, at1, _) = assign-some limit_name _ s first in
    let (q1, was1, at2, _) = assign-some limit_name _ s1 second in
    let (q2, was2, at3, _) = assign-some limit_name _ s2 third in
    let (q3, _, _, kept) = assign-some scope_kind_name _ s3 h in
    let e1 = some-injective (sym at1 ∙ was1) in
    let e2 = some-injective (sym at2 ∙ was2) in
    (
      _,
      kept limit_name refl ∙ at3,
      ap (λ p. p.minimum) (sym e2),
      refl,
      ap (λ p. p.default) (sym e2) ∙ ap (λ p. p.default) (sym e1),
    )
