-- ===== src/Server/Schema.antt =====
-- internal/server: the input schemas that the tools publish (`mustSchema`, `jsonString`,
-- `recordSchema`, `reviewSchema`, `scopeKinds`, `maxLimit`).
pub mod Admission
pub mod Published
use field_docket.Base.{
  ℕ, Bool, true, false, List, [], ◌∷◌, Option, none, some, Bytes, codes, if◌then◌else◌,
}
use field_docket.Base.Compare.{same}
use field_docket.Go.Errors.{Result, ok, err}
use field_docket.Go.Json.{marshal_string}
use field_docket.Server.Record.{scope_project, scope_user}

-- The schema of one property, as far as the source writes it; nil slices and pointers are empty.
-- A bound is a float64; those written here are whole numbers.
pub record Property : Type 0 where
  pub description : Bytes
  pub enum : List Bytes
  pub default : Option Bytes
  pub minimum : Option ℕ
  pub maximum : Option ℕ

-- `jsonschema.Schema`
pub record Schema : Type 0 where
  pub properties : List (Bytes × Property)
  pub required : List Bytes

-- `scopeKinds`
abbrev pub scope_kinds : List Bytes
scope_kinds = scope_project ∷ scope_user ∷ []

-- `maxLimit`
abbrev pub max_limit : ℕ
max_limit = 500

-- `s.Properties[name]`, nil where the map has no such name.
unfoldable pub property : Bytes → List (Bytes × Property) → Option Property
property name [] = none
property name ((n, q) ∷ rest) = if same name n then some q else property name rest

abbrev pub replaced :
    (Property → Property) → Bytes → List (Bytes × Property) → List (Bytes × Property)
replaced write name [] = []
replaced write name ((n, q) ∷ rest) =
    let others = replaced write name rest in
    if same name n then (n, write q) ∷ rest else (n, q) ∷ others

-- An assignment to a field of `s.Properties[name]`; none is the panic on a nil pointer.
unfoldable pub assign : Bytes → (Property → Property) → Schema → Option Schema
unfolding property
assign name write s = elim (property name s.properties) [
  | none ↦ none
  | some q ↦ some (record s { properties = replaced write name s.properties })
]

infixl 5 ◌>>=◌
abbrev pub ◌>>=◌ {ℓ κ} : {A : Type ℓ} {B : Type κ} → Option A → (A → Option B) → Option B
none >>= next = none
some a >>= next = next a

-- `mustSchema`, for what `jsonschema.For` returns; none is its panic.
unfoldable pub must_schema : Result Schema → Option Schema
must_schema (ok s) = some s
must_schema (err e) = none

-- `jsonString`, which does not panic: a string can always be encoded.
unfoldable pub json_string : Bytes → Bytes
json_string s = marshal_string s

abbrev pub scope_kind_name : Bytes
scope_kind_name = codes "scope_kind"

abbrev pub limit_name : Bytes
limit_name = codes "limit"

-- `recordSchema`, for the schema of `recordInput`.
unfoldable pub record_schema : Result Schema → Option Schema
unfolding must_schema assign json_string
record_schema inferred = do
  s ← must_schema inferred
  s ← assign scope_kind_name (λ q. record q { enum = scope_kinds }) s
  assign scope_kind_name (λ q. record q { default = some (json_string scope_project) }) s

-- `reviewSchema`, for the schema of `reviewInput`.
unfoldable pub review_schema : Result Schema → Option Schema
unfolding must_schema assign
review_schema inferred = do
  s ← must_schema inferred
  s ← assign limit_name (λ q. record q { default = some (codes "50") }) s
  s ← assign limit_name (λ q. record q { minimum = some 1 }) s
  s ← assign limit_name (λ q. record q { maximum = some max_limit }) s
  assign scope_kind_name (λ q. record q { enum = scope_kinds }) s
