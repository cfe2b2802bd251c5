-- ===== src/Server/Schema/Admission.antt =====
-- What a published schema lets through: the keywords `enum`, `minimum` and `maximum` of JSON Schema,
-- read on the input that the handler gets.
use field_docket.Base.{
  ℤ, pos, negsuc, ℕ, Bool, true, false, ◌&&◌, ◌||◌, List, [], ◌∷◌, Option, none, some, Bytes, leb,
  any_of,
}
use field_docket.Base.Compare.{same}
use field_docket.Go.Text.{is_empty}
use field_docket.Server.Record.{RecordInput}
use field_docket.Server.Review.{ReviewInput}
use field_docket.Server.Schema.{Property, Schema, property, scope_kind_name, limit_name}

unfoldable pub listed : List Bytes → Bytes → Bool
listed [] v = true
listed (k ∷ ks) v = any_of (same v) (k ∷ ks)

unfoldable pub at_least : Option ℕ → ℤ → Bool
at_least none n = true
at_least (some low) (pos n) = leb low n
at_least (some low) (negsuc n) = false

unfoldable pub at_most : Option ℕ → ℤ → Bool
at_most none n = true
at_most (some high) (pos n) = leb n high
at_most (some high) (negsuc n) = true

-- The test of a property; a name that the schema lacks is not tested.
unfoldable pub tested : (Property → Bool) → Option Property → Bool
tested test none = true
tested test (some q) = test q

-- A recorded input behind the injection of defaults: an omitted `scope_kind` has become the default.
unfoldable pub admits_record : Schema → RecordInput → Bool
unfolding listed property tested
admits_record s input =
    tested (λ q. listed q.enum input.scope_kind) (property scope_kind_name s.properties)

-- A review's input behind the injection of defaults; an omitted `scope_kind` is empty.
unfoldable pub admits_review : Schema → ReviewInput → Bool
unfolding listed property tested at_least at_most
admits_review s input =
    tested (λ q. at_least q.minimum input.limit && at_most q.maximum input.limit)
      (property limit_name s.properties)
    && tested (λ q. is_empty input.scope_kind || listed q.enum input.scope_kind)
        (property scope_kind_name s.properties)
