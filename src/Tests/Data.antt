-- ===== src/Tests/Data.antt =====
-- The concrete inputs of the tests: two instants, a docket of two observations, and requests.
use field_docket.Base.{pos, arith, [], ◌∷◌, Bytes, codes, Option, some}
use field_docket.Go.Time.{Time, east, west}
use field_docket.Store.Types.{Observation, Record, Filter, empty_filter}
use field_docket.Store.Key.Order.{DistinctIds}
use field_docket.Store.Sqlite.Memory.{Table}
use field_docket.Server.Types.{CallToolRequest}
use field_docket.Server.Record.{RecordInput}
use field_docket.Server.Review.{ReviewInput}

-- 2026-07-24T00:13:20.123Z, in a zone two hours to the east.
abbrev pub at_noon : Time
at_noon = record { instant = 63_952_071_200_123_999_999; offset = east 7200 }

-- A millisecond later, in a zone to the west.
abbrev pub later : Time
later = record { instant = 63_952_071_200_124_000_000; offset = west 18000 }

abbrev pub random_bytes : Bytes
random_bytes = 1 ∷ 2 ∷ 3 ∷ 4 ∷ 5 ∷ 6 ∷ 7 ∷ 255 ∷ 254 ∷ 253 ∷ []

abbrev pub observed : Observation
observed = record {
  class = codes "bug";
  text = codes "it broke";
  scope_kind = codes "project";
  scope_ref = codes "a/b";
  subject = [];
  agent = codes "cli";
}

abbrev pub older_row : Record
older_row = record {
  id = codes "a";
  recorded_at = codes "2026-07-24T00:13:20.123Z";
  observation = observed;
}

abbrev pub newer_row : Record
newer_row = record {
  id = codes "b";
  recorded_at = codes "2026-07-24T00:13:20.123Z";
  observation = observed;
}

pub two_ids : DistinctIds (older_row ∷ newer_row ∷ [])
two_ids = ((λ same. ground arith, tt), (tt, tt))

unfoldable pub docket : Table
docket = (older_row ∷ newer_row ∷ [], two_ids)

abbrev pub one_row : Filter
one_row = record empty_filter { class = codes "bug"; limit = pos 1 }

abbrev pub request : Option CallToolRequest
request = some (record {
  session =
      some (record { initialize_params = some (record { client_info = some (codes "cli") }) });
})

abbrev pub well_formed : RecordInput
well_formed = record {
  observation = codes " it broke ";
  class = codes "BUG";
  scope_kind = [];
  scope_ref = codes "A/b";
  subject = [];
}

abbrev pub review_input : ReviewInput
review_input = record {
  class = codes "Bug";
  scope_kind = [];
  scope_ref = [];
  since = [];
  before = [];
  before_id = [];
  limit = pos 1;
}
