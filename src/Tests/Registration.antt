-- ===== src/Tests/Registration.antt =====
-- A server over the docket of the tests, whose tools are called within their published schemas.
use field_docket.Base.{
  ℕ, ◌≤◌, ◌≡◌, refl, true, false, ◌⊎◌, [], ◌∷◌, ◌++◌, Bytes, codes, length, pos, Option, none, some,
  select,
}
use native.Mathlib.Decide.{ℕ_discrete}
use field_docket.Base.Compare.{compare_bytes}
use field_docket.Go.Errors.{foreign, Result, ok, err}
use field_docket.Go.Json.{marshal_string}
use field_docket.Go.Text.{is_empty, join_with, trim_space, to_lower}
use field_docket.Go.Time.{Time, is_zero}
use field_docket.Store.Types.{Record}
use field_docket.Store.Append.{append}
use field_docket.Store.Clock.{format_time}
use field_docket.Store.Id.{new_uuid_v7}
use field_docket.Store.Key.{compare_key, precedes, insert_desc, order_desc}
use field_docket.Store.Tally.{tally, count_class, group_classes, order_groups, insert_group}
use field_docket.Store.Filter.{where_sql}
use field_docket.Store.Filter.Matches.{in_scope, before_cursor, matches}
use field_docket.Store.Listing.{list, read_with, read_rows, close_review, page_limit}
use field_docket.Store.Listing.Answers.{matching}
use field_docket.Store.Sqlite.Memory.{
  memory, memory-IsSqlite, Table, insert_of, decode_row, page_of, count_of, tally_of, found,
}
use field_docket.Store.Sqlite.Parse.{strip, select_where}
use field_docket.Server.Types.{Deps, CallToolRequest, answered, client_name}
use field_docket.Server.Clip.{clip}
use field_docket.Server.Middleware.{tolerate_null_arguments}
use field_docket.Server.Record.{
  RecordInput, RecordOutput, grouping_key, scope_kind_of, scope_project, scope_user,
  record_observation,
}
use field_docket.Server.Record.Refusals.{serving, normalized}
use field_docket.Server.Review.{
  review_filter, read_time, check_cursor, review_output, view, list_from, review_observations,
}
use field_docket.Server.Review.Pages.{expected}
use field_docket.Server.Schema.{
  Property, Schema, property, assign, must_schema, json_string, scope_kinds, max_limit, limit_name,
  scope_kind_name, record_schema, review_schema,
}
use field_docket.Server.Schema.Admission.{
  listed, at_least, at_most, tested, admits_record, admits_review,
}
use field_docket.Server.Registration.{
  Server, records, reviews, server_name, server_title, server_version, record_tool, review_tool,
  new_server,
}
use field_docket.Server.Registration.Named.{tool_named}
use field_docket.Server.Registration.Limits.{new_server-review_page}
use field_docket.Server.Registration.Scopes.{new_server-record_scope, new_server-record_default}
use field_docket.Tests.Data.{
  at_noon, random_bytes, docket, one_row, request, well_formed, review_input,
}

abbrev lower : Bytes → Bytes
lower s = s

abbrev parse : Bytes → Result Time
parse s = err (foreign (codes "cannot parse"))

-- The schemas that the library infers, cut down to the properties that are written.
abbrev plain : Property
plain = record { description = []; enum = []; default = none; minimum = none; maximum = none }

abbrev for_record : Schema
for_record = record {
  properties = (codes "class", plain) ∷ (scope_kind_name, plain) ∷ [];
  required = codes "class" ∷ [];
}

abbrev for_review : Schema
for_review = record {
  properties = (scope_kind_name, plain) ∷ (limit_name, plain) ∷ [];
  required = [];
}

abbrev record_published : Schema
record_published = record for_record {
  properties =
      (codes "class", plain)
      ∷ (
        scope_kind_name,
        record plain { enum = scope_kinds; default = some (json_string scope_project) },
      )
      ∷ [];
}

abbrev review_published : Schema
review_published = record for_review {
  properties =
      (scope_kind_name, record plain { enum = scope_kinds })
      ∷ (
        limit_name,
        record plain { default = some (codes "50"); minimum = some 1; maximum = some max_limit },
      )
      ∷ [];
}

abbrev server : Server memory Bytes Bytes
server = record {
  deps = record { store = some docket; unavailable = none };
  implementation = record { name = server_name; title = server_title; version = server_version };
  middleware = tolerate_null_arguments ∷ [];
  tools =
      (record_tool record_published, records (record_observation memory lower))
      ∷ (review_tool review_published, reviews (review_observations memory lower parse))
      ∷ [];
}

built :
    new_server memory lower parse server_version (ok for_record) (ok for_review) (some docket) none
    ≡ some server
unfolding new_server record_schema review_schema must_schema assign property json_string
    compare_bytes
built = refl

reviewing :
    tool_named (codes "review_observations") server.tools
    ≡ some (review_tool review_published, reviews (review_observations memory lower parse))
unfolding compare_bytes
reviewing = refl

recording :
    tool_named (codes "record_observation") server.tools
    ≡ some (record_tool record_published, records (record_observation memory lower))
unfolding compare_bytes
recording = refl

review_admitted : admits_review review_published review_input ≡ true
unfolding admits_review listed property tested at_least at_most compare_bytes is_empty
review_admitted = refl

abbrev in_project : RecordInput
in_project = record well_formed { scope_kind = scope_project }

record_admitted : admits_record record_published in_project ≡ true
unfolding admits_record listed property tested compare_bytes
record_admitted = refl

answers :
    review_observations memory lower parse (serving memory docket) review_input
    ≡ answered (expected one_row docket.0)
unfolding list read_with read_rows close_review page_limit where_sql page_of count_of tally_of found
    select select_where strip order_desc insert_desc precedes compare_key compare_bytes tally
    count_class group_classes order_groups insert_group join_with is_empty is_zero matching matches
    in_scope before_cursor docket review_observations review_filter read_time check_cursor
    grouping_key trim_space to_lower review_output view clip list_from
answers = refl

new_server-review_page_example :
    (n : ℕ) × (pos 1 ≡ pos n)
    × (1 ≤ n)
    × (n ≤ max_limit)
    × (length (expected one_row docket.0).observations ≤ n)
new_server-review_page_example =
    new_server-review_page memory lower parse server_version (ok for_record) (ok for_review)
      (some docket) none memory-IsSqlite built reviewing review_input docket review_admitted answers

-- The docket after the call.
abbrev grown : Table
grown = (append memory at_noon (ok random_bytes) (normalized lower request in_project) docket).0

abbrev reply : RecordOutput
reply = record {
  id = codes "019f9178-2d7b-7102-8304-050607fffefd";
  recorded_at = codes "2026-07-24T00:13:20.123Z";
}

recorded :
    record_observation memory lower at_noon
      (ok random_bytes)
      (serving memory docket)
      request
      in_project
    ≡ (serving memory grown, answered reply)
unfolding record_observation append is_empty trim_space grouping_key to_lower compare_bytes
    scope_kind_of new_uuid_v7 insert_of decode_row docket ℕ_discrete normalized client_name
    format_time
recorded = refl

new_server-record_scope_example :
    (s' : Table) × (r : Record) × (serving memory grown ≡ serving memory s')
    × (s'.0 ≡ docket.0 ++ r ∷ [])
    × ((r.observation).scope_kind ≡ scope_project)
    × ((scope_project ≡ scope_project) × (is_empty (r.observation).scope_ref ≡ false)
        ⊎ (scope_project ≡ scope_user))
new_server-record_scope_example =
    new_server-record_scope memory lower parse server_version (ok for_record) (ok for_review)
      (some docket) none built recording memory-IsSqlite at_noon (ok random_bytes) docket request
      in_project record_admitted recorded

new_server-record_default_example :
    (q : Property) × (scope : Bytes) × (property scope_kind_name record_published.properties
      ≡ some q)
    × (q.default ≡ some (json_string scope))
    × ((at : Time) (random : Result Bytes) (d : Deps memory) (req : Option CallToolRequest)
          (input : RecordInput)
        → record_observation memory lower at random d req (record input { scope_kind = [] })
          ≡ record_observation memory lower at random d req (record input { scope_kind = scope }))
new_server-record_default_example =
    new_server-record_default memory lower parse server_version (ok for_record) (ok for_review)
      (some docket) none built recording

default_text : json_string scope_project ≡ codes "\"project\""
unfolding json_string marshal_string
default_text = refl

-- A letter of two bytes, a backslash, a character of HTML, a tab, and a byte that is no UTF-8.
escaped :
    marshal_string (0xc3 ∷ 0xa9 ∷ codes "\\<\t" ++ 0xff ∷ [])
    ≡ codes "\"" ++ 0xc3 ∷ 0xa9 ∷ codes "\\\\\\u003c\\t\\ufffd\""
unfolding marshal_string
escaped = refl
