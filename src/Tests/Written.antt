-- ===== src/Tests/Written.antt =====
-- A walk through a docket that two calls have written, one observation to a page.
use field_docket.Base.{
  true, List, Among, ◌<◌, ◌≡◌, refl, arith, [], map, Bytes, codes, some, select, length,
}
use native.Mathlib.Decide.{ℕ_discrete}
use field_docket.Base.Compare.{compare_bytes}
use field_docket.Go.Errors.{Result, ok, err, foreign}
use field_docket.Go.Text.{is_empty, trim_space, to_lower}
use field_docket.Go.Time.{Time, is_zero}
use field_docket.Go.Time.Rfc3339.{parse_time}
use field_docket.Store.Append.{append}
use field_docket.Store.Types.{Record}
use field_docket.Store.Clock.{format_time}
use field_docket.Store.Clock.Parsed.{truncated, parse_time-format_time}
use field_docket.Store.Filter.Matches.{in_scope, before_cursor, matches}
use field_docket.Store.Id.{new_uuid_v7}
use field_docket.Store.Key.{compare_key, precedes, insert_desc, order_desc}
use field_docket.Store.Listing.Answers.{matching}
use field_docket.Store.Sqlite.Memory.{memory, memory-IsSqlite, Table, insert_of, decode_row}
use field_docket.Server.Types.{Outcome, answered, client_name}
use field_docket.Server.Record.{RecordOutput, record_observation, grouping_key, scope_kind_of}
use field_docket.Server.Record.Refusals.{serving, normalized}
use field_docket.Server.Review.{ObservationView, good, review_filter, read_time, check_cursor, view}
use field_docket.Server.Review.Walk.{walk}
use field_docket.Server.Review.Walk.Found.{row_of, recorded-Among}
use field_docket.Server.Review.Walk.Written.{IsOrdinary, walk-written}
use field_docket.Server.Session.{Session, idle, then}
use field_docket.Tests.Data.{
  at_noon, later, random_bytes, one_row, request, well_formed, review_input,
}
use field_docket.Tests.Times.{at_noon-InFourDigits, later-InFourDigits, random_bytes-IsFill}
use field_docket.Tests.Walks.{memory_lists}

abbrev lower : Bytes → Bytes
lower s = s

abbrev lax : Bytes → Result Time
lax s = err (foreign (codes "cannot parse"))

parse_time-format_time_example : parse_time lax (format_time at_noon) ≡ ok (truncated at_noon)
parse_time-format_time_example = parse_time-format_time lax at_noon at_noon-InFourDigits

at_noon-IsOrdinary : IsOrdinary at_noon (ok random_bytes)
at_noon-IsOrdinary = (omega arith, at_noon-InFourDigits, (random_bytes, refl, random_bytes-IsFill))

later-IsOrdinary : IsOrdinary later (ok random_bytes)
later-IsOrdinary = (omega arith, later-InFourDigits, (random_bytes, refl, random_bytes-IsFill))

abbrev nothing : Table
nothing = ([], tt)

abbrev first : Table
first = (append memory at_noon (ok random_bytes) (normalized lower request well_formed) nothing).0

abbrev second : Table
second = (append memory later (ok random_bytes) (normalized lower request well_formed) first).0

abbrev first_reply : Outcome RecordOutput
first_reply = answered (record {
  id = codes "019f9178-2d7b-7102-8304-050607fffefd";
  recorded_at = codes "2026-07-24T00:13:20.123Z";
})

abbrev second_reply : Outcome RecordOutput
second_reply = answered (record {
  id = codes "019f9178-2d7c-7102-8304-050607fffefd";
  recorded_at = codes "2026-07-24T00:13:20.124Z";
})

first_call :
    record_observation memory lower at_noon
      (ok random_bytes)
      (serving memory nothing)
      request
      well_formed
    ≡ (serving memory first, first_reply)
unfolding record_observation append is_empty trim_space grouping_key to_lower compare_bytes
    scope_kind_of new_uuid_v7 insert_of decode_row ℕ_discrete normalized client_name format_time
first_call = refl

second_call :
    record_observation memory lower later
      (ok random_bytes)
      (serving memory first)
      request
      well_formed
    ≡ (serving memory second, second_reply)
unfolding record_observation append is_empty trim_space grouping_key to_lower compare_bytes
    scope_kind_of new_uuid_v7 insert_of decode_row ℕ_discrete normalized client_name format_time
second_call = refl

calls : Session memory lower IsOrdinary nothing second
calls =
    then at_noon (ok random_bytes) request well_formed first_reply at_noon-IsOrdinary first_call (
      then later (ok random_bytes) request well_formed second_reply later-IsOrdinary second_call
        idle)

read : review_filter lower (parse_time lax) review_input ≡ good one_row
unfolding review_filter read_time check_cursor is_empty trim_space grouping_key to_lower is_zero
read = refl

two_rows : length (matching one_row second.0) < 3
unfolding matching matches in_scope before_cursor order_desc insert_desc precedes compare_key
    compare_bytes select is_empty is_zero append normalized new_uuid_v7 insert_of decode_row
    ℕ_discrete client_name format_time trim_space grouping_key to_lower scope_kind_of
two_rows = omega arith

walk-written_example :
    walk memory lower (parse_time lax) second 3 review_input
    ≡ some (map view (matching one_row second.0))
walk-written_example =
    walk-written memory memory-IsSqlite lower lax refl calls (memory_lists second) 3 review_input
      read two_rows

abbrev replied : RecordOutput
replied = record {
  id = codes "019f9178-2d7b-7102-8304-050607fffefd";
  recorded_at = codes "2026-07-24T00:13:20.123Z";
}

abbrev row : Record
row = row_of replied (normalized lower request well_formed)

row-matches : matches one_row row ≡ true
unfolding matches in_scope before_cursor compare_bytes is_empty is_zero normalized client_name
    grouping_key trim_space to_lower scope_kind_of
row-matches = refl

second_alone : Session memory lower IsOrdinary first second
second_alone =
    then later (ok random_bytes) request well_formed second_reply later-IsOrdinary second_call idle

recorded-Among_example :
    (entries : List ObservationView) × (walk memory lower (parse_time lax) second 3 review_input
      ≡ some entries)
    × Among (view row) entries
recorded-Among_example =
    recorded-Among memory memory-IsSqlite lower lax refl idle at_noon (ok random_bytes) request
      well_formed at_noon-IsOrdinary first_call second_alone (memory_lists second) 3 review_input
      read row-matches two_rows
