-- ===== src/Tests/Sessions.antt =====
-- A session of one call on the docket of the tests, and a review behind a cursor before and after.
use field_docket.Base.{◌≡◌, refl, arith, false, List, [], ◌∷◌, Bytes, codes, pos, select}
use native.Mathlib.Decide.{ℕ_discrete}
use field_docket.Base.Compare.{compare_bytes}
use field_docket.Go.Errors.{Result, ok}
use field_docket.Go.Text.{is_empty, join_with, trim_space, to_lower}
use field_docket.Go.Time.{Time, is_zero, zero_time}
use field_docket.Store.Append.{append}
use field_docket.Store.Sqlite.Memory.{memory, memory-IsSqlite, Table}
use field_docket.Store.Sqlite.Memory.{insert_of, decode_row, page_of, count_of, tally_of, found}
use field_docket.Store.Sqlite.Parse.{strip, select_where}
use field_docket.Store.Id.{new_uuid_v7}
use field_docket.Store.Clock.{format_time, InFourDigits}
use field_docket.Store.Key.{compare_key, precedes, insert_desc, order_desc}
use field_docket.Store.Tally.{tally, count_class, group_classes, order_groups, insert_group}
use field_docket.Store.Filter.{where_sql}
use field_docket.Store.Filter.Matches.{in_scope, before_cursor, matches}
use field_docket.Store.Listing.{list, read_with, read_rows, close_review, page_limit}
use field_docket.Store.Listing.Answers.{matching}
use field_docket.Store.Types.{Filter}
use field_docket.Server.Review.{
  ReviewInput, good, review_filter, read_time, check_cursor, review_output, view, list_from,
  review_observations,
}
use field_docket.Server.Review.Pages.{expected}
use field_docket.Server.Clip.{clip}
use field_docket.Go.Time.{utc, civil, is_leap, year_days, month_days, year_from, month_from}
use field_docket.Server.Types.{Outcome, answered, client_name}
use field_docket.Server.Record.{RecordOutput, record_observation, grouping_key, scope_kind_of}
use field_docket.Server.Record.Refusals.{serving, normalized}
use field_docket.Server.Docket.{Call, recording, reviewing, serve_calls, Explains}
use field_docket.Server.Docket.Explained.{serve_calls-Explains}
use field_docket.Server.Session.{Session, idle, then}
use field_docket.Server.Review.Consistent.{IsConsistent, review-IsConsistent}
use field_docket.Server.Session.Growth.{Grows, Session-Grows}
use field_docket.Server.Session.Stable.{IsAfter, review-stable}
use field_docket.Tests.Data.{
  at_noon, later, random_bytes, docket, request, well_formed, review_input,
}

abbrev lower : Bytes → Bytes
lower s = s

abbrev AnyTime : Time → Result Bytes → Type 0
AnyTime at random = Unit

-- The docket after the call.
abbrev grown : Table
grown = (append memory at_noon (ok random_bytes) (normalized lower request well_formed) docket).0

abbrev reply : Outcome RecordOutput
reply = answered (record {
  id = codes "019f9178-2d7b-7102-8304-050607fffefd";
  recorded_at = codes "2026-07-24T00:13:20.123Z";
})

recorded :
    record_observation memory lower at_noon
      (ok random_bytes)
      (serving memory docket)
      request
      well_formed
    ≡ (serving memory grown, reply)
unfolding record_observation append is_empty trim_space grouping_key to_lower compare_bytes
    scope_kind_of new_uuid_v7 insert_of decode_row docket ℕ_discrete normalized client_name
    format_time
recorded = refl

call : Session memory lower AnyTime docket grown
call = then at_noon (ok random_bytes) request well_formed reply tt recorded idle

Session-Grows_example : Grows memory AnyTime docket grown
Session-Grows_example = Session-Grows memory memory-IsSqlite lower AnyTime call

-- A review behind the newer row of the docket.
abbrev behind : ReviewInput
behind = record review_input { before = codes "2026-07-24T00:13:20.123Z"; before_id = codes "b" }

abbrev parse : Bytes → Result Time
parse s = ok at_noon

abbrev behind_filter : Filter
behind_filter = record {
  class = codes "bug";
  scope_kind = [];
  scope_ref = [];
  since = zero_time;
  before = utc at_noon;
  before_id = codes "b";
  limit = pos 1;
}

read : review_filter lower parse behind ≡ good behind_filter
unfolding review_filter read_time check_cursor is_empty trim_space grouping_key to_lower is_zero utc
read = refl

set : is_zero behind_filter.before ≡ false
unfolding is_zero utc
set = refl

-- The docket after a call a millisecond behind the cursor's.
abbrev grown_later : Table
grown_later =
    (append memory later (ok random_bytes) (normalized lower request well_formed) docket).0

reply_later : Outcome RecordOutput
reply_later = answered (record {
  id = codes "019f9178-2d7c-7102-8304-050607fffefd";
  recorded_at = codes "2026-07-24T00:13:20.124Z";
})

recorded_later :
    record_observation memory lower later
      (ok random_bytes)
      (serving memory docket)
      request
      well_formed
    ≡ (serving memory grown_later, reply_later)
unfolding record_observation append is_empty trim_space grouping_key to_lower compare_bytes
    scope_kind_of new_uuid_v7 insert_of decode_row docket ℕ_discrete normalized client_name
    format_time reply_later
recorded_later = refl

before_digits : InFourDigits behind_filter.before
unfolding utc civil is_leap year_days month_days year_from month_from
before_digits = omega arith

later_digits : InFourDigits later
unfolding civil is_leap year_days month_days year_from month_from
later_digits = omega arith

behind_call : Session memory lower (IsAfter behind_filter.before) docket grown_later
unfolding utc
behind_call =
    then later (ok random_bytes) request well_formed reply_later (omega arith, later_digits)
      recorded_later idle

first_review :
    review_observations memory lower parse (serving memory docket) behind
    ≡ answered (expected behind_filter docket.0)
unfolding list read_with read_rows close_review page_limit where_sql page_of count_of tally_of found
    select select_where strip order_desc insert_desc precedes compare_key compare_bytes tally
    count_class group_classes order_groups insert_group join_with is_empty is_zero matching matches
    in_scope before_cursor docket review_observations review_filter read_time check_cursor
    grouping_key trim_space to_lower review_output view clip list_from utc format_time
first_review = refl

later_review :
    review_observations memory lower parse (serving memory grown_later) behind
    ≡ answered (expected behind_filter docket.0)
unfolding list read_with read_rows close_review page_limit where_sql page_of count_of tally_of found
    select select_where strip order_desc insert_desc precedes compare_key compare_bytes tally
    count_class group_classes order_groups insert_group join_with is_empty is_zero matching matches
    in_scope before_cursor docket review_observations review_filter read_time check_cursor
    grouping_key trim_space to_lower review_output view clip list_from utc format_time append
    new_uuid_v7 insert_of decode_row ℕ_discrete normalized scope_kind_of client_name
later_review = refl

review-stable_example : expected behind_filter docket.0 ≡ expected behind_filter docket.0
review-stable_example =
    review-stable memory memory-IsSqlite lower parse behind read set before_digits behind_call
      first_review later_review

review-IsConsistent_example : IsConsistent behind docket.0 (expected behind_filter docket.0)
review-IsConsistent_example =
    review-IsConsistent memory memory-IsSqlite lower parse docket behind first_review

-- The call, and a review behind it.
abbrev calls : List Call
calls = recording at_noon (ok random_bytes) request well_formed ∷ reviewing review_input ∷ []

serve_calls-Explains_example :
    let (d, replies) = serve_calls memory lower parse calls (serving memory docket) in
    (t : Table) × (d ≡ serving memory t) × Explains lower parse calls replies docket.0 t.0
serve_calls-Explains_example = serve_calls-Explains memory memory-IsSqlite lower parse calls docket
