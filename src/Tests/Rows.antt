-- ===== src/Tests/Rows.antt =====
-- Appends to and listings of a database in memory.
use native.Mathlib.Decide.{ℕ_discrete}
use field_docket.Base.{◌+◌, if◌then◌else◌, List, take, ◌≡◌, refl, [], ◌∷◌, Bytes, codes}
use field_docket.Go.Errors.{ok}
use field_docket.Go.Time.{
  is_zero, utc, civil, is_leap, year_days, month_days, year_from, month_from,
}
use field_docket.Go.Text.{is_empty, join_with}
use field_docket.Go.Decimal.{pad, decimal}
use field_docket.Base.Compare.{compare_bytes}
use field_docket.Base.{select}
use field_docket.Store.Id.{
  new_uuid_v7, unix_milli, octets, uuid_text, hex_encode, hex_digit, modify, set_version,
  set_variant, time_octets,
}
use field_docket.Store.Key.{compare_key, precedes, insert_desc, order_desc}
use field_docket.Store.Tally.{tally, count_class, group_classes, order_groups, insert_group}
use field_docket.Store.Filter.Matches.{in_scope, before_cursor}
use field_docket.Store.Listing.{read_with, read_rows, close_review, page_limit}
use field_docket.Store.Sqlite.Memory.{page_of, count_of, tally_of, found}
use field_docket.Store.Sqlite.Parse.{strip, select_where}
use field_docket.Store.Types.{Record}
use field_docket.Store.Clock.{format_time, layout}
use field_docket.Store.Filter.{where_sql}
use field_docket.Store.Filter.Clauses.{Clause, predicate_text, predicate_args, hold_all}
use field_docket.Store.Filter.Matches.{matches, where_sql-matches}
use field_docket.Store.Sqlite.Memory.{memory, memory-IsSqlite, Table, insert_of, decode_row}
use field_docket.Store.Append.{append, stamp, store_record}
use field_docket.Store.Listing.{Page, list}
use field_docket.Store.Listing.Answers.{answer, matching, list-eq-ok}
use field_docket.Store.Listing.Growth.{append-list_total}
use field_docket.Store.Listing.Paging.{resume, IsCursor, list-resume}
use field_docket.Tests.Data.{at_noon, random_bytes, observed, older_row, newer_row, docket, one_row}

abbrev new_id : Bytes
new_id = codes "019f9178-2d7b-7102-8304-050607fffefd"

abbrev first_page : Page
first_page = record {
  records = newer_row ∷ [];
  total = 2;
  classes = record { class = codes "bug"; count = 2 } ∷ [];
}

minted : new_uuid_v7 at_noon (ok random_bytes) ≡ ok new_id
unfolding new_uuid_v7 unix_milli utc octets uuid_text hex_encode hex_digit modify set_version
    set_variant time_octets
minted = refl

both_match : matching one_row (older_row ∷ newer_row ∷ []) ≡ newer_row ∷ older_row ∷ []
unfolding matching matches in_scope before_cursor order_desc insert_desc precedes compare_key
    compare_bytes select is_empty is_zero
both_match = refl

lists : list memory docket one_row ≡ ok first_page
unfolding list docket read_with read_rows close_review page_limit where_sql page_of count_of
    tally_of found select select_where strip order_desc insert_desc precedes compare_key
    compare_bytes tally count_class group_classes order_groups insert_group join_with is_empty
    is_zero
lists = refl

list-eq-ok_example : first_page ≡ answer one_row docket.0
list-eq-ok_example = list-eq-ok memory memory-IsSqlite docket one_row lists

where_sql-matches_example :
    (cs : List Clause) × (where_sql one_row ≡ (predicate_text cs, predicate_args cs))
    × ((r : Record) → hold_all cs r ≡ matches one_row r)
where_sql-matches_example = where_sql-matches one_row

cursor : IsCursor newer_row at_noon
unfolding is_zero is_empty format_time layout pad decimal utc civil is_leap year_days month_days
    year_from month_from
cursor = record { set = refl; stamped = refl; named = refl }

abbrev second_page : Page
second_page = record {
  records = older_row ∷ [];
  total = 1;
  classes = record { class = codes "bug"; count = 1 } ∷ [];
}

resumes : list memory docket (resume one_row newer_row at_noon) ≡ ok second_page
unfolding resume matches list docket read_with read_rows close_review page_limit where_sql page_of
    count_of tally_of found select select_where strip order_desc insert_desc precedes compare_key
    compare_bytes tally count_class group_classes order_groups insert_group join_with is_empty
    is_zero format_time layout pad decimal utc civil
resumes = refl

list-resume_example :
    (second_page.records ≡ take (page_limit one_row.limit) (older_row ∷ []))
    × (second_page.total ≡ 1)
unfolding docket
list-resume_example =
    list-resume memory memory-IsSqlite docket one_row [] (older_row ∷ []) newer_row cursor
      both_match resumes

-- The docket after the append.
abbrev grown : Table
grown = (append memory at_noon (ok random_bytes) observed docket).0

appends :
    append memory at_noon (ok random_bytes) observed docket
    ≡ (grown, ok (stamp new_id at_noon observed))
unfolding append store_record insert_of decode_row docket new_uuid_v7 unix_milli utc octets
    uuid_text hex_encode hex_digit modify set_version set_variant time_octets ℕ_discrete
appends = refl

abbrev third_page : Page
third_page = record {
  records = newer_row ∷ [];
  total = 3;
  classes = record { class = codes "bug"; count = 3 } ∷ [];
}

lists_grown : list memory grown one_row ≡ ok third_page
unfolding append store_record insert_of decode_row new_uuid_v7 unix_milli octets uuid_text
    hex_encode hex_digit modify set_version set_variant time_octets resume matches list docket
    read_with read_rows close_review page_limit where_sql page_of count_of tally_of found select
    select_where strip order_desc insert_desc precedes compare_key compare_bytes tally count_class
    group_classes order_groups insert_group join_with is_empty is_zero format_time layout pad
    decimal utc civil ℕ_discrete
lists_grown = refl

append-list_total_example :
    third_page.total
    ≡ first_page.total + (if matches one_row (stamp new_id at_noon observed) then 1 else 0)
append-list_total_example =
    append-list_total memory memory-IsSqlite at_noon (ok random_bytes) observed docket grown one_row
      lists appends lists_grown
