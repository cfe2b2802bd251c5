-- ===== src/Store/Filter.antt =====
-- internal/store/store.go: `Filter.where`, which renders a filter as SQL text with its arguments.
pub mod Clauses
pub mod Matches
use field_docket.Base.{
  ℕ, Bool, true, false, not, ◌&&◌, List, [], ◌∷◌, ◌++◌, if◌then◌else◌, Bytes, codes,
}
use field_docket.Go.Text.{join_with, is_empty}
use field_docket.Go.Time.{Time, is_zero}
use field_docket.Store.Clock.{format_time}
use field_docket.Store.Types.{Filter}

-- The two slices that `where` appends to: `clauses` and `args`.
pub record Draft : Type 0 where
  pub clauses : List Bytes
  pub args : List Bytes

-- One `if` of the function: appends a clause and its arguments where the test holds.
abbrev pub add_if : Bool → Bytes → List Bytes → Draft → Draft
add_if set clause values d =
    if set then record { clauses = d.clauses ++ (clause ∷ []); args = d.args ++ values } else d

-- The `switch` on the cursor.
add_cursor : Filter → Draft → Draft
add_cursor f d =
    if not (is_zero f.before) && not (is_empty f.before_id)
    then add_if true (codes "(recorded_at, id) < (?, ?)") (format_time f.before ∷ f.before_id ∷ [])
        d
    else if not (is_zero f.before)
    then add_if true (codes "recorded_at < ?") (format_time f.before ∷ []) d
    else d

draft : Filter → Draft
unfolding add_cursor
draft f =
    let d : Draft = record { clauses = []; args = [] } in
    let d1 = add_if (not (is_empty f.class)) (codes "class = ?") (f.class ∷ []) d in
    let d2 = add_if (not (is_empty f.scope_kind)) (codes "scope_kind = ?") (f.scope_kind ∷ []) d1 in
    let d3 = add_if (not (is_empty f.scope_ref)) (codes "scope_ref = ?") (f.scope_ref ∷ []) d2 in
    let d4 =
      add_if (not (is_zero f.since)) (codes "recorded_at >= ?") (format_time f.since ∷ []) d3 in
    add_cursor f d4

abbrev pub where_text : List Bytes → Bytes
where_text [] = []
where_text (c ∷ cs) = codes " WHERE " ++ join_with (codes " AND ") (c ∷ cs)

-- `where`. With no clause the arguments are nil.
unfoldable pub where_sql : Filter → Bytes × List Bytes
unfolding draft join_with is_zero is_empty
where_sql f = (where_text (draft f).clauses, (draft f).args)
