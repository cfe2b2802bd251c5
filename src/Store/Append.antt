-- ===== src/Store/Append.antt =====
-- internal/store/store.go: `Append`, the whole write path.
pub mod Recorded
use field_docket.Base.{List, ◌++◌, Option, none, some, Bytes, codes}
use field_docket.Go.Errors.{Error, wrap, Result, ok, err}
use field_docket.Go.Time.{Time}
use field_docket.Store.Types.{Observation, Record}
use field_docket.Store.Clock.{format_time}
use field_docket.Store.Id.{new_uuid_v7}
use field_docket.Store.Sqlite.{Sqlite, insert_sql, insert_args}

-- The record that is inserted.
abbrev pub stamp : Bytes → Time → Observation → Record
stamp id at o = record { id = id; recorded_at = format_time at; observation = o }

module _ (D : Sqlite) where
  -- `ExecContext` and the two ways out after it.
  unfoldable pub store_record : Record → D.State → D.State × Result Record
  store_record r s =
      let (s', failure) = D.insert s insert_sql (insert_args r) in
      (s', elim failure [ none ↦ ok r | some e ↦ err (wrap (codes "recording observation") e) ])

  -- `Append` at the time `at` that the clock gives, with the bytes that `rand.Read` yields.
  unfoldable pub append : Time → Result Bytes → Observation → D.State → D.State × Result Record
  unfolding store_record
  append at random o s = elim (new_uuid_v7 at random) [
    | ok id ↦ store_record (stamp id at o) s
    | err e ↦ (s, err e)
  ]
