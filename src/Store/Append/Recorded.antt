-- ===== src/Store/Append/Recorded.antt =====
-- What an append leaves in the table.
use field_docket.Base.{◌≡◌, refl, inl, inr, [], ◌∷◌, ◌++◌, Bytes, Option-cases}
use field_docket.Go.Errors.{Result, ok, err}
use field_docket.Go.Time.{Time}
use field_docket.Store.Types.{Observation, Record}
use field_docket.Store.Clock.{format_time}
use field_docket.Store.Id.{new_uuid_v7}
use field_docket.Store.Sqlite.{Sqlite, IsSqlite, insert_sql, insert_args}
use field_docket.Store.Append.{stamp, store_record, append}

-- What a call may have done: recorded the observation and returned it as stamped, or returned an
-- error and left the table as it was.
abbrev pub Recorded :
    (D : Sqlite) → Time → Result Bytes → Observation → D.State → D.State × Result Record → Type 0
Recorded D at random o s (s', ok r) =
    (r.observation ≡ o)
    × (r.recorded_at ≡ format_time at)
    × (new_uuid_v7 at random ≡ ok r.id)
    × (D.table s' ≡ D.table s ++ r ∷ [])
Recorded D at random o s (s', err e) = D.table s' ≡ D.table s

module _ (D : Sqlite) (L : IsSqlite D) where
  store_record-Recorded :
      (at : Time) (random : Result Bytes) (o : Observation) (s : D.State) (id : Bytes)
      → new_uuid_v7 at random ≡ ok id
      → Recorded D at random o s (store_record D (stamp id at o) s)
  unfolding store_record
  store_record-Recorded at random o s id minted =
      let r = stamp id at o in
      elim (Option-cases (D.insert s insert_sql (insert_args r)).1) [
        | inl done ↦ rw done (refl, refl, minted, L.inserts s r done)
        | inr (e, failed) ↦ rw failed (L.insert_fails s r e failed)
      ]

  -- Over a driver that behaves as documented, every call either appends one row, the observation
  -- as given under the clock's time and the minted id, behind the rows that were there, and
  -- returns it; or returns an error and changes no row.
  pub append-Recorded :
      (at : Time) (random : Result Bytes) (o : Observation) (s : D.State)
      → Recorded D at random o s (append D at random o s)
  unfolding append
  append-Recorded at random o s = go (new_uuid_v7 at random) refl
    where
      go :
          (m : Result Bytes)
          → new_uuid_v7 at random ≡ m
          → Recorded D at random o s (append D at random o s)
      go (ok id) minted = rw (minted, append) (store_record-Recorded at random o s id minted)
      go (err e) minted = rw (minted, append) refl
