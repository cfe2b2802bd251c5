-- ===== src/Server/Session/Growth.antt =====
-- What a session does to the docket's rows.
use field_docket.Base.{
  ◌≡◌, refl, sym, ap, ◌∙◌, false, ◌&&◌, List, [], ◌∷◌, ◌++◌, append_assoc, append-nil, arith,
  Option, Bytes, All, All-append,
}
use mathlib.Core.Path.{subst}
use field_docket.Base.Compare.{same}
use field_docket.Go.Errors.{Result, ok}
use field_docket.Go.Text.{is_empty}
use field_docket.Go.Time.{Time}
use field_docket.Store.Clock.{format_time}
use field_docket.Store.Id.{new_uuid_v7}
use field_docket.Store.Types.{Observation, Record}
use field_docket.Store.Sqlite.{Sqlite, IsSqlite}
use field_docket.Server.Types.{Outcome, refused, failed, answered, panicked, Deps, CallToolRequest}
use field_docket.Server.Record.{RecordInput, RecordOutput, scope_project}
use field_docket.Server.Record.Refusals.{
  serving, malformed, normalized, is_refused, Effect, record_refuses, record_observation-Effect,
}
use field_docket.Server.Session.{Session, idle, then}

-- The text and the class are not empty, and the project scope has a reference.
abbrev pub IsWellFormed : Observation → Type 0
IsWellFormed o =
    (is_empty o.text ≡ false)
    × (is_empty o.class ≡ false)
    × ((same o.scope_kind scope_project && is_empty o.scope_ref) ≡ false)

-- A row that a session adds.
abbrev pub IsEntry : (Time → Result Bytes → Type 0) → Record → Type 0
IsEntry When r =
    (at : Time) × (random : Result Bytes) × When at random
    × (r.recorded_at ≡ format_time at)
    × (new_uuid_v7 at random ≡ ok r.id)
    × IsWellFormed r.observation

normalized-IsWellFormed :
    (unicode : Bytes → Bytes) (req : Option CallToolRequest) (input : RecordInput)
    → malformed unicode input ≡ false
    → IsWellFormed (normalized unicode req input)
unfolding malformed normalized
normalized-IsWellFormed unicode req input h = ground arith

-- The rows of one state, followed by entries, are those of the other.
abbrev pub Grows : (D : Sqlite) → (Time → Result Bytes → Type 0) → D.State → D.State → Type 0
Grows D When s s' =
    (added : List Record) × (D.table s' ≡ D.table s ++ added) × All (IsEntry When) added

module _ (D : Sqlite) (L : IsSqlite D) (unicode : Bytes → Bytes)
    (When : Time → Result Bytes → Type 0) where
  pub serving-injective : {s s' : D.State} → serving D s ≡ serving D s' → s ≡ s'
  serving-injective h = let e = ap (λ (d : Deps D). d.store) h in cc

  unchanged : (s s' : D.State) → D.table s' ≡ D.table s → Grows D When s s'
  unchanged s s' h = ([], h ∙ sym (append-nil (D.table s)), tt)

  call-Grows :
      (at : Time) (random : Result Bytes) (req : Option CallToolRequest) (input : RecordInput)
      (s s' : D.State) (outcome : Outcome RecordOutput)
      → When at random
      → is_refused outcome ≡ malformed unicode input
      → Effect D (normalized unicode req input) at random s (serving D s', outcome)
      → Grows D When s s'
  call-Grows at random req input s s' (answered out) when fine
        (s1, r, d, rows, o, _, stamp, on, minted) =
      (
        r ∷ [],
        ap D.table (serving-injective d) ∙ rows,
        (
          (
            at,
            random,
            when,
            stamp ∙ on,
            minted,
            subst IsWellFormed (sym o) (normalized-IsWellFormed unicode req input (sym fine)),
          ),
          tt,
        ),
      )
  call-Grows at random req input s s' (refused m) when fine d =
      unchanged s s' (ap D.table (serving-injective d))
  call-Grows at random req input s s' (failed e) when fine (s1, d, rows) =
      unchanged s s' (ap D.table (serving-injective d) ∙ rows)
  call-Grows at random req input s s' panicked when fine impossible = elim impossible [ ]

  -- Over a driver that behaves as documented, calls only add rows, behind all the rows that there
  -- were: whatever the calls and their outcomes, each row that is added has the timestamp and
  -- the id of an admitted time and of admitted random bytes, and a well-formed observation.
  pub Session-Grows : {s s' : D.State} → Session D unicode When s s' → Grows D When s s'
  Session-Grows {s} idle = unchanged s s refl
  Session-Grows {s} (then {s1 = s1} at random req input outcome when h rest) =
      let o = normalized unicode req input in
      let one : Grows D When s s1 =
        call-Grows at random req input s s1 outcome when
          (sym (ap (λ x. is_refused x.1) h) ∙ (record_refuses D unicode at random s req input).0)
          (subst (Effect D o at random s) h
            (record_observation-Effect D L unicode at random s req input)) in
      let (xs, ex, ax) = one in
      let (ys, ey, ay) = Session-Grows rest in
      (
        xs ++ ys,
        ey ∙ ap (λ t. t ++ ys) ex ∙ append_assoc (D.table s) xs ys,
        All-append (IsEntry When) xs ys ax ay,
      )
