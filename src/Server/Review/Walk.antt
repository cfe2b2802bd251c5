-- ===== src/Server/Review/Walk.antt =====
-- Paging backward as `reviewDescription` of internal/server/review.go tells a caller to: the last
-- returned observation's recorded_at is passed as before, and its id as before_id, as long as the
-- answer is truncated.
pub mod Cut
pub mod Next
pub mod Whole
pub mod Written
pub mod Found
use field_docket.Base.{
  ℕ, zero, suc, Bool, true, false, List, [], ◌∷◌, ◌++◌, Bytes, Option, none, some, if◌then◌else◌,
}
use field_docket.Go.Errors.{Result}
use field_docket.Go.Time.{Time}
use field_docket.Store.Sqlite.{Sqlite}
use field_docket.Server.Types.{Outcome, refused, failed, answered, panicked}
use field_docket.Server.Record.Refusals.{serving}
use field_docket.Server.Review.{ReviewInput, ObservationView, ReviewOutput, review_observations}

abbrev pub next_page : ReviewInput → ObservationView → ReviewInput
next_page input v = record input { before = v.recorded_at; before_id = v.id }

unfoldable pub last : {A : Type 0} → List A → Option A
last [] = none
last (x ∷ []) = some x
last (x ∷ y ∷ ys) = last (y ∷ ys)

abbrev pub Seen : Type 0
Seen = Option (List ObservationView)

abbrev pub prepend : List ObservationView → Seen → Seen
prepend vs none = none
prepend vs (some ws) = some (vs ++ ws)

-- The rest of the walk behind an answer.
unfoldable pub behind : (ReviewInput → Seen) → ReviewInput → ReviewOutput → Seen
unfolding last
behind go input out = elim (out.truncated) [
  | false ↦ some out.observations
  | true ↦ elim (last out.observations) [
    | none ↦ none
    | some v ↦ prepend out.observations (go (next_page input v))
  ]
]

module _ (D : Sqlite) (unicode : Bytes → Bytes) (parse : Bytes → Result Time) (s : D.State) where
  unfoldable pub step : (ReviewInput → Seen) → ReviewInput → Seen
  unfolding behind
  step go input = elim (review_observations D unicode parse (serving D s) input) [
    | answered out ↦ behind go input out
    | refused m ↦ none
    | failed e ↦ none
    | panicked ↦ none
  ]

  -- All the entries, in at most so many reviews.
  unfoldable pub walk : ℕ → ReviewInput → Seen
  unfolding step
  walk zero input = none
  walk (suc n) input = step (walk n) input
