-- ===== src/Server/Docket/Explained.antt =====
-- The tools on one store are tools on a list of observations.

use field_docket.Base.{◌≡◌, refl, sym, ap, List, [], ◌∷◌, Bytes, Option}
use field_docket.Go.Errors.{Result, ok, err}
use field_docket.Go.Time.{Time}
use field_docket.Store.Types.{Filter}
use field_docket.Store.Sqlite.{Sqlite, IsSqlite}
use field_docket.Store.Listing.{list}
use field_docket.Store.Listing.Answers.{list-eq-ok}
use field_docket.Server.Types.{Outcome, refused, failed, answered, panicked, Deps, CallToolRequest}
use field_docket.Server.Record.{RecordInput, RecordOutput}
use field_docket.Server.Record.Refusals.{
  serving, malformed, normalized, is_refused, record_refuses, Effect, record_observation-Effect,
}
use field_docket.Server.Review.{
  ReviewInput, ReviewOutput, good, bad, review_filter, review_output, list_from,
  review_observations,
}
use field_docket.Server.Docket.{
  Call, recording, reviewing, serve_call, serve_calls, Files, Shows, Does, Explains, finished, then,
}

module _ (D : Sqlite) (L : IsSqlite D) (unicode : Bytes → Bytes) (parse : Bytes → Result Time) where
  Effect-Files :
      (at : Time) (random : Result Bytes) (req : Option CallToolRequest) (input : RecordInput)
      (s : D.State) (x : Deps D × Outcome RecordOutput)
      → is_refused x.1 ≡ malformed unicode input
      → Effect D (normalized unicode req input) at random s x
      → (s' : D.State) × (x.0 ≡ serving D s')
        × Files unicode parse at req input x.1 (D.table s) (D.table s')
  Effect-Files at random req input s (d, answered out) fine (s', r, e, rows, o, id, stamp, on, _) =
      (s', e, (r, rows, sym fine, o, id, stamp, on))
  Effect-Files at random req input s (d, refused m) fine e = (s, e, (refl, sym fine))
  Effect-Files at random req input s (d, failed m) fine (s', e, rows) = (s', e, (rows, sym fine))
  Effect-Files at random req input s (d, panicked) fine impossible = elim impossible [ ]

  list_from-Shows :
      (s : D.State) (input : ReviewInput) (f : Filter)
      → review_filter unicode parse input ≡ good f
      → Shows unicode parse input (list_from D f (serving D s)) (D.table s)
  unfolding list_from
  list_from-Shows s input f read =
      elim (list D s f)
          as (λ r.
            list D s f ≡ r
            → Shows unicode parse input
                (elim r as (λ x. Outcome ReviewOutput) [
                  | ok p ↦ answered (review_output p)
                  | err e ↦ failed e
                ])
                (D.table s)) [
                  | ok p ↦ λ e. (f, read, ap review_output (list-eq-ok D L s f e))
                  | err x ↦ λ e. (f, read)
                ]
        refl

  review-Shows :
      (s : D.State) (input : ReviewInput)
      → Shows unicode parse input
          (review_observations D unicode parse (serving D s) input)
          (D.table s)
  unfolding review_observations
  review-Shows s input =
      elim (review_filter unicode parse input)
          as (λ c.
            review_filter unicode parse input ≡ c
            → Shows unicode parse input
                (elim c as (λ x. Outcome ReviewOutput) [
                  | good f ↦ list_from D f (serving D s)
                  | bad m ↦ refused m
                ])
                (D.table s)) [ good f ↦ λ e. list_from-Shows s input f e | bad m ↦ λ e. e ]
        refl

  serve_call-Does :
      (c : Call) (s : D.State)
      → let (d, reply) = serve_call D unicode parse c (serving D s) in
        (s' : D.State) × (d ≡ serving D s') × Does unicode parse c reply (D.table s) (D.table s')
  unfolding serve_call
  serve_call-Does (recording at random req input) s =
      Effect-Files at random req input s _ (record_refuses D unicode at random s req input).0
        (record_observation-Effect D L unicode at random s req input)
  serve_call-Does (reviewing input) s = (s, refl, (refl, review-Shows s input))

  -- Over a driver that behaves as documented, whatever calls of the two tools are made on a served
  -- store, one after the other, the store stays served and the replies are those of a list of
  -- observations: a record of well-formed input adds its normal form as one row behind the others
  -- and names it, or reports a failure and adds none; malformed input is refused and adds none; a
  -- review changes nothing and shows what its filter makes of the rows at its place in the sequence,
  -- or is refused where it cannot be read, or reports a failure. No call panics.
  pub serve_calls-Explains :
      (calls : List Call) (s : D.State)
      → let (d, replies) = serve_calls D unicode parse calls (serving D s) in
        (s' : D.State) × (d ≡ serving D s')
        × Explains unicode parse calls replies (D.table s) (D.table s')
  unfolding serve_calls
  serve_calls-Explains [] s = (s, refl, finished)
  serve_calls-Explains (c ∷ calls) s =
      let (s1, e, does) = serve_call-Does c s in
      let (s2, e', rest) = serve_calls-Explains calls s1 in rw e (s2, e', then does rest)
