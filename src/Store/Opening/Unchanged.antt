-- ===== src/Store/Opening/Unchanged.antt =====
-- What `initialize` leaves as it is: all that its steps do.
use field_docket.Base.{ℕ, zero, suc, ◌*◌, ◌≡◌, refl, ◌∙◌, Option, none, some, arith}
use field_docket.Go.Errors.{Error}
use field_docket.Store.Opening.{
  Connection, Attempt, done, failed, busy, sort_error, attempt_once, attempts, initialize,
  init_backoff,
}
use field_docket.Store.Opening.Retries.{world_of}

module _ (C : Connection) {A : Type 0} (part : C.World → A)
    (pings : (w : C.World) → part (C.ping w).0 ≡ part w)
    (migrates : (w : C.World) → part (C.migrate w).0 ≡ part w)
    (waits : (w : C.World) (d : ℕ) → part (C.wait w d).0 ≡ part w) where
  world_of-sort_error : (w : C.World) (e e' : Error) → world_of (sort_error C w e e') ≡ w
  unfolding sort_error
  world_of-sort_error w e e' = ground arith

  attempt_once-part : (w : C.World) → part (world_of (attempt_once C w)) ≡ part w
  unfolding attempt_once sort_error
  attempt_once-part w = ground (arith, pings w, migrates (C.ping w).0)

  retried :
      (a : Attempt C.World) (next : C.World → Error → C.World × Option Error) {x : A}
      → part (world_of a) ≡ x
      → ((w : C.World) (e : Error) → part (next w e).0 ≡ part w)
      → part
          (elim a as (λ x. C.World × Option Error) [
            | done w ↦ (w, none)
            | failed w e ↦ (w, some e)
            | busy w e ↦ next w e
          ]).0
        ≡ x
  retried (done w) next h rest = h
  retried (failed w e) next h rest = h
  retried (busy w e) next h rest = rest w e ∙ h

  attempts-part : (left n : ℕ) (w : C.World) (e : Error) → part (attempts C left n w e).0 ≡ part w
  unfolding attempts
  attempts-part zero n w e = refl
  attempts-part (suc left) n w e =
      let w' = (C.wait w (n * init_backoff)).0 in
      ground (
        arith,
        waits w (n * init_backoff),
        retried (attempt_once C w') (attempts C left (suc n)) (attempt_once-part w')
            (attempts-part left (suc n)),
      )

  pub initialize-part : (w : C.World) → part (initialize C w).0 ≡ part w
  unfolding initialize
  initialize-part w =
      retried (attempt_once C w) (attempts C 11 1) (attempt_once-part w) (attempts-part 11 1)
