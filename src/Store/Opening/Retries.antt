-- ===== src/Store/Opening/Retries.antt =====
-- The retry loop of `initialize`: its budget, and what it means that it succeeds.
use field_docket.Base.{codes, ℕ, zero, suc, ◌+◌, ◌*◌, ◌≤◌, ◌≡◌, refl, Option, none, some, arith}
use field_docket.Go.Errors.{Error, wrap, join}
use field_docket.Store.Opening.{
  Connection, Attempt, done, failed, busy, sort_error, attempt_once, attempts, initialize,
  init_backoff, init_attempts,
}

-- The nanoseconds that `left` attempts wait, from number `n` on.
unfoldable pub waited : ℕ → ℕ → ℕ
waited zero n = 0
waited (suc left) n = n * init_backoff + waited left (suc n)

waited_all : waited 11 1 ≡ 1_650_000_000
unfolding waited
waited_all = refl

abbrev pub world_of : {W : Type 0} → Attempt W → W
world_of (done w) = w
world_of (failed w e) = w
world_of (busy w e) = w

module _ (C : Connection) where
  -- The database is connected, and the migration that ended in `w` reported no error.
  abbrev pub Ready : C.World → Type 0
  Ready w = (w' : C.World) × ((C.migrate w').1 ≡ none) × (w ≡ (C.migrate w').0)

  abbrev Settles : Attempt C.World → Type 0
  Settles (done w) = Ready w
  Settles _ = Unit

  sort_error-Settles : (w : C.World) (e e' : Error) → Settles (sort_error C w e e')
  unfolding sort_error
  sort_error-Settles w e e' = ground arith

  attempt_once-Settles : (w : C.World) → Settles (attempt_once C w)
  unfolding attempt_once
  attempt_once-Settles w = by_ping (C.ping w)
    where
      by_migrate :
          (w' : C.World) (o : Option Error)
          → (C.migrate w').1 ≡ o
          → Settles
              (elim o [ some e ↦ sort_error C (C.migrate w').0 e e | none ↦ done (C.migrate w').0 ])
      by_migrate w' none h = (w', h, refl)
      by_migrate w' (some e) h = sort_error-Settles (C.migrate w').0 e e

      by_ping :
          (out : C.World × Option Error)
          → Settles (
              let (w', lost) = out in
              elim lost [
                | some e ↦ sort_error C w' e (wrap (codes "connecting to store") e)
                | none ↦
                    let (w'', o) = C.migrate w' in
                    elim o [ some e ↦ sort_error C w'' e e | none ↦ done w'' ]
              ])
      by_ping (w', none) = by_migrate w' (C.migrate w').1 refl
      by_ping (w', some e) = sort_error-Settles w' e _

  -- What an outcome without an error means.
  abbrev ReadyIfNone : C.World × Option Error → Type 0
  ReadyIfNone (w, none) = Ready w
  ReadyIfNone (w, some e) = Unit

  settled :
      (a : Attempt C.World) (next : C.World → Error → C.World × Option Error)
      → Settles a
      → ((w : C.World) (e : Error) → ReadyIfNone (next w e))
      → ReadyIfNone (elim a [ done w ↦ (w, none) | failed w e ↦ (w, some e) | busy w e ↦ next w e ])
  settled (done w) next h r = h
  settled (failed w e) next h r = tt
  settled (busy w e) next h r = r w e

  attempts-Ready : (left n : ℕ) (w : C.World) (e : Error) → ReadyIfNone (attempts C left n w e)
  unfolding attempts
  attempts-Ready zero n w e = tt
  attempts-Ready (suc left) n w e =
      let ih = attempts-Ready left (suc n) in by_wait ih (C.wait w (n * init_backoff))
    where
      by_wait :
          ((w' : C.World) (e' : Error) → ReadyIfNone (attempts C left (suc n) w' e'))
          → (out : C.World × Option Error)
          → ReadyIfNone (
              let (w', ended) = out in
              elim ended [
                | some cancelled ↦ (w', some (join cancelled e))
                | none ↦ elim (attempt_once C w') [
                  | done w'' ↦ (w'', none)
                  | failed w'' x ↦ (w'', some x)
                  | busy w'' x ↦ attempts C left (suc n) w'' x
                ]
              ])
      by_wait ih (w', none) =
          settled (attempt_once C w') (attempts C left (suc n)) (attempt_once-Settles w') ih
      by_wait ih (w', some x) = tt

  ready_if_none : (out : C.World × Option Error) → ReadyIfNone out → out.1 ≡ none → Ready out.0
  ready_if_none (w, none) r h = r
  ready_if_none (w, some e) r h = cc

  -- Where opening reports no error, the last thing it did is a migration that reported none.
  initialize-Ready : (w : C.World) → (initialize C w).1 ≡ none → Ready (initialize C w).0
  unfolding initialize
  initialize-Ready w =
      ready_if_none (initialize C w) (
        settled (attempt_once C w) (attempts C 11 1) (attempt_once-Settles w) (attempts-Ready 11 1))

  module _ (cost : C.World → ℕ) (p m : ℕ) (pings : (w : C.World) → cost (C.ping w).0 ≤ cost w + p)
      (migrates : (w : C.World) → cost (C.migrate w).0 ≤ cost w + m)
      (waits : (w : C.World) (d : ℕ) → cost (C.wait w d).0 ≤ cost w + d) where
    attempt_once-cost : (w : C.World) → cost (world_of (attempt_once C w)) ≤ cost w + p + m
    unfolding attempt_once sort_error
    attempt_once-cost w = ground (arith, pings w, migrates (C.ping w).0)

    -- An attempt, and the attempts after it if it finds the database locked.
    retried :
        (a : Attempt C.World) (next : C.World → Error → C.World × Option Error) (b r r' : ℕ)
        → cost (world_of a) ≤ b
        → ((w : C.World) (e : Error) → cost (next w e).0 ≤ cost w + r + r')
        → cost
            (elim a as (λ x. C.World × Option Error) [
              | done w ↦ (w, none)
              | failed w e ↦ (w, some e)
              | busy w e ↦ next w e
            ]).0
          ≤ b + r + r'
    retried (done w) next b r r' h rest = omega arith
    retried (failed w e) next b r r' h rest = omega arith
    retried (busy w e) next b r r' h rest = omega (arith, rest w e)

    attempts-cost :
        (left n : ℕ) (w : C.World) (e : Error)
        → cost (attempts C left n w e).0 ≤ cost w + left * (p + m) + waited left n
    unfolding attempts waited
    attempts-cost zero n w e = omega arith
    attempts-cost (suc left) n w e =
        let ih = attempts-cost left (suc n) in
        let w' = (C.wait w (n * init_backoff)).0 in
        ground (
          arith,
          waits w (n * init_backoff),
          retried (attempt_once C w') (attempts C left (suc n)) _ _ _ (attempt_once-cost w') ih,
        )

    -- Take any measure of the world that a connection raises by at most p, a migration by at most m
    -- and a wait by at most its length. However the attempts end, opening raises it by at most
    -- twelve times p + m and 1.65 seconds: it tries both at most twelve times, and its waits add up
    -- to no more.
    pub initialize-cost :
        (w : C.World) → cost (initialize C w).0 ≤ cost w + init_attempts * (p + m) + 1_650_000_000
    unfolding initialize
    initialize-cost w = omega (
      arith,
      waited_all,
      retried (attempt_once C w) (attempts C 11 1) _ _ _ (attempt_once-cost w) (attempts-cost 11 1),
    )
