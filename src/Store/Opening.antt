-- ===== src/Store/Opening.antt =====
-- internal/store/store.go: `initialize`, which retries while the database is locked.
pub mod Retries
pub mod Unchanged
use field_docket.Base.{
  ℕ, zero, suc, ◌+◌, ◌-◌, ◌*◌, ◌≤◌, ◌≡◌, refl, Bool, true, false, ◌++◌, Option, none, some, Bytes,
  codes, arith,
}
use field_docket.Go.Errors.{Error, wrap, join, sqlite_code}
use field_docket.Go.Decimal.{decimal}
use field_docket.Base.{◌==◌}

abbrev pub sqlite_busy : ℕ
sqlite_busy = 5

abbrev pub init_attempts : ℕ
init_attempts = 12

-- 25 * time.Millisecond, in nanoseconds.
abbrev pub init_backoff : ℕ
init_backoff = 25_000_000

abbrev is_code : Option ℕ → Bool
is_code none = false
is_code (some c) = c == sqlite_busy

unfoldable pub is_busy : Error → Bool
is_busy e = is_code (sqlite_code e)

-- The world that the loop acts on: the connection, the schema, and the select on the context and
-- a timer, which gives `ctx.Err()` if the context ends first.
pub record Connection : Type 1 where
  pub World : Type 0
  pub ping : World → World × Option Error
  pub migrate : World → World × Option Error
  pub wait : World → ℕ → World × Option Error

-- What one attempt comes to.
pub data Attempt (W : Type 0) : Type 0 where
  done : W → Attempt W
  failed : W → Error → Attempt W
  busy : W → Error → Attempt W

module _ (C : Connection) where
  unfoldable pub sort_error : C.World → Error → Error → Attempt C.World
  sort_error w e wrapped = elim (is_busy e) [ true ↦ busy w e | false ↦ failed w wrapped ]

  unfoldable pub attempt_once : C.World → Attempt C.World
  attempt_once w =
      let (w', lost) = C.ping w in
      elim lost [
        | some e ↦ sort_error w' e (wrap (codes "connecting to store") e)
        | none ↦
            let (w'', out) = C.migrate w' in
            elim out [ some e ↦ sort_error w'' e e | none ↦ done w'' ]
      ]

  -- `left` attempts from number `attempt` on, with the error of the one before.
  unfoldable pub attempts : ℕ → ℕ → C.World → Error → C.World × Option Error
  attempts zero attempt w last = (
    w,
    some (
        wrap (codes "store stayed locked through " ++ (decimal init_attempts ++ codes " attempts"))
          last),
  )
  attempts (suc left) attempt w last =
      let (w', ended) = C.wait w (attempt * init_backoff) in
      elim ended [
        | some cancelled ↦ (w', some (join cancelled last))
        | none ↦ elim (attempt_once w') [
          | done w'' ↦ (w'', none)
          | failed w'' e ↦ (w'', some e)
          | busy w'' e ↦ attempts left (suc attempt) w'' e
        ]
      ]

  -- The first attempt does not wait.
  unfoldable pub initialize : C.World → C.World × Option Error
  initialize w = elim (attempt_once w) [
    | done w' ↦ (w', none)
    | failed w' e ↦ (w', some e)
    | busy w' e ↦ attempts (init_attempts - 1) 1 w' e
  ]
