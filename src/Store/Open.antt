-- ===== src/Store/Open.antt =====
-- internal/store/store.go: `Open`, with `dsn`.
pub mod Accounts
pub mod Complete
use field_docket.Base.{
  ℕ, Bool, true, false, List, [], ◌∷◌, ◌++◌, Bytes, codes, Option, none, some, if◌then◌else◌,
}
use field_docket.Go.Errors.{Error, wrap, join, is_exist, Result, ok, err}
use field_docket.Go.Text.{join_with}
use field_docket.Go.Path.{dir}
use field_docket.Store.Closing.{Pool, Handles, close}
use field_docket.Store.Opening.{Connection, initialize}

abbrev pub pragmas : List Bytes
pragmas =
    codes "_pragma=busy_timeout(5000)"
    ∷ codes "_pragma=journal_mode(WAL)"
    ∷ codes "_pragma=synchronous(NORMAL)"
    ∷ []

-- `dsn`
unfoldable pub dsn : Bytes → Bool → Bytes
dsn path writable =
    codes "file:"
    ++ (path
        ++ (codes "?"
            ++ join_with (codes "&")
                (if writable then pragmas ++ codes "_txlock=immediate" ∷ [] else pragmas)))

-- The operating system and the driver, as far as `Open` calls them: `os.MkdirAll`, `os.OpenFile` of
-- a file that must be new, `Close` on that file, `sql.Open`, `SetMaxOpenConns`, and what
-- `initialize` does with the write handle.
pub record Platform : Type 1 where
  pub pool : Pool
  pub open pool use *
  pub NewFile : Type 0
  pub make_dirs : Bytes → ℕ → World → World × Option Error
  pub create_new : Bytes → ℕ → World → World × Result NewFile
  pub close_file : NewFile → World → World × Option Error
  pub open_db : Bytes → World → World × Result Handle
  pub set_max_open : Handle → ℕ → World → World
  pub ping : Handle → World → World × Option Error
  pub migrate : Handle → World → World × Option Error
  pub wait : World → ℕ → World × Option Error

module _ (P : Platform) where
  -- The write handle as `initialize` uses it.
  abbrev pub connection : P.Handle → Connection
  connection h = record { World = P.World; ping = P.ping h; migrate = P.migrate h; wait = P.wait }

  abbrev pub Opened : Type 0
  Opened = P.World × Result (Handles P.pool)

  -- The deferred function on the error path: closes what is open.
  unfoldable pub give_up : Handles P.pool → P.World → Error → Opened
  give_up st w e =
      let ((w', left), failure) = close P.pool (some st) w in
      (w', err (elim failure [ none ↦ e | some c ↦ join e c ]))

  unfoldable pub start : P.Handle → P.Handle → P.World → Opened
  unfolding give_up
  start wh rh w =
      let st : Handles P.pool = record { read_db = some rh; write_db = some wh } in
      let (w', failure) = initialize (connection wh) w in
      elim failure [ some e ↦ give_up st w' e | none ↦ (w', ok st) ]

  unfoldable pub open_read : Bytes → P.Handle → P.World → Opened
  unfolding give_up start
  open_read path wh w =
      let (w', r) = P.open_db (dsn path false) (P.set_max_open wh 1 w) in
      elim r [
        | err e ↦
            give_up (record { read_db = none; write_db = some wh }) w'
              (wrap (codes "opening store for reading") e)
        | ok rh ↦ start wh rh w'
      ]

  unfoldable pub connect : Bytes → P.World → Opened
  unfolding give_up open_read
  connect path w =
      let (w', r) = P.open_db (dsn path true) w in
      elim r [
        | err e ↦
            give_up (record { read_db = none; write_db = none }) w'
              (wrap (codes "opening store for writing") e)
        | ok wh ↦ open_read path wh w'
      ]

  -- The file is created with its mode before the driver can create it; one that is there stays.
  unfoldable pub close_new : Bytes → P.NewFile → P.World → Opened
  unfolding connect
  close_new path f w =
      let (w', failure) = P.close_file f w in
      elim failure [
        | some e ↦ (w', err (wrap (codes "closing newly created store file") e))
        | none ↦ connect path w'
      ]

  unfoldable pub create_file : Bytes → P.World → Opened
  unfolding connect close_new
  create_file path w =
      let (w', r) = P.create_new path 0o600 w in
      elim r [
        | ok f ↦ close_new path f w'
        | err e ↦ elim (is_exist e) [
          | true ↦ connect path w'
          | false ↦ (w', err (wrap (codes "creating store file") e))
        ]
      ]

  -- `Open`
  unfoldable pub open_store : Bytes → P.World → Opened
  unfolding create_file
  open_store path w =
      let (w', failure) = P.make_dirs (dir path) 0o700 w in
      elim failure [
        | some e ↦ (w', err (wrap (codes "creating store directory") e))
        | none ↦ create_file path w'
      ]
