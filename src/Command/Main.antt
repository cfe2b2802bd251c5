-- ===== src/Command/Main.antt =====
-- cmd/field-docket/main.go: `main`, with `runSnapshot`, `run` and `isCleanShutdown`.
pub mod Untouched
pub mod Balanced
pub mod Closed
pub mod Copied
pub mod Endings
use field_docket.Base.{
  negsuc, pos, ℤ, ℕ, Bool, true, false, ◌||◌, List, [], ◌∷◌, ◌++◌, Bytes, codes, Option, none, some,
  ◌==◌, if◌then◌else◌,
}
use field_docket.Base.Compare.{same}
use field_docket.Go.Errors.{Error, text, message, is_eof, rpc_code, Result, ok, err, ◌>>=◌}
use field_docket.Go.Host.{Host}
use field_docket.Go.Flag.{parse_flags}
use field_docket.Config.{File}
use field_docket.Store.Permissions.{Files}
use field_docket.Store.Closing.{Handles, close}
use field_docket.Store.Open.{Platform, open_store}
use field_docket.Store.Snapshot.{Disk, snapshot}
use field_docket.Command.{StoreTarget, resolve_store, config_flag, parse_config_flag}

-- -32004
abbrev pub code_server_closing : ℤ
code_server_closing = negsuc 32_003

unfoldable pub same_code : ℤ → ℤ → Bool
same_code (pos m) (pos n) = m == n
same_code (negsuc m) (negsuc n) = m == n
same_code _ _ = false

-- `isCleanShutdown`
unfoldable pub is_clean_shutdown : Option Error → Bool
unfolding same_code
is_clean_shutdown none = true
is_clean_shutdown (some e) =
    is_eof e || elim (rpc_code e) [ none ↦ false | some code ↦ same_code code code_server_closing ]

-- How the process ends: `main` returns, or `log.Fatalf` exits, and what is deferred is not done.
pub data Status : Type 0 where
  returned exited : Status

-- What the command uses beside the reading of its settings: the platform of the store, the calls
-- of a snapshot, `log`, the writing of the usage, and `Run` of the server that `New` makes of a
-- store and the reason why there is none. What `Parse` writes of arguments that it refuses is left
-- out.
pub record Machine : Type 1 where
  pub platform : Platform
  pub open platform use *
  pub make_temp_dir : Bytes → Bytes → World → World × Result Bytes
  pub exec : Option Handle → Bytes → Bytes → World → World × Option Error
  pub chmod : Bytes → ℕ → World → World × Option Error
  pub rename : Bytes → Bytes → World → World × Option Error
  pub remove_all : Bytes → World → World × Option Error
  pub log : Bytes → World → World
  pub print_line : Bytes → World → World × Option Error
  pub print_defaults : World → World
  pub serve : Option (Handles pool) → Option Error → World → World × Option Error

module _ (M : Machine) where
  abbrev pub Ended : Type 0
  Ended = M.World × Status

  abbrev pub Store : Type 0
  Store = Handles M.pool

  -- What `Snapshot` uses, with the read handle of its store.
  abbrev pub disk : Option M.Handle → Disk
  disk h = record {
    World = M.World;
    make_temp_dir = M.make_temp_dir;
    exec = M.exec h;
    chmod = M.chmod;
    rename = M.rename;
    remove_all = M.remove_all;
  }

  -- `log.Fatalf`
  abbrev pub fatal : Bytes → Error → M.World → Ended
  fatal prefix e w = (M.log (prefix ++ message e) w, exited)

  -- The deferred function that closes the store.
  unfoldable pub close_at_end : Store → M.World → M.World
  close_at_end st w =
      let ((w', left), failure) = close M.pool (some st) w in
      elim failure [
        | none ↦ w'
        | some e ↦ M.log (codes "field-docket: closing store: " ++ message e) w'
      ]

  -- `run`
  unfoldable pub run : Option Store → Option Error → M.World → M.World × Option Error
  unfolding is_clean_shutdown
  run st unavailable w =
      let (w', failure) = M.serve st unavailable w in
      (w', if is_clean_shutdown failure then none else failure)

  -- The end of `main`.
  abbrev pub after_run : (M.World → M.World) → M.World × Option Error → Ended
  after_run deferred (w, none) = (deferred w, returned)
  after_run deferred (w, some e) = fatal (codes "mcp server: ") e w

  unfoldable pub serve_opened : M.World × Result Store → Ended
  unfolding run close_at_end
  serve_opened (w, err e) = fatal (codes "field-docket: ") e w
  serve_opened (w, ok st) = after_run (close_at_end st) (run (some st) none w)

  unfoldable pub serve_target : StoreTarget → M.World → Ended
  unfolding serve_opened
  serve_target t w = elim (t.unusable) [
    | some why ↦
        after_run (λ w'. w') (run none (some why) (M.log (codes "field-docket: " ++ message why) w))
    | none ↦ serve_opened (open_store M.platform t.path w)
  ]

  abbrev pub usage_line : Bytes
  usage_line = codes "usage: field-docket snapshot [--config path] <destination>"

  -- `fs.Usage` of the subcommand.
  unfoldable pub usage : M.World → M.World
  usage w =
      let (w', failure) = M.print_line usage_line w in
      elim failure [ some e ↦ w' | none ↦ M.print_defaults w' ]

  abbrev pub suspect : Bytes → Bytes
  suspect path =
      codes "field-docket snapshot: "
      ++ (path
          ++ codes
              " is reachable by more than its owner, so the record it holds may have been modified; this copy is consistent but not untouched: taking it opens the docket")

  unfoldable pub warn : StoreTarget → M.World → M.World
  warn t w = elim (t.unusable) [ none ↦ w | some why ↦ M.log (suspect t.path) w ]

  -- The store is closed when the snapshot has returned.
  unfoldable pub snapshot_opened : Bytes → M.World × Result Store → M.World × Option Error
  unfolding close_at_end
  snapshot_opened dest (w, err e) = (w, some e)
  snapshot_opened dest (w, ok st) =
      let (w', failure) = snapshot (disk st.read_db) dest w in (close_at_end st w', failure)

  unfoldable pub snapshot_target : Bytes → StoreTarget → M.World → M.World × Option Error
  unfolding warn snapshot_opened
  snapshot_target dest t w = snapshot_opened dest (open_store M.platform t.path (warn t w))

  module _ (H : Host) (F : Files) (unmarshal : Bytes → Result File) (quote : Bytes → Bytes) where
    -- What `runSnapshot` does with the flag's value and the arguments that are left.
    unfoldable pub snapshot_settled : Bytes × List Bytes → M.World → M.World × Option Error
    unfolding usage snapshot_target
    snapshot_settled (path, dest ∷ []) w = elim (resolve_store H F unmarshal path) [
      | err e ↦ (w, some e)
      | ok t ↦ snapshot_target dest t w
    ]
    snapshot_settled (path, rest) w =
        (usage w, some (text (codes "expected exactly one destination path")))

    -- `runSnapshot`
    unfoldable pub run_snapshot : List Bytes → M.World → M.World × Option Error
    unfolding snapshot_settled
    run_snapshot args w = elim (parse_flags config_flag [] false args) [
      | err e ↦ (w, some e)
      | ok settled ↦ snapshot_settled settled w
    ]

    unfoldable pub main_serve : List Bytes → M.World → Ended
    unfolding serve_target
    main_serve args w =
        elim (parse_config_flag quote args >>= λ path. resolve_store H F unmarshal path) [
          | err e ↦ fatal (codes "field-docket: ") e w
          | ok t ↦ serve_target t w
        ]

    abbrev pub after_snapshot : M.World × Option Error → Ended
    after_snapshot (w, none) = (w, returned)
    after_snapshot (w, some e) = fatal (codes "field-docket snapshot: ") e w

    -- `main`, with the arguments behind the program's name.
    unfoldable pub main : List Bytes → M.World → Ended
    unfolding run_snapshot main_serve
    main [] w = main_serve [] w
    main (arg ∷ args) w = elim (same arg (codes "snapshot")) [
      | true ↦ after_snapshot (run_snapshot args w)
      | false ↦ main_serve (arg ∷ args) w
    ]
