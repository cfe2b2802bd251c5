-- ===== src/Tests/Launch.antt =====
-- Openings, snapshots and whole runs of the command on the machine of the tests.
use field_docket.Base.{
  ◌≡◌, ◌≢◌, ◌⊎◌, inl, inr, refl, List, [], ◌∷◌, All, Bytes, codes, none, some, if◌then◌else◌,
}
use field_docket.Base.Compare.{same, compare_bytes}
use field_docket.Go.Errors.{is_exist, Result, ok}
use field_docket.Go.Path.{
  dir, clean, join_path, parts_of, render, is_rooted, push_all, split_path, push, up_to_slash, abs,
}
use field_docket.Go.Text.{is_empty, join_with, trim_space, has_prefix}
use field_docket.Go.Flag.{read_flag, parse_flags}
use field_docket.Store.Open.{open_store}
use field_docket.Store.Open.Accounts.{IsSettled, open_store-IsSettled}
use field_docket.Store.Snapshot.{snapshot}
use field_docket.Store.Snapshot.Copies.{snapshot-copies}
use field_docket.Store.Snapshot.Watched.{watched}
use field_docket.Store.Snapshot.Seen.{IsIntact, snapshot-IsIntact}
use field_docket.Config.{
  File, Config, load, load_at, config_path, config_base, name_path, default_path, expand_tilde,
  is_plain, load_store, load_entries, from_file,
}
use field_docket.Store.Opening.{initialize, attempt_once}
use field_docket.Store.Closing.{close, close_handle}
use field_docket.Store.Permissions.{check_permissions}
use field_docket.Command.{StoreTarget, parse_config_flag, resolve_store, store_path, allowlisted}
use field_docket.Command.Main.{disk, close_at_end, main, returned}
use field_docket.Command.Arguments.{spell, last_value}
use field_docket.Command.Target.{IsGuarded, IsExempt}
use field_docket.Command.Main.Untouched.{main-part}
use field_docket.Command.Main.Balanced.{IsBalanced}
use field_docket.Command.Main.Closed.{main-IsBalanced}
use field_docket.Command.Main.Copied.{IsCopied, main-copies}
use field_docket.Tests.Machine.{
  World, entry, machine, store_platform, accounts, accounted, make_at, exec_at, chmod_at, rename_at,
  remove_at,
}
use field_docket.Tests.Machine.Laws.{quiet, view, as_documented}
use field_docket.Tests.Settings.{with_file, unmarshal, readable}

abbrev begin : World
begin = record {
  docket = codes "rows";
  entries = λ p. if same p (codes "/t/old") then some (0o644, codes "kept") else none;
  stage = none;
  opened = [];
  closed = [];
  said = [];
}

open_store-IsSettled_example :
    IsSettled store_platform accounts accounted [] []
      (open_store store_platform (codes "/h/d") begin)
open_store-IsSettled_example =
    open_store-IsSettled store_platform accounts accounted (codes "/h/d") begin

-- What the destination `/t/copy` holds after a snapshot.
abbrev after_copy : World
after_copy = record begin {
  entries = λ p. if same p (codes "/t/copy") then some (0o600, codes "rows") else begin.entries p;
}

taken : snapshot (disk machine (some 0)) (codes "/t/copy") begin ≡ (after_copy, none)
unfolding snapshot make_at exec_at chmod_at rename_at remove_at compare_bytes dir clean render
    is_rooted up_to_slash is_empty join_with parts_of push_all split_path push join_path
taken = refl

old_apart : entry (codes "/t/old") ≢ entry (codes "/t/copy")
old_apart h = cc

snapshot-copies_example :
    (after_copy.entries (codes "/t/copy") ≡ some (0o600, codes "rows"))
    × (after_copy.entries (codes "/t/old") ≡ begin.entries (codes "/t/old"))
unfolding compare_bytes
snapshot-copies_example =
    snapshot-copies (disk machine (some 0)) view (as_documented 0) {dest = codes "/t/copy"} taken
      (entry (codes "/t/old")) old_apart

snapshot-IsIntact_example :
    let (done, failure) =
      snapshot (watched (disk machine (some 0))) (codes "/t/copy") (begin, []) in
    ((done.0, failure) ≡ snapshot (disk machine (some 0)) (codes "/t/copy") begin)
    × All (IsIntact view (codes "/t/copy") (entry (codes "/t/old")) begin) done.1
unfolding compare_bytes
snapshot-IsIntact_example =
    snapshot-IsIntact (disk machine (some 0)) view (as_documented 0) (codes "/t/copy") begin
      (entry (codes "/t/old")) old_apart refl

abbrev quote : Bytes → Bytes
quote s = s

abbrev snapshot_line : List Bytes
snapshot_line = codes "snapshot" ∷ codes "/t/copy" ∷ []

abbrev end : World
end = record after_copy { opened = 0 ∷ 1 ∷ []; closed = 1 ∷ 0 ∷ [] }

ran : main machine with_file readable unmarshal quote snapshot_line begin ≡ (end, returned)
unfolding main parse_flags resolve_store check_permissions abs open_store snapshot make_at exec_at
    chmod_at rename_at remove_at compare_bytes dir clean render is_rooted up_to_slash is_empty
    join_with parts_of push_all split_path push join_path trim_space has_prefix initialize
    close_at_end close is_exist attempt_once close_handle
ran = refl

main-IsBalanced_example : IsBalanced machine accounts accounted quiet [] [] end
main-IsBalanced_example =
    main-IsBalanced machine accounts accounted quiet with_file readable unmarshal quote
      snapshot_line begin ran (inl refl)

main-copies_example :
    (t : StoreTarget) × (resolve_store with_file readable unmarshal [] ≡ ok t)
    × IsCopied machine view as_documented (codes "/t/copy") (λ m w. refl) (λ h w. refl) t begin end
unfolding read_flag main spell last_value
main-copies_example =
    main-copies machine view as_documented (codes "/t/copy") (λ m w. refl) (λ h w. refl) with_file
      readable unmarshal quote [] begin refl ran

-- A configuration that exempts no store.
abbrev strict : Bytes → Result File
strict s = ok (record { store = codes "~/d"; allow_unsafe_permissions = [] })

abbrev unexempt : Config
unexempt = record { store = codes "/h/d"; allow_unsafe_permissions = [] }

strict_loaded : load with_file strict [] ≡ ok unexempt
unfolding load load_at config_path config_base name_path default_path expand_tilde is_plain
    load_store load_entries from_file trim_space is_empty has_prefix join_path clean join_with
    compare_bytes parts_of render is_rooted push_all split_path push
strict_loaded = refl

strict_placed : store_path with_file unexempt ≡ ok (codes "/h/d")
unfolding store_path is_empty
strict_placed = refl

reachable : ¬ (IsGuarded readable (codes "/h/d") ⊎ IsExempt with_file unexempt (codes "/h/d"))
unfolding allowlisted
reachable (inl (inl h)) = cc
reachable (inl (inr (h, _, _, _))) = cc
reachable (inr h) = cc

no_arguments : parse_config_flag quote [] ≡ ok []
unfolding parse_config_flag parse_flags
no_arguments = refl

main-part_example : (main machine with_file readable strict quote [] begin).0.opened ≡ begin.opened
main-part_example =
    main-part machine with_file readable strict quote (λ w. w.opened) (λ m w. refl) (λ e w. refl) []
      begin no_arguments strict_loaded strict_placed reachable
