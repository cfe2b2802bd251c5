-- ===== src/Tests/Files.antt =====
-- The permission check on a small file system, and the repair command of two paths.
use field_docket.Base.{
  select, ◌≡◌, ◌↔◌, ◌⊎◌, true, false, List, [], ◌∷◌, codes, some, if◌then◌else◌,
}
use field_docket.Base.Compare.{same}
use field_docket.Go.Errors.{not_exist, ok, err}
use field_docket.Go.Text.{join_with}
use field_docket.Store.Permissions.{PermissionIssue, Files, check_permissions, repair_paths}
use field_docket.Store.Permissions.Private.{ArePrivate, check_permissions-nil}
use field_docket.Store.Permissions.Quoting.{words, between, loose_paths, words-repair_paths}

-- Only the database is there, and it has the mode 0600.
abbrev disk : Files
disk = record {
  is_windows = false;
  lstat = λ p.
      if same p (codes "/d")
      then ok (record { is_symlink = false; perm = 0o600 })
      else err (not_exist []);
  stat = λ p. err (not_exist []);
}

check_permissions-nil_example :
    (check_permissions disk (codes "/d") ≡ ok [])
    ↔ (disk.is_windows ≡ true) ⊎ ArePrivate disk (codes "/d")
check_permissions-nil_example = check_permissions-nil disk (codes "/d")

abbrev issues : List PermissionIssue
issues =
    record { path = codes "it's"; mode = 0o644; symlink = false }
    ∷ record { path = codes "link"; mode = 0; symlink = true }
    ∷ record { path = codes "a b"; mode = 0o666; symlink = false }
    ∷ []

words-repair_paths_example :
    words between (join_with (codes " ") (repair_paths issues)) ≡ some (loose_paths issues)
unfolding select
words-repair_paths_example = words-repair_paths issues (tt, (tt, tt))
