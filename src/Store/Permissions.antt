-- ===== src/Store/Permissions.antt =====
-- internal/store/permissions.go: the check of the store's files, and the message of a refusal.
pub mod Quoting
pub mod Modes
pub mod Private
use Prim.Native.Nat.{bit_and}
use field_docket.Base.{
  ℕ, zero, suc, ◌+◌, ◌/◌, ◌%◌, Bool, true, false, not, ◌&&◌, List, [], ◌∷◌, ◌++◌, map, Bytes, codes,
  any_of, concat, length, Option, none, some, ◌==◌, if◌then◌else◌,
}
use field_docket.Go.Errors.{Error, text, wrap, is_not_exist, Result, ok, err, ◌>>=◌}
use field_docket.Go.Text.{join_with}

-- `PermissionIssue`
pub record PermissionIssue : Type 0 where
  pub path : Bytes
  pub mode : ℕ
  pub symlink : Bool

-- `%04o`: at least four octal digits, which the permission bits never exceed.
unfoldable pub octal : ℕ → ℕ → Bytes
octal zero n = []
octal (suc w) n = octal w (n / 8) ++ (b'0' + n % 8) ∷ []

-- `String`. `Perm` keeps the nine permission bits.
unfoldable pub issue_text : PermissionIssue → Bytes
unfolding octal
issue_text p =
    if p.symlink
    then p.path ++ codes " is a symbolic link"
    else p.path ++ (codes " has mode " ++ octal 4 (p.mode % 512))

-- The characters for which `shellQuote` quotes.
abbrev pub special_characters : Bytes
special_characters = codes " \t\n'\"\\$`*?[]{}()|&;<>#~!"

unfoldable pub is_special : ℕ → Bool
is_special c = any_of (λ d. c == d) special_characters

abbrev pub single_quote : ℕ
single_quote = b'\''

-- `strings.ReplaceAll(path, "'", …)`: a quote leaves the quotes, is escaped, and opens new ones.
unfoldable pub escape_quotes : Bytes → Bytes
escape_quotes [] = []
escape_quotes (c ∷ s) =
    if c == single_quote then codes "'\\''" ++ escape_quotes s else c ∷ escape_quotes s

-- `shellQuote`
unfoldable pub shell_quote : Bytes → Bytes
unfolding is_special escape_quotes
shell_quote path =
    if any_of is_special path
    then single_quote ∷ (escape_quotes path ++ single_quote ∷ [])
    else path

-- The loop that sorts the issues into paths to repair and links to replace.
unfoldable pub repair_paths : List PermissionIssue → List Bytes
unfolding shell_quote
repair_paths [] = []
repair_paths (i ∷ is) =
    let rest = repair_paths is in if i.symlink then rest else shell_quote i.path ∷ rest

unfoldable pub link_paths : List PermissionIssue → List Bytes
link_paths [] = []
link_paths (i ∷ is) = let rest = link_paths is in if i.symlink then i.path ∷ rest else rest

abbrev lead : List PermissionIssue → Bytes
lead (i ∷ []) = codes "one of its files is reachable by more than its owner: "
lead _ = codes "some of its files are reachable by more than their owner: "

abbrev repair_text : List Bytes → Bytes
repair_text [] = []
repair_text (p ∷ ps) =
    codes " To repair the permissions and start again, run:\n    chmod 0600 "
    ++ (join_with (codes " ") (p ∷ ps) ++ codes "\n")

abbrev link_text : Bytes → Bytes
link_text link =
    codes " "
    ++ (link
        ++ (codes " is a symbolic link and needs replacing by hand with the file it "
            ++ codes
                "stands in for; changing its mode would affect whatever it points at instead.\n"))

-- The text of `UnsafeStoreError`.
unfoldable pub unsafe_store_text : List PermissionIssue → Bytes
unfolding issue_text join_with repair_paths link_paths
unsafe_store_text issues = concat (
    codes "this docket is not being served because "
    ∷ lead issues
    ∷ join_with (codes "; ") (map issue_text issues)
    ∷ codes ". This server creates a docket 0600, so another mode means something "
    ∷ codes "outside it has touched these files, and a mode carries no history of what it was "
    ∷ codes "before. The record may have been modified, not merely read, so the observations "
    ∷ codes "already stored cannot be assumed intact."
    ∷ repair_text (repair_paths issues)
    ∷ concat (map link_text (link_paths issues))
    ∷ codes "To copy the docket before touching it, copy the database and any "
    ∷ codes "-wal/-shm files beside it; `field-docket snapshot <path>` also works, but it opens "
    ∷ codes "the docket to do so. To keep using this docket as it is, list its path under "
    ∷ codes "allow_unsafe_permissions in the config file."
    ∷ [])

unfoldable pub unsafe_store_error : List PermissionIssue → Error
unfolding unsafe_store_text
unsafe_store_error issues = text (unsafe_store_text issues)

-- `os.FileInfo`, as far as it is read: whether it is a link, and the permission bits.
pub record FileInfo : Type 0 where
  pub is_symlink : Bool
  pub perm : ℕ

-- The operating system: whether it is Windows, `os.Lstat` and `os.Stat`.
pub record Files : Type 0 where
  pub is_windows : Bool
  pub lstat : Bytes → Result FileInfo
  pub stat : Bytes → Result FileInfo

-- A failed look at a file: none where there is no such file.
abbrev absent : Bytes → Error → Result (Option PermissionIssue)
absent p e = if is_not_exist e then ok none else err (wrap (codes "inspecting " ++ p) e)

-- `perm&0o077 != 0`
unfoldable pub is_loose : ℕ → Bool
is_loose perm = not (bit_and perm 0o077 == 0)

abbrev check_mode : Bytes → FileInfo → Result (Option PermissionIssue)
check_mode p info =
    if is_loose info.perm
    then ok (some (record { path = p; mode = info.perm; symlink = false }))
    else ok none

-- One round of the loop.
unfoldable pub check_file : Files → Bool → Bytes → Result (Option PermissionIssue)
unfolding is_not_exist is_loose
check_file F is_sidecar p = elim (F.lstat p) [
  | err e ↦ absent p e
  | ok info ↦
      if info.is_symlink
      then if is_sidecar
        then ok (some (record { path = p; mode = 0; symlink = true }))
        else elim (F.stat p) [ err e ↦ absent p e | ok target ↦ check_mode p target ]
      else check_mode p info
]

abbrev cons_issue : Option PermissionIssue → List PermissionIssue → List PermissionIssue
cons_issue none is = is
cons_issue (some i) is = i ∷ is

-- The files that are inspected, the database first, each with whether it is a sidecar.
unfoldable pub store_files : Bytes → List (Bool × Bytes)
store_files path =
    (false, path)
    ∷ (true, path ++ codes "-wal")
    ∷ (true, path ++ codes "-shm")
    ∷ (true, path ++ codes "-journal")
    ∷ []

unfoldable pub check_files : Files → List (Bool × Bytes) → Result (List PermissionIssue)
unfolding check_file
check_files F [] = ok []
check_files F ((is_sidecar, p) ∷ ps) =
    let rest = check_files F ps in
    do issue ← check_file F is_sidecar p; issues ← rest; ok (cons_issue issue issues)

-- `CheckPermissions`
unfoldable pub check_permissions : Files → Bytes → Result (List PermissionIssue)
unfolding check_files store_files
check_permissions F path = if F.is_windows then ok [] else check_files F (store_files path)
