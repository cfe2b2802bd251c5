-- ===== src/Store/Permissions/Private.antt =====
-- What an empty report means for the files of the store.

use field_docket.Base.{
  ◌%◌, ◌≡◌, refl, ap, ◌∙◌, ◌⊎◌, inl, inr, ◌↔◌, Bool, true, false, List, [], ◌∷◌, ◌++◌, arith,
  Option, none, some, Bytes, codes, All, if◌then◌else◌,
}
use field_docket.Go.Errors.{is_not_exist, Result, ok, err, >>=-eq-ok, ok-injective}
use field_docket.Store.Permissions.Modes.{is_loose_iff}
use field_docket.Store.Permissions.{
  PermissionIssue, FileInfo, Files, check_file, check_files, store_files, check_permissions,
  cons_issue,
}

-- No permission of the group's or the others' is set: the lowest six of the bits.
abbrev OwnerOnly : FileInfo → Type 0
OwnerOnly info = info.perm % 64 ≡ 0

abbrev PrivateInfo : Result FileInfo → Type 0
PrivateInfo (ok info) = OwnerOnly info
PrivateInfo (err e) = is_not_exist e ≡ true

-- A file that is absent or closed to all but its owner; a sidecar is no link, and a link to the
-- database is followed.
abbrev pub IsPrivate : Files → Bool × Bytes → Type 0
IsPrivate F (is_sidecar, p) = elim (F.lstat p) [
  | err e ↦ is_not_exist e ≡ true
  | ok info ↦ elim (info.is_symlink) [
    | false ↦ OwnerOnly info
    | true ↦ elim is_sidecar [ true ↦ ⊥ | false ↦ PrivateInfo (F.stat p) ]
  ]
]

check_file-none :
    (F : Files) (side : Bool) (p : Bytes) → (check_file F side p ≡ ok none) ↔ IsPrivate F (side, p)
unfolding check_file
check_file-none F side p = grind (arith, is_loose_iff)

cons_issue-nil :
    (i : Option PermissionIssue) (is : List PermissionIssue)
    → cons_issue i is ≡ []
    → (i ≡ none) × (is ≡ [])
cons_issue-nil none is h = (refl, h)
cons_issue-nil (some i) is h = cc

check_files-nil :
    (F : Files) (ps : List (Bool × Bytes)) → (check_files F ps ≡ ok []) ↔ All (IsPrivate F) ps
unfolding check_files
check_files-nil F [] = (λ h. tt, λ h. refl)
check_files-nil F ((side, p) ∷ ps) = let ih = check_files-nil F ps in (to ih, from ih)
  where
    to :
        (check_files F ps ≡ ok []) ↔ All (IsPrivate F) ps
        → check_files F ((side, p) ∷ ps) ≡ ok []
        → All (IsPrivate F) ((side, p) ∷ ps)
    to ih h =
        let (issue, first, h') = >>=-eq-ok (check_file F side p) _ h in
        let (issues, rest, last) = >>=-eq-ok (check_files F ps) _ h' in
        let (none_here, none_later) = cons_issue-nil issue issues (ok-injective last) in
        ((check_file-none F side p).0 (first ∙ ap ok none_here), ih.0 (rest ∙ ap ok none_later))

    from :
        (check_files F ps ≡ ok []) ↔ All (IsPrivate F) ps
        → All (IsPrivate F) ((side, p) ∷ ps)
        → check_files F ((side, p) ∷ ps) ≡ ok []
    from ih h = rw ((check_file-none F side p).1 h.0, ih.1 h.1)

guarded :
    {P : Type 0} (b : Bool) (r : Result (List PermissionIssue))
    → (r ≡ ok []) ↔ P
    → ((if b then ok [] else r) ≡ ok []) ↔ (b ≡ true) ⊎ P
guarded true r e = (λ h. inl refl, λ h. refl)
guarded {P} false r e = (λ h. inr (e.0 h), from)
  where
    from : (false ≡ true) ⊎ P → r ≡ ok []
    from (inl h) = cc
    from (inr h) = e.1 h

-- The database and what SQLite keeps beside it: the write-ahead log, its shared memory, and the
-- rollback journal.
abbrev pub ArePrivate : Files → Bytes → Type 0
ArePrivate F path =
    IsPrivate F (false, path)
    × IsPrivate F (true, path ++ codes "-wal")
    × IsPrivate F (true, path ++ codes "-shm")
    × IsPrivate F (true, path ++ codes "-journal")

store_files-ArePrivate :
    (F : Files) (path : Bytes) → All (IsPrivate F) (store_files path) ↔ ArePrivate F path
unfolding store_files
store_files-ArePrivate F path = ground arith

-- The check reports nothing exactly where it does not run, on Windows, or where the database and
-- the files beside it with -wal, -shm and -journal behind its name are private: a private file is
-- absent, or none of the group's and the others' six permission bits is set; the database may be
-- a link to such a file or to none, and the others are no links.
pub check_permissions-nil :
    (F : Files) (path : Bytes)
    → (check_permissions F path ≡ ok []) ↔ (F.is_windows ≡ true) ⊎ ArePrivate F path
unfolding check_permissions
check_permissions-nil F path =
    let listed = check_files-nil F (store_files path) in
    let named = store_files-ArePrivate F path in
    guarded F.is_windows (check_files F (store_files path))
      ((λ h. named.0 (listed.0 h)), (λ h. listed.1 (named.1 h)))
