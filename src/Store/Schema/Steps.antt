-- ===== src/Store/Schema/Steps.antt =====
-- What the steps of the ladder run, and that none of it lasts without a commit.
use field_docket.Base.{
  ℤ, pos, negsuc, ℕ, ltb, not, ◌≡◌, refl, sym, if◌then◌else◌, Bool, true, List, [], ◌∷◌, ◌++◌,
  append_assoc, append-nil, none, Bytes, arith,
}
use field_docket.Store.Schema.{
  Database, Migration, passed, exec_all, climb, record_version, set_version, schema_version,
}
use field_docket.Store.Schema.Driver.{IsDatabase}

-- A version number is less than the step's.
unfoldable pub is_behind : ℤ → ℕ → Bool
is_behind (pos n) step = ltb n step
is_behind (negsuc n) step = true

-- The statements of the steps that a version is behind, in order.
unfoldable pub ladder_from : ℤ → List Migration → List Bytes
ladder_from v [] = []
ladder_from v (m ∷ ms) =
    let rest = ladder_from v ms in if is_behind v m.version then m.stmts ++ rest else rest

unfoldable pub version_from : ℤ → List Bytes
version_from v = if is_behind v schema_version then set_version ∷ [] else []

passed-is_behind : (step : ℕ) (v : ℤ) → passed step v ≡ not (is_behind v step)
unfolding passed is_behind
passed-is_behind step (pos n) = ground arith
passed-is_behind step (negsuc n) = refl

module _ (D : Database) (L : IsDatabase D) where
  exec_all-doing :
      (v : ℕ) (stmts : List Bytes) (tx : D.Tx)
      → (exec_all D v stmts tx).1 ≡ none
      → L.doing (exec_all D v stmts tx).0 ≡ L.doing tx ++ stmts
  unfolding exec_all
  exec_all-doing v [] tx h = sym (append-nil (L.doing tx))
  exec_all-doing v (stmt ∷ stmts) tx h = ground (
    arith,
    exec_all-doing v stmts (D.exec tx stmt).0,
    L.execs tx stmt,
    append_assoc (L.doing tx) (stmt ∷ []) stmts,
  )

  exec_all-lasting :
      (v : ℕ) (stmts : List Bytes) (tx : D.Tx) → L.lasting (exec_all D v stmts tx).0 ≡ L.lasting tx
  unfolding exec_all
  exec_all-lasting v [] tx = refl
  exec_all-lasting v (stmt ∷ stmts) tx =
      ground (arith, exec_all-lasting v stmts (D.exec tx stmt).0, L.exec-lasting tx stmt)

  pub climb-doing :
      (v : ℤ) (ms : List Migration) (tx : D.Tx)
      → (climb D v ms tx).1 ≡ none
      → L.doing (climb D v ms tx).0 ≡ L.doing tx ++ ladder_from v ms
  unfolding climb ladder_from
  climb-doing v [] tx h = sym (append-nil (L.doing tx))
  climb-doing v (m ∷ ms) tx h = ground (
    arith,
    passed-is_behind m.version v,
    exec_all-doing m.version m.stmts tx,
    climb-doing v ms tx,
    climb-doing v ms (exec_all D m.version m.stmts tx).0,
    append_assoc (L.doing tx) m.stmts (ladder_from v ms),
  )

  pub climb-lasting :
      (v : ℤ) (ms : List Migration) (tx : D.Tx) → L.lasting (climb D v ms tx).0 ≡ L.lasting tx
  unfolding climb
  climb-lasting v [] tx = refl
  climb-lasting v (m ∷ ms) tx = ground (
    arith,
    exec_all-lasting m.version m.stmts tx,
    climb-lasting v ms tx,
    climb-lasting v ms (exec_all D m.version m.stmts tx).0,
  )

  pub record_version-doing :
      (v : ℤ) (tx : D.Tx)
      → (record_version D v tx).1 ≡ none
      → L.doing (record_version D v tx).0 ≡ L.doing tx ++ version_from v
  unfolding record_version version_from
  record_version-doing v tx h =
      ground
        (arith, passed-is_behind schema_version v, L.execs tx set_version, append-nil (L.doing tx))

  pub record_version-lasting :
      (v : ℤ) (tx : D.Tx) → L.lasting (record_version D v tx).0 ≡ L.lasting tx
  unfolding record_version
  record_version-lasting v tx = ground (arith, L.exec-lasting tx set_version)
