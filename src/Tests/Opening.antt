-- ===== src/Tests/Opening.antt =====
-- A migration of a small database, and an opening that finds it locked twice.
use field_docket.Base.{
  pos, ◌≡◌, ◌≢◌, ℕ, zero, suc, ◌+◌, ◌*◌, ◌≤◌, refl, sym, ap, arith, List, [], ◌∷◌, ◌++◌, Bytes,
  codes, Option, none, some,
}
use field_docket.Go.Errors.{Error, sqlite, tx_done, ok, ok-injective}
use field_docket.Store.Schema.{Database, migrate}
use field_docket.Store.Schema.Driver.{IsDatabase}
use field_docket.Store.Schema.Climb.{Climbed, migrate-Climbed}
use field_docket.Store.Schema.Newer.{migrate-newer}
use field_docket.Store.Opening.{Connection, initialize}
use field_docket.Store.Opening.Retries.{initialize-cost}

-- A database of a version is the list of the statements that it ran. A transaction has what it
-- sees, what lasts, and whether it is over.
abbrev ledger : ℕ → Database
ledger n = record {
  State = List Bytes;
  Tx = List Bytes × (List Bytes × Option Error);
  begin = λ s. ok (s, (s, none));
  user_version = λ tx. ok (pos n);
  exec = λ tx stmt. ((tx.0 ++ stmt ∷ [], tx.1), none);
  commit = λ tx. ((tx.0, (tx.0, some tx_done)), none);
  rollback = λ tx. (tx, tx.1.1);
  left = λ tx. tx.1.0;
}

ledger-IsDatabase : (n : ℕ) → IsDatabase (ledger n)
ledger-IsDatabase n = record {
  ran = λ s. s;
  doing = λ tx. tx.0;
  lasting = λ tx. tx.1.0;
  version = λ s. pos n;
  begins = λ s tx h. (
    ap (λ (t : List Bytes × (List Bytes × Option Error)). t.0) (sym (ok-injective h)),
    ap (λ (t : List Bytes × (List Bytes × Option Error)). t.1.0) (sym (ok-injective h)),
  );
  reads = λ s tx v b h. sym (ok-injective h);
  execs = λ tx stmt h. refl;
  exec-lasting = λ tx stmt. refl;
  commits = λ tx h. (refl, refl);
  commit-lasting = λ tx e h. ground arith;
  rollbacks = λ tx. refl;
}

migrate-Climbed_example : Climbed (ledger 0) (ledger-IsDatabase 0) [] (migrate (ledger 0) [])
migrate-Climbed_example = migrate-Climbed (ledger 0) (ledger-IsDatabase 0) []

migrate-newer_example :
    ((migrate (ledger 2) []).1 ≢ none)
    × ((ledger-IsDatabase 2).ran (migrate (ledger 2) []).0 ≡ (ledger-IsDatabase 2).ran [])
unfolding ledger-IsDatabase
migrate-newer_example = migrate-newer (ledger 2) (ledger-IsDatabase 2) [] refl (omega arith)

-- A world counts the nanoseconds waited and the locked pings that are left.
ping : ℕ × ℕ → (ℕ × ℕ) × Option Error
ping (spent, zero) = ((spent, zero), none)
ping (spent, suc n) = ((spent, n), some (sqlite 5 (codes "database is locked")))

abbrev stampede : Connection
stampede = record {
  World = ℕ × ℕ;
  ping = ping;
  migrate = λ w. (w, none);
  wait = λ w d. ((w.0 + d, w.1), none);
}

ping-cost : (w : ℕ × ℕ) → (ping w).0.0 ≤ w.0 + 0
unfolding ping
ping-cost (spent, zero) = omega arith
ping-cost (spent, suc n) = omega arith

initialize-cost_example : (initialize stampede (0, 2)).0.0 ≤ 0 + 12 * (0 + 0) + 1_650_000_000
initialize-cost_example =
    initialize-cost stampede (λ w. w.0) 0 0 ping-cost (λ w. omega arith) (λ w d. omega arith) (0, 2)
