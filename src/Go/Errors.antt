-- ===== src/Go/Errors.antt =====
-- Go error values: `errors.New`, `fmt.Errorf`, `errors.Join`, `errors.Is`, `errors.AsType`.
use field_docket.Base.{
  ℤ, ℕ, ◌≡◌, refl, Bool, true, false, ◌||◌, ◌++◌, Option, none, some, Bytes, codes,
}

pub data Error : Type 0 where
  -- `errors.New`, and `fmt.Errorf` with no `%w`.
  text : Bytes → Error
  -- `fmt.Errorf("prefix: %w", err)`
  wrap : Bytes → Error → Error
  -- `errors.Join` of two errors.
  join : Error → Error → Error
  -- A library's error that `errors.Is` finds to be `os.ErrNotExist`, `os.ErrExist`,
  -- `sql.ErrTxDone`, `io.EOF`.
  not_exist : Bytes → Error
  exist : Bytes → Error
  tx_done : Error
  eof : Error
  -- `*sqlite.Error` with its code.
  sqlite : ℕ → Bytes → Error
  -- `*jsonrpc.Error` with its code.
  rpc : ℤ → Bytes → Error
  -- Any other error of a library.
  foreign : Bytes → Error

-- The two ways in which a call that returns an error returns.
pub data Result {ℓ} (A : Type ℓ) : Type ℓ where
  ok : (value : A) → Result A
  err : (cause : Error) → Result A

infixl 5 ◌>>=◌
abbrev pub ◌>>=◌ {ℓ κ} : {A : Type ℓ} {B : Type κ} → Result A → (A → Result B) → Result B
ok value >>= next = next value
err cause >>= next = err cause

-- `fmt.Errorf("prefix: %w", err)` on the error path, nothing on the other.
abbrev pub context {ℓ} : {A : Type ℓ} → Bytes → Result A → Result A
context prefix (ok a) = ok a
context prefix (err e) = err (wrap prefix e)

-- `err.Error()`
unfoldable pub message : Error → Bytes
message (text m) = m
message (wrap m e) = m ++ codes ": " ++ message e
message (join a b) = message a ++ codes "\n" ++ message b
message (not_exist m) = m
message (exist m) = m
message tx_done = codes "sql: transaction has already been committed or rolled back"
message eof = codes "EOF"
message (sqlite c m) = m
message (rpc c m) = m
message (foreign m) = m

-- `errors.Is(err, os.ErrNotExist)`
unfoldable pub is_not_exist : Error → Bool
is_not_exist (not_exist m) = true
is_not_exist (wrap m e) = is_not_exist e
is_not_exist (join a b) = is_not_exist a || is_not_exist b
is_not_exist _ = false

-- `errors.Is(err, os.ErrExist)`
unfoldable pub is_exist : Error → Bool
is_exist (exist m) = true
is_exist (wrap m e) = is_exist e
is_exist (join a b) = is_exist a || is_exist b
is_exist _ = false

-- `errors.Is(err, sql.ErrTxDone)`
unfoldable pub is_tx_done : Error → Bool
is_tx_done tx_done = true
is_tx_done (wrap m e) = is_tx_done e
is_tx_done (join a b) = is_tx_done a || is_tx_done b
is_tx_done _ = false

abbrev pub or_else : {A : Type 0} → Option A → Option A → Option A
or_else none o = o
or_else (some c) o = some c

-- `errors.AsType[*sqlite.Error]`: the code of the first one in the tree, depth first.
unfoldable pub sqlite_code : Error → Option ℕ
sqlite_code (sqlite c m) = some c
sqlite_code (wrap m e) = sqlite_code e
sqlite_code (join a b) = or_else (sqlite_code a) (sqlite_code b)
sqlite_code _ = none

-- `errors.Is(err, io.EOF)`
unfoldable pub is_eof : Error → Bool
is_eof eof = true
is_eof (wrap m e) = is_eof e
is_eof (join a b) = is_eof a || is_eof b
is_eof _ = false

-- `errors.AsType[*jsonrpc.Error]`: the code of the first one in the tree, depth first.
unfoldable pub rpc_code : Error → Option ℤ
rpc_code (rpc c m) = some c
rpc_code (wrap m e) = rpc_code e
rpc_code (join a b) = or_else (rpc_code a) (rpc_code b)
rpc_code _ = none

-- Inversion of a successful bind, and of a call whose errors are wrapped.
pub >>=-eq-ok {ℓ κ} :
    {X : Type ℓ} {Y : Type κ} (first : Result X) (next : X → Result Y) {y : Y}
    → (first >>= next) ≡ ok y
    → (x : X) × (first ≡ ok x) × (next x ≡ ok y)
>>=-eq-ok (ok x) next h = (x, refl, h)
>>=-eq-ok (err cause) next h = cc

pub context-eq-ok {ℓ} :
    {A : Type ℓ} (prefix : Bytes) (m : Result A) {a : A} → context prefix m ≡ ok a → m ≡ ok a
context-eq-ok prefix (ok a) h = h
context-eq-ok prefix (err e) h = cc

pub ok-injective {ℓ} : {A : Type ℓ} {a b : A} → ok a ≡ ok b → a ≡ b
ok-injective h = cc
