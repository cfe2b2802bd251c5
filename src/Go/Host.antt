-- ===== src/Go/Host.antt =====
-- What the program reads of the machine that it runs on: package `os`.
use field_docket.Base.{Bytes}
use field_docket.Go.Errors.{Result}

pub record Host : Type 0 where
  -- `os.Getenv`; an unset variable reads as the empty text.
  pub getenv : Bytes → Bytes
  -- `os.UserHomeDir`, `os.Getwd`, `os.ReadFile`
  pub home : Result Bytes
  pub cwd : Result Bytes
  pub read_file : Bytes → Result Bytes
