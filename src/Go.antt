-- ===== src/Go.antt =====
-- What the program uses of Go's standard library: errors, text, time.
pub mod Errors
pub mod Decimal
pub mod Text
pub mod Time
pub mod Path
pub mod Host
pub mod Json
pub mod Flag
