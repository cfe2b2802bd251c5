-- ===== src/Go/Flag.antt =====
-- Package `flag`: `FlagSet.Parse` for a set with one string flag, which continues on errors.
use field_docket.Base.{
  ℕ, Bool, true, false, ◌||◌, List, [], ◌∷◌, ◌++◌, Bytes, codes, Option, none, some, ◌==◌,
  if◌then◌else◌,
}
use field_docket.Base.Compare.{same}
use field_docket.Go.Errors.{Error, text, Result, ok, err}

abbrev pub minus : ℕ
minus = b'-'

-- How an argument reads: not as a flag, as the mark `--` that ends the flags, as bad syntax, or as
-- a flag with its name and the value behind an equals sign.
pub data Token : Type 0 where
  positional end_mark bad_syntax : Token
  flag : Bytes → Option Bytes → Token

-- The name up to the first equals sign, which is not at its head, and the value behind it.
unfoldable pub cut_value : Bytes → Bytes × Option Bytes
cut_value [] = ([], none)
cut_value (c ∷ s) =
    let (name, value) = cut_value s in
    elim (c == b'=') [ true ↦ ([], some s) | false ↦ (c ∷ name, value) ]

unfoldable pub read_name : Bytes → Token
read_name [] = bad_syntax
read_name (c ∷ s) =
    let (name, value) = cut_value s in
    if c == minus || c == b'=' then bad_syntax else flag (c ∷ name) value

unfoldable pub read_flag : Bytes → Token
read_flag [] = positional
read_flag (c ∷ []) = positional
read_flag (c ∷ d ∷ s) = elim (c == minus) [
  | false ↦ positional
  | true ↦ elim (d == minus) [
    | false ↦ read_name (d ∷ s)
    | true ↦ elim s [ [] ↦ end_mark | e ∷ s' ↦ read_name (e ∷ s') ]
  ]
]

abbrev pub help_requested : Error
help_requested = text (codes "flag: help requested")

abbrev undefined : Bytes → Error
undefined name =
    if same name (codes "help") || same name (codes "h")
    then help_requested
    else text (codes "flag provided but not defined: -" ++ name)

-- The loop: the value so far, whether the flag waits for its value, and the arguments left. It
-- gives the value and the arguments behind the flags.
unfoldable pub parse_flags : Bytes → Bytes → Bool → List Bytes → Result (Bytes × List Bytes)
unfolding read_flag read_name cut_value
parse_flags known value true [] = err (text (codes "flag needs an argument: -" ++ known))
parse_flags known value true (given ∷ args) = parse_flags known given false args
parse_flags known value false [] = ok (value, [])
parse_flags known value false (arg ∷ args) = elim (read_flag arg) [
  | positional ↦ ok (value, arg ∷ args)
  | end_mark ↦ ok (value, args)
  | bad_syntax ↦ err (text (codes "bad flag syntax: " ++ arg))
  | flag name given ↦ elim (same name known) [
    | false ↦ err (undefined name)
    | true ↦ elim given [
      | none ↦ parse_flags known value true args
      | some v ↦ parse_flags known v false args
    ]
  ]
]
