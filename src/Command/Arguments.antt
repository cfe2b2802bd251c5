-- ===== src/Command/Arguments.antt =====
-- What the command's flags parse to, however they are written.
use field_docket.Base.{
  ◌≡◌, refl, ap, ◌∙◌, append_assoc, Bool, true, false, List, [], ◌∷◌, ◌++◌, Bytes, codes,
}
use field_docket.Base.Compare.{compare_bytes}
use field_docket.Go.Errors.{Result, ok, err, ◌>>=◌}
use field_docket.Go.Flag.{positional, read_flag, parse_flags}
use field_docket.Command.{config_flag, no_leftover, parse_config_flag}

-- One `--config` on the command line: with one dash or two, and with the value in the next
-- argument or behind an equals sign.
pub record Setting : Type 0 where
  pub two_dashes : Bool
  pub joined : Bool
  pub value : Bytes

abbrev dashes : Bool → Bytes
dashes true = codes "--"
dashes false = codes "-"

abbrev pub spell_one : Bool → Bool → Bytes → List Bytes
spell_one two_dashes true value = (dashes two_dashes ++ (config_flag ++ (codes "=" ++ value))) ∷ []
spell_one two_dashes false value = (dashes two_dashes ++ config_flag) ∷ value ∷ []

unfoldable pub spell : List Setting → List Bytes
spell [] = []
spell (s ∷ ss) = spell_one s.two_dashes s.joined s.value ++ spell ss

-- The value that stands: the last one.
unfoldable pub last_value : Bytes → List Setting → Bytes
last_value value [] = value
last_value value (s ∷ ss) = last_value s.value ss

parse_flags-spell_one :
    (value given : Bytes) (two_dashes joined : Bool) (args : List Bytes)
    → parse_flags config_flag value false (spell_one two_dashes joined given ++ args)
      ≡ parse_flags config_flag given false args
unfolding parse_flags compare_bytes
parse_flags-spell_one value given true true args = refl
parse_flags-spell_one value given true false args = refl
parse_flags-spell_one value given false true args = refl
parse_flags-spell_one value given false false args = refl

pub parse_flags-spell :
    (value : Bytes) (ss : List Setting) (args : List Bytes)
    → parse_flags config_flag value false (spell ss ++ args)
      ≡ parse_flags config_flag (last_value value ss) false args
unfolding spell last_value
parse_flags-spell value [] args = refl
parse_flags-spell value (s ∷ ss) args =
    ap (parse_flags config_flag value false)
      (append_assoc (spell_one s.two_dashes s.joined s.value) (spell ss) args)
    ∙ parse_flags-spell_one value s.value s.two_dashes s.joined (spell ss ++ args)
    ∙ parse_flags-spell s.value ss args

-- The command line of these settings, with or without the mark `--` behind them.
abbrev pub command_line : List Setting → Bool → List Bytes
command_line ss true = spell ss ++ codes "--" ∷ []
command_line ss false = spell ss ++ []

abbrev pub is_failure : {A : Type 0} → Result A → Bool
is_failure (ok a) = false
is_failure (err e) = true

pub parse_flags-stray :
    (value stray : Bytes) (args : List Bytes)
    → read_flag stray ≡ positional
    → parse_flags config_flag value false (stray ∷ args) ≡ ok (value, stray ∷ args)
unfolding parse_flags
parse_flags-stray value stray args h = rw (h, parse_flags) refl

parse_config_flag-marked :
    (quote : Bytes → Bytes) (ss : List Setting) (marked : Bool)
    → parse_config_flag quote (command_line ss marked) ≡ ok (last_value [] ss)
unfolding parse_config_flag parse_flags no_leftover
parse_config_flag-marked quote ss true =
    ap (λ r. r >>= no_leftover quote) (parse_flags-spell [] ss (codes "--" ∷ []))
parse_config_flag-marked quote ss false =
    ap (λ r. r >>= no_leftover quote) (parse_flags-spell [] ss [])

-- However the settings are spelled, and whether or not `--` follows them, the last value stands,
-- any text at all; and where an argument that is no flag follows instead, such as a mistyped
-- subcommand, the command line is refused.
pub parse_config_flag-spell :
    (quote : Bytes → Bytes) (ss : List Setting) (marked : Bool) (stray : Bytes) (args : List Bytes)
    → read_flag stray ≡ positional
    → (parse_config_flag quote (command_line ss marked) ≡ ok (last_value [] ss))
      × (is_failure (parse_config_flag quote (spell ss ++ stray ∷ args)) ≡ true)
unfolding parse_config_flag no_leftover
parse_config_flag-spell quote ss marked stray args h = (
  parse_config_flag-marked quote ss marked,
  ap (λ r. is_failure (r >>= no_leftover quote))
      (parse_flags-spell [] ss (stray ∷ args) ∙ parse_flags-stray (last_value [] ss) stray args h),
)
