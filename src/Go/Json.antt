-- ===== src/Go/Json.antt =====
-- `json.Marshal` of a string, and the shape of valid UTF-8 that it looks for.
use field_docket.Base.{
  ℕ, zero, suc, ◌+◌, ◌-◌, ◌/◌, ◌%◌, Bool, true, false, ◌&&◌, ◌||◌, [], ◌∷◌, ◌++◌, Bytes, codes, ltb,
  leb, ◌==◌, if◌then◌else◌,
}

abbrev between : ℕ → ℕ → ℕ → Bool
between low high b = leb low b && leb b high

abbrev continues : ℕ → Bool
continues = between 0x80 0xbf

-- Two and three bytes of a rune whose first byte is `a`.
unfoldable pair_rune : ℕ → ℕ → Bool
pair_rune a b = between 0xc2 0xdf a && continues b

unfoldable triple_rune : ℕ → ℕ → ℕ → Bool
triple_rune a b c =
    (between (if a == 0xe0 then 0xa0 else 0x80) (if a == 0xed then 0x9f else 0xbf) b
      && between 0xe0 0xef a)
    && continues c

unfoldable quad_rune : ℕ → ℕ → ℕ → ℕ → Bool
quad_rune a b c d =
    (between (if a == 0xf0 then 0x90 else 0x80) (if a == 0xf4 then 0x8f else 0xbf) b
      && between 0xf0 0xf4 a)
    && (continues c && continues d)

-- The bytes of the first rune; 0 where the text does not begin with valid UTF-8.
unfoldable pub rune_length : Bytes → ℕ
unfolding pair_rune triple_rune quad_rune
rune_length [] = 0
rune_length (a ∷ []) = if ltb a 0x80 then 1 else 0
rune_length (a ∷ b ∷ []) = if ltb a 0x80 then 1 else if pair_rune a b then 2 else 0
rune_length (a ∷ b ∷ c ∷ []) =
    if ltb a 0x80 then 1 else if pair_rune a b then 2 else if triple_rune a b c then 3 else 0
rune_length (a ∷ b ∷ c ∷ d ∷ s) =
    if ltb a 0x80
    then 1
    else if pair_rune a b
    then 2
    else if triple_rune a b c
    then 3
    else if quad_rune a b c d
    then 4
    else 0

abbrev hex_digit : ℕ → ℕ
hex_digit n = if ltb n 10 then b'0' + n else b'a' + (n - 10)

-- A byte below 0x80: quotes, controls and the characters of HTML are escaped.
unfoldable pub escape_ascii : ℕ → Bytes
escape_ascii b =
    if b == b'"' || b == b'\\'
    then b'\\' ∷ b ∷ []
    else if b == 0x08
    then codes "\\b"
    else if b == 0x0c
    then codes "\\f"
    else if b == 0x0a
    then codes "\\n"
    else if b == 0x0d
    then codes "\\r"
    else if b == 0x09
    then codes "\\t"
    else if ltb b 0x20 || (b == b'<' || (b == b'>' || b == b'&'))
    then codes "\\u00" ++ hex_digit (b / 16) ∷ hex_digit (b % 16) ∷ []
    else b ∷ []

-- U+2028 and U+2029, the line separators of JavaScript, are escaped.
abbrev separator : ℕ → Bytes → Bool
separator a (b ∷ c ∷ s) = (a == 0xe2 && b == 0x80) && (c == 0xa8 || c == 0xa9)
separator a _ = false

-- `skip` bytes belong to the rune before; `copied` says whether they stand for themselves.
unfoldable pub escape : ℕ → Bool → Bytes → Bytes
unfolding escape_ascii rune_length
escape skip copied [] = []
escape (suc k) copied (a ∷ s) = let rest = escape k copied s in if copied then a ∷ rest else rest
escape zero copied (a ∷ s) = elim (rune_length (a ∷ s)) [
  | zero ↦ codes "\\ufffd" ++ escape zero true s
  | suc zero ↦ escape_ascii a ++ escape zero true s
  | suc (suc n) ↦
      if separator a s
      then codes "\\u202" ++ hex_digit (third s - 0xa0) ∷ escape (suc n) false s
      else a ∷ escape (suc n) true s
]
  where
    third : Bytes → ℕ
    third (b ∷ c ∷ t) = c
    third _ = 0xa8

-- `json.Marshal(s)`
unfoldable pub marshal_string : Bytes → Bytes
unfolding escape
marshal_string s = b'"' ∷ escape zero true s ++ codes "\""
