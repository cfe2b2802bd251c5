-- ===== src/Go/Text.antt =====
-- Package `strings` on the bytes of a text: `TrimSpace`, `ToLower`, `Join`, `HasPrefix`.
pub mod Trim
use field_docket.Base.{
  ℕ, zero, suc, ◌+◌, ◌-◌, Bool, true, false, ◌&&◌, ◌||◌, List, [], ◌∷◌, ◌++◌, map, reverse, Bytes,
  ltb, leb, ◌==◌, if◌then◌else◌,
}

-- White space of one byte, of two and of three, in UTF-8.
abbrev pub is_space1 : ℕ → Bool
is_space1 c = leb 0x09 c && leb c 0x0d || c == b' '

abbrev pub is_space2 : ℕ → ℕ → Bool
is_space2 a b = a == 0xc2 && (b == 0x85 || b == 0xa0)

abbrev pub is_space3 : ℕ → ℕ → ℕ → Bool
is_space3 a b c =
    a == 0xe1 && b == 0x9a && c == 0x80
    || a == 0xe2 && b == 0x80 && (leb 0x80 c && leb c 0x8a || c == 0xa8 || c == 0xa9 || c == 0xaf)
    || a == 0xe2 && b == 0x81 && c == 0x9f
    || a == 0xe3 && b == 0x80 && c == 0x80

-- The bytes of the white-space character at the head, 0 if there is none.
unfoldable pub leading_space : Bytes → ℕ
leading_space [] = 0
leading_space (a ∷ []) = if is_space1 a then 1 else 0
leading_space (a ∷ b ∷ []) = if is_space1 a then 1 else if is_space2 a b then 2 else 0
leading_space (a ∷ b ∷ c ∷ s) =
    if is_space1 a then 1 else if is_space2 a b then 2 else if is_space3 a b c then 3 else 0

-- The same of a reversed text.
unfoldable pub trailing_space : Bytes → ℕ
trailing_space [] = 0
trailing_space (a ∷ []) = if is_space1 a then 1 else 0
trailing_space (b ∷ a ∷ []) = if is_space1 b then 1 else if is_space2 a b then 2 else 0
trailing_space (c ∷ b ∷ a ∷ s) =
    if is_space1 c then 1 else if is_space2 b c then 2 else if is_space3 a b c then 3 else 0

-- Drops the bytes to skip, then white space as long as `space` finds some.
unfoldable pub trim_while : (Bytes → ℕ) → ℕ → Bytes → Bytes
trim_while space skip [] = []
trim_while space (suc k) (x ∷ s) = trim_while space k s
trim_while space zero (x ∷ s) =
    let rest = trim_while space (space (x ∷ s) - 1) s in if space (x ∷ s) == 0 then x ∷ s else rest

-- `strings.TrimSpace`
unfoldable pub trim_space : Bytes → Bytes
unfolding trim_while leading_space trailing_space
trim_space s = reverse (trim_while trailing_space 0 (reverse (trim_while leading_space 0 s)))

unfoldable pub is_ascii : Bytes → Bool
is_ascii [] = true
is_ascii (c ∷ s) = ltb c 0x80 && is_ascii s

unfoldable pub lower_ascii : ℕ → ℕ
lower_ascii c = if leb b'A' c && leb c b'Z' then c + 32 else c

-- `strings.ToLower`. Outside ASCII it maps every character by Go's Unicode tables, which are
-- the argument.
unfoldable pub to_lower : (Bytes → Bytes) → Bytes → Bytes
unfolding is_ascii lower_ascii
to_lower unicode s = if is_ascii s then map lower_ascii s else unicode s

-- `strings.Join`
unfoldable pub join_with : Bytes → List Bytes → Bytes
join_with sep [] = []
join_with sep (x ∷ []) = x
join_with sep (x ∷ y ∷ xs) = x ++ (sep ++ join_with sep (y ∷ xs))

-- `strings.HasPrefix(s, prefix)`
unfoldable pub has_prefix : Bytes → Bytes → Bool
has_prefix s [] = true
has_prefix [] (p ∷ ps) = false
has_prefix (c ∷ s) (p ∷ ps) = c == p && has_prefix s ps

unfoldable pub is_empty : Bytes → Bool
is_empty [] = true
is_empty (c ∷ s) = false
