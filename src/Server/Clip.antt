-- ===== src/Server/Clip.antt =====
-- internal/server/review.go: `clip`, which shortens a text to a number of bytes.
pub mod Runes
use field_docket.Base.{
  ℕ, zero, suc, Bool, true, false, not, ◌&&◌, List, [], ◌∷◌, Bytes, length, take, leb,
  if◌then◌else◌,
}

-- `utf8.RuneStart`: the byte is no continuation byte, 10xxxxxx.
abbrev pub rune_start : ℕ → Bool
rune_start b = not (leb 0x80 b && leb b 0xbf)

-- `s[i]`; the loop stays inside the text.
unfoldable pub byte_of : Bytes → ℕ → ℕ
byte_of [] i = 0
byte_of (b ∷ s) zero = b
byte_of (b ∷ s) (suc i) = byte_of s i

-- `for n > 0 && !utf8.RuneStart(s[n]) { n-- }`
unfoldable pub back_up : Bytes → ℕ → ℕ
unfolding byte_of
back_up s zero = zero
back_up s (suc n) = let rest = back_up s n in if rune_start (byte_of s (suc n)) then suc n else rest

-- `clip`
unfoldable pub clip : Bytes → ℕ → Bytes × Bool
unfolding back_up
clip s n = if leb (length s) n then (s, false) else (take (back_up s n) s, true)
