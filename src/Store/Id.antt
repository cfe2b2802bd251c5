-- ===== src/Store/Id.antt =====
-- internal/store/id.go: `newUUIDv7`, over the random bytes that `rand.Read` fills in.
pub mod Order
pub mod Shape
use Prim.Native.Nat.{bit_and, bit_or}
use field_docket.Base.{
  ℕ, zero, suc, ◌+◌, ◌-◌, ◌/◌, ◌%◌, ◌^◌, Bool, List, [], ◌∷◌, ◌++◌, ltb, if◌then◌else◌, Bytes,
  codes, take, drop, concat,
}
use field_docket.Go.Errors.{Result, ok, err, ◌>>=◌, context}
use field_docket.Go.Time.{Time, utc, nanos_per_milli, unix_epoch_millis}

-- `t.UTC().UnixMilli()` as the bit pattern of an int64.
unfoldable pub unix_milli : Time → ℕ
unfolding utc
unix_milli t = ((utc t).instant / nanos_per_milli + 2 ^ 64 - unix_epoch_millis) % 2 ^ 64

-- `byte(ms >> k)`
abbrev pub byte_at : ℕ → ℕ → ℕ
byte_at ms k = ms / 2 ^ k % 256

-- `b[0]` to `b[5]`
unfoldable pub time_octets : ℕ → Bytes
time_octets ms =
    byte_at ms 40 ∷ byte_at ms 32 ∷ byte_at ms 24 ∷ byte_at ms 16 ∷ byte_at ms 8 ∷ byte_at ms 0 ∷ []

-- `b[i] = f(b[i])`
unfoldable pub modify : ℕ → (ℕ → ℕ) → Bytes → Bytes
modify i f [] = []
modify zero f (x ∷ xs) = f x ∷ xs
modify (suc i) f (x ∷ xs) = x ∷ modify i f xs

unfoldable pub set_version : ℕ → ℕ
set_version b = bit_or (bit_and b 0x0f) 0x70

unfoldable pub set_variant : ℕ → ℕ
set_variant b = bit_or (bit_and b 0x3f) 0x80

unfoldable pub hex_digit : ℕ → ℕ
hex_digit n = if ltb n 10 then b'0' + n else b'a' + (n - 10)

-- `hex.Encode`
unfoldable pub hex_encode : Bytes → Bytes
unfolding hex_digit
hex_encode [] = []
hex_encode (b ∷ bs) = hex_digit (b / 16) ∷ hex_digit (b % 16) ∷ hex_encode bs

-- `b[lo:hi]`
abbrev pub slice : ℕ → ℕ → Bytes → Bytes
slice lo hi b = take (hi - lo) (drop lo b)

-- The sixteen octets, with the version in octet 6 and the variant in octet 8.
unfoldable pub octets : ℕ → Bytes → Bytes
unfolding time_octets modify set_version set_variant
octets ms random = modify 8 set_variant (modify 6 set_version (time_octets ms ++ random))

-- The 36 characters of the text.
unfoldable pub uuid_text : Bytes → Bytes
unfolding hex_encode
uuid_text b = concat (
    hex_encode (slice 0 4 b)
    ∷ codes "-"
    ∷ hex_encode (slice 4 6 b)
    ∷ codes "-"
    ∷ hex_encode (slice 6 8 b)
    ∷ codes "-"
    ∷ hex_encode (slice 8 10 b)
    ∷ codes "-"
    ∷ hex_encode (slice 10 16 b)
    ∷ [])

-- `newUUIDv7`. The second argument is what `rand.Read(b[6:])` leaves in the ten last octets.
unfoldable pub new_uuid_v7 : Time → Result Bytes → Result Bytes
unfolding unix_milli octets uuid_text
new_uuid_v7 t random = do
  r ← context (codes "minting observation id") random
  ok (uuid_text (octets (unix_milli t) r))
