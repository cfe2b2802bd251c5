-- ===== src/Store/Id/Order.antt =====
-- Minted ids sort as texts the way their instants do, to the millisecond.
use field_docket.Base.{
  ℕ, ◌+◌, ◌/◌, ◌%◌, ◌^◌, ◌≤◌, ◌<◌, ◌≡◌, refl, ◌∙◌, ◌∷◌, arith, compare, Ordering, Bytes,
}
use field_docket.Base.Compare.{compare_bytes, and_then, and_then_assoc}
use field_docket.Go.Errors.{ok}
use field_docket.Go.Time.{Time, nanos_per_milli, unix_epoch_millis}
use field_docket.Store.Id.{hex_digit, octets, uuid_text, byte_at, new_uuid_v7, unix_milli}

compare-hex_digit : (a b : ℕ) → a < 16 → b < 16 → compare (hex_digit a) (hex_digit b) ≡ compare a b
unfolding hex_digit
compare-hex_digit a b h k = ground arith

compare-octet :
    (a b : ℕ) → compare a b ≡ and_then (compare (a / 16) (b / 16)) (compare (a % 16) (b % 16))
compare-octet a b = ground arith

-- The two digits of an octet, before the rest of a text.
compare-digits :
    (x y : ℕ) (s t : Bytes)
    → x < 256
    → y < 256
    → compare_bytes
        (hex_digit (x / 16) ∷ hex_digit (x % 16) ∷ s)
        (hex_digit (y / 16) ∷ hex_digit (y % 16) ∷ t)
      ≡ and_then (compare x y) (compare_bytes s t)
unfolding compare_bytes
compare-digits x y s t h k = rw (
  compare-hex_digit (x / 16) (y / 16) (omega arith) (omega arith),
  compare-hex_digit (x % 16) (y % 16) (omega arith) (omega arith),
  ← and_then_assoc,
  ← compare-octet x y,
)

octet_0 :
    (a b : ℕ)
    → compare (a / 2 ^ 0) (b / 2 ^ 0)
      ≡ and_then (compare (a / 2 ^ 8) (b / 2 ^ 8)) (compare (byte_at a 0) (byte_at b 0))
octet_0 a b = ground arith

octet_8 :
    (a b : ℕ)
    → compare (a / 2 ^ 8) (b / 2 ^ 8)
      ≡ and_then (compare (a / 2 ^ 16) (b / 2 ^ 16)) (compare (byte_at a 8) (byte_at b 8))
octet_8 a b = ground arith

octet_16 :
    (a b : ℕ)
    → compare (a / 2 ^ 16) (b / 2 ^ 16)
      ≡ and_then (compare (a / 2 ^ 24) (b / 2 ^ 24)) (compare (byte_at a 16) (byte_at b 16))
octet_16 a b = ground arith

octet_24 :
    (a b : ℕ)
    → compare (a / 2 ^ 24) (b / 2 ^ 24)
      ≡ and_then (compare (a / 2 ^ 32) (b / 2 ^ 32)) (compare (byte_at a 24) (byte_at b 24))
octet_24 a b = ground arith

octet_32 :
    (a b : ℕ)
    → compare (a / 2 ^ 32) (b / 2 ^ 32)
      ≡ and_then (compare (a / 2 ^ 40) (b / 2 ^ 40)) (compare (byte_at a 32) (byte_at b 32))
octet_32 a b = ground arith

octet_40 : (a : ℕ) → a < 2 ^ 48 → byte_at a 40 ≡ a / 2 ^ 40
octet_40 a h = omega arith

whole : (a : ℕ) → a / 2 ^ 0 ≡ a
whole a = omega arith

-- The octets compare as the number that they spell, its own six or six of a longer text.
compare-six :
    (a b : ℕ) (o : Ordering)
    → a < 2 ^ 48
    → b < 2 ^ 48
    → and_then (compare (byte_at a 40) (byte_at b 40)) (
        and_then (compare (byte_at a 32) (byte_at b 32)) (
          and_then (compare (byte_at a 24) (byte_at b 24)) (
            and_then (compare (byte_at a 16) (byte_at b 16)) (
              and_then
                (compare (byte_at a 8) (byte_at b 8))
                (and_then (compare (byte_at a 0) (byte_at b 0)) o)))))
      ≡ and_then (compare a b) o
compare-six a b o h h' = rw (
  octet_40 a h,
  octet_40 b h',
  ← and_then_assoc,
  ← octet_32 a b,
  ← and_then_assoc,
  ← octet_24 a b,
  ← and_then_assoc,
  ← octet_16 a b,
  ← and_then_assoc,
  ← octet_8 a b,
  ← and_then_assoc,
  ← octet_0 a b,
  whole a,
  whole b,
)

octet-lt : (x : ℕ) → x % 256 < 256
octet-lt x = omega arith

compare-dash : (s t : Bytes) → compare_bytes (b'-' ∷ s) (b'-' ∷ t) ≡ compare_bytes s t
unfolding compare_bytes
compare-dash s t = refl

compare-octet_digits :
    (a b k : ℕ) (s t : Bytes)
    → compare_bytes
        (hex_digit (byte_at a k / 16) ∷ hex_digit (byte_at a k % 16) ∷ s)
        (hex_digit (byte_at b k / 16) ∷ hex_digit (byte_at b k % 16) ∷ t)
      ≡ and_then (compare (byte_at a k) (byte_at b k)) (compare_bytes s t)
compare-octet_digits a b k s t =
    compare-digits (byte_at a k) (byte_at b k) s t (octet-lt (a / 2 ^ k)) (octet-lt (b / 2 ^ k))

-- The first two groups of an id, before the rest of its text.
abbrev groups : ℕ → Bytes → Bytes
groups ms rest =
    hex_digit (byte_at ms 40 / 16)
    ∷ hex_digit (byte_at ms 40 % 16)
    ∷ hex_digit (byte_at ms 32 / 16)
    ∷ hex_digit (byte_at ms 32 % 16)
    ∷ hex_digit (byte_at ms 24 / 16)
    ∷ hex_digit (byte_at ms 24 % 16)
    ∷ hex_digit (byte_at ms 16 / 16)
    ∷ hex_digit (byte_at ms 16 % 16)
    ∷ b'-'
    ∷ hex_digit (byte_at ms 8 / 16)
    ∷ hex_digit (byte_at ms 8 % 16)
    ∷ hex_digit (byte_at ms 0 / 16)
    ∷ hex_digit (byte_at ms 0 % 16)
    ∷ rest

compare-groups :
    (a b : ℕ) (s t : Bytes)
    → a < 2 ^ 48
    → b < 2 ^ 48
    → compare_bytes (groups a s) (groups b t) ≡ and_then (compare a b) (compare_bytes s t)
compare-groups a b s t h h' = rw (
  compare-octet_digits a b 40,
  compare-octet_digits a b 32,
  compare-octet_digits a b 24,
  compare-octet_digits a b 16,
  compare-dash,
  compare-octet_digits a b 8,
  compare-octet_digits a b 0,
  compare-six a b (compare_bytes s t) h h',
)

-- The milliseconds decide, whatever octets were drawn for either id.
pub compare-uuid_text :
    (ms ms' : ℕ) (random random' : Bytes)
    → ms < ms'
    → ms' < 2 ^ 48
    → compare_bytes (uuid_text (octets ms random)) (uuid_text (octets ms' random')) ≡ Ordering.lt
unfolding uuid_text octets
compare-uuid_text ms ms' random random' h h' =
    compare-groups ms ms' _ _ (omega arith) h' ∙ ground arith

-- `newUUIDv7` at a later millisecond returns an id that sorts after the earlier one, for instants
-- from 1970 on whose milliseconds fit 48 bits, whatever `rand.Read` fills in.
pub new_uuid_v7_mono :
    (t t' : Time) (random random' : Bytes)
    → unix_epoch_millis ≤ t.instant / nanos_per_milli
    → t.instant / nanos_per_milli < t'.instant / nanos_per_milli
    → t'.instant / nanos_per_milli < unix_epoch_millis + 2 ^ 48
    → (id : Bytes) × (id' : Bytes) × (new_uuid_v7 t (ok random) ≡ ok id)
      × (new_uuid_v7 t' (ok random') ≡ ok id')
      × (compare_bytes id id' ≡ Ordering.lt)
unfolding new_uuid_v7 unix_milli
new_uuid_v7_mono t t' random random' epoch later fits = (
  uuid_text (octets (unix_milli t) random),
  uuid_text (octets (unix_milli t') random'),
  refl,
  refl,
  compare-uuid_text (unix_milli t) (unix_milli t') random random' (omega arith) (omega arith),
)
