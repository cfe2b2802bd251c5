-- ===== src/Store/Id/Shape.antt =====
-- The text of a minted id has the shape of a version 7 UUID.
use field_docket.Base.{
  ℕ, ◌/◌, ◌%◌, ◌^◌, ◌<◌, ◌≡◌, refl, Bool, true, ◌&&◌, ◌||◌, List, [], ◌∷◌, ◌++◌, zero, suc, arith,
  ltb, leb, ◌==◌, Bytes, codes, concat, length, All, passes, passes_sound,
}
use field_docket.Go.Errors.{Result, ok}
use field_docket.Go.Time.{Time}
use field_docket.Store.Id.{
  hex_digit, set_version, set_variant, byte_at, hex_encode, octets, uuid_text, new_uuid_v7,
  unix_milli,
}

abbrev pub is_hex : ℕ → Bool
is_hex c = leb b'0' c && leb c b'9' || leb b'a' c && leb c b'f'

abbrev pub is_dash : ℕ → Bool
is_dash c = c == b'-'

abbrev pub is_seven : ℕ → Bool
is_seven c = c == b'7'

abbrev pub is_variant : ℕ → Bool
is_variant c = c == b'8' || c == b'9' || c == b'a' || c == b'b'

-- Every character passes the test at its place, and there are as many as tests.
abbrev pub Fits : List (ℕ → Bool) → Bytes → Type 0
Fits [] [] = Unit
Fits [] (c ∷ cs) = ⊥
Fits (p ∷ ps) [] = ⊥
Fits (p ∷ ps) (c ∷ cs) = (p c ≡ true) × Fits ps cs

-- hhhhhhhh-hhhh-7hhh-vhhh-hhhhhhhhhhhh, v one of 8 9 a b.
abbrev pub uuid_v7_pattern : List (ℕ → Bool)
uuid_v7_pattern =
    let h = is_hex in
    h ∷ h ∷ h ∷ h ∷ h ∷ h ∷ h ∷ h ∷ is_dash ∷ h ∷ h ∷ h ∷ h ∷ is_dash ∷ is_seven ∷ h ∷ h ∷ h
    ∷ is_dash ∷ is_variant ∷ h ∷ h ∷ h ∷ is_dash ∷ h ∷ h ∷ h ∷ h ∷ h ∷ h ∷ h ∷ h ∷ h ∷ h ∷ h ∷ h
    ∷ []

-- What `rand.Read(b[6:])` fills: ten octets.
pub record IsFill (random : Bytes) : Type 0 where
  pub size : length random ≡ 10
  pub bytes : All (λ b. b < 256) random

hex_digit-is_hex : (n : ℕ) → n < 16 → is_hex (hex_digit n) ≡ true
unfolding hex_digit
hex_digit-is_hex n h = ground arith

version_table :
    passes (λ b. is_seven (hex_digit (set_version b / 16)) && ltb (set_version b) 256) 256 ≡ true
unfolding passes hex_digit set_version
version_table = refl

variant_table :
    passes (λ b. is_variant (hex_digit (set_variant b / 16)) && ltb (set_variant b) 256) 256 ≡ true
unfolding passes hex_digit set_variant
variant_table = refl

version_digit : (b : ℕ) → b < 256 → is_seven (hex_digit (set_version b / 16)) ≡ true
version_digit b h = ground (arith, passes_sound _ 256 version_table b h)

set_version-lt : (b : ℕ) → b < 256 → set_version b < 256
set_version-lt b h = ground (arith, passes_sound _ 256 version_table b h)

variant_digit : (b : ℕ) → b < 256 → is_variant (hex_digit (set_variant b / 16)) ≡ true
variant_digit b h = ground (arith, passes_sound _ 256 variant_table b h)

set_variant-lt : (b : ℕ) → b < 256 → set_variant b < 256
set_variant-lt b h = ground (arith, passes_sound _ 256 variant_table b h)

high_digit : (b : ℕ) → b < 256 → is_hex (hex_digit (b / 16)) ≡ true
high_digit b h = hex_digit-is_hex (b / 16) (omega arith)

octet-lt : (x : ℕ) → x % 256 < 256
octet-lt x = omega arith

low_digit : (b : ℕ) → b < 256 → is_hex (hex_digit (b % 16)) ≡ true
low_digit b h = hex_digit-is_hex (b % 16) (omega arith)

Fits-append :
    (ps qs : List (ℕ → Bool)) (s t : Bytes) → Fits ps s → Fits qs t → Fits (ps ++ qs) (s ++ t)
Fits-append [] qs [] t h k = k
Fits-append [] qs (c ∷ s) t h k = elim h [ ]
Fits-append (p ∷ ps) qs [] t h k = elim h [ ]
Fits-append (p ∷ ps) qs (c ∷ s) t (hc, h) k = (hc, Fits-append ps qs s t h k)

-- Two digits for each octet.
abbrev hexes : ℕ → List (ℕ → Bool)
hexes zero = []
hexes (suc n) = is_hex ∷ is_hex ∷ hexes n

abbrev AreOctets : Bytes → Type 0
AreOctets = All (λ b. b < 256)

hex_encode-Fits : (bs : Bytes) → AreOctets bs → Fits (hexes (length bs)) (hex_encode bs)
unfolding hex_encode
hex_encode-Fits [] h = tt
hex_encode-Fits (b ∷ bs) (hb, h) = (high_digit b hb, (low_digit b hb, hex_encode-Fits bs h))

-- A group whose first digit is marked, of an octet and of another.
marked-Fits :
    (p : ℕ → Bool) (b c : ℕ)
    → p (hex_digit (b / 16)) ≡ true
    → b < 256
    → c < 256
    → Fits (p ∷ is_hex ∷ hexes 1) (hex_encode (b ∷ c ∷ []))
unfolding hex_encode
marked-Fits p b c mark hb hc = (mark, (low_digit b hb, (high_digit c hc, (low_digit c hc, tt))))

abbrev dash : List (ℕ → Bool)
dash = is_dash ∷ []

hyphen : Fits dash (codes "-")
hyphen = (refl, tt)

-- Each part fits its own tests.
abbrev AllFit : List (List (ℕ → Bool)) → List Bytes → Type 0
AllFit [] [] = Unit
AllFit [] (s ∷ ss) = ⊥
AllFit (ps ∷ pss) [] = ⊥
AllFit (ps ∷ pss) (s ∷ ss) = Fits ps s × AllFit pss ss

Fits-concat :
    (pss : List (List (ℕ → Bool))) (parts : List Bytes)
    → AllFit pss parts
    → Fits (concat pss) (concat parts)
Fits-concat [] [] h = tt
Fits-concat [] (s ∷ ss) h = elim h [ ]
Fits-concat (ps ∷ pss) [] h = elim h [ ]
Fits-concat (ps ∷ pss) (s ∷ ss) (h, rest) =
    Fits-append ps (concat pss) s (concat ss) h (Fits-concat pss ss rest)

-- The text fits the pattern of version 7, whatever ten octets were drawn.
pub uuid_text-Fits :
    (ms : ℕ) (random : Bytes)
    → length random ≡ 10
    → AreOctets random
    → Fits uuid_v7_pattern (uuid_text (octets ms random))
unfolding uuid_text octets
uuid_text-Fits ms (a ∷ b ∷ c ∷ d ∷ e ∷ f ∷ g ∷ h ∷ i ∷ j ∷ []) _ (ha, (hb, (hc, (hd, hs)))) =
    let byte : (k : ℕ) → byte_at ms k < 256 = λ k. octet-lt (ms / 2 ^ k) in
    let high = byte_at ms 40 ∷ byte_at ms 32 ∷ byte_at ms 24 ∷ byte_at ms 16 ∷ [] in
    let low = byte_at ms 8 ∷ byte_at ms 0 ∷ [] in
    let last = e ∷ f ∷ g ∷ h ∷ i ∷ j ∷ [] in
    Fits-concat
      (hexes 4
        ∷ dash
        ∷ hexes 2
        ∷ dash
        ∷ (is_seven ∷ is_hex ∷ hexes 1)
        ∷ dash
        ∷ (is_variant ∷ is_hex ∷ hexes 1)
        ∷ dash
        ∷ hexes 6
        ∷ [])
      (hex_encode high
        ∷ codes "-"
        ∷ hex_encode low
        ∷ codes "-"
        ∷ hex_encode (set_version a ∷ b ∷ [])
        ∷ codes "-"
        ∷ hex_encode (set_variant c ∷ d ∷ [])
        ∷ codes "-"
        ∷ hex_encode last
        ∷ [])
      (
        hex_encode-Fits high (byte 40, (byte 32, (byte 24, (byte 16, tt)))),
        (
          hyphen,
          (
            hex_encode-Fits low (byte 8, (byte 0, tt)),
            (
              hyphen,
              (
                marked-Fits is_seven (set_version a) b (version_digit a ha) (set_version-lt a ha)
                    hb,
                (
                  hyphen,
                  (
                    marked-Fits is_variant (set_variant c) d (variant_digit c hc)
                        (set_variant-lt c hc) hd,
                    (hyphen, (hex_encode-Fits last hs, tt)),
                  ),
                ),
              ),
            ),
          ),
        ),
      )
uuid_text-Fits ms _ n r = absurd (omega arith)

-- Where ten random bytes are drawn, `newUUIDv7` returns an id, and it is a well-formed UUID of
-- version 7 with the RFC 9562 variant.
pub new_uuid_v7-Fits :
    (t : Time) {random : Result Bytes} {bytes : Bytes}
    → random ≡ ok bytes
    → IsFill bytes
    → (id : Bytes) × (new_uuid_v7 t random ≡ ok id) × Fits uuid_v7_pattern id
unfolding new_uuid_v7
new_uuid_v7-Fits t {bytes} drawn fill = (
  uuid_text (octets (unix_milli t) bytes),
  rw drawn,
  uuid_text-Fits (unix_milli t) bytes fill.size fill.bytes,
)
