-- ===== src/Server/Clip/Runes.antt =====
-- Clipping a text of whole runes leaves whole runes.
use field_docket.Base.{
  ℕ, zero, suc, ◌+◌, ◌-◌, ◌≤◌, ◌<◌, ◌≡◌, refl, ap, ◌∙◌, true, false, List, [], ◌∷◌, ◌++◌, arith,
  Bytes, length, length-append, length-take, take, drop, take-append-drop, append-nil, All, concat,
  leb, ltb, inl, inr, Bool-cases, if◌then◌else◌,
}
use native.Mathlib.Decide.{dec_lt}
use field_docket.Server.Clip.{rune_start, byte_of, back_up, clip}

-- The bytes of one rune: a byte that starts a rune, then continuation bytes.
pub data IsRune : Bytes → Type 0 where
  rune :
      (b : ℕ) (bs : Bytes)
      → rune_start b ≡ true
      → All (λ c. rune_start c ≡ false) bs
      → IsRune (b ∷ bs)

-- The longest prefix of whole runes that has at most `n` bytes.
unfoldable pub fit : ℕ → List Bytes → Bytes
fit n [] = []
fit n (r ∷ rs) = let rest = fit (n - length r) rs in if leb (length r) n then r ++ rest else []

byte_of-append : (r s : Bytes) (i : ℕ) → byte_of (r ++ s) (length r + i) ≡ byte_of s i
unfolding byte_of
byte_of-append [] s i = ap (byte_of s) (omega arith)
byte_of-append (b ∷ r) s i =
    let shift : suc (length r) + i ≡ suc (length r + i) = omega arith in
    ap (byte_of (b ∷ (r ++ s))) shift ∙ byte_of-append r s i

byte_of-continuation :
    (bs s : Bytes) (n : ℕ)
    → All (λ c. rune_start c ≡ false) bs
    → n < length bs
    → rune_start (byte_of (bs ++ s) n) ≡ false
unfolding byte_of
byte_of-continuation [] s n h lt = elim lt [ ]
byte_of-continuation (b ∷ bs) s zero h lt = h.0
byte_of-continuation (b ∷ bs) s (suc n) h lt = byte_of-continuation bs s n h.1 (omega arith)

-- Inside the first rune the loop runs down to the start of the text.
back_up-inside :
    (b : ℕ) (bs s : Bytes) (n : ℕ)
    → All (λ c. rune_start c ≡ false) bs
    → n ≤ length bs
    → back_up (b ∷ (bs ++ s)) n ≡ 0
unfolding back_up
back_up-inside b bs s zero h le = refl
back_up-inside b bs s (suc n) h le =
    rw (byte_of-continuation bs s n h le) (back_up-inside b bs s n h (omega arith))

-- A text whose first byte, if it has one, starts a rune.
abbrev AtRune : Bytes → Type 0
AtRune [] = Unit
AtRune (b ∷ s) = rune_start b ≡ true

-- Behind the first rune the loop runs as it does on the rest of the text.
back_up-append :
    (b : ℕ) (bs s : Bytes) (m : ℕ)
    → AtRune s
    → m < length s
    → back_up ((b ∷ bs) ++ s) (suc (length bs + m)) ≡ suc (length bs + back_up s m)
unfolding back_up
back_up-append b bs [] m h lt = elim lt [ ]
back_up-append b bs (c ∷ s) zero h lt = rw (byte_of-append bs (c ∷ s) 0, h)
back_up-append b bs (c ∷ s) (suc m) h lt =
    let shift : length bs + suc m ≡ suc (length bs + m) = omega arith in
    elim (Bool-cases (rune_start (byte_of s m))) [
      | inl start ↦ rw (byte_of-append bs (c ∷ s) (suc m), start)
      | inr inside ↦
          rw (byte_of-append bs (c ∷ s) (suc m), inside, shift)
            (back_up-append b bs (c ∷ s) m h (omega arith))
    ]

IsRune-AtRune : (rs : List Bytes) → All IsRune rs → AtRune (concat rs)
IsRune-AtRune [] h = tt
IsRune-AtRune (r ∷ rs) h = first h.0
  where
    first : {r : Bytes} → IsRune r → AtRune (r ++ concat rs)
    first (rune b bs start more) = start

take-append : (r s : Bytes) (n : ℕ) → take (length r + n) (r ++ s) ≡ r ++ take n s
take-append [] s n = ap (λ k. take k s) (omega arith)
take-append (b ∷ r) s n =
    let shift : suc (length r) + n ≡ suc (length r + n) = omega arith in
    ap (λ k. take k (b ∷ (r ++ s))) shift ∙ ap (◌∷◌ b) (take-append r s n)

fit-fits :
    (n : ℕ) (r : Bytes) (rs : List Bytes)
    → length r ≤ n
    → fit n (r ∷ rs) ≡ r ++ fit (n - length r) rs
unfolding fit
fit-fits n r rs h = ground arith

fit-over : (n : ℕ) (r : Bytes) (rs : List Bytes) → n < length r → fit n (r ∷ rs) ≡ []
unfolding fit
fit-over n r rs h = ground arith

take-back_up_rune :
    (b : ℕ) (bs s : Bytes) (n : ℕ) (rest : Bytes)
    → All (λ c. rune_start c ≡ false) bs
    → AtRune s
    → suc (length bs) ≤ n
    → n < suc (length bs) + length s
    → take (back_up s (n - suc (length bs))) s ≡ rest
    → take (back_up (b ∷ (bs ++ s)) n) (b ∷ (bs ++ s)) ≡ b ∷ (bs ++ rest)
take-back_up_rune b bs s n rest h at le lt ih =
    let m = n - suc (length bs) in
    let whole : n ≡ suc (length bs + m) = omega arith in
    ap (λ k. take (back_up (b ∷ (bs ++ s)) k) (b ∷ (bs ++ s))) whole
    ∙ ap (λ k. take k (b ∷ (bs ++ s))) (back_up-append b bs s m at (omega arith))
    ∙ ap (◌∷◌ b) (take-append bs s (back_up s m) ∙ ap (◌++◌ bs) ih)

-- On a text of whole runes that is too long the loop stops behind the longest fitting prefix.
take-back_up :
    (rs : List Bytes) (n : ℕ)
    → All IsRune rs
    → n < length (concat rs)
    → take (back_up (concat rs) n) (concat rs) ≡ fit n rs
take-back_up [] n h lt = elim lt [ ]
take-back_up (r ∷ rs) n h lt = first h.0 lt (take-back_up rs (n - length r) h.1)
  where
    first :
        {r : Bytes}
        → IsRune r
        → n < length (r ++ concat rs)
        → (n - length r < length (concat rs)
            → take (back_up (concat rs) (n - length r)) (concat rs) ≡ fit (n - length r) rs)
        → take (back_up (r ++ concat rs) n) (r ++ concat rs) ≡ fit n (r ∷ rs)
    first (rune b bs start more) lt' ih = elim (dec_lt n (suc (length bs))) [
      | yes over ↦
          rw (back_up-inside b bs (concat rs) n more (omega arith), fit-over n (b ∷ bs) rs over)
      | no fits ↦
          let total = length-append (b ∷ bs) (concat rs) in
          let sum : n < suc (length bs) + length (concat rs) = omega (arith, total) in
          rw (fit-fits n (b ∷ bs) rs (omega arith)) (
            take-back_up_rune b bs (concat rs) n _ more (IsRune-AtRune rs h.1) (omega arith) sum
              (ih (omega arith)))
    ]

fit-whole : (rs : List Bytes) (n : ℕ) → length (concat rs) ≤ n → fit n rs ≡ concat rs
unfolding fit
fit-whole [] n h = refl
fit-whole (r ∷ rs) n h =
    let total = length-append r (concat rs) in
    rw (fit-fits n r rs (omega (arith, total)))
      (ap (◌++◌ r) (fit-whole rs (n - length r) (omega (arith, total))))

clip-long : (s : Bytes) (n : ℕ) → n < length s → clip s n ≡ (take (back_up s n) s, true)
unfolding clip
clip-long s n h = ground arith

clip-short : (s : Bytes) (n : ℕ) → length s ≤ n → clip s n ≡ (s, false)
unfolding clip
clip-short s n h = ground arith

back_up-le : (s : Bytes) (n : ℕ) → back_up s n ≤ n
unfolding back_up
back_up-le s zero = omega arith
back_up-le s (suc n) = ground (arith, back_up-le s n)

-- Clipping a text of whole runes yields the longest prefix of whole runes that fits the cap, or
-- the text itself where it fits, and reports a cut exactly where the text is longer than the cap.
pub clip-fit :
    (rs : List Bytes) (n : ℕ)
    → All IsRune rs
    → clip (concat rs) n ≡ (fit n rs, ltb n (length (concat rs)))
clip-fit rs n h = elim (dec_lt n (length (concat rs))) [
  | yes long ↦ rw (clip-long (concat rs) n long, take-back_up rs n h long) (ground arith)
  | no short ↦
      rw (clip-short (concat rs) n (omega arith), fit-whole rs n (omega arith)) (ground arith)
]

-- For any text: the result is a prefix of it of at most `n` bytes, the flag is set exactly where
-- the text is longer than `n` bytes, and where it is not set the result is the text.
pub clip_bounds :
    (s : Bytes) (n : ℕ)
    → (length (clip s n).0 ≤ n)
      × ((rest : Bytes) × ((clip s n).0 ++ rest ≡ s))
      × ((clip s n).1 ≡ ltb n (length s))
      × ((clip s n).1 ≡ false → (clip s n).0 ≡ s)
clip_bounds s n = elim (dec_lt n (length s)) [
  | yes long ↦
      let cut = length-take (back_up s n) s in
      rw (clip-long s n long) (
        omega (arith, cut, back_up-le s n),
        (drop (back_up s n) s, take-append-drop (back_up s n) s),
        ground arith,
        λ h. cc,
      )
  | no short ↦
      rw (clip-short s n (omega arith)) (omega arith, ([], append-nil s), ground arith, λ h. refl)
]
