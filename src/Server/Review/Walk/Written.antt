-- ===== src/Server/Review/Walk/Written.antt =====
-- internal/server: a walk through a docket that calls of `record_observation` have written.
use mathlib.Core.Path.{subst}
use field_docket.Base.{
  ℕ, ◌<◌, ◌≡◌, refl, sym, ap, ◌∙◌, Bool, true, false, List, [], ◌∷◌, ◌++◌, map, arith, Bytes, some,
  All, All-map_of, length, take, drop,
}
use field_docket.Go.Errors.{Result, ok}
use field_docket.Go.Text.{is_empty, trim_space}
use field_docket.Go.Text.Trim.{is_graphic, trim_space-graphic}
use field_docket.Go.Time.{Time, utc}
use field_docket.Go.Time.Rfc3339.{parse_time}
use field_docket.Store.Types.{Record, Filter}
use field_docket.Store.Clock.{InFourDigits}
use field_docket.Store.Clock.Parsed.{
  truncated, IsUnix, parse_time-format_time, trim_space-format_time, is_empty-format_time,
  format_time-truncated, is_zero-truncated,
}
use field_docket.Store.Id.{new_uuid_v7}
use field_docket.Store.Id.Shape.{is_hex, Fits, uuid_v7_pattern, IsFill, new_uuid_v7-Fits}
use field_docket.Store.Listing.{Page, list}
use field_docket.Store.Listing.Answers.{matching}
use field_docket.Store.Sqlite.{Sqlite, IsSqlite}
use field_docket.Server.Review.{ReviewInput, good, review_filter, view}
use field_docket.Server.Review.Walk.{walk}
use field_docket.Server.Review.Walk.Next.{IsReadable}
use field_docket.Server.Review.Walk.Whole.{walk-matching}
use field_docket.Server.Session.{Session}
use field_docket.Server.Session.Growth.{IsEntry, Session-Grows}

-- A clock between 1970 and 9999, and ten random bytes.
abbrev pub IsOrdinary : Time → Result Bytes → Type 0
IsOrdinary at random =
    IsUnix at × InFourDigits at × ((bytes : Bytes) × (random ≡ ok bytes) × IsFill bytes)

Fits-ends :
    (p q : ℕ → Bool) (ps : List (ℕ → Bool)) (s : Bytes)
    → Fits (p ∷ ps ++ q ∷ []) s
    → (x : ℕ) × (middle : Bytes) × (y : ℕ) × (s ≡ x ∷ middle ++ y ∷ [])
      × (p x ≡ true)
      × (q y ≡ true)
Fits-ends p q [] [] h = elim h [ ]
Fits-ends p q [] (x ∷ []) (hx, h) = elim h [ ]
Fits-ends p q [] (x ∷ y ∷ []) (hx, (hy, _)) = (x, [], y, refl, hx, hy)
Fits-ends p q [] (x ∷ y ∷ z ∷ s) (hx, (hy, h)) = elim h [ ]
Fits-ends p q (r ∷ ps) [] h = elim h [ ]
Fits-ends p q (r ∷ ps) (x ∷ s) (hx, rest) =
    let (x', middle, y, e, _, hy) = Fits-ends r q ps s rest in
    (x, x' ∷ middle, y, ap (λ t. x ∷ t) e, hx, hy)

hex-graphic : (c : ℕ) → is_hex c ≡ true → is_graphic c ≡ true
hex-graphic c h = ground (arith, h)

-- A minted id is not empty and has no white space at its ends.
id-trimmed : (id : Bytes) → Fits uuid_v7_pattern id → (trim_space id ≡ id) × (is_empty id ≡ false)
unfolding is_empty
id-trimmed id fits =
    let (x, middle, y, e, hx, hy) =
      Fits-ends is_hex is_hex (take 34 (drop 1 uuid_v7_pattern)) id fits in
    rw e (trim_space-graphic x y middle (hex-graphic x hx) (hex-graphic y hy), refl)

ok-injective : {A : Type 0} {a b : A} → ok a ≡ ok b → a ≡ b
ok-injective h = cc

minted-trimmed :
    (at : Time) {random : Result Bytes} {bytes id : Bytes}
    → random ≡ ok bytes
    → IsFill bytes
    → new_uuid_v7 at random ≡ ok id
    → (trim_space id ≡ id) × (is_empty id ≡ false)
minted-trimmed at drawn fill minted =
    let (id', e, fits) = new_uuid_v7-Fits at drawn fill in
    let same = ok-injective (sym e ∙ minted) in
    id-trimmed _ (subst (Fits uuid_v7_pattern) same fits)

-- The texts of a row that a session adds come back as they are stored.
entry-IsReadable :
    (lax : Bytes → Result Time) (r : Record) → IsEntry IsOrdinary r → IsReadable (parse_time lax) r
unfolding utc
entry-IsReadable lax r (at, random, (unix, digits, (bytes, drawn, fill)), stamp, minted, _) =
    let (trimmed, named) = minted-trimmed at drawn fill minted in
    let whole = ap trim_space stamp ∙ trim_space-format_time at digits in
    record {
      at = truncated at;
      stamp = ap is_empty whole ∙ is_empty-format_time at digits;
      parses = ap (parse_time lax) whole ∙ parse_time-format_time lax at digits;
      cursor = record {
        set = is_zero-truncated at unix;
        stamped = format_time-truncated at ∙ sym stamp;
        named = named;
      };
      trimmed = trimmed;
    }

-- Over a driver that behaves as documented, on a docket that was empty before a sequence of calls of
-- `record_observation` at times from 1970 to 9999 that all drew ten random bytes, and of which every
-- listing succeeds: paging backward by the last row of each answer, from any review that can be
-- read, ends in more reviews than there are matching rows, whatever `time.Parse` does with texts
-- that are not in RFC 3339's strict form, and its entries are those of all the rows that match, the
-- newest first.
pub walk-written :
    (D : Sqlite)
    → IsSqlite D
    → (unicode : Bytes → Bytes) (lax : Bytes → Result Time) {empty s : D.State} → D.table empty ≡ []
    → Session D unicode IsOrdinary empty s
    → ((f : Filter) → (p : Page) × (list D s f ≡ ok p))
    → (n : ℕ) (input : ReviewInput) {f : Filter}
    → review_filter unicode (parse_time lax) input ≡ good f
    → length (matching f (D.table s)) < n
    → walk D unicode (parse_time lax) s n input ≡ some (map view (matching f (D.table s)))
walk-written D L unicode lax {empty} {s} nothing session lists n input read short =
    let (added, rows, entries) = Session-Grows D L unicode IsOrdinary session in
    let all : D.table s ≡ added = rows ∙ ap (λ t. t ++ added) nothing in
    walk-matching D L unicode (parse_time lax) s lists
      (subst (All (IsReadable (parse_time lax))) (sym all)
        (All-map_of (IsEntry IsOrdinary) added (entry-IsReadable lax) entries))
      n input read short
