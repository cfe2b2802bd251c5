-- ===== src/Server/Review/Walk/Found.antt =====
-- internal/server: an observation that was recorded, and a walk through the docket later on.
use mathlib.Core.Path.{subst}
use field_docket.Base.{
  ℕ, ◌<◌, ◌≡◌, refl, sym, ap, ◌∙◌, inl, inr, Bool, true, List, [], ◌∷◌, ◌++◌, map, Bytes, Option,
  some, length, select, Among, Bool-cases,
}
use field_docket.Go.Errors.{Result, ok}
use field_docket.Go.Time.{Time}
use field_docket.Go.Time.Rfc3339.{parse_time}
use field_docket.Store.Types.{Observation, Record, Filter}
use field_docket.Store.Filter.Matches.{matches}
use field_docket.Store.Key.{precedes, insert_desc, order_desc}
use field_docket.Store.Listing.{Page, list}
use field_docket.Store.Listing.Answers.{matching}
use field_docket.Store.Sqlite.{Sqlite, IsSqlite}
use field_docket.Server.Types.{answered, CallToolRequest}
use field_docket.Server.Record.{RecordInput, RecordOutput, record_observation}
use field_docket.Server.Record.Refusals.{serving, normalized, Effect, record_observation-Effect}
use field_docket.Server.Review.{ReviewInput, ObservationView, good, review_filter, view}
use field_docket.Server.Review.Walk.{walk}
use field_docket.Server.Review.Walk.Written.{IsOrdinary, walk-written}
use field_docket.Server.Session.{Session, idle, then}
use field_docket.Server.Session.Growth.{Session-Grows, serving-injective}

insert_desc-Among :
    (a r : Record) (xs : List Record) → Among a (r ∷ xs) → Among a (insert_desc r xs)
unfolding insert_desc
insert_desc-Among a r [] h = h
insert_desc-Among a r (x ∷ xs) h = elim (Bool-cases (precedes r x)) [
  | inl older ↦ rw older (elim h [
    | inl e ↦ inr (insert_desc-Among a r xs (inl e))
    | inr there ↦ elim there [
      | inl e ↦ inl e
      | inr further ↦ inr (insert_desc-Among a r xs (inr further))
    ]
  ])
  | inr newer ↦ rw newer h
]

order_desc-Among : (a : Record) (xs : List Record) → Among a xs → Among a (order_desc xs)
unfolding order_desc
order_desc-Among a [] h = h
order_desc-Among a (x ∷ xs) h =
    insert_desc-Among a x (order_desc xs)
      (elim h [ inl e ↦ inl e | inr there ↦ inr (order_desc-Among a xs there) ])

select-Among :
    (p : Record → Bool) (a : Record) (xs : List Record)
    → p a ≡ true
    → Among a xs
    → Among a (select p xs)
unfolding select
select-Among p a [] pa h = h
select-Among p a (x ∷ xs) pa h = elim (Bool-cases (p x)) [
  | inl pass ↦ rw pass (elim h [ inl e ↦ inl e | inr there ↦ inr (select-Among p a xs pa there) ])
  | inr fail ↦ rw fail (elim h [
    | inl e ↦ let clash = sym pa ∙ ap p e ∙ fail in cc
    | inr there ↦ select-Among p a xs pa there
  ])
]

map-Among : (a : Record) (xs : List Record) → Among a xs → Among (view a) (map view xs)
map-Among a [] h = elim h [ ]
map-Among a (x ∷ xs) h = elim h [ inl e ↦ inl (ap view e) | inr there ↦ inr (map-Among a xs there) ]

middle-Among : (xs ys : List Record) (r : Record) → Among r ((xs ++ r ∷ []) ++ ys)
middle-Among [] ys r = inl refl
middle-Among (x ∷ xs) ys r = inr (middle-Among xs ys r)

matching-Among :
    (f : Filter) (a : Record) (table : List Record)
    → matches f a ≡ true
    → Among a table
    → Among (view a) (map view (matching f table))
unfolding matching
matching-Among f a table pa h =
    map-Among a (matching f table) (order_desc-Among a _ (select-Among (matches f) a table pa h))

-- The row that an answer names.
abbrev pub row_of : RecordOutput → Observation → Record
row_of out o = record { id = out.id; recorded_at = out.recorded_at; observation = o }

module _ (D : Sqlite) (L : IsSqlite D) (unicode : Bytes → Bytes) (lax : Bytes → Result Time) where
  session-append :
      {When : Time → Result Bytes → Type 0} {s s1 s2 : D.State}
      → Session D unicode When s s1
      → Session D unicode When s1 s2
      → Session D unicode When s s2
  session-append idle later = later
  session-append (then at random req input outcome when h rest) later =
      then at random req input outcome when h (session-append rest later)

  -- What a call that answers has left in the table.
  answered-row :
      (at : Time) (random : Result Bytes) (req : Option CallToolRequest) (input : RecordInput)
      (s s' : D.State) {out : RecordOutput}
      → record_observation D unicode at random (serving D s) req input
        ≡ (serving D s', answered out)
      → D.table s' ≡ D.table s ++ row_of out (normalized unicode req input) ∷ []
  answered-row at random req input s s' {out} h =
      let (s1, r, d, rows, o, id, stamp, _, _) =
        subst (Effect D (normalized unicode req input) at random s) h
          (record_observation-Effect D L unicode at random s req input) in
      let same : r ≡ row_of out (normalized unicode req input) =
        λ i. record { id = id i; recorded_at = stamp i; observation = o i } in
      ap D.table (serving-injective D L unicode IsOrdinary d)
      ∙ rows
      ∙ ap (λ q. D.table s ++ q ∷ []) same

  -- Over a driver that behaves as documented, on a docket that was empty before the records on it,
  -- all at times from 1970 to 9999 with ten random bytes: where a record is answered, more records
  -- follow, and every listing of the docket then succeeds, a walk of more reviews than there are
  -- matching rows, from any review that can be read and whose filter matches the recorded row,
  -- returns entries among which is the recorded one.
  pub recorded-Among :
      {empty s s' s'' : D.State}
      → D.table empty ≡ []
      → Session D unicode IsOrdinary empty s
      → (at : Time) (random : Result Bytes) (req : Option CallToolRequest) (input : RecordInput)
        {out : RecordOutput}
      → IsOrdinary at random
      → record_observation D unicode at random (serving D s) req input
        ≡ (serving D s', answered out)
      → Session D unicode IsOrdinary s' s''
      → ((f : Filter) → (p : Page) × (list D s'' f ≡ ok p))
      → (n : ℕ) (review : ReviewInput) {f : Filter}
      → review_filter unicode (parse_time lax) review ≡ good f
      → matches f (row_of out (normalized unicode req input)) ≡ true
      → length (matching f (D.table s'')) < n
      → (entries : List ObservationView) × (walk D unicode (parse_time lax) s'' n review
          ≡ some entries)
        × Among (view (row_of out (normalized unicode req input))) entries
  recorded-Among {empty} {s} {s'} {s''} nothing before at random req input {out} ordinary h after
        lists n review {f} read matched short =
      let row = row_of out (normalized unicode req input) in
      let whole =
        session-append before (then at random req input (answered out) ordinary h after) in
      let (added, grown, _) = Session-Grows D L unicode IsOrdinary after in
      let table : D.table s'' ≡ (D.table s ++ row ∷ []) ++ added =
        grown ∙ ap (λ t. t ++ added) (answered-row at random req input s s' h) in
      (
        map view (matching f (D.table s'')),
        walk-written D L unicode lax nothing whole lists n review read short,
        matching-Among f row (D.table s'') matched
            (subst (Among row) (sym table) (middle-Among (D.table s) added row)),
      )
