-- ===== src/Server/Registration/Limits.antt =====
-- The pages of the registered `review_observations`.
use field_docket.Base.{
  ℕ, zero, suc, ◌≤◌, ◌≡◌, refl, sym, ap, ◌∙◌, arith, true, Option, some, Bytes, codes, length, pos,
  negsuc, ℤ, ◌&&◌, &&-true,
}
use field_docket.Base.Compare.{compare_bytes}
use field_docket.Go.Errors.{Error, Result}
use field_docket.Go.Time.{Time}
use field_docket.Store.Sqlite.{Sqlite, IsSqlite}
use field_docket.Store.Listing.{page_limit}
use field_docket.Server.Types.{Outcome, answered, Deps}
use field_docket.Server.Record.Refusals.{serving}
use field_docket.Server.Review.{ReviewInput, ReviewOutput, review_observations}
use field_docket.Server.Review.Limit.{review_filter-limit}
use field_docket.Server.Review.Pages.{review-answered, expected_consistent}
use field_docket.Server.Schema.{Schema, max_limit, record_schema, review_schema}
use field_docket.Server.Schema.Admission.{at_least, at_most, tested, admits_review}
use field_docket.Server.Schema.Published.{some-injective, bind-some, review_schema-limit}
use field_docket.Server.Registration.Named.{tool_named}
use field_docket.Server.Registration.{Tool, Handler, records, reviews, Server, new_server}

admitted_limit :
    (low high : Option ℕ) (n : ℤ)
    → low ≡ some 1
    → high ≡ some max_limit
    → (at_least low n && at_most high n) ≡ true
    → (k : ℕ) × (n ≡ pos k) × (1 ≤ k) × (k ≤ max_limit)
unfolding at_least at_most
admitted_limit low high (pos k) hl hh h =
    (k, refl, ground (arith, hl, hh, h), ground (arith, hl, hh, h))
admitted_limit low high (negsuc k) hl hh h = ground (arith, hl, hh, h)

page_limit-pos : (n : ℕ) → 1 ≤ n → page_limit (pos n) ≡ n
unfolding page_limit
page_limit-pos zero h = absurd (omega arith)
page_limit-pos (suc n) h = refl

abbrev review_handler :
    {D : Sqlite}
    → Tool × Handler D
    → (Deps D → ReviewInput → Outcome ReviewOutput)
    → Deps D
    → ReviewInput
    → Outcome ReviewOutput
review_handler (t, reviews h) other = h
review_handler (t, records h) other = other

module _ (D : Sqlite) {R A : Type 0} (unicode : Bytes → Bytes) (parse : Bytes → Result Time)
    (version : Bytes) (for_record for_review : Result Schema) (st : Option D.State)
    (unavailable : Option Error) where
  registered_review :
      {server : Server D R A} {tool : Tool} {handle : Deps D → ReviewInput → Outcome ReviewOutput}
      → new_server D unicode parse version for_record for_review st unavailable ≡ some server
      → tool_named (codes "review_observations") server.tools ≡ some (tool, reviews handle)
      → (review_schema for_review ≡ some tool.input_schema)
        × (handle ≡ review_observations D unicode parse)
  unfolding new_server compare_bytes
  registered_review {server} {tool} {handle} h named =
      let (recorded, _, h1) = bind-some (record_schema for_record) _ h in
      let (reviewed, is_reviewed, h2) = bind-some (review_schema for_review) _ h1 in
      let tools = ap (λ t. tool_named (codes "review_observations") t.tools) (some-injective h2) in
      let pair = some-injective (tools ∙ named) in
      (
        is_reviewed ∙ ap (λ t. some (t.0).input_schema) pair,
        sym (ap (λ t. review_handler t handle) pair),
      )

  -- Over a driver that behaves as documented, whatever the schema library infers from the input
  -- types: where the server is built, an input that the published schema of `review_observations`
  -- admits asks for 1 to 500 entries, and a page that its registered handler answers from a served
  -- store has no more entries than the input asks for.
  pub new_server-review_page :
      {server : Server D R A} {tool : Tool} {handle : Deps D → ReviewInput → Outcome ReviewOutput}
      → IsSqlite D
      → new_server D unicode parse version for_record for_review st unavailable ≡ some server
      → tool_named (codes "review_observations") server.tools ≡ some (tool, reviews handle)
      → (input : ReviewInput) (s : D.State) {out : ReviewOutput}
      → admits_review tool.input_schema input ≡ true
      → handle (serving D s) input ≡ answered out
      → (n : ℕ) × (input.limit ≡ pos n) × (1 ≤ n) × (n ≤ max_limit) × (length out.observations ≤ n)
  unfolding admits_review tested page_limit
  new_server-review_page {server} {tool} L built named input s {out} admits answers =
      let (published, handles) = registered_review built named in
      let (q, at, low, high, _) = review_schema-limit for_review published in
      let (f, asks, out_is) =
        review-answered D L unicode parse s input
          (ap (λ t. t (serving D s) input) (sym handles) ∙ answers) in
      let (n, limit, low', high') = admitted_limit q.minimum q.maximum input.limit low high (
        sym (ap (tested (λ q. at_least q.minimum input.limit && at_most q.maximum input.limit)) at)
        ∙ (&&-true _ _ admits).0) in
      let shown = (expected_consistent f (D.table s)).0 in
      let asked = review_filter-limit unicode parse input asks in
      (
        n,
        limit,
        low',
        high',
        omega (
          arith,
          shown,
          ap (λ t. length t.observations) out_is,
          ap page_limit (asked ∙ limit),
          page_limit-pos n low',
        ),
      )
