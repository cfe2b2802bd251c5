-- ===== src/Server/Registration/Scopes.antt =====
-- The scopes that the registered `record_observation` files its rows under.
use mathlib.Core.Path.{subst}
use field_docket.Base.{
  ◌≡◌, refl, sym, ap, ◌∙◌, ◌⊎◌, inl, inr, arith, true, false, List, [], ◌∷◌, ◌++◌, Option, none,
  some, Bytes, codes, Bool-cases,
}
use field_docket.Base.Compare.{same, same_iff, compare_bytes}
use field_docket.Go.Errors.{Error, message, Result}
use field_docket.Go.Text.{is_empty, trim_space, trim_while, leading_space, trailing_space}
use field_docket.Go.Time.{Time}
use field_docket.Store.Types.{Record}
use field_docket.Store.Sqlite.{Sqlite, IsSqlite}
use field_docket.Server.Types.{Outcome, answered, refused, Deps, CallToolRequest}
use field_docket.Server.Record.{
  RecordInput, RecordOutput, scope_project, scope_user, scope_kind_of, record_observation,
  record_available,
}
use field_docket.Server.Record.Refusals.{
  serving, is_refused, malformed, normalized, record_refuses, Effect, record_observation-Effect,
}
use field_docket.Server.Schema.{
  Property, Schema, property, scope_kinds, scope_kind_name, json_string, record_schema,
  review_schema,
}
use field_docket.Server.Schema.Admission.{listed, tested, admits_record}
use field_docket.Server.Schema.Published.{some-injective, bind-some, record_schema-scope_kind}
use field_docket.Server.Registration.Named.{tool_named}
use field_docket.Server.Registration.{Tool, Handler, records, reviews, Server, new_server}

admitted_scope :
    (enum : List Bytes) (v : Bytes)
    → enum ≡ scope_kinds
    → listed enum v ≡ true
    → (v ≡ scope_project) ⊎ (v ≡ scope_user)
unfolding listed
admitted_scope enum v e h = elim (Bool-cases (same v scope_project)) [
  | inl is_project ↦ inl ((same_iff v scope_project).0 is_project)
  | inr no_project ↦ elim (Bool-cases (same v scope_user)) [
    | inl is_user ↦ inr ((same_iff v scope_user).0 is_user)
    | inr no_user ↦
        let left : listed scope_kinds v ≡ false = rw (listed, no_project, no_user) refl in
        let clash = sym left ∙ ap (λ t. listed t v) (sym e) ∙ h in cc
  ]
]

-- A scope of the vocabulary is stored as it is.
scope_kind_of-known : (v : Bytes) → (v ≡ scope_project) ⊎ (v ≡ scope_user) → scope_kind_of v ≡ v
unfolding scope_kind_of trim_space trim_while leading_space trailing_space is_empty
scope_kind_of-known v (inl e) = rw e refl
scope_kind_of-known v (inr e) = rw e refl

answer-well_formed :
    (D : Sqlite) (unicode : Bytes → Bytes) (at : Time) (random : Result Bytes) (s : D.State)
    (req : Option CallToolRequest) (input : RecordInput) {d : Deps D} {out : RecordOutput}
    → record_observation D unicode at random (serving D s) req input ≡ (d, answered out)
    → malformed unicode input ≡ false
answer-well_formed D unicode at random s req input h =
    sym (record_refuses D unicode at random s req input).0 ∙ ap (λ t. is_refused t.1) h

project_ref :
    (unicode : Bytes → Bytes) (req : Option CallToolRequest) (input : RecordInput)
    → malformed unicode input ≡ false
    → (normalized unicode req input).scope_kind ≡ scope_project
    → is_empty (normalized unicode req input).scope_ref ≡ false
unfolding malformed normalized
project_ref unicode req input good is_project =
    let e = (same_iff _ scope_project).1 is_project in ground (arith, good, e)

-- The handler reads no more of `scope_kind` than its normal form.
same_available :
    (D : Sqlite) (unicode : Bytes → Bytes) (at : Time) (random : Result Bytes) (d : Deps D)
    (req : Option CallToolRequest) (input : RecordInput) (k k' : Bytes)
    → scope_kind_of k ≡ scope_kind_of k'
    → record_available D unicode at random d req (record input { scope_kind = k })
      ≡ record_available D unicode at random d req (record input { scope_kind = k' })
unfolding record_available
same_available D unicode at random d req input k k' e = rw (record_available, e) refl

same_scope :
    (D : Sqlite) (unicode : Bytes → Bytes) (at : Time) (random : Result Bytes) (d : Deps D)
    (req : Option CallToolRequest) (input : RecordInput) (k k' : Bytes)
    → scope_kind_of k ≡ scope_kind_of k'
    → record_observation D unicode at random d req (record input { scope_kind = k })
      ≡ record_observation D unicode at random d req (record input { scope_kind = k' })
unfolding record_observation
same_scope D unicode at random d req input k k' e =
    ap (λ t. elim (d.unavailable) [ some x ↦ (d, refused (message x)) | none ↦ t ])
      (same_available D unicode at random d req input k k' e)

abbrev record_handler :
    {D : Sqlite}
    → Tool × Handler D
    → (Time
        → Result Bytes
        → Deps D
        → Option CallToolRequest
        → RecordInput
        → Deps D × Outcome RecordOutput)
    → Time
    → Result Bytes
    → Deps D
    → Option CallToolRequest
    → RecordInput
    → Deps D × Outcome RecordOutput
record_handler (t, records h) other = h
record_handler (t, reviews h) other = other

module _ (D : Sqlite) {R A : Type 0} (unicode : Bytes → Bytes) (parse : Bytes → Result Time)
    (version : Bytes) (for_record for_review : Result Schema) (st : Option D.State)
    (unavailable : Option Error) {server : Server D R A} {tool : Tool}
    {handle : Time
      → Result Bytes
      → Deps D
      → Option CallToolRequest
      → RecordInput
      → Deps D × Outcome RecordOutput}
    (built : new_server D unicode parse version for_record for_review st unavailable ≡ some server)
    (named : tool_named (codes "record_observation") server.tools
      ≡ some (tool, records handle)) where
  registered_record :
      (record_schema for_record ≡ some tool.input_schema) × (handle ≡ record_observation D unicode)
  unfolding new_server compare_bytes
  registered_record =
      let (recorded, is_recorded, h1) = bind-some (record_schema for_record) _ built in
      let (reviewed, _, h2) = bind-some (review_schema for_review) _ h1 in
      let tools = ap (λ t. tool_named (codes "record_observation") t.tools) (some-injective h2) in
      let pair = some-injective (tools ∙ named) in
      (
        is_recorded ∙ ap (λ t. some (t.0).input_schema) pair,
        sym (ap (λ t. record_handler t handle) pair),
      )

  -- Over a driver that behaves as documented, whatever the schema library infers from the input
  -- types: where the server is built, an input that the published schema of `record_observation`
  -- admits, and that its registered handler answers on a served store, has added one row behind the
  -- others, under the scope that the input names: a project with a reference that is not empty, or
  -- the user.
  pub new_server-record_scope :
      IsSqlite D
      → (at : Time) (random : Result Bytes) (s : D.State) (req : Option CallToolRequest)
        (input : RecordInput) {d : Deps D} {out : RecordOutput}
      → admits_record tool.input_schema input ≡ true
      → handle at random (serving D s) req input ≡ (d, answered out)
      → (s' : D.State) × (r : Record) × (d ≡ serving D s')
        × (D.table s' ≡ D.table s ++ r ∷ [])
        × ((r.observation).scope_kind ≡ input.scope_kind)
        × ((input.scope_kind ≡ scope_project) × (is_empty (r.observation).scope_ref ≡ false)
            ⊎ (input.scope_kind ≡ scope_user))
  unfolding admits_record tested normalized scope_kind_of
  new_server-record_scope L at random s req input {d} {out} admits answers =
      let (published, handles) = registered_record in
      let (q, found, vocabulary, _) = record_schema-scope_kind for_record published in
      let scope =
        admitted_scope q.enum input.scope_kind vocabulary
          (sym (ap (tested (λ q. listed q.enum input.scope_kind)) found) ∙ admits) in
      let kept = scope_kind_of-known input.scope_kind scope in
      let answers' = ap (λ t. t at random (serving D s) req input) (sym handles) ∙ answers in
      let good = answer-well_formed D unicode at random s req input answers' in
      let effect =
        subst (Effect D (normalized unicode req input) at random s) answers'
          (record_observation-Effect D L unicode at random s req input) in
      (
        effect.0,
        effect.1,
        effect.2,
        effect.3,
        ap (λ o. o.scope_kind) effect.4 ∙ kept,
        elim scope [
          | inl project ↦ inl (
            project,
            ap (λ o. is_empty o.scope_ref) effect.4
                ∙ project_ref unicode req input good (kept ∙ project),
          )
          | inr user ↦ inr user
        ],
      )

  -- Where the server is built, whatever the schema library infers from the input types, the
  -- published schema of `record_observation` gives `scope_kind` a default, which is the JSON text of
  -- a scope; and the registered handler does the same, on any store or none, with an input that
  -- names no scope as with that input where the default has been filled in.
  pub new_server-record_default :
      (q : Property) × (scope : Bytes) × (property scope_kind_name (tool.input_schema).properties
        ≡ some q)
      × (q.default ≡ some (json_string scope))
      × ((at : Time) (random : Result Bytes) (d : Deps D) (req : Option CallToolRequest)
            (input : RecordInput)
          → handle at random d req (record input { scope_kind = [] })
            ≡ handle at random d req (record input { scope_kind = scope }))
  unfolding scope_kind_of is_empty trim_space
  new_server-record_default =
      let (published, handles) = registered_record in
      let (q, found, _, default) = record_schema-scope_kind for_record published in
      (
        q,
        scope_project,
        found,
        default,
        λ at random d req input. rw handles (
            same_scope D unicode at random d req input [] scope_project
              (sym (scope_kind_of-known scope_project (inl refl)))),
      )
