-- ===== src/Server/Middleware/Nulls.antt =====
-- Which arguments the handlers see.
use field_docket.Base.{
  ℕ, ◌≡◌, refl, sym, ap, ◌∙◌, arith, true, false, [], ◌∷◌, ◌++◌, Bytes, codes, none, some,
  if◌then◌else◌,
}
use field_docket.Base.Compare.{same, same_iff}
use field_docket.Go.Text.{trim_space, leading_space, trailing_space}
use field_docket.Go.Text.Trim.{IsPad, trim_space-pad, trim_space-begins}
use field_docket.Server.Middleware.{
  Request, call_tool, json_null, without_null, tolerate_null_arguments,
}

without_null-null :
    (pre post : Bytes)
    → IsPad pre
    → IsPad post
    → without_null (some (pre ++ (json_null ++ post))) ≡ none
unfolding without_null leading_space trailing_space
without_null-null pre post hpre hpost =
    let trimmed : trim_space (pre ++ (json_null ++ post)) ≡ json_null =
      trim_space-pad pre post b'n' b'l' (codes "ul") hpre hpost refl refl in
    rw ((same_iff _ json_null).1 trimmed) refl

abbrev head : Bytes → ℕ
head [] = 0
head (c ∷ s) = c

leading_space-brace : (s : Bytes) → leading_space (b'{' ∷ s) ≡ 0
unfolding leading_space
leading_space-brace [] = refl
leading_space-brace (a ∷ []) = refl
leading_space-brace (a ∷ b ∷ s) = refl

without_null-object :
    (pre s : Bytes) → IsPad pre → without_null (some (pre ++ b'{' ∷ s)) ≡ some (pre ++ b'{' ∷ s)
unfolding without_null
without_null-object pre s hpre =
    let (rest, e) = trim_space-begins pre b'{' s hpre (leading_space-brace s) in
    elim (same (trim_space (pre ++ b'{' ∷ s)) json_null)
        as (λ b.
          same (trim_space (pre ++ b'{' ∷ s)) json_null ≡ b
          → (if b then none else some (pre ++ b'{' ∷ s)) ≡ some (pre ++ b'{' ∷ s)) [
            | true ↦ λ h.
                let null = ap (λ t. t ++ rest) (sym ((same_iff _ json_null).0 h)) ∙ e in
                let first : 110 ≡ 123 = ap head null in absurd (omega (arith, first))
            | false ↦ λ h. refl
          ]
      refl

-- A tool call whose arguments are the JSON null, with any JSON white space around it, is handled
-- as the call without arguments is; and one whose arguments begin, behind white space, as an
-- object does is handed on as it is.
pub tolerate_null_arguments-null :
    {R A : Type 0} (next : Bytes → Request R → A) (method name pre post s : Bytes)
    → IsPad pre
    → IsPad post
    → (tolerate_null_arguments next method
          (call_tool (some (record { name = name; arguments = some (pre ++ (json_null ++ post)) })))
        ≡ tolerate_null_arguments next method
            (call_tool (some (record { name = name; arguments = none }))))
      × (tolerate_null_arguments next method
            (call_tool (some (record { name = name; arguments = some (pre ++ b'{' ∷ s) })))
          ≡ next method
              (call_tool (some (record { name = name; arguments = some (pre ++ b'{' ∷ s) }))))
unfolding tolerate_null_arguments without_null
tolerate_null_arguments-null next method name pre post s hpre hpost = (
  ap (λ a. next method (call_tool (some (record { name = name; arguments = a }))))
      (without_null-null pre post hpre hpost),
  ap (λ a. next method (call_tool (some (record { name = name; arguments = a }))))
      (without_null-object pre s hpre),
)
