-- ===== src/Store/Permissions/Quoting.antt =====
-- The repair command is read back by a shell as the paths that it is about.
use field_docket.Base.{
  ℕ, ◌≡◌, refl, sym, ap, ◌∙◌, Bool, true, false, not, ◌||◌, List, [], ◌∷◌, ◌++◌, map, append_assoc,
  append-nil, arith, Option, none, some, Bytes, codes, any_of, select, All, inl, inr, Bool-cases,
  ◌==◌, if◌then◌else◌,
}
use native.Mathlib.Decide.{ℕ_discrete}
use field_docket.Go.Text.{join_with}
use field_docket.Store.Permissions.{
  is_special, single_quote, escape_quotes, shell_quote, PermissionIssue, repair_paths,
}

-- How the shell's tokenizer takes a character outside quotes (POSIX, Shell Command Language, 2.2).
pub data Kind : Type 0 where
  plain blank quote backslash active : Kind

-- The characters that POSIX says must or may need to be quoted, and those of brace expansion and
-- of history expansion.
abbrev active_characters : Bytes
active_characters = codes "|&;<>()$`\"\n*?[#~]{}!"

unfoldable pub kind : ℕ → Kind
kind c =
    if c == b' ' || c == b'\t'
    then blank
    else if c == single_quote
    then quote
    else if c == b'\\'
    then backslash
    else if any_of (λ d. c == d) active_characters
    then active
    else plain

-- Between words, inside a word outside quotes, behind a backslash there, inside single quotes.
pub data Mode : Type 0 where
  between : Mode
  bare : Bytes → Mode
  escaped : Bytes → Mode
  quoted : Bytes → Mode

abbrev cons_word : Bytes → Option (List Bytes) → Option (List Bytes)
cons_word w none = none
cons_word w (some ws) = some (w ∷ ws)

-- The words of a command's arguments. `none`: an open quote, or a character with another meaning.
unfoldable pub words : Mode → Bytes → Option (List Bytes)
unfolding kind
words between [] = some []
words (bare w) [] = some (w ∷ [])
words (escaped w) [] = none
words (quoted w) [] = none
words between (c ∷ s) = elim (kind c) [
  | plain ↦ words (bare (c ∷ [])) s
  | blank ↦ words between s
  | quote ↦ words (quoted []) s
  | backslash ↦ words (escaped []) s
  | active ↦ none
]
words (bare w) (c ∷ s) = elim (kind c) [
  | plain ↦ words (bare (w ++ c ∷ [])) s
  | blank ↦ cons_word w (words between s)
  | quote ↦ words (quoted w) s
  | backslash ↦ words (escaped w) s
  | active ↦ none
]
words (escaped w) (c ∷ s) = words (bare (w ++ c ∷ [])) s
words (quoted w) (c ∷ s) = elim (c == single_quote) [
  | true ↦ words (bare w) s
  | false ↦ words (quoted (w ++ c ∷ [])) s
]

-- A character that the shell does not take for itself is one that `shellQuote` looks for.
not_special-plain : (c : ℕ) → is_special c ≡ false → kind c ≡ plain
unfolding is_special kind
not_special-plain c h = ground arith

snoc_append : (w : Bytes) (c : ℕ) (p : Bytes) → (w ++ c ∷ []) ++ p ≡ w ++ c ∷ p
snoc_append w c p = append_assoc w (c ∷ []) p

or-false : (a b : Bool) → (a || b) ≡ false → (a ≡ false) × (b ≡ false)
or-false a b h = ground arith

words-plain :
    (p w s : Bytes)
    → any_of is_special p ≡ false
    → words (bare w) (p ++ s) ≡ words (bare (w ++ p)) s
unfolding words
words-plain [] w s h = rw append-nil
words-plain (c ∷ p) w s h =
    let (first, more) = or-false (is_special c) (any_of is_special p) h in
    rw (words, not_special-plain c first)
      (words-plain p (w ++ c ∷ []) s more ∙ ap (λ v. words (bare v) s) (snoc_append w c p))

words-quoted :
    (p w s : Bytes)
    → words (quoted w) (escape_quotes p ++ single_quote ∷ s) ≡ words (bare (w ++ p)) s
unfolding words escape_quotes
words-quoted [] w s = rw append-nil
words-quoted (c ∷ p) w s = elim (ℕ_discrete c single_quote) [
  | yes e ↦ rw e (
      words-quoted p (w ++ single_quote ∷ []) s
      ∙ ap (λ v. words (bare v) s) (snoc_append w single_quote p))
  | no ne ↦ ground (arith, words-quoted p (w ++ c ∷ []) s, snoc_append w c p)
]

abbrev NonEmpty : Bytes → Type 0
NonEmpty [] = ⊥
NonEmpty (c ∷ s) = Unit

-- A quoted path is one word, the path.
words-shell_quote :
    (p s : Bytes) → NonEmpty p → words between (shell_quote p ++ s) ≡ words (bare p) s
unfolding words shell_quote
words-shell_quote [] s h = absurd h
words-shell_quote (c ∷ p) s h = elim (Bool-cases (any_of is_special (c ∷ p))) [
  | inl special ↦ rw (special, append_assoc) (words-quoted (c ∷ p) [] s)
  | inr harmless ↦
      let (first, more) = or-false (is_special c) (any_of is_special p) harmless in
      rw (harmless, words, not_special-plain c first) (words-plain p (c ∷ []) s more)
]

words-blank : (w s : Bytes) → words (bare w) (b' ' ∷ s) ≡ cons_word w (words between s)
unfolding words
words-blank w s = refl

words-end : (w : Bytes) → words (bare w) [] ≡ some (w ∷ [])
unfolding words
words-end w = refl

words-nil : words between [] ≡ some []
unfolding words
words-nil = refl

-- What the shell makes of the arguments of the repair command: the paths, one word each, however
-- they are spelled.
pub words-join_with :
    (paths : List Bytes)
    → All NonEmpty paths
    → words between (join_with (codes " ") (map shell_quote paths)) ≡ some paths
unfolding join_with
words-join_with [] h = words-nil
words-join_with (p ∷ []) h =
    ap (words between) (sym (append-nil (shell_quote p))) ∙ words-shell_quote p [] h.0 ∙ words-end p
words-join_with (p ∷ q ∷ ps) h =
    words-shell_quote p _ h.0 ∙ words-blank p _ ∙ ap (cons_word p) (words-join_with (q ∷ ps) h.1)

-- The paths of the issues that `chmod` repairs: those that are no links.
abbrev pub loose_paths : List PermissionIssue → List Bytes
loose_paths is = map (λ i. i.path) (select (λ i. not i.symlink) is)

repair_paths-loose_paths :
    (is : List PermissionIssue) → repair_paths is ≡ map shell_quote (loose_paths is)
unfolding repair_paths select
repair_paths-loose_paths [] = refl
repair_paths-loose_paths (i ∷ is) = ground (arith, repair_paths-loose_paths is)

-- The arguments of the repair command are read by a shell as exactly the paths of the issues that
-- are no symbolic links, in order and one word each, whatever characters are in them.
pub words-repair_paths :
    (is : List PermissionIssue)
    → All NonEmpty (loose_paths is)
    → words between (join_with (codes " ") (repair_paths is)) ≡ some (loose_paths is)
words-repair_paths is h = rw (repair_paths-loose_paths is) (words-join_with (loose_paths is) h)
