-- ===== src/Tests/Tools.antt =====
-- The handlers on concrete requests, and texts that are clipped.
use field_docket.Base.{◌≡◌, refl, true, List, [], ◌∷◌, Bytes, codes, All, length, concat, ltb}
use field_docket.Go.Errors.{foreign, Result, ok, err}
use field_docket.Go.Time.{Time}
use field_docket.Store.Sqlite.Memory.{memory, memory-IsSqlite}
use field_docket.Server.Clip.{clip}
use field_docket.Server.Clip.Runes.{IsRune, rune, fit, clip-fit}
use field_docket.Base.{Option, none, some}
use field_docket.Server.Middleware.{Request, call_tool, tolerate_null_arguments}
use field_docket.Server.Middleware.Nulls.{tolerate_null_arguments-null}
use field_docket.Server.Record.{record_observation}
use field_docket.Server.Record.Refusals.{
  serving, malformed, is_refused, record_refuses, normalized, Effect, record_observation-Effect,
}
use field_docket.Tests.Data.{at_noon, random_bytes, docket, request, well_formed}

-- No rune of the requests is outside ASCII, and no timestamp is given.
abbrev lower : Bytes → Bytes
lower s = s

abbrev parse : Bytes → Result Time
parse s = err (foreign (codes "cannot parse"))

record_refuses_example :
    let (d, outcome) =
      record_observation memory lower at_noon
        (ok random_bytes)
        (serving memory docket)
        request
        well_formed in
    (is_refused outcome ≡ malformed lower well_formed)
    × (malformed lower well_formed ≡ true → d ≡ serving memory docket)
record_refuses_example =
    record_refuses memory lower at_noon (ok random_bytes) docket request well_formed

record_observation-Effect_example :
    Effect memory (normalized lower request well_formed) at_noon (ok random_bytes) docket (
      record_observation memory lower at_noon
        (ok random_bytes)
        (serving memory docket)
        request
        well_formed)
record_observation-Effect_example =
    record_observation-Effect memory memory-IsSqlite lower at_noon (ok random_bytes) docket request
      well_formed

-- "aé", the second rune of two bytes.
abbrev runes : List Bytes
runes = codes "a" ∷ (0xc3 ∷ 0xa9 ∷ []) ∷ []

runes-IsRune : All IsRune runes
runes-IsRune = (rune 97 [] refl tt, (rune 0xc3 (0xa9 ∷ []) refl (refl, tt), tt))

clip-fit_example : clip (concat runes) 2 ≡ (fit 2 runes, ltb 2 (length (concat runes)))
clip-fit_example = clip-fit runes 2 runes-IsRune

-- A handler that returns the request.
abbrev echo : Bytes → Request Bytes → Request Bytes
echo method req = req

abbrev call_with : Option Bytes → Request Bytes
call_with arguments =
    call_tool (some (record { name = codes "review_observations"; arguments = arguments }))

tolerate_null_arguments-null_example :
    (tolerate_null_arguments echo (codes "tools/call") (call_with (some (codes " null\n")))
      ≡ tolerate_null_arguments echo (codes "tools/call") (call_with none))
    × (tolerate_null_arguments echo (codes "tools/call") (call_with (some (codes " {}")))
        ≡ call_with (some (codes " {}")))
tolerate_null_arguments-null_example =
    tolerate_null_arguments-null echo (codes "tools/call") (codes "review_observations") (codes " ")
      (codes "\n") (codes "}") (refl, tt) (refl, tt)
