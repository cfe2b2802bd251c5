-- ===== src/Tests/Times.antt =====
-- Timestamps and ids at concrete instants.
use field_docket.Base.{◌≡◌, refl, [], Bytes, codes, none, some, arith, compare, Ordering}
use field_docket.Base.Compare.{compare_bytes}
use field_docket.Go.Errors.{ok}
use field_docket.Go.Time.{civil, east}
use field_docket.Go.Time.Rfc3339.{parse_rfc3339}
use field_docket.Store.Clock.{format_time, millis, InFourDigits, compare-format_time}
use field_docket.Store.Id.{new_uuid_v7}
use field_docket.Store.Id.Shape.{Fits, uuid_v7_pattern, IsFill, new_uuid_v7-Fits}
use field_docket.Store.Id.Order.{new_uuid_v7_mono}
use field_docket.Tests.Data.{at_noon, later, random_bytes}

pub at_noon-InFourDigits : InFourDigits at_noon
unfolding civil
at_noon-InFourDigits = omega arith

pub later-InFourDigits : InFourDigits later
unfolding civil
later-InFourDigits = omega arith

compare-format_time_example :
    compare_bytes (format_time at_noon) (format_time later)
    ≡ compare (millis at_noon) (millis later)
compare-format_time_example =
    compare-format_time at_noon later at_noon-InFourDigits later-InFourDigits

pub random_bytes-IsFill : IsFill random_bytes
random_bytes-IsFill = record { size = refl; bytes = ground arith }

new_uuid_v7-Fits_example :
    (id : Bytes) × (new_uuid_v7 at_noon (ok random_bytes) ≡ ok id) × Fits uuid_v7_pattern id
new_uuid_v7-Fits_example = new_uuid_v7-Fits at_noon {bytes = random_bytes} refl random_bytes-IsFill

new_uuid_v7_mono_example :
    (id : Bytes) × (id' : Bytes) × (new_uuid_v7 at_noon (ok random_bytes) ≡ ok id)
    × (new_uuid_v7 later (ok []) ≡ ok id')
    × (compare_bytes id id' ≡ Ordering.lt)
new_uuid_v7_mono_example =
    new_uuid_v7_mono at_noon later random_bytes [] (omega arith) (omega arith) (omega arith)

-- A fraction and a zone to the east.
eastern :
    parse_rfc3339 (codes "2026-07-24T02:13:20.5+02:00")
    ≡ some (record { instant = 63_952_071_200_500_000_000; offset = east 7200 })
unfolding parse_rfc3339
eastern = refl

leap_day :
    parse_rfc3339 (codes "2024-02-29T00:00:00Z")
    ≡ some (record { instant = 63_876_384_000_000_000_000; offset = east 0 })
unfolding parse_rfc3339
leap_day = refl

no_leap_day : parse_rfc3339 (codes "2026-02-29T00:00:00Z") ≡ none
unfolding parse_rfc3339
no_leap_day = refl

no_zone : parse_rfc3339 (codes "2026-02-28T00:00:00") ≡ none
unfolding parse_rfc3339
no_zone = refl
