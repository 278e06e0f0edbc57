-- ===== src/Tests/Policy.antt =====
-- Errors, configurations, orders and results.
use ans_sdk_rust.Prelude.{◌≡◌, ◌↔◌, refl, List, [], ◌∷◌, Option, none, some}
use mathlib.Core.List.{Permᴰ}
use ans_sdk_rust.Text.{codes}
use ans_sdk_rust.Error.{ok, TlogError, url_not_found, service_unavailable}
use ans_sdk_rust.Cache.{default_config}
use ans_sdk_rust.Types.Version.{Version}
use ans_sdk_rust.Verify.Env.{BadgeRecord}
use ans_sdk_rust.Verify.Policy.{fail_open_with_cache, validate_badge_configuration}
use ans_sdk_rust.Verify.Policy.Errors.{Configured, validate_badge_configuration_iff}
use ans_sdk_rust.Verify.Order.{sort_newest}
use ans_sdk_rust.Verify.Order.Sorted.{NewestFirst, of_version, sort_newest_lem}
use ans_sdk_rust.Verify.Records.{preferred_of}
use ans_sdk_rust.Verify.Records.Preferred.{Preferred, preferred_of_lem}
use ans_sdk_rust.Tests.Data.{badge_record}

abbrev failures : List TlogError
failures =
    service_unavailable
    ∷ url_not_found (codes "https://tl.example.com/b")
    ∷ service_unavailable
    ∷ []

validate_badge_configuration_iff_example :
    (validate_badge_configuration
        (some (codes "tl.example.com" ∷ []))
        (some default_config)
        (fail_open_with_cache 1200)
      ≡ ok tt)
    ↔ Configured
        (some (codes "tl.example.com" ∷ []))
        (some default_config)
        (fail_open_with_cache 1200)
validate_badge_configuration_iff_example =
    validate_badge_configuration_iff (some (codes "tl.example.com" ∷ [])) (some default_config)
      (fail_open_with_cache 1200)

abbrev versionless : BadgeRecord
versionless = record badge_record { version = none }

abbrev two_records : List BadgeRecord
two_records = versionless ∷ badge_record ∷ []

sort_newest_lem_example :
    NewestFirst (sort_newest two_records)
    × (Permᴰ (sort_newest two_records) two_records
        × ((version : Option Version)
            → of_version version (sort_newest two_records) ≡ of_version version two_records))
sort_newest_lem_example = sort_newest_lem two_records

sorted_two : sort_newest two_records ≡ badge_record ∷ versionless ∷ []
unfolding sort_newest
sorted_two = refl

preferred_of_lem_example : Preferred two_records
preferred_of_lem_example = preferred_of_lem versionless (badge_record ∷ [])

preferred_two : preferred_of two_records ≡ some versionless
unfolding preferred_of
preferred_two = refl
