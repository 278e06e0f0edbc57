-- ===== src/Verify/Records.antt =====
-- crates/ans-verify/src/dns.rs: the queries that `DnsResolver` builds on a lookup.
pub mod Preferred
use ans_sdk_rust.Prelude.{
  Bool, true, false, List, [], ◌∷◌, Option, none, some, sort_by, if◌then◌else◌,
}
use ans_sdk_rust.Error.{Result, ok, err, ◌>>=◌, DnsError, not_found}
use ans_sdk_rust.Types.Fqdn.{Fqdn}
use ans_sdk_rust.Types.Version.{Version, version_eq, version_lt}
use ans_sdk_rust.Verify.Env.{Env, BadgeRecord, DnsLookupResult, found}
use ans_sdk_rust.Verify.Env as Env

abbrev records_of : Fqdn → DnsLookupResult BadgeRecord → Result DnsError (List BadgeRecord)
records_of fqdn (found records) = ok records
records_of fqdn Env.not_found = err (not_found fqdn.name)

-- A record without a version matches any.
abbrev has_version : Version → Option Version → Bool
has_version version none = true
has_version version (some v) = version_eq v version

unfoldable pub find_version : Version → List BadgeRecord → Option BadgeRecord
find_version version [] = none
find_version version (r ∷ rs) =
    if has_version version r.version then some r else find_version version rs

-- The comparison of `find_preferred_badge` is `Less`: a record without a version comes first.
abbrev pub before : Option Version → Option Version → Bool
before (some a) (some b) = version_lt b a
before none (some b) = true
before _ none = false

abbrev pub precedes : BadgeRecord → BadgeRecord → Bool
precedes a b = before a.version b.version

abbrev pub head_of : List BadgeRecord → Option BadgeRecord
head_of [] = none
head_of (r ∷ rs) = some r

-- The first record after sorting.
unfoldable pub preferred_of : List BadgeRecord → Option BadgeRecord
unfolding sort_by
preferred_of records = head_of (sort_by precedes records)

abbrev map_ok :
    (List BadgeRecord → Option BadgeRecord)
    → Result DnsError (List BadgeRecord)
    → Result DnsError (Option BadgeRecord)
map_ok f (ok records) = ok (f records)
map_ok f (err e) = err e

module _ (env : Env) where
  abbrev pub get_badge_records : Fqdn → env.World → Result DnsError (List BadgeRecord) × env.World
  get_badge_records fqdn w =
      let (answer, w') = env.lookup_badge fqdn w in (answer >>= records_of fqdn, w')

  unfoldable pub find_badge_for_version :
      Fqdn → Version → env.World → Result DnsError (Option BadgeRecord) × env.World
  unfolding find_version
  find_badge_for_version fqdn version w =
      let (records, w') = get_badge_records fqdn w in (map_ok (find_version version) records, w')

  unfoldable pub find_preferred_badge :
      Fqdn → env.World → Result DnsError (Option BadgeRecord) × env.World
  unfolding preferred_of
  find_preferred_badge fqdn w =
      let (records, w') = get_badge_records fqdn w in (map_ok preferred_of records, w')
