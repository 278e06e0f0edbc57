-- ===== src/Dns/Lookup.antt =====
-- crates/ans-verify/src/dns.rs: the lookups of badge records by the resolver, with their fallback, and
-- those of discovery records. The query of a name's texts is the crate hickory.
use ans_sdk_rust.Prelude.{Bool, List, [], ◌∷◌, ◌++◌, Option, none, some}
use ans_sdk_rust.Text.{Text, codes}
use ans_sdk_rust.Error.{Result, ok, err, ParseError, DnsError}
use ans_sdk_rust.Types.Fqdn.{Fqdn, ans_badge_name, ra_badge_name}
use ans_sdk_rust.Verify.Env.{BadgeRecord, DnsLookupResult, found, not_found}
use ans_sdk_rust.Dns.Txt.{TxtDiscoveryRecord, parse_badge_record, parse_discovery_record}

-- The records of the texts that can be parsed; the others are skipped.
unfoldable pub parsed {ℓ} : {A : Type ℓ} → (Text → Result ParseError A) → List Text → List A
parsed parse [] = []
parsed parse (t ∷ ts) =
    let rest = parsed parse ts in elim (parse t) [ ok a ↦ a ∷ rest | err e ↦ rest ]

abbrev pub of_records {ℓ} : {A : Type ℓ} → List A → DnsLookupResult A
of_records [] = not_found
of_records (r ∷ rs) = found (r ∷ rs)

abbrev pub of_strings {ℓ} :
    {A : Type ℓ}
    → (Text → Result ParseError A)
    → Result DnsError (Option (List Text))
    → Result DnsError (DnsLookupResult A)
of_strings parse (err e) = err e
of_strings parse (ok none) = ok not_found
of_strings parse (ok (some ts)) = ok (of_records (parsed parse ts))

-- `Fqdn::ans_discovery_name`
abbrev pub ans_discovery_name : Fqdn → Text
ans_discovery_name f = codes "_ans." ++ f.name

module _ {World : Type 0} (is_url : Text → Bool)
    (query : Text → World → Result DnsError (Option (List Text)) × World) where
  abbrev pub query_with :
      {A : Type 0}
      → (Text → Result ParseError A)
      → Text
      → World
      → Result DnsError (DnsLookupResult A) × World
  query_with parse name w = let (answer, w') = query name w in (of_strings parse answer, w')

  unfoldable pub query_badge_txt :
      Text → World → Result DnsError (DnsLookupResult BadgeRecord) × World
  unfolding parsed
  query_badge_txt = query_with (parse_badge_record is_url)

  abbrev pub or_legacy :
      Fqdn
      → Result DnsError (DnsLookupResult BadgeRecord) × World
      → Result DnsError (DnsLookupResult BadgeRecord) × World
  or_legacy fqdn (err e, w) = (err e, w)
  or_legacy fqdn (ok (found records), w) = (ok (found records), w)
  or_legacy fqdn (ok not_found, w) = query_badge_txt (ra_badge_name fqdn) w

  -- `HickoryDnsResolver::lookup_badge`
  unfoldable pub lookup_badge : Fqdn → World → Result DnsError (DnsLookupResult BadgeRecord) × World
  unfolding query_badge_txt
  lookup_badge fqdn w = or_legacy fqdn (query_badge_txt (ans_badge_name fqdn) w)

  -- `HickoryDnsResolver::lookup_txt_discovery`
  unfoldable pub lookup_txt_discovery :
      Fqdn → World → Result DnsError (DnsLookupResult TxtDiscoveryRecord) × World
  unfolding parsed
  lookup_txt_discovery fqdn = query_with (parse_discovery_record is_url) (ans_discovery_name fqdn)
