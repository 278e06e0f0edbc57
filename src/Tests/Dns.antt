-- ===== src/Tests/Dns.antt =====
-- Badge records in DNS.
use ans_sdk_rust.Prelude.{
  ℕ, ◌≡◌, ◌↔◌, ◌≢◌, refl, true, List, [], ◌∷◌, Option, none, some, if◌then◌else◌, ◌=t◌, arith,
}
use ans_sdk_rust.Text.{Text, codes, strip_prefix, split}
use ans_sdk_rust.Error.{Result, ok, DnsError}
use ans_sdk_rust.Types.Fqdn.{ra_badge_name}
use ans_sdk_rust.Types.Version
use ans_sdk_rust.Verify.Env.{found}
use ans_sdk_rust.Dns.Txt.{parse_badge_record}
use ans_sdk_rust.Dns.Lookup.{lookup_badge}
use ans_sdk_rust.Dns.Parsed.{txt_of, parse_badge_record-txt_of}
use ans_sdk_rust.Dns.Found.{Published, lookup_badge_iff}
use ans_sdk_rust.Tests.Data.{host, v1, badge_record}

parse_badge_record-txt_of_example :
    parse_badge_record
      (λ u. true)
      (txt_of (codes " ") (codes "ans-badge1") v1 (codes "https://tl.example.com/b"))
    ≡ ok badge_record
parse_badge_record-txt_of_example =
    parse_badge_record-txt_of (λ u. true) (codes " ") (codes "ans-badge1") v1
      (codes "https://tl.example.com/b") (ground arith) (ground arith)
      (record { major = omega arith; minor = omega arith; patch = omega arith }) (ground arith) refl

-- Only the legacy name has texts, of which one is malformed.
abbrev legacy_texts : Text → ℕ → Result DnsError (Option (List Text)) × ℕ
legacy_texts name w =
    if name =t ra_badge_name host
    then (
      ok (
          some (
            codes "v=spf1"
            ∷ codes "v=ans-badge1; version=1.0.0; url=https://tl.example.com/b"
            ∷ [])),
      w,
    )
    else (ok none, w)

lookup_run : (lookup_badge (λ u. true) legacy_texts host 0).0 ≡ ok (found (badge_record ∷ []))
unfolding lookup_badge ◌=t◌ parse_badge_record split strip_prefix Version.parse Version.parse_u32
lookup_run = refl

lookup_badge_iff_example :
    ((lookup_badge (λ u. true) legacy_texts host 0).0 ≡ ok (found (badge_record ∷ [])))
    ↔ (((badge_record ∷ []) ≢ []) × Published (λ u. true) legacy_texts host 0 (badge_record ∷ []))
lookup_badge_iff_example = lookup_badge_iff (λ u. true) legacy_texts host 0 (badge_record ∷ [])
