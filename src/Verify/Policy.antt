-- ===== src/Verify/Policy.antt =====
-- crates/ans-verify/src/verify.rs: failure policies, the check of a badge URL against the trusted
-- domains, and the treatment of errors.
pub mod Errors
use ans_sdk_rust.Prelude.{
  ℕ, Bool, true, false, not, ◌||◌, List, [], Option, none, some, if◌then◌else◌, ltb, ◌=t◌, contains,
  text_eq,
}
use ans_sdk_rust.Text.{Text, codes, is_empty}
use ans_sdk_rust.Error.{
  Result, ok, err, dns_unavailable, TlogError, tlog_unavailable, status_unknown, invalid_tl_url,
  untrusted_domain, AnsError, dns_failed, transparency_log, certificate, verification, parse, scitt,
  configuration, VerificationError,
}
use ans_sdk_rust.Types.Badge.{Badge, is_unknown}
use ans_sdk_rust.Types.Fqdn.{Fqdn}
use ans_sdk_rust.Cache.{CacheConfig}
use ans_sdk_rust.Verify.Env.{Env, ParsedUrl}
use ans_sdk_rust.Verify.Outcome.{
  VerificationOutcome, not_ans_agent, dns_error, tlog_error, cert_error, parse_error,
}

pub data FailurePolicy : Type 0 where
  fail_closed : FailurePolicy
  fail_open_with_cache : ℕ → FailurePolicy

abbrev trusts : Option (List Text) → Text → Bool
trusts none domain = false
trusts (some domains) domain = contains domains domain

abbrev domains_of : Option (List Text) → List Text
domains_of none = []
domains_of (some domains) = domains

abbrev check_host : Option (List Text) → Option Text → Result TlogError (Unit {0})
check_host trusted none = err invalid_tl_url
check_host trusted (some domain) =
    if trusts trusted domain then ok tt else err (untrusted_domain domain (domains_of trusted))

abbrev check_url : Option (List Text) → Option ParsedUrl → Result TlogError (Unit {0})
check_url trusted none = err invalid_tl_url
check_url trusted (some parsed) =
    if not (parsed.scheme =t codes "https")
    then err invalid_tl_url
    else check_host trusted parsed.host_str

unfoldable pub validate_badge_domain : Env → Option (List Text) → Text → Result TlogError (Unit {0})
validate_badge_domain env trusted url = check_url trusted (env.parse_url url)

abbrev pub require_known_badge_status : Result TlogError Badge → Result TlogError Badge
require_known_badge_status (err e) = err e
require_known_badge_status (ok badge) =
    if is_unknown badge.status then err status_unknown else ok badge

abbrev pub is_determinate : Option AnsError → Bool
is_determinate (some (transparency_log prior)) = not (tlog_unavailable prior)
is_determinate _ = false

-- A determinate error is kept over a later outage.
unfoldable pub record_tlog_error : Option AnsError → TlogError → Option AnsError
record_tlog_error previous error =
    if not (tlog_unavailable error) || not (is_determinate previous)
    then some (transparency_log error)
    else previous

abbrev pub max_of : ℕ → ℕ → ℕ
max_of a b = if ltb a b then b else a

abbrev stale_fits : Option CacheConfig → FailurePolicy → Bool
stale_fits (some cache) (fail_open_with_cache max_staleness) =
    not (ltb (max_of cache.hard_ttl cache.default_ttl) max_staleness)
stale_fits _ _ = true

unfoldable pub validate_badge_configuration :
    Option (List Text) → Option CacheConfig → FailurePolicy → Result VerificationError (Unit {0})
validate_badge_configuration trusted cache policy =
    if is_empty (domains_of trusted)
    then err configuration
    else if stale_fits cache policy
    then ok tt
    else err configuration

abbrev pub may_use_stale : AnsError → Bool
may_use_stale (dns_failed e) = dns_unavailable e
may_use_stale (transparency_log e) = tlog_unavailable e
may_use_stale _ = false

-- The outcome that an error is turned into.
abbrev pub outcome_of_error : Fqdn → AnsError → VerificationOutcome
outcome_of_error fqdn (transparency_log e) = tlog_error e
outcome_of_error fqdn (dns_failed e) = dns_error e
outcome_of_error fqdn (certificate e) = cert_error e
outcome_of_error fqdn (parse e) = parse_error e
outcome_of_error fqdn (verification _) = not_ans_agent fqdn.name
outcome_of_error fqdn (scitt _) = not_ans_agent fqdn.name
