-- ===== src/Verify/Policy/Errors.antt =====
-- What the error kept over several fetches is, and which configurations are accepted.
use ans_sdk_rust.Prelude.{
  ◌≡◌, refl, ◌↔◌, ◌⊎◌, ◌≤◌, true, false, List, [], ◌∷◌, Option, none, some, if◌then◌else◌, arith,
}
use ans_sdk_rust.Text.{Text}
use ans_sdk_rust.Error.{ok, TlogError, tlog_unavailable, AnsError, transparency_log}
use ans_sdk_rust.Cache.{CacheConfig}
use ans_sdk_rust.Verify.Policy.{
  FailurePolicy, fail_closed, fail_open_with_cache, record_tlog_error, validate_badge_configuration,
}

-- The error that is kept after the fetches that failed with the given errors, in order.
abbrev pub kept_error : Option AnsError → List TlogError → Option AnsError
kept_error previous [] = previous
kept_error previous (e ∷ es) = kept_error (record_tlog_error previous e) es

-- The last error that is no outage.
abbrev pub last_determinate : Option TlogError → List TlogError → Option TlogError
last_determinate previous [] = previous
last_determinate previous (e ∷ es) =
    last_determinate (if tlog_unavailable e then previous else some e) es

-- The last error.
abbrev pub last_of : Option TlogError → List TlogError → Option TlogError
last_of previous [] = previous
last_of previous (e ∷ es) = last_of (some e) es

abbrev pub or_last : Option TlogError → Option TlogError → Option AnsError
or_last (some e) last = some (transparency_log e)
or_last none none = none
or_last none (some e) = some (transparency_log e)

-- The error set aside is no outage, and without one the last error is an outage.
abbrev Split : Option TlogError → Option TlogError → Type 0
Split none none = Unit
Split none (some last) = tlog_unavailable last ≡ true
Split (some settled) last = tlog_unavailable settled ≡ false

abbrev settle : Option TlogError → TlogError → Option TlogError
settle settled e = if tlog_unavailable e then settled else some e

record_tlog_error-step :
    (settled last : Option TlogError) (e : TlogError)
    → Split settled last
    → (record_tlog_error (or_last settled last) e ≡ or_last (settle settled e) (some e))
      × Split (settle settled e) (some e)
unfolding record_tlog_error
record_tlog_error-step none none e d = ground arith
record_tlog_error-step none (some last) e d = ground arith
record_tlog_error-step (some settled) last e d = ground arith

kept_error-Split :
    (settled last : Option TlogError) (es : List TlogError)
    → Split settled last
    → kept_error (or_last settled last) es ≡ or_last (last_determinate settled es) (last_of last es)
kept_error-Split settled last [] d = refl
kept_error-Split settled last (e ∷ es) d =
    let (step, d') = record_tlog_error-step settled last e d in
    rw step (kept_error-Split (settle settled e) (some e) es d')

-- Over a sequence of failed fetches the error that is kept is the last one that is no outage, and
-- the last one if they all are outages: a determinate rejection is never hidden by an outage.
pub kept_error_lem :
    (es : List TlogError)
    → kept_error none es ≡ or_last (last_determinate none es) (last_of none es)
kept_error_lem es = kept_error-Split none none es tt

-- The configurations with which a badge verifier is built.
abbrev pub Configured : Option (List Text) → Option CacheConfig → FailurePolicy → Type 0
Configured none cache policy = ⊥
Configured (some []) cache policy = ⊥
Configured (some domains) (some cache) (fail_open_with_cache max_staleness) =
    (max_staleness ≤ cache.hard_ttl) ⊎ (max_staleness ≤ cache.default_ttl)
Configured (some domains) _ _ = Unit

-- A badge verifier can be built exactly when the trusted domains are given and there is at least
-- one, and when, if it has a cache and is to fail open, the staleness that it tolerates is at most
-- the time for which the cache keeps an entry.
pub validate_badge_configuration_iff :
    (trusted : Option (List Text)) (cache : Option CacheConfig) (policy : FailurePolicy)
    → (validate_badge_configuration trusted cache policy ≡ ok tt) ↔ Configured trusted cache policy
unfolding validate_badge_configuration
validate_badge_configuration_iff none cache policy = ground arith
validate_badge_configuration_iff (some []) cache policy = ground arith
validate_badge_configuration_iff (some (d ∷ ds)) none policy = ground arith
validate_badge_configuration_iff (some (d ∷ ds)) (some cache) fail_closed = ground arith
validate_badge_configuration_iff (some (d ∷ ds)) (some cache) (fail_open_with_cache n) =
    ground arith
