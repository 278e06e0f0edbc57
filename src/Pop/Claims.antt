-- ===== src/Pop/Claims.antt =====
-- crates/ans-verify/src/pop/verify.rs: the checks of a proof's claims and its single use. The
-- digest is the crate sha2, the encoding the crate base64. Additions of 64 bits saturate.
pub mod Once
use ans_sdk_rust.Prelude.{
  ℕ, ◌-◌, ◌^◌, Bool, true, false, not, List, [], Option, none, some, if◌then◌else◌, ◌==◌, ◌=t◌, ltb,
}
use ans_sdk_rust.Prelude.Int.{max_i64, saturate, eq_ℤ, ℤ, pos, negsuc, ◌+ℤ◌, ◌-ℤ◌, ltb_ℤ}
use ans_sdk_rust.Text.{Text}
use ans_sdk_rust.Error.{Result, ok, err}
use ans_sdk_rust.Types.Fingerprint.{Crypto, CertFingerprint}
use ans_sdk_rust.Types.AnsName.{AnsName}
use ans_sdk_rust.Pop.Errors.{
  PopErrorKind, malformed_proof, proof_stale, replay, token_binding_mismatch,
  content_binding_mismatch, unsupported_profile,
}
use ans_sdk_rust.Pop.Replay.{Inner, check_and_store}

-- crates/ans-verify/src/pop/proof.rs
pub record ProofPayload : Type 0 where
  pub htm : Text
  pub htu : Text
  pub iat : ℤ
  pub jti : Text
  pub ath : Option Text
  pub ans_profile : Option ℕ
  pub ans_content_digest : Text

-- crates/ans-verify/src/pop/proof.rs: what a certificate tells, with its key.
pub record LeafCert (Key : Type 0) : Type 0 where
  pub key : Key
  pub fingerprint : CertFingerprint
  pub jkt : Text
  pub ans_name : Option AnsName
  pub not_before : ℤ
  pub not_after : ℤ

-- The fields that only tests see are left out.
pub record ProofResult : Type 0 where
  pub fingerprint : CertFingerprint
  pub jkt : Text
  pub jti : Text
  pub replay_exp : ℤ
  pub ans_name : Option AnsName
  pub content_sha256 : List ℕ

abbrev pub default_pop_skew : ℕ
default_pop_skew = 120

abbrev pub replay_grace_secs : ℤ
replay_grace_secs = pos 5

-- The window in whole seconds: the default if none or zero is given.
abbrev pub skew_of : Option ℕ → ℕ
skew_of none = default_pop_skew
skew_of (some skew) = if skew == 0 then default_pop_skew else skew

-- `i64::try_from(skew.as_secs()).unwrap_or(i64::MAX)`
abbrev pub skew_secs : ℕ → ℤ
skew_secs skew = if ltb skew (2 ^ 63) then pos skew else max_i64

-- `iat` plus the skew plus the grace.
unfoldable pub replay_exp_of : ProofPayload → ℕ → ℤ
unfolding ◌+ℤ◌
replay_exp_of payload skew =
    saturate (saturate (payload.iat +ℤ skew_secs skew) +ℤ replay_grace_secs)

abbrev pub result_of : {Key : Type 0} → LeafCert Key → ProofPayload → ℕ → List ℕ → ProofResult
result_of leaf payload skew content = record {
  fingerprint = leaf.fingerprint;
  jkt = leaf.jkt;
  jti = payload.jti;
  replay_exp = replay_exp_of payload skew;
  ans_name = leaf.ans_name;
  content_sha256 = content;
}

unfoldable pub check_freshness : ProofPayload → ℤ → ℕ → Result PopErrorKind (Unit {0})
unfolding ◌-ℤ◌
check_freshness payload now skew =
    let delta = saturate (now -ℤ payload.iat) in
    if eq_ℤ payload.iat (pos 0)
    then err malformed_proof
    else if ltb_ℤ (skew_secs skew) delta
    then err proof_stale
    else if ltb_ℤ delta (pos 0 -ℤ skew_secs skew)
    then err proof_stale
    else ok tt

abbrev pub ans_profile_revision : ℕ
ans_profile_revision = 1

unfoldable pub check_profile_revision : ProofPayload → Result PopErrorKind (Unit {0})
check_profile_revision payload = elim payload.ans_profile [
  | none ↦ ok tt
  | some revision ↦ if revision == ans_profile_revision then ok tt else err unsupported_profile
]

unfoldable pub check_content_binding : ProofResult → List ℕ → Result PopErrorKind (Unit {0})
check_content_binding proof received =
    if not (proof.content_sha256 =t received) then err content_binding_mismatch else ok tt

module _ (c : Crypto) (b64url_encode : List ℕ → Text) where
  abbrev pub access_token_hash : Text → Text
  access_token_hash token = b64url_encode (c.sha256 token)

  abbrev bind_token : Option Text → Option Text → Result PopErrorKind (Unit {0})
  bind_token none (some ath) = err token_binding_mismatch
  bind_token (some token) none = err token_binding_mismatch
  bind_token none none = ok tt
  bind_token (some token) (some ath) =
      if not (ath =t access_token_hash token) then err token_binding_mismatch else ok tt

  unfoldable pub check_token_binding : ProofPayload → Option Text → Result PopErrorKind (Unit {0})
  check_token_binding payload access_token = bind_token access_token payload.ath

  abbrev pub replay_key : Text → Text
  replay_key jti = b64url_encode (c.sha256 jti)

  abbrev pub of_seen : Result PopErrorKind Bool → Result PopErrorKind (Unit {0})
  of_seen (err e) = err e
  of_seen (ok seen) = if seen then err replay else ok tt

  -- With the in-memory cache, at a time.
  unfoldable pub commit_replay : ℤ → ProofResult → Inner → Result PopErrorKind (Unit {0}) × Inner
  commit_replay now result s =
      let (seen, s') = check_and_store now (replay_key result.jti) result.replay_exp s in
      (of_seen seen, s')
