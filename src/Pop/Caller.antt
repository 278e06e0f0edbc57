-- ===== src/Pop/Caller.antt =====
-- crates/ans-verify/src/pop/caller.rs: the authentication of a caller by its proof of possession, its
-- status token and its receipt, with the cache of verified artifacts and the replay cache.
pub mod Preflight
pub mod Entries
pub mod Hits
pub mod Refines
pub mod Runs
pub mod Shown
pub mod Sound
pub mod Once
pub mod Replays
use ans_sdk_rust.Prelude.{
  ℕ, Bool, true, false, not, ◌&&◌, List, [], ◌∷◌, Option, none, some, if◌then◌else◌, ◌=t◌, any, ltb,
}
use ans_sdk_rust.Prelude.Int.{ℤ, ltb_ℤ}
use ans_sdk_rust.Text.{
  Text, codes, byte_len, is_empty, trim, to_lowercase, eq_ignore_ascii_case, strip_suffix,
}
use ans_sdk_rust.Error.{Result, ok, err, ◌>>=◌, ScittError, ParseError, identity_binding}
use ans_sdk_rust.Results.{ok_or, fail_if, map_err}
use ans_sdk_rust.Types.AnsName
use ans_sdk_rust.Types.AnsName.{AnsName}
use ans_sdk_rust.Types.Fingerprint.{Crypto, CertFingerprint}
use ans_sdk_rust.Scitt.Headers.{ScittHeaders}
use ans_sdk_rust.Scitt.Identity.{ReceiptLeaf, bind_receipt_to_status}
use ans_sdk_rust.Scitt.Keys.{ScittKeyStore, artifact_cache_key}
use ans_sdk_rust.Scitt.Receipt.{VerifiedReceipt, verify_receipt}
use ans_sdk_rust.Scitt.Status.{ScittCrates, expires, verify_status_token_at}
use ans_sdk_rust.Scitt.Token.{StatusTokenPayload, VerifiedStatusToken, matches_identity_cert}
use ans_sdk_rust.Pop.Errors.{
  PopErrorKind, malformed_proof, missing_headers, untrusted_authority, status_invalid,
  receipt_invalid, binding_failed, expected_peer_mismatch,
}
use ans_sdk_rust.Pop.Replay.{Inner}
use ans_sdk_rust.Pop.Claims.{ProofResult, LeafCert, skew_of, check_content_binding, commit_replay}
use ans_sdk_rust.Pop.Jws.{ProofCrates, first_x5c, parse_leaf_cert}
use ans_sdk_rust.Pop.Htu.{is_some, parse_scheme_authority}
use ans_sdk_rust.Pop.Proof.{ProofText, max_proof_size, or_else, read_text, with_leaf, check_read}
use ans_sdk_rust.Pop.Artifacts.{
  ArtifactStores, VerifiedArtifactCache, status, store_status, receipt, store_receipt, proof_cert,
  store_proof_cert, WithCache, through, and_then,
}
use ans_sdk_rust.Pop.Peers.{
  CallerIdentity, VerifyCallerOptions, default_options, default_status_skew, normalize_authority,
  allowed_host, check_cert_host, check_allowed, binding_error,
}

-- The arguments of a request: its proof, artifacts, method and URL, the trusted keys and the options.
pub record CallerRequest (Key : Type 0) : Type 0 where
  pub proof_jws : Text
  pub headers : ScittHeaders
  pub method : Text
  pub raw_url : Text
  pub keys : ScittKeyStore Key
  pub opts : VerifyCallerOptions

-- What the authentication of callers uses and does not implement.
pub record CallerSetup (Key PKey : Type 0) : Type 1 where
  pub m : ArtifactStores PKey
  pub crates : ScittCrates Key
  pub proofs : ProofCrates PKey
  pub parse_leaf : Text → Option ReceiptLeaf

module _ {Key PKey : Type 0} (d : CallerSetup Key PKey) where
  abbrev pub Cache : Type 0
  Cache = Option (VerifiedArtifactCache d.m)

  abbrev pub check_receipt_binding :
      Option VerifiedReceipt → StatusTokenPayload → Result PopErrorKind (Unit {0})
  check_receipt_binding none status = ok tt
  check_receipt_binding (some r) status =
      map_err binding_error (bind_receipt_to_status d.parse_leaf r.event_bytes status none)

  unfoldable pub bind_caller :
      ProofResult
      → StatusTokenPayload
      → Option VerifiedReceipt
      → VerifyCallerOptions
      → Result PopErrorKind CallerIdentity
  bind_caller proof status receipt opts = do
    _ ← fail_if (not (matches_identity_cert status proof.fingerprint)) binding_failed
    _ ← check_cert_host proof.ans_name status.ans_name.fqdn.name
    _ ← check_receipt_binding receipt status
    _ ← check_allowed opts.allowed_ans_names status.ans_name.fqdn.name
    ok (record {
      ans_name = status.ans_name;
      agent_id = status.agent_id;
      fingerprint = proof.fingerprint;
      jkt = proof.jkt;
    })

  unfoldable pub check_authority : Text → List Text → Result PopErrorKind (Unit {0})
  check_authority raw_url [] = ok tt
  check_authority raw_url (a ∷ trusted) = do
    parts ← parse_scheme_authority d.proofs raw_url
    fail_if (not (any (λ b. normalize_authority b =t parts.1) (a ∷ trusted))) untrusted_authority

  -- What is required before any proof work: the bytes of the status token.
  unfoldable pub preflight : CallerRequest Key → Result PopErrorKind (List ℕ)
  preflight q = do
    _ ← check_authority q.raw_url q.opts.trusted_authorities
    _ ← fail_if (is_empty q.proof_jws) missing_headers
    token_bytes ← ok_or missing_headers q.headers.status_token
    _ ← fail_if (q.opts.require_receipt && not (is_some q.headers.receipt)) missing_headers
    ok token_bytes

  -- The parsed certificate, from the cache where it is there.
  abbrev pub cached_leaf : ℤ → Text → Cache → WithCache d.m (LeafCert PKey)
  cached_leaf clock x5c =
      let key = d.crates.crypto.sha256 x5c in
      through d.m (proof_cert d.m clock key) (store_proof_cert d.m clock key)
        (parse_leaf_cert d.crates.crypto d.proofs x5c)

  abbrev pub sized_text : Text → Result PopErrorKind ProofText
  sized_text proof_jws = do
    _ ← fail_if (ltb max_proof_size (byte_len proof_jws)) malformed_proof
    read_text d.crates.crypto d.proofs proof_jws

  -- `verify_proof_unrecorded` with a cache.
  unfoldable pub verify_proof_with : ℤ → CallerRequest Key → ℤ → Cache → WithCache d.m ProofResult
  verify_proof_with clock q now cache =
      and_then d.m (sized_text q.proof_jws, cache)
        (λ text cache. and_then d.m (cached_leaf clock (first_x5c text.header) cache) (λ leaf cache.
          (
            check_read d.crates.crypto d.proofs (with_leaf d.crates.crypto d.proofs text leaf)
                q.method q.raw_url q.opts.access_token (skew_of q.opts.pop_skew) now,
            cache,
          )))

  abbrev pub fresh_status :
      List ℕ → ScittKeyStore Key → ℕ → ℤ → Result PopErrorKind StatusTokenPayload
  fresh_status token_bytes keys skew now = do
    token ←
        map_err (λ e. status_invalid) (verify_status_token_at d.crates token_bytes keys skew now)
    ok token.payload

  abbrev pub timely : ℕ → ℤ → Option StatusTokenPayload → Option StatusTokenPayload
  timely skew now none = none
  timely skew now (some payload) =
      if not (ltb_ℤ (expires payload.exp skew) now) then some payload else none

  unfoldable pub verified_status_payload :
      ℤ → List ℕ → ScittKeyStore Key → ℕ → ℤ → Cache → WithCache d.m StatusTokenPayload
  verified_status_payload clock token_bytes keys skew now =
      let key = artifact_cache_key d.crates.crypto d.crates.keys keys token_bytes in
      through d.m (λ cache. timely skew now (status d.m clock key cache))
        (store_status d.m clock key) (fresh_status token_bytes keys skew now)

  abbrev pub fresh_receipt : List ℕ → ScittKeyStore Key → Result PopErrorKind VerifiedReceipt
  fresh_receipt receipt_bytes keys =
      map_err (λ e. receipt_invalid) (verify_receipt d.crates receipt_bytes keys)

  unfoldable pub verified_receipt :
      ℤ → List ℕ → ScittKeyStore Key → Cache → WithCache d.m VerifiedReceipt
  verified_receipt clock receipt_bytes keys =
      let key = artifact_cache_key d.crates.crypto d.crates.keys keys receipt_bytes in
      through d.m (receipt d.m clock key) (store_receipt d.m clock key)
        (fresh_receipt receipt_bytes keys)

  abbrev pub receipt_if_sent :
      ℤ → Option (List ℕ) → ScittKeyStore Key → Cache → WithCache d.m (Option VerifiedReceipt)
  receipt_if_sent clock none keys cache = (ok none, cache)
  receipt_if_sent clock (some b) keys cache =
      and_then d.m (verified_receipt clock b keys cache) (λ r cache. (ok (some r), cache))

  -- The identity, once the content, whose digest `content` computes, is bound to the proof.
  abbrev bind_content :
      ProofResult
      → Result PopErrorKind CallerIdentity
      → Result PopErrorKind (List ℕ)
      → Result PopErrorKind (ProofResult × CallerIdentity)
  bind_content proof bound content = do
    identity ← bound
    digest ← content
    _ ← check_content_binding proof digest
    ok (proof, identity)

  abbrev pub status_skew_of : VerifyCallerOptions → ℕ
  status_skew_of opts = or_else opts.status_skew default_status_skew

  -- Everything after the preflight but the commit.
  unfoldable pub authenticate :
      ℤ
      → CallerRequest Key
      → Result PopErrorKind (List ℕ)
      → List ℕ
      → Cache
      → WithCache d.m (ProofResult × CallerIdentity)
  authenticate clock q content token_bytes cache =
      let now = or_else q.opts.now clock in
      and_then d.m (verify_proof_with clock q now cache) (λ proof cache.
        and_then d.m
          (verified_status_payload clock token_bytes q.keys (status_skew_of q.opts) now cache)
          (λ status cache.
            and_then d.m (receipt_if_sent clock q.headers.receipt q.keys cache) (λ receipt cache.
              (bind_content proof (bind_caller proof status receipt q.opts) content, cache))))

  abbrev pub commit_caller :
      ℤ
      → Result PopErrorKind (ProofResult × CallerIdentity)
      → Inner
      → Result PopErrorKind CallerIdentity × Inner
  commit_caller clock (err e) replay = (err e, replay)
  commit_caller clock (ok (proof, identity)) replay =
      let (committed, replay') =
        commit_replay d.crates.crypto d.proofs.b64url_encode clock proof replay in
      ((do _ ← committed; ok identity), replay')

  abbrev pub after_preflight :
      ℤ
      → ℤ
      → CallerRequest Key
      → Result PopErrorKind (List ℕ)
      → Result PopErrorKind (List ℕ)
      → Cache × Inner
      → Result PopErrorKind CallerIdentity × (Cache × Inner)
  after_preflight clock end q content (err e) s = (err e, s)
  after_preflight clock end q content (ok token_bytes) s =
      let (checked, cache) = authenticate clock q content token_bytes s.0 in
      let (answer, replay) = commit_caller end checked s.1 in (answer, (cache, replay))

  -- `content` is what the callback gives. `clock` is the time at which the checks are made, `end` that
  -- of the replay cache when the proof is recorded, after the callback was awaited.
  unfoldable pub verify_caller_with_content :
      ℤ
      → ℤ
      → CallerRequest Key
      → Result PopErrorKind (List ℕ)
      → Cache × Inner
      → Result PopErrorKind CallerIdentity × (Cache × Inner)
  verify_caller_with_content clock end q content s =
      after_preflight clock end q content (preflight q) s

  unfoldable verify_caller :
      ℤ
      → ℤ
      → CallerRequest Key
      → Cache × Inner
      → Result PopErrorKind CallerIdentity × (Cache × Inner)
  verify_caller clock end q s =
      verify_caller_with_content clock end q
        (ok (or_else q.opts.content_sha256 (d.crates.crypto.sha256 []))) s
