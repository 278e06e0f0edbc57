-- ===== src/Pop/Proof.antt =====
-- crates/ans-verify/src/pop/verify.rs: the verification of a proof of possession.
pub mod Sound
pub mod Once
use ans_sdk_rust.Prelude.{ℕ, List, [], Option, none, some, not, ◌==◌, if◌then◌else◌, length, ltb}
use ans_sdk_rust.Prelude.Int.{ℤ}
use ans_sdk_rust.Text.{byte_len, Text, is_empty}
use ans_sdk_rust.Error.{Result, ok, err, ◌>>=◌}
use ans_sdk_rust.Types.Fingerprint.{Crypto}
use ans_sdk_rust.Results.{ok_or, fail_if}
use ans_sdk_rust.Pop.Errors.{PopErrorKind, malformed_proof}
use ans_sdk_rust.Pop.Replay.{Inner}
use ans_sdk_rust.Pop.Claims.{
  ProofPayload, ProofResult, LeafCert, skew_of, skew_secs, result_of, check_freshness,
  check_profile_revision, check_token_binding, check_content_binding, commit_replay,
}
use ans_sdk_rust.Pop.Jws.{
  ProofHeader, ProofCrates, split_compact_jws, jws_signing_input, accept_es256_dpop, first_x5c,
  b64url, decode_proof_header, decode_proof_payload, match_jwk_to_cert, parse_leaf_cert,
  verify_es256, check_cert_validity,
}
use ans_sdk_rust.Pop.Htu.{check_http_binding}

abbrev pub max_proof_size : ℕ
max_proof_size = 8192

abbrev pub max_jti_size : ℕ
max_jti_size = 128

pub record VerifyProofOptions : Type 0 where
  pub access_token : Option Text
  pub content_sha256 : Option (List ℕ)
  pub skew : Option ℕ
  pub now : Option ℤ

-- What the text of a proof holds.
pub record ProofText : Type 0 where
  pub header : ProofHeader
  pub payload : ProofPayload
  pub content_sha256 : List ℕ
  pub signing_input : Text
  pub signature : Text

-- The same, with what its certificate tells.
pub record ReadProof (Key : Type 0) : Type 0 where
  pub header : ProofHeader
  pub payload : ProofPayload
  pub content_sha256 : List ℕ
  pub leaf : LeafCert Key
  pub signing_input : Text
  pub signature : Text

abbrev pub or_else {ℓ} : {A : Type ℓ} → Option A → A → A
or_else none d = d
or_else (some a) d = a

module _ {Key : Type 0} (c : Crypto) (crates : ProofCrates Key) where
  abbrev pub decode_content_digest : Text → Result PopErrorKind (List ℕ)
  decode_content_digest claim = do
    digest ← b64url c crates claim
    _ ← fail_if (not (length digest == 32)) malformed_proof
    ok digest

  -- The first steps, which no option has a part in.
  unfoldable pub read_text : Text → Result PopErrorKind ProofText
  read_text proof_jws = do
    parts ← split_compact_jws proof_jws
    header ← decode_proof_header c crates parts.0
    _ ← accept_es256_dpop header
    payload ← decode_proof_payload c crates parts.1.0
    _ ← check_profile_revision payload
    digest ← decode_content_digest payload.ans_content_digest
    ok (record {
      header = header;
      payload = payload;
      content_sha256 = digest;
      signing_input = jws_signing_input parts.0 parts.1.0;
      signature = parts.1.1;
    })

  abbrev pub with_leaf : ProofText → LeafCert Key → ReadProof Key
  with_leaf text leaf = record {
    header = text.header;
    payload = text.payload;
    content_sha256 = text.content_sha256;
    leaf = leaf;
    signing_input = text.signing_input;
    signature = text.signature;
  }

  -- Without a cache of parsed certificates.
  unfoldable pub read_proof : Text → Result PopErrorKind (ReadProof Key)
  read_proof proof_jws = do
    text ← read_text proof_jws
    leaf ← parse_leaf_cert c crates (first_x5c text.header)
    ok (with_leaf text leaf)

  -- The other steps, on what was read.
  unfoldable pub check_read :
      ReadProof Key → Text → Text → Option Text → ℕ → ℤ → Result PopErrorKind ProofResult
  check_read read method raw_url access_token skew now = do
    _ ← check_cert_validity read.leaf now (skew_secs skew)
    _ ← match_jwk_to_cert c crates read.header.jwk read.leaf.key
    _ ← verify_es256 c crates read.leaf.key read.signing_input read.signature
    _ ← check_http_binding crates read.payload method raw_url
    _ ← check_token_binding c crates.b64url_encode read.payload access_token
    _ ← check_freshness read.payload now skew
    _ ← fail_if (is_empty read.payload.jti) malformed_proof
    _ ← fail_if (ltb max_jti_size (byte_len read.payload.jti)) malformed_proof
    ok (result_of read.leaf read.payload skew read.content_sha256)

  -- With no cache of certificates. `clock` is the time of the system.
  unfoldable pub verify_proof_unrecorded :
      ℤ → Text → Text → Text → VerifyProofOptions → Result PopErrorKind ProofResult
  verify_proof_unrecorded clock proof_jws method raw_url opts = do
    _ ← fail_if (ltb max_proof_size (byte_len proof_jws)) malformed_proof
    read ← read_proof proof_jws
    check_read read method raw_url opts.access_token (skew_of opts.skew) (or_else opts.now clock)

  abbrev commit : ℤ → ProofResult → Inner → Result PopErrorKind ProofResult × Inner
  commit clock result s =
      let (committed, s') = commit_replay c crates.b64url_encode clock result s in
      ((do _ ← committed; ok result), s')

  abbrev pub commit_if :
      ℤ → Result PopErrorKind ProofResult → Inner → Result PopErrorKind ProofResult × Inner
  commit_if clock (err e) s = (err e, s)
  commit_if clock (ok result) s = commit clock result s

  -- With the in-memory replay cache, whose clock is the system's.
  unfoldable pub verify_proof :
      ℤ → Text → Text → Text → VerifyProofOptions → Inner → Result PopErrorKind ProofResult × Inner
  verify_proof clock proof_jws method raw_url opts s =
      let checked = (do
        result ← verify_proof_unrecorded clock proof_jws method raw_url opts
        _ ← check_content_binding result (or_else opts.content_sha256 (c.sha256 []))
        ok result) in
      commit_if clock checked s
