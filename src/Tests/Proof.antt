-- ===== src/Tests/Proof.antt =====
-- A proof of possession on a concrete request, with crates that keep their input.
use ans_sdk_rust.Prelude.{◌≡◌, refl, true, [], ◌∷◌, none, some, lookup, insert, ◌=t◌, ◌++◌}
use ans_sdk_rust.Prelude.Int.{pos, ◌+ℤ◌, ◌-ℤ◌}
use ans_sdk_rust.Text.{Text, codes, split, strip_prefix}
use ans_sdk_rust.Error.{ok}
use ans_sdk_rust.Types.Fingerprint.{from_der}
use ans_sdk_rust.Cert.{cert_ans_name}
use ans_sdk_rust.Pop.Replay.{new, check_and_store, evict}
use ans_sdk_rust.Pop.Claims.{
  ProofPayload, ProofResult, replay_exp_of, check_freshness, check_profile_revision,
  check_token_binding, check_content_binding, commit_replay,
}
use ans_sdk_rust.Pop.Jws.{
  ProofHeader, ProofCrates, split_compact_jws, accept_es256_dpop, match_jwk_to_cert,
  parse_leaf_cert, verify_es256, check_cert_validity,
}
use ans_sdk_rust.Pop.Htu.{after_scheme, parse_scheme_authority, normalize_htu, check_http_binding}
use ans_sdk_rust.Pop.Proof.{
  VerifyProofOptions, read_proof, check_read, read_text, verify_proof_unrecorded, verify_proof,
}
use ans_sdk_rust.Tests.Data.{plain, digest, cert}

abbrev pub header : ProofHeader
header = record {
  typ = codes "dpop+jwt";
  alg = codes "ES256";
  jwk = record { kty = codes "EC"; crv = codes "P-256"; x = digest; y = digest };
  x5c = codes "cert" ∷ [];
}

abbrev pub payload : ProofPayload
payload = record {
  htm = codes "POST";
  htu = codes "https://agent.example.com/task";
  iat = pos 100;
  jti = codes "a";
  ath = none;
  ans_profile = none;
  ans_content_digest = digest;
}

abbrev pub crates : ProofCrates Text
crates = record {
  b64url_encode = λ b. b;
  b64url_decode = λ t. some t;
  base64_decode = λ t. some t;
  header_json = λ b. some header;
  payload_json = λ b. some payload;
  parse_x509 = λ b. some (record { not_before = pos 0; not_after = pos 1000; public_key = b });
  key_from_der = λ b. some b;
  identity_from_der = λ b. some cert;
  coords = λ k. (some digest, some digest);
  signature_from_slice = λ b. some b;
  verify_p256_sha256 = λ k t b. true;
  parse_url = λ t. some (record {
    scheme = codes "https";
    host = some (codes "Agent.example.com");
    username = [];
    password = none;
    port = some 443;
  });
}

abbrev pub proof : Text
proof = codes "h.p." ++ (digest ++ digest)

abbrev pub url : Text
url = codes "https://Agent.example.com:443/task?q=1"

abbrev opts : VerifyProofOptions
opts = record { access_token = none; content_sha256 = some digest; skew = none; now = none }

abbrev result : ProofResult
result = record {
  fingerprint = record { bytes = codes "cert" };
  jkt =
      codes
        "{\"crv\":\"P-256\",\"kty\":\"EC\",\"x\":\"0123456789abcdef0123456789abcdef\",\"y\":\"0123456789abcdef0123456789abcdef\"}";
  jti = codes "a";
  replay_exp = pos 225;
  ans_name = none;
  content_sha256 = digest;
}

unfoldable pub proof_run : Unit {0}
unfolding verify_proof verify_proof_unrecorded check_read read_proof read_text split_compact_jws
    split accept_es256_dpop match_jwk_to_cert parse_leaf_cert verify_es256 check_cert_validity
    after_scheme strip_prefix parse_scheme_authority normalize_htu check_http_binding
    check_freshness check_profile_revision check_token_binding check_content_binding commit_replay
    check_and_store evict lookup insert ◌=t◌ replay_exp_of ◌+ℤ◌ ◌-ℤ◌ cert_ans_name from_der
proof_run = tt

accepted : (verify_proof plain crates (pos 110) proof (codes "POST") url opts (new 3)).0 ≡ ok result
unfolding proof_run
accepted = refl
