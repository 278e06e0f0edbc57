-- ===== src/Pop/Jws.antt =====
-- crates/ans-verify/src/pop/jws.rs and crates/ans-verify/src/pop/proof.rs: the parts of a compact
-- proof, its header, key and certificate. Encodings, JSON, X.509 and the curve are crates.
use ans_sdk_rust.Prelude.{
  ℕ, Bool, not, ◌||◌, ◌&&◌, List, [], ◌∷◌, ◌++◌, length, Option, if◌then◌else◌, ◌==◌, ◌=t◌,
}
use ans_sdk_rust.Prelude.Int.{saturate, ℤ, ◌+ℤ◌, ◌-ℤ◌, ltb_ℤ}
use ans_sdk_rust.Text.{Text, codes, split, is_empty}
use ans_sdk_rust.Error.{Result, ok, err, ◌>>=◌}
use ans_sdk_rust.Results.{ok_or, fail_if}
use ans_sdk_rust.Cert.{CertIdentity, cert_ans_name}
use ans_sdk_rust.Types.Fingerprint.{Crypto, from_der}
use ans_sdk_rust.Pop.Errors.{
  PopErrorKind, malformed_proof, unsupported_alg, cert_invalid, key_mismatch, signature_invalid,
}
use ans_sdk_rust.Pop.Claims.{ProofPayload, LeafCert}

pub record ProofJwk : Type 0 where
  pub kty : Text
  pub crv : Text
  pub x : Text
  pub y : Text

pub record ProofHeader : Type 0 where
  pub typ : Text
  pub alg : Text
  pub jwk : ProofJwk
  pub x5c : List Text

-- What the crate x509-parser reads.
pub record X509 : Type 0 where
  pub not_before : ℤ
  pub not_after : ℤ
  pub public_key : List ℕ

-- The crate url: the parts of an absolute URL.
pub record HtuUrl : Type 0 where
  pub scheme : Text
  pub host : Option Text
  pub username : Text
  pub password : Option Text
  pub port : Option ℕ

-- `none` where the crate returns an error.
pub record ProofCrates (Key : Type 0) : Type 0 where
  pub b64url_encode : List ℕ → Text
  pub b64url_decode : Text → Option (List ℕ)
  pub base64_decode : Text → Option (List ℕ)
  pub header_json : List ℕ → Option ProofHeader
  pub payload_json : List ℕ → Option ProofPayload
  pub parse_x509 : List ℕ → Option X509
  pub key_from_der : List ℕ → Option Key
  pub identity_from_der : List ℕ → Option CertIdentity
  pub coords : Key → Option (List ℕ) × Option (List ℕ)
  pub signature_from_slice : List ℕ → Option (List ℕ)
  pub verify_p256_sha256 : Key → Text → List ℕ → Bool
  pub parse_url : Text → Option HtuUrl

abbrev three_parts : List Text → Result PopErrorKind (Text × (Text × Text))
three_parts (h ∷ p ∷ s ∷ []) =
    if not (is_empty h) && (not (is_empty p) && not (is_empty s))
    then ok (h, (p, s))
    else err malformed_proof
three_parts _ = err malformed_proof

unfoldable pub split_compact_jws : Text → Result PopErrorKind (Text × (Text × Text))
split_compact_jws token = three_parts (split b'.' token)

abbrev pub jws_signing_input : Text → Text → Text
jws_signing_input header payload = header ++ b'.' ∷ payload

unfoldable pub accept_es256_dpop : ProofHeader → Result PopErrorKind (Unit {0})
accept_es256_dpop header = do
  _ ← fail_if (not (header.typ =t codes "dpop+jwt")) unsupported_alg
  _ ← fail_if (not (header.alg =t codes "ES256")) unsupported_alg
  fail_if (not (length header.x5c == 1)) cert_invalid

-- `header.x5c[0]`, which the check before has made sure of.
abbrev pub first_x5c : ProofHeader → Text
first_x5c header = elim header.x5c [ [] ↦ [] | cert ∷ rest ↦ cert ]

module _ {Key : Type 0} (c : Crypto) (crates : ProofCrates Key) where
  abbrev pub b64url : Text → Result PopErrorKind (List ℕ)
  b64url s = ok_or malformed_proof (crates.b64url_decode s)

  abbrev pub decode_proof_header : Text → Result PopErrorKind ProofHeader
  decode_proof_header header_b64 = do
    raw ← b64url header_b64
    ok_or malformed_proof (crates.header_json raw)

  abbrev pub decode_proof_payload : Text → Result PopErrorKind ProofPayload
  decode_proof_payload payload_b64 = do
    raw ← b64url payload_b64
    ok_or malformed_proof (crates.payload_json raw)

  abbrev coords_from_key : Key → Result PopErrorKind (List ℕ × List ℕ)
  coords_from_key key = do
    x ← ok_or cert_invalid (crates.coords key).0
    y ← ok_or cert_invalid (crates.coords key).1
    ok (x, y)

  abbrev jwk_coords : ProofJwk → Result PopErrorKind (List ℕ × List ℕ)
  jwk_coords jwk = do
    _ ← fail_if (not (jwk.kty =t codes "EC") || not (jwk.crv =t codes "P-256")) unsupported_alg
    x ← b64url jwk.x
    y ← b64url jwk.y
    _ ← fail_if (not (length x == 32) || not (length y == 32)) malformed_proof
    ok (x, y)

  unfoldable pub match_jwk_to_cert : ProofJwk → Key → Result PopErrorKind (Unit {0})
  match_jwk_to_cert jwk key = do
    claimed ← jwk_coords jwk
    own ← coords_from_key key
    fail_if (not (claimed.0 =t own.0) || not (claimed.1 =t own.1)) key_mismatch

  -- The JSON text of the key, with its members in order.
  abbrev canonical_jwk : List ℕ × List ℕ → Text
  canonical_jwk (x, y) =
      codes "{\"crv\":\"P-256\",\"kty\":\"EC\",\"x\":\""
      ++ (crates.b64url_encode x
          ++ (codes "\",\"y\":\"" ++ (crates.b64url_encode y ++ codes "\"}")))

  abbrev jwk_thumbprint : Key → Result PopErrorKind Text
  jwk_thumbprint key = do
    own ← coords_from_key key
    ok (crates.b64url_encode (c.sha256 (canonical_jwk own)))

  unfoldable pub parse_leaf_cert : Text → Result PopErrorKind (LeafCert Key)
  parse_leaf_cert x5c0 = do
    der ← ok_or cert_invalid (crates.base64_decode x5c0)
    cert ← ok_or cert_invalid (crates.parse_x509 der)
    key ← ok_or cert_invalid (crates.key_from_der cert.public_key)
    identity ← ok_or cert_invalid (crates.identity_from_der der)
    jkt ← jwk_thumbprint key
    ok (record {
      key = key;
      fingerprint = from_der c der;
      jkt = jkt;
      ans_name = cert_ans_name identity;
      not_before = cert.not_before;
      not_after = cert.not_after;
    })

  unfoldable pub verify_es256 : Key → Text → Text → Result PopErrorKind (Unit {0})
  verify_es256 key signing_input sig_b64 = do
    sig ← b64url sig_b64
    _ ← fail_if (not (length sig == 64)) signature_invalid
    signature ← ok_or signature_invalid (crates.signature_from_slice sig)
    fail_if (not (crates.verify_p256_sha256 key signing_input signature)) signature_invalid

unfoldable pub check_cert_validity :
    {Key : Type 0} → LeafCert Key → ℤ → ℤ → Result PopErrorKind (Unit {0})
check_cert_validity cert now skew =
    fail_if
      (ltb_ℤ now (saturate (cert.not_before -ℤ skew))
        || ltb_ℤ (saturate (cert.not_after +ℤ skew)) now)
      cert_invalid
