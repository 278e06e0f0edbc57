-- ===== src/Scitt/Status.antt =====
-- crates/ans-verify/src/scitt/status_token.rs: the verification of a status token.
pub mod Accepted
use ans_sdk_rust.Prelude.{
  ℕ, ◌*◌, ◌≡◌, ◌↔◌, sym, ap, ◌∙◌, true, false, not, List, Option, none, some, if◌then◌else◌, ◌=t◌,
  =t_iff, refl, ltb, arith,
}
use ans_sdk_rust.Prelude.Int.{ℤ, pos, ◌+ℤ◌, ltb_ℤ, saturate}
use ans_sdk_rust.Text.{Text}
use ans_sdk_rust.Error.{
  Result, ok, ◌>>=◌, ScittError, signature_invalid, issuer_mismatch, token_expired, terminal_status,
}
use ans_sdk_rust.Results.{ok_or, fail_if, bind-ok, fail_if-ok, ok_or-ok, same_text}
use ans_sdk_rust.Types.Badge.{should_reject}
use ans_sdk_rust.Types.Fingerprint.{Crypto}
use ans_sdk_rust.Scitt.Cbor.{Cbor}
use ans_sdk_rust.Scitt.Cose.{ParsedCoseSign1, parse_cose_sign1, build_sig_structure}
use ans_sdk_rust.Scitt.Keys.{KeyCrates, TrustedKey, ScittKeyStore, get_key}
use ans_sdk_rust.Scitt.Token.{VerifiedStatusToken}
use ans_sdk_rust.Scitt.Payload.{decode_status_token_payload}

abbrev pub max_clock_skew_tolerance_secs : ℕ
max_clock_skew_tolerance_secs = 10 * 60

-- The tolerance in seconds, at most ten minutes.
abbrev pub tolerance_of : ℕ → ℤ
tolerance_of skew =
    pos (if ltb skew max_clock_skew_tolerance_secs then skew else max_clock_skew_tolerance_secs)

-- What the crates give a verifier of SCITT artifacts.
pub record ScittCrates (Key : Type 0) : Type 0 where
  pub crypto : Crypto
  pub cbor : Cbor
  pub keys : KeyCrates Key
  pub parse_uuid : Text → Option Text

-- The issuer, where there is one, is the key's domain.
abbrev pub check_issuer : Option Text → Text → Result ScittError (Unit {0})
check_issuer none name = ok tt
check_issuer (some iss) name = fail_if (not (iss =t name)) (issuer_mismatch iss name)

-- The issuer is not named, or it is the key's domain.
abbrev pub IssuerFits : Option Text → Text → Type 0
IssuerFits none name = Unit
IssuerFits (some iss) name = iss ≡ name

pub check_issuer-ok :
    (iss : Option Text) (name : Text) → check_issuer iss name ≡ ok tt → IssuerFits iss name
check_issuer-ok none name h = tt
check_issuer-ok (some iss) name h = same_text iss name (fail_if-ok _ _ _ h)

pub check_issuer-fits :
    (iss : Option Text) (name : Text) → IssuerFits iss name → check_issuer iss name ≡ ok tt
check_issuer-fits none name h = refl
check_issuer-fits (some iss) name h =
    let same : (iss =t name) ≡ true = (=t_iff iss name).1 h in rw same refl

-- The last second at which the token is accepted.
unfoldable pub expires : ℤ → ℕ → ℤ
unfolding ◌+ℤ◌
expires exp skew = saturate (exp +ℤ tolerance_of skew)

module _ {Key : Type 0} (crates : ScittCrates Key) where
  unfoldable pub verify_status_token_at :
      List ℕ → ScittKeyStore Key → ℕ → ℤ → Result ScittError VerifiedStatusToken
  verify_status_token_at token_bytes key_store clock_skew_tolerance now = do
    parsed ← parse_cose_sign1 crates.cbor token_bytes
    sig_structure ← build_sig_structure crates.cbor parsed.protected_bytes parsed.payload
    sig ← ok_or signature_invalid (crates.keys.signature_from_slice parsed.signature)
    trusted_key ← get_key crates.crypto crates.keys key_store parsed.protected.kid
    _ ←
        fail_if (not (crates.keys.verify_p256_sha256 trusted_key.key sig_structure sig))
          signature_invalid
    _ ← check_issuer parsed.protected.cwt_iss trusted_key.name
    payload ← decode_status_token_payload crates.crypto crates.parse_uuid crates.cbor parsed.payload
    _ ←
        fail_if (ltb_ℤ (expires payload.exp clock_skew_tolerance) now)
          (token_expired payload.exp now)
    _ ← fail_if (should_reject payload.status) (terminal_status payload.status)
    ok (record { payload = payload; key_id = parsed.protected.kid })

  -- A trusted key of the store signed the structure.
  pub record SignedBy (parsed : ParsedCoseSign1) (store : ScittKeyStore Key) : Type 0 where
    pub trusted : TrustedKey Key
    pub found : get_key crates.crypto crates.keys store parsed.protected.kid ≡ ok trusted
    pub sig_structure : List ℕ
    pub built :
        build_sig_structure crates.cbor parsed.protected_bytes parsed.payload ≡ ok sig_structure
    pub sig : List ℕ
    pub encodes : crates.keys.signature_from_slice parsed.signature ≡ some sig
    pub verifies : crates.keys.verify_p256_sha256 trusted.key sig_structure sig ≡ true
    pub issuer : IssuerFits parsed.protected.cwt_iss trusted.name

  -- What a verified token is, at a time: signed, not expired and of a status that is not terminal.
  pub record TokenFits (token_bytes : List ℕ) (store : ScittKeyStore Key) (vt : VerifiedStatusToken)
      : Type 0 where
    pub parsed : ParsedCoseSign1
    pub parses : parse_cose_sign1 crates.cbor token_bytes ≡ ok parsed
    pub signed : SignedBy parsed store
    pub decodes :
        decode_status_token_payload crates.crypto crates.parse_uuid crates.cbor parsed.payload
        ≡ ok vt.payload
    pub status : should_reject vt.payload.status ≡ false
    pub key_id : vt.key_id ≡ parsed.protected.kid

  token_sound :
      (token_bytes : List ℕ) (store : ScittKeyStore Key) (skew : ℕ) (now : ℤ)
      (vt : VerifiedStatusToken)
      → verify_status_token_at token_bytes store skew now ≡ ok vt
      → TokenFits token_bytes store vt × (ltb_ℤ (expires vt.payload.exp skew) now ≡ false)
  unfolding verify_status_token_at
  token_sound token_bytes store skew now vt h =
      let (parsed, (e1, h1)) = bind-ok (parse_cose_sign1 crates.cbor token_bytes) _ _ h in
      let (sig_structure, (e2, h2)) =
        bind-ok (build_sig_structure crates.cbor parsed.protected_bytes parsed.payload) _ _ h1 in
      let (sig, (e3, h3)) =
        bind-ok (ok_or _ (crates.keys.signature_from_slice parsed.signature)) _ _ h2 in
      let (trusted, (e4, h4)) =
        bind-ok (get_key crates.crypto crates.keys store parsed.protected.kid) _ _ h3 in
      let (_, (e5, h5)) =
        bind-ok (fail_if (not (crates.keys.verify_p256_sha256 trusted.key sig_structure sig)) _) _ _
          h4 in
      let (_, (e6, h6)) = bind-ok (check_issuer parsed.protected.cwt_iss trusted.name) _ _ h5 in
      let (payload, (e7, h7)) =
        bind-ok
          (decode_status_token_payload crates.crypto crates.parse_uuid crates.cbor parsed.payload) _
          _ h6 in
      let (_, (e8, h8)) = bind-ok (fail_if (ltb_ℤ (expires payload.exp skew) now) _) _ _ h7 in
      let (_, (e9, h9)) = bind-ok (fail_if (should_reject payload.status) _) _ _ h8 in
      let same : payload ≡ vt.payload = cc h9 in
      let forged = fail_if-ok _ _ _ e5 in
      let late = fail_if-ok _ _ _ e8 in
      let rejected = fail_if-ok _ _ _ e9 in
      (
        record {
          parsed = parsed;
          parses = e1;
          signed = record {
            trusted = trusted;
            found = e4;
            sig_structure = sig_structure;
            built = e2;
            sig = sig;
            encodes = ok_or-ok _ _ _ e3;
            verifies = ground (arith, forged);
            issuer = check_issuer-ok parsed.protected.cwt_iss trusted.name e6;
          };
          decodes = e7 ∙ ap ok same;
          status = ap (λ p. should_reject p.status) (sym same) ∙ rejected;
          key_id = cc h9;
        },
        ap (λ p. ltb_ℤ (expires p.exp skew) now) (sym same) ∙ late,
      )

  token_complete :
      (token_bytes : List ℕ) (store : ScittKeyStore Key) (skew : ℕ) (now : ℤ)
      (vt : VerifiedStatusToken)
      → TokenFits token_bytes store vt
      → ltb_ℤ (expires vt.payload.exp skew) now ≡ false
      → verify_status_token_at token_bytes store skew now ≡ ok vt
  unfolding verify_status_token_at
  token_complete token_bytes store skew now vt t h =
      let s = t.signed in
      let issuer = check_issuer-fits t.parsed.protected.cwt_iss s.trusted.name s.issuer in
      rw (t.parses, s.built, s.encodes, s.found, s.verifies, issuer, t.decodes, h, t.status)
        (ap (λ k. ok (record { payload = vt.payload; key_id = k })) (sym t.key_id))

  pub token_fits_iff :
      (token_bytes : List ℕ) (store : ScittKeyStore Key) (skew : ℕ) (now : ℤ)
      (vt : VerifiedStatusToken)
      → (verify_status_token_at token_bytes store skew now ≡ ok vt)
        ↔ (TokenFits token_bytes store vt × (ltb_ℤ (expires vt.payload.exp skew) now ≡ false))
  token_fits_iff token_bytes store skew now vt = (
    token_sound token_bytes store skew now vt,
    λ (t, h). token_complete token_bytes store skew now vt t h,
  )
