-- ===== src/Scitt/Status/Accepted.antt =====
-- crates/ans-verify/src/scitt/status_token.rs: which status tokens are accepted.
use ans_sdk_rust.Prelude.{
  ℕ, ◌≡◌, ◌≢◌, ◌↔◌, refl, ap, true, false, inl, inr, Bool-cases, List, [], ◌∷◌, some, ltb, arith,
  text_eq, lookup,
}
use ans_sdk_rust.Prelude.Int.{ℤ, pos, ◌+ℤ◌, ◌≤ℤ◌, ltb_ℤ, +ℤ_parts, max_i64, min_i64, saturate}
use ans_sdk_rust.Text.{codes}
use ans_sdk_rust.Error.{ok, cbor_decode_error, unknown_key_id}
use ans_sdk_rust.Results.{ok_or, ok_or-ok}
use ans_sdk_rust.Types.Badge.{
  BadgeStatus, active, warning, deprecated, expired, revoked, unknown, should_reject,
}
use ans_sdk_rust.Scitt.Cbor.{text, bytes, array, values_of}
use ans_sdk_rust.Scitt.Cose.{ParsedCoseSign1, build_sig_structure}
use ans_sdk_rust.Scitt.Cose.Structure.{SignStructure, parse_sound, parse_complete}
use ans_sdk_rust.Scitt.Keys.{TrustedKey, ScittKeyStore, get_key}
use ans_sdk_rust.Scitt.Token.{VerifiedStatusToken}
use ans_sdk_rust.Scitt.Payload.{decode_status_token_payload}
use ans_sdk_rust.Scitt.Status.{
  ScittCrates, IssuerFits, SignedBy, TokenFits, tolerance_of, expires, verify_status_token_at,
  token_fits_iff,
}

-- An integer of 64 bits.
abbrev pub IsI64 : ℤ → Type 0
IsI64 a = (min_i64 ≤ℤ a) × (a ≤ℤ max_i64)

-- The time is at most the expiry plus the tolerance, and at most the expiry plus ten minutes.
abbrev pub InTime : ℤ → ℕ → ℤ → Type 0
InTime exp skew now = (now ≤ℤ exp +ℤ pos skew) × (now ≤ℤ exp +ℤ pos 600)

-- Stopping at the ends of 64 bits does not matter to a time within them.
saturate-now :
    (a now : ℤ) → min_i64 ≤ℤ a → now ≤ℤ max_i64 → (ltb_ℤ (saturate a) now ≡ false) ↔ (now ≤ℤ a)
saturate-now a now low high = elim (Bool-cases (ltb_ℤ max_i64 a)) [
  | inl above ↦ rw above (ground (arith, above, high))
  | inr within ↦
      let not_below : ltb_ℤ a min_i64 ≡ false = ground (arith, low) in
      rw (within, not_below) (ground arith)
]

tolerance-InTime :
    (exp : ℤ) (skew : ℕ) (now : ℤ) → (now ≤ℤ exp +ℤ tolerance_of skew) ↔ InTime exp skew now
tolerance-InTime exp skew now = elim (Bool-cases (ltb skew 600)) [
  | inl short ↦ rw short (ground (arith, short, +ℤ_parts exp (pos skew), +ℤ_parts exp (pos 600)))
  | inr long ↦ rw long (ground (arith, long, +ℤ_parts exp (pos skew), +ℤ_parts exp (pos 600)))
]

expires-InTime :
    (exp : ℤ) (skew : ℕ) (now : ℤ)
    → IsI64 exp
    → IsI64 now
    → (ltb_ℤ (expires exp skew) now ≡ false) ↔ InTime exp skew now
unfolding expires
expires-InTime exp skew now (low, _) (_, high) =
    let late : min_i64 ≤ℤ exp +ℤ tolerance_of skew =
      ground (arith, low, +ℤ_parts exp (tolerance_of skew)) in
    let a = saturate-now (exp +ℤ tolerance_of skew) now late high in
    let b = tolerance-InTime exp skew now in (λ h. b.0 (a.0 h), λ h. a.1 (b.1 h))

-- Neither expired nor revoked.
abbrev pub IsLive : BadgeStatus → Type 0
IsLive status = (status ≢ expired) × (status ≢ revoked)

IsLive-of_kept : (status : BadgeStatus) → should_reject status ≡ false → IsLive status
IsLive-of_kept status h = (λ e. cc (rw e at h), λ e. cc (rw e at h))

kept-of_IsLive : (status : BadgeStatus) → IsLive status → should_reject status ≡ false
kept-of_IsLive active h = refl
kept-of_IsLive warning h = refl
kept-of_IsLive deprecated h = refl
kept-of_IsLive unknown h = refl
kept-of_IsLive expired h = absurd (h.0 refl)
kept-of_IsLive revoked h = absurd (h.1 refl)

module _ {Key : Type 0} (crates : ScittCrates Key) where
  -- A key of the store under the named identifier signed the protected header and the content, in
  -- the form of RFC 9052, and its domain is the issuer, where one is named.
  pub record Signature (parsed : ParsedCoseSign1) (store : ScittKeyStore Key) : Type 0 where
    pub trusted : TrustedKey Key
    pub listed : lookup parsed.protected.kid store.keys ≡ some trusted
    pub signed_bytes : List ℕ
    pub built :
        crates.cbor.into_writer (
          array (
            values_of (
              text (codes "Signature1")
              ∷ bytes parsed.protected_bytes
              ∷ bytes []
              ∷ bytes parsed.payload
              ∷ [])))
        ≡ some signed_bytes
    pub sig : List ℕ
    pub encodes : crates.keys.signature_from_slice parsed.signature ≡ some sig
    pub verifies : crates.keys.verify_p256_sha256 trusted.key signed_bytes sig ≡ true
    pub issuer : IssuerFits parsed.protected.cwt_iss trusted.name

  pub Signature-of_SignedBy :
      (parsed : ParsedCoseSign1) (store : ScittKeyStore Key)
      → SignedBy crates parsed store
      → Signature parsed store
  unfolding get_key build_sig_structure
  Signature-of_SignedBy parsed store s = record {
    trusted = s.trusted;
    listed = ok_or-ok _ _ _ s.found;
    signed_bytes = s.sig_structure;
    built = ok_or-ok _ _ _ s.built;
    sig = s.sig;
    encodes = s.encodes;
    verifies = s.verifies;
    issuer = s.issuer;
  }

  pub SignedBy-of_Signature :
      (parsed : ParsedCoseSign1) (store : ScittKeyStore Key)
      → Signature parsed store
      → SignedBy crates parsed store
  unfolding get_key build_sig_structure
  SignedBy-of_Signature parsed store s = record {
    trusted = s.trusted;
    found = ap (ok_or (unknown_key_id parsed.protected.kid)) s.listed;
    sig_structure = s.signed_bytes;
    built = ap (ok_or cbor_decode_error) s.built;
    sig = s.sig;
    encodes = s.encodes;
    verifies = s.verifies;
    issuer = s.issuer;
  }

  -- What an accepted token is.
  pub record AcceptedToken (b : List ℕ) (store : ScittKeyStore Key) (vt : VerifiedStatusToken)
      : Type 0 where
    pub parsed : ParsedCoseSign1
    pub structure : SignStructure crates.cbor b parsed
    pub signature : Signature parsed store
    pub decodes :
        decode_status_token_payload crates.crypto crates.parse_uuid crates.cbor parsed.payload
        ≡ ok vt.payload
    pub live : IsLive vt.payload.status
    pub key_id : vt.key_id ≡ parsed.protected.kid

  accepted_of_fits :
      (b : List ℕ) (store : ScittKeyStore Key) (vt : VerifiedStatusToken)
      → TokenFits crates b store vt
      → AcceptedToken b store vt
  accepted_of_fits b store vt t = record {
    parsed = t.parsed;
    structure = parse_sound crates.cbor b t.parsed t.parses;
    signature = Signature-of_SignedBy t.parsed store t.signed;
    decodes = t.decodes;
    live = IsLive-of_kept vt.payload.status t.status;
    key_id = t.key_id;
  }

  fits_of_accepted :
      (b : List ℕ) (store : ScittKeyStore Key) (vt : VerifiedStatusToken)
      → AcceptedToken b store vt
      → TokenFits crates b store vt
  fits_of_accepted b store vt t = record {
    parsed = t.parsed;
    parses = parse_complete crates.cbor b t.parsed t.structure;
    signed = SignedBy-of_Signature t.parsed store t.signature;
    decodes = t.decodes;
    status = kept-of_IsLive vt.payload.status t.live;
    key_id = t.key_id;
  }

  -- A status token is accepted exactly when its bytes, a mebibyte at most, are an array of the four
  -- elements of COSE_Sign1, with tag 18 or none and nothing after it, with a signature of 64 bytes,
  -- the algorithm -7 and a key identifier of four bytes; the trusted key with that identifier signed
  -- the header and the content, and its domain is the issuer, where one is named; the content decodes
  -- to the payload, which is neither expired nor revoked by its status; and the time is past its
  -- expiry by no more than the tolerance, and by no more than ten minutes. The time and the expiry
  -- are integers of 64 bits.
  pub verify_status_token_at_iff :
      (b : List ℕ) (store : ScittKeyStore Key) (skew : ℕ) (now : ℤ) (vt : VerifiedStatusToken)
      → IsI64 vt.payload.exp
      → IsI64 now
      → (verify_status_token_at crates b store skew now ≡ ok vt)
        ↔ (AcceptedToken b store vt × InTime vt.payload.exp skew now)
  verify_status_token_at_iff b store skew now vt exp_range now_range =
      let iff = token_fits_iff crates b store skew now vt in
      let time = expires-InTime vt.payload.exp skew now exp_range now_range in
      (
        λ h. let (fits, late) = iff.0 h in (accepted_of_fits b store vt fits, time.0 late),
        λ (accepted, in_time). iff.1 (fits_of_accepted b store vt accepted, time.1 in_time),
      )
