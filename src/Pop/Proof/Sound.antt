-- ===== src/Pop/Proof/Sound.antt =====
-- What an accepted proof of possession shows.
use ans_sdk_rust.Prelude.{
  ℕ, ◌≤◌, ◌≡◌, ◌≢◌, sym, ap, ◌∙◌, true, false, not, List, [], length, Option, none, some, inl, inr,
  Option-cases, ◌==◌, ◌=t◌, ltb, arith,
}
use ans_sdk_rust.Prelude.Int.{ℤ}
use ans_sdk_rust.Text.{byte_len, Text, is_empty}
use ans_sdk_rust.Error.{Result, ok, err}
use ans_sdk_rust.Types.Fingerprint.{Crypto}
use ans_sdk_rust.Results.{ok_or, fail_if, bind-ok, fail_if-ok, ok_or-ok, same_text}
use ans_sdk_rust.Pop.Errors.{PopErrorKind}
use ans_sdk_rust.Pop.Replay.{Inner}
use ans_sdk_rust.Pop.Claims.{
  ProofPayload, ProofResult, skew_of, skew_secs, result_of, access_token_hash, check_freshness,
  check_token_binding, check_content_binding, commit_replay,
}
use ans_sdk_rust.Pop.Jws.{ProofCrates, b64url, match_jwk_to_cert, verify_es256, check_cert_validity}
use ans_sdk_rust.Pop.Htu.{normalize_htu, check_http_binding}
use ans_sdk_rust.Pop.Proof.{
  VerifyProofOptions, ReadProof, max_jti_size, or_else, read_proof, check_read,
  verify_proof_unrecorded, commit_if, verify_proof,
}

pub binds_content :
    (proof : ProofResult) (received : List ℕ) (u : Unit {0})
    → check_content_binding proof received ≡ ok u
    → proof.content_sha256 ≡ received
unfolding check_content_binding
binds_content proof received u h = same_text _ _ (ground (arith, h))

-- The claim `ath` that an access token calls for.
abbrev ath_of : (Text → Text) → Option Text → Option Text
ath_of hash none = none
ath_of hash (some token) = some (hash token)

module _ {Key : Type 0} (c : Crypto) (crates : ProofCrates Key) where
  -- The certificate's key verifies the signature over the signing input.
  pub record Signed (read : ReadProof Key) : Type 0 where
    pub raw : List ℕ
    pub signature : List ℕ
    pub decodes : crates.b64url_decode read.signature ≡ some raw
    pub size : length raw ≡ 64
    pub encodes : crates.signature_from_slice raw ≡ some signature
    pub verifies : crates.verify_p256_sha256 read.leaf.key read.signing_input signature ≡ true

  pub record Shows (read : ReadProof Key) (method raw_url : Text) (access_token : Option Text)
      (skew : ℕ) (now : ℤ) : Type 0 where
    pub valid : check_cert_validity read.leaf now (skew_secs skew) ≡ ok tt
    pub key : match_jwk_to_cert c crates read.header.jwk read.leaf.key ≡ ok tt
    pub signed : Signed read
    pub htm : read.payload.htm ≡ method
    pub htu : normalize_htu crates raw_url ≡ ok read.payload.htu
    pub ath : read.payload.ath ≡ ath_of (access_token_hash c crates.b64url_encode) access_token
    pub fresh : check_freshness read.payload now skew ≡ ok tt
    pub jti : read.payload.jti ≢ []
    pub jti_size : byte_len read.payload.jti ≤ max_jti_size

  is-Signed :
      (read : ReadProof Key) (u : Unit {0})
      → verify_es256 c crates read.leaf.key read.signing_input read.signature ≡ ok u
      → Signed read
  unfolding verify_es256
  is-Signed read u h =
      let (raw, (e1, h1)) = bind-ok (b64url c crates read.signature) _ _ h in
      let (_, (e2, h2)) = bind-ok (fail_if (not (length raw == 64)) _) _ _ h1 in
      let (signature, (e3, h3)) = bind-ok (ok_or _ (crates.signature_from_slice raw)) _ _ h2 in
      let short = fail_if-ok _ _ _ e2 in
      let wrong = fail_if-ok _ _ _ h3 in
      record {
        raw = raw;
        signature = signature;
        decodes = ok_or-ok _ _ _ e1;
        size = ground (arith, short);
        encodes = ok_or-ok _ _ _ e3;
        verifies = ground (arith, wrong);
      }

  binds_http :
      (payload : ProofPayload) (method raw_url : Text) (u : Unit {0})
      → check_http_binding crates payload method raw_url ≡ ok u
      → (payload.htm ≡ method) × (normalize_htu crates raw_url ≡ ok payload.htu)
  unfolding check_http_binding
  binds_http payload method raw_url u h =
      let (_, (e1, h1)) = bind-ok (fail_if (not (payload.htm =t method)) _) _ _ h in
      let (want, (e2, h2)) = bind-ok (normalize_htu crates raw_url) _ _ h1 in
      let same = same_text payload.htu want (fail_if-ok _ _ _ h2) in
      (same_text _ _ (fail_if-ok _ _ _ e1), e2 ∙ ap ok (sym same))

  binds_token :
      (payload : ProofPayload) (access_token : Option Text) (u : Unit {0})
      → check_token_binding c crates.b64url_encode payload access_token ≡ ok u
      → payload.ath ≡ ath_of (access_token_hash c crates.b64url_encode) access_token
  unfolding check_token_binding
  binds_token payload none u h = ground (arith, h)
  binds_token payload (some token) u h = elim (Option-cases payload.ath) [
    | inl unbound ↦ absurd (ground (arith, h, unbound))
    | inr (ath, bound) ↦
        let other : not (ath =t access_token_hash c crates.b64url_encode token) ≡ false =
          ground (arith, h, bound) in
        bound ∙ ap some (same_text _ _ other)
  ]

  pub check_read-Shows :
      (read : ReadProof Key) (method raw_url : Text) (access_token : Option Text) (skew : ℕ)
      (now : ℤ) (result : ProofResult)
      → check_read c crates read method raw_url access_token skew now ≡ ok result
      → Shows read method raw_url access_token skew now
        × (result ≡ result_of read.leaf read.payload skew read.content_sha256)
  unfolding check_read
  check_read-Shows read method raw_url access_token skew now result h =
      let (_, (e1, h1)) = bind-ok (check_cert_validity read.leaf now (skew_secs skew)) _ _ h in
      let (_, (e2, h2)) =
        bind-ok (match_jwk_to_cert c crates read.header.jwk read.leaf.key) _ _ h1 in
      let (_, (e3, h3)) =
        bind-ok (verify_es256 c crates read.leaf.key read.signing_input read.signature) _ _ h2 in
      let (_, (e4, h4)) = bind-ok (check_http_binding crates read.payload method raw_url) _ _ h3 in
      let (_, (e5, h5)) =
        bind-ok (check_token_binding c crates.b64url_encode read.payload access_token) _ _ h4 in
      let (_, (e6, h6)) = bind-ok (check_freshness read.payload now skew) _ _ h5 in
      let (_, (e7, h7)) = bind-ok (fail_if (is_empty read.payload.jti) _) _ _ h6 in
      let (_, (e8, h8)) =
        bind-ok (fail_if (ltb max_jti_size (byte_len read.payload.jti)) _) _ _ h7 in
      let (htm, htu) = binds_http read.payload method raw_url _ e4 in
      let named = fail_if-ok _ _ _ e7 in
      let small = fail_if-ok _ _ _ e8 in
      (
        record {
          valid = e1;
          key = e2;
          signed = is-Signed read _ e3;
          htm = htm;
          htu = htu;
          ath = binds_token read.payload access_token _ e5;
          fresh = e6;
          jti = λ none_named. ground (arith, none_named, named);
          jti_size = ground (arith, small);
        },
        cc h8,
      )

  commits :
      (clock : ℤ) (checked : Result PopErrorKind ProofResult) (s : Inner) (result : ProofResult)
      → (commit_if c crates clock checked s).0 ≡ ok result
      → (checked ≡ ok result) × ((commit_replay c crates.b64url_encode clock result s).0 ≡ ok tt)
  commits clock (err e) s result h = absurd (cc h)
  commits clock (ok checked) s result h =
      let (u, (e, h')) = bind-ok (commit_replay c crates.b64url_encode clock checked s).0 _ _ h in
      let same : checked ≡ result = cc h' in
      (ap ok same, ap (λ r. (commit_replay c crates.b64url_encode clock r s).0) (sym same) ∙ e)

  commits_state :
      (clock : ℤ) (checked : Result PopErrorKind ProofResult) (s : Inner) (result : ProofResult)
      → (commit_if c crates clock checked s).0 ≡ ok result
      → (commit_if c crates clock checked s).1
        ≡ (commit_replay c crates.b64url_encode clock result s).1
  commits_state clock (err e) s result h = absurd (cc h)
  commits_state clock (ok checked) s result h =
      let same = (commits clock (ok checked) s result h).0 in
      ap (λ r. (commit_if c crates clock r s).1) same

  pub verify_proof_state :
      (clock : ℤ) (proof_jws method raw_url : Text) (opts : VerifyProofOptions) (s : Inner)
      (result : ProofResult)
      → (verify_proof c crates clock proof_jws method raw_url opts s).0 ≡ ok result
      → (verify_proof c crates clock proof_jws method raw_url opts s).1
        ≡ (commit_replay c crates.b64url_encode clock result s).1
  unfolding verify_proof
  verify_proof_state clock proof_jws method raw_url opts s result h =
      commits_state clock _ s result h

  -- If a proof of possession is accepted, its text was read, and its result is that of what it holds:
  -- its certificate is valid at the time and its key is the one that the header names and verifies
  -- the signature; the method and the normal form of the URL are those of the request, its `ath` is
  -- the digest of the access token, or absent with it, it is fresh, it has an identifier of a bounded
  -- size, and the content's digest is the one received. It was then recorded in the replay cache.
  pub verify_proof_sound :
      (clock : ℤ) (proof_jws method raw_url : Text) (opts : VerifyProofOptions) (s : Inner)
      (result : ProofResult)
      → (verify_proof c crates clock proof_jws method raw_url opts s).0 ≡ ok result
      → (read : ReadProof Key) × ((read_proof c crates proof_jws ≡ ok read)
          × (Shows read method raw_url opts.access_token
                (skew_of opts.skew)
                (or_else opts.now clock)
              × ((result ≡ result_of read.leaf read.payload (skew_of opts.skew) read.content_sha256)
                  × ((read.content_sha256 ≡ or_else opts.content_sha256 (c.sha256 []))
                      × ((commit_replay c crates.b64url_encode clock result s).0 ≡ ok tt)))))
  unfolding verify_proof verify_proof_unrecorded
  verify_proof_sound clock proof_jws method raw_url opts s result h =
      let (e, committed) = commits clock _ s result h in
      let (result', (e1, h1)) =
        bind-ok (verify_proof_unrecorded c crates clock proof_jws method raw_url opts) _ _ e in
      let (_, (e2, h2)) = bind-ok (check_content_binding result' _) _ _ h1 in
      let same : result' ≡ result = cc h2 in
      let (_, (e3, h3)) = bind-ok (fail_if (ltb _ (byte_len proof_jws)) _) _ _ e1 in
      let (read, (e4, h4)) = bind-ok (read_proof c crates proof_jws) _ _ h3 in
      let (shows, is) = check_read-Shows read method raw_url _ _ _ result' h4 in
      (
        read,
        (
          e4,
          (
            shows,
            (
              sym same ∙ is,
              (sym (ap (λ r. r.content_sha256) is) ∙ binds_content result' _ _ e2, committed),
            ),
          ),
        ),
      )
