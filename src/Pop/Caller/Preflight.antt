-- ===== src/Pop/Caller/Preflight.antt =====
-- What the preflight of a caller's request and the binding of its identity require.
use ans_sdk_rust.Prelude.{
  ℕ, ◌≡◌, ap, ◌∙◌, true, false, not, ◌&&◌, List, [], ◌∷◌, any, Any, here, there, Option, none, some,
  Bool-cases, inl, inr, ◌=t◌, =t→≡, arith,
}
use ans_sdk_rust.Text.{Text, is_empty, to_lowercase, eq_ignore_ascii_case}
use ans_sdk_rust.Error.{ok}
use ans_sdk_rust.Results.{ok_or, fail_if, bind-ok, fail_if-ok, ok_or-ok, map_err-ok}
use ans_sdk_rust.Types.AnsName.{AnsName}
use ans_sdk_rust.Types.Fingerprint.{CertFingerprint}
use ans_sdk_rust.Scitt.Certificate.{ListsFingerprint, any_listed}
use ans_sdk_rust.Scitt.Identity.{bind_receipt_to_status}
use ans_sdk_rust.Scitt.Receipt.{VerifiedReceipt}
use ans_sdk_rust.Scitt.Token.{StatusTokenPayload, matches_identity_cert}
use ans_sdk_rust.Pop.Claims.{ProofResult}
use ans_sdk_rust.Pop.Htu.{is_some, parse_scheme_authority}
use ans_sdk_rust.Pop.Peers.{
  CallerIdentity, VerifyCallerOptions, normalize_authority, allowed_host, check_cert_host,
  check_allowed,
}
use ans_sdk_rust.Pop.Caller.{
  CallerSetup, CallerRequest, check_receipt_binding, check_authority, preflight, bind_caller,
}

some_match :
    (f : Text → Text) (t : Text) (names : List Text)
    → any (λ n. f n =t t) names ≡ true
    → Any (λ n. f n ≡ t) names
some_match f t [] h = absurd (cc h)
some_match f t (n ∷ names) h = elim (Bool-cases (f n =t t)) [
  | inl same ↦ here (=t→≡ _ _ same)
  | inr other ↦ there (some_match f t names (rw other at h))
]

-- The certificate names an agent of the host.
abbrev NamesHost : Option AnsName → Text → Type 0
NamesHost none host = ⊥
NamesHost (some name) host = to_lowercase name.fqdn.name ≡ to_lowercase host

-- The host is one of those that are let in, where they are listed.
abbrev Allowed : List Text → Text → Type 0
Allowed [] host = Unit
Allowed (n ∷ names) host = Any (λ m. allowed_host m ≡ to_lowercase host) (n ∷ names)

check_cert_host_sound :
    (named : Option AnsName) (host : Text) (u : Unit {0})
    → check_cert_host named host ≡ ok u
    → NamesHost named host
unfolding check_cert_host eq_ignore_ascii_case
check_cert_host_sound none host u h = absurd (cc h)
check_cert_host_sound (some name) host u h =
    let other = fail_if-ok _ _ _ h in =t→≡ _ _ (ground (arith, other))

check_allowed_sound :
    (names : List Text) (host : Text) (u : Unit {0})
    → check_allowed names host ≡ ok u
    → Allowed names host
unfolding check_allowed
check_allowed_sound [] host u h = tt
check_allowed_sound (n ∷ names) host u h =
    let other = fail_if-ok _ _ _ h in
    some_match allowed_host (to_lowercase host) (n ∷ names) (ground (arith, other))

module _ {Key PKey : Type 0} (d : CallerSetup Key PKey) where
  -- The authority of the URL is one of the trusted ones, where they are listed.
  abbrev pub HasAuthority : Text → List Text → Type 0
  HasAuthority raw_url [] = Unit
  HasAuthority raw_url (a ∷ trusted) =
      (parts : Text × Text) × ((parse_scheme_authority d.proofs raw_url ≡ ok parts)
        × Any (λ b. normalize_authority b ≡ parts.1) (a ∷ trusted))

  check_authority_sound :
      (raw_url : Text) (trusted : List Text) (u : Unit {0})
      → check_authority d raw_url trusted ≡ ok u
      → HasAuthority raw_url trusted
  unfolding check_authority
  check_authority_sound raw_url [] u h = tt
  check_authority_sound raw_url (a ∷ trusted) u h =
      let (parts, (e, h')) = bind-ok (parse_scheme_authority d.proofs raw_url) _ _ h in
      let other = fail_if-ok _ _ _ h' in
      (parts, (e, some_match normalize_authority parts.1 (a ∷ trusted) (ground (arith, other))))

  pub record Preflighted (q : CallerRequest Key) (token_bytes : List ℕ) : Type 0 where
    pub authority : HasAuthority q.raw_url q.opts.trusted_authorities
    pub sent : q.headers.status_token ≡ some token_bytes
    pub receipt : (q.opts.require_receipt && not (is_some q.headers.receipt)) ≡ false

  pub preflight_sound :
      (q : CallerRequest Key) (token_bytes : List ℕ)
      → preflight d q ≡ ok token_bytes
      → Preflighted q token_bytes
  unfolding preflight
  preflight_sound q token_bytes h =
      let (_, (e1, h1)) = bind-ok (check_authority d q.raw_url q.opts.trusted_authorities) _ _ h in
      let (_, (e2, h2)) = bind-ok (fail_if (is_empty q.proof_jws) _) _ _ h1 in
      let (b, (e3, h3)) = bind-ok (ok_or _ q.headers.status_token) _ _ h2 in
      let (_, (e4, h4)) =
        bind-ok (fail_if (q.opts.require_receipt && not (is_some q.headers.receipt)) _) _ _ h3 in
      let same : b ≡ token_bytes = cc h4 in
      record {
        authority = check_authority_sound q.raw_url q.opts.trusted_authorities _ e1;
        sent = ok_or-ok _ _ _ e3 ∙ ap some same;
        receipt = fail_if-ok _ _ _ e4;
      }

  -- Where there is a receipt, it is bound to the token.
  abbrev ReceiptBound : Option VerifiedReceipt → StatusTokenPayload → Type 0
  ReceiptBound none payload = Unit
  ReceiptBound (some r) payload =
      bind_receipt_to_status d.parse_leaf r.event_bytes payload none ≡ ok tt

  receipt_bound :
      (r : Option VerifiedReceipt) (payload : StatusTokenPayload) (u : Unit {0})
      → check_receipt_binding d r payload ≡ ok u
      → ReceiptBound r payload
  receipt_bound none payload u h = tt
  receipt_bound (some r) payload u h = map_err-ok _ _ _ h

  -- What binds a proof, a status token and a receipt to one caller.
  pub record BoundCaller (fingerprint : CertFingerprint) (named : Option AnsName)
      (payload : StatusTokenPayload) (r : Option VerifiedReceipt) (names : List Text) : Type 0 where
    pub listed : ListsFingerprint fingerprint payload.valid_identity_certs
    pub host : NamesHost named payload.ans_name.fqdn.name
    pub receipt : ReceiptBound r payload
    pub allowed : Allowed names payload.ans_name.fqdn.name

  abbrev pub identity_of : CertFingerprint → Text → StatusTokenPayload → CallerIdentity
  identity_of fingerprint jkt payload = record {
    ans_name = payload.ans_name;
    agent_id = payload.agent_id;
    fingerprint = fingerprint;
    jkt = jkt;
  }

  pub bind_caller_sound :
      (proof : ProofResult) (payload : StatusTokenPayload) (r : Option VerifiedReceipt)
      (opts : VerifyCallerOptions) (identity : CallerIdentity)
      → bind_caller d proof payload r opts ≡ ok identity
      → BoundCaller proof.fingerprint proof.ans_name payload r opts.allowed_ans_names
        × (identity ≡ identity_of proof.fingerprint proof.jkt payload)
  unfolding bind_caller matches_identity_cert
  bind_caller_sound proof payload r opts identity h =
      let host = payload.ans_name.fqdn.name in
      let (_, (e1, h1)) =
        bind-ok (fail_if (not (matches_identity_cert payload proof.fingerprint)) _) _ _ h in
      let (_, (e2, h2)) = bind-ok (check_cert_host proof.ans_name host) _ _ h1 in
      let (_, (e3, h3)) = bind-ok (check_receipt_binding d r payload) _ _ h2 in
      let (_, (e4, h4)) = bind-ok (check_allowed opts.allowed_ans_names host) _ _ h3 in
      let unlisted = fail_if-ok _ _ _ e1 in
      (
        record {
          listed =
              (any_listed proof.fingerprint payload.valid_identity_certs).0
                (ground (arith, unlisted));
          host = check_cert_host_sound proof.ans_name host _ e2;
          receipt = receipt_bound r payload _ e3;
          allowed = check_allowed_sound opts.allowed_ans_names host _ e4;
        },
        cc h4,
      )
