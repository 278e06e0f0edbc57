-- ===== src/Verify/Match.antt =====
-- When a certificate matches a badge.
use ans_sdk_rust.Prelude.{
  ◌≡◌, ◌↔◌, true, List, [], ◌∷◌, any, Any, here, there, Bool-cases, inl, inr, arith, some, =t_iff,
  ◌=t◌, =t→≡, ap,
}
use ans_sdk_rust.Text.{Text, eq_ignore_ascii_case, to_lowercase}
use ans_sdk_rust.Cert.{CertIdentity, cert_fqdn}
use ans_sdk_rust.Types.Badge.{
  Badge, is_valid_for_connection, server_cert_fingerprints, identity_cert_fingerprints, agent_host,
  agent_name,
}
use ans_sdk_rust.Types.AnsName
use ans_sdk_rust.Types.AnsName.{AnsName}
use ans_sdk_rust.Types.Fingerprint.{
  Crypto, CertFingerprint, matches, parse, matches_sound, matches_complete,
}
use ans_sdk_rust.Types.Fqdn.{Fqdn}
use ans_sdk_rust.Verify.Outcome.{
  verified, is_success, text_or_empty, verify_against_badge, verify_client_against_badge,
}

module _ (c : Crypto) where
  -- Some text of the list is a form of the fingerprint.
  abbrev pub Lists : CertFingerprint → List Text → Type 0
  Lists fp texts = Any (λ t. parse c t ≡ some fp) texts

  any_sound : (fp : CertFingerprint) (ts : List Text) → any (matches c fp) ts ≡ true → Lists fp ts
  any_sound fp [] h = cc
  any_sound fp (t ∷ ts) h = elim (Bool-cases (matches c fp t)) [
    | inl hit ↦ here (matches_sound c fp t hit)
    | inr miss ↦ there (any_sound fp ts (rw miss at h))
  ]

  any_complete :
      (fp : CertFingerprint) (ts : List Text) → Lists fp ts → any (matches c fp) ts ≡ true
  any_complete fp [] h = elim h [ ]
  any_complete fp (t ∷ ts) (here e) = rw (matches_complete c fp t e)
  any_complete fp (t ∷ ts) (there h) = ground (arith, any_complete fp ts h)

  -- What a server certificate must satisfy to be accepted under a badge at a dialed host.
  pub record Matched (badge : Badge) (cert : CertIdentity) (dialed : Fqdn) : Type 0 where
    pub status : is_valid_for_connection badge.status ≡ true
    pub fingerprint : Lists cert.fingerprint (server_cert_fingerprints badge)
    pub badge_host : to_lowercase (agent_host badge) ≡ to_lowercase dialed.name
    pub cert_host : to_lowercase (text_or_empty (cert_fqdn cert)) ≡ to_lowercase dialed.name

  module _ (badge : Badge) (cert : CertIdentity) (dialed : Fqdn) where
    success_tests :
        is_success (verify_against_badge c badge cert dialed true) ≡ true
        → (is_valid_for_connection badge.status ≡ true)
          × (any (matches c cert.fingerprint) (server_cert_fingerprints badge) ≡ true)
          × (eq_ignore_ascii_case (agent_host badge) dialed.name ≡ true)
          × (eq_ignore_ascii_case (text_or_empty (cert_fqdn cert)) dialed.name ≡ true)
          × (verify_against_badge c badge cert dialed true ≡ verified badge cert.fingerprint)
    unfolding verify_against_badge
    success_tests h = ground arith

    pub success-Matched :
        is_success (verify_against_badge c badge cert dialed true) ≡ true
        → (verify_against_badge c badge cert dialed true ≡ verified badge cert.fingerprint)
          × Matched badge cert dialed
    unfolding eq_ignore_ascii_case
    success-Matched h =
        let (valid, listed, badge_host, cert_host, same) = success_tests h in
        (
          same,
          record {
            status = valid;
            fingerprint = any_sound cert.fingerprint (server_cert_fingerprints badge) listed;
            badge_host = =t→≡ _ _ badge_host;
            cert_host = =t→≡ _ _ cert_host;
          },
        )

    Matched-verified :
        Matched badge cert dialed
        → verify_against_badge c badge cert dialed true ≡ verified badge cert.fingerprint
    unfolding verify_against_badge eq_ignore_ascii_case
    Matched-verified h =
        let listed = any_complete cert.fingerprint (server_cert_fingerprints badge) h.fingerprint in
        ground (
          arith,
          listed,
          =t_iff (to_lowercase (agent_host badge)) (to_lowercase dialed.name),
          =t_iff (to_lowercase (text_or_empty (cert_fqdn cert))) (to_lowercase dialed.name),
        )

    -- A server certificate passes the check against a badge exactly when the badge's status
    -- allows connections, the certificate's fingerprint is one of the badge's server
    -- fingerprints, and the badge and the certificate both name the dialed host, without regard
    -- to case; the outcome then carries that badge and the certificate's own fingerprint.
    pub verify_against_badge_iff :
        (verify_against_badge c badge cert dialed true ≡ verified badge cert.fingerprint)
        ↔ Matched badge cert dialed
    verify_against_badge_iff = (λ e. (success-Matched (ap is_success e)).1, Matched-verified)

  -- What a client certificate must satisfy to be accepted under a badge as the named agent.
  pub record MatchedClient (badge : Badge) (cert : CertIdentity) (name : AnsName) : Type 0 where
    pub status : is_valid_for_connection badge.status ≡ true
    pub fingerprint : Lists cert.fingerprint (identity_cert_fingerprints badge)
    pub cert_host : to_lowercase (text_or_empty (cert_fqdn cert)) ≡ to_lowercase (agent_host badge)
    pub ans_name : AnsName.to_string name ≡ agent_name badge

  module _ (badge : Badge) (cert : CertIdentity) (name : AnsName) where
    client_tests :
        is_success (verify_client_against_badge c badge cert name) ≡ true
        → (is_valid_for_connection badge.status ≡ true)
          × (any (matches c cert.fingerprint) (identity_cert_fingerprints badge) ≡ true)
          × (eq_ignore_ascii_case (text_or_empty (cert_fqdn cert)) (agent_host badge) ≡ true)
          × ((AnsName.to_string name =t agent_name badge) ≡ true)
          × (verify_client_against_badge c badge cert name ≡ verified badge cert.fingerprint)
    unfolding verify_client_against_badge
    client_tests h = ground arith

    pub client_success-Matched :
        is_success (verify_client_against_badge c badge cert name) ≡ true
        → (verify_client_against_badge c badge cert name ≡ verified badge cert.fingerprint)
          × MatchedClient badge cert name
    unfolding eq_ignore_ascii_case
    client_success-Matched h =
        let (valid, listed, cert_host, ans_name, same) = client_tests h in
        (
          same,
          record {
            status = valid;
            fingerprint = any_sound cert.fingerprint (identity_cert_fingerprints badge) listed;
            cert_host = =t→≡ _ _ cert_host;
            ans_name = =t→≡ _ _ ans_name;
          },
        )

    MatchedClient-verified :
        MatchedClient badge cert name
        → verify_client_against_badge c badge cert name ≡ verified badge cert.fingerprint
    unfolding verify_client_against_badge eq_ignore_ascii_case
    MatchedClient-verified h =
        let listed =
          any_complete cert.fingerprint (identity_cert_fingerprints badge) h.fingerprint in
        ground (
          arith,
          listed,
          =t_iff (to_lowercase (text_or_empty (cert_fqdn cert))) (to_lowercase (agent_host badge)),
          =t_iff (AnsName.to_string name) (agent_name badge),
        )

    -- A client certificate passes the check against a badge exactly when the badge's status allows
    -- connections, the certificate's fingerprint is one of the badge's identity fingerprints, the
    -- certificate names the badge's host, without regard to case, and its ANS name is the badge's,
    -- letter for letter; the outcome then carries that badge and the certificate's own fingerprint.
    pub verify_client_against_badge_iff :
        (verify_client_against_badge c badge cert name ≡ verified badge cert.fingerprint)
        ↔ MatchedClient badge cert name
    verify_client_against_badge_iff =
        (λ e. (client_success-Matched (ap is_success e)).1, MatchedClient-verified)
