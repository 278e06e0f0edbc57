-- ===== src/Scitt/Certificate.antt =====
-- crates/ans-verify/src/verify.rs: the checks of a certificate against a verified status token.
use ans_sdk_rust.Prelude.{
  ◌≡◌, ◌↔◌, refl, Bool, true, false, not, List, [], ◌∷◌, any, Any, here, there, Option, none, some,
  if◌then◌else◌, Bool-cases, Option-cases, inl, inr, arith, =t→≡, =t_iff,
}
use ans_sdk_rust.Text.{Text, eq_ignore_ascii_case, to_lowercase}
use ans_sdk_rust.Error.{no_uri_san, missing_token_field, identity_binding, host_mismatch}
use ans_sdk_rust.Cert.{CertIdentity, cert_fqdn, cert_ans_name}
use ans_sdk_rust.Types.AnsName
use ans_sdk_rust.Types.AnsName.{AnsName}
use ans_sdk_rust.Types.Fingerprint.{CertFingerprint, fp_eq}
use ans_sdk_rust.Scitt.Token.{
  CertEntry, StatusTokenPayload, matches_server_cert, matches_identity_cert,
}
use ans_sdk_rust.Verify.Outcome.{VerificationOutcome, cert_error, scitt_error, is_success}

unfoldable pub check_dialed_host : StatusTokenPayload → Option Text → Option VerificationOutcome
check_dialed_host payload none = none
check_dialed_host payload (some dialed) =
    let token_host = payload.ans_name.fqdn.name in
    if not (eq_ignore_ascii_case token_host dialed)
    then some (scitt_error (host_mismatch dialed token_host))
    else none

-- `cert.fqdn().is_some_and(…)`
abbrev names_host : Option Text → Text → Bool
names_host none expected = false
names_host (some host) expected = eq_ignore_ascii_case host expected

abbrev pub check_client_name :
    Option AnsName → CertIdentity → StatusTokenPayload → Option Text → Option VerificationOutcome
check_client_name none cert payload dialed = some (cert_error no_uri_san)
check_client_name (some name) cert payload dialed =
    if not (eq_ignore_ascii_case (AnsName.to_string name) (AnsName.to_string payload.ans_name))
    then some (scitt_error identity_binding)
    else if not (names_host (cert_fqdn cert) payload.ans_name.fqdn.name)
    then some (scitt_error identity_binding)
    else check_dialed_host payload dialed

-- `none` if the certificate passes.
unfoldable pub check_scitt_certificate :
    CertIdentity → StatusTokenPayload → Bool → Option Text → Option VerificationOutcome
unfolding check_dialed_host
check_scitt_certificate cert payload true dialed =
    if not (matches_server_cert payload cert.fingerprint)
    then some (scitt_error missing_token_field)
    else check_dialed_host payload dialed
check_scitt_certificate cert payload false dialed =
    if not (matches_identity_cert payload cert.fingerprint)
    then some (scitt_error missing_token_field)
    else check_client_name (cert_ans_name cert) cert payload dialed

-- The entries list the fingerprint.
abbrev pub ListsFingerprint : CertFingerprint → List CertEntry → Type 0
ListsFingerprint fp entries = Any (λ entry. entry.fingerprint ≡ fp) entries

abbrev pub SameHost : Text → Text → Type 0
SameHost a b = to_lowercase a ≡ to_lowercase b

abbrev pub Dialed : StatusTokenPayload → Option Text → Type 0
Dialed payload none = Unit
Dialed payload (some dialed) = SameHost payload.ans_name.fqdn.name dialed

-- What a server's certificate must satisfy under a token, and a client's.
pub record ServerFits (cert : CertIdentity) (payload : StatusTokenPayload) (dialed : Option Text)
    : Type 0 where
  pub listed : ListsFingerprint cert.fingerprint payload.valid_server_certs
  pub host : Dialed payload dialed

pub record ClientFits (cert : CertIdentity) (payload : StatusTokenPayload) (dialed : Option Text)
    : Type 0 where
  pub listed : ListsFingerprint cert.fingerprint payload.valid_identity_certs
  pub name :
      (name : AnsName) × ((cert_ans_name cert ≡ some name)
        × SameHost (AnsName.to_string name) (AnsName.to_string payload.ans_name))
  pub cert_host :
      (host : Text) × ((cert_fqdn cert ≡ some host) × SameHost host payload.ans_name.fqdn.name)
  pub host : Dialed payload dialed

fp_eq_iff : (a b : CertFingerprint) → (fp_eq a b ≡ true) ↔ (a ≡ b)
fp_eq_iff a b = ground (arith, =t_iff a.bytes b.bytes)

pub any_listed :
    (fp : CertFingerprint) (entries : List CertEntry)
    → (any (λ entry. fp_eq entry.fingerprint fp) entries ≡ true) ↔ ListsFingerprint fp entries
any_listed fp entries = (sound entries, complete entries)
  where
    sound :
        (entries : List CertEntry)
        → any (λ entry. fp_eq entry.fingerprint fp) entries ≡ true
        → ListsFingerprint fp entries
    sound [] h = cc
    sound (e ∷ es) h = elim (Bool-cases (fp_eq e.fingerprint fp)) [
      | inl hit ↦ here ((fp_eq_iff e.fingerprint fp).0 hit)
      | inr miss ↦ there (sound es (rw miss at h))
    ]

    complete :
        (entries : List CertEntry)
        → ListsFingerprint fp entries
        → any (λ entry. fp_eq entry.fingerprint fp) entries ≡ true
    complete [] h = elim h [ ]
    complete (e ∷ es) (here p) = rw ((fp_eq_iff e.fingerprint fp).1 p) refl
    complete (e ∷ es) (there h) = ground (arith, complete es h)

check_dialed_host_iff :
    (payload : StatusTokenPayload) (dialed : Option Text)
    → (check_dialed_host payload dialed ≡ none) ↔ Dialed payload dialed
unfolding check_dialed_host eq_ignore_ascii_case
check_dialed_host_iff payload none = ((λ _. tt), λ _. refl)
check_dialed_host_iff payload (some dialed) =
    ground (arith, =t_iff (to_lowercase payload.ans_name.fqdn.name) (to_lowercase dialed))

-- The certificate of a server passes the check against a status token exactly when the token lists
-- its fingerprint among the server certificates and, if a host was dialed, is for that host,
-- without regard to case.
pub check_server_certificate_iff :
    (cert : CertIdentity) (payload : StatusTokenPayload) (dialed : Option Text)
    → (check_scitt_certificate cert payload true dialed ≡ none) ↔ ServerFits cert payload dialed
unfolding check_scitt_certificate matches_server_cert
check_server_certificate_iff cert payload dialed =
    let (listed, lists) = any_listed cert.fingerprint payload.valid_server_certs in
    let (dials, dialed') = check_dialed_host_iff payload dialed in
    (
      λ e.
          let found : any (λ entry. fp_eq entry.fingerprint cert.fingerprint)
                payload.valid_server_certs
              ≡ true =
            ground arith in
          record { listed = listed found; host = dials (rw found at e) },
      λ h. rw (lists h.listed) (dialed' h.host),
    )

names_host_sound :
    (found : Option Text) (expected : Text)
    → names_host found expected ≡ true
    → (host : Text) × ((found ≡ some host) × SameHost host expected)
unfolding eq_ignore_ascii_case
names_host_sound none expected e = absurd (cc e)
names_host_sound (some host) expected e = (host, (refl, =t→≡ _ _ e))

names_host_complete :
    (found : Option Text) (expected host : Text)
    → found ≡ some host
    → SameHost host expected
    → names_host found expected ≡ true
unfolding eq_ignore_ascii_case
names_host_complete found expected host e same =
    rw e ((=t_iff (to_lowercase host) (to_lowercase expected)).1 same)

-- The certificate of a client passes the check against a status token exactly when the token lists
-- its fingerprint among the identity certificates, its ANS name is the token's and it is for the
-- host of that name, both without regard to case, and, if a host was dialed, the token is for it.
pub check_client_certificate_iff :
    (cert : CertIdentity) (payload : StatusTokenPayload) (dialed : Option Text)
    → (check_scitt_certificate cert payload false dialed ≡ none) ↔ ClientFits cert payload dialed
unfolding check_scitt_certificate matches_identity_cert eq_ignore_ascii_case
check_client_certificate_iff cert payload dialed =
    let (listed, lists) = any_listed cert.fingerprint payload.valid_identity_certs in
    let (dials, dialed') = check_dialed_host_iff payload dialed in
    let token_name = AnsName.to_string payload.ans_name in
    let token_host = payload.ans_name.fqdn.name in
    (
      λ e.
          let found : any (λ entry. fp_eq entry.fingerprint cert.fingerprint)
                payload.valid_identity_certs
              ≡ true =
            ground arith in
          let e1 : check_client_name (cert_ans_name cert) cert payload dialed ≡ none =
            rw found at e in
          elim (Option-cases (cert_ans_name cert)) [
            | inl unnamed ↦ absurd (cc (rw unnamed at e1))
            | inr (name, named) ↦
                let e2 : check_client_name (some name) cert payload dialed ≡ none =
                  rw named at e1 in
                let same : eq_ignore_ascii_case (AnsName.to_string name) token_name ≡ true =
                  ground (arith, e2) in
                let host : names_host (cert_fqdn cert) token_host ≡ true =
                  ground (arith, e2, same) in
                record {
                  listed = listed found;
                  name = (name, (named, =t→≡ _ _ same));
                  cert_host = names_host_sound (cert_fqdn cert) token_host host;
                  host = dials (rw (same, host) at e2);
                }
          ],
      λ h.
          let (name, (named, same)) = h.name in
          let (host, (hosted, at_host)) = h.cert_host in
          let same' =
            (=t_iff (to_lowercase (AnsName.to_string name)) (to_lowercase token_name)).1 same in
          let host' = names_host_complete (cert_fqdn cert) token_host host hosted at_host in
          rw (lists h.listed, named, same', host') (dialed' h.host),
    )

-- A check of a certificate only ever rejects.
abbrev pub accepts : Option VerificationOutcome → Bool
accepts none = false
accepts (some o) = is_success o

check_dialed_host-accepts :
    (payload : StatusTokenPayload) (dialed : Option Text)
    → accepts (check_dialed_host payload dialed) ≡ false
unfolding check_dialed_host
check_dialed_host-accepts payload none = refl
check_dialed_host-accepts payload (some dialed) = ground arith

check_client_name-accepts :
    (name : Option AnsName) (cert : CertIdentity) (payload : StatusTokenPayload)
    (dialed : Option Text)
    → accepts (check_client_name name cert payload dialed) ≡ false
check_client_name-accepts none cert payload dialed = refl
check_client_name-accepts (some name) cert payload dialed =
    ground (arith, check_dialed_host-accepts payload dialed)

pub check_scitt_certificate-accepts :
    (cert : CertIdentity) (payload : StatusTokenPayload) (is_server : Bool) (dialed : Option Text)
    → accepts (check_scitt_certificate cert payload is_server dialed) ≡ false
unfolding check_scitt_certificate
check_scitt_certificate-accepts cert payload true dialed =
    ground (arith, check_dialed_host-accepts payload dialed)
check_scitt_certificate-accepts cert payload false dialed =
    ground (arith, check_client_name-accepts (cert_ans_name cert) cert payload dialed)
