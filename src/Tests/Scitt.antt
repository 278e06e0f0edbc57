-- ===== src/Tests/Scitt.antt =====
-- Certificates and receipts against a status token.
use ans_sdk_rust.Prelude.{◌≡◌, ◌↔◌, true, false, List, [], ◌∷◌, Option, none, some}
use ans_sdk_rust.Prelude.Int.{pos}
use ans_sdk_rust.Text.{Text, codes}
use ans_sdk_rust.Error.{ok}
use ans_sdk_rust.Types.Badge.{active}
use ans_sdk_rust.Scitt.Token.{CertEntry, StatusTokenPayload}
use ans_sdk_rust.Scitt.Certificate.{
  ServerFits, ClientFits, check_scitt_certificate, check_server_certificate_iff,
  check_client_certificate_iff,
}
use ans_sdk_rust.Scitt.Identity.{
  ReceiptLeaf, event, identity_of, Bound, bind_receipt_to_status, bind_receipt_to_status_iff,
}
use ans_sdk_rust.Tests.Data.{fp, host, v1, cert, identity_cert}

-- A certificate whose digest is its length and itself.
abbrev pub agent_cert : Text
agent_cert = codes "0123456789abcdef0123456789abcde"

abbrev listed : List CertEntry
listed =
    record { fingerprint = fp; cert_type = codes "X509" }
    ∷ record { fingerprint = record { bytes = 31 ∷ agent_cert }; cert_type = codes "X509" }
    ∷ []

abbrev pub payload : StatusTokenPayload
payload = record {
  agent_id = codes "id";
  status = active;
  iat = pos 100;
  exp = pos 200;
  ans_name = record { version = v1; fqdn = host };
  valid_identity_certs = listed;
  valid_server_certs = listed;
  metadata_hashes = [];
}

abbrev pub read_leaf : Text → Option ReceiptLeaf
read_leaf bytes =
    some (event (record { ans_name = bytes; ans_id = none; agent_host = some host.name }))

check_server_certificate_iff_example :
    (check_scitt_certificate cert payload true (some host.name) ≡ none)
    ↔ ServerFits cert payload (some host.name)
check_server_certificate_iff_example = check_server_certificate_iff cert payload (some host.name)

check_client_certificate_iff_example :
    (check_scitt_certificate identity_cert payload false none ≡ none)
    ↔ ClientFits identity_cert payload none
check_client_certificate_iff_example = check_client_certificate_iff identity_cert payload none

bind_receipt_to_status_iff_example :
    (bind_receipt_to_status read_leaf
        (codes "ans://v1.0.0.agent.example.com")
        payload
        (some host.name)
      ≡ ok tt)
    ↔ ((leaf : ReceiptLeaf) × ((read_leaf (codes "ans://v1.0.0.agent.example.com") ≡ some leaf)
          × Bound (identity_of leaf) payload (some host.name)))
bind_receipt_to_status_iff_example =
    bind_receipt_to_status_iff read_leaf (codes "ans://v1.0.0.agent.example.com") payload
      (some host.name)
