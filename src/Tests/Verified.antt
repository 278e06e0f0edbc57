-- ===== src/Tests/Verified.antt =====
-- The verification of a status token and of a receipt.
use ans_sdk_rust.Prelude.{arith, ◌≡◌, ◌↔◌, refl, [], ◌∷◌, none, lookup, ◌=t◌, text_eq}
use ans_sdk_rust.Prelude.Int.{pos, ◌+ℤ◌}
use ans_sdk_rust.Text.{codes, strip_prefix, splitn, break_at, split, trim_end}
use ans_sdk_rust.Error.{ok, err, token_expired}
use ans_sdk_rust.Types.Fqdn
use ans_sdk_rust.Types.Fqdn.{Fqdn}
use ans_sdk_rust.Scitt.Cbor.{cbor_to_i64, cbor_to_u64, has_label}
use ans_sdk_rust.Scitt.Keys.{from_keys, get_key}
use ans_sdk_rust.Scitt.Status.{verify_status_token_at, expires}
use ans_sdk_rust.Scitt.Receipt.{verify_receipt}
use ans_sdk_rust.Scitt.Cose.{parse_cose_sign1, decode_protected_header, build_sig_structure}
use ans_sdk_rust.Scitt.Payload.{
  decode_status_token_payload, parse_badge_status, read_metadata, is_key, read_cert_entry,
  parse_cert_entries,
}
use ans_sdk_rust.Types.AnsName
use ans_sdk_rust.Scitt.Receipt.{extract_vdp}
use ans_sdk_rust.Scitt.Merkle.{walk_inclusion_path, compute_leaf_hash}
use ans_sdk_rust.Scitt.Payload.{read_token_field}
use ans_sdk_rust.Types.Version
use ans_sdk_rust.Scitt.Status.Accepted.{AcceptedToken, InTime, verify_status_token_at_iff}
use ans_sdk_rust.Scitt.Receipt.{VerifiedReceipt}
use ans_sdk_rust.Scitt.Receipt.Accepted.{AcceptedReceipt, verify_receipt_iff}
use ans_sdk_rust.Scitt.Token.{VerifiedStatusToken}
use ans_sdk_rust.Tests.Scitt.{payload}
use ans_sdk_rust.Tests.Artifacts.{event_bytes}
use ans_sdk_rust.Tests.Artifacts.{framed, scitt_crates, store}

unfoldable pub names : Unit {0}
unfolding AnsName.parse strip_prefix splitn break_at Version.parse split Version.parse_u32 Fqdn.new
    trim_end Fqdn.label_ok
names = tt

unfoldable pub tokens : Unit {0}
unfolding names verify_status_token_at parse_cose_sign1 decode_protected_header has_label
    cbor_to_i64 build_sig_structure get_key from_keys lookup ◌=t◌ decode_status_token_payload
    read_token_field parse_badge_status read_metadata is_key read_cert_entry parse_cert_entries
    expires ◌+ℤ◌
tokens = tt

abbrev token : VerifiedStatusToken
token = record { payload = payload; key_id = codes "kid1" }

abbrev receipt : VerifiedReceipt
receipt = record {
  tree_size = 1;
  leaf_index = 0;
  root_hash = framed.sha256 (0 ∷ event_bytes);
  event_bytes = event_bytes;
  key_id = codes "kid1";
  iss = none;
  iat = none;
}

token_run : verify_status_token_at scitt_crates (1 ∷ []) store 60 (pos 150) ≡ ok token
unfolding tokens
token_run = refl

late_run :
    verify_status_token_at scitt_crates (1 ∷ []) store 60 (pos 261)
    ≡ err (token_expired (pos 200) (pos 261))
unfolding tokens
late_run = refl

unfoldable pub receipts : Unit {0}
unfolding tokens cbor_to_u64 verify_receipt extract_vdp walk_inclusion_path
receipts = tt

receipt_run : verify_receipt scitt_crates (4 ∷ []) store ≡ ok receipt
unfolding receipts compute_leaf_hash
receipt_run = refl

verify_status_token_at_iff_example :
    (verify_status_token_at scitt_crates (1 ∷ []) store 60 (pos 150) ≡ ok token)
    ↔ (AcceptedToken scitt_crates (1 ∷ []) store token × InTime token.payload.exp 60 (pos 150))
verify_status_token_at_iff_example =
    verify_status_token_at_iff scitt_crates (1 ∷ []) store 60 (pos 150) token (omega arith)
      (omega arith)

verify_receipt_iff_example :
    (verify_receipt scitt_crates (4 ∷ []) store ≡ ok receipt)
    ↔ AcceptedReceipt scitt_crates (4 ∷ []) store receipt
verify_receipt_iff_example = verify_receipt_iff scitt_crates (4 ∷ []) store receipt
