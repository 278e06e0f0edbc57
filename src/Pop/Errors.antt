-- ===== src/Pop/Errors.antt =====
-- crates/ans-verify/src/pop/error.rs: the category of an error; its message is left out.
pub data PopErrorKind : Type 0 where
  malformed_proof unsupported_alg http_binding_mismatch proof_stale replay : PopErrorKind
  replay_cache_full replay_cache_unavailable signature_invalid cert_invalid : PopErrorKind
  key_mismatch token_binding_mismatch content_binding_mismatch : PopErrorKind
  unsupported_profile binding_failed status_invalid receipt_invalid missing_headers : PopErrorKind
  misconfigured expected_peer_mismatch untrusted_authority : PopErrorKind
