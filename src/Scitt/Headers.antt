-- ===== src/Scitt/Headers.antt =====
-- crates/ans-verify/src/scitt/headers.rs: the artifacts of a request. Base64 is a crate.
use ans_sdk_rust.Prelude.{ℕ, ◌+◌, ◌*◌, ◌/◌, Bool, true, false, ◌&&◌, List, Option, none, some, ltb}
use ans_sdk_rust.Text.{Text, byte_len}
use ans_sdk_rust.Error.{Result, ok, ◌>>=◌, ScittError, oversized_input, base64_decode}
use ans_sdk_rust.Results.{ok_or, fail_if}
use ans_sdk_rust.Scitt.Cose.{max_cose_input_size}

abbrev pub max_base64_header_size : ℕ
max_base64_header_size = (max_cose_input_size + 2) / 3 * 4

pub record ScittHeaders : Type 0 where
  pub receipt : Option (List ℕ)
  pub status_token : Option (List ℕ)

abbrev is_none {ℓ} : {A : Type ℓ} → Option A → Bool
is_none none = true
is_none (some a) = false

abbrev pub is_empty : ScittHeaders → Bool
is_empty headers = is_none headers.receipt && is_none headers.status_token

module _ (decode : Text → Option (List ℕ)) where
  abbrev decode_header : Option Text → Result ScittError (Option (List ℕ))
  decode_header none = ok none
  decode_header (some s) = do
    _ ← fail_if (ltb max_base64_header_size (byte_len s)) (oversized_input max_cose_input_size)
    b ← ok_or base64_decode (decode s)
    ok (some b)

  unfoldable pub from_base64 : Option Text → Option Text → Result ScittError ScittHeaders
  from_base64 receipt_base64 status_token_base64 = do
    receipt ← decode_header receipt_base64
    status_token ← decode_header status_token_base64
    ok (record { receipt = receipt; status_token = status_token })
