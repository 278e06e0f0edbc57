-- ===== src/Scitt/Cose.antt =====
-- crates/ans-verify/src/scitt/cose.rs: the COSE_Sign1 structure of receipts and status tokens.
pub mod Structure
use ans_sdk_rust.Prelude.{
  ℕ, ◌*◌, not, List, [], ◌∷◌, Option, none, some, if◌then◌else◌, ◌==◌, ltb, length,
}
use ans_sdk_rust.Prelude.Int.{ℤ, pos, negsuc, eq_ℤ}
use ans_sdk_rust.Text.{Text, codes, is_empty}
use ans_sdk_rust.Error.{
  Result, ok, err, ◌>>=◌, ScittError, oversized_input, cbor_decode_error, not_a_cose_sign1,
  invalid_array_length, invalid_protected_header, invalid_signature_length, unsupported_algorithm,
  missing_kid,
}
use ans_sdk_rust.Results.{ok_or, fail_if}
use ans_sdk_rust.Scitt.Cbor.{
  Value, bytes, text, array, map_of, tag, items, pairs, values_of, Cbor, cbor_to_i64, has_label,
}

abbrev pub max_cose_input_size : ℕ
max_cose_input_size = 1024 * 1024

-- The algorithm is -7.
pub record ProtectedHeader : Type 0 where
  pub alg : ℤ
  pub kid : List ℕ
  pub vds : Option ℤ
  pub content_type : Option Text
  pub cwt_iss : Option Text
  pub cwt_iat : Option ℤ

pub record ParsedCoseSign1 : Type 0 where
  pub protected_bytes : List ℕ
  pub protected : ProtectedHeader
  pub unprotected : Value
  pub payload : List ℕ
  pub signature : List ℕ

-- The variables of the loop over the header's entries.
pub record HeaderFields : Type 0 where
  pub alg : Option ℤ
  pub kid : Option (List ℕ)
  pub vds : Option ℤ
  pub content_type : Option Text
  pub cwt_iss : Option Text
  pub cwt_iat : Option ℤ

abbrev no_fields : HeaderFields
no_fields = record {
  alg = none;
  kid = none;
  vds = none;
  content_type = none;
  cwt_iss = none;
  cwt_iat = none;
}

-- `if let Value::Text(s) = v`, and so on: what a field is after the assignment.
abbrev pub text_or : Option Text → Value → Option Text
text_or old (text s) = some s
text_or old _ = old

abbrev pub bytes_or : Option (List ℕ) → Value → Option (List ℕ)
bytes_or old (bytes b) = some b
bytes_or old _ = old

abbrev read_claim : Value × Value → HeaderFields → HeaderFields
read_claim (k, v) f =
    if has_label (pos 1) k
    then record f { cwt_iss = text_or f.cwt_iss v }
    else if has_label (pos 6) k
    then record f { cwt_iat = cbor_to_i64 v }
    else f

abbrev read_claims : List (Value × Value) → HeaderFields → HeaderFields
read_claims [] f = f
read_claims (e ∷ es) f = read_claims es (read_claim e f)

abbrev read_cwt : Value → HeaderFields → HeaderFields
read_cwt (map_of claims) f = read_claims (pairs claims) f
read_cwt _ f = f

abbrev read_field : Value × Value → HeaderFields → HeaderFields
read_field (k, v) f =
    if has_label (pos 1) k
    then record f { alg = cbor_to_i64 v }
    else if has_label (pos 3) k
    then record f { content_type = text_or f.content_type v }
    else if has_label (pos 4) k
    then record f { kid = bytes_or f.kid v }
    else if has_label (pos 15) k
    then read_cwt v f
    else if has_label (pos 395) k
    then record f { vds = cbor_to_i64 v }
    else f

unfoldable pub read_fields : List (Value × Value) → HeaderFields → HeaderFields
read_fields [] f = f
read_fields (e ∷ es) f = read_fields es (read_field e f)

abbrev check_alg : Option ℤ → Result ScittError ℤ
check_alg none = err invalid_protected_header
check_alg (some alg) = if eq_ℤ alg (negsuc 6) then ok alg else err unsupported_algorithm

unfoldable pub header_of : HeaderFields → Result ScittError ProtectedHeader
header_of f = do
  alg ← check_alg f.alg
  kid ← ok_or missing_kid f.kid
  _ ← fail_if (not (length kid == 4)) invalid_protected_header
  ok (record {
    alg = alg;
    kid = kid;
    vds = f.vds;
    content_type = f.content_type;
    cwt_iss = f.cwt_iss;
    cwt_iat = f.cwt_iat;
  })

abbrev as_map : Value → Option (List (Value × Value))
as_map (map_of es) = some (pairs es)
as_map _ = none

abbrev as_bytes : Value → Option (List ℕ)
as_bytes (bytes b) = some b
as_bytes _ = none

-- Tag 18, or an array with no tag.
abbrev untagged : Value → Result ScittError Value
untagged (tag n v) = if n == 18 then ok v else err not_a_cose_sign1
untagged (array vs) = ok (array vs)
untagged _ = err not_a_cose_sign1

abbrev as_array : Value → Option (List Value)
as_array (array vs) = some (items vs)
as_array _ = none

module _ (cbor : Cbor) where
  -- One value, and no bytes after it.
  abbrev pub whole_value : ScittError → List ℕ → Result ScittError Value
  whole_value e b = do
    (value, position) ← ok_or e (cbor.from_reader b)
    _ ← fail_if (not (position == length b)) e
    ok value

  unfoldable pub decode_protected_header : List ℕ → Result ScittError ProtectedHeader
  unfolding read_fields header_of
  decode_protected_header b = do
    _ ← fail_if (is_empty b) invalid_protected_header
    value ← whole_value invalid_protected_header b
    map ← ok_or invalid_protected_header (as_map value)
    header_of (read_fields map no_fields)

  abbrev of_elements : List Value → Result ScittError ParsedCoseSign1
  of_elements (a ∷ unprotected ∷ p ∷ s ∷ []) = do
    protected_bytes ← ok_or invalid_protected_header (as_bytes a)
    payload ← ok_or invalid_protected_header (as_bytes p)
    signature ← ok_or invalid_protected_header (as_bytes s)
    _ ← fail_if (not (length signature == 64)) (invalid_signature_length (length signature))
    protected ← decode_protected_header protected_bytes
    ok (record {
      protected_bytes = protected_bytes;
      protected = protected;
      unprotected = unprotected;
      payload = payload;
      signature = signature;
    })
  of_elements vs = err (invalid_array_length (length vs))

  unfoldable pub parse_cose_sign1 : List ℕ → Result ScittError ParsedCoseSign1
  parse_cose_sign1 b = do
    _ ← fail_if (ltb max_cose_input_size (length b)) (oversized_input max_cose_input_size)
    value ← whole_value cbor_decode_error b
    inner ← untagged value
    elements ← ok_or not_a_cose_sign1 (as_array inner)
    of_elements elements

  unfoldable pub build_sig_structure : List ℕ → List ℕ → Result ScittError (List ℕ)
  build_sig_structure protected_bytes payload = ok_or cbor_decode_error (
      cbor.into_writer (
        array (
          values_of
            (text (codes "Signature1") ∷ bytes protected_bytes ∷ bytes [] ∷ bytes payload ∷ []))))
