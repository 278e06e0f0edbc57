-- ===== src/Scitt/Payload.antt =====
-- crates/ans-verify/src/scitt/status_token.rs: the decoding of a status token's payload. The
-- identifier is read by the crate uuid, which gives its canonical text.
use ans_sdk_rust.Prelude.{
  ℕ, Bool, false, ◌||◌, List, [], ◌∷◌, length, Option, none, some, if◌then◌else◌, ◌==◌, ◌=t◌, ltb,
  text_eq, insert,
}
use ans_sdk_rust.Prelude.Int.{ℤ, pos}
use ans_sdk_rust.Text.{Text, codes}
use ans_sdk_rust.Error.{Result, ok, ◌>>=◌, ScittError, cbor_decode_error, missing_token_field}
use ans_sdk_rust.Results.{ok_or, fail_if, map_err}
use ans_sdk_rust.Types.AnsName
use ans_sdk_rust.Types.AnsName.{AnsName}
use ans_sdk_rust.Types.Badge.{BadgeStatus, active, warning, deprecated, expired, revoked}
use ans_sdk_rust.Types.Fingerprint
use ans_sdk_rust.Types.Fingerprint.{Crypto, CertFingerprint}
use ans_sdk_rust.Scitt.Cbor.{
  Value, bytes, text, array, map_of, items, pairs, Cbor, cbor_to_i64, has_label,
}
use ans_sdk_rust.Scitt.Cose.{text_or}
use ans_sdk_rust.Scitt.Token.{CertEntry, StatusTokenPayload}

unfoldable pub parse_badge_status : Text → Option BadgeStatus
parse_badge_status s =
    if s =t codes "ACTIVE"
    then some active
    else if s =t codes "WARNING"
    then some warning
    else if s =t codes "DEPRECATED"
    then some deprecated
    else if s =t codes "EXPIRED"
    then some expired
    else if s =t codes "REVOKED"
    then some revoked
    else none

abbrev pub max_cert_entries : ℕ
max_cert_entries = 128

abbrev pub max_metadata_entries : ℕ
max_metadata_entries = 256

-- The key is the number, or the text in tests.
abbrev is_text : Text → Value → Bool
is_text name (text s) = s =t name
is_text name _ = false

unfoldable pub is_key : ℕ → Text → Value → Bool
is_key n name k = has_label (pos n) k || is_text name k

abbrev pub CertFields : Type 0
CertFields = Option CertFingerprint × Option Text

abbrev add_metadata : Value → Value → List (Text × Text) → List (Text × Text)
add_metadata (text k) (text v) m = insert k v m
add_metadata _ _ m = m

unfoldable pub read_metadata : List (Value × Value) → List (Text × Text) → List (Text × Text)
read_metadata [] m = m
read_metadata ((k, v) ∷ es) m = read_metadata es (add_metadata k v m)

-- The variables of the loop over the payload's entries.
pub record TokenFields : Type 0 where
  pub agent_id : Option Text
  pub status : Option BadgeStatus
  pub iat : Option ℤ
  pub exp : Option ℤ
  pub ans_name : Option Text
  pub valid_identity_certs : List CertEntry
  pub valid_server_certs : List CertEntry
  pub metadata_hashes : List (Text × Text)

abbrev pub no_fields : TokenFields
no_fields = record {
  agent_id = none;
  status = none;
  iat = none;
  exp = none;
  ans_name = none;
  valid_identity_certs = [];
  valid_server_certs = [];
  metadata_hashes = [];
}

abbrev read_status : Value → TokenFields → Result ScittError TokenFields
read_status (text s) f = do
  status ← ok_or cbor_decode_error (parse_badge_status s)
  ok (record f { status = some status })
read_status _ f = ok f

abbrev read_hashes : Value → TokenFields → Result ScittError TokenFields
read_hashes (map_of es) f = do
  _ ← fail_if (ltb max_metadata_entries (length (pairs es))) cbor_decode_error
  ok (record f { metadata_hashes = read_metadata (pairs es) f.metadata_hashes })
read_hashes _ f = ok f

abbrev as_map : Value → Option (List (Value × Value))
as_map (map_of es) = some (pairs es)
as_map _ = none

module _ (c : Crypto) (parse_uuid : Text → Option Text) where
  abbrev read_fingerprint : Value → Result ScittError (Option CertFingerprint)
  read_fingerprint (text s) = do fp ← ok_or cbor_decode_error (Fingerprint.parse c s); ok (some fp)
  read_fingerprint (bytes b) = ok (if length b == 32 then some (record { bytes = b }) else none)
  read_fingerprint _ = ok none

  abbrev read_cert_field : Value → Value → CertFields → Result ScittError CertFields
  read_cert_field k v (fp, cert_type) =
      if is_key 1 (codes "fingerprint") k
      then (do fp' ← read_fingerprint v; ok (fp', cert_type))
      else if is_key 2 (codes "cert_type") k
      then ok (fp, text_or cert_type v)
      else ok (fp, cert_type)

  unfoldable pub read_cert_fields : List (Value × Value) → CertFields → Result ScittError CertFields
  read_cert_fields [] f = ok f
  read_cert_fields ((k, v) ∷ es) f = do f' ← read_cert_field k v f; read_cert_fields es f'

  unfoldable pub read_cert_entry : Value → Result ScittError CertEntry
  unfolding read_cert_fields
  read_cert_entry item = do
    es ← ok_or cbor_decode_error (as_map item)
    f ← read_cert_fields es (none, none)
    fp ← ok_or missing_token_field f.0
    cert_type ← ok_or missing_token_field f.1
    ok (record { fingerprint = fp; cert_type = cert_type })

  unfoldable pub read_cert_entries : List Value → Result ScittError (List CertEntry)
  read_cert_entries [] = ok []
  read_cert_entries (item ∷ rest) = do
    entry ← read_cert_entry item
    entries ← read_cert_entries rest
    ok (entry ∷ entries)

  unfoldable pub parse_cert_entries : List Value → Result ScittError (List CertEntry)
  unfolding read_cert_entries
  parse_cert_entries arr = do
    _ ← fail_if (ltb max_cert_entries (length arr)) cbor_decode_error
    read_cert_entries arr

  abbrev read_agent_id : Value → TokenFields → Result ScittError TokenFields
  read_agent_id (text s) f = do
    id ← ok_or cbor_decode_error (parse_uuid s)
    ok (record f { agent_id = some id })
  read_agent_id _ f = ok f

  abbrev read_identity_certs : Value → TokenFields → Result ScittError TokenFields
  read_identity_certs (array arr) f = do
    certs ← parse_cert_entries (items arr)
    ok (record f { valid_identity_certs = certs })
  read_identity_certs _ f = ok f

  abbrev read_server_certs : Value → TokenFields → Result ScittError TokenFields
  read_server_certs (array arr) f = do
    certs ← parse_cert_entries (items arr)
    ok (record f { valid_server_certs = certs })
  read_server_certs _ f = ok f

  unfoldable pub read_token_field : Value → Value → TokenFields → Result ScittError TokenFields
  read_token_field k v f =
      if has_label (pos 1) k
      then read_agent_id v f
      else if has_label (pos 2) k
      then read_status v f
      else if has_label (pos 3) k
      then ok (record f { iat = cbor_to_i64 v })
      else if has_label (pos 4) k
      then ok (record f { exp = cbor_to_i64 v })
      else if has_label (pos 5) k
      then ok (record f { ans_name = text_or f.ans_name v })
      else if has_label (pos 6) k
      then read_identity_certs v f
      else if has_label (pos 7) k
      then read_server_certs v f
      else if has_label (pos 8) k
      then read_hashes v f
      else ok f

  unfoldable pub read_token_fields :
      List (Value × Value) → TokenFields → Result ScittError TokenFields
  read_token_fields [] f = ok f
  read_token_fields ((k, v) ∷ es) f = do f' ← read_token_field k v f; read_token_fields es f'

  unfoldable pub payload_of : TokenFields → Result ScittError StatusTokenPayload
  payload_of f = do
    agent_id ← ok_or missing_token_field f.agent_id
    status ← ok_or missing_token_field f.status
    iat ← ok_or missing_token_field f.iat
    exp ← ok_or missing_token_field f.exp
    raw ← ok_or missing_token_field f.ans_name
    ans_name ← map_err (λ e. missing_token_field) (AnsName.parse raw)
    ok (record {
      agent_id = agent_id;
      status = status;
      iat = iat;
      exp = exp;
      ans_name = ans_name;
      valid_identity_certs = f.valid_identity_certs;
      valid_server_certs = f.valid_server_certs;
      metadata_hashes = f.metadata_hashes;
    })

  abbrev first_value : Option (Value × ℕ) → Option Value
  first_value none = none
  first_value (some (v, position)) = some v

  -- The first value of the bytes; what follows it is not looked at.
  unfoldable pub decode_status_token_payload : Cbor → List ℕ → Result ScittError StatusTokenPayload
  unfolding read_token_fields payload_of
  decode_status_token_payload cbor payload_bytes = do
    value ← ok_or cbor_decode_error (first_value (cbor.from_reader payload_bytes))
    es ← ok_or cbor_decode_error (as_map value)
    f ← read_token_fields es no_fields
    payload_of f
