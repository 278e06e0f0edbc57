-- ===== src/Scitt/Receipt.antt =====
-- crates/ans-verify/src/scitt/receipt.rs: the verification of a receipt.
pub mod Accepted
use ans_sdk_rust.Prelude.{
  ℕ, ◌≡◌, ◌↔◌, sym, ap, ◌∙◌, Bool, false, not, List, [], ◌∷◌, length, Option, none, some,
  if◌then◌else◌, ◌==◌, ltb, arith,
}
use ans_sdk_rust.Prelude.Int.{ℤ, pos, negsuc, eq_ℤ, eq_ℤ_iff}
use ans_sdk_rust.Text.{Text}
use ans_sdk_rust.Error.{
  Result, ok, err, ◌>>=◌, ScittError, invalid_protected_header, invalid_merkle_proof,
  signature_invalid,
}
use ans_sdk_rust.Results.{ok_or, ok_injective, fail_if, bind-ok, fail_if-ok, ok_or-ok}
use ans_sdk_rust.Scitt.Cbor.{Value, bytes, array, map_of, items, pairs, has_label, cbor_to_u64}
use ans_sdk_rust.Scitt.Cose.{ParsedCoseSign1, parse_cose_sign1, build_sig_structure}
use ans_sdk_rust.Scitt.Keys.{ScittKeyStore, get_key}
use ans_sdk_rust.Scitt.Merkle.{max_hash_path_len, walk_inclusion_path}
use ans_sdk_rust.Scitt.Status.{
  ScittCrates, check_issuer, check_issuer-ok, check_issuer-fits, SignedBy,
}

pub record VerifiedReceipt : Type 0 where
  pub tree_size : ℕ
  pub leaf_index : ℕ
  pub root_hash : List ℕ
  pub event_bytes : List ℕ
  pub key_id : List ℕ
  pub iss : Option Text
  pub iat : Option ℤ

pub record Vdp : Type 0 where
  pub tree_size : ℕ
  pub leaf_index : ℕ
  pub inclusion_path : List (List ℕ)

-- The variables of the loop over the proof's entries.
pub record VdpFields : Type 0 where
  pub tree_size : Option ℕ
  pub leaf_index : Option ℕ
  pub inclusion_path : Option (List (List ℕ))

abbrev find_label : ℤ → List (Value × Value) → Option Value
find_label i [] = none
find_label i ((k, v) ∷ es) = let rest = find_label i es in if has_label i k then some v else rest

abbrev as_map : Value → Option (List (Value × Value))
as_map (map_of es) = some (pairs es)
as_map _ = none

abbrev as_array : Value → Option (List Value)
as_array (array vs) = some (items vs)
as_array _ = none

abbrev hash_of : Value → Option (List ℕ)
hash_of (bytes b) = if length b == 32 then some b else none
hash_of _ = none

unfoldable pub read_path : List Value → Result ScittError (List (List ℕ))
read_path [] = ok []
read_path (item ∷ rest) = do
  hash ← ok_or invalid_merkle_proof (hash_of item)
  path ← read_path rest
  ok (hash ∷ path)

abbrev read_inclusion_path : Value → Result ScittError (List (List ℕ))
read_inclusion_path v = do
  arr ← ok_or invalid_merkle_proof (as_array v)
  _ ← fail_if (ltb max_hash_path_len (length arr)) invalid_merkle_proof
  read_path arr

abbrev read_vdp_field : Value → Value → VdpFields → Result ScittError VdpFields
read_vdp_field k v f =
    if has_label (negsuc 0) k
    then (do n ← ok_or invalid_merkle_proof (cbor_to_u64 v); ok (record f { tree_size = some n }))
    else if has_label (negsuc 1) k
    then (do n ← ok_or invalid_merkle_proof (cbor_to_u64 v); ok (record f { leaf_index = some n }))
    else if has_label (negsuc 2) k
    then (do path ← read_inclusion_path v; ok (record f { inclusion_path = some path }))
    else ok f

unfoldable pub read_vdp : List (Value × Value) → VdpFields → Result ScittError VdpFields
unfolding read_path
read_vdp [] f = ok f
read_vdp ((k, v) ∷ es) f = do f' ← read_vdp_field k v f; read_vdp es f'

unfoldable pub extract_vdp : Value → Result ScittError Vdp
unfolding read_vdp
extract_vdp unprotected = do
  outer ← ok_or invalid_merkle_proof (as_map unprotected)
  value ← ok_or invalid_merkle_proof (find_label (pos 396) outer)
  es ← ok_or invalid_merkle_proof (as_map value)
  f ← read_vdp es (record { tree_size = none; leaf_index = none; inclusion_path = none })
  tree_size ← ok_or invalid_merkle_proof f.tree_size
  leaf_index ← ok_or invalid_merkle_proof f.leaf_index
  inclusion_path ← ok_or invalid_merkle_proof f.inclusion_path
  ok (record { tree_size = tree_size; leaf_index = leaf_index; inclusion_path = inclusion_path })

-- RFC9162_SHA256
abbrev is_one : Option ℤ → Bool
is_one none = false
is_one (some n) = eq_ℤ n (pos 1)

-- The walk ends for every input, so it never is `none`.
abbrev ended : Option (Result ScittError (List ℕ)) → Result ScittError (List ℕ)
ended none = err invalid_merkle_proof
ended (some r) = r

module _ {Key : Type 0} (crates : ScittCrates Key) where
  abbrev pub walk_vdp : List ℕ → Vdp → Option (Result ScittError (List ℕ))
  walk_vdp payload vdp =
      walk_inclusion_path crates.crypto payload vdp.leaf_index vdp.tree_size vdp.inclusion_path

  abbrev pub receipt_of : ParsedCoseSign1 → Vdp → List ℕ → VerifiedReceipt
  receipt_of parsed vdp root_hash = record {
    tree_size = vdp.tree_size;
    leaf_index = vdp.leaf_index;
    root_hash = root_hash;
    event_bytes = parsed.payload;
    key_id = parsed.protected.kid;
    iss = parsed.protected.cwt_iss;
    iat = parsed.protected.cwt_iat;
  }

  unfoldable pub verify_receipt : List ℕ → ScittKeyStore Key → Result ScittError VerifiedReceipt
  verify_receipt receipt_bytes key_store = do
    parsed ← parse_cose_sign1 crates.cbor receipt_bytes
    _ ← fail_if (not (is_one parsed.protected.vds)) invalid_protected_header
    trusted_key ← get_key crates.crypto crates.keys key_store parsed.protected.kid
    _ ← check_issuer parsed.protected.cwt_iss trusted_key.name
    sig_structure ← build_sig_structure crates.cbor parsed.protected_bytes parsed.payload
    sig ← ok_or signature_invalid (crates.keys.signature_from_slice parsed.signature)
    _ ←
        fail_if (not (crates.keys.verify_p256_sha256 trusted_key.key sig_structure sig))
          signature_invalid
    vdp ← extract_vdp parsed.unprotected
    root_hash ← ended (walk_vdp parsed.payload vdp)
    ok (receipt_of parsed vdp root_hash)

  -- What a verified receipt is.
  pub record ReceiptFits (receipt_bytes : List ℕ) (store : ScittKeyStore Key) (r : VerifiedReceipt)
      : Type 0 where
    pub parsed : ParsedCoseSign1
    pub parses : parse_cose_sign1 crates.cbor receipt_bytes ≡ ok parsed
    pub vds : parsed.protected.vds ≡ some (pos 1)
    pub signed : SignedBy crates parsed store
    pub vdp : Vdp
    pub extracts : extract_vdp parsed.unprotected ≡ ok vdp
    pub walks : walk_vdp parsed.payload vdp ≡ some (ok r.root_hash)
    pub is : r ≡ receipt_of parsed vdp r.root_hash

  ended-ok :
      (o : Option (Result ScittError (List ℕ))) (root : List ℕ)
      → ended o ≡ ok root
      → o ≡ some (ok root)
  ended-ok none root h = absurd (cc h)
  ended-ok (some r) root h = ap some h

  is_one-some : (o : Option ℤ) → not (is_one o) ≡ false → o ≡ some (pos 1)
  is_one-some none h = absurd (cc h)
  is_one-some (some n) h = ap some ((eq_ℤ_iff n (pos 1)).0 (ground (arith, h)))

  receipt_sound :
      (receipt_bytes : List ℕ) (store : ScittKeyStore Key) (r : VerifiedReceipt)
      → verify_receipt receipt_bytes store ≡ ok r
      → ReceiptFits receipt_bytes store r
  unfolding verify_receipt
  receipt_sound receipt_bytes store r h =
      let (parsed, (e1, h1)) = bind-ok (parse_cose_sign1 crates.cbor receipt_bytes) _ _ h in
      let (_, (e2, h2)) = bind-ok (fail_if (not (is_one parsed.protected.vds)) _) _ _ h1 in
      let (trusted, (e3, h3)) =
        bind-ok (get_key crates.crypto crates.keys store parsed.protected.kid) _ _ h2 in
      let (_, (e4, h4)) = bind-ok (check_issuer parsed.protected.cwt_iss trusted.name) _ _ h3 in
      let (sig_structure, (e5, h5)) =
        bind-ok (build_sig_structure crates.cbor parsed.protected_bytes parsed.payload) _ _ h4 in
      let (sig, (e6, h6)) =
        bind-ok (ok_or _ (crates.keys.signature_from_slice parsed.signature)) _ _ h5 in
      let (_, (e7, h7)) =
        bind-ok (fail_if (not (crates.keys.verify_p256_sha256 trusted.key sig_structure sig)) _) _ _
          h6 in
      let (vdp, (e8, h8)) = bind-ok (extract_vdp parsed.unprotected) _ _ h7 in
      let (root, (e9, h9)) = bind-ok (ended (walk_vdp parsed.payload vdp)) _ _ h8 in
      let forged = fail_if-ok _ _ _ e7 in
      let is : receipt_of parsed vdp root ≡ r = ok_injective _ _ h9 in
      let same : root ≡ r.root_hash = ap (λ x. x.root_hash) is in
      record {
        parsed = parsed;
        parses = e1;
        vds = is_one-some _ (fail_if-ok _ _ _ e2);
        signed = record {
          trusted = trusted;
          found = e3;
          sig_structure = sig_structure;
          built = e5;
          sig = sig;
          encodes = ok_or-ok _ _ _ e6;
          verifies = ground (arith, forged);
          issuer = check_issuer-ok parsed.protected.cwt_iss trusted.name e4;
        };
        vdp = vdp;
        extracts = e8;
        walks = ended-ok _ _ e9 ∙ ap (λ x. some (ok x)) same;
        is = sym is ∙ ap (receipt_of parsed vdp) same;
      }

  receipt_complete :
      (receipt_bytes : List ℕ) (store : ScittKeyStore Key) (r : VerifiedReceipt)
      → ReceiptFits receipt_bytes store r
      → verify_receipt receipt_bytes store ≡ ok r
  unfolding verify_receipt
  receipt_complete receipt_bytes store r t =
      let s = t.signed in
      let issuer = check_issuer-fits t.parsed.protected.cwt_iss s.trusted.name s.issuer in
      rw (t.parses, t.vds, s.found, issuer, s.built, s.encodes, s.verifies, t.extracts, t.walks)
        (ap ok (sym t.is))

  pub receipt_fits_iff :
      (receipt_bytes : List ℕ) (store : ScittKeyStore Key) (r : VerifiedReceipt)
      → (verify_receipt receipt_bytes store ≡ ok r) ↔ ReceiptFits receipt_bytes store r
  receipt_fits_iff receipt_bytes store r =
      (receipt_sound receipt_bytes store r, receipt_complete receipt_bytes store r)
