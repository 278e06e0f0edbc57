-- ===== src/Scitt/Receipt/Accepted.antt =====
-- crates/ans-verify/src/scitt/receipt.rs: which receipts are accepted.
use ans_sdk_rust.Prelude.{
  ℕ, ◌≡◌, ◌≤◌, ◌<◌, ◌↔◌, inl, inr, Bool-cases, List, [], ◌∷◌, Option, none, some, All, ltb, leb,
  length, ◌==◌, arith,
}
use mathlib.Core.Path.{subst}
use ans_sdk_rust.Prelude.Int.{pos, negsuc}
use ans_sdk_rust.Error.{ok, invalid_merkle_proof}
use ans_sdk_rust.Results.{ok_or, ok_or-ok, bind-ok, fail_if, ok_injective}
use ans_sdk_rust.Scitt.Cbor.{
  Value, int, bytes, text, null, other, array, map_of, tag, has_label, cbor_to_u64,
}
use ans_sdk_rust.Scitt.Cose.{ParsedCoseSign1}
use ans_sdk_rust.Scitt.Cose.Structure.{SignStructure, parse_sound, parse_complete}
use ans_sdk_rust.Scitt.Keys.{ScittKeyStore}
use ans_sdk_rust.Scitt.Merkle.{Hash, max_hash_path_len, walk_inclusion_path}
use ans_sdk_rust.Scitt.Status.{ScittCrates}
use ans_sdk_rust.Scitt.Status.Accepted.{Signature, Signature-of_SignedBy, SignedBy-of_Signature}
use ans_sdk_rust.Types.Fingerprint.{Crypto}
use ans_sdk_rust.Scitt.Receipt.{
  VerifiedReceipt, Vdp, VdpFields, find_label, as_map, as_array, hash_of, read_path,
  read_inclusion_path, read_vdp_field, read_vdp, extract_vdp, walk_vdp, receipt_of, verify_receipt,
  ReceiptFits, receipt_fits_iff,
}

-- Every item has 32 bytes.
abbrev pub AreHashes : List (List ℕ) → Type 0
AreHashes path = All (λ h. length h ≡ 32) path

hash_of-ok : (v : Value) (h : List ℕ) → hash_of v ≡ some h → length h ≡ 32
hash_of-ok (bytes b) h e = elim (Bool-cases (length b == 32)) [
  | inl sized ↦
      let is : b ≡ h = cc (rw sized at e) in
      let n : length b ≡ 32 = ground (arith, sized) in subst (λ x. length x ≡ 32) is n
  | inr other_size ↦ absurd (cc (rw other_size at e))
]
hash_of-ok (int i) h e = absurd (cc e)
hash_of-ok (text s) h e = absurd (cc e)
hash_of-ok null h e = absurd (cc e)
hash_of-ok other h e = absurd (cc e)
hash_of-ok (array vs) h e = absurd (cc e)
hash_of-ok (map_of es) h e = absurd (cc e)
hash_of-ok (tag n v) h e = absurd (cc e)

read_path-AreHashes :
    (vs : List Value) (path : List (List ℕ)) → read_path vs ≡ ok path → AreHashes path
unfolding read_path
read_path-AreHashes [] path e = let is : [] ≡ path = ok_injective _ _ e in subst AreHashes is tt
read_path-AreHashes (v ∷ vs) path e =
    let (hash, (e1, h1)) = bind-ok (ok_or invalid_merkle_proof (hash_of v)) _ _ e in
    let (rest, (e2, h2)) = bind-ok (read_path vs) _ _ h1 in
    subst AreHashes (ok_injective _ _ h2)
      (hash_of-ok v hash (ok_or-ok _ _ _ e1), read_path-AreHashes vs rest e2)

abbrev AreHashesIfRead : Option (List (List ℕ)) → Type 0
AreHashesIfRead none = Unit
AreHashesIfRead (some path) = AreHashes path

read_vdp_field-hashes :
    (k v : Value) (f f' : VdpFields)
    → read_vdp_field k v f ≡ ok f'
    → AreHashesIfRead f.inclusion_path
    → AreHashesIfRead f'.inclusion_path
read_vdp_field-hashes k v f f' e h = elim (Bool-cases (has_label (negsuc 0) k)) [
  | inl size ↦
      let (n, (_, is)) = bind-ok (ok_or invalid_merkle_proof (cbor_to_u64 v)) _ _ (rw size at e) in
      subst (λ x. AreHashesIfRead x.inclusion_path) (ok_injective _ _ is) h
  | inr not_size ↦ elim (Bool-cases (has_label (negsuc 1) k)) [
    | inl index ↦
        let (n, (_, is)) =
          bind-ok (ok_or invalid_merkle_proof (cbor_to_u64 v)) _ _ (rw (not_size, index) at e) in
        subst (λ x. AreHashesIfRead x.inclusion_path) (ok_injective _ _ is) h
    | inr not_index ↦ elim (Bool-cases (has_label (negsuc 2) k)) [
      | inl path ↦
          let (found, (e1, is)) =
            bind-ok (read_inclusion_path v) _ _ (rw (not_size, not_index, path) at e) in
          let (arr, (_, e2)) = bind-ok (ok_or invalid_merkle_proof (as_array v)) _ _ e1 in
          let (_, (_, e3)) =
            bind-ok (fail_if (ltb max_hash_path_len (length arr)) invalid_merkle_proof) _ _ e2 in
          subst (λ x. AreHashesIfRead x.inclusion_path) (ok_injective _ _ is)
            (read_path-AreHashes arr found e3)
      | inr unknown ↦
          subst (λ x. AreHashesIfRead x.inclusion_path)
            (ok_injective _ _ (rw (not_size, not_index, unknown) at e)) h
    ]
  ]
]

read_vdp-hashes :
    (es : List (Value × Value)) (f f' : VdpFields)
    → read_vdp es f ≡ ok f'
    → AreHashesIfRead f.inclusion_path
    → AreHashesIfRead f'.inclusion_path
unfolding read_vdp
read_vdp-hashes [] f f' e h = subst (λ x. AreHashesIfRead x.inclusion_path) (ok_injective _ _ e) h
read_vdp-hashes ((k, v) ∷ es) f f' e h =
    let (g, (e1, e2)) = bind-ok (read_vdp_field k v f) _ _ e in
    read_vdp-hashes es g f' e2 (read_vdp_field-hashes k v f g e1 h)

extract_vdp-hashes : (v : Value) (vdp : Vdp) → extract_vdp v ≡ ok vdp → AreHashes vdp.inclusion_path
unfolding extract_vdp
extract_vdp-hashes v vdp e =
    let (outer, (_, e1)) = bind-ok (ok_or invalid_merkle_proof (as_map v)) _ _ e in
    let (value, (_, e2)) =
      bind-ok (ok_or invalid_merkle_proof (find_label (pos 396) outer)) _ _ e1 in
    let (es, (_, e3)) = bind-ok (ok_or invalid_merkle_proof (as_map value)) _ _ e2 in
    let (f, (read, e4)) = bind-ok (read_vdp es _) _ _ e3 in
    let (size, (_, e5)) = bind-ok (ok_or invalid_merkle_proof f.tree_size) _ _ e4 in
    let (index, (_, e6)) = bind-ok (ok_or invalid_merkle_proof f.leaf_index) _ _ e5 in
    let (path, (found, e7)) = bind-ok (ok_or invalid_merkle_proof f.inclusion_path) _ _ e6 in
    let hashes : AreHashesIfRead (some path) =
      subst AreHashesIfRead (ok_or-ok _ _ _ found) (read_vdp-hashes es _ f read tt) in
    subst (λ x. AreHashes x.inclusion_path) (ok_injective _ _ e7) hashes

-- A walk that gives a root is along a path of at most 63 hashes from a leaf of the tree.
walk-place :
    (c : Crypto) (event : List ℕ) (index size : ℕ) (path : List Hash) (root : Hash)
    → walk_inclusion_path c event index size path ≡ some (ok root)
    → (index < size) × (length path ≤ 63)
unfolding walk_inclusion_path
walk-place c event index size path root e = elim (Bool-cases (size == 0)) [
  | inl empty ↦ absurd (cc (rw empty at e))
  | inr has ↦ elim (Bool-cases (leb size index)) [
    | inl outside ↦ absurd (cc (rw (has, outside) at e))
    | inr inside ↦ elim (Bool-cases (ltb max_hash_path_len (length path))) [
      | inl long ↦ absurd (cc (rw (has, inside, long) at e))
      | inr short ↦ (ground (arith, inside), ground (arith, short))
    ]
  ]
]

module _ {Key : Type 0} (crates : ScittCrates Key) where
  -- What an accepted receipt is.
  pub record AcceptedReceipt (b : List ℕ) (store : ScittKeyStore Key) (r : VerifiedReceipt)
      : Type 0 where
    pub parsed : ParsedCoseSign1
    pub structure : SignStructure crates.cbor b parsed
    pub vds : parsed.protected.vds ≡ some (pos 1)
    pub signature : Signature crates parsed store
    pub vdp : Vdp
    pub extracts : extract_vdp parsed.unprotected ≡ ok vdp
    pub hashes : AreHashes vdp.inclusion_path
    pub place : vdp.leaf_index < vdp.tree_size
    pub depth : length vdp.inclusion_path ≤ 63
    pub walks : walk_vdp crates parsed.payload vdp ≡ some (ok r.root_hash)
    pub is : r ≡ receipt_of crates parsed vdp r.root_hash

  accepted_of_fits :
      (b : List ℕ) (store : ScittKeyStore Key) (r : VerifiedReceipt)
      → ReceiptFits crates b store r
      → AcceptedReceipt b store r
  accepted_of_fits b store r t =
      let (place, depth) =
        walk-place crates.crypto t.parsed.payload t.vdp.leaf_index t.vdp.tree_size
          t.vdp.inclusion_path r.root_hash t.walks in
      record {
        parsed = t.parsed;
        structure = parse_sound crates.cbor b t.parsed t.parses;
        vds = t.vds;
        signature = Signature-of_SignedBy crates t.parsed store t.signed;
        vdp = t.vdp;
        extracts = t.extracts;
        hashes = extract_vdp-hashes t.parsed.unprotected t.vdp t.extracts;
        place = place;
        depth = depth;
        walks = t.walks;
        is = t.is;
      }

  fits_of_accepted :
      (b : List ℕ) (store : ScittKeyStore Key) (r : VerifiedReceipt)
      → AcceptedReceipt b store r
      → ReceiptFits crates b store r
  fits_of_accepted b store r t = record {
    parsed = t.parsed;
    parses = parse_complete crates.cbor b t.parsed t.structure;
    vds = t.vds;
    signed = SignedBy-of_Signature crates t.parsed store t.signature;
    vdp = t.vdp;
    extracts = t.extracts;
    walks = t.walks;
    is = t.is;
  }

  -- A receipt is accepted exactly when its bytes, a mebibyte at most, are an array of the four
  -- elements of COSE_Sign1, with tag 18 or none and nothing after it, with a signature of 64 bytes,
  -- the algorithm -7, a key identifier of four bytes and the log structure 1, which is RFC 9162 with
  -- SHA-256; the trusted key with that identifier signed the header and the content, and its domain
  -- is the issuer, where one is named; and the inclusion proof that is read from the unprotected
  -- header, for a leaf within the tree and of at most 63 hashes of 32 bytes, leads by the walk from
  -- the content to a root. What it holds is the content, its place in the log and that root, with the
  -- identifier, the issuer and the time of the header.
  pub verify_receipt_iff :
      (b : List ℕ) (store : ScittKeyStore Key) (r : VerifiedReceipt)
      → (verify_receipt crates b store ≡ ok r) ↔ AcceptedReceipt b store r
  verify_receipt_iff b store r =
      let iff = receipt_fits_iff crates b store r in
      (λ h. accepted_of_fits b store r (iff.0 h), λ t. iff.1 (fits_of_accepted b store r t))
