-- ===== src/Scitt/Cose/Structure.antt =====
-- crates/ans-verify/src/scitt/cose.rs: which bytes are a COSE_Sign1 structure.
use ans_sdk_rust.Prelude.{
  ℕ, ◌≡◌, ◌≤◌, ◌⊎◌, inl, inr, refl, ap, sym, ◌∙◌, true, false, not, Bool-cases, List, [], ◌∷◌,
  Option, none, some, ◌==◌, ltb, length, arith,
}
use mathlib.Core.Path.{subst}
use ans_sdk_rust.Text.{is_empty}
use ans_sdk_rust.Prelude.Int.{ℤ, negsuc, eq_ℤ, eq_ℤ_iff}
use ans_sdk_rust.Error.{
  ok, ScittError, oversized_input, cbor_decode_error, not_a_cose_sign1, invalid_protected_header,
  invalid_signature_length, missing_kid,
}
use ans_sdk_rust.Results.{ok_or, ok_or-ok, fail_if, fail_if-ok, bind-ok, ok_injective}
use ans_sdk_rust.Scitt.Cbor.{
  Value, Values, int, bytes, text, null, other, array, map_of, tag, items, Cbor,
}
use ans_sdk_rust.Scitt.Cose.{
  max_cose_input_size, ParsedCoseSign1, ProtectedHeader, as_bytes, as_map, as_array, untagged,
  check_alg, read_fields, no_fields, whole_value, decode_protected_header, of_elements,
  parse_cose_sign1,
}

as_array-ok :
    (v : Value) (vs : List Value)
    → as_array v ≡ some vs
    → (es : Values) × ((v ≡ array es) × (items es ≡ vs))
as_array-ok (array es) vs h = (es, (refl, cc h))
as_array-ok (int i) vs h = absurd (cc h)
as_array-ok (bytes b) vs h = absurd (cc h)
as_array-ok (text s) vs h = absurd (cc h)
as_array-ok null vs h = absurd (cc h)
as_array-ok other vs h = absurd (cc h)
as_array-ok (map_of es) vs h = absurd (cc h)
as_array-ok (tag n v) vs h = absurd (cc h)

as_bytes-ok : (v : Value) (b : List ℕ) → as_bytes v ≡ some b → v ≡ bytes b
as_bytes-ok (bytes b) c h = cc h
as_bytes-ok (array es) c h = absurd (cc h)
as_bytes-ok (int i) c h = absurd (cc h)
as_bytes-ok (text s) c h = absurd (cc h)
as_bytes-ok null c h = absurd (cc h)
as_bytes-ok other c h = absurd (cc h)
as_bytes-ok (map_of es) c h = absurd (cc h)
as_bytes-ok (tag n v) c h = absurd (cc h)

untagged-ok : (v w : Value) → untagged v ≡ ok w → (v ≡ w) ⊎ (v ≡ tag 18 w)
untagged-ok (tag n v) w h = elim (Bool-cases (n == 18)) [
  | inl same ↦
      let is : n ≡ 18 = ground (arith, same) in
      let inner : v ≡ w = cc (rw same at h) in inr (ap (λ m. tag m v) is ∙ ap (tag 18) inner)
  | inr apart ↦ absurd (cc (rw apart at h))
]
untagged-ok (array es) w h = inl (cc h)
untagged-ok (int i) w h = absurd (cc h)
untagged-ok (bytes b) w h = absurd (cc h)
untagged-ok (text s) w h = absurd (cc h)
untagged-ok null w h = absurd (cc h)
untagged-ok other w h = absurd (cc h)
untagged-ok (map_of es) w h = absurd (cc h)

four_elements :
    (a u p s : Value) (x y z : List ℕ)
    → a ≡ bytes x
    → p ≡ bytes y
    → s ≡ bytes z
    → a ∷ u ∷ p ∷ s ∷ [] ≡ bytes x ∷ u ∷ bytes y ∷ bytes z ∷ []
four_elements a u p s x y z e f g = cc (e, f, g)

module _ (cbor : Cbor) where
  whole_value-ok :
      (e : ScittError) (b : List ℕ) (v : Value)
      → whole_value cbor e b ≡ ok v
      → cbor.from_reader b ≡ some (v, length b)
  whole_value-ok e b v h =
      let ((value, position), (e1, h1)) = bind-ok (ok_or e (cbor.from_reader b)) _ _ h in
      let (_, (e2, h2)) = bind-ok (fail_if (not (position == length b)) e) _ _ h1 in
      let ends : position ≡ length b = ground (arith, fail_if-ok _ _ _ e2) in
      let is : value ≡ v = cc h2 in
      ok_or-ok _ _ _ e1 ∙ (ap (λ x. some (x, position)) is ∙ ap (λ p. some (v, p)) ends)

  whole_value-whole :
      (e : ScittError) (b : List ℕ) (v : Value)
      → cbor.from_reader b ≡ some (v, length b)
      → whole_value cbor e b ≡ ok v
  whole_value-whole e b v h =
      let same : (length b == length b) ≡ true = ground arith in rw (h, same) refl

  check_alg-ok : (o : Option ℤ) (alg : ℤ) → check_alg o ≡ ok alg → alg ≡ negsuc 6
  check_alg-ok none alg h = absurd (cc h)
  check_alg-ok (some a) alg h = elim (Bool-cases (eq_ℤ a (negsuc 6))) [
    | inl same ↦ let is : a ≡ alg = cc (rw same at h) in sym is ∙ (eq_ℤ_iff a (negsuc 6)).0 same
    | inr apart ↦ absurd (cc (rw apart at h))
  ]

  -- A header that is read has the one algorithm and a key identifier of four bytes.
  header-ok :
      (b : List ℕ) (header : ProtectedHeader)
      → decode_protected_header cbor b ≡ ok header
      → (header.alg ≡ negsuc 6) × (length header.kid ≡ 4)
  unfolding decode_protected_header
  header-ok b header h =
      let (_, (e1, h1)) = bind-ok (fail_if (is_empty b) invalid_protected_header) _ _ h in
      let (value, (e2, h2)) = bind-ok (whole_value cbor invalid_protected_header b) _ _ h1 in
      let (es, (e3, h3)) = bind-ok (ok_or invalid_protected_header (as_map value)) _ _ h2 in
      let f = read_fields es no_fields in
      let (alg, (e4, h4)) = bind-ok (check_alg f.alg) _ _ h3 in
      let (kid, (e5, h5)) = bind-ok (ok_or missing_kid f.kid) _ _ h4 in
      let (_, (e6, h6)) =
        bind-ok (fail_if (not (length kid == 4)) invalid_protected_header) _ _ h5 in
      let four : length kid ≡ 4 = ground (arith, fail_if-ok _ _ _ e6) in
      let is = ok_injective _ _ h6 in
      (sym (ap (λ x. x.alg) is) ∙ check_alg-ok f.alg alg e4, sym (ap (λ x. length x.kid) is) ∙ four)

  -- The bytes are an array of four elements, with tag 18 or with no tag, and nothing after it: the
  -- bytes of the protected header, the unprotected header, the content and a signature of 64 bytes.
  pub record SignStructure (b : List ℕ) (parsed : ParsedCoseSign1) : Type 0 where
    pub size : length b ≤ 1048576
    pub value : Value
    pub elements : Values
    pub whole : cbor.from_reader b ≡ some (value, length b)
    pub tagged : (value ≡ array elements) ⊎ (value ≡ tag 18 (array elements))
    pub four :
        items elements
        ≡ bytes parsed.protected_bytes
          ∷ parsed.unprotected
          ∷ bytes parsed.payload
          ∷ bytes parsed.signature
          ∷ []
    pub signature : length parsed.signature ≡ 64
    pub header : decode_protected_header cbor parsed.protected_bytes ≡ ok parsed.protected
    pub algorithm : parsed.protected.alg ≡ negsuc 6
    pub kid : length parsed.protected.kid ≡ 4

  -- What the elements of an array that is parsed are.
  record Elements (vs : List Value) (parsed : ParsedCoseSign1) : Type 0 where
    four :
        vs
        ≡ bytes parsed.protected_bytes
          ∷ parsed.unprotected
          ∷ bytes parsed.payload
          ∷ bytes parsed.signature
          ∷ []
    signature : length parsed.signature ≡ 64
    header : decode_protected_header cbor parsed.protected_bytes ≡ ok parsed.protected

  of_elements-ok :
      (vs : List Value) (parsed : ParsedCoseSign1)
      → of_elements cbor vs ≡ ok parsed
      → Elements vs parsed
  of_elements-ok [] parsed h = absurd (cc h)
  of_elements-ok (a ∷ []) parsed h = absurd (cc h)
  of_elements-ok (a ∷ u ∷ []) parsed h = absurd (cc h)
  of_elements-ok (a ∷ u ∷ p ∷ []) parsed h = absurd (cc h)
  of_elements-ok (a ∷ u ∷ p ∷ s ∷ x ∷ vs) parsed h = absurd (cc h)
  of_elements-ok (a ∷ u ∷ p ∷ s ∷ []) parsed h =
      let (protected_bytes, (e1, h1)) =
        bind-ok (ok_or invalid_protected_header (as_bytes a)) _ _ h in
      let (payload, (e2, h2)) = bind-ok (ok_or invalid_protected_header (as_bytes p)) _ _ h1 in
      let (signature, (e3, h3)) = bind-ok (ok_or invalid_protected_header (as_bytes s)) _ _ h2 in
      let (_, (e4, h4)) =
        bind-ok
          (fail_if (not (length signature == 64)) (invalid_signature_length (length signature))) _ _
          h3 in
      let (protected, (e5, h5)) = bind-ok (decode_protected_header cbor protected_bytes) _ _ h4 in
      let is = ok_injective _ _ h5 in
      let sized : length signature ≡ 64 = ground (arith, fail_if-ok _ _ _ e4) in
      let first = as_bytes-ok a protected_bytes (ok_or-ok _ _ _ e1) in
      let third = as_bytes-ok p payload (ok_or-ok _ _ _ e2) in
      let fourth = as_bytes-ok s signature (ok_or-ok _ _ _ e3) in
      subst (λ x. Elements (a ∷ u ∷ p ∷ s ∷ []) x) is
        (record {
          four = four_elements a u p s protected_bytes payload signature first third fourth;
          signature = sized;
          header = e5;
        })

  pub parse_sound :
      (b : List ℕ) (parsed : ParsedCoseSign1)
      → parse_cose_sign1 cbor b ≡ ok parsed
      → SignStructure b parsed
  unfolding parse_cose_sign1
  parse_sound b parsed h =
      let (_, (e1, h1)) =
        bind-ok (fail_if (ltb max_cose_input_size (length b)) (oversized_input max_cose_input_size))
          _ _ h in
      let (value, (e2, h2)) = bind-ok (whole_value cbor cbor_decode_error b) _ _ h1 in
      let (inner, (e3, h3)) = bind-ok (untagged value) _ _ h2 in
      let (vs, (e4, h4)) = bind-ok (ok_or not_a_cose_sign1 (as_array inner)) _ _ h3 in
      let (elements, (is, has)) = as_array-ok inner vs (ok_or-ok _ _ _ e4) in
      let parts = of_elements-ok vs parsed h4 in
      let (algorithm, kid) = header-ok parsed.protected_bytes parsed.protected parts.header in
      record {
        size = ground (arith, fail_if-ok _ _ _ e1);
        value = value;
        elements = elements;
        whole = whole_value-ok cbor_decode_error b value e2;
        tagged = subst (λ w. (value ≡ w) ⊎ (value ≡ tag 18 w)) is (untagged-ok value inner e3);
        four = has ∙ parts.four;
        signature = parts.signature;
        header = parts.header;
        algorithm = algorithm;
        kid = kid;
      }

  untagged-tagged :
      (v : Value) (es : Values)
      → (v ≡ array es) ⊎ (v ≡ tag 18 (array es))
      → untagged v ≡ ok (array es)
  untagged-tagged v es (inl plain) = rw plain refl
  untagged-tagged v es (inr tagged) = rw tagged refl

  pub parse_complete :
      (b : List ℕ) (parsed : ParsedCoseSign1)
      → SignStructure b parsed
      → parse_cose_sign1 cbor b ≡ ok parsed
  unfolding parse_cose_sign1
  parse_complete b parsed t =
      let small : ltb max_cose_input_size (length b) ≡ false = ground (arith, t.size) in
      let whole = whole_value-whole cbor_decode_error b t.value t.whole in
      let inner = untagged-tagged t.value t.elements t.tagged in
      rw (small, whole, inner, t.four, t.signature, t.header) refl
