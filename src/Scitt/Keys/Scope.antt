-- ===== src/Scitt/Keys/Scope.antt =====
-- That the scope of a key store tells its keys apart: what is cached under one set of trusted keys
-- is never found under another.
use ans_sdk_rust.Prelude.{
  ℕ, zero, suc, ◌/◌, ◌%◌, ◌^◌, ◌<◌, ◌≡◌, ◌≢◌, inl, inr, refl, sym, ap, ◌∙◌, List, [], ◌∷◌, ◌++◌,
  map, length, some, Option-cases, Bool-cases, ◌=t◌, =t→≡, text_eq, lookup, arith, Any, here, there,
  All, sort_by-Any, Any-sort_by, sort_by-All, length-append,
}
use mathlib.Core.List.{append_assoc}
use ans_sdk_rust.Text.{codes}
use ans_sdk_rust.Error.{unknown_key_id}
use ans_sdk_rust.Results.{ok_or}
use ans_sdk_rust.Types.Fingerprint.{Crypto}
use ans_sdk_rust.Scitt.Keys.{
  KeyCrates, KeyMap, TrustedKey, ScittKeyStore, be_bytes, key_bytes, concat_keys, kid_lt, ordered,
  scope_input, artifact_cache_key, get_key,
}

pub append_cancel :
    (xs ys xs' ys' : List ℕ)
    → length xs ≡ length xs'
    → xs ++ ys ≡ xs' ++ ys'
    → (xs ≡ xs') × (ys ≡ ys')
append_cancel [] ys [] ys' n e = (refl, e)
append_cancel [] ys (x' ∷ xs') ys' n e = absurd (omega arith)
append_cancel (x ∷ xs) ys [] ys' n e = absurd (omega arith)
append_cancel (x ∷ xs) ys (x' ∷ xs') ys' n e =
    let m : length xs ≡ length xs' = omega arith in
    let tails : xs ++ ys ≡ xs' ++ ys' = cc e in
    let heads : x ≡ x' = cc e in
    let (p, q) = append_cancel xs ys xs' ys' m tails in (cc (heads, p), q)

be_bytes-length : (w n : ℕ) → length (be_bytes w n) ≡ w
be_bytes-length zero n = refl
be_bytes-length (suc w) n =
    omega
      (arith, length-append (be_bytes w (n / 256)) ((n % 256) ∷ []), be_bytes-length w (n / 256))

be_bytes_injective : (w n m : ℕ) → n < 256 ^ w → m < 256 ^ w → be_bytes w n ≡ be_bytes w m → n ≡ m
be_bytes_injective zero n m h k e = omega arith
be_bytes_injective (suc w) n m h k e =
    let (high, low) =
      append_cancel (be_bytes w (n / 256)) ((n % 256) ∷ []) (be_bytes w (m / 256)) ((m % 256) ∷ [])
        (be_bytes-length w (n / 256) ∙ sym (be_bytes-length w (m / 256))) e in
    let rest : n % 256 ≡ m % 256 = cc low in
    let h' : n / 256 < 256 ^ w = omega arith in
    let k' : m / 256 < 256 ^ w = omega arith in
    let same = be_bytes_injective w (n / 256) (m / 256) h' k' high in omega arith

-- What is documented of an uncompressed point of the curve: 65 bytes that determine it.
pub record PointLaws {Key : Type 0} (crates : KeyCrates Key) : Type 0 where
  pub point_size : (k : Key) → length (crates.point k) ≡ 65
  pub point_injective : (k k' : Key) → crates.point k ≡ crates.point k' → k ≡ k'

-- No two of the artifacts that occur have the same cache key: SHA-256 has no collision among them. They
-- are told by what the scope of their store is the digest of, and by their bytes.
pub record NoCollisions (c : Crypto) (Occurs : List ℕ → List ℕ → Type 0) : Type 0 where
  pub nested :
      (x b x' b' : List ℕ)
      → Occurs x b
      → Occurs x' b'
      → c.sha256 (c.sha256 x ++ b) ≡ c.sha256 (c.sha256 x' ++ b')
      → (x ≡ x') × (b ≡ b')

module _ {Key : Type 0} (c : Crypto) (crates : KeyCrates Key) where
  -- A key stands under its own identifier of four bytes; lengths have 64 bits.
  pub record KeyStands (e : List ℕ × TrustedKey Key) : Type 0 where
    pub own : e.1.kid ≡ e.0
    pub kid_size : length e.1.kid ≡ 4
    pub name_size : length e.1.name < 256 ^ 8

  -- Every entry is found under its key.
  abbrev pub AllFound : KeyMap Key → Type 0
  AllFound keys = (e : List ℕ × TrustedKey Key) → Any (λ x. x ≡ e) keys → lookup e.0 keys ≡ some e.1

  pub record StoreFits (store : ScittKeyStore Key) : Type 0 where
    pub stand : All KeyStands store.keys
    pub found : AllFound store.keys
    pub scope : store.trust_scope ≡ c.sha256 (scope_input c crates store.keys)

  abbrev SizesFit : TrustedKey Key → Type 0
  SizesFit k = (length k.kid ≡ 4) × (length k.name < 256 ^ 8)

  key_bytes_cancel :
      (laws : PointLaws crates) (k k' : TrustedKey Key) (rest rest' : List ℕ)
      → SizesFit k
      → SizesFit k'
      → key_bytes c crates k ++ rest ≡ key_bytes c crates k' ++ rest'
      → (k ≡ k') × (rest ≡ rest')
  key_bytes_cancel laws k k' rest rest' (a, b) (a', b') e =
      let n = be_bytes 8 (length k.name) in
      let n' = be_bytes 8 (length k'.name) in
      let p = crates.point k.key in
      let p' = crates.point k'.key in
      let e0 : k.kid ++ (n ++ (k.name ++ (p ++ rest)))
          ≡ k'.kid ++ (n' ++ (k'.name ++ (p' ++ rest'))) =
        simp (append_assoc) at e in
      let (kids, e1) = append_cancel k.kid _ k'.kid _ (a ∙ sym a') e0 in
      let (sizes, e2) =
        append_cancel n _ n' _
          (be_bytes-length 8 (length k.name) ∙ sym (be_bytes-length 8 (length k'.name))) e1 in
      let same_size = be_bytes_injective 8 (length k.name) (length k'.name) b b' sizes in
      let (names, e3) = append_cancel k.name _ k'.name _ same_size e2 in
      let (points, e4) =
        append_cancel p rest p' rest' (laws.point_size k.key ∙ sym (laws.point_size k'.key)) e3 in
      let same_key = laws.point_injective k.key k'.key points in (cc (kids, names, same_key), e4)

  concat_keys_nonempty :
      (k : TrustedKey Key) (rest : List ℕ) → SizesFit k → [] ≢ key_bytes c crates k ++ rest
  concat_keys_nonempty k rest (a, b) e =
      let sizes = ap length e in
      omega (
        arith,
        sizes,
        a,
        length-append (key_bytes c crates k) rest,
        length-append k.kid (be_bytes 8 (length k.name) ++ (k.name ++ crates.point k.key)),
      )

  concat_keys_injective :
      PointLaws crates
      → (ks ks' : List (TrustedKey Key)) → All SizesFit ks
      → All SizesFit ks'
      → concat_keys c crates ks ≡ concat_keys c crates ks'
      → ks ≡ ks'
  concat_keys_injective laws [] [] a a' e = refl
  concat_keys_injective laws [] (k' ∷ ks') a (b', a') e =
      absurd (concat_keys_nonempty k' (concat_keys c crates ks') b' e)
  concat_keys_injective laws (k ∷ ks) [] (b, a) a' e =
      absurd (concat_keys_nonempty k (concat_keys c crates ks) b (sym e))
  concat_keys_injective laws (k ∷ ks) (k' ∷ ks') (b, a) (b', a') e =
      let (same, rest) =
        key_bytes_cancel laws k k' (concat_keys c crates ks) (concat_keys c crates ks') b b' e in
      let later = concat_keys_injective laws ks ks' a a' rest in cc (same, later)

  lookup-Any :
      (kid : List ℕ) (k : TrustedKey Key) (keys : KeyMap Key)
      → lookup kid keys ≡ some k
      → Any (λ x. x ≡ (kid, k)) keys
  unfolding lookup
  lookup-Any kid k [] h = absurd (cc h)
  lookup-Any kid k ((j, v) ∷ keys) h = elim (Bool-cases (j =t kid)) [
    | inl same ↦ let is : v ≡ k = cc (rw same at h) in here (cc (=t→≡ j kid same, is))
    | inr other ↦ there (lookup-Any kid k keys (rw other at h))
  ]

  Any-values :
      (e : List ℕ × TrustedKey Key) (keys : KeyMap Key)
      → Any (λ x. x ≡ e) keys
      → Any (λ k. k ≡ e.1) (map (λ x. x.1) keys)
  Any-values e [] h = elim h [ ]
  Any-values e (x ∷ keys) (here p) = here (ap (λ y. y.1) p)
  Any-values e (x ∷ keys) (there h) = there (Any-values e keys h)

  values-Any :
      (k : TrustedKey Key) (keys : KeyMap Key)
      → Any (λ x. x ≡ k) (map (λ x. x.1) keys)
      → (kid : List ℕ) × Any (λ x. x ≡ (kid, k)) keys
  values-Any k [] h = elim h [ ]
  values-Any k ((j, v) ∷ keys) (here p) = (j, here (ap (λ y. (j, y)) p))
  values-Any k (x ∷ keys) (there h) = let (kid, q) = values-Any k keys h in (kid, there q)

  stands_at :
      (e : List ℕ × TrustedKey Key) (keys : KeyMap Key)
      → All KeyStands keys
      → Any (λ x. x ≡ e) keys
      → KeyStands e
  stands_at e [] a h = elim h [ ]
  stands_at e (x ∷ keys) (s, a) (here p) = rw (← p) s
  stands_at e (x ∷ keys) (s, a) (there h) = stands_at e keys a h

  same_lookup :
      (keys keys' : KeyMap Key)
      → All KeyStands keys
      → All KeyStands keys'
      → AllFound keys'
      → ordered c crates keys ≡ ordered c crates keys'
      → (kid : List ℕ) (k : TrustedKey Key) → lookup kid keys ≡ some k
      → lookup kid keys' ≡ some k
  same_lookup keys keys' a a' found same kid k h =
      let at = lookup-Any kid k keys h in
      let own = (stands_at (kid, k) keys a at).own in
      let sorted =
        sort_by-Any (kid_lt c crates) (λ x. x ≡ k) (map (λ x. x.1) keys)
          (Any-values (kid, k) keys at) in
      let sorted' : Any (λ x. x ≡ k) (ordered c crates keys') = rw same at sorted in
      let (kid', at') =
        values-Any k keys'
          (Any-sort_by (kid_lt c crates) (λ x. x ≡ k) (map (λ x. x.1) keys') sorted') in
      let own' = (stands_at (kid', k) keys' a' at').own in rw (sym own ∙ own') (found (kid', k) at')

  sizes : (keys : KeyMap Key) → All KeyStands keys → All SizesFit (map (λ x. x.1) keys)
  sizes [] a = tt
  sizes (x ∷ keys) (s, a) = ((s.kid_size, s.name_size), sizes keys a)

  same_ordered :
      PointLaws crates
      → (keys keys' : KeyMap Key) → All KeyStands keys
      → All KeyStands keys'
      → scope_input c crates keys ≡ scope_input c crates keys'
      → ordered c crates keys ≡ ordered c crates keys'
  same_ordered laws keys keys' a a' e =
      let (_, rest) =
        append_cancel (codes "ANS-6 trusted key store" ++ 0 ∷ [])
          (concat_keys c crates (ordered c crates keys)) (codes "ANS-6 trusted key store" ++ 0 ∷ [])
          (concat_keys c crates (ordered c crates keys')) refl e in
      concat_keys_injective laws _ _ (sort_by-All (kid_lt c crates) SizesFit _ (sizes keys a))
        (sort_by-All (kid_lt c crates) SizesFit _ (sizes keys' a')) rest

  -- Artifacts that are cached under one key are the same, and so are the trusted keys: if two stores
  -- that hold each key under its own identifier of four bytes give the same cache key for two byte
  -- strings, and SHA-256 has no collisions among the artifacts that occur, to which these belong, then
  -- they are equal and every identifier is looked up with the same answer in both.
  pub artifact_cache_key_injective :
      (Occurs : List ℕ → List ℕ → Type 0)
      → NoCollisions c Occurs
      → PointLaws crates
      → (store store' : ScittKeyStore Key) (b b' : List ℕ) → StoreFits store
      → StoreFits store'
      → Occurs (scope_input c crates store.keys) b
      → Occurs (scope_input c crates store'.keys) b'
      → artifact_cache_key c crates store b ≡ artifact_cache_key c crates store' b'
      → (b ≡ b') × ((kid : List ℕ) → get_key c crates store kid ≡ get_key c crates store' kid)
  unfolding artifact_cache_key get_key
  artifact_cache_key_injective Occurs collisions laws store store' b b' f f' o o' e =
      let e' : c.sha256 (c.sha256 (scope_input c crates store.keys) ++ b)
          ≡ c.sha256 (c.sha256 (scope_input c crates store'.keys) ++ b') =
        rw (f.scope, f'.scope) at e in
      let (inputs, same) = collisions.nested _ _ _ _ o o' e' in
      let order = same_ordered laws store.keys store'.keys f.stand f'.stand inputs in
      (same, λ kid. ap (ok_or (unknown_key_id kid)) (agree kid order))
    where
      agree :
          (kid : List ℕ)
          → ordered c crates store.keys ≡ ordered c crates store'.keys
          → lookup kid store.keys ≡ lookup kid store'.keys
      agree kid order = elim (Option-cases (lookup kid store.keys)) [
        | inr (k, here_found) ↦
            here_found
            ∙ sym (
                same_lookup store.keys store'.keys f.stand f'.stand f'.found order kid k here_found)
        | inl absent ↦ elim (Option-cases (lookup kid store'.keys)) [
          | inl absent' ↦ absent ∙ sym absent'
          | inr (k, there_found) ↦ absurd (
              cc (
                absent,
                same_lookup store'.keys store.keys f'.stand f.stand f.found (sym order) kid k
                    there_found,
              ))
        ]
      ]
