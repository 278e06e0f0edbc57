-- ===== src/Scitt/Merkle/Tree.antt =====
-- crates/ans-verify/src/scitt/merkle.rs: `build_tree_and_proof`, the tree layer by layer. It is the
-- reference that the walk is compared with.
use ans_sdk_rust.Prelude.{
  ℕ, zero, suc, ◌+◌, ◌-◌, ◌/◌, ◌%◌, ◌^◌, ◌≤◌, ◌<◌, ◌==◌, ◌≡◌, refl, false, List, [], ◌∷◌, ◌++◌, map,
  Option, none, some, if◌then◌else◌, ltb, length, length-append, get_or, Bool-cases, inl, inr,
  arith,
}
use native.Mathlib.Nat.{pow-suc}
use ans_sdk_rust.Types.Fingerprint.{Crypto}
use ans_sdk_rust.Scitt.Merkle.{Hash, compute_leaf_hash, compute_node_hash}

-- `layer[i]`
abbrev pub node_at : List Hash → ℕ → Hash
node_at layer i = get_or layer i []

-- The sibling that goes into the proof, if there is one.
abbrev pub siblings : List Hash → ℕ → List Hash
siblings layer idx =
    if idx % 2 == 1
    then node_at layer (idx - 1) ∷ []
    else if ltb (idx + 1) (length layer)
    then node_at layer (idx + 1) ∷ []
    else []

module _ (c : Crypto) where
  unfoldable pub next_layer : List Hash → List Hash
  next_layer [] = []
  next_layer (a ∷ []) = a ∷ []
  next_layer (a ∷ b ∷ rest) = compute_node_hash c a b ∷ next_layer rest

  abbrev pub with_siblings : List Hash → Option (Hash × List Hash) → Option (Hash × List Hash)
  with_siblings first none = none
  with_siblings first (some (root, proof)) = some (root, first ++ proof)

  -- The loop over the layers.
  unfoldable pub build : ℕ → List Hash → ℕ → Option (Hash × List Hash)
  unfolding next_layer
  build zero layer idx = if ltb 1 (length layer) then none else some (node_at layer 0, [])
  build (suc fuel) layer idx =
      let rest = build fuel (next_layer layer) (idx / 2) in
      if ltb 1 (length layer)
      then with_siblings (siblings layer idx) rest
      else some (node_at layer 0, [])

  -- The fuel is the number of leaves.
  unfoldable pub build_tree_and_proof : List (List ℕ) → ℕ → Option (Hash × List Hash)
  unfolding build
  build_tree_and_proof leaves leaf_index =
      build (length leaves) (map (compute_leaf_hash c) leaves) leaf_index

  pub length-next_layer : (layer : List Hash) → length (next_layer layer) ≡ (length layer + 1) / 2
  unfolding next_layer
  length-next_layer [] = omega arith
  length-next_layer (a ∷ []) = omega arith
  length-next_layer (a ∷ b ∷ rest) = omega (arith, length-next_layer rest)

  half_suc : (k : ℕ) → suc (suc k) / 2 ≡ suc (k / 2)
  half_suc k = omega arith

  pub next_layer-odd :
      (layer : List Hash) (k : ℕ)
      → k % 2 ≡ 0
      → k + 1 < length layer
      → node_at (next_layer layer) (k / 2)
        ≡ compute_node_hash c (node_at layer k) (node_at layer (suc k))
  unfolding next_layer
  next_layer-odd [] k even h = absurd (omega (arith, h))
  next_layer-odd (a ∷ []) k even h = absurd (omega (arith, h))
  next_layer-odd (a ∷ b ∷ rest) zero even h = refl
  next_layer-odd (a ∷ b ∷ rest) (suc zero) even h = absurd (omega (arith, even))
  next_layer-odd (a ∷ b ∷ rest) (suc (suc k)) even h =
      rw (half_suc k) (next_layer-odd rest k (omega (arith, even)) (omega (arith, h)))

  pub next_layer-last :
      (layer : List Hash) (k : ℕ)
      → k % 2 ≡ 0
      → k + 1 ≡ length layer
      → node_at (next_layer layer) (k / 2) ≡ node_at layer k
  unfolding next_layer
  next_layer-last [] k even h = absurd (omega (arith, h))
  next_layer-last (a ∷ []) zero even h = refl
  next_layer-last (a ∷ []) (suc k) even h = absurd (omega (arith, h))
  next_layer-last (a ∷ b ∷ rest) zero even h = absurd (omega (arith, h))
  next_layer-last (a ∷ b ∷ rest) (suc zero) even h = absurd (omega (arith, even))
  next_layer-last (a ∷ b ∷ rest) (suc (suc k)) even h =
      rw (half_suc k) (next_layer-last rest k (omega (arith, even)) (omega (arith, h)))

  length-siblings : (layer : List Hash) (idx : ℕ) → length (siblings layer idx) ≤ 1
  length-siblings layer idx = ground arith

  half_pow : (n d : ℕ) → 1 < n → n ≤ 2 ^ suc d → (n + 1) / 2 ≤ 2 ^ d
  half_pow n d many h = omega (arith, h, pow-suc 2 d, many)

  with_siblings-some :
      (first : List Hash) (built : Option (Hash × List Hash)) (root : Hash) (proof : List Hash)
      → with_siblings first built ≡ some (root, proof)
      → (rest : List Hash) × ((built ≡ some (root, rest)) × (proof ≡ first ++ rest))
  with_siblings-some first none root proof e = absurd (ground arith)
  with_siblings-some first (some (r, rest)) root proof e = (rest, (ground arith, ground arith))

  no_proof :
      (top root : Hash) (proof : List Hash) (d : ℕ)
      → ◌≡◌ {A = Option (Hash × List Hash)} (some (top, [])) (some (root, proof))
      → length proof ≤ d
  no_proof top root proof d e =
      let none_left : proof ≡ [] = ground arith in rw none_left (omega arith)

  -- A tree of depth `d` gives proofs of at most `d` hashes.
  pub build-length :
      (fuel : ℕ) (layer : List Hash) (idx d : ℕ) (root : Hash) (proof : List Hash)
      → length layer ≤ 2 ^ d
      → build fuel layer idx ≡ some (root, proof)
      → length proof ≤ d
  unfolding build
  build-length zero layer idx d root proof h e = ground arith
  build-length (suc fuel) layer idx zero root proof h e =
      let one : ltb 1 (length layer) ≡ false = ground (arith, h) in
      no_proof (node_at layer 0) root proof zero (rw (one, build) at e)
  build-length (suc fuel) layer idx (suc d) root proof h e =
      elim (Bool-cases (ltb 1 (length layer))) [
        | inr one ↦ no_proof (node_at layer 0) root proof (suc d) (rw (one, build) at e)
        | inl many ↦
            let (rest, (built, joined)) =
              with_siblings-some (siblings layer idx) (build fuel (next_layer layer) (idx / 2)) root
                proof (rw (many, build) at e) in
            let small : length (next_layer layer) ≤ 2 ^ d =
              rw (length-next_layer layer) (half_pow (length layer) d (ground arith) h) in
            let below = build-length fuel (next_layer layer) (idx / 2) d root rest small built in
            rw joined (
              omega
                (arith, length-append (siblings layer idx) rest, length-siblings layer idx, below))
      ]
