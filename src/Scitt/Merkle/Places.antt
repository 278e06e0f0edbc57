-- ===== src/Scitt/Merkle/Places.antt =====
-- Where the walk stands in a layer of the tree, and how it gets to the next layer.
use ans_sdk_rust.Prelude.{
  ℕ, zero, suc, ◌+◌, ◌-◌, ◌/◌, ◌%◌, ◌<◌, ◌==◌, ◌||◌, ◌≡◌, ◌⊎◌, refl, sym, ◌∙◌, true, false, List,
  [], ◌∷◌, ◌++◌, some, ltb, length, Bool-cases, inl, inr, arith,
}
use ans_sdk_rust.Types.Fingerprint.{Crypto}
use ans_sdk_rust.Scitt.Merkle.{Hash, Walk, step}
use ans_sdk_rust.Scitt.Merkle.Tree.{
  node_at, siblings, next_layer, build, length-next_layer, next_layer-odd, next_layer-last,
}

module _ (c : Crypto) where
  -- The walk stands at a node of the layer: its index and the last index are right, or the node is
  -- the last one and the two are equal.
  abbrev pub Place : List Hash → ℕ → Walk → Type 0
  Place layer idx w =
      (w.current ≡ node_at layer idx)
      × (idx < length layer)
      × (((w.index ≡ idx) × (w.remaining + 1 ≡ length layer))
          ⊎ ((idx + 1 ≡ length layer) × (w.index ≡ w.remaining)))

  -- The walk stands at the root.
  abbrev pub AtRoot : Hash → Walk → Type 0
  AtRoot root w = (w.current ≡ root) × (w.index ≡ w.remaining)

  -- A left sibling.
  pub step_left :
      (layer : List Hash) (k : ℕ) (w : Walk)
      → k % 2 ≡ 0
      → Place layer (suc k) w
      → Place (next_layer c layer) (suc k / 2) (step c (node_at layer k) w)
  step_left layer k w even (here, below, place) =
      let half : suc k / 2 ≡ k / 2 = omega (arith, even) in
      let parent = next_layer-odd c layer k even (omega (arith, below)) in
      let left : ((w.index % 2 == 1) || (w.index == w.remaining)) ≡ true = elim place [
        | inl (i, r) ↦ ground (arith, i, even)
        | inr (l, same) ↦ ground (arith, same)
      ] in
      (
        rw (half, parent, left, here) refl,
        omega (arith, below, length-next_layer c layer),
        elim place [
          | inl (i, r) ↦ inl (omega (arith, i), omega (arith, r, length-next_layer c layer))
          | inr (l, same) ↦ inr (omega (arith, l, even, length-next_layer c layer), rw same refl)
        ],
      )

  -- A right sibling.
  pub step_right :
      (layer : List Hash) (k : ℕ) (w : Walk)
      → k % 2 ≡ 0
      → k + 1 < length layer
      → Place layer k w
      → Place (next_layer c layer) (k / 2) (step c (node_at layer (suc k)) w)
  step_right layer k w even inner (here, below, inr (last, same)) =
      absurd (omega (arith, inner, last))
  step_right layer k w even inner (here, below, inl (i, r)) =
      let parent = next_layer-odd c layer k even inner in
      let right : ((w.index % 2 == 1) || (w.index == w.remaining)) ≡ false =
        ground (arith, i, r, even, inner) in
      (
        rw (parent, right, here) refl,
        omega (arith, below, length-next_layer c layer),
        inl (omega (arith, i), omega (arith, r, length-next_layer c layer)),
      )

  -- A promotion.
  pub step_up :
      (layer : List Hash) (k : ℕ) (w : Walk)
      → k % 2 ≡ 0
      → k + 1 ≡ length layer
      → Place layer k w
      → Place (next_layer c layer) (k / 2) w
  step_up layer k w even last (here, below, place) = (
    here ∙ sym (next_layer-last c layer k even last),
    omega (arith, below, length-next_layer c layer),
    inr (
      omega (arith, last, even, length-next_layer c layer),
      elim place [ inl (i, r) ↦ omega (arith, i, r, last) | inr (l, same) ↦ same ],
    ),
  )

  pub siblings_left :
      (layer : List Hash) (k : ℕ) → k % 2 ≡ 0 → siblings layer (suc k) ≡ node_at layer k ∷ []
  siblings_left layer k even =
      let odd : (suc k % 2 == 1) ≡ true = ground (arith, even) in
      let back : suc k - 1 ≡ k = omega arith in rw (odd, back) refl

  pub siblings_right :
      (layer : List Hash) (k : ℕ)
      → k % 2 ≡ 0
      → k + 1 < length layer
      → siblings layer k ≡ node_at layer (suc k) ∷ []
  siblings_right layer k even inner =
      let even' : (k % 2 == 1) ≡ false = ground (arith, even) in
      let within : ltb (k + 1) (length layer) ≡ true = ground (arith, inner) in
      let next : k + 1 ≡ suc k = omega arith in rw (even', within) (rw next refl)

  pub siblings_none :
      (layer : List Hash) (k : ℕ) → k % 2 ≡ 0 → k + 1 ≡ length layer → siblings layer k ≡ []
  siblings_none layer k even last =
      let even' : (k % 2 == 1) ≡ false = ground (arith, even) in
      let beyond : ltb (k + 1) (length layer) ≡ false = ground (arith, last) in
      rw (even', beyond) refl

  pub build-next :
      (fuel : ℕ) (layer : List Hash) (idx : ℕ) (first : List Hash) (root : Hash) (proof : List Hash)
      → 1 < length layer
      → siblings layer idx ≡ first
      → build c fuel (next_layer c layer) (idx / 2) ≡ some (root, proof)
      → build c (suc fuel) layer idx ≡ some (root, first ++ proof)
  unfolding build
  build-next fuel layer idx first root proof many same rest =
      let more : ltb 1 (length layer) ≡ true = ground (arith, many) in rw (more, rest, same) refl

  pub data Turn (layer : List Hash) (idx : ℕ) : Type 0 where
    left : (k : ℕ) → k % 2 ≡ 0 → idx ≡ suc k → Turn layer idx
    right : idx % 2 ≡ 0 → idx + 1 < length layer → Turn layer idx
    up : idx % 2 ≡ 0 → idx + 1 ≡ length layer → Turn layer idx

  pub turn : (layer : List Hash) (idx : ℕ) → idx < length layer → Turn layer idx
  turn layer zero h = elim (Bool-cases (ltb 1 (length layer))) [
    | inl inner ↦ right (omega arith) (ground arith)
    | inr last ↦ up (omega arith) (ground arith)
  ]
  turn layer (suc k) h = elim (Bool-cases (k % 2 == 0)) [
    | inl even ↦ left k (ground arith) refl
    | inr odd ↦ elim (Bool-cases (ltb (suc k + 1) (length layer))) [
      | inl inner ↦ right (ground arith) (ground arith)
      | inr last ↦ up (ground arith) (ground arith)
    ]
  ]
