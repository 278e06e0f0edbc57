-- ===== src/Scitt/Merkle/Inclusion.antt =====
-- That the walk accepts every leaf's proof.
use ans_sdk_rust.Prelude.{
  ℕ, zero, suc, ◌-◌, ◌/◌, ◌^◌, ◌≤◌, ◌<◌, ◌==◌, ◌≡◌, refl, sym, false, List, [], ◌∷◌, map, some, ltb,
  leb, length, length-map, get_or, Bool-cases, inl, inr, arith, =t_self,
}
use ans_sdk_rust.Error.{ok}
use ans_sdk_rust.Types.Fingerprint.{Crypto}
use ans_sdk_rust.Scitt.Merkle.{
  Hash, Walk, compute_leaf_hash, step, promote, climb, walk_inclusion_path, max_hash_path_len,
  verify_merkle_inclusion,
}
use ans_sdk_rust.Scitt.Merkle.Promotion.{promote_right, climb-remaining}
use ans_sdk_rust.Scitt.Merkle.Tree.{
  node_at, siblings, next_layer, build, build_tree_and_proof, build-length, length-next_layer,
}
use ans_sdk_rust.Scitt.Merkle.Places.{
  Place, AtRoot, step_left, step_right, step_up, siblings_left, siblings_right, siblings_none,
  build-next, turn, left, right, up,
}

module _ (c : Crypto) where
  -- The proof that is built from the layer leads the walk to the root that is built.
  Leads : ℕ → List Hash → ℕ → Walk → Type 0
  Leads fuel layer idx w =
      (root : Hash) × ((proof : List Hash) × ((build c fuel layer idx ≡ some (root, proof))
          × AtRoot c root (climb c w proof)))

  single-Place :
      (layer : List Hash) (idx : ℕ) (w : Walk)
      → length layer ≤ 1
      → Place c layer idx w
      → AtRoot c (node_at layer 0) w
  single-Place layer zero w one (here, below, place) =
      (here, elim place [ inl (i, r) ↦ omega (arith, i, r, one) | inr (l, same) ↦ same ])
  single-Place layer (suc k) w one (here, below, place) = absurd (omega (arith, one, below))

  leads :
      (fuel : ℕ) (layer : List Hash) (idx : ℕ) (w : Walk)
      → length layer ≤ fuel
      → Place c layer idx w
      → Leads fuel layer idx w
  unfolding Leads climb build
  leads zero layer idx w h (here, below, place) = absurd (omega (arith, h, below))
  leads (suc fuel) layer idx w h p = elim (Bool-cases (ltb 1 (length layer))) [
    | inr one ↦
        (node_at layer 0, ([], (rw (one, build) refl, single-Place layer idx w (ground arith) p)))
    | inl many ↦
        let many' : 1 < length layer = ground arith in
        let enough : length (next_layer c layer) ≤ fuel =
          omega (arith, h, many', length-next_layer c layer) in
        elim (turn c layer idx p.1) [
          | left k even e ↦
              let s = node_at layer k in
              let place : Place c (next_layer c layer) (idx / 2) (step c s w) =
                rw e (step_left c layer k w even (rw e at p)) in
              let first : siblings layer idx ≡ s ∷ [] = rw e (siblings_left c layer k even) in
              let (root, (proof, (built, at))) =
                leads fuel (next_layer c layer) (idx / 2) (step c s w) enough place in
              (
                root,
                (
                  s ∷ proof,
                  (build-next c fuel layer idx (s ∷ []) root proof many' first built, at),
                ),
              )
          | right even inner ↦
              let s = node_at layer (suc idx) in
              let (root, (proof, (built, at))) =
                leads fuel (next_layer c layer) (idx / 2) (step c s w) enough
                  (step_right c layer idx w even inner p) in
              (
                root,
                (
                  s ∷ proof,
                  (
                    build-next c fuel layer idx (s ∷ []) root proof many'
                        (siblings_right c layer idx even inner) built,
                    at,
                  ),
                ),
              )
          | up even last ↦
              let (root, (proof, (built, at))) =
                leads fuel (next_layer c layer) (idx / 2) w enough
                  (step_up c layer idx w even last p) in
              (
                root,
                (
                  proof,
                  (
                    build-next c fuel layer idx [] root proof many'
                        (siblings_none c layer idx even last) built,
                    at,
                  ),
                ),
              )
        ]
  ]

  node_at-map :
      (events : List (List ℕ)) (i : ℕ)
      → i < length events
      → node_at (map (compute_leaf_hash c) events) i ≡ compute_leaf_hash c (get_or events i [])
  node_at-map [] i h = absurd (omega (arith, h))
  node_at-map (e ∷ es) zero h = refl
  node_at-map (e ∷ es) (suc i) h = node_at-map es i (omega (arith, h))

  walk-accepts :
      (event : List ℕ) (i n : ℕ) (path : List Hash) (root : Hash)
      → i < n
      → length path ≤ max_hash_path_len
      → AtRoot c root (
          climb c
            (record { current = compute_leaf_hash c event; index = i; remaining = n - 1 })
            path)
      → walk_inclusion_path c event i n path ≡ some (ok root)
  unfolding walk_inclusion_path
  walk-accepts event i n path root below short (current, same) =
      let start : Walk = record {
        current = compute_leaf_hash c event;
        index = i;
        remaining = n - 1;
      } in
      let end = climb c start path in
      let a : (n == 0) ≡ false = ground (arith, below) in
      let b : leb n i ≡ false = ground (arith, below) in
      let d : ltb max_hash_path_len (length path) ≡ false = ground (arith, short) in
      let fits : end.remaining ≤ n = omega (arith, climb-remaining c start path, below) in
      let done : promote n end.index end.remaining ≡ some (ok 0) =
        rw same (promote_right n end.remaining fits) in
      rw (a, b, d, done, current) refl

  -- The tree over at most 2^63 events gives, for each of them, a proof with which the walk accepts
  -- the event, at its position and for the number of events, and computes the root of the tree.
  pub walk_accepts_every_proof :
      (events : List (List ℕ)) (i : ℕ)
      → i < length events
      → length events ≤ 2 ^ max_hash_path_len
      → (root : Hash) × ((proof : List Hash) × ((build_tree_and_proof c events i
              ≡ some (root, proof))
            × (verify_merkle_inclusion c (get_or events i []) i (length events) proof root
                ≡ some (ok tt))))
  unfolding build_tree_and_proof verify_merkle_inclusion Leads
  walk_accepts_every_proof events i below small =
      let layer = map (compute_leaf_hash c) events in
      let size : length layer ≡ length events = length-map events (compute_leaf_hash c) in
      let start : Walk = record {
        current = compute_leaf_hash c (get_or events i []);
        index = i;
        remaining = length events - 1;
      } in
      let (root, (proof, (built, arrived))) =
        leads (length events) layer i start (omega (arith, size)) (
          sym (node_at-map events i below),
          omega (arith, size, below),
          inl (refl, omega (arith, size, below)),
        ) in
      let short =
        build-length c (length events) layer i max_hash_path_len root proof (rw size small) built in
      (
        root,
        (
          proof,
          (
            built,
            rw (walk-accepts (get_or events i []) i (length events) proof root below short arrived)
                (ground (arith, =t_self root)),
          ),
        ),
      )
