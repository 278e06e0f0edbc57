-- ===== src/Scitt/Merkle/Binding.antt =====
-- That a proof binds the event, and what the walk rejects.
use ans_sdk_rust.Prelude.{
  ℕ, ◌-◌, ◌/◌, ◌%◌, ◌≤◌, ◌<◌, ◌==◌, ◌||◌, ◌≡◌, ◌≢◌, ◌⊎◌, refl, sym, ◌∙◌, Bool, true, false, List,
  [], ◌∷◌, ◌++◌, Option, none, some, if◌then◌else◌, ltb, leb, length, All, Bool-cases, inl, inr,
  arith, =t_iff, ◌=t◌,
}
use ans_sdk_rust.Error.{Result, ok, err, ScittError, invalid_merkle_proof}
use ans_sdk_rust.Types.Fingerprint.{Crypto}
use ans_sdk_rust.Scitt.Merkle.{
  Hash, Walk, compute_leaf_hash, compute_node_hash, promote, climb, walk_end, map_some, at_root,
  walk_inclusion_path, max_hash_path_len,
}
use ans_sdk_rust.Scitt.Merkle.Promotion.{promote-ends, climb-remaining}

-- Two inputs of SHA-256 with one digest.
pub record Collision (c : Crypto) : Type 0 where
  pub first : List ℕ
  pub second : List ℕ
  pub differ : first ≢ second
  pub same : c.sha256 first ≡ c.sha256 second

append-injective :
    (xs ys xs' ys' : List ℕ)
    → length xs ≡ length xs'
    → xs ++ ys ≡ xs' ++ ys'
    → (xs ≡ xs') × (ys ≡ ys')
append-injective [] ys [] ys' n e = (refl, e)
append-injective [] ys (x ∷ xs') ys' n e = absurd (omega (arith, n))
append-injective (x ∷ xs) ys [] ys' n e = absurd (omega (arith, n))
append-injective (x ∷ xs) ys (x' ∷ xs') ys' n e =
    let (a, b) = append-injective xs ys xs' ys' (omega (arith, n)) (ground arith) in
    let d : x ≡ x' = ground arith in ((cc (a, d)), b)

module _ (c : Crypto) where
  -- Equal digests come from equal inputs, or a collision is at hand.
  sha256-binds : (x y : List ℕ) → c.sha256 x ≡ c.sha256 y → (x ≡ y) ⊎ Collision c
  sha256-binds x y e = elim (Bool-cases (x =t y)) [
    | inl same ↦ inl ((=t_iff x y).0 same)
    | inr apart ↦ inr (record {
      first = x;
      second = y;
      differ = λ p. absurd (cc (apart, (=t_iff x y).1 p));
      same = e;
    })
  ]

  node-binds :
      (l r l' r' : Hash)
      → length l ≡ length l'
      → compute_node_hash c l r ≡ compute_node_hash c l' r'
      → ((l ≡ l') × (r ≡ r')) ⊎ Collision c
  unfolding compute_node_hash
  node-binds l r l' r' n e = elim (sha256-binds (1 ∷ (l ++ r)) (1 ∷ (l' ++ r')) e) [
    | inl same ↦ inl (append-injective l r l' r' n (ground arith))
    | inr found ↦ inr found
  ]

  leaf-binds :
      (e e' : List ℕ) → compute_leaf_hash c e ≡ compute_leaf_hash c e' → (e ≡ e') ⊎ Collision c
  unfolding compute_leaf_hash
  leaf-binds e e' h = elim (sha256-binds (0 ∷ e) (0 ∷ e') h) [
    | inl same ↦ inl (ground arith)
    | inr found ↦ inr found
  ]

  -- Digests have one length.
  abbrev IsDigest : Hash → Type 0
  IsDigest h = length h ≡ 32

  join-binds :
      (side : Bool) (x y x' y' : Hash)
      → IsDigest x
      → IsDigest y
      → IsDigest x'
      → IsDigest y'
      → (if side then compute_node_hash c x y else compute_node_hash c y x)
        ≡ (if side then compute_node_hash c x' y' else compute_node_hash c y' x')
      → ((x ≡ x') × (y ≡ y')) ⊎ Collision c
  join-binds true x y x' y' a b a' b' e = node-binds x y x' y' (a ∙ sym a') e
  join-binds false x y x' y' a b a' b' e = elim (node-binds y x y' x' (b ∙ sym b') e) [
    | inl (q, p) ↦ inl (p, q)
    | inr found ↦ inr found
  ]

  IsDigest-node :
      (sized : (x : List ℕ) → IsDigest (c.sha256 x)) (side : Bool) (x y : Hash)
      → IsDigest (if side then compute_node_hash c x y else compute_node_hash c y x)
  unfolding compute_node_hash
  IsDigest-node sized true x y = sized _
  IsDigest-node sized false x y = sized _

  climb-binds :
      (index remaining : ℕ) (current current' : Hash) (path path' : List Hash)
      → length path ≡ length path'
      → ((x : List ℕ) → IsDigest (c.sha256 x))
      → IsDigest current
      → IsDigest current'
      → All IsDigest path
      → All IsDigest path'
      → (climb c (record { current = current; index = index; remaining = remaining }) path).current
        ≡ (climb c
            (record { current = current'; index = index; remaining = remaining })
            path').current
      → ((path ≡ path') × (current ≡ current')) ⊎ Collision c
  unfolding climb
  climb-binds i r x x' [] [] n sized d d' a a' e = inl (refl, e)
  climb-binds i r x x' [] (s' ∷ p') n sized d d' a a' e = absurd (omega (arith, n))
  climb-binds i r x x' (s ∷ p) [] n sized d d' a a' e = absurd (omega (arith, n))
  climb-binds i r x x' (s ∷ p) (s' ∷ p') n sized d d' (b, a) (b', a') e =
      let side = (i % 2 == 1) || (i == r) in
      elim (climb-binds (i / 2) (r / 2) _ _ p p' (omega (arith, n)) sized
        (IsDigest-node sized side s x) (IsDigest-node sized side s' x') a a' e) [
          | inr found ↦ inr found
          | inl (paths, joined) ↦ elim (join-binds side s x s' x' b d b' d' joined) [
            | inl (p, q) ↦ inl (cc (p, paths), q)
            | inr found ↦ inr found
          ]
        ]

  walk_end-current :
      (fuel : ℕ) (w : Walk) (root : Hash) → walk_end c fuel w ≡ some (ok root) → w.current ≡ root
  walk_end-current fuel w root e = go (promote fuel w.index w.remaining) e
    where
      go :
          (end : Option (Result ScittError ℕ))
          → map_some (at_root w.current) end ≡ some (ok root)
          → w.current ≡ root
      go none e = absurd (ground arith)
      go (some (err x)) e = absurd (ground arith)
      go (some (ok i)) e = ground arith

  walk-current :
      (event : List ℕ) (i n : ℕ) (path : List Hash) (root : Hash)
      → walk_inclusion_path c event i n path ≡ some (ok root)
      → (i < n)
        × ((climb c
              (record { current = compute_leaf_hash c event; index = i; remaining = n - 1 })
              path).current
            ≡ root)
  unfolding walk_inclusion_path
  walk-current event i n path root e = elim (Bool-cases (n == 0)) [
    | inl empty ↦ absurd (ground arith)
    | inr full ↦ elim (Bool-cases (leb n i)) [
      | inl outside ↦ absurd (ground arith)
      | inr inside ↦ elim (Bool-cases (ltb max_hash_path_len (length path))) [
        | inl long ↦ absurd (ground arith)
        | inr short ↦
            let start : Walk = record {
              current = compute_leaf_hash c event;
              index = i;
              remaining = n - 1;
            } in
            (
              ground arith,
              walk_end-current n (climb c start path) root
                  (rw (full, inside, short, walk_inclusion_path) at e),
            )
      ]
    ]
  ]

  -- A root binds what a proof is for: if the walk computes one root for two events at the same
  -- position, with paths of the same length, the events and the paths are the same, or two inputs
  -- of SHA-256 with one digest are at hand. The position is within the tree.
  pub walk_binds :
      (event event' : List ℕ) (i n : ℕ) (path path' : List Hash) (root : Hash)
      → ((x : List ℕ) → length (c.sha256 x) ≡ 32)
      → All (λ h. length h ≡ 32) path
      → All (λ h. length h ≡ 32) path'
      → length path ≡ length path'
      → walk_inclusion_path c event i n path ≡ some (ok root)
      → walk_inclusion_path c event' i n path' ≡ some (ok root)
      → (i < n) × (((event ≡ event') × (path ≡ path')) ⊎ Collision c)
  unfolding compute_leaf_hash
  walk_binds event event' i n path path' root sized a a' same e e' =
      let (inside, computed) = walk-current event i n path root e in
      let computed' = (walk-current event' i n path' root e').1 in
      (
        inside,
        elim (climb-binds i (n - 1) (compute_leaf_hash c event) (compute_leaf_hash c event') path
            path' same sized (sized _) (sized _) a a' (computed ∙ sym computed')) [
              | inr found ↦ inr found
              | inl (paths, leaves) ↦ elim (leaf-binds event event' leaves) [
                | inl events ↦ inl (events, paths)
                | inr found ↦ inr found
              ]
            ],
      )

  -- The walk always ends: the fuel, the size of the tree, suffices for every position and path.
  pub walk_inclusion_path_ends :
      (event : List ℕ) (i n : ℕ) (path : List Hash)
      → (r : Result ScittError Hash) × (walk_inclusion_path c event i n path ≡ some r)
  unfolding walk_inclusion_path
  walk_inclusion_path_ends event i n path =
      let start : Walk = record {
        current = compute_leaf_hash c event;
        index = i;
        remaining = n - 1;
      } in
      let end = climb c start path in
      let (r, e) =
        promote-ends n end.index end.remaining (omega (arith, climb-remaining c start path)) in
      elim (Bool-cases (n == 0)) [
        | inl empty ↦ (err invalid_merkle_proof, ground arith)
        | inr full ↦ elim (Bool-cases (leb n i)) [
          | inl outside ↦ (err invalid_merkle_proof, ground arith)
          | inr inside ↦ elim (Bool-cases (ltb max_hash_path_len (length path))) [
            | inl long ↦ (err invalid_merkle_proof, ground arith)
            | inr short ↦ (at_root end.current r, rw (full, inside, short, e) refl)
          ]
        ]
      ]

  climb_root :
      (current : Hash) (path : List Hash)
      → (h : Hash) × (climb c (record { current = current; index = 0; remaining = 0 }) path
          ≡ record { current = h; index = 0; remaining = 0 })
  unfolding climb
  climb_root current [] = (current, refl)
  climb_root current (s ∷ path) = climb_root (compute_node_hash c s current) path

  -- The walk does not check that siblings are left to be taken: for a tree of one event it
  -- computes a root for every path of at most 63 hashes, not only for the empty one.
  pub single_leaf_any_path :
      (event : List ℕ) (path : List Hash)
      → length path ≤ max_hash_path_len
      → (root : Hash) × (walk_inclusion_path c event 0 1 path ≡ some (ok root))
  unfolding walk_inclusion_path promote
  single_leaf_any_path event path short =
      let (h, e) = climb_root (compute_leaf_hash c event) path in
      let d : ltb max_hash_path_len (length path) ≡ false = ground (arith, short) in
      (h, rw (d, e) refl)
