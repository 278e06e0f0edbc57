-- ===== src/Scitt/Merkle.antt =====
-- crates/ans-verify/src/scitt/merkle.rs: inclusion proofs of RFC 9162. SHA-256 is the crate sha2.
-- A `while` loop that halves a number runs on fuel; it answers `none` when that is used up.
pub mod Tree
pub mod Promotion
pub mod Places
pub mod Inclusion
pub mod Binding
use ans_sdk_rust.Prelude.{
  ℕ, zero, suc, ◌-◌, ◌/◌, ◌%◌, ◌==◌, ◌||◌, Bool, List, [], ◌∷◌, ◌++◌, Option, none, some,
  if◌then◌else◌, ltb, leb, length,
}
use ans_sdk_rust.Error.{Result, ok, err, ScittError, invalid_merkle_proof, merkle_root_mismatch}
use ans_sdk_rust.Prelude.{◌=t◌}
use ans_sdk_rust.Types.Fingerprint.{Crypto}

-- A SHA-256 digest.
abbrev pub Hash : Type 0
Hash = List ℕ

abbrev pub max_hash_path_len : ℕ
max_hash_path_len = 63

-- Where the walk stands.
pub record Walk : Type 0 where
  pub current : Hash
  pub index : ℕ
  pub remaining : ℕ

-- The loop over the promotions that follow the path: the index where it ends.
unfoldable pub promote : ℕ → ℕ → ℕ → Option (Result ScittError ℕ)
promote zero index remaining = if remaining == 0 then some (ok index) else none
promote (suc fuel) index remaining =
    let rest = promote fuel (index / 2) (remaining / 2) in
    if remaining == 0
    then some (ok index)
    else if index == remaining
    then rest
    else some (err invalid_merkle_proof)

abbrev pub at_root : Hash → Result ScittError ℕ → Result ScittError Hash
at_root current (err e) = err e
at_root current (ok index) = if index == 0 then ok current else err invalid_merkle_proof

abbrev pub map_some {ℓ κ} : {A : Type ℓ} {B : Type κ} → (A → B) → Option A → Option B
map_some f none = none
map_some f (some a) = some (f a)

module _ (c : Crypto) where
  unfoldable pub compute_leaf_hash : List ℕ → Hash
  compute_leaf_hash event_bytes = c.sha256 (0 ∷ event_bytes)

  unfoldable pub compute_node_hash : Hash → Hash → Hash
  compute_node_hash left right = c.sha256 (1 ∷ (left ++ right))

  abbrev pub step : Hash → Walk → Walk
  step sibling w = record {
    current =
        if (w.index % 2 == 1) || (w.index == w.remaining)
        then compute_node_hash sibling w.current
        else compute_node_hash w.current sibling;
    index = w.index / 2;
    remaining = w.remaining / 2;
  }

  -- The loop over the hash path.
  unfoldable pub climb : Walk → List Hash → Walk
  climb w [] = w
  climb w (sibling ∷ path) = climb (step sibling w) path

  abbrev pub walk_end : ℕ → Walk → Option (Result ScittError Hash)
  walk_end fuel w = map_some (at_root w.current) (promote fuel w.index w.remaining)

  -- The fuel is the tree's size.
  unfoldable pub walk_inclusion_path : List ℕ → ℕ → ℕ → List Hash → Option (Result ScittError Hash)
  unfolding climb promote
  walk_inclusion_path event_bytes leaf_index tree_size hash_path =
      if tree_size == 0
      then some (err invalid_merkle_proof)
      else if leb tree_size leaf_index
      then some (err invalid_merkle_proof)
      else if ltb max_hash_path_len (length hash_path)
      then some (err invalid_merkle_proof)
      else walk_end tree_size (
          climb
            (record {
              current = compute_leaf_hash event_bytes;
              index = leaf_index;
              remaining = tree_size - 1;
            })
            hash_path)

  abbrev compare_root : Hash → Result ScittError Hash → Result ScittError (Unit {0})
  compare_root expected_root (err e) = err e
  compare_root expected_root (ok computed) =
      if computed =t expected_root then ok tt else err merkle_root_mismatch

  unfoldable pub verify_merkle_inclusion :
      List ℕ → ℕ → ℕ → List Hash → Hash → Option (Result ScittError (Unit {0}))
  unfolding walk_inclusion_path
  verify_merkle_inclusion event_bytes leaf_index tree_size hash_path expected_root =
      map_some (compare_root expected_root)
        (walk_inclusion_path event_bytes leaf_index tree_size hash_path)
