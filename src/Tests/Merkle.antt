-- ===== src/Tests/Merkle.antt =====
-- Inclusion proofs over a toy digest, and over one of fixed length.
use ans_sdk_rust.Prelude.{ℕ, ◌<◌, ◌≡◌, ◌⊎◌, refl, List, [], ◌∷◌, some, length, get_or, arith}
use ans_sdk_rust.Text.{codes}
use ans_sdk_rust.Error.{Result, ok, ScittError}
use ans_sdk_rust.Types.Fingerprint.{Crypto}
use ans_sdk_rust.Scitt.Merkle.{
  Hash, compute_node_hash, walk_inclusion_path, verify_merkle_inclusion,
}
use ans_sdk_rust.Scitt.Merkle.Tree.{build_tree_and_proof}
use ans_sdk_rust.Scitt.Merkle.Inclusion.{walk_accepts_every_proof}
use ans_sdk_rust.Scitt.Merkle.Binding.{
  Collision, walk_binds, walk_inclusion_path_ends, single_leaf_any_path,
}
use ans_sdk_rust.Tests.Data.{plain, digest}

abbrev events : List (List ℕ)
events = codes "a" ∷ codes "b" ∷ codes "c" ∷ []

walk_accepts_every_proof_example :
    (root : Hash) × ((proof : List Hash) × ((build_tree_and_proof plain events 2
          ≡ some (root, proof))
        × (verify_merkle_inclusion plain (get_or events 2 []) 2 (length events) proof root
            ≡ some (ok tt))))
walk_accepts_every_proof_example =
    walk_accepts_every_proof plain events 2 (omega arith) (omega arith)

-- Every input has the same digest of 32 bytes.
abbrev constant : Crypto
constant = record plain { sha256 = λ x. digest }

walk_binds_example :
    (0 < 2)
    × (((codes "a" ≡ codes "a") × (◌≡◌ {A = List Hash} (digest ∷ []) (digest ∷ [])))
        ⊎ Collision constant)
unfolding walk_inclusion_path compute_node_hash
walk_binds_example =
    walk_binds constant (codes "a") (codes "a") 0 2 (digest ∷ []) (digest ∷ []) digest (λ x. refl)
      (refl, tt) (refl, tt) refl refl refl

walk_inclusion_path_ends_example :
    (r : Result ScittError Hash) × (walk_inclusion_path plain (codes "a") 5 7 (digest ∷ [])
      ≡ some r)
walk_inclusion_path_ends_example = walk_inclusion_path_ends plain (codes "a") 5 7 (digest ∷ [])

single_leaf_any_path_example :
    (root : Hash) × (walk_inclusion_path plain (codes "a") 0 1 (digest ∷ digest ∷ [])
      ≡ some (ok root))
single_leaf_any_path_example =
    single_leaf_any_path plain (codes "a") (digest ∷ digest ∷ []) (omega arith)
