-- ===== src/Scitt/Merkle/Promotion.antt =====
-- That the walk ends.
use ans_sdk_rust.Prelude.{
  ℕ, zero, suc, ◌/◌, ◌≤◌, ◌==◌, ◌≡◌, List, [], ◌∷◌, some, Bool-cases, inl, inr, arith,
}
use ans_sdk_rust.Error.{Result, ok, err, ScittError, invalid_merkle_proof}
use ans_sdk_rust.Types.Fingerprint.{Crypto}
use ans_sdk_rust.Scitt.Merkle.{Hash, Walk, step, promote, climb}

pub promote-ends :
    (fuel index remaining : ℕ)
    → remaining ≤ fuel
    → (r : Result ScittError ℕ) × (promote fuel index remaining ≡ some r)
unfolding promote
promote-ends zero index remaining h = (ok index, ground arith)
promote-ends (suc fuel) index remaining h =
    let (r, e) = promote-ends fuel (index / 2) (remaining / 2) (omega (arith, h)) in
    elim (Bool-cases (remaining == 0)) [
      | inl root ↦ (ok index, ground arith)
      | inr below ↦ elim (Bool-cases (index == remaining)) [
        | inl same ↦ (r, ground arith)
        | inr apart ↦ (err invalid_merkle_proof, ground arith)
      ]
    ]

-- On the right edge of the tree only promotions are left, up to the root.
pub promote_right : (fuel index : ℕ) → index ≤ fuel → promote fuel index index ≡ some (ok 0)
unfolding promote
promote_right zero index h = ground arith
promote_right (suc fuel) index h = ground (arith, promote_right fuel (index / 2))

pub climb-remaining :
    (c : Crypto) (w : Walk) (path : List Hash) → (climb c w path).remaining ≤ w.remaining
unfolding climb
climb-remaining c w [] = omega arith
climb-remaining c w (s ∷ path) = omega (arith, climb-remaining c (step c s w) path)
