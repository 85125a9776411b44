-- ===== src/Merkle/Tests.antt =====
-- Trees under a toy hash, and the theorems at them.
use go_algorithm_practice.Prelude.{
  ℕ, ◌+◌, ◌*◌, ◌%◌, ◌≤◌, ◌<◌, ◌≡◌, refl, arith, Bool, true, false, none, some, List, [], ◌∷◌,
  if◌then◌else◌, length, map,
}
use go_algorithm_practice.Prelude.Int.{pos, negsuc}
use go_algorithm_practice.Merkle.{
  Bytes, MerkleTree, MerkleProof, proof, out_of_bounds, bytes_equal, new_merkle_tree, root_of,
  generate_proof, recompute, verify_proof,
}
use go_algorithm_practice.Merkle.Levels.{merkle_root}
use go_algorithm_practice.Merkle.Proofs.{generate_proof-verify_proof}
use go_algorithm_practice.Merkle.Sparse
use go_algorithm_practice.Merkle.Sparse.{
  put_key, validate_key, is_right_child, flip_byte, flip_bit, default_hash, get_node_hash,
  set_node_hash, get_sibling_hash, set_loop, set_value, collect, Result, ok, failed, not_found,
  SparseMerkleTree, new_sparse_merkle_tree, get, set_key,
}
use go_algorithm_practice.Merkle.Sparse.Laws.{get-set_key, generate_proof-set_key}

-- A hash of one byte.
abbrev mixed : ℕ → Bytes → ℕ
mixed acc [] = acc
mixed acc (b ∷ bs) = mixed ((31 * acc + b) % 256) bs

abbrev toy : Bytes → Bytes
toy bs = mixed 7 bs ∷ []

toy_filled : (b : Bytes) → 0 < length (toy b)
toy_filled b = omega arith

abbrev items : List Bytes
items = (1 ∷ []) ∷ (2 ∷ []) ∷ (3 ∷ []) ∷ []

generate_proof-verify_proof_example :
    (t : MerkleTree) × (new_merkle_tree toy 4 items ≡ some t)
    × (root_of t ≡ merkle_root toy 5 (map toy items))
    × ((n : ℕ) → generate_proof 4 t (negsuc n) ≡ some out_of_bounds)
    × (3 ≤ 2 → generate_proof 4 t (pos 2) ≡ some out_of_bounds)
    × (2 < 3
        → (p : MerkleProof) × (generate_proof 4 t (pos 2) ≡ some (proof p))
          × (p.leaf_hash ≡ toy (3 ∷ []))
          × (p.root_hash ≡ root_of t)
          × (verify_proof toy (some p) ≡ true))
generate_proof-verify_proof_example =
    generate_proof-verify_proof toy toy_filled 4 items 2 (omega arith) (omega arith)

abbrev sample : SparseMerkleTree
sample = record { root = []; depth = 8; nodes = λ k. none }

get-set_key_example :
    (t' : SparseMerkleTree) × (set_key toy sample (some (5 ∷ [])) (9 ∷ 9 ∷ []) ≡ ok t')
    × (get t' (some (6 ∷ []))
        ≡ (if bytes_equal (6 ∷ []) (5 ∷ []) then ok (9 ∷ 9 ∷ []) else get sample (some (6 ∷ []))))
get-set_key_example = get-set_key toy sample (5 ∷ []) (9 ∷ 9 ∷ []) (6 ∷ []) refl refl

generate_proof-set_key_example :
    (t' : SparseMerkleTree) × (p : MerkleProof) × (set_key toy sample (some (5 ∷ [])) (9 ∷ 9 ∷ [])
      ≡ ok t')
    × (Sparse.generate_proof toy t' (some (5 ∷ [])) ≡ ok p)
    × (p.leaf_hash ≡ toy (9 ∷ 9 ∷ []))
    × (p.root_hash ≡ t'.root)
    × (verify_proof toy (some p) ≡ true)
generate_proof-set_key_example =
    generate_proof-set_key toy toy_filled sample (5 ∷ []) (9 ∷ 9 ∷ []) refl (omega arith)

-- Whether the proof of the key 0 is accepted, and the root, after two sets.
abbrev accepted : SparseMerkleTree → Bool
accepted t = elim (Sparse.generate_proof toy t (some (0 ∷ []))) [
  | ok p ↦ verify_proof toy (some p)
  | failed e ↦ false
]

abbrev both : ℕ → ℕ → SparseMerkleTree
both a b = set_value toy (set_value toy sample (a ∷ []) (9 ∷ [])) (b ∷ []) (9 ∷ [])

-- The root depends on the order of two sets, and the second invalidates the proof of the first.
sparse_runs :
    (accepted (set_value toy sample (0 ∷ []) (9 ∷ [])) ≡ true)
    × (accepted (both 0 3) ≡ false)
    × (bytes_equal (both 0 3).root (both 3 0).root ≡ false)
unfolding Sparse.generate_proof validate_key get_node_hash get_sibling_hash default_hash flip_bit
    flip_byte is_right_child set_value set_loop set_node_hash put_key collect verify_proof recompute
sparse_runs = (refl, refl, refl)
