-- ===== src/Merkle.antt =====
-- data-structures/merkle.go, the Merkle tree. The nodes are in a memory; a pointer is an address, and
-- 0 is nil. The hash function of crypto/sha256 is a parameter.
pub mod Paths
pub mod Grow
pub mod Levels
pub mod Leaves
pub mod Loop
pub mod Proofs
pub mod Sparse
mod Tests
use go_algorithm_practice.Prelude.{
  ℕ, zero, suc, ◌+◌, Bool, true, false, not, ◌&&◌, ◌||◌, Option, none, some, List, [], ◌∷◌, ◌++◌,
  if◌then◌else◌, ◌==◌, ltb, length, get_or,
}
use go_algorithm_practice.Prelude.Int.{ℤ, pos, negsuc}

abbrev pub Bytes : Type 0
Bytes = List ℕ

pub record MerkleNode : Type 0 where
  pub hash : Bytes
  pub left : ℕ
  pub right : ℕ
  pub parent : ℕ

abbrev pub Memory : Type 0
Memory = ℕ → MerkleNode

-- The memory, and the address of the next node that is allocated.
pub record Store : Type 0 where
  pub mem : Memory
  pub fresh : ℕ

pub record MerkleTree : Type 0 where
  pub root : ℕ
  pub leaves : List ℕ
  pub store : Store

pub record MerkleProof : Type 0 where
  pub siblings : List Bytes
  pub path_bits : List Bool
  pub leaf_hash : Bytes
  pub root_hash : Bytes

unfoldable pub put_node : Memory → ℕ → MerkleNode → Memory
put_node h a n b = if b == a then n else h b

-- `a.Parent = p`
abbrev pub set_parent : Memory → ℕ → ℕ → Memory
set_parent h a p =
    put_node h a (record { hash = (h a).hash; left = (h a).left; right = (h a).right; parent = p })

-- bytes.Equal
abbrev pub bytes_equal : Bytes → Bytes → Bool
bytes_equal [] [] = true
bytes_equal [] (y ∷ ys) = false
bytes_equal (x ∷ xs) [] = false
bytes_equal (x ∷ xs) (y ∷ ys) = (x == y) && bytes_equal xs ys

pub data Outcome : Type 0 where
  out_of_bounds : Outcome
  malformed_tree : Outcome
  proof : MerkleProof → Outcome

abbrev pub empty_store : Store
empty_store = record { mem = λ a. record { hash = []; left = 0; right = 0; parent = 0 }; fresh = 1 }

module _ (sha256 : Bytes → Bytes) where
  abbrev pub hash_pair : Bytes → Bytes → Bytes
  hash_pair left right = sha256 (left ++ right)

  -- The leaves of the data, allocated in its order.
  unfoldable pub hash_leaves : Store → List Bytes → List ℕ × Store
  hash_leaves s [] = ([], s)
  hash_leaves s (b ∷ data_left) =
      let leaf : MerkleNode = record { hash = sha256 b; left = 0; right = 0; parent = 0 } in
      let (leaves, s') =
        hash_leaves (record { mem = put_node s.mem s.fresh leaf; fresh = suc s.fresh }) data_left in
      (s.fresh ∷ leaves, s')

  -- The parent gets the next free address.
  unfoldable pub build_parent : Store → ℕ → ℕ → Store
  build_parent s left right =
      let p = s.fresh in
      let node : MerkleNode = record {
        hash = hash_pair (s.mem left).hash (s.mem right).hash;
        left = left;
        right = right;
        parent = 0;
      } in
      record { mem = set_parent (set_parent (put_node s.mem p node) left p) right p; fresh = suc p }

  unfoldable pub build_parent_level : Store → List ℕ → List ℕ × Store
  unfolding build_parent
  build_parent_level s [] = ([], s)
  build_parent_level s (left ∷ []) = (s.fresh ∷ [], build_parent s left left)
  build_parent_level s (left ∷ right ∷ children) =
      let (parents, s') = build_parent_level (build_parent s left right) children in
      (s.fresh ∷ parents, s')

  -- The loop of NewMerkleTree: the last level, of one node.
  unfoldable pub build_levels : ℕ → Store → List ℕ → Option (List ℕ × Store)
  unfolding build_parent_level
  build_levels zero s level = none
  build_levels (suc fuel) s level = elim (ltb 1 (length level)) [
    | false ↦ some (level, s)
    | true ↦ build_levels fuel (build_parent_level s level).1 (build_parent_level s level).0
  ]

  unfoldable pub new_merkle_tree : ℕ → List Bytes → Option MerkleTree
  unfolding hash_leaves build_levels
  new_merkle_tree fuel [] = some (record { root = 0; leaves = []; store = empty_store })
  new_merkle_tree fuel (b ∷ []) =
      let (leaves, s) = hash_leaves empty_store (b ∷ []) in
      some (record { root = get_or leaves 0 0; leaves = leaves; store = s })
  new_merkle_tree fuel (b ∷ c ∷ others) =
      let (leaves, s) = hash_leaves empty_store (b ∷ c ∷ others) in
      let (level, s') = build_parent_level s leaves in
      elim (build_levels fuel s' level) [
        | none ↦ none
        | some (last, s'') ↦ some (record { root = get_or last 0 0; leaves = leaves; store = s'' })
      ]

-- Root; nil is no bytes.
unfoldable pub root_of : MerkleTree → Bytes
root_of t = if t.root == 0 then [] else (t.store.mem t.root).hash

-- The walk of GenerateProof from the node `n`: the siblings and the bits. A read through nil
-- panics.
unfoldable pub walk_up : ℕ → Memory → ℕ → Option (List Bytes × List Bool)
walk_up zero h n = none
walk_up (suc fuel) h n =
    let p = (h n).parent in
    let is_left = n == (h p).left in
    let sibling = if is_left then (h p).right else (h p).left in
    elim (p == 0) [
      | true ↦ some ([], [])
      | false ↦ elim (sibling == 0) [
        | true ↦ none
        | false ↦ elim (walk_up fuel h p) [
          | none ↦ none
          | some (siblings, bits) ↦ some ((h sibling).hash ∷ siblings, is_left ∷ bits)
        ]
      ]
    ]

-- GenerateProof, behind the tests.
unfoldable pub proof_at : ℕ → MerkleTree → ℕ → Option Outcome
unfolding walk_up
proof_at fuel t index =
    let h = t.store.mem in
    let leaf = get_or t.leaves index 0 in
    elim (walk_up fuel h leaf) [
      | none ↦ none
      | some (siblings, bits) ↦ some (
          proof (record {
            siblings = siblings;
            path_bits = bits;
            leaf_hash = (h leaf).hash;
            root_hash = (h t.root).hash;
          }))
    ]

unfoldable pub generate_proof : ℕ → MerkleTree → ℤ → Option Outcome
unfolding proof_at
generate_proof fuel t (negsuc n) = some out_of_bounds
generate_proof fuel t (pos index) =
    if not (ltb index (length t.leaves))
    then some out_of_bounds
    else (if t.root == 0 then some malformed_tree else proof_at fuel t index)

module _ (sha256 : Bytes → Bytes) where
  -- The loop of VerifyProof, over lists of the same length.
  unfoldable pub recompute : Bytes → List Bytes → List Bool → Bytes
  recompute hash [] bits = hash
  recompute hash (sib ∷ siblings) [] = hash
  recompute hash (sib ∷ siblings) (sib_is_right ∷ bits) =
      recompute (if sib_is_right then hash_pair sha256 hash sib else hash_pair sha256 sib hash)
        siblings bits

  -- `none` is a nil pointer.
  unfoldable pub verify_proof : Option MerkleProof → Bool
  unfolding recompute
  verify_proof none = false
  verify_proof (some p) =
      if (length p.leaf_hash == 0)
        || ((length p.root_hash == 0) || not (length p.siblings == length p.path_bits))
      then false
      else bytes_equal (recompute p.leaf_hash p.siblings p.path_bits) p.root_hash
