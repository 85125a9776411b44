-- ===== src/Merkle/Sparse.antt =====
-- data-structures/merkle.go, the sparse Merkle tree. The Go map is a function from its keys; the
-- strings that Sprintf makes of a level and a key are longer than a key, so the two kinds differ.
pub mod Bits
pub mod Sets
pub mod Laws
use go_algorithm_practice.Prelude.{
  ℕ, zero, suc, ◌+◌, ◌-◌, ◌*◌, ◌/◌, ◌%◌, ◌^◌, Bool, true, false, not, ◌&&◌, Option, none, some,
  List, [], ◌∷◌, ◌++◌, if◌then◌else◌, ◌==◌, length, get_or, set,
}
use go_algorithm_practice.Merkle.{Bytes, MerkleProof, bytes_equal, hash_pair}

pub data NodeKey : Type 0 where
  stored : Bytes → NodeKey
  at_level : ℕ → Bytes → NodeKey

abbrev pub same_key : NodeKey → NodeKey → Bool
same_key (stored a) (stored b) = bytes_equal a b
same_key (stored a) (at_level m b) = false
same_key (at_level n a) (stored b) = false
same_key (at_level n a) (at_level m b) = (n == m) && bytes_equal a b

pub data KeyError : Type 0 where
  nil_key : KeyError
  invalid_length : KeyError
  not_found : KeyError

pub data Result {ℓ} (A : Type ℓ) : Type ℓ where
  ok : A → Result A
  failed : KeyError → Result A

-- The default hashes are `default_hash` of the levels up to the depth.
pub record SparseMerkleTree : Type 0 where
  pub root : Bytes
  pub depth : ℕ
  pub nodes : NodeKey → Option Bytes

unfoldable pub put_key : (NodeKey → Option Bytes) → NodeKey → Bytes → NodeKey → Option Bytes
put_key nodes k v j = if same_key j k then some v else nodes j

-- validateKey; a nil key is `none`.
unfoldable pub validate_key : SparseMerkleTree → Option Bytes → Option KeyError
validate_key t none = some nil_key
validate_key t (some key) = if length key == (t.depth + 7) / 8 then none else some invalid_length

-- The bit `1 << bitIdx` of a byte.
abbrev pub bit_of : ℕ → ℕ
bit_of pos = 2 ^ (7 - pos % 8)

unfoldable pub is_right_child : Bytes → ℕ → Bool
is_right_child key pos = (get_or key (pos / 8) 0 / bit_of pos) % 2 == 1

-- `b ^ w`, for one bit `w`.
unfoldable pub flip_byte : ℕ → ℕ → ℕ
flip_byte b w = if (b / w) % 2 == 1 then b - w else b + w

unfoldable pub flip_bit : Bytes → ℕ → Bytes
unfolding flip_byte
flip_bit key pos = set key (pos / 8) (flip_byte (get_or key (pos / 8) 0) (bit_of pos))

unfoldable pub get : SparseMerkleTree → Option Bytes → Result Bytes
unfolding validate_key
get t none = failed nil_key
get t (some key) = elim (validate_key t (some key)) [
  | some e ↦ failed e
  | none ↦ elim (t.nodes (stored key)) [ none ↦ failed not_found | some val ↦ ok val ]
]

unfoldable pub set_node_hash : SparseMerkleTree → ℕ → Bytes → Bytes → SparseMerkleTree
unfolding put_key
set_node_hash t level key hash = record {
  root = t.root;
  depth = t.depth;
  nodes = put_key t.nodes (at_level level key) hash;
}

module _ (sha256 : Bytes → Bytes) where
  unfoldable pub default_hash : ℕ → Bytes
  default_hash zero = sha256 []
  default_hash (suc level) = hash_pair sha256 (default_hash level) (default_hash level)

  unfoldable pub new_sparse_merkle_tree : ℕ → SparseMerkleTree
  unfolding default_hash
  new_sparse_merkle_tree depth = record {
    root = default_hash depth;
    depth = depth;
    nodes = λ k. none;
  }

  unfoldable pub get_node_hash : SparseMerkleTree → ℕ → Bytes → Bytes
  unfolding default_hash
  get_node_hash t level key = elim (t.nodes (at_level level key)) [
    | some val ↦ val
    | none ↦ default_hash level
  ]

  unfoldable pub get_sibling_hash : SparseMerkleTree → ℕ → Bytes → Bytes
  unfolding get_node_hash flip_bit
  get_sibling_hash t level key = get_node_hash t level (flip_bit key (t.depth - 1 - level))

  -- The loop of Set, with `left` rounds to go from the level `i`.
  unfoldable pub set_loop : ℕ → ℕ → SparseMerkleTree → Bytes → Bytes → Bytes × SparseMerkleTree
  unfolding is_right_child get_sibling_hash set_node_hash
  set_loop zero i t key computed_hash = (computed_hash, t)
  set_loop (suc left) i t key computed_hash =
      let is_right = is_right_child key (t.depth - 1 - i) in
      let sibling_hash = get_sibling_hash t i key in
      let new_hash =
        if is_right
        then hash_pair sha256 sibling_hash computed_hash
        else hash_pair sha256 computed_hash sibling_hash in
      set_loop left (i + 1) (set_node_hash t (i + 1) key new_hash) key new_hash

  unfoldable pub set_value : SparseMerkleTree → Bytes → Bytes → SparseMerkleTree
  unfolding put_key set_node_hash set_loop
  set_value t key value =
      let t1 : SparseMerkleTree = record {
        root = t.root;
        depth = t.depth;
        nodes = put_key t.nodes (stored key) value;
      } in
      let current_hash = sha256 value in
      let (root, t2) = set_loop t.depth 0 (set_node_hash t1 0 key current_hash) key current_hash in
      record { root = root; depth = t2.depth; nodes = t2.nodes }

  unfoldable pub set_key : SparseMerkleTree → Option Bytes → Bytes → Result SparseMerkleTree
  unfolding validate_key set_value
  set_key t none value = failed nil_key
  set_key t (some key) value = elim (validate_key t (some key)) [
    | some e ↦ failed e
    | none ↦ ok (set_value t key value)
  ]

  -- The loop of GenerateProof.
  unfoldable pub collect : ℕ → ℕ → SparseMerkleTree → Bytes → List Bytes × List Bool
  unfolding is_right_child get_sibling_hash
  collect zero level t key = ([], [])
  collect (suc left) level t key =
      let (siblings, bits) = collect left (level + 1) t key in
      (
        get_sibling_hash t level key ∷ siblings,
        not (is_right_child key (t.depth - 1 - level)) ∷ bits,
      )

  unfoldable pub generate_proof : SparseMerkleTree → Option Bytes → Result MerkleProof
  unfolding validate_key get_node_hash collect
  generate_proof t none = failed nil_key
  generate_proof t (some key) = elim (validate_key t (some key)) [
    | some e ↦ failed e
    | none ↦
        let (siblings, bits) = collect t.depth 0 t key in
        ok (record {
          siblings = siblings;
          path_bits = bits;
          leaf_hash = get_node_hash t 0 key;
          root_hash = t.root;
        })
  ]
