-- ===== src/Merkle/Sparse/Laws.antt =====
-- Get and GenerateProof after Set, in the sparse Merkle tree of data-structures/merkle.go.
use go_algorithm_practice.Prelude.{
  ℕ, ◌+◌, ◌-◌, ◌/◌, ◌<◌, ◌≡◌, refl, sym, ap, ◌∙◌, arith, subst, true, inl, inr, none, some,
  if◌then◌else◌, ◌==◌, length, Bool-cases,
}
use go_algorithm_practice.Merkle.{Bytes, MerkleProof, bytes_equal, recompute, verify_proof}
use go_algorithm_practice.Merkle.Proofs.{recompute_filled, verify_recomputed}
use go_algorithm_practice.Merkle.Sparse.{
  stored, SparseMerkleTree, ok, failed, not_found, validate_key, get, get_node_hash, set_node_hash,
  set_value, set_key, collect, generate_proof,
}
use go_algorithm_practice.Merkle.Sparse.Sets.{
  after, prepared, after_depth, after_stored, after_leaf, after_others, after_root,
  recompute-collect, length-collect,
}

-- The length that validateKey asks for.
abbrev pub key_length : SparseMerkleTree → ℕ
key_length t = (t.depth + 7) / 8

valid :
    (t : SparseMerkleTree) (key : Bytes)
    → length key ≡ key_length t
    → validate_key t (some key) ≡ none
unfolding validate_key
valid t key e = let same : (length key == key_length t) ≡ true = ground arith in rw same refl

set_key_valid :
    (sha256 : Bytes → Bytes) (t : SparseMerkleTree) (key value : Bytes)
    → length key ≡ key_length t
    → set_key sha256 t (some key) value ≡ ok (set_value sha256 t key value)
unfolding set_key
set_key_valid sha256 t key value e = rw (valid t key e, set_key) refl

get_valid :
    (t : SparseMerkleTree) (key : Bytes)
    → length key ≡ key_length t
    → get t (some key) ≡ elim (t.nodes (stored key)) [ none ↦ failed not_found | some val ↦ ok val ]
unfolding get
get_valid t key e = rw (valid t key e, get) refl

-- Set of a key of the right length succeeds. Get of this key then returns the value, and Get of any
-- other key of the right length what it did before.
pub get-set_key :
    (sha256 : Bytes → Bytes) (t : SparseMerkleTree) (key value j : Bytes)
    → length key ≡ key_length t
    → length j ≡ key_length t
    → (t' : SparseMerkleTree) × (set_key sha256 t (some key) value ≡ ok t')
      × (get t' (some j) ≡ (if bytes_equal j key then ok value else get t (some j)))
get-set_key sha256 t key value j e e' =
    let t' = after sha256 key t value in
    let depth = after_depth sha256 key t value in
    let now = after_stored sha256 key t value j in
    (
      t',
      set_key_valid sha256 t key value e,
      get_valid t' j (e' ∙ ap (λ d. (d + 7) / 8) (sym depth))
          ∙ rw now (elim (Bool-cases (bytes_equal j key)) [
            | inl same ↦ rw same refl
            | inr other ↦ rw other (sym (get_valid t j e'))
          ]),
    )

generate_proof_valid :
    (sha256 : Bytes → Bytes) (t : SparseMerkleTree) (key : Bytes)
    → length key ≡ key_length t
    → generate_proof sha256 t (some key)
      ≡ ok (record {
        siblings = (collect sha256 t.depth 0 t key).0;
        path_bits = (collect sha256 t.depth 0 t key).1;
        leaf_hash = get_node_hash sha256 t 0 key;
        root_hash = t.root;
      })
unfolding generate_proof
generate_proof_valid sha256 t key e = rw (valid t key e, generate_proof) refl

-- With a hash function whose hashes are not empty: after Set of a key of the right length and a value,
-- in a tree of a depth that is not 0, GenerateProof of the key returns a proof with the hash of the
-- value and the new root, which VerifyProof accepts.
pub generate_proof-set_key :
    (sha256 : Bytes → Bytes)
    → ((b : Bytes) → 0 < length (sha256 b))
    → (t : SparseMerkleTree) (key value : Bytes) → length key ≡ key_length t
    → 0 < t.depth
    → (t' : SparseMerkleTree) × (p : MerkleProof) × (set_key sha256 t (some key) value ≡ ok t')
      × (generate_proof sha256 t' (some key) ≡ ok p)
      × (p.leaf_hash ≡ sha256 value)
      × (p.root_hash ≡ t'.root)
      × (verify_proof sha256 (some p) ≡ true)
unfolding set_node_hash
generate_proof-set_key sha256 filled t key value e deep =
    let t' = after sha256 key t value in
    let depth : t'.depth ≡ t.depth = after_depth sha256 key t value in
    let leaf = after_leaf sha256 key t value in
    let siblings = (collect sha256 t'.depth 0 t' key).0 in
    let bits = (collect sha256 t'.depth 0 t' key).1 in
    let p : MerkleProof = record {
      siblings = siblings;
      path_bits = bits;
      leaf_hash = get_node_hash sha256 t' 0 key;
      root_hash = t'.root;
    } in
    let inside : (level : ℕ) → (t.depth - 1 - level) / 8 < length key = λ level. omega arith in
    let some_leaf : 0 < length p.leaf_hash = rw leaf (filled value) in
    let computed : recompute sha256 p.leaf_hash siblings bits ≡ t'.root =
      ap
        (λ d.
          recompute sha256 p.leaf_hash (collect sha256 d 0 t' key).0 (collect sha256 d 0 t' key).1)
        depth
      ∙ ap
          (λ b.
            recompute sha256 b (collect sha256 t.depth 0 t' key).0
              (collect sha256 t.depth 0 t' key).1)
          leaf
      ∙ (recompute-collect sha256 key t.depth 0 (prepared sha256 key t value) t' (sha256 value)
            (after_others sha256 key t value) inside
          ∙ sym (after_root sha256 key t value)) in
    (
      t',
      p,
      set_key_valid sha256 t key value e,
      generate_proof_valid sha256 t' key (e ∙ ap (λ d. (d + 7) / 8) (sym depth)),
      leaf,
      refl,
      verify_recomputed sha256 p some_leaf
          (subst (λ hash. 0 < length hash) computed
            (recompute_filled sha256 p.leaf_hash siblings bits filled some_leaf))
          (length-collect sha256 key t'.depth 0 t') computed,
    )
