-- ===== src/Merkle/Sparse/Sets.antt =====
-- What Set does to the nodes of the sparse Merkle tree of data-structures/merkle.go.
use go_algorithm_practice.Prelude.{
  ℕ, zero, suc, ◌+◌, ◌-◌, ◌/◌, ◌≤◌, ◌<◌, ◌≡◌, refl, sym, ap, ◌∙◌, arith, subst, false, not, inl,
  inr, some, if◌then◌else◌, length, Bool-cases,
}
use go_algorithm_practice.Merkle.{Bytes, bytes_equal, hash_pair, recompute}
use go_algorithm_practice.Merkle.Proofs.{bytes_equal_refl}
use go_algorithm_practice.Merkle.Sparse.{
  stored, at_level, SparseMerkleTree, put_key, is_right_child, flip_bit, get_node_hash,
  set_node_hash, get_sibling_hash, set_loop, set_value, collect,
}
use go_algorithm_practice.Merkle.Sparse.Bits.{flip_bit-other}

module _ (sha256 : Bytes → Bytes) (key : Bytes) where
  -- What the loop of Set leaves as it is.
  record Kept (i : ℕ) (t t' : SparseMerkleTree) : Type 0 where
    depth : t'.depth ≡ t.depth
    values : (j : Bytes) → t'.nodes (stored j) ≡ t.nodes (stored j)
    others :
        (level : ℕ) (j : Bytes)
        → bytes_equal j key ≡ false
        → t'.nodes (at_level level j) ≡ t.nodes (at_level level j)
    below :
        (level : ℕ) (j : Bytes)
        → level ≤ i
        → t'.nodes (at_level level j) ≡ t.nodes (at_level level j)

  set_node_hash-Kept :
      (i : ℕ) (t : SparseMerkleTree) (hash : Bytes) → Kept i t (set_node_hash t (i + 1) key hash)
  unfolding set_node_hash put_key
  set_node_hash-Kept i t hash = record {
    depth = refl;
    values = λ j. refl;
    others = λ level j e. ground arith;
    below = λ level j le. ground arith;
  }

  set_loop-Kept :
      (left i : ℕ) (t : SparseMerkleTree) (hash : Bytes)
      → Kept i t (set_loop sha256 left i t key hash).1
  unfolding set_loop
  set_loop-Kept zero i t hash = record {
    depth = refl;
    values = λ j. refl;
    others = λ l j e. refl;
    below = λ l j le. refl;
  }
  set_loop-Kept (suc left) i t hash =
      let sibling_hash = get_sibling_hash sha256 t i key in
      let new_hash =
        if is_right_child key (t.depth - 1 - i)
        then hash_pair sha256 sibling_hash hash
        else hash_pair sha256 hash sibling_hash in
      let t1 = set_node_hash t (i + 1) key new_hash in
      let first = set_node_hash-Kept i t new_hash in
      let rest = set_loop-Kept left (i + 1) t1 new_hash in
      record {
        depth = rest.depth ∙ first.depth;
        values = λ j. rest.values j ∙ first.values j;
        others = λ level j e. rest.others level j e ∙ first.others level j e;
        below = λ level j le. rest.below level j (omega arith) ∙ first.below level j le;
      }

  -- The same depth, and the same nodes of other keys.
  abbrev pub SameOthers : SparseMerkleTree → SparseMerkleTree → Type 0
  SameOthers t t' =
      (t'.depth ≡ t.depth)
      × ((level : ℕ) (j : Bytes)
          → bytes_equal j key ≡ false
          → t'.nodes (at_level level j) ≡ t.nodes (at_level level j))

  -- The siblings of the key's nodes are nodes of other keys.
  sibling_kept :
      (level : ℕ) (t t' : SparseMerkleTree)
      → SameOthers t t'
      → (t.depth - 1 - level) / 8 < length key
      → get_sibling_hash sha256 t' level key ≡ get_sibling_hash sha256 t level key
  unfolding get_sibling_hash get_node_hash
  sibling_kept level t t' (depth, others) inside =
      let other = flip_bit-other key (t.depth - 1 - level) inside in
      rw (depth, others level (flip_bit key (t.depth - 1 - level)) other) refl

  -- A round of the loop of Set, and of the loop of VerifyProof.
  round_up : (t : SparseMerkleTree) (i : ℕ) (hash : Bytes) → Bytes
  round_up t i hash =
      if is_right_child key (t.depth - 1 - i)
      then hash_pair sha256 (get_sibling_hash sha256 t i key) hash
      else hash_pair sha256 hash (get_sibling_hash sha256 t i key)

  round_kept :
      (t t' : SparseMerkleTree) (i : ℕ) (hash : Bytes)
      → SameOthers t t'
      → (t.depth - 1 - i) / 8 < length key
      → (if not (is_right_child key (t'.depth - 1 - i))
          then hash_pair sha256 hash (get_sibling_hash sha256 t' i key)
          else hash_pair sha256 (get_sibling_hash sha256 t' i key) hash)
        ≡ round_up t i hash
  unfolding round_up
  round_kept t t' i hash k inside =
      rw (sibling_kept i t t' k inside, k.0)
        (elim (Bool-cases (is_right_child key (t.depth - 1 - i))) [
          | inl e ↦ rw e refl
          | inr e ↦ rw e refl
        ])

  -- From any level on, the collected siblings lead to the hash that the loop ends with.
  pub recompute-collect :
      (left i : ℕ) (t t' : SparseMerkleTree) (hash : Bytes)
      → SameOthers t t'
      → ((level : ℕ) → (t.depth - 1 - level) / 8 < length key)
      → recompute sha256 hash (collect sha256 left i t' key).0 (collect sha256 left i t' key).1
        ≡ (set_loop sha256 left i t key hash).0
  unfolding set_loop collect recompute round_up
  recompute-collect zero i t t' hash k inside = refl
  recompute-collect (suc left) i t t' hash k inside =
      let new_hash = round_up t i hash in
      let t1 = set_node_hash t (i + 1) key new_hash in
      let first = set_node_hash-Kept i t new_hash in
      let later : SameOthers t1 t' =
        (k.0 ∙ sym first.depth, λ level j e. k.1 level j e ∙ sym (first.others level j e)) in
      ap
        (λ b.
          recompute sha256 b (collect sha256 left (i + 1) t' key).0
            (collect sha256 left (i + 1) t' key).1)
        (round_kept t t' i hash k (inside i))
      ∙ recompute-collect left (i + 1) t1 t' new_hash later
          (subst (λ d. (level : ℕ) → (d - 1 - level) / 8 < length key) (sym first.depth) inside)

  pub length-collect :
      (left i : ℕ) (t : SparseMerkleTree)
      → length (collect sha256 left i t key).0 ≡ length (collect sha256 left i t key).1
  unfolding collect
  length-collect zero i t = refl
  length-collect (suc left) i t = ap suc (length-collect left (i + 1) t)

  get_node_hash-some :
      (t : SparseMerkleTree) (level : ℕ) (j v : Bytes)
      → t.nodes (at_level level j) ≡ some v
      → get_node_hash sha256 t level j ≡ v
  unfolding get_node_hash
  get_node_hash-some t level j v e = rw (e, get_node_hash) refl

  -- The tree after Set.
  module _ (t : SparseMerkleTree) (value : Bytes) where
    abbrev pub after : SparseMerkleTree
    after = set_value sha256 t key value

    abbrev pub prepared : SparseMerkleTree
    prepared =
        set_node_hash
          (record { root = t.root; depth = t.depth; nodes = put_key t.nodes (stored key) value }) 0
          key (sha256 value)

    pub after_depth : after.depth ≡ t.depth
    unfolding set_value set_node_hash
    after_depth = (set_loop-Kept t.depth 0 prepared (sha256 value)).depth

    pub after_stored :
        (j : Bytes)
        → after.nodes (stored j) ≡ (if bytes_equal j key then some value else t.nodes (stored j))
    unfolding set_value set_node_hash put_key
    after_stored j = (set_loop-Kept t.depth 0 prepared (sha256 value)).values j

    prepared_leaf : prepared.nodes (at_level 0 key) ≡ some (sha256 value)
    unfolding set_node_hash put_key
    prepared_leaf = let self = bytes_equal_refl key in rw self refl

    pub after_leaf : get_node_hash sha256 after 0 key ≡ sha256 value
    unfolding set_value
    after_leaf =
        let k = (set_loop-Kept t.depth 0 prepared (sha256 value)).below 0 key (omega arith) in
        get_node_hash-some after 0 key (sha256 value) (k ∙ prepared_leaf)

    pub after_others : SameOthers prepared after
    unfolding set_value
    after_others = let k = set_loop-Kept t.depth 0 prepared (sha256 value) in (k.depth, k.others)

    pub after_root : after.root ≡ (set_loop sha256 t.depth 0 prepared key (sha256 value)).0
    unfolding set_value
    after_root = refl
