-- ===== src/Merkle/Proofs.antt =====
-- NewMerkleTree, GenerateProof and VerifyProof of data-structures/merkle.go.
use go_algorithm_practice.Prelude.{
  ℕ, suc, ◌≤◌, ◌<◌, ◌≡◌, ◌≢◌, refl, sym, ap, ◌∙◌, arith, subst, Bool, true, false, not, ◌||◌, some,
  List, [], ◌∷◌, ◌++◌, ◌==◌, ltb, length, map, get_or,
}
use go_algorithm_practice.Prelude.Int.{pos, negsuc}
use go_algorithm_practice.Merkle.{
  Bytes, MerkleTree, MerkleProof, out_of_bounds, proof, bytes_equal, hash_leaves,
  build_parent_level, empty_store, new_merkle_tree, root_of, walk_up, proof_at, generate_proof,
  recompute, verify_proof,
}
use go_algorithm_practice.Merkle.Paths.{PathUp, collected}
use go_algorithm_practice.Merkle.Grow.{Forest}
use go_algorithm_practice.Merkle.Levels.{
  pair_up, merkle_root, hashes, KeepsHashes, hashes_kept, build_parent_level-Paired,
}
use go_algorithm_practice.Merkle.Loop.{level_done, build_levels-Grown}
use go_algorithm_practice.Merkle.Leaves.{
  hash_leaves-Planted, Planted-Forest, get_or-hashes, get_or-has, get_or-map_hash,
}

pub bytes_equal_refl : (b : Bytes) → bytes_equal b b ≡ true
bytes_equal_refl [] = refl
bytes_equal_refl (x ∷ b) = ground (arith, bytes_equal_refl b)

-- The tree of some data: what NewMerkleTree returns.
record Built (sha256 : Bytes → Bytes) (fuel : ℕ) (items : List Bytes) : Type 0 where
  tree : MerkleTree
  built : new_merkle_tree sha256 fuel items ≡ some tree
  levels : ℕ
  forest : Forest sha256 tree.store levels [] (tree.root ∷ []) tree.leaves
  few : levels ≤ length items
  size : length tree.leaves ≡ length items
  hashes_are : hashes tree.store.mem tree.leaves ≡ map sha256 items
  root_is : (tree.store.mem tree.root).hash ≡ merkle_root sha256 (suc fuel) (map sha256 items)

merkle_root_more :
    (sha256 : Bytes → Bytes) (levels : ℕ) (hs : List Bytes)
    → ltb 1 (length hs) ≡ true
    → merkle_root sha256 (suc levels) hs ≡ merkle_root sha256 levels (pair_up sha256 hs)
unfolding merkle_root
merkle_root_more sha256 levels hs e = rw (e, merkle_root) refl

-- Two or more items.
build_several :
    (sha256 : Bytes → Bytes) (fuel : ℕ) (b c : Bytes) (items : List Bytes)
    → length (b ∷ c ∷ items) ≤ fuel
    → Built sha256 fuel (b ∷ c ∷ items)
unfolding new_merkle_tree merkle_root
build_several sha256 fuel b c items enough =
    let all = b ∷ c ∷ items in
    let (leaves, s) = hash_leaves sha256 empty_store all in
    let l = hash_leaves-Planted sha256 all empty_store in
    let size : length leaves ≡ length all = l.size in
    let level =
      build_parent_level-Paired sha256 s 0 [] leaves leaves
        (Planted-Forest sha256 empty_store s all leaves (omega arith) l) in
    let (parents, s') = build_parent_level sha256 s leaves in
    let parents_size = level.size in
    let g =
      build_levels-Grown sha256 fuel s' 1 parents leaves
        (level_done sha256 s' 0 parents leaves level.forest) (omega arith) (omega arith) in
    let (later, same) = level.keeps in
    let (later', same') = g.keeps in
    let kept : KeepsHashes s g.store = (omega arith, λ a lt. same' a (omega arith) ∙ same a lt) in
    record {
      tree = record { root = g.top; leaves = leaves; store = g.store };
      built = rw (g.ended, new_merkle_tree) refl;
      levels = g.levels;
      forest = g.forest;
      few = let n = g.few in omega arith;
      size = size;
      hashes_are = hashes_kept s g.store leaves kept (λ a i. (l.new a i).1) ∙ l.hashes_are;
      root_is =
          g.hash_is
          ∙ ap (merkle_root sha256 fuel) (level.hashes_are ∙ ap (pair_up sha256) l.hashes_are)
          ∙ sym (merkle_root_more sha256 fuel (map sha256 all) (ground arith));
    }

build :
    (sha256 : Bytes → Bytes) (fuel : ℕ) (items : List Bytes)
    → 0 < length items
    → length items ≤ fuel
    → Built sha256 fuel items
unfolding new_merkle_tree merkle_root hash_leaves
build sha256 fuel [] some_item enough = absurd (omega arith)
build sha256 fuel (b ∷ []) some_item enough =
    let (leaves, s) = hash_leaves sha256 empty_store (b ∷ []) in
    let l = hash_leaves-Planted sha256 (b ∷ []) empty_store in
    record {
      tree = record { root = 1; leaves = leaves; store = s };
      built = refl;
      levels = 0;
      forest = Planted-Forest sha256 empty_store s (b ∷ []) leaves (omega arith) l;
      few = omega arith;
      size = refl;
      hashes_are = l.hashes_are;
      root_is = ap (λ hs. get_or hs 0 []) l.hashes_are;
    }
build sha256 fuel (b ∷ c ∷ items) some_item enough = build_several sha256 fuel b c items enough

proof_found :
    (fuel : ℕ) (t : MerkleTree) (index : ℕ) (siblings : List Bytes) (bits : List Bool)
    → index < length t.leaves
    → t.root ≢ 0
    → walk_up fuel t.store.mem (get_or t.leaves index 0) ≡ some (siblings, bits)
    → generate_proof fuel t (pos index)
      ≡ some (
          proof (record {
            siblings = siblings;
            path_bits = bits;
            leaf_hash = (t.store.mem (get_or t.leaves index 0)).hash;
            root_hash = (t.store.mem t.root).hash;
          }))
unfolding generate_proof proof_at
proof_found fuel t index siblings bits lt live e =
    let inside : ltb index (length t.leaves) ≡ true = ground arith in
    let some_root : (t.root == 0) ≡ false = ground arith in
    rw (inside, some_root) (rw (e, proof_at) refl)

pub recompute_filled :
    (sha256 : Bytes → Bytes) (hash : Bytes) (siblings : List Bytes) (bits : List Bool)
    → ((b : Bytes) → 0 < length (sha256 b))
    → 0 < length hash
    → 0 < length (recompute sha256 hash siblings bits)
unfolding recompute
recompute_filled sha256 hash [] bits filled some_hash = some_hash
recompute_filled sha256 hash (sib ∷ siblings) [] filled some_hash = some_hash
recompute_filled sha256 hash (sib ∷ siblings) (true ∷ bits) filled some_hash =
    recompute_filled sha256 (sha256 (hash ++ sib)) siblings bits filled (filled (hash ++ sib))
recompute_filled sha256 hash (sib ∷ siblings) (false ∷ bits) filled some_hash =
    recompute_filled sha256 (sha256 (sib ++ hash)) siblings bits filled (filled (sib ++ hash))

pub verify_recomputed :
    (sha256 : Bytes → Bytes) (p : MerkleProof)
    → 0 < length p.leaf_hash
    → 0 < length p.root_hash
    → length p.siblings ≡ length p.path_bits
    → recompute sha256 p.leaf_hash p.siblings p.path_bits ≡ p.root_hash
    → verify_proof sha256 (some p) ≡ true
unfolding verify_proof
verify_recomputed sha256 p some_leaf some_root same e =
    let well : ((length p.leaf_hash == 0)
          || ((length p.root_hash == 0) || not (length p.siblings == length p.path_bits)))
        ≡ false =
      ground arith in
    rw (well, e) (bytes_equal_refl p.root_hash)

-- With a hash function whose hashes are not empty, NewMerkleTree of some items returns a tree whose
-- root is the hash of the levels above the items' hashes, each level pairing the one below and an odd
-- last hash with itself; GenerateProof of an index in bounds returns a proof with the hash of the item
-- and the root, which VerifyProof accepts, and of a negative index or one that is not less than the
-- number of the items the error for an index out of bounds. The fuel of one more than the number of
-- the items is enough for all loops.
pub generate_proof-verify_proof :
    (sha256 : Bytes → Bytes)
    → ((b : Bytes) → 0 < length (sha256 b))
    → (fuel : ℕ) (items : List Bytes) (index : ℕ) → 0 < length items
    → length items < fuel
    → (t : MerkleTree) × (new_merkle_tree sha256 fuel items ≡ some t)
      × (root_of t ≡ merkle_root sha256 (suc fuel) (map sha256 items))
      × ((n : ℕ) → generate_proof fuel t (negsuc n) ≡ some out_of_bounds)
      × (length items ≤ index → generate_proof fuel t (pos index) ≡ some out_of_bounds)
      × (index < length items
          → (p : MerkleProof) × (generate_proof fuel t (pos index) ≡ some (proof p))
            × (p.leaf_hash ≡ sha256 (get_or items index []))
            × (p.root_hash ≡ root_of t)
            × (verify_proof sha256 (some p) ≡ true))
unfolding root_of generate_proof
generate_proof-verify_proof sha256 filled fuel items index some_item enough =
    let b = build sha256 fuel items some_item (omega arith) in
    let t = b.tree in
    let h = t.store.mem in
    let size = b.size in
    let few = b.few in
    let (root_lt, root_live, root_top) = b.forest.old t.root (ground arith) in
    let some_root : (t.root == 0) ≡ false = ground arith in
    let root : root_of t ≡ (h t.root).hash = rw (some_root, root_of) refl in
    (
      t,
      b.built,
      root ∙ b.root_is,
      λ n. refl,
      λ out.
          let outside : ltb index (length t.leaves) ≡ false = ground arith in
          rw (outside, generate_proof) refl,
      λ inside.
          let leaf = get_or t.leaves index 0 in
          let c = b.forest.climbs leaf (get_or-has t.leaves index (omega arith)) in
          let at_top = c.at_top in
          let short = c.short in
          let top : c.top ≡ t.root = ground arith in
          let w =
            collected sha256 h t.store.fresh fuel leaf t.root c.nodes
              (subst (PathUp sha256 h t.store.fresh leaf c.nodes) top c.way) root_top
              (omega arith) in
          let leaf_hash : (h leaf).hash ≡ sha256 (get_or items index []) =
            get_or-hashes h t.leaves index (omega arith)
            ∙ ap (λ hs. get_or hs index []) b.hashes_are
            ∙ get_or-map_hash sha256 items index inside in
          let some_leaf : 0 < length (h leaf).hash =
            rw leaf_hash (filled (get_or items index [])) in
          let p : MerkleProof = record {
            siblings = w.siblings;
            path_bits = w.bits;
            leaf_hash = (h leaf).hash;
            root_hash = (h t.root).hash;
          } in
          (
            p,
            proof_found fuel t index w.siblings w.bits (omega arith) root_live w.walked,
            leaf_hash,
            sym root,
            verify_recomputed sha256 p some_leaf
                (subst (λ hash. 0 < length hash) w.recomputed
                  (recompute_filled sha256 (h leaf).hash w.siblings w.bits filled some_leaf))
                w.same_length w.recomputed,
          ),
    )
