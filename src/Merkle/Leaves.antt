-- ===== src/Merkle/Leaves.antt =====
-- The leaves that NewMerkleTree of data-structures/merkle.go starts with.
use go_algorithm_practice.Prelude.{
  ℕ, zero, suc, ◌≤◌, ◌<◌, ◌≡◌, refl, ap, ◌∙◌, arith, true, false, inl, inr, List, [], ◌∷◌, ◌==◌,
  length, map, Bool-cases, get_or,
}
use go_algorithm_practice.Prelude.Addresses.{has, Distinct}
use go_algorithm_practice.Merkle.{Bytes, MerkleNode, Memory, Store, put_node, hash_leaves}
use go_algorithm_practice.Merkle.Grow.{Forest}
use go_algorithm_practice.Merkle.Levels.{hashes}

-- The leaves: new nodes of the hashes of the data, without a parent.
pub record Planted (sha256 : Bytes → Bytes) (s : Store) (items : List Bytes) (leaves : List ℕ)
    (s' : Store) : Type 0 where
  pub size : length leaves ≡ length items
  pub new : (a : ℕ) → has a leaves ≡ true → (s.fresh ≤ a) × (a < s'.fresh) × ((s'.mem a).parent ≡ 0)
  pub distinct : Distinct leaves
  pub hashes_are : hashes s'.mem leaves ≡ map sha256 items
  pub grows : s.fresh ≤ s'.fresh
  pub keeps : (a : ℕ) → a < s.fresh → s'.mem a ≡ s.mem a

put_node_at : (h : Memory) (a : ℕ) (n : MerkleNode) → put_node h a n a ≡ n
unfolding put_node
put_node_at h a n = ground arith

put_node_other : (h : Memory) (a b : ℕ) (n : MerkleNode) → (b == a) ≡ false → put_node h a n b ≡ h b
unfolding put_node
put_node_other h a b n e = rw e refl

pub hash_leaves-Planted :
    (sha256 : Bytes → Bytes) (items : List Bytes) (s : Store)
    → Planted sha256 s items (hash_leaves sha256 s items).0 (hash_leaves sha256 s items).1
unfolding hash_leaves
hash_leaves-Planted sha256 [] s = record {
  size = refl;
  new = λ a i. cc;
  distinct = tt;
  hashes_are = refl;
  grows = omega arith;
  keeps = λ a lt. refl;
}
hash_leaves-Planted sha256 (b ∷ items) s =
    let leaf : MerkleNode = record { hash = sha256 b; left = 0; right = 0; parent = 0 } in
    let s1 : Store = record { mem = put_node s.mem s.fresh leaf; fresh = suc s.fresh } in
    let (leaves, s') = hash_leaves sha256 s1 items in
    let rest = hash_leaves-Planted sha256 items s1 in
    let grows : suc s.fresh ≤ s'.fresh = rest.grows in
    let here : s'.mem s.fresh ≡ leaf =
      rest.keeps s.fresh (omega arith) ∙ put_node_at s.mem s.fresh leaf in
    record {
      size = ap suc rest.size;
      new = λ a i. elim (Bool-cases (a == s.fresh)) [
        | inl e ↦
            let it : a ≡ s.fresh = ground arith in
            (omega arith, omega arith, ap (λ c. (s'.mem c).parent) it ∙ ap (λ n. n.parent) here)
        | inr e ↦ let (ge, lt, top) = rest.new a (ground arith) in (omega arith, lt, top)
      ];
      distinct = (
        elim (Bool-cases (has s.fresh leaves)) [
          | inl i ↦ absurd (let ge = (rest.new s.fresh i).0 in omega arith)
          | inr o ↦ o
        ],
        rest.distinct,
      );
      hashes_are = rw (here, rest.hashes_are) refl;
      grows = omega arith;
      keeps =
          λ a lt. rest.keeps a (omega arith) ∙ put_node_other s.mem s.fresh a leaf (ground arith);
    }

pub Planted-Forest :
    (sha256 : Bytes → Bytes) (s s' : Store) (items : List Bytes) (leaves : List ℕ)
    → 0 < s.fresh
    → Planted sha256 s items leaves s'
    → Forest sha256 s' 0 [] leaves leaves
Planted-Forest sha256 s s' items leaves started l = record {
  old = λ a i. let (ge, lt, top) = l.new a i in (lt, (λ z. omega arith), top);
  distinct = tt;
  distinct_rest = l.distinct;
  apart = λ a i. cc;
  climbs = λ leaf i. record {
    nodes = [];
    top = leaf;
    way = (refl, (l.new leaf i).1);
    at_top = i;
    short = omega arith;
  };
  started = let g = l.grows in omega arith;
}

pub get_or-hashes :
    (h : Memory) (xs : List ℕ) (i : ℕ)
    → i < length xs
    → (h (get_or xs i 0)).hash ≡ get_or (hashes h xs) i []
get_or-hashes h [] i lt = absurd (omega arith)
get_or-hashes h (a ∷ xs) zero lt = refl
get_or-hashes h (a ∷ xs) (suc i) lt = get_or-hashes h xs i (omega arith)

pub get_or-has : (xs : List ℕ) (i : ℕ) → i < length xs → has (get_or xs i 0) xs ≡ true
get_or-has [] i lt = absurd (omega arith)
get_or-has (a ∷ xs) zero lt = ground arith
get_or-has (a ∷ xs) (suc i) lt = ground (arith, get_or-has xs i (omega arith))

pub get_or-map_hash :
    (f : Bytes → Bytes) (bs : List Bytes) (i : ℕ)
    → i < length bs
    → get_or (map f bs) i [] ≡ f (get_or bs i [])
get_or-map_hash f [] i lt = absurd (omega arith)
get_or-map_hash f (b ∷ bs) zero lt = refl
get_or-map_hash f (b ∷ bs) (suc i) lt = get_or-map_hash f bs i (omega arith)
