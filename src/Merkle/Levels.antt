-- ===== src/Merkle/Levels.antt =====
-- The levels of the tree of data-structures/merkle.go.
use go_algorithm_practice.Prelude.{
  ℕ, zero, suc, ◌+◌, ◌/◌, ◌≤◌, ◌<◌, ◌≡◌, refl, ap, ◌∙◌, arith, subst, true, ◌||◌, List, [], ◌∷◌,
  ◌++◌, if◌then◌else◌, ◌==◌, ltb, length, append_assoc, append-nil, get_or,
}
use go_algorithm_practice.Prelude.Addresses.{has}
use go_algorithm_practice.Merkle.{Bytes, Memory, Store, hash_pair, build_parent, build_parent_level}
use go_algorithm_practice.Merkle.Grow.{
  Forest, build_parent-Forest, next_fresh, extends, parent_at, l_old, r_old,
}

-- A level of the tree from the hashes of the one below, and the root.
unfoldable pub pair_up : (Bytes → Bytes) → List Bytes → List Bytes
pair_up sha256 [] = []
pair_up sha256 (x ∷ []) = hash_pair sha256 x x ∷ []
pair_up sha256 (x ∷ y ∷ hs) = hash_pair sha256 x y ∷ pair_up sha256 hs

unfoldable pub merkle_root : (Bytes → Bytes) → ℕ → List Bytes → Bytes
unfolding pair_up
merkle_root sha256 zero hs = get_or hs 0 []
merkle_root sha256 (suc levels) hs =
    if ltb 1 (length hs) then merkle_root sha256 levels (pair_up sha256 hs) else get_or hs 0 []

abbrev pub hashes : Memory → List ℕ → List Bytes
hashes h [] = []
hashes h (a ∷ xs) = (h a).hash ∷ hashes h xs

-- The hashes of the nodes so far are kept.
abbrev pub KeepsHashes : Store → Store → Type 0
KeepsHashes s s' = (s.fresh ≤ s'.fresh) × ((a : ℕ) → a < s.fresh → (s'.mem a).hash ≡ (s.mem a).hash)

pub hashes_kept :
    (s s' : Store) (xs : List ℕ)
    → KeepsHashes s s'
    → ((a : ℕ) → has a xs ≡ true → a < s.fresh)
    → hashes s'.mem xs ≡ hashes s.mem xs
hashes_kept s s' [] k old = refl
hashes_kept s s' (a ∷ xs) k old =
    rw (k.1 a (old a (ground arith)), hashes_kept s s' xs k (λ b i. old b (ground arith))) refl

pub record Paired (sha256 : Bytes → Bytes) (s : Store) (depth : ℕ) (done children leaves : List ℕ)
    : Type 0 where
  pub forest :
      Forest sha256
        (build_parent_level sha256 s children).1
        depth
        (done ++ (build_parent_level sha256 s children).0)
        []
        leaves
  pub keeps : KeepsHashes s (build_parent_level sha256 s children).1
  pub hashes_are :
      hashes (build_parent_level sha256 s children).1.mem (build_parent_level sha256 s children).0
      ≡ pair_up sha256 (hashes s.mem children)
  pub size : length (build_parent_level sha256 s children).0 ≡ (length children + 1) / 2

one_takes : (l a : ℕ) → has a (l ∷ []) ≡ (a == l || (a == l))
one_takes l a = ground arith

two_take : (l r a : ℕ) → has a (l ∷ r ∷ []) ≡ (a == l || (a == r))
two_take l r a = ground arith

pub build_parent_level-Paired :
    (sha256 : Bytes → Bytes) (s : Store) (depth : ℕ) (done children leaves : List ℕ)
    → Forest sha256 s depth done children leaves
    → Paired sha256 s depth done children leaves
unfolding build_parent_level pair_up
build_parent_level-Paired sha256 s depth done [] leaves f = record {
  forest = rw (append-nil done) f;
  keeps = (omega arith, λ a lt. refl);
  hashes_are = refl;
  size = omega arith;
}
build_parent_level-Paired sha256 s depth done (l ∷ []) leaves f =
    let takes = λ (a : ℕ). one_takes l a in
    let forest = build_parent-Forest sha256 s depth l l done (l ∷ []) [] leaves f takes in
    let kept = extends sha256 s depth l l done (l ∷ []) [] leaves f takes in
    let fresh = next_fresh sha256 s depth l l done (l ∷ []) [] leaves f takes in
    let (l_lt, l_live, l_top) = l_old sha256 s depth l l done (l ∷ []) [] leaves f takes in
    record {
      forest = forest;
      keeps = (rw fresh (omega arith), λ a lt. (kept a lt).0);
      hashes_are = ap (λ b. b ∷ []) (parent_at sha256 s l l l_lt l_lt).3;
      size = omega arith;
    }
build_parent_level-Paired sha256 s depth done (l ∷ r ∷ children) leaves f =
    let takes = λ (a : ℕ). two_take l r a in
    let s1 = build_parent sha256 s l r in
    let forest = build_parent-Forest sha256 s depth l r done (l ∷ r ∷ []) children leaves f takes in
    let kept = extends sha256 s depth l r done (l ∷ r ∷ []) children leaves f takes in
    let fresh : s1.fresh ≡ suc s.fresh =
      next_fresh sha256 s depth l r done (l ∷ r ∷ []) children leaves f takes in
    let (l_lt, l_live, l_top) =
      l_old sha256 s depth l r done (l ∷ r ∷ []) children leaves f takes in
    let (r_lt, r_live, r_top) =
      r_old sha256 s depth l r done (l ∷ r ∷ []) children leaves f takes in
    let rest =
      build_parent_level-Paired sha256 s1 depth (done ++ s.fresh ∷ []) children leaves forest in
    let (parents, s') = build_parent_level sha256 s1 children in
    let (more, same) = rest.keeps in
    let keeps : KeepsHashes s s1 = (omega arith, λ a lt. (kept a lt).0) in
    let (left, right, parent, hash) = parent_at sha256 s l r l_lt r_lt in
    let below : hashes s1.mem children ≡ hashes s.mem children =
      hashes_kept s s1 children keeps (λ a i. (f.old a (ground arith)).0) in
    let first : (s'.mem s.fresh).hash ≡ hash_pair sha256 (s.mem l).hash (s.mem r).hash =
      same s.fresh (omega arith) ∙ hash in
    record {
      forest =
          subst (λ xs. Forest sha256 s' depth xs [] leaves)
            (append_assoc done (s.fresh ∷ []) parents) rest.forest;
      keeps = (omega arith, λ a lt. same a (omega arith) ∙ (kept a lt).0);
      hashes_are = rw (first, rest.hashes_are, below) refl;
      size = let n = rest.size in omega arith;
    }
