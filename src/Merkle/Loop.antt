-- ===== src/Merkle/Loop.antt =====
-- The loop of NewMerkleTree of data-structures/merkle.go.
use go_algorithm_practice.Prelude.{
  ℕ, zero, suc, ◌+◌, ◌≤◌, ◌<◌, ◌≡◌, refl, ap, ◌∙◌, arith, true, some, List, [], ◌∷◌, ltb, length,
}
use go_algorithm_practice.Merkle.{Bytes, Memory, Store, build_parent_level, build_levels}
use go_algorithm_practice.Merkle.Grow.{Forest}
use go_algorithm_practice.Merkle.Levels.{
  merkle_root, hashes, KeepsHashes, build_parent_level-Paired,
}

-- A level that is complete is the next one to be paired.
pub level_done :
    (sha256 : Bytes → Bytes) (s : Store) (depth : ℕ) (tops leaves : List ℕ)
    → Forest sha256 s depth tops [] leaves
    → Forest sha256 s (suc depth) [] tops leaves
level_done sha256 s depth tops leaves f = record {
  old = λ a i. f.old a (ground arith);
  distinct = tt;
  distinct_rest = f.distinct;
  apart = λ a i. cc;
  climbs = λ leaf i.
      let c = f.climbs leaf i in
      let at_top = c.at_top in
      let short = c.short in
      record {
        nodes = c.nodes;
        top = c.top;
        way = c.way;
        at_top = ground arith;
        short = ground arith;
      };
  started = f.started;
}

-- What the loop leaves: one node, which every leaf leads to.
pub record Grown (sha256 : Bytes → Bytes) (s : Store) (depth fuel : ℕ) (tops leaves : List ℕ)
    : Type 0 where
  pub top : ℕ
  pub store : Store
  pub ended : build_levels sha256 fuel s tops ≡ some (top ∷ [], store)
  pub levels : ℕ
  pub forest : Forest sha256 store levels [] (top ∷ []) leaves
  pub few : levels + 1 ≤ depth + length tops
  pub keeps : KeepsHashes s store
  pub hash_is : (store.mem top).hash ≡ merkle_root sha256 fuel (hashes s.mem tops)

pub length-hashes : (h : Memory) (xs : List ℕ) → length (hashes h xs) ≡ length xs
length-hashes h [] = refl
length-hashes h (a ∷ xs) = ap suc (length-hashes h xs)

build_more :
    (sha256 : Bytes → Bytes) (fuel : ℕ) (s : Store) (level : List ℕ)
    → ltb 1 (length level) ≡ true
    → build_levels sha256 (suc fuel) s level
      ≡ build_levels sha256 fuel
          (build_parent_level sha256 s level).1
          (build_parent_level sha256 s level).0
unfolding build_levels
build_more sha256 fuel s level e = rw (e, build_levels) refl

pub build_levels-Grown :
    (sha256 : Bytes → Bytes) (fuel : ℕ) (s : Store) (depth : ℕ) (tops leaves : List ℕ)
    → Forest sha256 s depth [] tops leaves
    → 0 < length tops
    → length tops ≤ fuel
    → Grown sha256 s depth fuel tops leaves
unfolding build_levels merkle_root
build_levels-Grown sha256 zero s depth tops leaves f some_top enough = absurd (omega arith)
build_levels-Grown sha256 (suc fuel) s depth [] leaves f some_top enough = absurd (omega arith)
build_levels-Grown sha256 (suc fuel) s depth (a ∷ []) leaves f some_top enough = record {
  top = a;
  store = s;
  ended = refl;
  levels = depth;
  forest = f;
  few = omega arith;
  keeps = (omega arith, λ b lt. refl);
  hash_is = refl;
}
build_levels-Grown sha256 (suc fuel) s depth (a ∷ b ∷ tops) leaves f some_top enough =
    let all = a ∷ b ∷ tops in
    let l = build_parent_level-Paired sha256 s depth [] all leaves f in
    let (parents, s') = build_parent_level sha256 s all in
    let size = l.size in
    let rest =
      build_levels-Grown sha256 fuel s' (suc depth) parents leaves
        (level_done sha256 s' depth parents leaves l.forest) (omega arith) (omega arith) in
    let more : ltb 1 (length all) ≡ true = ground arith in
    let more' : ltb 1 (length (hashes s.mem all)) ≡ true =
      let n = length-hashes s.mem all in ground arith in
    let (later, same) = l.keeps in
    let (later', same') = rest.keeps in
    record {
      top = rest.top;
      store = rest.store;
      ended = build_more sha256 fuel s all more ∙ rest.ended;
      levels = rest.levels;
      forest = rest.forest;
      few = let n = rest.few in omega arith;
      keeps = (omega arith, λ c lt. same' c (omega arith) ∙ same c lt);
      hash_is =
          rest.hash_is ∙ ap (merkle_root sha256 fuel) l.hashes_are ∙ rw (more', merkle_root) refl;
    }
