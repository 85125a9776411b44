-- ===== src/Merkle/Grow.antt =====
-- How NewMerkleTree of data-structures/merkle.go grows the tree: from every leaf the parents lead to
-- one of the nodes that have no parent yet.
use go_algorithm_practice.Prelude.{
  ℕ, suc, ◌≤◌, ◌<◌, ◌≡◌, ◌≢◌, refl, sym, ap, ◌∙◌, arith, subst, true, false, ◌||◌, inl, inr, List,
  [], ◌∷◌, ◌++◌, if◌then◌else◌, ◌==◌, length, length-append, Bool-cases,
}
use go_algorithm_practice.Prelude.Addresses.{has, has-append, Disjoint, Distinct, Distinct-append}
use go_algorithm_practice.Merkle.{Bytes, Memory, Store, put_node, hash_pair, build_parent}
use go_algorithm_practice.Merkle.Paths.{Joined, PathUp, Extends, PathUp-Extends, PathUp-more}

-- The way of a leaf to one of the nodes at the top: `done` of this level, `rest` of the one below.
pub record Climb (sha256 : Bytes → Bytes) (s : Store) (depth : ℕ) (done rest : List ℕ) (leaf : ℕ)
    : Type 0 where
  pub nodes : List ℕ
  pub top : ℕ
  pub way : PathUp sha256 s.mem s.fresh leaf nodes top
  pub at_top : (has top done || has top rest) ≡ true
  pub short : length nodes ≤ (if has top done then suc depth else depth)

pub record Forest (sha256 : Bytes → Bytes) (s : Store) (depth : ℕ) (done rest leaves : List ℕ)
    : Type 0 where
  pub old :
      (a : ℕ) → (has a done || has a rest) ≡ true → (a < s.fresh) × (a ≢ 0) × ((s.mem a).parent ≡ 0)
  pub distinct : Distinct done
  pub distinct_rest : Distinct rest
  pub apart : Disjoint done rest
  pub climbs : (leaf : ℕ) → has leaf leaves ≡ true → Climb sha256 s depth done rest leaf
  pub started : 0 < s.fresh

module _ (sha256 : Bytes → Bytes) (s : Store) (l r : ℕ) where
  abbrev after : Memory
  after = (build_parent sha256 s l r).mem

  pub parent_at :
      l < s.fresh
      → r < s.fresh
      → ((after s.fresh).left ≡ l)
        × ((after s.fresh).right ≡ r)
        × ((after s.fresh).parent ≡ 0)
        × ((after s.fresh).hash ≡ hash_pair sha256 (s.mem l).hash (s.mem r).hash)
  unfolding build_parent put_node
  parent_at lt lt' =
      let not_l : (s.fresh == l) ≡ false = ground arith in
      let not_r : (s.fresh == r) ≡ false = ground arith in
      let self : (s.fresh == s.fresh) ≡ true = ground arith in
      rw (not_l, not_r, self) (refl, refl, refl, refl)

  child_at : (a : ℕ) → (a == l || (a == r)) ≡ true → (after a).parent ≡ s.fresh
  unfolding build_parent put_node
  child_at a e = ground arith

  other_at : (a : ℕ) → (a == l || (a == r)) ≡ false → (a == s.fresh) ≡ false → after a ≡ s.mem a
  unfolding build_parent put_node
  other_at a e e' =
      let not_l : (a == l) ≡ false = ground arith in
      let not_r : (a == r) ≡ false = ground arith in rw (not_l, not_r, e') refl

  parts_at :
      (a : ℕ)
      → (a == s.fresh) ≡ false
      → ((after a).hash ≡ (s.mem a).hash)
        × ((after a).left ≡ (s.mem a).left)
        × ((after a).right ≡ (s.mem a).right)
  unfolding build_parent put_node
  parts_at a e = ground arith

  build_parent-Extends : (s.mem l).parent ≡ 0 → (s.mem r).parent ≡ 0 → Extends s.mem s.fresh after
  build_parent-Extends top top' a lt =
      let (hash, left, right) = parts_at a (ground arith) in
      (
        hash,
        left,
        right,
        λ has_parent. elim (Bool-cases (a == l || (a == r))) [
          | inl e ↦ absurd (elim (Bool-cases (a == l)) [
            | inl e' ↦
                let it : a ≡ l = ground arith in has_parent (ap (λ b. (s.mem b).parent) it ∙ top)
            | inr e' ↦
                let it : a ≡ r = ground arith in has_parent (ap (λ b. (s.mem b).parent) it ∙ top')
          ])
          | inr e ↦ ap (λ n. n.parent) (other_at a e (ground arith))
        ],
      )

Distinct-snoc : (xs : List ℕ) (p : ℕ) → Distinct xs → has p xs ≡ false → Distinct (xs ++ p ∷ [])
Distinct-snoc [] p d out = (refl, tt)
Distinct-snoc (x ∷ xs) p (fresh, d) out =
    (has-append x xs (p ∷ []) ∙ ground arith, Distinct-snoc xs p d (ground arith))

-- One more parent, of the one or two nodes `taken`.
module _ (sha256 : Bytes → Bytes) (s : Store) (depth l r : ℕ) (done taken rest leaves : List ℕ)
    (f : Forest sha256 s depth done (taken ++ rest) leaves)
    (takes : (a : ℕ) → has a taken ≡ (a == l || (a == r))) where
  abbrev p : ℕ
  p = s.fresh

  abbrev next : Store
  next = build_parent sha256 s l r

  taken_old : (a : ℕ) → (a == l || (a == r)) ≡ true → (a < p) × (a ≢ 0) × ((s.mem a).parent ≡ 0)
  taken_old a e = let i = has-append a taken rest in let j = takes a in f.old a (ground arith)

  pub l_old : (l < p) × (l ≢ 0) × ((s.mem l).parent ≡ 0)
  l_old = taken_old l (ground arith)

  pub r_old : (r < p) × (r ≢ 0) × ((s.mem r).parent ≡ 0)
  r_old = taken_old r (ground arith)

  pub next_fresh : next.fresh ≡ suc p
  unfolding build_parent
  next_fresh = refl

  pub extends : Extends s.mem p next.mem
  extends = build_parent-Extends sha256 s l r l_old.2 r_old.2

  joined : (t : ℕ) → (t == l || (t == r)) ≡ true → Joined sha256 next.mem (suc p) p t
  joined t e =
      let (l_lt, l_live, l_top) = l_old in
      let (r_lt, r_live, r_top) = r_old in
      let (left, right, parent, hash) = parent_at sha256 s l r l_lt r_lt in
      let l_parts = parts_at sha256 s l r l (ground arith) in
      let r_parts = parts_at sha256 s l r r (ground arith) in
      record {
        left_live = λ z. l_live (sym left ∙ z);
        right_live = λ z. r_live (sym right ∙ z);
        left_old = omega arith;
        right_old = omega arith;
        hash_is =
            hash
            ∙ rw (left, right)
                (sym (
                  ap (λ b. sha256 (b ++ (next.mem r).hash)) l_parts.0
                  ∙ ap (λ b. sha256 ((s.mem l).hash ++ b)) r_parts.0));
        side = elim (Bool-cases (t == l)) [
          | inl e' ↦ inl (left ∙ ground arith)
          | inr e' ↦ inr (right ∙ ground arith)
        ];
      }

  p_out : (has p done || has p (taken ++ rest)) ≡ false
  p_out = elim (Bool-cases (has p done || has p (taken ++ rest))) [
    | inl i ↦ absurd (let lt = (f.old p i).0 in omega arith)
    | inr o ↦ o
  ]

  climb :
      (leaf : ℕ)
      → Climb sha256 s depth done (taken ++ rest) leaf
      → Climb sha256 next depth (done ++ p ∷ []) rest leaf
  climb leaf c =
      let t = c.top in
      let (old, live, parent) = f.old t c.at_top in
      let bigger : p ≤ suc p = omega arith in
      let way : PathUp sha256 next.mem (suc p) leaf c.nodes t =
        PathUp-Extends sha256 s.mem next.mem p (suc p) leaf c.nodes t extends bigger c.way in
      let now = has-append t done (p ∷ []) in
      let before = has-append t taken rest in
      let takes_t = takes t in
      let short = c.short in
      let at_top = c.at_top in
      elim (Bool-cases (t == l || (t == r))) [
        | inl e ↦
            let not_done : has t done ≡ false = elim (Bool-cases (has t done)) [
              | inl i ↦ let o = f.apart t i in ground arith
              | inr o ↦ o
            ] in
            let size = length-append c.nodes (p ∷ []) in
            let here = has-append p done (p ∷ []) in
            let short' : length c.nodes ≤ depth = ground arith in
            let started = f.started in
            let p_in : has p (done ++ p ∷ []) ≡ true = ground arith in
            record {
              nodes = c.nodes ++ p ∷ [];
              top = p;
              way =
                  subst (λ b. PathUp sha256 next.mem b leaf (c.nodes ++ p ∷ []) p) (sym next_fresh)
                    (PathUp-more sha256 next.mem (suc p) leaf c.nodes t p way
                      (child_at sha256 s l r t e) (omega arith) (omega arith) (joined t e));
              at_top = rw p_in refl;
              short = rw p_in (omega arith);
            }
        | inr e ↦
            let not_p : (t == p) ≡ false = ground arith in
            record {
              nodes = c.nodes;
              top = t;
              way = subst (λ b. PathUp sha256 next.mem b leaf c.nodes t) (sym next_fresh) way;
              at_top = ground arith;
              short = ground arith;
            }
      ]

  pub build_parent-Forest : Forest sha256 next depth (done ++ p ∷ []) rest leaves
  build_parent-Forest =
      let (d1, d2, apart) = Distinct-append taken rest f.distinct_rest in
      let out = p_out in
      let started = f.started in
      record {
        old = λ a i.
            let now = has-append a done (p ∷ []) in
            let before = has-append a taken rest in
            let takes_a = takes a in
            elim (Bool-cases (a == p)) [
              | inl e ↦
                  let it : a ≡ p = ground arith in
                  let (left, right, parent, hash) = parent_at sha256 s l r l_old.0 r_old.0 in
                  rw (it, next_fresh) (omega arith, (λ z. omega arith), parent)
              | inr e ↦
                  let (lt, live, top) = f.old a (ground arith) in
                  let not_taken : (a == l || (a == r)) ≡ false =
                    elim (Bool-cases (a == l || (a == r))) [
                      | inl t ↦
                          let taken_a : has a taken ≡ true = takes_a ∙ t in
                          let not_rest = apart a taken_a in
                          let done_a : has a done ≡ true = ground arith in
                          let o = f.apart a done_a in ground arith
                      | inr t ↦ t
                    ] in
                  rw next_fresh (
                    omega arith,
                    live,
                    ap (λ n. n.parent) (other_at sha256 s l r a not_taken e) ∙ top,
                  )
            ];
        distinct = Distinct-snoc done p f.distinct (ground arith);
        distinct_rest = d2;
        apart = λ a i.
            let now = has-append a done (p ∷ []) in
            let before = has-append a taken rest in
            let there = has-append p taken rest in
            elim (Bool-cases (a == p)) [
              | inl e ↦ let it : a ≡ p = ground arith in rw it (ground arith)
              | inr e ↦ let o = f.apart a (ground arith) in ground arith
            ];
        climbs = λ leaf i. climb leaf (f.climbs leaf i);
        started = rw next_fresh (omega arith);
      }
