-- ===== src/LinkedList/Merge/Rounds.antt =====
-- The rounds of the loop of MergeTwoLists in data-structures/linkedlist.go.
use go_algorithm_practice.Prelude.Addresses.{has, Disjoint}
use go_algorithm_practice.Prelude.{
  ℕ, suc, ◌+◌, ◌≡◌, ◌≢◌, refl, sym, ap, ◌∙◌, arith, true, false, not, ◌&&◌, some, List, ◌∷◌, ◌==◌,
  length, subst,
}
use go_algorithm_practice.Prelude.Int.{ℤ, ltb_ℤ}
use go_algorithm_practice.LinkedList.{Memory, set_next, merge_loop}
use go_algorithm_practice.LinkedList.Segments.{
  Seg, SameVals, set_next-SameVals, set_next_at, set_next_other, frame-set_next,
}
use go_algorithm_practice.LinkedList.Merge.Reference.{merge, has-merge}

-- The loop from the node `n` on, behind which the rest is linked.
pub record Merged (v : ℕ → ℤ) (h : Memory) (n : ℕ) (xs ys : List ℕ) (g : Memory) : Type 0 where
  pub chain : Seg g 0 (g n).next (merge v xs ys)
  pub values : SameVals h g
  pub outside : (a : ℕ) → (a == n) ≡ false → has a xs ≡ false → has a ys ≡ false → g a ≡ h a

-- A state of the loop: two lists that share no node, and the last node of what is merged.
pub record Ready (v : ℕ → ℤ) (h : Memory) (n l1 l2 : ℕ) (xs ys : List ℕ) : Type 0 where
  pub first : Seg h 0 l1 xs
  pub second : Seg h 0 l2 ys
  pub apart : Disjoint xs ys
  pub out_first : has n xs ≡ false
  pub out_second : has n ys ≡ false
  pub vals_are : (a : ℕ) → (h a).val ≡ v a
  pub at_end : length xs + length ys ≡ 0 → (h n).next ≡ 0

pub link_rest :
    (v : ℕ → ℤ) (h : Memory) (n l : ℕ) (zs : List ℕ)
    → has n zs ≡ false
    → Seg h 0 l zs
    → Seg (set_next h n l) 0 (set_next h n l n).next zs
link_rest v h n l zs out s =
    subst (λ q. Seg (set_next h n l) 0 q zs) (sym (set_next_at h n l))
      (frame-set_next h 0 l n l zs out s)

-- After a round that linked `x` behind `n`, and the rest behind `x`.
pub link_node :
    (v : ℕ → ℤ) (h g : Memory) (n x : ℕ) (zs : List ℕ)
    → (n == x) ≡ false
    → x ≢ 0
    → has x zs ≡ false
    → g n ≡ set_next h n x n
    → Seg g 0 (g x).next zs
    → Seg g 0 (g n).next (x ∷ zs)
link_node v h g n x zs apart live fresh kept s =
    (ap (λ m. m.next) kept ∙ set_next_at h n x, live, fresh, s)

-- The loop ends: what is left is linked as it is.
pub stop_with :
    (v : ℕ → ℤ) (h : Memory) (n l : ℕ) (xs ys zs : List ℕ)
    → merge v xs ys ≡ zs
    → has n zs ≡ false
    → Seg h 0 l zs
    → Merged v h n xs ys (set_next h n l)
stop_with v h n l xs ys zs e out s = record {
  chain =
      subst (Seg (set_next h n l) 0 (set_next h n l n).next) (sym e) (link_rest v h n l zs out s);
  values = set_next-SameVals h n l;
  outside = λ a o i j. set_next_other h n l a o;
}

pub step_left :
    (fuel : ℕ) (h : Memory) (n x y : ℕ)
    → x ≢ 0
    → y ≢ 0
    → ltb_ℤ (h x).val (h y).val ≡ true
    → merge_loop (suc fuel) h n x y ≡ merge_loop fuel (set_next h n x) x (set_next h n x x).next y
unfolding merge_loop
step_left fuel h n x y live live' e =
    let going : (not (x == 0) && not (y == 0)) ≡ true = ground arith in
    rw (going, merge_loop, e) refl

pub step_right :
    (fuel : ℕ) (h : Memory) (n x y : ℕ)
    → x ≢ 0
    → y ≢ 0
    → ltb_ℤ (h x).val (h y).val ≡ false
    → merge_loop (suc fuel) h n x y ≡ merge_loop fuel (set_next h n y) y x (set_next h n y y).next
unfolding merge_loop
step_right fuel h n x y live live' e =
    let going : (not (x == 0) && not (y == 0)) ≡ true = ground arith in
    rw (going, merge_loop, e) refl

-- The state after a round that takes the first node `x` of one of the lists, `zs` being the rest of
-- it and `ys` the other.
pub next_first :
    (h : Memory) (n x l : ℕ) (zs ys : List ℕ)
    → has n (x ∷ zs) ≡ false
    → has n ys ≡ false
    → Seg h 0 x (x ∷ zs)
    → Seg h 0 l ys
    → Seg (set_next h n x) 0 (set_next h n x x).next zs × Seg (set_next h n x) 0 l ys
next_first h n x l zs ys out out' (e, live, fresh, s) t =
    let same : set_next h n x x ≡ h x = set_next_other h n x x (ground arith) in
    (
      rw same (frame-set_next h 0 (h x).next n x zs (ground arith) s),
      frame-set_next h 0 l n x ys out' t,
    )

-- What the rest of the loop did, seen from before a round.
pub behind :
    (v : ℕ → ℤ) (h g : Memory) (n x : ℕ) (xs ys xs' ys' : List ℕ)
    → merge v xs ys ≡ x ∷ merge v xs' ys'
    → ((a : ℕ)
        → has a xs ≡ false
        → has a ys ≡ false
        → ((a == x) ≡ false) × (has a xs' ≡ false) × (has a ys' ≡ false))
    → has n xs ≡ false
    → has n ys ≡ false
    → x ≢ 0
    → has x xs' ≡ false
    → has x ys' ≡ false
    → Merged v (set_next h n x) x xs' ys' g
    → Merged v h n xs ys g
behind v h g n x xs ys xs' ys' form smaller out out' live fresh fresh' m =
    let (apart, o, o') = smaller n out out' in
    record {
      chain = subst (Seg g 0 (g n).next) (sym form) (
          link_node v h g n x (merge v xs' ys') apart live
            (has-merge v x xs' ys' ∙ rw (fresh, fresh') refl) (m.outside n apart o o') m.chain);
      values = λ a. m.values a ∙ set_next-SameVals h n x a;
      outside =
          λ a i j k. let (b, c, d) = smaller a j k in m.outside a b c d ∙ set_next_other h n x a i;
    }

pub merge_loop_at :
    (fuel : ℕ) (h : Memory) (n l1 l2 x y : ℕ)
    → l1 ≡ x
    → l2 ≡ y
    → merge_loop fuel h n l1 l2 ≡ merge_loop fuel h n x y
merge_loop_at fuel h n l1 l2 x y e e' =
    ap (λ a. merge_loop fuel h n a l2) e ∙ ap (merge_loop fuel h n x) e'

pub stop_first :
    (fuel : ℕ) (h : Memory) (n x : ℕ)
    → x ≢ 0
    → merge_loop (suc fuel) h n x 0 ≡ some (set_next h n x)
unfolding merge_loop
stop_first fuel h n x live =
    let going : (x == 0) ≡ false = ground arith in rw (going, merge_loop) (rw going refl)

pub stop_second :
    (fuel : ℕ) (h : Memory) (n y : ℕ)
    → y ≢ 0
    → merge_loop (suc fuel) h n 0 y ≡ some (set_next h n y)
unfolding merge_loop
stop_second fuel h n y live =
    let going : (y == 0) ≡ false = ground arith in rw (going, merge_loop) refl
