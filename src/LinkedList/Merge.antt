-- ===== src/LinkedList/Merge.antt =====
-- MergeTwoLists of data-structures/linkedlist.go.
pub mod Reference
pub mod Rounds
use go_algorithm_practice.Prelude.Addresses.{has, Disjoint, has-append, has_apart}
use go_algorithm_practice.Prelude.{
  ℕ, zero, suc, ◌+◌, ◌<◌, ◌≡◌, ◌≢◌, refl, sym, ap, ◌∙◌, arith, true, false, not, ◌&&◌, ◌||◌, inl,
  inr, some, List, [], ◌∷◌, ◌++◌, ◌==◌, length, subst, Bool-cases,
}
use go_algorithm_practice.Prelude.Int.{ℤ, ltb_ℤ, ◌≤ℤ◌}
use go_algorithm_practice.Prelude.Multiset.{SameItems, count-nil, count-cons, count-append, count}
use go_algorithm_practice.LinkedList.{Memory, set_next, with_node, merge_loop, merge_two_lists}
use go_algorithm_practice.LinkedList.Segments.{
  Seg, SameVals, vals, set_next-SameVals, set_next_at, set_next_other, with_node_at,
  with_node_other, frame, frame-set_next, vals-SameVals,
}
use go_algorithm_practice.LinkedList.Merge.Reference.{
  merge, merge_left, merge_right, merge_nil, has-merge, AllAbove, IsSorted, AllAbove-trans, value,
  AllAbove-merge, merge-IsSorted, count-merge,
}
use go_algorithm_practice.LinkedList.Merge.Rounds.{
  Merged, Ready, link_rest, link_node, stop_with, step_left, step_right, next_first, behind,
  merge_loop_at, stop_first, stop_second,
}

merge_loop-Merged :
    (fuel : ℕ) (v : ℕ → ℤ) (h : Memory) (n l1 l2 : ℕ) (xs ys : List ℕ)
    → Ready v h n l1 l2 xs ys
    → length xs + length ys < fuel
    → (g : Memory) × (merge_loop fuel h n l1 l2 ≡ some g) × Merged v h n xs ys g
unfolding merge_loop
merge_loop-Merged zero v h n l1 l2 xs ys r enough = absurd (omega arith)
merge_loop-Merged (suc fuel) v h n l1 l2 [] [] r enough = (
  h,
  merge_loop_at (suc fuel) h n l1 l2 0 0 r.first r.second ∙ refl,
  record {
    chain = unfold merge in r.at_end (omega arith);
    values = λ a. refl;
    outside = λ a o i j. refl;
  },
)
merge_loop-Merged (suc fuel) v h n l1 l2 [] (y ∷ ys) r enough =
    let (e, live, fresh, s) = r.second in
    (
      set_next h n y,
      merge_loop_at (suc fuel) h n l1 l2 0 y r.first e ∙ stop_second fuel h n y live,
      stop_with v h n y [] (y ∷ ys) (y ∷ ys) (unfold merge in refl) r.out_second
          (refl, live, fresh, s),
    )
merge_loop-Merged (suc fuel) v h n l1 l2 (x ∷ xs) [] r enough =
    let (e, live, fresh, s) = r.first in
    (
      set_next h n x,
      merge_loop_at (suc fuel) h n l1 l2 x 0 e r.second ∙ stop_first fuel h n x live,
      stop_with v h n x (x ∷ xs) [] (x ∷ xs) (merge_nil v (x ∷ xs)) r.out_first
          (refl, live, fresh, s),
    )
merge_loop-Merged (suc fuel) v h n l1 l2 (x ∷ xs) (y ∷ ys) r enough =
    let (e, live, fresh, s) = r.first in
    let (e', live', fresh', s') = r.second in
    let x_out : has x (y ∷ ys) ≡ false = r.apart x (ground arith) in
    let y_out : has y (x ∷ xs) ≡ false = elim (Bool-cases (has y (x ∷ xs))) [
      | inl i ↦ ground (arith, r.apart y i)
      | inr o ↦ o
    ] in
    let start = merge_loop_at (suc fuel) h n l1 l2 x y e e' in
    elim (Bool-cases (ltb_ℤ (h x).val (h y).val)) [
      | inl less ↦
          let less' : ltb_ℤ (v x) (v y) ≡ true = rw (r.vals_are x, r.vals_are y) at less in
          let g1 = set_next h n x in
          let (first, second) =
            next_first h n x y xs (y ∷ ys) r.out_first r.out_second (refl, live, fresh, s)
              (refl, live', fresh', s') in
          let (g, done, m) =
            merge_loop-Merged fuel v g1 x (g1 x).next y xs (y ∷ ys)
              (record {
                first = first;
                second = second;
                apart = λ a i. r.apart a (ground arith);
                out_first = fresh;
                out_second = x_out;
                vals_are = λ a. set_next-SameVals h n x a ∙ r.vals_are a;
                at_end = λ z. absurd (omega arith);
              })
              (omega arith) in
          (
            g,
            start ∙ step_left fuel h n x y live live' less ∙ done,
            behind v h g n x (x ∷ xs) (y ∷ ys) xs (y ∷ ys) (merge_left v x y xs ys less')
                (λ a i j. ground arith) r.out_first r.out_second live fresh x_out m,
          )
      | inr more ↦
          let more' : ltb_ℤ (v x) (v y) ≡ false = rw (r.vals_are x, r.vals_are y) at more in
          let g1 = set_next h n y in
          let (second, first) =
            next_first h n y x ys (x ∷ xs) r.out_second r.out_first (refl, live', fresh', s')
              (refl, live, fresh, s) in
          let (g, done, m) =
            merge_loop-Merged fuel v g1 y x (g1 y).next (x ∷ xs) ys
              (record {
                first = first;
                second = second;
                apart = λ a i. ground (arith, r.apart a i);
                out_first = y_out;
                out_second = fresh';
                vals_are = λ a. set_next-SameVals h n y a ∙ r.vals_are a;
                at_end = λ z. absurd (omega arith);
              })
              (omega arith) in
          (
            g,
            start ∙ step_right fuel h n x y live live' more ∙ done,
            behind v h g n y (x ∷ xs) (y ∷ ys) (x ∷ xs) ys (merge_right v x y xs ys more')
                (λ a i j. ground arith) r.out_first r.out_second live' y_out fresh' m,
          )
    ]

vals-with_node :
    (h : Memory) (d : ℕ) (zs : List ℕ) → has d zs ≡ false → vals (with_node h d 0) zs ≡ vals h zs
vals-with_node h d [] out = refl
vals-with_node h d (a ∷ zs) out =
    let here : with_node h d 0 a ≡ h a = with_node_other h d 0 a (ground arith) in
    rw (here, vals-with_node h d zs (ground arith)) refl

-- MergeTwoLists of two ascending lists that share no node ends within as many rounds as there are
-- nodes and one more, without a panic. It returns an ascending list of the same values, each as
-- often, whose nodes are those of the two lists, merged.
pub merge_two_lists-IsSorted :
    (dummy fuel : ℕ) (h : Memory) (l1 l2 : ℕ) (xs ys : List ℕ)
    → Seg h 0 l1 xs
    → Seg h 0 l2 ys
    → Disjoint xs ys
    → has dummy (xs ++ ys) ≡ false
    → IsSorted (vals h xs)
    → IsSorted (vals h ys)
    → length xs + length ys < fuel
    → (p : ℕ) × (g : Memory) × (zs : List ℕ) × (merge_two_lists dummy fuel h l1 l2 ≡ some (p, g))
      × Seg g 0 p zs
      × IsSorted (vals g zs)
      × SameItems (vals g zs) (vals h xs ++ vals h ys)
      × ((a : ℕ) → has a zs ≡ has a (xs ++ ys))
unfolding merge_two_lists
merge_two_lists-IsSorted dummy fuel h l1 l2 xs ys s t apart out up up' enough =
    let h' = with_node h dummy 0 in
    let v = λ (a : ℕ). (h' a).val in
    let outs = has-append dummy xs ys in
    let keep = λ (zs : List ℕ) (o : has dummy zs ≡ false) (l : ℕ) (w : Seg h 0 l zs).
      frame h h' 0 l zs (λ a i. with_node_other h dummy 0 a (has_apart a dummy zs i o)) w in
    let (g, done, m) =
      merge_loop-Merged fuel v h' dummy l1 l2 xs ys
        (record {
          first = keep xs (ground arith) l1 s;
          second = keep ys (ground arith) l2 t;
          apart = apart;
          out_first = ground arith;
          out_second = ground arith;
          vals_are = λ a. refl;
          at_end = λ z. with_node_at h dummy 0;
        })
        enough in
    let old = λ (zs : List ℕ) (o : has dummy zs ≡ false). vals-with_node h dummy zs o in
    let first : vals h' xs ≡ vals h xs = old xs (ground arith) in
    let second : vals h' ys ≡ vals h ys = old ys (ground arith) in
    let there : vals g (merge v xs ys) ≡ vals h' (merge v xs ys) =
      vals-SameVals h' g (merge v xs ys) m.values in
    let sorted = merge-IsSorted h' xs ys (rw first up) (rw second up') in
    (
      (g dummy).next,
      g,
      merge v xs ys,
      rw (done, merge_two_lists) refl,
      m.chain,
      rw there sorted,
      λ c.
          ap (count c) there
          ∙ count-merge h' c xs ys
          ∙ rw (first, second) (sym (count-append c (vals h xs) (vals h ys))),
      λ a. has-merge v a xs ys ∙ sym (has-append a xs ys),
    )
