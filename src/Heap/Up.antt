-- ===== src/Heap/Up.antt =====
-- The loop of Push in data-structures/heap.go.
use go_algorithm_practice.Prelude.{
  ℕ, zero, suc, ◌<◌, ◌≡◌, ◌≢◌, inl, inr, refl, arith, true, false, ◌&&◌, List, ltb, length,
  Bool-cases,
}
use native.Mathlib.Decide.{ℕ_discrete}
use go_algorithm_practice.Prelude.Int.{ℤ}
use go_algorithm_practice.Heap.Order.{
  IsOrder, Ensures, length-swap, at-swap, Sifted, IsBridged, Sifted-swap,
}
use go_algorithm_practice.Heap.{Before, at, parent, swap, bubble_up}

module _ (before : Before) (o : IsOrder before) where
  -- Only the edge above `i` may be out of order.
  pub record UpInv (a : List ℤ) (i : ℕ) : Type 0 where
    pub inside : i < length a
    pub edges : (c : ℕ) → 0 < c → c < length a → c ≢ i → before (at a c) (at a (parent c)) ≡ false
    pub bridged : IsBridged before 0 a i

  swap-UpInv :
      (a : List ℤ) (i : ℕ)
      → UpInv a i
      → 0 < i
      → before (at a i) (at a (parent i)) ≡ true
      → UpInv (swap a i (parent i)) (parent i)
  swap-UpInv a i v pos above =
      let p = parent i in
      let size = length-swap a i p in
      let here = at-swap a i p v.inside (omega arith) in
      let under = o.asym (at a i) (at a p) above in
      record {
        inside = omega arith;
        edges = λ c q r s. ground (
          arith,
          here c,
          here (parent c),
          v.edges c,
          v.bridged c,
          o.trans (at a i) (at a p) (at a c),
        );
        bridged = λ c q r s t u. ground (
          arith,
          here c,
          here (parent p),
          v.edges p,
          v.edges c,
          o.trans (at a (parent p)) (at a p) (at a c),
        );
      }

  -- The loop of Push turns items with one item too low in the tree into a heap of the same items.
  pub bubble_up-restores :
      (k : ℕ) (a : List ℤ) (i : ℕ)
      → i < k
      → UpInv a i
      → Ensures (Sifted before 0 a) (bubble_up before k a i)
  unfolding bubble_up
  bubble_up-restores zero a i f v = absurd (omega arith)
  bubble_up-restores (suc k) a i f v =
      elim (Bool-cases (ltb 0 i && before (at a i) (at a (parent i)))) [
        | inl e ↦
            let pos : 0 < i = ground arith in
            let above : before (at a i) (at a (parent i)) ≡ true = ground arith in
            let ih =
              bubble_up-restores k (swap a i (parent i)) (parent i) (omega arith)
                (swap-UpInv a i v pos above) in
            rw (e, bubble_up)
              (Sifted-swap before 0 a i (parent i) _ v.inside (omega (arith, v.inside)) ih)
        | inr e ↦
            rw (e, bubble_up)
              (
                λ c p q r. elim (ℕ_discrete c i) [
                  | yes same ↦ ground arith
                  | no other ↦ v.edges c p q other
                ],
                λ x. refl,
                refl,
              )
      ]
