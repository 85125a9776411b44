-- ===== src/Heap/Calls.antt =====
-- Push, Pop, Peek and Heapify of data-structures/heap.go, for both heaps.
use go_algorithm_practice.Prelude.{
  ℕ, suc, ◌+◌, ◌-◌, ◌<◌, ◌≡◌, refl, sym, ap, ◌∙◌, arith, Bool, true, false, Option, none, some,
  List, [], ◌∷◌, ◌++◌, length, ◌==◌, set, take, length-append, length-set, length-take, get_or-set,
  get_or-append_left, get_or-take, take_last,
}
use mathlib.Core.Path.{ap₂}
use go_algorithm_practice.Prelude.Int.{ℤ, pos, ◌≤ℤ◌}
use go_algorithm_practice.Prelude.Multiset.{
  once, SameItems, count-nil, count-cons, count-append, count-set,
}
use go_algorithm_practice.Heap.Order.{
  IsOrder, Ensures, Ensures-map, IsHeap, Sifted, root_first, min_first-IsOrder, max_first-IsOrder,
}
use go_algorithm_practice.Heap.Down.{DownInv, sift_down-restores, heapify-restores}
use go_algorithm_practice.Heap.Up.{bubble_up-restores}
use go_algorithm_practice.Heap.{
  Before, at, parent, is_empty, peek, push, pop, heapify, sift_down, min_first, max_first, min_pop,
  max_pop, ◌>>=◌,
}

module _ (before : Before) (o : IsOrder before) where
  -- The heap that Push leaves.
  abbrev pub Pushed : ℤ → List ℤ → List ℤ → Type 0
  Pushed val items b = IsHeap before b × SameItems b (val ∷ items)

  -- Push ends within its fuel: a heap stays a heap, and its items are the old ones and the new one.
  pub push-IsHeap :
      (val : ℤ) (items : List ℤ)
      → IsHeap before items
      → Ensures (Pushed val items) (push before val items)
  unfolding push
  push-IsHeap val items h =
      let n = length items in
      let size = length-append items (val ∷ []) in
      Ensures-map (push before val items)
        (λ b s. (
          s.0,
          λ x. omega (
            arith,
            s.1 x,
            count-append x items (val ∷ []),
            count-cons x val items,
            count-cons x val [],
            count-nil x,
          ),
        ))
        (bubble_up-restores before o (n + 1) (items ++ val ∷ []) n (omega arith) (record {
          inside = omega (arith, size);
          edges = λ c p q r. ground (
            arith,
            size,
            h c,
            get_or-append_left items (val ∷ []) c (pos 0),
            get_or-append_left items (val ∷ []) (parent c) (pos 0),
          );
          bridged = λ c p q r t u. absurd (omega (arith, size));
        }))

  -- What Pop returns of a heap that is not empty: a first item, and a heap of the others.
  pub record Popped (items : List ℤ) (r : ℤ × Bool × List ℤ) : Type 0 where
    pub valid : r.1 ≡ true
    pub root : r.0 ≡ at items 0
    pub heap : IsHeap before r.2
    pub same : SameItems (r.0 ∷ r.2) items
    pub first : (i : ℕ) → i < length items → before (at items i) r.0 ≡ false

  module _ (items : List ℤ) (n : ℕ) (size : length items ≡ suc n) where
    abbrev moved : List ℤ
    moved = set items 0 (at items n)

    abbrev cut : List ℤ
    cut = take n moved

    cut-size : length cut ≡ n
    cut-size = omega (arith, length-take n moved, length-set items 0 (at items n))

    -- The root and the items that siftDown gets are the items of the heap.
    cut-SameItems : SameItems (at items 0 ∷ cut) items
    cut-SameItems x =
        let whole = take_last n moved (pos 0) (length-set items 0 (at items n) ∙ size) in
        let last : at moved n ≡ at items n =
          ground (arith, get_or-set items 0 n (at items n) (pos 0) (omega arith)) in
        let counted = rw whole at (sym (count-append x cut (at moved n ∷ []))) in
        let write = count-set x items 0 (at items n) (pos 0) (omega arith) in
        omega (
          arith,
          count-cons x (at items 0) cut,
          count-cons x (at moved n) [],
          count-nil x,
          ap (once x) last,
        )

    cut-DownInv : IsHeap before items → DownInv before o 0 cut 0
    cut-DownInv h =
        let wrote = λ (c : ℕ). get_or-set items 0 c (at items n) (pos 0) (omega arith) in
        record {
          edges = λ c p q r s. ground (
            arith,
            cut-size,
            h c,
            get_or-take n moved c (pos 0),
            get_or-take n moved (parent c) (pos 0),
            wrote c,
            wrote (parent c),
          );
          bridged = λ c p q r s t. absurd (omega arith);
        }

    popped :
        IsHeap before items
        → (r : Option (List ℤ)) → Ensures (Sifted before 0 cut) r
        → Ensures (Popped items) (r >>= λ rest. some (at items 0, true, rest))
    popped h none s = s
    popped h (some rest) s = record {
      valid = refl;
      root = refl;
      heap = s.0;
      same = λ x. omega (
        arith,
        s.1 x,
        cut-SameItems x,
        count-cons x (at items 0) rest,
        count-cons x (at items 0) cut,
      );
      first = λ i q. root_first before o items i h q;
    }

  -- Pop on a heap that is not empty ends within its fuel and returns an item that no other comes
  -- before; what is left is a heap of the other items.
  pub pop-Popped :
      (items : List ℤ)
      → IsHeap before items
      → 0 < length items
      → Ensures (Popped items) (pop before items)
  unfolding pop is_empty
  pop-Popped items h pos_size =
      let n = length items - 1 in
      let size : length items ≡ suc n = omega arith in
      let some_left : (length items == 0) ≡ false = ground arith in
      let shorter : length (moved items n size) - 1 ≡ n =
        omega (arith, length-set items 0 (at items n)) in
      let sifted =
        sift_down-restores before o 0 (cut items n size) 0 (cut-DownInv items n size h) in
      let run : pop before items
          ≡ (sift_down before (cut items n size) 0 >>= λ rest. some (at items 0, true, rest)) =
        rw (some_left, shorter) refl in
      rw run (popped items n size h (sift_down before (cut items n size) 0) sifted)

  -- Pop on an empty heap returns (0, false) and leaves it empty.
  pub pop-empty : pop before [] ≡ some (pos 0, false, [])
  unfolding pop is_empty
  pop-empty = refl

  -- Heapify ends within its fuel and makes a heap of the given items, whatever their order.
  pub heapify-IsHeap :
      (items : List ℤ) → Ensures (λ b. IsHeap before b × SameItems b items) (heapify before items)
  heapify-IsHeap items =
      Ensures-map (heapify before items) (λ b s. (s.0, s.1)) (heapify-restores before o items)

-- In a `MinHeap` that is not empty the value that Pop returns is the least of the items.
pub pop-least :
    (items : List ℤ)
    → IsHeap min_first items
    → 0 < length items
    → Ensures (λ r. (i : ℕ) → i < length items → r.0 ≤ℤ at items i) (min_pop items)
unfolding min_first
pop-least items h p =
    Ensures-map (pop min_first items) (λ r s i q. let f = s.first i q in ground arith)
      (pop-Popped min_first min_first-IsOrder items h p)

-- In a `MaxHeap` that is not empty the value that Pop returns is the greatest of the items.
pub pop-greatest :
    (items : List ℤ)
    → IsHeap max_first items
    → 0 < length items
    → Ensures (λ r. (i : ℕ) → i < length items → at items i ≤ℤ r.0) (max_pop items)
unfolding max_first
pop-greatest items h p =
    Ensures-map (pop max_first items) (λ r s i q. let f = s.first i q in ground arith)
      (pop-Popped max_first max_first-IsOrder items h p)

-- Peek returns what Pop is going to return, and Pop's validity flag.
pub pop-peek :
    (before : Before) (o : IsOrder before) (items : List ℤ)
    → IsHeap before items
    → Ensures (λ r. (r.0, r.1) ≡ peek items) (pop before items)
unfolding peek is_empty
pop-peek before o [] h = unfold pop in refl
pop-peek before o (x ∷ items) h =
    let seen : peek (x ∷ items) ≡ (x, true) = ground arith in
    Ensures-map {P = Popped before o (x ∷ items)} (pop before (x ∷ items))
      (λ r s. rw seen (ap₂ (λ (a : ℤ) (b : Bool). (a, b)) s.root s.valid))
      (pop-Popped before o (x ∷ items) h (omega arith))
