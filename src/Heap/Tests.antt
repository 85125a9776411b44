-- ===== src/Heap/Tests.antt =====
-- Runs of the heaps, and the theorems at a min heap of four items.
use go_algorithm_practice.Prelude.{◌≡◌, refl, arith, true, some, List, [], ◌∷◌}
use go_algorithm_practice.Prelude.Int.{ℤ, pos, negsuc}
use go_algorithm_practice.Prelude.Multiset.{SameItems}
use go_algorithm_practice.Heap.Order.{Ensures, IsHeap, min_first-IsOrder}
use go_algorithm_practice.Heap.Calls.{
  Pushed, Popped, push-IsHeap, pop-Popped, heapify-IsHeap, pop-peek,
}
use go_algorithm_practice.Heap.{
  swap, min_first, max_first, push, pop, peek, heapify, pick_target, sift_down_loop,
}

abbrev sample : List ℤ
sample = negsuc 0 ∷ pos 4 ∷ pos 3 ∷ pos 9 ∷ []

sample-IsHeap : IsHeap min_first sample
unfolding min_first
sample-IsHeap c p q r = ground arith

heap_runs :
    (push min_first (pos 2) sample ≡ some (negsuc 0 ∷ pos 2 ∷ pos 3 ∷ pos 9 ∷ pos 4 ∷ []))
    × (pop min_first sample ≡ some (negsuc 0, true, pos 3 ∷ pos 4 ∷ pos 9 ∷ []))
    × (heapify max_first sample ≡ some (pos 9 ∷ pos 4 ∷ pos 3 ∷ negsuc 0 ∷ []))
unfolding push pop heapify min_first max_first swap pick_target sift_down_loop
heap_runs = (refl, refl, refl)

push-IsHeap_example :
    Ensures (Pushed min_first min_first-IsOrder (pos 2) sample) (push min_first (pos 2) sample)
push-IsHeap_example = push-IsHeap min_first min_first-IsOrder (pos 2) sample sample-IsHeap

pop-Popped_example : Ensures (Popped min_first min_first-IsOrder sample) (pop min_first sample)
pop-Popped_example = pop-Popped min_first min_first-IsOrder sample sample-IsHeap (omega arith)

heapify-IsHeap_example :
    Ensures
      (λ b. IsHeap min_first b × SameItems b (pos 5 ∷ pos 1 ∷ pos 3 ∷ []))
      (heapify min_first (pos 5 ∷ pos 1 ∷ pos 3 ∷ []))
heapify-IsHeap_example = heapify-IsHeap min_first min_first-IsOrder (pos 5 ∷ pos 1 ∷ pos 3 ∷ [])

abbrev greatest_first : List ℤ
greatest_first = pos 9 ∷ pos 4 ∷ []

greatest_first-IsHeap : IsHeap max_first greatest_first
unfolding max_first
greatest_first-IsHeap c p q r = ground arith

pop-peek_example : Ensures (λ r. (r.0, r.1) ≡ peek sample) (pop min_first sample)
pop-peek_example = pop-peek min_first min_first-IsOrder sample sample-IsHeap
