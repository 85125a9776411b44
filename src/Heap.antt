-- ===== src/Heap.antt =====
-- data-structures/heap.go: binary heaps of integers in a slice. `MinHeap` and `MaxHeap` hold a
-- `baseHeap`, whose only field is `items`, so a heap is its list of items. Their loops are the same
-- text but for the test on two items: `before a b` is `a < b` in a `MinHeap` and `b < a` in a
-- `MaxHeap`. Every index that the code reads is guarded, so the default of a read out of range,
-- which in Go is a panic, is never seen. `none` is fuel that ran out.
pub mod Order
pub mod Down
pub mod Up
pub mod Calls
mod Tests
use go_algorithm_practice.Prelude.{
  ℕ, zero, suc, ◌+◌, ◌-◌, ◌*◌, ◌/◌, Bool, true, false, ◌&&◌, Option, none, some, List, [], ◌∷◌,
  ◌++◌, if◌then◌else◌, ◌==◌, ltb, length, get_or, set, take,
}
use go_algorithm_practice.Prelude.Int.{ℤ, pos, ltb_ℤ}

abbrev pub at : List ℤ → ℕ → ℤ
at items i = get_or items i (pos 0)

-- `i - 1` is -1 at the root, and -1 / 2 is 0 in Go.
abbrev pub parent : ℕ → ℕ
parent i = (i - 1) / 2

abbrev pub left_child : ℕ → ℕ
left_child i = 2 * i + 1

abbrev pub right_child : ℕ → ℕ
right_child i = 2 * i + 2

unfoldable pub swap : List ℤ → ℕ → ℕ → List ℤ
swap items i j = set (set items i (at items j)) j (at items i)

unfoldable pub size : List ℤ → ℕ
size items = length items

unfoldable pub is_empty : List ℤ → Bool
is_empty items = length items == 0

unfoldable pub peek : List ℤ → ℤ × Bool
unfolding is_empty
peek items = if is_empty items then (pos 0, false) else (at items 0, true)

infixl 5 ◌>>=◌
abbrev pub ◌>>=◌ {ℓ κ} : {A : Type ℓ} {B : Type κ} → Option A → (A → Option B) → Option B
none >>= f = none
some a >>= f = f a

-- The test of `MinHeap` and that of `MaxHeap`.
abbrev pub Before : Type 0
Before = ℤ → ℤ → Bool

unfoldable pub min_first : Before
min_first a b = ltb_ℤ a b

unfoldable pub max_first : Before
max_first a b = ltb_ℤ b a

-- The callback of `baseHeap.siftDown`: a test on two positions of the current items.
abbrev pub Less : Type 0
Less = List ℤ → ℕ → ℕ → Bool

abbrev pub less_by : Before → Less
less_by before items i j = before (at items i) (at items j)

module _ (less : Less) where
  -- `target` at the end of a round of siftDown.
  unfoldable pub pick_target : List ℤ → ℕ → ℕ
  pick_target items i =
      let l = left_child i in
      let r = right_child i in
      let n = length items in
      let target = if ltb l n && less items l i then l else i in
      if ltb r n && less items r target then r else target

  unfoldable pub sift_down_loop : ℕ → List ℤ → ℕ → Option (List ℤ)
  sift_down_loop zero items i = none
  sift_down_loop (suc fuel) items i =
      let target = pick_target items i in
      elim (target == i) [
        | true ↦ some items
        | false ↦ sift_down_loop fuel (swap items i target) target
      ]

  -- siftDown: a round moves `i` down, so there are at most as many rounds as items, and one more.
  unfoldable pub base_sift_down : List ℤ → ℕ → Option (List ℤ)
  unfolding sift_down_loop
  base_sift_down items i = sift_down_loop (length items + 1) items i

module _ (before : Before) where
  -- `MinHeap.siftDown` and `MaxHeap.siftDown`, which have the text of `baseHeap.siftDown`.
  unfoldable pub sift_down : List ℤ → ℕ → Option (List ℤ)
  unfolding base_sift_down
  sift_down items i = base_sift_down (less_by before) items i

  -- The loop of Push, from the position of the new item: `val` stands at `i`.
  unfoldable pub bubble_up : ℕ → List ℤ → ℕ → Option (List ℤ)
  bubble_up zero items i = none
  bubble_up (suc fuel) items i = elim (ltb 0 i && before (at items i) (at items (parent i))) [
    | true ↦ bubble_up fuel (swap items i (parent i)) (parent i)
    | false ↦ some items
  ]

  unfoldable pub push : ℤ → List ℤ → Option (List ℤ)
  unfolding bubble_up
  push val items = let i = length items in bubble_up (i + 1) (items ++ val ∷ []) i

  -- The value, whether it is valid, and the heap after the call.
  unfoldable pub pop : List ℤ → Option (ℤ × Bool × List ℤ)
  unfolding is_empty sift_down
  pop items =
      if is_empty items
      then some (pos 0, false, items)
      else (let root_val = at items 0 in
          let f_val = at items (length items - 1) in
          let moved = set items 0 f_val in
          sift_down (take (length moved - 1) moved) 0 >>= λ rest. some (root_val, true, rest))

  -- The loop of Heapify, from position `i - 1` down to 0.
  unfoldable pub heapify_loop : ℕ → List ℤ → Option (List ℤ)
  unfolding sift_down
  heapify_loop zero items = some items
  heapify_loop (suc i) items = sift_down items i >>= λ items'. heapify_loop i items'

  unfoldable pub heapify : List ℤ → Option (List ℤ)
  unfolding heapify_loop
  heapify items = heapify_loop (length items / 2) items

-- The methods of MinHeap and of MaxHeap: the source has one text for each, with `<` the other way
-- round.
abbrev pub min_push : ℤ → List ℤ → Option (List ℤ)
min_push = push min_first

abbrev pub min_pop : List ℤ → Option (ℤ × Bool × List ℤ)
min_pop = pop min_first

abbrev pub min_heapify : List ℤ → Option (List ℤ)
min_heapify = heapify min_first

abbrev pub max_push : ℤ → List ℤ → Option (List ℤ)
max_push = push max_first

abbrev pub max_pop : List ℤ → Option (ℤ × Bool × List ℤ)
max_pop = pop max_first

abbrev pub max_heapify : List ℤ → Option (List ℤ)
max_heapify = heapify max_first

abbrev pub max_sift_down : List ℤ → ℕ → Option (List ℤ)
max_sift_down = sift_down max_first

-- NewMinHeap and NewMaxHeap.
abbrev pub new_heap : List ℤ
new_heap = []
