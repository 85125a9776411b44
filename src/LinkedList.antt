-- ===== src/LinkedList.antt =====
-- data-structures/linkedlist.go: singly linked lists in a memory of nodes. A pointer is an address,
-- and 0 is nil. A read through nil panics, which is `none`, as is a loop that runs out of fuel; in
-- RemoveNthFromEnd, which can panic, the two are apart.
pub mod Segments
pub mod Reverse
pub mod Walks
pub mod Cycle
pub mod Merge
pub mod Remove
pub mod Palindrome
mod Tests
use go_algorithm_practice.Prelude.{
  ℕ, zero, suc, ◌+◌, Bool, true, false, not, ◌&&◌, ◌||◌, Option, none, some, if◌then◌else◌, ◌==◌,
}
use go_algorithm_practice.Prelude.Run.{Run, ok, panic, out_of_fuel, ◌>>=◌}
use go_algorithm_practice.Prelude.Int.{ℤ, pos, ltb_ℤ, ◌==ℤ◌}

pub record ListNode : Type 0 where
  pub val : ℤ
  pub next : ℕ

abbrev pub Memory : Type 0
Memory = ℕ → ListNode

-- `p.Next = q`
unfoldable pub set_next : Memory → ℕ → ℕ → Memory
set_next h p q a = if a == p then record { val = (h p).val; next = q } else h a

-- The loop of ReverseList.
unfoldable pub reverse_loop : ℕ → Memory → ℕ → ℕ → Option (ℕ × Memory)
reverse_loop zero h prev curr = none
reverse_loop (suc fuel) h prev curr = elim (curr == 0) [
  | true ↦ some (prev, h)
  | false ↦ reverse_loop fuel (set_next h curr prev) curr (h curr).next
]

unfoldable pub reverse_list : ℕ → Memory → ℕ → Option (ℕ × Memory)
unfolding reverse_loop
reverse_list fuel h head = reverse_loop fuel h 0 head

-- What ReverseListRecursive does after its own call: `head.Next.Next = head; head.Next = nil`.
unfoldable pub turn_back : ℕ → ℕ × Memory → Option (ℕ × Memory)
unfolding set_next
turn_back head (new_head, g) =
    if (g head).next == 0
    then none
    else some (new_head, set_next (set_next g (g head).next head) head 0)

unfoldable pub reverse_list_recursive : ℕ → Memory → ℕ → Option (ℕ × Memory)
unfolding turn_back
reverse_list_recursive zero h head = none
reverse_list_recursive (suc fuel) h head = elim (head == 0 || ((h head).next == 0)) [
  | true ↦ some (head, h)
  | false ↦ elim (reverse_list_recursive fuel h (h head).next) [
    | none ↦ none
    | some result ↦ turn_back head result
  ]
]

-- `fast != nil && fast.Next != nil`
abbrev pub may_jump : Memory → ℕ → Bool
may_jump h fast = not (fast == 0) && not ((h fast).next == 0)

abbrev pub jump : Memory → ℕ → ℕ
jump h fast = (h (h fast).next).next

-- HasCycle from a round on.
unfoldable pub cycle_loop : ℕ → Memory → ℕ → ℕ → Option Bool
cycle_loop zero h fast slow = none
cycle_loop (suc fuel) h fast slow = elim (may_jump h fast) [
  | false ↦ some false
  | true ↦ elim (slow == 0) [
    | true ↦ none
    | false ↦ elim (jump h fast == (h slow).next) [
      | true ↦ some true
      | false ↦ cycle_loop fuel h (jump h fast) (h slow).next
    ]
  ]
]

unfoldable pub has_cycle : ℕ → Memory → ℕ → Option Bool
unfolding cycle_loop
has_cycle fuel h head = cycle_loop fuel h head head

unfoldable pub middle_loop : ℕ → Memory → ℕ → ℕ → Option ℕ
middle_loop zero h fast slow = none
middle_loop (suc fuel) h fast slow = elim (may_jump h fast) [
  | false ↦ some slow
  | true ↦ elim (slow == 0) [ true ↦ none | false ↦ middle_loop fuel h (jump h fast) (h slow).next ]
]

unfoldable pub find_middle : ℕ → Memory → ℕ → Option ℕ
unfolding middle_loop
find_middle fuel h head = middle_loop fuel h head head

-- The loop of MergeTwoLists, and what it does behind the loop.
unfoldable pub merge_loop : ℕ → Memory → ℕ → ℕ → ℕ → Option Memory
unfolding set_next
merge_loop zero h n l1 l2 = none
merge_loop (suc fuel) h n l1 l2 = elim (not (l1 == 0) && not (l2 == 0)) [
  | false ↦
      if not (l1 == 0)
      then some (set_next h n l1)
      else (if not (l2 == 0) then some (set_next h n l2) else some h)
  | true ↦ elim (ltb_ℤ (h l1).val (h l2).val) [
    | true ↦ merge_loop fuel (set_next h n l1) l1 (set_next h n l1 l1).next l2
    | false ↦ merge_loop fuel (set_next h n l2) l2 l1 (set_next h n l2 l2).next
  ]
]

-- A new node at the address `dummy`.
unfoldable pub with_node : Memory → ℕ → ℕ → Memory
with_node h dummy next a = if a == dummy then record { val = pos 0; next = next } else h a

unfoldable pub merge_two_lists : ℕ → ℕ → Memory → ℕ → ℕ → Option (ℕ × Memory)
unfolding merge_loop with_node
merge_two_lists dummy fuel h l1 l2 = elim (merge_loop fuel (with_node h dummy 0) dummy l1 l2) [
  | none ↦ none
  | some g ↦ some ((g dummy).next, g)
]

-- RemoveNthFromEnd: `second` advances by so many steps; `none` if it is nil before one of them.
unfoldable pub advance : ℕ → Memory → ℕ → Option ℕ
advance zero h second = some second
advance (suc steps) h second =
    let rest = advance steps h (h second).next in if second == 0 then none else rest

-- Both pointers go on until the second is nil: where the first is then.
unfoldable pub trail : ℕ → Memory → ℕ → ℕ → Run ⊥ ℕ
trail zero h first second = out_of_fuel
trail (suc fuel) h first second = elim (second == 0) [
  | true ↦ ok first
  | false ↦ elim (first == 0) [ true ↦ panic | false ↦ trail fuel h (h first).next (h second).next ]
]

-- `first.Next = first.Next.Next`
unfoldable pub unlink_next : Memory → ℕ → Run ⊥ Memory
unfolding set_next
unlink_next h first =
    if first == 0 || ((h first).next == 0) then panic else ok (set_next h first (jump h first))

-- For `n` not negative. For a list that is too short the code returns nil.
unfoldable pub remove_nth_from_end : ℕ → ℕ → Memory → ℕ → ℕ → Run ⊥ (ℕ × Memory)
unfolding with_node advance trail unlink_next
remove_nth_from_end dummy fuel h head n =
    let h' = with_node h dummy head in
    elim (advance (n + 1) h' dummy) [
      | none ↦ ok (0, h')
      | some second ↦ trail fuel h' dummy second >>= λ first.
          unlink_next h' first >>= λ g. ok ((g dummy).next, g)
    ]

-- The comparing loop of IsPalindrome.
unfoldable pub compare_loop : ℕ → Memory → ℕ → ℕ → Option Bool
compare_loop zero h n m = none
compare_loop (suc fuel) h n m = elim (not (n == 0) && not (m == 0)) [
  | false ↦ some true
  | true ↦ elim ((h n).val ==ℤ (h m).val) [
    | true ↦ compare_loop fuel h (h n).next (h m).next
    | false ↦ some false
  ]
]

-- IsPalindrome, and the memory after it.
unfoldable pub is_palindrome : ℕ → Memory → ℕ → Option (Bool × Memory)
unfolding find_middle reverse_list compare_loop
is_palindrome fuel h head = elim (find_middle fuel h head) [
  | none ↦ none
  | some middle ↦ elim (reverse_list fuel h middle) [
    | none ↦ none
    | some (m, g) ↦ elim (compare_loop fuel g head m) [
      | none ↦ none
      | some answer ↦ some (answer, g)
    ]
  ]
]
