-- ===== src/LinkedList/Tests.antt =====
-- Runs of the list operations on small lists, and the theorems at them.
use mathlib.Core.List.{reverse}
use go_algorithm_practice.Prelude.Addresses.{has, Disjoint}
use go_algorithm_practice.Prelude.{
  ℕ, ◌<◌, ◌≡◌, ◌↔◌, refl, arith, Bool, true, false, inr, some, List, [], ◌∷◌, if◌then◌else◌, ◌==◌,
}
use go_algorithm_practice.Prelude.Int.{pos}
use go_algorithm_practice.Prelude.Run.{ok, panic}
use go_algorithm_practice.Prelude.Multiset.{SameItems}
use go_algorithm_practice.LinkedList.{
  Memory, reverse_list, cycle_loop, has_cycle, middle_loop, find_middle, merge_two_lists,
  remove_nth_from_end, is_palindrome,
}
use go_algorithm_practice.LinkedList.Segments.{Seg, SameVals, vals}
use go_algorithm_practice.LinkedList.Reverse.{Relinked, reverse_list-Relinked}
use go_algorithm_practice.LinkedList.Walks.{find_middle-walk}
use go_algorithm_practice.LinkedList.Cycle.{has_cycle_lem}
use go_algorithm_practice.LinkedList.Merge.Reference.{IsSorted}
use go_algorithm_practice.LinkedList.Merge.{merge_two_lists-IsSorted}
use go_algorithm_practice.LinkedList.Remove.{
  started, remove_nth_from_end-removes, remove_nth_from_end-edges,
}
use go_algorithm_practice.LinkedList.Palindrome.{is_palindrome_lem}

-- The values 1, 2, 1 at 1, 2, 3; the values 2, 7 at 5, 6 and 3, 4 at 11, 12;
-- and at 8, 9 a list that runs in a circle.
abbrev sample : Memory
sample a =
    if a == 1
    then record { val = pos 1; next = 2 }
    else (if a == 2
        then record { val = pos 2; next = 3 }
        else (if a == 3
            then record { val = pos 1; next = 0 }
            else (if a == 5
                then record { val = pos 2; next = 6 }
                else (if a == 6
                    then record { val = pos 7; next = 0 }
                    else (if a == 8
                        then record { val = pos 8; next = 9 }
                        else (if a == 9
                            then record { val = pos 9; next = 8 }
                            else (if a == 11
                                then record { val = pos 3; next = 12 }
                                else (if a == 12
                                    then record { val = pos 4; next = 0 }
                                    else record { val = pos 0; next = 0 }))))))))

three : Seg sample 0 1 (1 ∷ 2 ∷ 3 ∷ [])
three = (
  refl,
  (λ e. omega arith),
  refl,
  (refl, (λ e. omega arith), refl, (refl, (λ e. omega arith), refl, refl)),
)

two : Seg sample 0 5 (5 ∷ 6 ∷ [])
two = (refl, (λ e. omega arith), refl, (refl, (λ e. omega arith), refl, refl))

other_two : Seg sample 0 11 (11 ∷ 12 ∷ [])
other_two = (refl, (λ e. omega arith), refl, (refl, (λ e. omega arith), refl, refl))

apart : Disjoint (5 ∷ 6 ∷ []) (11 ∷ 12 ∷ [])
apart a i = ground arith

circle : Seg sample 8 8 (8 ∷ 9 ∷ [])
circle = (refl, (λ e. omega arith), refl, (refl, (λ e. omega arith), refl, refl))

linked_list_runs :
    (has_cycle 5 sample 8 ≡ some true)
    × (has_cycle 5 sample 1 ≡ some false)
    × (find_middle 5 sample 5 ≡ some 6)
    × (find_middle 5 sample 0 ≡ some 0)
unfolding has_cycle cycle_loop find_middle middle_loop
linked_list_runs = (refl, refl, refl, refl)

reverse_list-Relinked_example :
    (r : ℕ × Memory) × (reverse_list 4 sample 1 ≡ some r)
    × Relinked sample (1 ∷ 2 ∷ 3 ∷ []) (3 ∷ 2 ∷ 1 ∷ []) r
reverse_list-Relinked_example =
    reverse_list-Relinked (1 ∷ 2 ∷ 3 ∷ []) sample 1 4 three (omega arith)

find_middle-walk_example : find_middle 2 sample 1 ≡ some 2
find_middle-walk_example = find_middle-walk sample 1 2 (1 ∷ 2 ∷ 3 ∷ []) three (omega arith)

merge_two_lists-IsSorted_example :
    (p : ℕ) × (g : Memory) × (zs : List ℕ) × (merge_two_lists 10 5 sample 5 11 ≡ some (p, g))
    × Seg g 0 p zs
    × IsSorted (vals g zs)
    × SameItems (vals g zs) (pos 2 ∷ pos 7 ∷ pos 3 ∷ pos 4 ∷ [])
    × ((a : ℕ) → has a zs ≡ has a (5 ∷ 6 ∷ 11 ∷ 12 ∷ []))
merge_two_lists-IsSorted_example =
    merge_two_lists-IsSorted 10 5 sample 5 11 (5 ∷ 6 ∷ []) (11 ∷ 12 ∷ []) two other_two apart refl
      ((omega arith, tt), (tt, tt)) ((omega arith, tt), (tt, tt)) (omega arith)

remove_nth_from_end-removes_example :
    (p : ℕ) × (g : Memory) × (remove_nth_from_end 10 5 sample 1 2 ≡ ok (p, g))
    × Seg g 0 p (1 ∷ 3 ∷ [])
    × ((a : ℕ) → (a == 10) ≡ false → (g a).val ≡ (sample a).val)
remove_nth_from_end-removes_example =
    remove_nth_from_end-removes 10 5 sample 1 2 (1 ∷ []) (3 ∷ []) (λ e. omega arith) refl three
      (omega arith)

remove_nth_from_end-edges_example :
    (remove_nth_from_end 10 5 sample 1 0 ≡ panic)
    × (3 < 7 → remove_nth_from_end 10 5 sample 1 7 ≡ ok (0, started 10 sample 1))
remove_nth_from_end-edges_example =
    remove_nth_from_end-edges 10 5 sample 1 7 (1 ∷ 2 ∷ 3 ∷ []) (λ e. omega arith) refl three
      (omega arith)

is_palindrome_lem_example :
    (answer : Bool) × (g : Memory) × (is_palindrome 4 sample 1 ≡ some (answer, g))
    × ((answer ≡ true) ↔ (reverse (vals sample (1 ∷ 2 ∷ 3 ∷ [])) ≡ vals sample (1 ∷ 2 ∷ 3 ∷ [])))
    × SameVals sample g
    × Seg g 0 1 (1 ∷ 2 ∷ [])
is_palindrome_lem_example = is_palindrome_lem sample 1 4 (1 ∷ 2 ∷ 3 ∷ []) three (omega arith)

has_cycle_lem_example : has_cycle 3 sample 8 ≡ some true
has_cycle_lem_example = has_cycle_lem sample 8 8 3 (8 ∷ 9 ∷ []) circle (inr refl) (omega arith)
