-- ===== src/Bst/Tests.antt =====
-- Runs of the search tree, and the theorems at a tree of five values.
use go_algorithm_practice.Prelude.{◌≡◌, ◌↔◌, refl, arith, true, not, some, [], ◌∷◌}
use go_algorithm_practice.Prelude.Int.{pos, negsuc}
use go_algorithm_practice.Bst.Sorted.{contains, insert_sorted, erase}
use go_algorithm_practice.Bst.Order.{IsOrdered}
use go_algorithm_practice.Bst.InOrder.{in_order_stack-eq-in_order, is_valid_iff}
use go_algorithm_practice.Bst.Update.{insert-refines, search_value-refines, delete-refines}
use go_algorithm_practice.Bst.{
  Tree, nil, node, leaf, insert, search_value, delete, in_order, in_order_stack, is_valid, height,
}

abbrev sample : Tree
sample = node (node (leaf (negsuc 2)) (pos 1) (leaf (pos 2))) (pos 4) (leaf (pos 9))

sample-IsOrdered : IsOrdered sample
sample-IsOrdered = omega arith

-- The root has two children: a draw of 0 lifts its successor, a draw of 1 its predecessor.
delete_both_ways :
    ((delete sample (pos 4) (0 ∷ [])).0
      ≡ node (node (leaf (negsuc 2)) (pos 1) (leaf (pos 2))) (pos 9) nil)
    × ((delete sample (pos 4) (1 ∷ [])).0
        ≡ node (node (leaf (negsuc 2)) (pos 1) nil) (pos 2) (leaf (pos 9)))
unfolding delete
delete_both_ways = (refl, refl)

in_order_runs :
    (in_order sample ≡ negsuc 2 ∷ pos 1 ∷ pos 2 ∷ pos 4 ∷ pos 9 ∷ [])
    × (in_order_stack 6 sample ≡ some (negsuc 2 ∷ pos 1 ∷ pos 2 ∷ pos 4 ∷ pos 9 ∷ []))
    × (height sample ≡ 3)
unfolding in_order in_order_stack height
in_order_runs = (refl, refl, refl)

insert-refines_example :
    (in_order (insert sample (pos 3)).0 ≡ insert_sorted (pos 3) (in_order sample))
    × ((insert sample (pos 3)).1 ≡ not (contains (pos 3) (in_order sample)))
    × IsOrdered (insert sample (pos 3)).0
insert-refines_example = insert-refines sample (pos 3) sample-IsOrdered

search_value-refines_example : search_value sample (pos 2) ≡ contains (pos 2) (in_order sample)
search_value-refines_example = search_value-refines sample (pos 2) sample-IsOrdered

delete-refines_example :
    (in_order (delete sample (pos 4) (1 ∷ [])).0 ≡ erase (pos 4) (in_order sample))
    × ((delete sample (pos 4) (1 ∷ [])).1 ≡ contains (pos 4) (in_order sample))
    × IsOrdered (delete sample (pos 4) (1 ∷ [])).0
delete-refines_example = delete-refines sample (pos 4) (1 ∷ []) sample-IsOrdered

in_order_stack-eq-in_order_example : in_order_stack 6 sample ≡ some (in_order sample)
in_order_stack-eq-in_order_example = in_order_stack-eq-in_order sample 6 (omega arith)

is_valid_iff_example : (is_valid sample ≡ true) ↔ IsOrdered sample
is_valid_iff_example = is_valid_iff sample
