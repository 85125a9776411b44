-- ===== src/Bst/Order.antt =====
-- The search-tree order, and that insertion keeps it.
use go_algorithm_practice.Prelude.{arith}
use go_algorithm_practice.Prelude.Int.{ℤ, ◌<ℤ◌, ==ℤ_iff}
use go_algorithm_practice.Bst.{Tree, nil, node, do_insert, insert}

abbrev pub All : (ℤ → Type 0) → Tree → Type 0
All P nil = Unit
All P (node l v r) = All P l × P v × All P r

pub All-imp : {P Q : ℤ → Type 0} → ((x : ℤ) → P x → Q x) → (t : Tree) → All P t → All Q t
All-imp f nil a = tt
All-imp f (node l v r) a = (All-imp f l a.0, f v a.1, All-imp f r a.2)

abbrev pub IsOrdered : Tree → Type 0
IsOrdered nil = Unit
IsOrdered (node l v r) = All (λ x. x <ℤ v) l × All (λ x. v <ℤ x) r × IsOrdered l × IsOrdered r

All-do_insert : (P : ℤ → Type 0) (t : Tree) (x : ℤ) → P x → All P t → All P (do_insert t x).0
unfolding do_insert
All-do_insert P nil x p a = (tt, p, tt)
All-do_insert P (node l v r) x p a = ground (arith, All-do_insert P l x, All-do_insert P r x)

do_insert-IsOrdered : (t : Tree) (x : ℤ) → IsOrdered t → IsOrdered (do_insert t x).0
unfolding do_insert
do_insert-IsOrdered nil x s = (tt, tt, tt, tt)
do_insert-IsOrdered (node l v r) x s = ground (
  arith,
  do_insert-IsOrdered l x,
  do_insert-IsOrdered r x,
  All-do_insert (λ y. y <ℤ v) l x,
  All-do_insert (λ y. v <ℤ y) r x,
  ==ℤ_iff x v,
)

-- Insert keeps the order.
pub insert-IsOrdered : (t : Tree) (x : ℤ) → IsOrdered t → IsOrdered (insert t x).0
unfolding insert
insert-IsOrdered t x s = do_insert-IsOrdered t x s
