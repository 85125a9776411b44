-- ===== src/Bst.antt =====
-- data-structures/bst.go: the binary search tree. A node is reached by one pointer only, so a
-- method that changes nodes in place returns the new subtree instead; the root of a `BST` is its
-- whole state, and `nil` is `nil`. `rand.Intn(2)` is a supply of draws, read once for each call.
pub mod Sorted
pub mod Order
pub mod InOrder
pub mod Update
mod Tests
use go_algorithm_practice.Prelude.{
  ℕ, zero, suc, ◌+◌, max, Bool, true, false, not, ◌&&◌, ◌||◌, Option, none, some, List, [], ◌∷◌,
  ◌++◌, if◌then◌else◌, ◌==◌, ltb, length,
}
use go_algorithm_practice.Prelude.Int.{ℤ, pos, ltb_ℤ, leb_ℤ, ◌==ℤ◌}

pub data Tree : Type 0 where
  nil : Tree
  node : Tree → ℤ → Tree → Tree

abbrev pub leaf : ℤ → Tree
leaf v = node nil v nil

-- NewBST
unfoldable pub new_bst : Tree
new_bst = nil

-- doInsert: the new subtree, and whether the value was inserted. The code stores a new leaf in the
-- nil child (or in the root); here the call on `nil` returns that leaf.
unfoldable pub do_insert : Tree → ℤ → Tree × Bool
do_insert nil val = (leaf val, true)
do_insert (node l v r) val =
    if val ==ℤ v
    then (node l v r, false)
    else if ltb_ℤ val v
    then (let (l', done) = do_insert l val in (node l' v r, done))
    else let (r', done) = do_insert r val in (node l v r', done)

unfoldable pub insert : Tree → ℤ → Tree × Bool
unfolding do_insert
insert t val = do_insert t val

unfoldable pub do_search : Tree → ℤ → Bool
do_search nil val = false
do_search (node l v r) val =
    if v ==ℤ val
    then true
    else if ltb_ℤ val v
    then do_search l val
    else (if ltb_ℤ v val then do_search r val else false)

unfoldable pub search_value : Tree → ℤ → Bool
unfolding do_search
search_value t val = do_search t val

-- The loops of `successor` and `predecessor`: the node they stop at.
unfoldable pub leftmost : Tree → Tree
leftmost nil = nil
leftmost (node nil v r) = node nil v r
leftmost (node (node ll lv lr) v r) = leftmost (node ll lv lr)

unfoldable pub rightmost : Tree → Tree
rightmost nil = nil
rightmost (node l v nil) = node l v nil
rightmost (node l v (node rl rv rr)) = rightmost (node rl rv rr)

unfoldable pub successor : Tree → Tree
unfolding leftmost
successor nil = nil
successor (node l v r) = leftmost r

unfoldable pub predecessor : Tree → Tree
unfolding rightmost
predecessor nil = nil
predecessor (node l v r) = rightmost l

-- `n.Val`. The code reads it of nodes only: `val_of nil` stands for no read that happens.
unfoldable pub val_of : Tree → ℤ
val_of nil = pos 0
val_of (node l v r) = v

-- The draws that `rand.Intn(2)` is going to return; a used-up supply goes on with 0.
abbrev pub Draws : Type 0
Draws = List ℕ

unfoldable pub draw : Draws → ℕ × Draws
draw [] = (0, [])
draw (k ∷ g) = (k, g)

abbrev pub Deleter : Type 0
Deleter = ℤ → Draws → Tree × Draws

-- Put `deleteHelper(n.Right, suc.Val)` below the value of the successor, or the like on the left.
unfoldable pub by_successor : Deleter → Tree → ℤ → Tree → Draws → Tree × Draws
unfolding successor val_of
by_successor delete_right l v r g =
    let suc_val = val_of (successor (node l v r)) in
    let (r', g') = delete_right suc_val g in (node l suc_val r', g')

unfoldable pub by_predecessor : Deleter → Tree → ℤ → Tree → Draws → Tree × Draws
unfolding predecessor val_of
by_predecessor delete_left l v r g =
    let pred_val = val_of (predecessor (node l v r)) in
    let (l', g') = delete_left pred_val g in (node l' pred_val r, g')

unfoldable pub is_nil : Tree → Bool
is_nil nil = true
is_nil (node l v r) = false

-- hibbardDelete of the node `node l v r`. It calls `deleteHelper` on the two children only, so it
-- takes these two calls as arguments.
unfoldable pub hibbard_delete : Deleter → Deleter → Tree → ℤ → Tree → Draws → Tree × Draws
unfolding by_successor by_predecessor is_nil draw
hibbard_delete delete_left delete_right l v r g =
    let (random, g') = draw g in
    if random == 0
    then if not (is_nil r)
      then by_successor delete_right l v r g'
      else (if not (is_nil l) then by_predecessor delete_left l v r g' else (nil, g'))
    else if not (is_nil l)
    then by_predecessor delete_left l v r g'
    else (if not (is_nil r) then by_successor delete_right l v r g' else (nil, g'))

unfoldable pub delete_helper : Tree → ℤ → Draws → Tree × Draws
unfolding hibbard_delete is_nil
delete_helper nil val g = (nil, g)
delete_helper (node l v r) val g =
    if ltb_ℤ val v
    then (let (l', g') = delete_helper l val g in (node l' v r, g'))
    else if val ==ℤ v
    then if is_nil l && is_nil r
      then (nil, g)
      else if is_nil l
      then (r, g)
      else (if is_nil r then (l, g) else hibbard_delete (delete_helper l) (delete_helper r) l v r g)
    else let (r', g') = delete_helper r val g in (node l v r', g')

-- Delete: the new tree, whether the value was there, and the draws that are left.
unfoldable pub delete : Tree → ℤ → Draws → Tree × Bool × Draws
unfolding search_value delete_helper
delete t val g =
    if not (search_value t val)
    then (t, false, g)
    else let (t', g') = delete_helper t val g in (t', true, g')

-- inOrderHelperRecursive: the result after the values of the subtree are appended to it.
unfoldable pub in_order_helper : Tree → List ℤ → List ℤ
in_order_helper nil result = result
in_order_helper (node l v r) result = in_order_helper r (in_order_helper l result ++ v ∷ [])

unfoldable pub in_order : Tree → List ℤ
unfolding in_order_helper
in_order t = in_order_helper t []

-- inOrderHelperStack. The inner loop pushes the nodes from `current` down to the left; the outer one
-- pops the last of them, appends its value and goes right. The head of the list is the end of the
-- slice. `none` is a run-time panic or fuel that ran out.
unfoldable pub push_left : Tree → List Tree → List Tree
push_left nil stack = stack
push_left (node l v r) stack = push_left l (node l v r ∷ stack)

abbrev pub Walk : Type 0
Walk = Tree → List Tree → List ℤ → Option (List ℤ)

unfoldable pub visit : Walk → List Tree → List ℤ → Option (List ℤ)
visit next [] result = none
visit next (nil ∷ stack) result = none
visit next (node l v r ∷ stack) result = next r stack (result ++ v ∷ [])

unfoldable pub stack_loop : ℕ → Walk
unfolding push_left visit is_nil
stack_loop zero current stack result = none
stack_loop (suc fuel) current stack result = elim (not (is_nil current) || ltb 0 (length stack)) [
  | true ↦ visit (stack_loop fuel) (push_left current stack) result
  | false ↦ some result
]

unfoldable pub in_order_stack : ℕ → Tree → Option (List ℤ)
unfolding stack_loop
in_order_stack fuel t = stack_loop fuel t [] []

-- The loop of isValidInOrder, which compares each value with the one before it.
unfoldable pub ascending_from : ℤ → List ℤ → Bool
ascending_from prev [] = true
ascending_from prev (x ∷ xs) = if leb_ℤ x prev then false else ascending_from x xs

unfoldable pub is_valid_in_order_values : List ℤ → Bool
unfolding ascending_from
is_valid_in_order_values [] = true
is_valid_in_order_values (x ∷ xs) = ascending_from x xs

unfoldable pub is_valid_in_order : Tree → Bool
unfolding in_order is_valid_in_order_values
is_valid_in_order t = is_valid_in_order_values (in_order t)

-- `min != nil && n.Val <= *min`, and the same for `max`.
unfoldable pub below_min : Option ℤ → ℤ → Bool
below_min none v = false
below_min (some b) v = leb_ℤ v b

unfoldable pub above_max : Option ℤ → ℤ → Bool
above_max none v = false
above_max (some b) v = leb_ℤ b v

unfoldable pub is_valid_helper : Tree → Option ℤ → Option ℤ → Bool
unfolding below_min above_max
is_valid_helper nil lo hi = true
is_valid_helper (node l v r) lo hi =
    if below_min lo v || above_max hi v
    then false
    else is_valid_helper l lo (some v) && is_valid_helper r (some v) hi

unfoldable pub is_valid : Tree → Bool
unfolding is_valid_helper
is_valid t = is_valid_helper t none none

unfoldable pub height_helper : Tree → ℕ
height_helper nil = 0
height_helper (node l v r) = 1 + max (height_helper l) (height_helper r)

unfoldable pub height : Tree → ℕ
unfolding height_helper
height t = height_helper t
