-- ===== src/Bst/Update.antt =====
-- Insert, Search and Delete of data-structures/bst.go against the ascending list of the values.
use go_algorithm_practice.Prelude.{
  ◌≡◌, refl, sym, ◌∙◌, arith, true, false, not, List, [], ◌∷◌, ◌++◌, append_assoc, append-nil, inl,
  inr, Bool-cases, if◌then◌else◌,
}
use go_algorithm_practice.Prelude.Int.{ℤ, ◌<ℤ◌, ◌==ℤ◌, ==ℤ_iff}
use go_algorithm_practice.Bst.Sorted.{
  AllList, Ascending, Ascending-split, contains, insert_sorted, erase, insert_sorted-left,
  insert_sorted-right, insert_sorted_self, erase_self, erase-left, erase-right, contains-left,
  contains-right, contains_self, contains-insert_sorted, contains-erase, erase-Ascending,
  erase-not_contained,
}
use go_algorithm_practice.Bst.Order.{IsOrdered, insert-IsOrdered}
use go_algorithm_practice.Bst.InOrder.{
  to_list, All-to_list, to_list-Ascending, IsOrdered-of_Ascending, in_order-eq-to_list,
}
use go_algorithm_practice.Bst.{
  Tree, nil, node, do_insert, insert, do_search, search_value, leftmost, rightmost, successor,
  predecessor, val_of, Draws, draw, Deleter, by_successor, by_predecessor, is_nil, hibbard_delete,
  delete_helper, delete, in_order,
}

-- The sides of an ordered node, as lists.
module _ (l : Tree) (v : ℤ) (r : Tree) (s : IsOrdered (node l v r)) where
  lows : AllList (λ x. x <ℤ v) (to_list l)
  lows = All-to_list _ l s.0

  highs : AllList (λ x. v <ℤ x) (to_list r)
  highs = All-to_list _ r s.1

do_insert-refines :
    (t : Tree) (x : ℤ)
    → IsOrdered t
    → (to_list (do_insert t x).0 ≡ insert_sorted x (to_list t))
      × ((do_insert t x).1 ≡ not (contains x (to_list t)))
unfolding do_insert
do_insert-refines nil x s = unfold insert_sorted contains in (refl, refl)
do_insert-refines (node l v r) x s = ground (
  arith,
  do_insert-refines l x,
  do_insert-refines r x,
  ==ℤ_iff x v,
  insert_sorted-left v (to_list r) (to_list l) x,
  insert_sorted-right v (to_list r) (to_list l) x (lows l v r s),
  insert_sorted_self v (to_list r) (to_list l) (lows l v r s),
  contains-left (to_list l) v (to_list r) x (highs l v r s),
  contains-right (to_list l) v (to_list r) x (lows l v r s),
  contains_self (to_list l) v (to_list r),
)

do_search-refines : (t : Tree) (x : ℤ) → IsOrdered t → do_search t x ≡ contains x (to_list t)
unfolding do_search
do_search-refines nil x s = unfold contains in refl
do_search-refines (node l v r) x s = ground (
  arith,
  do_search-refines l x,
  do_search-refines r x,
  ==ℤ_iff v x,
  contains-left (to_list l) v (to_list r) x (highs l v r s),
  contains-right (to_list l) v (to_list r) x (lows l v r s),
  contains_self (to_list l) v (to_list r),
)

-- The lower end of a tree is the node at which `successor` stops, the upper end that of
-- `predecessor`.
leftmost-head :
    (t : Tree) → is_nil t ≡ false → (rest : List ℤ) × (to_list t ≡ val_of (leftmost t) ∷ rest)
unfolding is_nil leftmost val_of
leftmost-head nil h = cc
leftmost-head (node nil v r) h = (to_list r, refl)
leftmost-head (node (node ll lv lr) v r) h =
    let (rest, e) = leftmost-head (node ll lv lr) refl in (rest ++ v ∷ to_list r, rw e)

rightmost-last :
    (t : Tree)
    → is_nil t ≡ false
    → (init : List ℤ) × (to_list t ≡ init ++ val_of (rightmost t) ∷ [])
unfolding is_nil rightmost val_of
rightmost-last nil h = cc
rightmost-last (node l v nil) h = (to_list l, refl)
rightmost-last (node l v (node rl rv rr)) h =
    let (init, e) = rightmost-last (node rl rv rr) refl in
    (to_list l ++ v ∷ init, rw e (sym (append_assoc (to_list l) (v ∷ init) _)))

Erases : Deleter → Tree → Type 0
Erases d t = (x : ℤ) (g : Draws) → to_list (d x g).0 ≡ erase x (to_list t)

-- A two-child node that takes over the value next to its own keeps all values but its own.
module _ (d : Deleter) (l : Tree) (v : ℤ) (r : Tree) (s : IsOrdered (node l v r)) (g : Draws) where
  to_list-by_successor :
      Erases d r → is_nil r ≡ false → to_list (by_successor d l v r g).0 ≡ to_list l ++ to_list r
  unfolding Erases by_successor successor
  to_list-by_successor h n =
      let (rest, e) = leftmost-head r n in
      let first = val_of (leftmost r) in
      let order = to_list-Ascending r s.3 in
      let gone : erase first (first ∷ rest) ≡ rest = erase_self first rest [] tt in
      rw (h first g, e) (rw gone)

  to_list-by_predecessor :
      Erases d l → is_nil l ≡ false → to_list (by_predecessor d l v r g).0 ≡ to_list l ++ to_list r
  unfolding Erases by_predecessor predecessor
  to_list-by_predecessor h n =
      let (init, e) = rightmost-last l n in
      let last = val_of (rightmost l) in
      let order : Ascending (init ++ last ∷ []) = rw e at (to_list-Ascending l s.2) in
      let below = (Ascending-split init last [] order).0 in
      let gone : erase last (init ++ last ∷ []) ≡ init =
        erase_self last [] init below ∙ append-nil init in
      rw (h last g, e) (rw gone (sym (append_assoc init (last ∷ []) (to_list r))))

to_list-hibbard_delete :
    (dl dr : Deleter) (l : Tree) (v : ℤ) (r : Tree) (g : Draws)
    → IsOrdered (node l v r)
    → Erases dl l
    → Erases dr r
    → is_nil l ≡ false
    → is_nil r ≡ false
    → to_list (hibbard_delete dl dr l v r g).0 ≡ to_list l ++ to_list r
unfolding hibbard_delete
to_list-hibbard_delete dl dr l v r g s hl hr nl nr = ground (
  arith,
  to_list-by_successor dr l v r s (draw g).1 hr nr,
  to_list-by_predecessor dl l v r s (draw g).1 hl nl,
)

is_nil-to_list : (t : Tree) → is_nil t ≡ true → to_list t ≡ []
unfolding is_nil
is_nil-to_list nil h = refl
is_nil-to_list (node l v r) h = cc

delete_helper-refines : (t : Tree) → IsOrdered t → Erases (delete_helper t) t
unfolding Erases delete_helper
delete_helper-refines nil s x g = unfold erase in refl
delete_helper-refines (node l v r) s x g = ground (
  arith,
  delete_helper-refines l s.2 x g,
  delete_helper-refines r s.3 x g,
  ==ℤ_iff x v,
  erase-left (to_list l) v (to_list r) x (highs l v r s),
  erase-right v (to_list r) (to_list l) x (lows l v r s),
  erase_self v (to_list r) (to_list l) (lows l v r s),
  is_nil-to_list l,
  is_nil-to_list r,
  append-nil (to_list l),
  to_list-hibbard_delete (delete_helper l) (delete_helper r) l v r g s (delete_helper-refines l s.2)
      (delete_helper-refines r s.3),
)

-- Insert on an ordered tree puts the value at its place among the values, once, and returns whether
-- it was new. The tree stays ordered.
pub insert-refines :
    (t : Tree) (x : ℤ)
    → IsOrdered t
    → (in_order (insert t x).0 ≡ insert_sorted x (in_order t))
      × ((insert t x).1 ≡ not (contains x (in_order t)))
      × IsOrdered (insert t x).0
unfolding insert
insert-refines t x s =
    let both = do_insert-refines t x s in
    let kept = insert-IsOrdered t x s in
    rw (in_order-eq-to_list (insert t x).0, in_order-eq-to_list t) (both.0, both.1, kept)

-- Search on an ordered tree finds exactly the values of the tree.
pub search_value-refines :
    (t : Tree) (x : ℤ) → IsOrdered t → search_value t x ≡ contains x (in_order t)
unfolding search_value
search_value-refines t x s = rw in_order-eq-to_list (do_search-refines t x s)

-- Delete on an ordered tree takes exactly the given value out of the values, whatever `rand.Intn`
-- draws, and returns whether it was there. The tree stays ordered.
pub delete-refines :
    (t : Tree) (x : ℤ) (g : Draws)
    → IsOrdered t
    → (in_order (delete t x g).0 ≡ erase x (in_order t))
      × ((delete t x g).1 ≡ contains x (in_order t))
      × IsOrdered (delete t x g).0
unfolding delete Erases
delete-refines t x g s =
    let found = do_search-refines t x s in
    let ih = delete_helper-refines t s x g in
    let order : IsOrdered (delete_helper t x g).0 =
      IsOrdered-of_Ascending _ (rw ih (erase-Ascending x (to_list t) (to_list-Ascending t s))) in
    rw (in_order-eq-to_list _, in_order-eq-to_list t)
      (elim (Bool-cases (do_search t x)) [
        | inl there ↦ rw there (ih, sym (sym found ∙ there), order)
        | inr absent ↦ rw absent (
          sym (erase-not_contained x (to_list t) (sym found ∙ absent)),
          sym (sym found ∙ absent),
          s,
        )
      ])

-- Search after Insert: the inserted value is found, every other value as before.
pub search_value-insert :
    (t : Tree) (x y : ℤ)
    → IsOrdered t
    → search_value (insert t x).0 y ≡ (if y ==ℤ x then true else search_value t y)
search_value-insert t x y s =
    let after = insert-refines t x s in
    rw (search_value-refines (insert t x).0 y after.2, after.0, search_value-refines t y s)
      (contains-insert_sorted x y (in_order t))

-- Search after Delete: the deleted value is gone, every other value is found as before.
pub search_value-delete :
    (t : Tree) (x y : ℤ) (g : Draws)
    → IsOrdered t
    → search_value (delete t x g).0 y ≡ (if y ==ℤ x then false else search_value t y)
search_value-delete t x y g s =
    let after = delete-refines t x g s in
    rw (search_value-refines (delete t x g).0 y after.2, after.0, search_value-refines t y s)
      (contains-erase x y (in_order t) (rw in_order-eq-to_list (to_list-Ascending t s)))
