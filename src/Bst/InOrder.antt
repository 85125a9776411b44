-- ===== src/Bst/InOrder.antt =====
-- The traversals and the validity tests of data-structures/bst.go.
use go_algorithm_practice.Prelude.{
  ℕ, zero, suc, ◌+◌, ◌≤◌, ◌<◌, ◌*◌, ◌^◌, max, ◌≡◌, ◌≢◌, refl, sym, ap, ◌∙◌, ◌↔◌, arith, true, false,
  Option, none, some, List, [], ◌∷◌, ◌++◌, append_assoc, append-nil, Bool-ext, length,
  length-append, lt→ltb,
}
use native.Mathlib.Nat.{pow-suc, pow-le-pow_right}
use go_algorithm_practice.Prelude.Int.{ℤ, ◌<ℤ◌}
use go_algorithm_practice.Bst.Sorted.{
  AllList, Ascending, AllList-append, AllList-split, AllList-imp, Ascending-middle, Ascending-split,
}
use go_algorithm_practice.Bst.Order.{All, All-imp, IsOrdered}
use go_algorithm_practice.Bst.{
  Tree, nil, node, in_order_helper, in_order, push_left, visit, stack_loop, in_order_stack, is_nil,
  ascending_from, is_valid_in_order_values, is_valid_in_order, below_min, above_max,
  is_valid_helper, is_valid, height_helper, height,
}

-- The values from left to right, by the plain recursion.
abbrev pub to_list : Tree → List ℤ
to_list nil = []
to_list (node l v r) = to_list l ++ v ∷ to_list r

abbrev pub size : Tree → ℕ
size nil = 0
size (node l v r) = suc (size l + size r)

pub size-eq-length : (t : Tree) → size t ≡ length (to_list t)
size-eq-length nil = refl
size-eq-length (node l v r) =
    omega (arith, size-eq-length l, size-eq-length r, length-append (to_list l) (v ∷ to_list r))

in_order_helper-eq : (t : Tree) (acc : List ℤ) → in_order_helper t acc ≡ acc ++ to_list t
unfolding in_order_helper
in_order_helper-eq nil acc = sym (append-nil acc)
in_order_helper-eq (node l v r) acc =
    simp (in_order_helper-eq r, in_order_helper-eq l, append_assoc)

-- InOrder returns the values of the tree from left to right.
pub in_order-eq-to_list : (t : Tree) → in_order t ≡ to_list t
unfolding in_order
in_order-eq-to_list t = in_order_helper-eq t []

-- What the stack of nodes still has to yield.
abbrev pending : List Tree → List ℤ
pending [] = []
pending (nil ∷ st) = pending st
pending (node l v r ∷ st) = v ∷ to_list r ++ pending st

abbrev AllNodes : List Tree → Type 0
AllNodes [] = Unit
AllNodes (t ∷ st) = (is_nil t ≡ false) × AllNodes st

push_left-pending : (t : Tree) (st : List Tree) → pending (push_left t st) ≡ to_list t ++ pending st
unfolding push_left
push_left-pending nil st = refl
push_left-pending (node l v r) st = simp (push_left-pending l (node l v r ∷ st), append_assoc)

push_left-AllNodes : (t : Tree) (st : List Tree) → AllNodes st → AllNodes (push_left t st)
unfolding push_left is_nil
push_left-AllNodes nil st a = a
push_left-AllNodes (node l v r) st a = push_left-AllNodes l (node l v r ∷ st) (refl, a)

push_left-ne_nil : (t : Tree) (st : List Tree) → st ≢ [] → push_left t st ≢ []
unfolding push_left
push_left-ne_nil nil st h = h
push_left-ne_nil (node l v r) st h = push_left-ne_nil l (node l v r ∷ st) (λ e. cc)

-- What the loop yields from `current` and the stack, with fuel `f`.
abbrev Yields : ℕ → Type 0
Yields f =
    (t : Tree) (st : List Tree) (acc : List ℤ)
    → AllNodes st
    → length (to_list t ++ pending st) < f
    → stack_loop f t st acc ≡ some (acc ++ (to_list t ++ pending st))

visit_lem :
    (f : ℕ) (st : List Tree) (acc : List ℤ)
    → Yields f
    → AllNodes st
    → st ≢ []
    → length (pending st) ≤ f
    → visit (stack_loop f) st acc ≡ some (acc ++ pending st)
unfolding visit is_nil
visit_lem f [] acc ih a n h = absurd (n refl)
visit_lem f (nil ∷ st) acc ih a n h = cc (a.0)
visit_lem f (node l v r ∷ st) acc ih a n h =
    ih r st (acc ++ v ∷ []) a.1 h ∙ ap some (append_assoc acc (v ∷ []) (to_list r ++ pending st))

visit-push_left :
    (f : ℕ) (t : Tree) (st : List Tree) (acc : List ℤ)
    → Yields f
    → AllNodes st
    → push_left t st ≢ []
    → length (to_list t ++ pending st) ≤ f
    → visit (stack_loop f) (push_left t st) acc ≡ some (acc ++ (to_list t ++ pending st))
visit-push_left f t st acc ih a n h =
    let same = push_left-pending t st in
    visit_lem f (push_left t st) acc ih (push_left-AllNodes t st a) n (rw same h)
    ∙ ap (λ xs. some (acc ++ xs)) same

stack_loop-Yields : (f : ℕ) → Yields f
unfolding stack_loop is_nil
stack_loop-Yields zero t st acc a h = absurd (omega arith)
stack_loop-Yields (suc f) nil [] acc a h = ap some (sym (append-nil acc))
stack_loop-Yields (suc f) nil (u ∷ st) acc a h =
    rw (lt→ltb 0 (suc (length st)) (omega arith), stack_loop)
      (visit-push_left f nil (u ∷ st) acc (stack_loop-Yields f) a
        (push_left-ne_nil nil (u ∷ st) (λ e. cc)) (omega arith))
stack_loop-Yields (suc f) (node l v r) st acc a h =
    visit-push_left f (node l v r) st acc (stack_loop-Yields f) a
      (push_left-ne_nil l (node l v r ∷ st) (λ e. cc)) (omega arith)

-- The traversal with an explicit stack needs one round for each node and one to stop, never pops an
-- empty stack, and returns what the recursive one returns.
pub in_order_stack-eq-in_order :
    (t : Tree) (fuel : ℕ) → size t < fuel → in_order_stack fuel t ≡ some (in_order t)
unfolding in_order_stack
in_order_stack-eq-in_order t fuel h =
    stack_loop-Yields fuel t [] [] tt
      (rw (append-nil (to_list t)) (omega (arith, size-eq-length t)))
    ∙ ap some (append-nil (to_list t) ∙ sym (in_order-eq-to_list t))

pub All-to_list : (P : ℤ → Type 0) (t : Tree) → All P t → AllList P (to_list t)
All-to_list P nil a = tt
All-to_list P (node l v r) a =
    AllList-append P (to_list l) (v ∷ to_list r) (All-to_list P l a.0) (a.1, All-to_list P r a.2)

All-of_list : (P : ℤ → Type 0) (t : Tree) → AllList P (to_list t) → All P t
All-of_list P nil a = tt
All-of_list P (node l v r) a =
    let parts = AllList-split P (to_list l) (v ∷ to_list r) a in
    (All-of_list P l parts.0, parts.1.0, All-of_list P r parts.1.1)

pub to_list-Ascending : (t : Tree) → IsOrdered t → Ascending (to_list t)
to_list-Ascending nil s = tt
to_list-Ascending (node l v r) s =
    Ascending-middle (to_list l) v (to_list r) (All-to_list _ l s.0) (All-to_list _ r s.1)
      (to_list-Ascending l s.2) (to_list-Ascending r s.3)

pub IsOrdered-of_Ascending : (t : Tree) → Ascending (to_list t) → IsOrdered t
IsOrdered-of_Ascending nil s = tt
IsOrdered-of_Ascending (node l v r) s =
    let p = Ascending-split (to_list l) v (to_list r) s in
    (
      All-of_list _ l p.0,
      All-of_list _ r p.1,
      IsOrdered-of_Ascending l p.2,
      IsOrdered-of_Ascending r p.3,
    )

-- InOrder returns a strictly ascending list exactly when the tree is ordered.
pub in_order-Ascending : (t : Tree) → Ascending (in_order t) ↔ IsOrdered t
in_order-Ascending t = rw (in_order-eq-to_list t) (IsOrdered-of_Ascending t, to_list-Ascending t)

ascending_from_sound : (x : ℤ) (xs : List ℤ) → ascending_from x xs ≡ true → Ascending (x ∷ xs)
unfolding ascending_from
ascending_from_sound x [] h = (tt, tt)
ascending_from_sound x (y ∷ ys) h =
    let rest : ascending_from y ys ≡ true = ground arith in
    let step : x <ℤ y = ground arith in
    let ih = ascending_from_sound y ys rest in
    ((step, AllList-imp (λ z (k : y <ℤ z). omega arith) ys ih.0), ih)

ascending_from_complete : (x : ℤ) (xs : List ℤ) → Ascending (x ∷ xs) → ascending_from x xs ≡ true
unfolding ascending_from
ascending_from_complete x [] h = refl
ascending_from_complete x (y ∷ ys) h = ground (arith, ascending_from_complete y ys h.1)

abbrev AtLeast : Option ℤ → ℤ → Type 0
AtLeast none x = Unit
AtLeast (some b) x = b <ℤ x

abbrev AtMost : Option ℤ → ℤ → Type 0
AtMost none x = Unit
AtMost (some b) x = x <ℤ b

AtLeast-trans : (lo : Option ℤ) (v x : ℤ) → AtLeast lo v → v <ℤ x → AtLeast lo x
AtLeast-trans none v x a h = tt
AtLeast-trans (some b) v x a h = omega arith

AtMost-trans : (hi : Option ℤ) (v x : ℤ) → AtMost hi v → x <ℤ v → AtMost hi x
AtMost-trans none v x a h = tt
AtMost-trans (some b) v x a h = omega arith

AtLeast-of_test : (lo : Option ℤ) (v : ℤ) → (below_min lo v ≡ false) ↔ AtLeast lo v
unfolding below_min
AtLeast-of_test none v = (λ e. tt, λ a. refl)
AtLeast-of_test (some b) v = ground arith

AtMost-of_test : (hi : Option ℤ) (v : ℤ) → (above_max hi v ≡ false) ↔ AtMost hi v
unfolding above_max
AtMost-of_test none v = (λ e. tt, λ a. refl)
AtMost-of_test (some b) v = ground arith

abbrev Within : Option ℤ → Option ℤ → Tree → Type 0
Within lo hi t = All (AtLeast lo) t × All (AtMost hi) t × IsOrdered t

is_valid_helper_sound :
    (t : Tree) (lo hi : Option ℤ) → is_valid_helper t lo hi ≡ true → Within lo hi t
unfolding is_valid_helper below_min above_max
is_valid_helper_sound nil lo hi h = (tt, tt, tt)
is_valid_helper_sound (node l v r) lo hi h =
    let low : below_min lo v ≡ false = ground arith in
    let high : above_max hi v ≡ false = ground arith in
    let left = is_valid_helper_sound l lo (some v) (ground arith) in
    let right = is_valid_helper_sound r (some v) hi (ground arith) in
    let low_v = (AtLeast-of_test lo v).0 low in
    let high_v = (AtMost-of_test hi v).0 high in
    (
      (left.0, low_v, All-imp (λ x. AtLeast-trans lo v x low_v) r right.0),
      (All-imp (λ x. AtMost-trans hi v x high_v) l left.1, high_v, right.1),
      (left.1, right.0, left.2, right.2),
    )

is_valid_helper_complete :
    (t : Tree) (lo hi : Option ℤ) → Within lo hi t → is_valid_helper t lo hi ≡ true
unfolding is_valid_helper below_min above_max
is_valid_helper_complete nil lo hi w = refl
is_valid_helper_complete (node l v r) lo hi w = rw (
  (AtLeast-of_test lo v).1 w.0.1,
  (AtMost-of_test hi v).1 w.1.1,
  is_valid_helper_complete l lo (some v) (w.0.0, w.2.0, w.2.2),
  is_valid_helper_complete r (some v) hi (w.2.1, w.1.2, w.2.3),
)

All-trivial : (t : Tree) → All (λ x. Unit {0}) t
All-trivial nil = tt
All-trivial (node l v r) = (All-trivial l, tt, All-trivial r)

-- IsValid accepts exactly the ordered trees.
pub is_valid_iff : (t : Tree) → (is_valid t ≡ true) ↔ IsOrdered t
unfolding is_valid
is_valid_iff t = (
  λ h. (is_valid_helper_sound t none none h).2,
  λ s. is_valid_helper_complete t none none (All-trivial t, All-trivial t, s),
)

is_valid_in_order_values_iff : (xs : List ℤ) → (is_valid_in_order_values xs ≡ true) ↔ Ascending xs
unfolding is_valid_in_order_values
is_valid_in_order_values_iff [] = (λ h. tt, λ s. refl)
is_valid_in_order_values_iff (x ∷ xs) = (ascending_from_sound x xs, ascending_from_complete x xs)

-- The test by traversal accepts the same trees as the test by bounds.
pub is_valid_in_order-eq-is_valid : (t : Tree) → is_valid_in_order t ≡ is_valid t
unfolding is_valid_in_order
is_valid_in_order-eq-is_valid t =
    let values = is_valid_in_order_values_iff (in_order t) in
    let order = in_order-Ascending t in
    let valid = is_valid_iff t in
    Bool-ext _ _ (λ h. valid.1 (order.0 (values.0 h))) (λ h. values.1 (order.1 (valid.0 h)))

two_pow-suc : (m : ℕ) → 2 ^ (1 + m) ≡ 2 * 2 ^ m
two_pow-suc m = let e : 1 + m ≡ suc m = omega arith in rw (e, pow-suc) (omega arith)

height_helper_bounds :
    (t : Tree) → (height_helper t ≤ size t) × (suc (size t) ≤ 2 ^ height_helper t)
unfolding height_helper
height_helper_bounds nil = omega arith
height_helper_bounds (node l v r) =
    let a = height_helper l in
    let b = height_helper r in
    let double : 2 ^ (1 + max a b) ≡ 2 * 2 ^ max a b = two_pow-suc (max a b) in
    let left : 2 ^ a ≤ 2 ^ max a b = pow-le-pow_right (omega arith) (omega arith) in
    let right : 2 ^ b ≤ 2 ^ max a b = pow-le-pow_right (omega arith) (omega arith) in
    omega (arith, height_helper_bounds l, height_helper_bounds r)

-- A tree of height h holds at least h and fewer than 2 ^ h values.
pub height_bounds : (t : Tree) → (height t ≤ size t) × (suc (size t) ≤ 2 ^ height t)
unfolding height
height_bounds t = height_helper_bounds t
