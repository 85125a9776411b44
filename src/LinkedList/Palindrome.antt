-- ===== src/LinkedList/Palindrome.antt =====
-- IsPalindrome of data-structures/linkedlist.go.
mod Halves
use mathlib.Core.List.{reverse, reverse_aux, reverse_aux-eq}
use go_algorithm_practice.Prelude.Addresses.{has}
use go_algorithm_practice.Prelude.{
  ℕ, zero, suc, ◌+◌, ◌-◌, ◌/◌, ◌≤◌, ◌<◌, ◌≡◌, ◌≢◌, ◌↔◌, refl, sym, ap, ◌∙◌, arith, Bool, true,
  false, not, ◌&&◌, ◌||◌, inl, inr, Option, none, some, List, [], ◌∷◌, ◌++◌, if◌then◌else◌, ◌==◌,
  length, length-take, length-drop, take, drop, get_or, subst, Bool-cases,
}
use go_algorithm_practice.Prelude.Int.{ℤ, ◌==ℤ◌, ==ℤ_iff, pos}
use go_algorithm_practice.LinkedList.{
  ListNode, Memory, compare_loop, is_palindrome, find_middle, reverse_list,
}
use go_algorithm_practice.LinkedList.Segments.{Seg, SameVals, vals, vals-SameVals}
use go_algorithm_practice.LinkedList.Walks.{find_middle-walk}
use go_algorithm_practice.LinkedList.Reverse.{reverse_list-Relinked}
use go_algorithm_practice.LinkedList.Palindrome.Halves.{agrees, agrees-halves}

compare_step :
    (fuel : ℕ) (h : Memory) (n m : ℕ)
    → n ≢ 0
    → m ≢ 0
    → compare_loop (suc fuel) h n m
      ≡ (if (h n).val ==ℤ (h m).val then compare_loop fuel h (h n).next (h m).next else some false)
unfolding compare_loop
compare_step fuel h n m live live' =
    let going : (not (n == 0) && not (m == 0)) ≡ true = ground arith in
    rw (going, compare_loop)
      (elim (Bool-cases ((h n).val ==ℤ (h m).val)) [ inl e ↦ rw e refl | inr e ↦ rw e refl ])

compare_loop-agrees :
    (fuel : ℕ) (h : Memory) (n m : ℕ) (xs ys : List ℕ)
    → Seg h 0 n xs
    → Seg h 0 m ys
    → length xs < fuel
    → compare_loop fuel h n m ≡ some (agrees (vals h xs) (vals h ys))
unfolding compare_loop
compare_loop-agrees zero h n m xs ys s t enough = absurd (omega arith)
compare_loop-agrees (suc fuel) h n m [] ys s t enough = rw (s, compare_loop) refl
compare_loop-agrees (suc fuel) h n m (x ∷ xs) [] s t enough =
    let stops : (not (n == 0) && not (m == 0)) ≡ false = ground arith in
    rw (stops, compare_loop) refl
compare_loop-agrees (suc fuel) h n m (x ∷ xs) (y ∷ ys) (e, live, fresh, s) (e', live', fresh', s')
      enough =
    let rest = compare_loop-agrees fuel h (h x).next (h y).next xs ys s s' (omega arith) in
    ap (λ a. compare_loop (suc fuel) h a m) e
    ∙ ap (compare_loop (suc fuel) h x) e'
    ∙ compare_step fuel h x y live live'
    ∙ elim (Bool-cases ((h x).val ==ℤ (h y).val)) [
      | inl same ↦ rw same rest
      | inr other ↦ rw other refl
    ]

-- The list from the node at a position.
Seg-drop :
    (h : Memory) (p k : ℕ) (xs : List ℕ)
    → Seg h 0 p xs
    → k < length xs
    → Seg h 0 (get_or xs k 0) (drop k xs)
Seg-drop h p k [] s lt = absurd (omega arith)
Seg-drop h p zero (a ∷ xs) (e, live, fresh, s) lt = (refl, live, fresh, s)
Seg-drop h p (suc k) (a ∷ xs) (e, live, fresh, s) lt = Seg-drop h (h a).next k xs s (omega arith)

has-drop : (a k : ℕ) (xs : List ℕ) → has a xs ≡ false → has a (drop k xs) ≡ false
has-drop a zero xs out = out
has-drop a (suc k) [] out = refl
has-drop a (suc k) (b ∷ xs) out = has-drop a k xs (ground arith)

has-take : (a k : ℕ) (xs : List ℕ) → has a xs ≡ false → has a (take k xs) ≡ false
has-take a zero xs out = refl
has-take a (suc k) [] out = refl
has-take a (suc k) (b ∷ xs) out = ground (arith, has-take a k xs)

-- The front of the list, when only nodes from a position on have changed, and the first of these
-- now ends the list.
Seg-take :
    (h g : Memory) (p k : ℕ) (xs : List ℕ)
    → Seg h 0 p xs
    → k < length xs
    → ((a : ℕ) → has a (drop k xs) ≡ false → g a ≡ h a)
    → (g (get_or xs k 0)).next ≡ 0
    → Seg g 0 p (take (suc k) xs)
Seg-take h g p k [] s lt kept end = absurd (omega arith)
Seg-take h g p zero (a ∷ xs) (e, live, fresh, s) lt kept end = (e, live, refl, end)
Seg-take h g p (suc k) (a ∷ xs) (e, live, fresh, s) lt kept end =
    let here : g a ≡ h a = kept a (has-drop a k xs fresh) in
    (
      e,
      live,
      has-take a (suc k) xs fresh,
      rw here (Seg-take h g (h a).next k xs s (omega arith) kept end),
    )

last_next : (g : Memory) (p a : ℕ) (zs : List ℕ) → Seg g 0 p (zs ++ a ∷ []) → (g a).next ≡ 0
last_next g p a [] (e, live, fresh, s) = s
last_next g p a (z ∷ zs) (e, live, fresh, s) = last_next g (g z).next a zs s

-- The first node of a list ends the reversed list.
last_of_reverse :
    (g : Memory) (p k : ℕ) (xs : List ℕ)
    → k < length xs
    → Seg g 0 p (reverse (drop k xs))
    → (g (get_or xs k 0)).next ≡ 0
last_of_reverse g p k [] lt s = absurd (omega arith)
last_of_reverse g p zero (a ∷ xs) lt s =
    last_next g p a (reverse xs) (subst (Seg g 0 p) (reverse_aux-eq xs (a ∷ [])) s)
last_of_reverse g p (suc k) (a ∷ xs) lt s = last_of_reverse g p k xs (omega arith) s

vals-take : (h : Memory) (k : ℕ) (xs : List ℕ) → vals h (take k xs) ≡ take k (vals h xs)
vals-take h zero xs = refl
vals-take h (suc k) [] = refl
vals-take h (suc k) (a ∷ xs) = ap (◌∷◌ (h a).val) (vals-take h k xs)

vals-drop : (h : Memory) (k : ℕ) (xs : List ℕ) → vals h (drop k xs) ≡ drop k (vals h xs)
vals-drop h zero xs = refl
vals-drop h (suc k) [] = refl
vals-drop h (suc k) (a ∷ xs) = vals-drop h k xs

vals-reverse_aux :
    (h : Memory) (xs ys : List ℕ) → vals h (reverse_aux xs ys) ≡ reverse_aux (vals h xs) (vals h ys)
vals-reverse_aux h [] ys = refl
vals-reverse_aux h (x ∷ xs) ys = vals-reverse_aux h xs (x ∷ ys)

length-vals : (h : Memory) (xs : List ℕ) → length (vals h xs) ≡ length xs
length-vals h [] = refl
length-vals h (x ∷ xs) = ap suc (length-vals h xs)

-- IsPalindrome, once its three calls are known.
palindrome_steps :
    (fuel : ℕ) (h g : Memory) (head middle m : ℕ) (answer : Bool)
    → find_middle fuel h head ≡ some middle
    → reverse_list fuel h middle ≡ some (m, g)
    → compare_loop fuel g head m ≡ some answer
    → is_palindrome fuel h head ≡ some (answer, g)
unfolding is_palindrome
palindrome_steps fuel h g head middle m answer e e' e'' = rw (e, is_palindrome, e', e'') refl

-- The two halves that IsPalindrome compares, as values of the list before the call.
halves :
    (h g : Memory) (k : ℕ) (xs : List ℕ)
    → SameVals h g
    → agrees (vals g (take (suc k) xs)) (vals g (reverse (drop k xs)))
      ≡ agrees (take (suc k) (vals h xs)) (reverse (drop k (vals h xs)))
halves h g k xs same =
    let front = vals-SameVals h g (take (suc k) xs) same ∙ vals-take h (suc k) xs in
    let back =
      vals-SameVals h g (reverse (drop k xs)) same
      ∙ vals-reverse_aux h (drop k xs) []
      ∙ ap reverse (vals-drop h k xs) in
    ap (λ l. agrees l (vals g (reverse (drop k xs)))) front
    ∙ ap (agrees (take (suc k) (vals h xs))) back

-- IsPalindrome of a list ends within as many rounds of each of its loops as there are nodes and one
-- more, without a panic, and answers whether the values are the same in the reverse order. It
-- changes no value, but leaves the list cut behind the first half + 1 of its nodes.
pub is_palindrome_lem :
    (h : Memory) (head fuel : ℕ) (xs : List ℕ)
    → Seg h 0 head xs
    → length xs < fuel
    → (answer : Bool) × (g : Memory) × (is_palindrome fuel h head ≡ some (answer, g))
      × ((answer ≡ true) ↔ (reverse (vals h xs) ≡ vals h xs))
      × SameVals h g
      × Seg g 0 head (take (suc (length xs / 2)) xs)
is_palindrome_lem h head fuel [] s enough =
    let (r, done, m) = reverse_list-Relinked [] h 0 fuel refl enough in
    let empty : Seg r.1 0 head [] = s in
    (
      true,
      r.1,
      palindrome_steps fuel h r.1 head 0 r.0 true (find_middle-walk h head fuel [] s (omega arith))
          done (compare_loop-agrees fuel r.1 head r.0 [] [] empty m.chain enough),
      (λ e. refl, λ e. refl),
      m.values,
      empty,
    )
is_palindrome_lem h head fuel (x ∷ xs) s enough =
    let all = x ∷ xs in
    let k = length all / 2 in
    let inside : k < length all = omega arith in
    let (r, done, m) =
      reverse_list-Relinked (drop k all) h (get_or all k 0) fuel (Seg-drop h head k all s inside)
        (omega (arith, length-drop k all)) in
    let front : Seg r.1 0 head (take (suc k) all) =
      Seg-take h r.1 head k all s inside m.outside (last_of_reverse r.1 r.0 k all inside m.chain) in
    let answer = agrees (take (suc k) (vals h all)) (reverse (drop k (vals h all))) in
    let compared =
      compare_loop-agrees fuel r.1 head r.0 (take (suc k) all) (reverse (drop k all)) front m.chain
        (omega (arith, length-take (suc k) all)) in
    let right = agrees-halves (vals h all) in
    (
      answer,
      r.1,
      palindrome_steps fuel h r.1 head (get_or all k 0) r.0 answer
          (find_middle-walk h head fuel all s (omega arith)) done
          (compared ∙ ap some (halves h r.1 k all m.values)),
      rw (sym (length-vals h xs)) right,
      m.values,
      front,
    )
