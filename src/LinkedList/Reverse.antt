-- ===== src/LinkedList/Reverse.antt =====
-- ReverseList and ReverseListRecursive of data-structures/linkedlist.go.
use mathlib.Core.List.{reverse, reverse_aux, reverse_aux-eq}
use go_algorithm_practice.Prelude.Addresses.{has, Disjoint, has_apart}
use go_algorithm_practice.Prelude.{
  ℕ, zero, suc, ◌<◌, ◌≡◌, ◌≢◌, refl, sym, ap, ◌∙◌, arith, true, false, ◌||◌, some, List, [], ◌∷◌,
  ◌++◌, ◌==◌, length, subst,
}
use go_algorithm_practice.LinkedList.{
  Memory, set_next, reverse_loop, reverse_list, turn_back, reverse_list_recursive,
}
use go_algorithm_practice.LinkedList.Segments.{
  Seg, SameOutside, SameVals, set_next-SameVals, set_next_at, set_next_other, frame-set_next,
  Seg-append,
}

-- What a reversal returns: a list of the cells in this order, with the values as they were and
-- nothing else changed.
pub record Relinked (h : Memory) (xs : List ℕ) (ys : List ℕ) (r : ℕ × Memory) : Type 0 where
  pub chain : Seg r.1 0 r.0 ys
  pub values : SameVals h r.1
  pub outside : SameOutside xs h r.1

reverse_step :
    (fuel : ℕ) (h : Memory) (prev curr : ℕ)
    → curr ≢ 0
    → reverse_loop (suc fuel) h prev curr
      ≡ reverse_loop fuel (set_next h curr prev) curr (h curr).next
unfolding reverse_loop
reverse_step fuel h prev curr live =
    let going : (curr == 0) ≡ false = ground arith in rw (going, reverse_loop) refl

reverse_loop-Relinked :
    (xs ys : List ℕ) (h : Memory) (prev curr fuel : ℕ)
    → Seg h 0 curr xs
    → Seg h 0 prev ys
    → Disjoint xs ys
    → length xs < fuel
    → (r : ℕ × Memory) × (reverse_loop fuel h prev curr ≡ some r)
      × Relinked h xs (reverse_aux xs ys) r
unfolding reverse_loop
reverse_loop-Relinked xs ys h prev curr zero s t apart enough = absurd (omega arith)
reverse_loop-Relinked [] ys h prev curr (suc fuel) s t apart enough = (
  (prev, h),
  rw (s, reverse_loop) refl,
  record { chain = t; values = λ a. refl; outside = λ a o. refl },
)
reverse_loop-Relinked (a ∷ xs) ys h prev curr (suc fuel) (e, live, fresh, s) t apart enough =
    let g = set_next h a prev in
    let new : has a ys ≡ false = apart a (ground arith) in
    let turned : Seg g 0 a (a ∷ ys) =
      (refl, live, new, rw (set_next_at h a prev) (frame-set_next h 0 prev a prev ys new t)) in
    let (r, done, relinked) =
      reverse_loop-Relinked xs (a ∷ ys) g a (h a).next fuel
        (frame-set_next h 0 (h a).next a prev xs fresh s) turned
        (λ b i. ground (arith, apart b, has_apart b a xs)) (omega arith) in
    (
      r,
      ap (reverse_loop (suc fuel) h prev) e ∙ reverse_step fuel h prev a live ∙ done,
      record {
        chain = relinked.chain;
        values = λ b. relinked.values b ∙ set_next-SameVals h a prev b;
        outside =
            λ b o. relinked.outside b (ground arith) ∙ set_next_other h a prev b (ground arith);
      },
    )

-- ReverseList of a list ends after one round for each node and one more, without a panic. It returns
-- the same nodes in the reverse order, with their values, and writes to no other node.
pub reverse_list-Relinked :
    (xs : List ℕ) (h : Memory) (head fuel : ℕ)
    → Seg h 0 head xs
    → length xs < fuel
    → (r : ℕ × Memory) × (reverse_list fuel h head ≡ some r) × Relinked h xs (reverse xs) r
unfolding reverse_list
reverse_list-Relinked xs h head fuel s enough =
    reverse_loop-Relinked xs [] h 0 head fuel s refl (λ a i. refl) enough

has-reverse_aux : (c : ℕ) (xs ys : List ℕ) → has c (reverse_aux xs ys) ≡ (has c xs || has c ys)
has-reverse_aux c [] ys = refl
has-reverse_aux c (x ∷ xs) ys = ground (arith, has-reverse_aux c xs (x ∷ ys))

-- The reversed list up to its last node, the old head, which has no successor.
record Turned (h : Memory) (a : ℕ) (xs : List ℕ) (r : ℕ × Memory) : Type 0 where
  chain : Seg r.1 a r.0 (reverse xs)
  last : (r.1 a).next ≡ 0
  values : SameVals h r.1
  outside : SameOutside (a ∷ xs) h r.1

turn_back-Turned :
    (h : Memory) (a b : ℕ) (xs : List ℕ) (r : ℕ × Memory)
    → (h a).next ≡ b
    → b ≢ 0
    → has a (b ∷ xs) ≡ false
    → has b xs ≡ false
    → Turned h b xs r
    → (r' : ℕ × Memory) × (turn_back a r ≡ some r') × Turned h a (b ∷ xs) r'
unfolding turn_back
turn_back-Turned h a b xs (p, g) e live out fresh t =
    let apart : (a == b) ≡ false = ground arith in
    let apart' : (b == a) ≡ false = ground arith in
    let kept : g a ≡ h a = t.outside a (ground arith) in
    let link : (g a).next ≡ b = ap (λ n. n.next) kept ∙ e in
    let going : (b == 0) ≡ false = ground arith in
    let g1 = set_next g b a in
    let g2 = set_next g1 a 0 in
    let out_a : has a (reverse xs) ≡ false = has-reverse_aux a xs [] ∙ ground arith in
    let out_b : has b (reverse xs) ≡ false = has-reverse_aux b xs [] ∙ ground arith in
    let front : Seg g2 b p (reverse xs) =
      frame-set_next g1 b p a 0 (reverse xs) out_a
        (frame-set_next g b p b a (reverse xs) out_b t.chain) in
    let at_b : g2 b ≡ g1 b = set_next_other g1 a 0 b apart' in
    let back : Seg g2 a b (b ∷ []) =
      (refl, live, refl, ap (λ n. n.next) at_b ∙ set_next_at g b a) in
    let whole : Seg g2 a p (reverse xs ++ b ∷ []) =
      Seg-append g2 a b p (reverse xs) (b ∷ []) front back
        (λ c i. ground (arith, has_apart c b (reverse xs))) in
    (
      (p, g2),
      rw (link, going) refl,
      record {
        chain = subst (Seg g2 a p) (sym (reverse_aux-eq xs (b ∷ []))) whole;
        last = set_next_at g1 a 0;
        values = λ c. set_next-SameVals g1 a 0 c ∙ set_next-SameVals g b a c ∙ t.values c;
        outside = λ c o.
            set_next_other g1 a 0 c (ground arith)
            ∙ set_next_other g b a c (ground arith)
            ∙ t.outside c (ground arith);
      },
    )

recursive_step :
    (fuel : ℕ) (h : Memory) (a b : ℕ) (r : ℕ × Memory)
    → a ≢ 0
    → (h a).next ≡ b
    → b ≢ 0
    → reverse_list_recursive fuel h b ≡ some r
    → reverse_list_recursive (suc fuel) h a ≡ turn_back a r
unfolding reverse_list_recursive
recursive_step fuel h a b r live e live' done =
    let going : (a == 0 || ((h a).next == 0)) ≡ false = ground arith in
    let inner : reverse_list_recursive fuel h (h a).next ≡ some r = rw e done in
    rw (going, reverse_list_recursive, inner) refl

recursive-Turned :
    (xs : List ℕ) (h : Memory) (a fuel : ℕ)
    → Seg h 0 a (a ∷ xs)
    → length xs < fuel
    → (r : ℕ × Memory) × (reverse_list_recursive fuel h a ≡ some r) × Turned h a xs r
unfolding reverse_list_recursive
recursive-Turned xs h a zero s enough = absurd (omega arith)
recursive-Turned [] h a (suc fuel) (e, live, fresh, s) enough =
    let ends : (a == 0 || ((h a).next == 0)) ≡ true = ground arith in
    (
      (a, h),
      rw (ends, reverse_list_recursive) refl,
      record { chain = refl; last = s; values = λ c. refl; outside = λ c o. refl },
    )
recursive-Turned (b ∷ xs) h a (suc fuel) (e, live, fresh, s) enough =
    let (e', live', fresh', s') = s in
    let (r, done, turned) = recursive-Turned xs h b fuel (refl, live', fresh', s') (omega arith) in
    let (r', back, turned') = turn_back-Turned h a b xs r e' live' fresh fresh' turned in
    (r', recursive_step fuel h a b r live e' live' done ∙ back, turned')

-- ReverseListRecursive of a list does the same as ReverseList.
pub reverse_list_recursive-Relinked :
    (xs : List ℕ) (h : Memory) (head fuel : ℕ)
    → Seg h 0 head xs
    → length xs < fuel
    → (r : ℕ × Memory) × (reverse_list_recursive fuel h head ≡ some r)
      × Relinked h xs (reverse xs) r
unfolding reverse_list_recursive
reverse_list_recursive-Relinked xs h head zero s enough = absurd (omega arith)
reverse_list_recursive-Relinked [] h head (suc fuel) s enough =
    let ends : (head == 0 || ((h head).next == 0)) ≡ true = ground arith in
    (
      (head, h),
      rw (ends, reverse_list_recursive) refl,
      record { chain = s; values = λ a. refl; outside = λ a o. refl },
    )
reverse_list_recursive-Relinked (a ∷ xs) h head (suc fuel) (e, live, fresh, s) enough =
    let (r, done, t) = recursive-Turned xs h a (suc fuel) (refl, live, fresh, s) (omega arith) in
    let end : Seg r.1 0 a (a ∷ []) = (refl, live, refl, t.last) in
    let out : has a (reverse xs) ≡ false = has-reverse_aux a xs [] ∙ ground arith in
    let whole : Seg r.1 0 r.0 (reverse xs ++ a ∷ []) =
      Seg-append r.1 0 a r.0 (reverse xs) (a ∷ []) t.chain end
        (λ c i. ground (arith, has_apart c a (reverse xs))) in
    (
      r,
      ap (reverse_list_recursive (suc fuel) h) e ∙ done,
      record {
        chain = subst (Seg r.1 0 r.0) (sym (reverse_aux-eq xs (a ∷ []))) whole;
        values = t.values;
        outside = t.outside;
      },
    )
