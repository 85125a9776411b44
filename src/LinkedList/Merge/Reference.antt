-- ===== src/LinkedList/Merge/Reference.antt =====
-- The lists that MergeTwoLists of data-structures/linkedlist.go is compared with.
use go_algorithm_practice.Prelude.Addresses.{has}
use go_algorithm_practice.Prelude.{
  ℕ, ◌+◌, ◌≡◌, refl, ap, ◌∙◌, arith, true, false, ◌||◌, inl, inr, List, [], ◌∷◌, Bool-cases,
}
use go_algorithm_practice.Prelude.Int.{ℤ, ltb_ℤ, ◌≤ℤ◌}
use go_algorithm_practice.Prelude.Multiset.{count-nil, count-cons, count}
use go_algorithm_practice.LinkedList.{Memory}
use go_algorithm_practice.LinkedList.Segments.{vals}

-- The reference: two lists of nodes merged by their values, those of the second list first where the
-- values are equal.
unfoldable pub merge : (ℕ → ℤ) → List ℕ → List ℕ → List ℕ
merge v [] ys = ys
merge v (x ∷ xs) [] = x ∷ xs
merge v (x ∷ xs) (y ∷ ys) = elim (ltb_ℤ (v x) (v y)) [
  | true ↦ x ∷ merge v xs (y ∷ ys)
  | false ↦ y ∷ merge v (x ∷ xs) ys
]

pub merge_left :
    (v : ℕ → ℤ) (x y : ℕ) (xs ys : List ℕ)
    → ltb_ℤ (v x) (v y) ≡ true
    → merge v (x ∷ xs) (y ∷ ys) ≡ x ∷ merge v xs (y ∷ ys)
unfolding merge
merge_left v x y xs ys e = rw (e, merge) refl

pub merge_right :
    (v : ℕ → ℤ) (x y : ℕ) (xs ys : List ℕ)
    → ltb_ℤ (v x) (v y) ≡ false
    → merge v (x ∷ xs) (y ∷ ys) ≡ y ∷ merge v (x ∷ xs) ys
unfolding merge
merge_right v x y xs ys e = rw (e, merge) refl

pub merge_nil : (v : ℕ → ℤ) (xs : List ℕ) → merge v xs [] ≡ xs
unfolding merge
merge_nil v [] = refl
merge_nil v (x ∷ xs) = refl

pub has-merge :
    (v : ℕ → ℤ) (a : ℕ) (xs ys : List ℕ) → has a (merge v xs ys) ≡ (has a xs || has a ys)
unfolding merge
has-merge v a [] ys = refl
has-merge v a (x ∷ xs) [] = ground arith
has-merge v a (x ∷ xs) (y ∷ ys) = elim (Bool-cases (ltb_ℤ (v x) (v y))) [
  | inl e ↦ ap (has a) (merge_left v x y xs ys e) ∙ ground (arith, has-merge v a xs (y ∷ ys))
  | inr e ↦ ap (has a) (merge_right v x y xs ys e) ∙ ground (arith, has-merge v a (x ∷ xs) ys)
]

-- Ascending values.
abbrev pub AllAbove : ℤ → List ℤ → Type 0
AllAbove c [] = Unit
AllAbove c (x ∷ l) = (c ≤ℤ x) × AllAbove c l

abbrev pub IsSorted : List ℤ → Type 0
IsSorted [] = Unit
IsSorted (x ∷ l) = AllAbove x l × IsSorted l

pub AllAbove-trans : (c d : ℤ) (l : List ℤ) → c ≤ℤ d → AllAbove d l → AllAbove c l
AllAbove-trans c d [] h a = tt
AllAbove-trans c d (x ∷ l) h a = (omega arith, AllAbove-trans c d l h a.1)

module _ (h : Memory) where
  abbrev pub value : ℕ → ℤ
  value a = (h a).val

  pub AllAbove-merge :
      (c : ℤ) (xs ys : List ℕ)
      → AllAbove c (vals h xs)
      → AllAbove c (vals h ys)
      → AllAbove c (vals h (merge value xs ys))
  unfolding merge
  AllAbove-merge c [] ys a b = b
  AllAbove-merge c (x ∷ xs) [] a b = a
  AllAbove-merge c (x ∷ xs) (y ∷ ys) a b = elim (Bool-cases (ltb_ℤ (value x) (value y))) [
    | inl e ↦ rw (merge_left value x y xs ys e) (a.0, AllAbove-merge c xs (y ∷ ys) a.1 b)
    | inr e ↦ rw (merge_right value x y xs ys e) (b.0, AllAbove-merge c (x ∷ xs) ys a b.1)
  ]

  pub merge-IsSorted :
      (xs ys : List ℕ)
      → IsSorted (vals h xs)
      → IsSorted (vals h ys)
      → IsSorted (vals h (merge value xs ys))
  unfolding merge
  merge-IsSorted [] ys a b = b
  merge-IsSorted (x ∷ xs) [] a b = a
  merge-IsSorted (x ∷ xs) (y ∷ ys) a b = elim (Bool-cases (ltb_ℤ (value x) (value y))) [
    | inl e ↦
        let less : value x ≤ℤ value y = ground arith in
        rw (merge_left value x y xs ys e) (
          AllAbove-merge (value x) xs (y ∷ ys) a.0
              (less, AllAbove-trans (value x) (value y) (vals h ys) less b.0),
          merge-IsSorted xs (y ∷ ys) a.1 b,
        )
    | inr e ↦
        let less : value y ≤ℤ value x = ground arith in
        rw (merge_right value x y xs ys e) (
          AllAbove-merge (value y) (x ∷ xs) ys
              (less, AllAbove-trans (value y) (value x) (vals h xs) less a.0) b.0,
          merge-IsSorted (x ∷ xs) ys a b.1,
        )
  ]

  pub count-merge :
      (c : ℤ) (xs ys : List ℕ)
      → count c (vals h (merge value xs ys)) ≡ count c (vals h xs) + count c (vals h ys)
  unfolding merge
  count-merge c [] ys = omega (arith, count-nil c)
  count-merge c (x ∷ xs) [] = omega (arith, count-nil c)
  count-merge c (x ∷ xs) (y ∷ ys) =
      let first = count-cons c (value x) in
      let second = count-cons c (value y) in
      elim (Bool-cases (ltb_ℤ (value x) (value y))) [
        | inl e ↦ rw (merge_left value x y xs ys e) (
            omega (
              arith,
              first (vals h (merge value xs (y ∷ ys))),
              first (vals h xs),
              count-merge c xs (y ∷ ys),
            ))
        | inr e ↦ rw (merge_right value x y xs ys e) (
            omega (
              arith,
              second (vals h (merge value (x ∷ xs) ys)),
              second (vals h ys),
              count-merge c (x ∷ xs) ys,
            ))
      ]
