-- ===== src/Heap/Order.antt =====
-- The heap order, for both heaps of data-structures/heap.go, and what a swap does to the items.
use go_algorithm_practice.Prelude.{
  ℕ, zero, suc, ◌<◌, ◌≤◌, ◌≡◌, ◌∙◌, arith, true, false, Option, none, some, List, if◌then◌else◌,
  ◌==◌, length, set, length-set, get_or-set, Bool-cases, inl, inr,
}
use go_algorithm_practice.Prelude.Int.{ℤ, pos}
use go_algorithm_practice.Prelude.Multiset.{SameItems, count-set}
use go_algorithm_practice.Heap.{Before, at, parent, swap, min_first, max_first}

-- A test that orders the integers: `before b a ≡ false` is "a may stand above b".
pub record IsOrder (before : Before) : Type 0 where
  pub asym : (a b : ℤ) → before a b ≡ true → before b a ≡ false
  pub trans : (a b c : ℤ) → before b a ≡ false → before c b ≡ false → before c a ≡ false

pub min_first-IsOrder : IsOrder min_first
unfolding min_first
min_first-IsOrder = record { asym = λ a b h. ground arith; trans = λ a b c h k. ground arith }

pub max_first-IsOrder : IsOrder max_first
unfolding max_first
max_first-IsOrder = record { asym = λ a b h. ground arith; trans = λ a b c h k. ground arith }

-- The run ends within its fuel, and its result satisfies `P`.
abbrev pub Ensures {ℓ} : {A : Type ℓ} → (A → Type 0) → Option A → Type 0
Ensures P none = ⊥
Ensures P (some a) = P a

pub Ensures-map {ℓ} :
    {A : Type ℓ} {P Q : A → Type 0} (r : Option A)
    → ((a : A) → P a → Q a)
    → Ensures P r
    → Ensures Q r
Ensures-map none f h = h
Ensures-map (some a) f h = f a h

pub length-swap : (a : List ℤ) (i j : ℕ) → length (swap a i j) ≡ length a
unfolding swap
length-swap a i j = length-set (set a i (at a j)) j (at a i) ∙ length-set a i (at a j)

module _ (a : List ℤ) (i j : ℕ) (hi : i < length a) (hj : j < length a) where
  pub at-swap :
      (c : ℕ) → at (swap a i j) c ≡ (if c == j then at a i else (if c == i then at a j else at a c))
  unfolding swap
  at-swap c =
      let size = length-set a i (at a j) in
      ground (
        arith,
        get_or-set (set a i (at a j)) j c (at a i) (pos 0) (omega arith),
        get_or-set a i c (at a j) (pos 0) hi,
      )

  pub swap-SameItems : SameItems (swap a i j) a
  unfolding swap
  swap-SameItems x =
      let b = set a i (at a j) in
      let size = length-set a i (at a j) in
      let kept : at b j ≡ at a j = ground (arith, get_or-set a i j (at a j) (pos 0) hi) in
      let first = count-set x a i (at a j) (pos 0) hi in
      let second = rw kept at (count-set x b j (at a i) (pos 0) (omega arith)) in omega arith

module _ (before : Before) where
  -- Every edge whose parent is at `lo` or later is in order.
  abbrev pub IsHeapFrom : ℕ → List ℤ → Type 0
  IsHeapFrom lo a =
      (c : ℕ) → 0 < c → c < length a → lo ≤ parent c → before (at a c) (at a (parent c)) ≡ false

  abbrev pub IsHeap : List ℤ → Type 0
  IsHeap a = IsHeapFrom 0 a

  -- `b` holds the items of `a`, in order from `lo`.
  abbrev pub Sifted : ℕ → List ℤ → List ℤ → Type 0
  Sifted lo a b = IsHeapFrom lo b × SameItems b a × (length b ≡ length a)

  -- The edges past `i`, from its parent to its children, are in order.
  abbrev pub IsBridged : ℕ → List ℤ → ℕ → Type 0
  IsBridged lo a i =
      (c : ℕ)
      → 0 < c
      → c < length a
      → parent c ≡ i
      → 0 < i
      → lo ≤ parent i
      → before (at a c) (at a (parent i)) ≡ false

  pub Sifted-swap :
      (lo : ℕ) (a : List ℤ) (i j : ℕ) (r : Option (List ℤ))
      → i < length a
      → j < length a
      → Ensures (Sifted lo (swap a i j)) r
      → Ensures (Sifted lo a) r
  Sifted-swap lo a i j r hi hj run =
      Ensures-map r
        (λ b s. (s.0, λ x. s.1 x ∙ swap-SameItems a i j hi hj x, s.2 ∙ length-swap a i j)) run

  root_first_below :
      IsOrder before
      → (k : ℕ) (a : List ℤ) (i : ℕ) → IsHeap a
      → i < k
      → i < length a
      → before (at a i) (at a 0) ≡ false
  root_first_below o zero a i h f p = absurd (omega arith)
  root_first_below o (suc k) a zero h f p = elim (Bool-cases (before (at a 0) (at a 0))) [
    | inl e ↦ o.asym _ _ e
    | inr e ↦ e
  ]
  root_first_below o (suc k) a (suc i) h f p =
      o.trans _ _ _ (root_first_below o k a (parent (suc i)) h (omega arith) (omega arith))
        (h (suc i) (omega arith) p (omega arith))

  -- No item of a heap comes before its root.
  pub root_first :
      IsOrder before
      → (a : List ℤ) (i : ℕ) → IsHeap a
      → i < length a
      → before (at a i) (at a 0) ≡ false
  root_first o a i h p = root_first_below o (suc i) a i h (omega arith) p
