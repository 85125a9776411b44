-- ===== src/Heap/Down.antt =====
-- siftDown and Heapify of data-structures/heap.go.
use go_algorithm_practice.Prelude.{
  ℕ, zero, suc, ◌+◌, ◌-◌, ◌*◌, ◌/◌, ◌<◌, ◌≤◌, ◌≡◌, ◌≢◌, ◌⊎◌, inl, inr, refl, ◌∙◌, arith, true,
  false, ◌&&◌, Option, none, some, List, ◌==◌, ltb, length, Bool-cases, ==_iff,
}
use native.Mathlib.Decide.{ℕ_discrete}
use go_algorithm_practice.Prelude.Int.{ℤ}
use go_algorithm_practice.Heap.Order.{
  IsOrder, Ensures, Ensures-map, length-swap, at-swap, IsHeapFrom, Sifted, IsBridged, Sifted-swap,
}
use go_algorithm_practice.Heap.{
  Before, less_by, at, parent, left_child, right_child, swap, pick_target, sift_down_loop,
  base_sift_down, sift_down, heapify_loop, heapify, ◌>>=◌,
}

module _ (before : Before) (o : IsOrder before) where
  -- Only the edges below `i` may be out of order.
  pub record DownInv (lo : ℕ) (a : List ℤ) (i : ℕ) : Type 0 where
    pub edges :
        (c : ℕ)
        → 0 < c
        → c < length a
        → lo ≤ parent c
        → parent c ≢ i
        → before (at a c) (at a (parent c)) ≡ false
    pub bridged : IsBridged before lo a i

  -- `t` is a child of `i` that comes before it, and no child of `i` comes before `t`.
  record IsFirstChild (a : List ℤ) (i t : ℕ) : Type 0 where
    inside : t < length a
    child : (t ≡ 2 * i + 1) ⊎ (t ≡ 2 * i + 2)
    above : before (at a t) (at a i) ≡ true
    first : (c : ℕ) → 0 < c → c < length a → parent c ≡ i → before (at a c) (at a t) ≡ false

  -- No child of `i` comes before it.
  Settled : List ℤ → ℕ → Type 0
  Settled a i = (c : ℕ) → 0 < c → c < length a → parent c ≡ i → before (at a c) (at a i) ≡ false

  irrefl : (x : ℤ) → before x x ≡ false
  irrefl x = elim (Bool-cases (before x x)) [ inl e ↦ o.asym x x e | inr e ↦ e ]

  children : (c i : ℕ) → 0 < c → parent c ≡ i → (c ≡ 2 * i + 1) ⊎ (c ≡ 2 * i + 2)
  children c i p e = grind arith

  -- What holds at both children holds at each child.
  at_children :
      (P : ℕ → Type 0) (n i : ℕ)
      → (left_child i < n → P (left_child i))
      → (right_child i < n → P (right_child i))
      → (c : ℕ) → 0 < c
      → c < n
      → parent c ≡ i
      → P c
  at_children P n i f g c p q e = elim (children c i p e) [
    | inl el ↦ rw el (f (omega arith))
    | inr er ↦ rw er (g (omega arith))
  ]

  before_trans : (x y z : ℤ) → before x y ≡ true → before y z ≡ true → before x z ≡ true
  before_trans x y z h k = elim (Bool-cases (before x z)) [
    | inl e ↦ e
    | inr e ↦ cc (o.trans y z x (o.asym y z k) e)
  ]

  module _ (a : List ℤ) (i : ℕ) where
    abbrev l : ℕ
    l = left_child i

    abbrev r : ℕ
    r = right_child i

    abbrev Picks : ℕ → Type 0
    Picks t = ((t ≡ i) × Settled a i) ⊎ IsFirstChild a i t

    pick_right_of_left :
        r < length a
        → before (at a l) (at a i) ≡ true
        → before (at a r) (at a l) ≡ true
        → IsFirstChild a i r
    pick_right_of_left h hl hr = record {
      inside = h;
      child = inr refl;
      above = before_trans _ _ _ hr hl;
      first =
          at_children (λ c. before (at a c) (at a r) ≡ false) (length a) i (λ q. o.asym _ _ hr)
            (λ q. irrefl _);
    }

    pick_left :
        l < length a
        → before (at a l) (at a i) ≡ true
        → (r < length a → before (at a r) (at a l) ≡ false)
        → IsFirstChild a i l
    pick_left h hl hr = record {
      inside = h;
      child = inl refl;
      above = hl;
      first = at_children (λ c. before (at a c) (at a l) ≡ false) (length a) i (λ q. irrefl _) hr;
    }

    pick_right :
        r < length a
        → before (at a l) (at a i) ≡ false
        → before (at a r) (at a i) ≡ true
        → IsFirstChild a i r
    pick_right h hl hr = record {
      inside = h;
      child = inr refl;
      above = hr;
      first =
          at_children (λ c. before (at a c) (at a r) ≡ false) (length a) i
            (λ q. o.trans _ _ _ (o.asym _ _ hr) hl) (λ q. irrefl _);
    }

    pick_none :
        (l < length a → before (at a l) (at a i) ≡ false)
        → (r < length a → before (at a r) (at a i) ≡ false)
        → Settled a i
    unfolding Settled
    pick_none hl hr = at_children (λ c. before (at a c) (at a i) ≡ false) (length a) i hl hr

    pick_target-Picks : Picks (pick_target (less_by before) a i)
    unfolding pick_target
    pick_target-Picks = elim (Bool-cases (ltb l (length a) && before (at a l) (at a i))) [
      | inl el ↦ elim (Bool-cases (ltb r (length a) && before (at a r) (at a l))) [
        | inl er ↦
            rw (el, er) (inr (pick_right_of_left (ground arith) (ground arith) (ground arith)))
        | inr er ↦ rw (el, er) (inr (pick_left (ground arith) (ground arith) (λ q. ground arith)))
      ]
      | inr el ↦ elim (Bool-cases (ltb r (length a) && before (at a r) (at a i))) [
        | inl er ↦ rw (el, er) (inr (pick_right (ground arith) (ground arith) (ground arith)))
        | inr er ↦ rw (el, er) (inl (refl, pick_none (λ q. ground arith) (λ q. ground arith)))
      ]
    ]

  swap-DownInv :
      (lo : ℕ) (a : List ℤ) (i m : ℕ)
      → DownInv lo a i
      → IsFirstChild a i m
      → DownInv lo (swap a i m) m
  swap-DownInv lo a i m v s =
      let size = length-swap a i m in
      let here = at-swap a i m (omega arith) s.inside in
      let under = o.asym (at a m) (at a i) s.above in
      record {
        edges =
            λ c p q r t. ground (arith, here c, here (parent c), v.edges c, v.bridged m, s.first c);
        bridged = λ c p q r t u. ground (arith, here c, here (parent m), v.edges c);
      }

  Settled-heap :
      (lo : ℕ) (a : List ℤ) (i : ℕ) → DownInv lo a i → Settled a i → IsHeapFrom before lo a
  unfolding Settled
  Settled-heap lo a i v settled c p q r = elim (ℕ_discrete (parent c) i) [
    | yes e ↦ rw e (settled c p q e)
    | no e ↦ v.edges c p q r e
  ]

  sift_down_loop-restores :
      (k lo : ℕ) (a : List ℤ) (i : ℕ)
      → length a - i < k
      → DownInv lo a i
      → Ensures (Sifted before lo a) (sift_down_loop (less_by before) k a i)
  unfolding sift_down_loop
  sift_down_loop-restores zero lo a i f v = absurd (omega arith)
  sift_down_loop-restores (suc k) lo a i f v =
      let t = pick_target (less_by before) a i in
      elim (pick_target-Picks a i) [
        | inl (e, settled) ↦
            let stops : (t == i) ≡ true = (==_iff t i).1 e in
            let ends : sift_down_loop (less_by before) (suc k) a i ≡ some a =
              rw (stops, sift_down_loop) in
            rw ends (Settled-heap lo a i v settled, λ x. refl, refl)
        | inr s ↦
            let inside = s.inside in
            let child = s.child in
            let goes : (t == i) ≡ false = ground arith in
            let ih =
              sift_down_loop-restores k lo (swap a i t) t (omega (arith, length-swap a i t))
                (swap-DownInv lo a i t v s) in
            let goes_on : sift_down_loop (less_by before) (suc k) a i
                ≡ sift_down_loop (less_by before) k (swap a i t) t =
              rw (goes, sift_down_loop) in
            rw goes_on (Sifted-swap before lo a i t _ (omega arith) inside ih)
      ]

  -- siftDown turns items with one item too high in the tree into a heap of the same items.
  pub sift_down-restores :
      (lo : ℕ) (a : List ℤ) (i : ℕ)
      → DownInv lo a i
      → Ensures (Sifted before lo a) (sift_down before a i)
  unfolding sift_down base_sift_down
  sift_down-restores lo a i v = sift_down_loop-restores (length a + 1) lo a i (omega arith) v

  Ensures-bind :
      (lo : ℕ) (a : List ℤ) (r : Option (List ℤ)) (f : List ℤ → Option (List ℤ))
      → Ensures (Sifted before lo a) r
      → ((b : List ℤ) → Sifted before lo a b → Ensures (Sifted before 0 b) (f b))
      → Ensures (Sifted before 0 a) (r >>= f)
  Ensures-bind lo a none f h k = h
  Ensures-bind lo a (some b) f h k =
      Ensures-map (f b) (λ c s. (s.0, λ x. s.1 x ∙ h.1 x, s.2 ∙ h.2)) (k b h)

  heapify_loop-restores :
      (i : ℕ) (a : List ℤ)
      → IsHeapFrom before i a
      → Ensures (Sifted before 0 a) (heapify_loop before i a)
  unfolding heapify_loop
  heapify_loop-restores zero a h = (h, λ x. refl, refl)
  heapify_loop-restores (suc i) a h =
      Ensures-bind i a (sift_down before a i) (heapify_loop before i)
        (sift_down-restores i a i (record {
          edges = λ c p q r t. h c p q (omega arith);
          bridged = λ c p q r t u. absurd (omega arith);
        }))
        λ b s. heapify_loop-restores i b s.0

  -- Heapify turns any items into a heap of the same items.
  pub heapify-restores : (a : List ℤ) → Ensures (Sifted before 0 a) (heapify before a)
  unfolding heapify
  heapify-restores a = heapify_loop-restores (length a / 2) a (λ c p q r. absurd (omega arith))
