-- ===== src/LinkedList/Cycle.antt =====
-- HasCycle of data-structures/linkedlist.go.
use go_algorithm_practice.Prelude.Addresses.{has, has_apart}
use go_algorithm_practice.Prelude.{
  ℕ, zero, suc, ◌+◌, ◌-◌, ◌*◌, ◌/◌, ◌≤◌, ◌<◌, ◌≡◌, ◌≢◌, ◌⊎◌, refl, sym, ap, ◌∙◌, arith, true, false,
  not, inl, inr, some, List, [], ◌∷◌, if◌then◌else◌, ◌==◌, ltb, length, subst, Bool-cases,
}
use go_algorithm_practice.LinkedList.{Memory, may_jump, jump, cycle_loop, has_cycle}
use go_algorithm_practice.LinkedList.Segments.{Seg}
use go_algorithm_practice.LinkedList.Walks.{
  walk, walk_later, walk_end, walk-has, walk_live, walk_nil,
}

cycle_step :
    (fuel : ℕ) (h : Memory) (fast slow : ℕ)
    → may_jump h fast ≡ true
    → slow ≢ 0
    → cycle_loop (suc fuel) h fast slow ≡ (
        if jump h fast == (h slow).next
        then some true
        else cycle_loop fuel h (jump h fast) (h slow).next)
unfolding cycle_loop
cycle_step fuel h fast slow e live =
    let going : (slow == 0) ≡ false = ground arith in
    rw (e, cycle_loop, going)
      (elim (Bool-cases (jump h fast == (h slow).next)) [ inl m ↦ rw m refl | inr m ↦ rw m refl ])

-- Where the pointers of a list differ: before its end, and at the end.
walk_apart :
    (h : Memory) (p : ℕ) (xs : List ℕ) (i j : ℕ)
    → Seg h 0 p xs
    → i < j
    → j ≤ length xs
    → walk h p j ≢ walk h p i
walk_apart h p [] i j s lt le = absurd (omega arith)
walk_apart h p (a ∷ xs) zero zero s lt le = absurd (omega arith)
walk_apart h p (a ∷ xs) zero (suc j) (e, live, fresh, s) lt le =
    let shift : walk h p (suc j) ≡ walk h (h a).next j =
      ap (λ b. walk h b (suc j)) e ∙ sym (walk_later h a j) in
    elim (Bool-cases (j == length xs)) [
      | inl at_end ↦ let nil = walk_nil h (h a).next xs j s (omega arith) in ground arith
      | inr before ↦
          let there = walk-has h 0 (h a).next xs j s (ground arith) in
          let apart = has_apart (walk h (h a).next j) a xs there fresh in ground arith
    ]
walk_apart h p (a ∷ xs) (suc i) zero s lt le = absurd (omega arith)
walk_apart h p (a ∷ xs) (suc i) (suc j) (e, live, fresh, s) lt le =
    let shift_i : walk h p (suc i) ≡ walk h (h a).next i =
      ap (λ b. walk h b (suc i)) e ∙ sym (walk_later h a i) in
    let shift_j : walk h p (suc j) ≡ walk h (h a).next j =
      ap (λ b. walk h b (suc j)) e ∙ sym (walk_later h a j) in
    let ih = walk_apart h (h a).next xs i j s (omega arith) (omega arith) in ground arith

no_cycle :
    (fuel i j : ℕ) (h : Memory) (p : ℕ) (xs : List ℕ)
    → Seg h 0 p xs
    → j ≡ 2 * i
    → j ≤ length xs
    → length xs / 2 < fuel + i
    → cycle_loop fuel h (walk h p j) (walk h p i) ≡ some false
unfolding cycle_loop
no_cycle zero i j h p xs s two inside enough = absurd (omega arith)
no_cycle (suc fuel) i j h p xs s two inside enough = elim (Bool-cases (ltb (suc j) (length xs))) [
  | inl e ↦
      let more : suc j < length xs = ground arith in
      let here = walk_nil h p xs j s (omega arith) in
      let after = walk_nil h p xs (suc j) s (omega arith) in
      let jumps : may_jump h (walk h p j) ≡ true = ground arith in
      let apart = walk_apart h p xs (suc i) (suc (suc j)) s (omega arith) (omega arith) in
      let differ : (walk h p (suc (suc j)) == walk h p (suc i)) ≡ false = ground arith in
      cycle_step fuel h (walk h p j) (walk h p i) jumps (walk_live h 0 p xs i s (omega arith))
      ∙ rw differ
          (no_cycle fuel (suc i) (suc (suc j)) h p xs s (omega arith) (omega arith) (omega arith))
  | inr e ↦
      let here = walk_nil h p xs j s inside in
      let stops : may_jump h (walk h p j) ≡ false = elim (Bool-cases (j == length xs)) [
        | inl at_end ↦ ground arith
        | inr before ↦ let after = walk_nil h p xs (suc j) s (ground arith) in ground arith
      ] in
      rw (stops, cycle_loop) refl
]

-- A pointer back into the list: the walk is periodic from there on, and never nil.
has-walk :
    (h : Memory) (stop p c : ℕ) (xs : List ℕ)
    → Seg h stop p xs
    → has c xs ≡ true
    → (k : ℕ) × (k < length xs) × (walk h p k ≡ c)
has-walk h stop p c [] s i = cc
has-walk h stop p c (a ∷ xs) (e, live, fresh, s) i = elim (Bool-cases (c == a)) [
  | inl same ↦ (0, omega arith, ground arith)
  | inr other ↦
      let (k, lt, at_k) = has-walk h stop (h a).next c xs s (ground arith) in
      (suc k, omega arith, ap (λ b. walk h b (suc k)) e ∙ sym (walk_later h a k) ∙ at_k)
]

module _ (h : Memory) (p m n : ℕ) (m_n : m < n) (back : walk h p n ≡ walk h p m)
    (live : (k : ℕ) → k < n → walk h p k ≢ 0) where
  walk_again : (j : ℕ) → walk h p (n + j) ≡ walk h p (m + j)
  walk_again zero =
      ap (walk h p) {x = n + 0} {y = n} (omega arith)
      ∙ back
      ∙ ap (walk h p) {x = m} {y = m + 0} (omega arith)
  walk_again (suc j) =
      ap (walk h p) {x = n + suc j} {y = suc (n + j)} (omega arith)
      ∙ ap (λ a. (h a).next) (walk_again j)
      ∙ ap (walk h p) {x = suc (m + j)} {y = m + suc j} (omega arith)

  never_nil : (bound k : ℕ) → k < bound → walk h p k ≢ 0
  never_nil zero k lt = absurd (omega arith)
  never_nil (suc bound) k lt = elim (Bool-cases (ltb k n)) [
    | inl e ↦ live k (ground arith)
    | inr e ↦
        let beyond : n ≤ k = ground arith in
        let same : walk h p k ≡ walk h p (m + (k - n)) =
          ap (walk h p) {x = k} {y = n + (k - n)} (omega arith) ∙ walk_again (k - n) in
        let earlier = never_nil bound (m + (k - n)) (omega arith) in ground arith
  ]

  -- A whole number of periods later.
  periodic : (k t : ℕ) → m ≤ k → walk h p (k + (n - m) * t) ≡ walk h p k
  periodic k zero le = ap (walk h p) {x = k + (n - m) * 0} {y = k} (grind arith)
  periodic k (suc t) le =
      ap (walk h p) {x = k + (n - m) * suc t} {y = n + (k - m + (n - m) * t)} (grind arith)
      ∙ walk_again (k - m + (n - m) * t)
      ∙ ap (walk h p) {x = m + (k - m + (n - m) * t)} {y = k + (n - m) * t} (omega arith)
      ∙ periodic k t le

  -- The round in which the two pointers meet at the latest.
  meeting : ℕ
  meeting = (n - m) * (m / (n - m) + 1)

  meeting_bounds : (m ≤ meeting) × (meeting ≤ n) × (0 < meeting)
  unfolding meeting
  meeting_bounds = grind arith

  meet : walk h p (meeting + meeting) ≡ walk h p meeting
  unfolding meeting
  meet = periodic meeting (m / (n - m) + 1) meeting_bounds.0

  finds_cycle :
      (fuel i j : ℕ)
      → j ≡ 2 * i
      → i < meeting
      → meeting ≤ fuel + i
      → cycle_loop fuel h (walk h p j) (walk h p i) ≡ some true
  unfolding cycle_loop
  finds_cycle zero i j two lt enough = absurd (omega arith)
  finds_cycle (suc fuel) i j two lt enough =
      let here = never_nil (suc j) j (omega arith) in
      let after = never_nil (suc (suc j)) (suc j) (omega arith) in
      let jumps : may_jump h (walk h p j) ≡ true = ground arith in
      let step =
        cycle_step fuel h (walk h p j) (walk h p i) jumps (never_nil (suc i) i (omega arith)) in
      elim (Bool-cases (walk h p (suc (suc j)) == walk h p (suc i))) [
        | inl met ↦ step ∙ rw met refl
        | inr apart ↦ elim (Bool-cases (suc i == meeting)) [
          | inl last ↦
              let at_i : suc i ≡ meeting = ground arith in
              let at_j : suc (suc j) ≡ meeting + meeting = omega arith in
              let met : walk h p (suc (suc j)) ≡ walk h p (suc i) =
                ap (walk h p) at_j ∙ meet ∙ sym (ap (walk h p) at_i) in
              ground arith
          | inr more ↦
              step
              ∙ rw apart (
                  finds_cycle fuel (suc i) (suc (suc j)) (omega arith) (ground arith) (omega arith))
        ]
      ]

-- HasCycle of nodes that lead to nil or back to one of themselves ends after at most one round for
-- each node and one more, and says which it is.
pub has_cycle_lem :
    (h : Memory) (stop head fuel : ℕ) (xs : List ℕ)
    → Seg h stop head xs
    → (stop ≡ 0) ⊎ (has stop xs ≡ true)
    → length xs < fuel
    → has_cycle fuel h head ≡ some (not (stop == 0))
unfolding has_cycle
has_cycle_lem h stop head fuel xs s (inl e) enough = rw e (
    no_cycle fuel 0 0 h head xs (subst (λ z. Seg h z head xs) e s) refl (omega arith) (omega arith))
has_cycle_lem h stop head fuel xs s (inr i) enough =
    let (m, m_n, at_m) = has-walk h stop head stop xs s i in
    let back : walk h head (length xs) ≡ walk h head m = walk_end h stop head xs s ∙ sym at_m in
    let live = λ (k : ℕ) (lt : k < length xs). walk_live h stop head xs k s lt in
    let bounds = meeting_bounds h head m (length xs) m_n back live in
    let some_node = walk_live h stop head xs m s m_n in
    let cyclic : (stop == 0) ≡ false = ground arith in
    rw cyclic
      (finds_cycle h head m (length xs) m_n back live fuel 0 0 refl (omega arith) (omega arith))
