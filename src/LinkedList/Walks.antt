-- ===== src/LinkedList/Walks.antt =====
-- Following the pointers of a list of data-structures/linkedlist.go, and FindMiddle.
use go_algorithm_practice.Prelude.Addresses.{has}
use go_algorithm_practice.Prelude.{
  ℕ, zero, suc, ◌+◌, ◌*◌, ◌/◌, ◌≤◌, ◌<◌, ◌≡◌, ◌≢◌, refl, sym, ap, ◌∙◌, arith, true, false, inl, inr,
  some, List, [], ◌∷◌, ◌==◌, ltb, length, get_or, Bool-cases,
}
use go_algorithm_practice.LinkedList.{Memory, may_jump, jump, middle_loop, find_middle}
use go_algorithm_practice.LinkedList.Segments.{Seg}

-- The pointer after `k` steps.
abbrev pub walk : Memory → ℕ → ℕ → ℕ
walk h p zero = p
walk h p (suc k) = (h (walk h p k)).next

pub walk_later : (h : Memory) (p k : ℕ) → walk h (h p).next k ≡ walk h p (suc k)
walk_later h p zero = refl
walk_later h p (suc k) = ap (λ a. (h a).next) (walk_later h p k)

pub walk_end :
    (h : Memory) (stop p : ℕ) (xs : List ℕ) → Seg h stop p xs → walk h p (length xs) ≡ stop
walk_end h stop p [] s = s
walk_end h stop p (a ∷ xs) (e, live, fresh, s) =
    ap (λ b. walk h b (suc (length xs))) e
    ∙ sym (walk_later h a (length xs))
    ∙ walk_end h stop (h a).next xs s

pub walk-has :
    (h : Memory) (stop p : ℕ) (xs : List ℕ) (k : ℕ)
    → Seg h stop p xs
    → k < length xs
    → has (walk h p k) xs ≡ true
walk-has h stop p [] k s lt = absurd (omega arith)
walk-has h stop p (a ∷ xs) zero (e, live, fresh, s) lt = ground arith
walk-has h stop p (a ∷ xs) (suc k) (e, live, fresh, s) lt =
    let there = walk-has h stop (h a).next xs k s (omega arith) in
    let same : walk h (h a).next k ≡ walk h p (suc k) =
      walk_later h a k ∙ ap (λ b. walk h b (suc k)) (sym e) in
    let at_k : has (walk h p (suc k)) xs ≡ true = rw (sym same) there in ground arith

pub has-live : (h : Memory) (stop p c : ℕ) (xs : List ℕ) → Seg h stop p xs → has c xs ≡ true → c ≢ 0
has-live h stop p c [] s i = λ e. cc
has-live h stop p c (a ∷ xs) (e, live, fresh, s) i = elim (Bool-cases (c == a)) [
  | inl same ↦ ground arith
  | inr other ↦ has-live h stop (h a).next c xs s (ground arith)
]

pub walk_live :
    (h : Memory) (stop p : ℕ) (xs : List ℕ) (k : ℕ)
    → Seg h stop p xs
    → k < length xs
    → walk h p k ≢ 0
walk_live h stop p xs k s lt = has-live h stop p (walk h p k) xs s (walk-has h stop p xs k s lt)

pub walk_get :
    (h : Memory) (stop p : ℕ) (xs : List ℕ) (k : ℕ)
    → Seg h stop p xs
    → k < length xs
    → walk h p k ≡ get_or xs k 0
walk_get h stop p [] k s lt = absurd (omega arith)
walk_get h stop p (a ∷ xs) zero (e, live, fresh, s) lt = e
walk_get h stop p (a ∷ xs) (suc k) (e, live, fresh, s) lt =
    ap (λ b. walk h b (suc k)) e
    ∙ sym (walk_later h a k)
    ∙ walk_get h stop (h a).next xs k s (omega arith)

-- In a list the pointers are not nil until the end.
pub walk_nil :
    (h : Memory) (p : ℕ) (xs : List ℕ) (k : ℕ)
    → Seg h 0 p xs
    → k ≤ length xs
    → (walk h p k == 0) ≡ (k == length xs)
walk_nil h p xs k s le = elim (Bool-cases (k == length xs)) [
  | inl e ↦
      let at_end : k ≡ length xs = ground arith in
      let nil : walk h p k ≡ 0 = ap (walk h p) at_end ∙ walk_end h 0 p xs s in ground arith
  | inr e ↦ let live = walk_live h 0 p xs k s (ground arith) in ground arith
]

middle_step :
    (fuel : ℕ) (h : Memory) (fast slow : ℕ)
    → may_jump h fast ≡ true
    → slow ≢ 0
    → middle_loop (suc fuel) h fast slow ≡ middle_loop fuel h (jump h fast) (h slow).next
unfolding middle_loop
middle_step fuel h fast slow e live =
    let going : (slow == 0) ≡ false = ground arith in rw (e, middle_loop, going) refl

middle_loop-walk :
    (fuel i j : ℕ) (h : Memory) (p : ℕ) (xs : List ℕ)
    → Seg h 0 p xs
    → j ≡ 2 * i
    → j ≤ length xs
    → length xs / 2 < fuel + i
    → middle_loop fuel h (walk h p j) (walk h p i) ≡ some (walk h p (length xs / 2))
unfolding middle_loop
middle_loop-walk zero i j h p xs s two inside enough = absurd (omega arith)
middle_loop-walk (suc fuel) i j h p xs s two inside enough =
    elim (Bool-cases (ltb (suc j) (length xs))) [
      | inl e ↦
          let more : suc j < length xs = ground arith in
          let here = walk_nil h p xs j s (omega arith) in
          let after = walk_nil h p xs (suc j) s (omega arith) in
          let jumps : may_jump h (walk h p j) ≡ true = ground arith in
          middle_step fuel h (walk h p j) (walk h p i) jumps (walk_live h 0 p xs i s (omega arith))
          ∙ middle_loop-walk fuel (suc i) (suc (suc j)) h p xs s (omega arith) (omega arith)
              (omega arith)
      | inr e ↦
          let here = walk_nil h p xs j s inside in
          let stops : may_jump h (walk h p j) ≡ false = elim (Bool-cases (j == length xs)) [
            | inl at_end ↦ ground arith
            | inr before ↦ let after = walk_nil h p xs (suc j) s (ground arith) in ground arith
          ] in
          let half : i ≡ length xs / 2 = ground arith in
          rw (stops, middle_loop) (ap (λ k. some (walk h p k)) half)
    ]

pub walk_half :
    (h : Memory) (p : ℕ) (xs : List ℕ)
    → Seg h 0 p xs
    → walk h p (length xs / 2) ≡ get_or xs (length xs / 2) 0
walk_half h p [] s = s
walk_half h p (a ∷ xs) s = walk_get h 0 p (a ∷ xs) (length (a ∷ xs) / 2) s (omega arith)

-- FindMiddle of a list of `n` nodes ends and returns the node behind the first n / 2, the second of
-- the two middle nodes if there are two; of an empty list it returns nil.
pub find_middle-walk :
    (h : Memory) (head fuel : ℕ) (xs : List ℕ)
    → Seg h 0 head xs
    → length xs / 2 < fuel
    → find_middle fuel h head ≡ some (get_or xs (length xs / 2) 0)
unfolding find_middle
find_middle-walk h head fuel xs s enough =
    middle_loop-walk fuel 0 0 h head xs s refl (omega arith) (omega arith)
    ∙ ap some (walk_half h head xs s)
