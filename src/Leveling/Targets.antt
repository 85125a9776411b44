-- ===== src/Leveling/Targets.antt =====
-- computeTargetHeights of practice/robotic_leveling.go: the heights add up to the boxes.
use go_algorithm_practice.Prelude.{
  ℕ, zero, suc, ◌+◌, ◌-◌, ◌*◌, ◌/◌, ◌%◌, ◌≤◌, ◌<◌, ◌≡◌, refl, sym, ap, ◌∙◌, arith, Bool, false,
  some, List, [], ◌∷◌, if◌then◌else◌, ◌==◌, ltb, length, get_or,
}
use go_algorithm_practice.Leveling.{sum_boxes, total, fill_heights, compute_target_heights}

pub length-fill_heights : (n avg rem : ℕ) → length (fill_heights n avg rem) ≡ n
unfolding fill_heights
length-fill_heights zero avg rem = refl
length-fill_heights (suc n) avg rem = ap suc (length-fill_heights n avg (rem - 1))

sum-fill_heights : (n avg rem : ℕ) → rem ≤ n → sum_boxes (fill_heights n avg rem) ≡ n * avg + rem
unfolding fill_heights sum_boxes
sum-fill_heights zero avg rem h = grind arith
sum-fill_heights (suc n) avg rem h =
    let ih = sum-fill_heights n avg (rem - 1) (omega arith) in grind arith

get_or-fill_heights :
    (n avg rem i : ℕ)
    → i < n
    → get_or (fill_heights n avg rem) i 0 ≡ (if ltb i rem then avg + 1 else avg)
unfolding fill_heights
get_or-fill_heights zero avg rem i h = absurd (omega arith)
get_or-fill_heights (suc n) avg rem zero h = refl
get_or-fill_heights (suc n) avg rem (suc i) h =
    get_or-fill_heights n avg (rem - 1) i (omega arith) ∙ ground arith

-- The target heights: one for each stack, together as many as the boxes, the one in the claw
-- included; each is the mean, rounded down, and the leftmost stacks have one more.
pub record Level (boxes : List ℕ) (held : Bool) (targets : List ℕ) : Type 0 where
  pub sized : length targets ≡ length boxes
  pub summed : sum_boxes targets ≡ total boxes held
  pub leftmost :
      (i : ℕ)
      → i < length boxes
      → get_or targets i 0 ≡ (
          if ltb i (total boxes held % length boxes)
          then total boxes held / length boxes + 1
          else total boxes held / length boxes)

-- Lists of one length with the same numbers.
same_list :
    (xs ys : List ℕ)
    → length xs ≡ length ys
    → ((i : ℕ) → i < length ys → get_or xs i 0 ≡ get_or ys i 0)
    → xs ≡ ys
same_list [] [] e h = refl
same_list [] (y ∷ ys) e h = absurd (omega arith)
same_list (x ∷ xs) [] e h = absurd (omega arith)
same_list (x ∷ xs) (y ∷ ys) e h =
    let first : x ≡ y = h 0 (omega arith) in
    let rest = same_list xs ys (omega arith) (λ i lt. h (suc i) (omega arith)) in
    rw (first, rest) refl

-- Some boxes have only one list of level heights.
pub Level-eq :
    (boxes : List ℕ) (held : Bool) (hs ts : List ℕ)
    → Level boxes held hs
    → Level boxes held ts
    → hs ≡ ts
Level-eq boxes held hs ts a b =
    let size = a.sized in
    let size' = b.sized in
    same_list hs ts (omega arith) (λ i h.
      let inside : i < length boxes = omega arith in
      a.leftmost i inside ∙ sym (b.leftmost i inside))

-- computeTargetHeights of at least one stack does not panic and levels the boxes: one target for each
-- stack, together as many as the boxes, each the mean rounded down, and one more for the leftmost
-- stacks while there is a remainder.
pub compute_target_heights-Level :
    (boxes : List ℕ) (held : Bool)
    → 0 < length boxes
    → (targets : List ℕ) × (compute_target_heights boxes held ≡ some targets)
      × Level boxes held targets
unfolding compute_target_heights
compute_target_heights-Level boxes held pos =
    let n = length boxes in
    let sum = total boxes held in
    let live : (n == 0) ≡ false = ground arith in
    let small : sum % n < n = grind arith in
    (
      fill_heights n (sum / n) (sum % n),
      rw live refl,
      record {
        sized = length-fill_heights n (sum / n) (sum % n);
        summed = sum-fill_heights n (sum / n) (sum % n) (omega arith) ∙ grind arith;
        leftmost = λ i h. get_or-fill_heights n (sum / n) (sum % n) i h;
      },
    )
