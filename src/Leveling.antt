-- ===== src/Leveling.antt =====
-- practice/robotic_leveling.go: the commands for a robotic arm that levels stacks of boxes. Positions
-- and heights are numbers, and the index -1 of the source is `none`.
pub mod Targets
pub mod Done
pub mod Turns
pub mod Play
mod Tests
use go_algorithm_practice.Prelude.{
  ℕ, zero, suc, ◌+◌, ◌-◌, ◌/◌, ◌%◌, Bool, true, false, Option, none, some, List, [], ◌∷◌,
  if◌then◌else◌, ◌==◌, ltb, length,
}

-- `no_command` is the empty string.
pub data Command : Type 0 where
  right : Command
  left : Command
  pick : Command
  place : Command
  no_command : Command

unfoldable pub sum_boxes : List ℕ → ℕ
sum_boxes [] = 0
sum_boxes (b ∷ boxes) = b + sum_boxes boxes

unfoldable pub total : List ℕ → Bool → ℕ
unfolding sum_boxes
total boxes box_in_claw = if box_in_claw then sum_boxes boxes + 1 else sum_boxes boxes

-- The loop that fills `targetHeights`, with `n` heights to go.
unfoldable pub fill_heights : ℕ → ℕ → ℕ → List ℕ
fill_heights zero avg rem = []
fill_heights (suc n) avg rem =
    let rest = fill_heights n avg (rem - 1) in (if ltb 0 rem then avg + 1 else avg) ∷ rest

-- `none` is a division by zero, with no stack.
unfoldable pub compute_target_heights : List ℕ → Bool → Option (List ℕ)
unfolding total fill_heights
compute_target_heights boxes box_in_claw =
    let n = length boxes in
    let sum = total boxes box_in_claw in
    if n == 0 then none else some (fill_heights n (sum / n) (sum % n))

-- Assumes, like the source, a target for each stack.
unfoldable pub is_leveled : List ℕ → List ℕ → Bool
is_leveled [] targets = true
is_leveled (b ∷ boxes) [] = true
is_leveled (b ∷ boxes) (t ∷ targets) = if b == t then is_leveled boxes targets else false

-- findSource and findTarget from index `i` on.
unfoldable pub find_source : List ℕ → List ℕ → ℕ → Option ℕ
find_source [] targets i = none
find_source (b ∷ boxes) [] i = none
find_source (b ∷ boxes) (t ∷ targets) i =
    if ltb t b then some i else find_source boxes targets (i + 1)

unfoldable pub find_target : List ℕ → List ℕ → ℕ → Option ℕ
find_target [] targets i = none
find_target (b ∷ boxes) [] i = none
find_target (b ∷ boxes) (t ∷ targets) i =
    if ltb b t then some i else find_target boxes targets (i + 1)

-- One round of Solve: towards a position, and there the command that is wanted.
abbrev pub approach : ℕ → ℕ → Command → Command
approach claw_pos goal act =
    if claw_pos == goal then act else if ltb claw_pos goal then right else left

-- Solve behind the targets.
unfoldable pub next_command : ℕ → List ℕ → Bool → List ℕ → Command
unfolding find_source find_target
next_command claw_pos boxes true targets = elim (find_target boxes targets 0) [
  | none ↦ no_command
  | some dest ↦ approach claw_pos dest place
]
next_command claw_pos boxes false targets = elim (find_source boxes targets 0) [
  | none ↦ no_command
  | some source ↦ approach claw_pos source pick
]

unfoldable pub solve : ℕ → List ℕ → Bool → Option Command
unfolding compute_target_heights next_command
solve claw_pos boxes box_in_claw = elim (compute_target_heights boxes box_in_claw) [
  | none ↦ none
  | some targets ↦ some (next_command claw_pos boxes box_in_claw targets)
]
