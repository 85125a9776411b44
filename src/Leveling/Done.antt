-- ===== src/Leveling/Done.antt =====
-- Where Solve of practice/robotic_leveling.go has no command: when the boxes are level.
use go_algorithm_practice.Prelude.{
  subst, ℕ, suc, ◌+◌, ◌≤◌, ◌<◌, ◌≡◌, ◌↔◌, refl, sym, ap, ◌∙◌, arith, Bool, true, false, inl, inr,
  none, some, List, [], ◌∷◌, ltb, length, get_or, Bool-cases, Option-cases,
}
use go_algorithm_practice.Leveling.{
  Command, pick, place, no_command, sum_boxes, total, compute_target_heights, find_source,
  find_target, approach, next_command, solve,
}
use go_algorithm_practice.Leveling.Targets.{Level, Level-eq, compute_target_heights-Level}

-- A source has a box too many, and a target one too few.
pub find_source-some :
    (boxes targets : List ℕ) (i s : ℕ)
    → find_source boxes targets i ≡ some s
    → (k : ℕ) × (s ≡ i + k) × (k < length boxes) × (get_or targets k 0 < get_or boxes k 0)
unfolding find_source
find_source-some [] targets i s h = cc
find_source-some (b ∷ boxes) [] i s h = cc
find_source-some (b ∷ boxes) (t ∷ targets) i s h = elim (Bool-cases (ltb t b)) [
  | inl e ↦ let same : i ≡ s = cc (rw e at h) in (0, omega arith, omega arith, ground arith)
  | inr e ↦
      let (k, at_k, inside, gap) = find_source-some boxes targets (i + 1) s (rw e at h) in
      (suc k, omega arith, omega arith, gap)
]

pub find_target-some :
    (boxes targets : List ℕ) (i s : ℕ)
    → find_target boxes targets i ≡ some s
    → (k : ℕ) × (s ≡ i + k) × (k < length boxes) × (get_or boxes k 0 < get_or targets k 0)
unfolding find_target
find_target-some [] targets i s h = cc
find_target-some (b ∷ boxes) [] i s h = cc
find_target-some (b ∷ boxes) (t ∷ targets) i s h = elim (Bool-cases (ltb b t)) [
  | inl e ↦ let same : i ≡ s = cc (rw e at h) in (0, omega arith, omega arith, ground arith)
  | inr e ↦
      let (k, at_k, inside, gap) = find_target-some boxes targets (i + 1) s (rw e at h) in
      (suc k, omega arith, omega arith, gap)
]

pub find_source-none :
    (boxes targets : List ℕ) (i : ℕ)
    → length targets ≡ length boxes
    → find_source boxes targets i ≡ none
    → (sum_boxes boxes ≤ sum_boxes targets)
      × (sum_boxes boxes ≡ sum_boxes targets → boxes ≡ targets)
unfolding find_source sum_boxes
find_source-none [] [] i e h = (omega arith, λ k. refl)
find_source-none [] (t ∷ targets) i e h = absurd (omega arith)
find_source-none (b ∷ boxes) [] i e h = absurd (omega arith)
find_source-none (b ∷ boxes) (t ∷ targets) i e h = elim (Bool-cases (ltb t b)) [
  | inl d ↦ cc (rw d at h)
  | inr d ↦
      let ih = find_source-none boxes targets (i + 1) (omega arith) (rw d at h) in
      let low : b ≤ t = ground arith in
      (
        omega arith,
        λ k.
            let rest = ih.1 (omega arith) in
            let first : b ≡ t = omega arith in rw (first, rest) refl,
      )
]

pub find_target-none :
    (boxes targets : List ℕ) (i : ℕ)
    → length targets ≡ length boxes
    → find_target boxes targets i ≡ none
    → sum_boxes targets ≤ sum_boxes boxes
unfolding find_target sum_boxes
find_target-none [] [] i e h = omega arith
find_target-none [] (t ∷ targets) i e h = absurd (omega arith)
find_target-none (b ∷ boxes) [] i e h = absurd (omega arith)
find_target-none (b ∷ boxes) (t ∷ targets) i e h = elim (Bool-cases (ltb b t)) [
  | inl d ↦ cc (rw d at h)
  | inr d ↦
      let ih = find_target-none boxes targets (i + 1) (omega arith) (rw d at h) in ground arith
]

find_source_self : (boxes : List ℕ) (i : ℕ) → find_source boxes boxes i ≡ none
unfolding find_source
find_source_self [] i = refl
find_source_self (b ∷ boxes) i =
    let even : ltb b b ≡ false = ground arith in rw even (find_source_self boxes (i + 1))

approach_acts :
    (p g : ℕ) (act : Command)
    → (act ≡ no_command → false ≡ true)
    → approach p g act ≡ no_command
    → false ≡ true
approach_acts p g act a h = ground arith

pub solve-next_command :
    (claw : ℕ) (boxes : List ℕ) (held : Bool) (targets : List ℕ)
    → compute_target_heights boxes held ≡ some targets
    → solve claw boxes held ≡ some (next_command claw boxes held targets)
unfolding solve
solve-next_command claw boxes held targets e = rw (e, solve) refl

pub next_command_done :
    (claw : ℕ) (boxes : List ℕ) (held : Bool) (targets : List ℕ)
    → Level boxes held targets
    → next_command claw boxes held targets ≡ no_command
    → (held ≡ false) × (boxes ≡ targets)
unfolding next_command total
next_command_done claw boxes true targets level h =
    elim (Option-cases (find_target boxes targets 0)) [
      | inl e ↦ absurd (omega (arith, find_target-none boxes targets 0 level.sized e, level.summed))
      | inr (d, e) ↦ cc (approach_acts claw d place (λ k. cc) (rw (e, next_command) at h))
    ]
next_command_done claw boxes false targets level h =
    elim (Option-cases (find_source boxes targets 0)) [
      | inl e ↦ (refl, (find_source-none boxes targets 0 level.sized e).1 (sym level.summed))
      | inr (d, e) ↦ cc (approach_acts claw d pick (λ k. cc) (rw (e, next_command) at h))
    ]

next_command_level : (claw : ℕ) (boxes : List ℕ) → next_command claw boxes false boxes ≡ no_command
unfolding next_command
next_command_level claw boxes = rw (find_source_self boxes 0, next_command) refl

-- With at least one stack Solve returns no command exactly when no box is in the claw and the stacks
-- are level: each is as high as the mean of the heights rounded down, and the leftmost ones, as many
-- as the remainder, one higher.
pub solve_done_iff :
    (claw : ℕ) (boxes : List ℕ) (held : Bool)
    → 0 < length boxes
    → (solve claw boxes held ≡ some no_command) ↔ ((held ≡ false) × Level boxes false boxes)
solve_done_iff claw boxes held pos =
    let (targets, computed, level) = compute_target_heights-Level boxes held pos in
    (
      λ h.
          let done : next_command claw boxes held targets ≡ no_command =
            cc (solve-next_command claw boxes held targets computed) in
          let (empty, even) = next_command_done claw boxes held targets level done in
          (
            empty,
            subst (λ b. Level boxes b boxes) empty (subst (Level boxes held) (sym even) level),
          ),
      λ (empty, even).
          let here = subst (λ b. Level boxes b boxes) (sym empty) even in
          let same = Level-eq boxes held targets boxes level here in
          solve-next_command claw boxes held boxes (computed ∙ ap some same)
          ∙ rw empty (ap some (next_command_level claw boxes)),
    )
