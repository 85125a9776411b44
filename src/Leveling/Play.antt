-- ===== src/Leveling/Play.antt =====
-- The game of practice/robotic_leveling.go played to its end.
use go_algorithm_practice.Prelude.{
  subst, ℕ, zero, suc, ◌+◌, ◌*◌, ◌≤◌, ◌<◌, ◌≡◌, ◌⊎◌, refl, sym, ap, ◌∙◌, arith, Bool, true, false,
  inl, inr, some, List, [], ◌∷◌, ◌==◌, length, Bool-cases, Option-cases,
}
use go_algorithm_practice.Leveling.{
  Command, right, left, pick, place, no_command, sum_boxes, compute_target_heights, find_source,
  find_target, approach, next_command, solve,
}
use go_algorithm_practice.Leveling.Targets.{Level, compute_target_heights-Level}
use go_algorithm_practice.Leveling.Done.{
  find_source-some, find_target-some, solve-next_command, next_command_done,
}
use go_algorithm_practice.Leveling.Turns.{
  Factory, factory, obey, play, excess, weight, goal_of, turns_left, Turned, targets-Level,
  turn_move, turn_pick, turn_place, distance_bound,
}

play_step :
    (fuel : ℕ) (f f' : Factory) (c : Command)
    → solve f.claw f.boxes f.held ≡ some c
    → obey c f ≡ some f'
    → play (suc fuel) f ≡ play fuel f'
unfolding play
play_step fuel f f' right e o = rw (e, play, o) refl
play_step fuel f f' left e o = rw (e, play, o) refl
play_step fuel f f' pick e o = rw (e, play, o) refl
play_step fuel f f' place e o = rw (e, play, o) refl
play_step fuel f f' no_command e o = unfold obey in cc

play_end :
    (fuel : ℕ) (f : Factory)
    → solve f.claw f.boxes f.held ≡ some no_command
    → play (suc fuel) f ≡ some f
unfolding play
play_end fuel f e = rw (e, play) refl

-- A turn is taken, if there is a command.
abbrev Turns : ℕ → List ℕ → Bool → List ℕ → Command → Type 0
Turns claw boxes held targets c =
    (f : Factory) × (obey c (factory claw boxes held) ≡ some f)
    × Turned boxes targets (turns_left claw boxes held targets) f

turn_at :
    (claw goal : ℕ) (boxes targets : List ℕ) (held : Bool) (act : Command)
    → claw < length boxes
    → goal < length boxes
    → compute_target_heights boxes held ≡ some targets
    → goal_of boxes held targets ≡ some goal
    → (claw ≡ goal → Turns claw boxes held targets act)
    → Turns claw boxes held targets (approach claw goal act)
turn_at claw goal boxes targets held act inside reach e g at_goal =
    elim (Bool-cases (claw == goal)) [
      | inl same ↦ rw same (at_goal (ground arith))
      | inr apart ↦ turn_move claw goal boxes targets held act inside reach e g apart
    ]

turn :
    (claw : ℕ) (boxes targets : List ℕ) (held : Bool)
    → claw < length boxes
    → compute_target_heights boxes held ≡ some targets
    → (next_command claw boxes held targets ≡ no_command)
      ⊎ Turns claw boxes held targets (next_command claw boxes held targets)
unfolding next_command goal_of
turn claw boxes targets true inside e = elim (Option-cases (find_target boxes targets 0)) [
  | inl g ↦ inl (rw (g, next_command) refl)
  | inr (goal, g) ↦
      let (k, at_k, reach, gap) = find_target-some boxes targets 0 goal g in
      let level = targets-Level boxes targets true (omega arith) e in
      inr (
        rw (g, next_command)
          (turn_at claw goal boxes targets true place inside (omega arith) e g (λ same.
            turn_place claw boxes targets inside level.sized e
              (let here : claw ≡ k = omega arith in rw here gap))))
]
turn claw boxes targets false inside e = elim (Option-cases (find_source boxes targets 0)) [
  | inl g ↦ inl (rw (g, next_command) refl)
  | inr (goal, g) ↦
      let (k, at_k, reach, gap) = find_source-some boxes targets 0 goal g in
      let level = targets-Level boxes targets false (omega arith) e in
      inr (
        rw (g, next_command)
          (turn_at claw goal boxes targets false pick inside (omega arith) e g (λ same.
            turn_pick claw boxes targets inside level.sized e
              (let here : claw ≡ k = omega arith in rw here gap))))
]

play_from :
    (fuel claw : ℕ) (boxes targets : List ℕ) (held : Bool)
    → claw < length boxes
    → compute_target_heights boxes held ≡ some targets
    → turns_left claw boxes held targets < fuel
    → (f : Factory) × (play fuel (factory claw boxes held) ≡ some f)
      × (f.held ≡ false)
      × (f.boxes ≡ targets)
play_from zero claw boxes targets held inside e enough = absurd (omega arith)
play_from (suc fuel) claw boxes targets held inside e enough =
    let solved = solve-next_command claw boxes held targets e in
    elim (turn claw boxes targets held inside e) [
      | inl done ↦
          let (empty, even) =
            next_command_done claw boxes held targets
              (targets-Level boxes targets held (omega arith) e) done in
          (
            factory claw boxes held,
            play_end fuel (factory claw boxes held) (solved ∙ ap some done),
            empty,
            even,
          )
      | inr (f, obeyed, turned) ↦
          let (f', played, empty, even) =
            play_from fuel f.claw f.boxes targets f.held
              (omega (arith, turned.inside, turned.sized)) turned.computed
              (omega (arith, turned.fewer)) in
          (
            f',
            play_step fuel (factory claw boxes held) f (next_command claw boxes held targets) solved
                  obeyed
                ∙ played,
            empty,
            even,
          )
    ]

weight-value : (n e : ℕ) → weight n e ≡ (2 * n + 2) * e
unfolding weight
weight-value n zero = grind arith
weight-value n (suc e) = let ih = weight-value n e in grind arith

weight_le : (n e s : ℕ) → e ≤ s → weight n e ≤ weight n s
unfolding weight
weight_le n zero zero h = omega arith
weight_le n zero (suc s) h = omega arith
weight_le n (suc e) zero h = absurd (omega arith)
weight_le n (suc e) (suc s) h = omega (arith, weight_le n e s)

excess_le : (boxes targets : List ℕ) → excess boxes targets ≤ sum_boxes boxes
unfolding excess sum_boxes
excess_le [] targets = omega arith
excess_le (b ∷ boxes) [] = omega arith
excess_le (b ∷ boxes) (t ∷ targets) = omega (arith, excess_le boxes targets)

turns_bound :
    (claw : ℕ) (boxes targets : List ℕ) (held : Bool)
    → claw < length boxes
    → turns_left claw boxes held targets < (2 * length boxes + 2) * (sum_boxes boxes + 1)
unfolding turns_left
turns_bound claw boxes targets held inside =
    let n = length boxes in
    let far = distance_bound boxes targets held claw inside in
    let most = weight_le n (excess boxes targets) (sum_boxes boxes) (excess_le boxes targets) in
    let value = weight-value n (sum_boxes boxes) in
    let spread : (2 * n + 2) * (sum_boxes boxes + 1) ≡ (2 * n + 2) * sum_boxes boxes + (2 * n + 2) =
      grind arith in
    ground arith

-- With the arm above a stack, the commands of Solve are all allowed by the rules, and obeying them
-- comes to an end with an empty claw and level stacks: as many as before, with all boxes, the one in
-- the claw included, each as high as the mean rounded down, and the leftmost ones, as many as the
-- remainder, one higher. These are the heights of computeTargetHeights. 2n + 2 turns for each box in
-- the n stacks, and 2n + 2 more, are enough.
pub play_levels :
    (claw : ℕ) (boxes : List ℕ) (held : Bool)
    → claw < length boxes
    → (f : Factory) × (play
          ((2 * length boxes + 2) * (sum_boxes boxes + 1))
          (factory claw boxes held)
        ≡ some f)
      × (f.held ≡ false)
      × Level boxes held f.boxes
      × (compute_target_heights boxes held ≡ some f.boxes)
play_levels claw boxes held inside =
    let (targets, computed, level) = compute_target_heights-Level boxes held (omega arith) in
    let (f, played, empty, even) =
      play_from ((2 * length boxes + 2) * (sum_boxes boxes + 1)) claw boxes targets held inside
        computed (turns_bound claw boxes targets held inside) in
    (f, played, empty, subst (Level boxes held) (sym even) level, computed ∙ ap some (sym even))
