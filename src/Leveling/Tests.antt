-- ===== src/Leveling/Tests.antt =====
-- Runs of Solve on seven boxes in three stacks, and the theorems at them.
use go_algorithm_practice.Prelude.{
  ℕ, ◌+◌, ◌*◌, ◌≡◌, ◌↔◌, refl, arith, Bool, true, false, some, List, [], ◌∷◌,
}
use go_algorithm_practice.Leveling.{
  right, left, pick, no_command, sum_boxes, total, fill_heights, compute_target_heights, is_leveled,
  find_source, find_target, next_command, solve,
}
use go_algorithm_practice.Leveling.Done.{solve_done_iff}
use go_algorithm_practice.Leveling.Targets.{Level}
use go_algorithm_practice.Leveling.Turns.{Factory, factory, obey, play}
use go_algorithm_practice.Leveling.Play.{play_levels}

abbrev stacks : List ℕ
stacks = 1 ∷ 5 ∷ 1 ∷ []

leveling_runs :
    (compute_target_heights stacks false ≡ some (3 ∷ 2 ∷ 2 ∷ []))
    × (solve 0 stacks false ≡ some right)
    × (solve 1 stacks false ≡ some pick)
    × (solve 1 (1 ∷ 4 ∷ 1 ∷ []) true ≡ some left)
    × (solve 0 (3 ∷ 2 ∷ 2 ∷ []) false ≡ some no_command)
    × (is_leveled stacks (3 ∷ 2 ∷ 2 ∷ []) ≡ false)
    × (play 20 (factory 2 stacks false) ≡ some (factory 2 (3 ∷ 2 ∷ 2 ∷ []) false))
unfolding compute_target_heights total sum_boxes fill_heights solve next_command find_source
    find_target is_leveled play obey
leveling_runs = (refl, refl, refl, refl, refl, refl, refl)

solve_done_iff_example :
    (solve 0 stacks false ≡ some no_command)
    ↔ ((◌≡◌ {A = Bool} false false) × Level stacks false stacks)
solve_done_iff_example = solve_done_iff 0 stacks false (omega arith)

play_levels_example :
    (f : Factory) × (play ((2 * 3 + 2) * (sum_boxes stacks + 1)) (factory 2 stacks false) ≡ some f)
    × (f.held ≡ false)
    × Level stacks false f.boxes
    × (compute_target_heights stacks false ≡ some f.boxes)
play_levels_example = play_levels 2 stacks false (omega arith)
