-- ===== src/Leveling/Turns.antt =====
-- The game of practice/robotic_leveling.go: its rules, as the comment at the top of the file states
-- them, and Solve played by them until it has no command.
use go_algorithm_practice.Prelude.{
  ℕ, zero, suc, ◌+◌, ◌-◌, ◌*◌, ◌<◌, ◌≡◌, refl, ap, ◌∙◌, arith, Bool, true, false, inl, inr, Option,
  none, some, List, [], ◌∷◌, if◌then◌else◌, ◌==◌, ltb, length, get_or, set, length-set, subst,
  Bool-cases, Option-cases,
}
use go_algorithm_practice.Leveling.{
  Command, right, left, pick, place, no_command, sum_boxes, total, compute_target_heights,
  find_source, find_target, approach, solve,
}
use go_algorithm_practice.Leveling.Targets.{Level, compute_target_heights-Level}
use go_algorithm_practice.Leveling.Done.{find_source-some, find_target-some}

pub record Factory : Type 0 where
  pub claw : ℕ
  pub boxes : List ℕ
  pub held : Bool

-- A command at a factory. `none` is a command that the rules do not allow.
unfoldable pub obey : Command → Factory → Option Factory
obey right f =
    if ltb (f.claw + 1) (length f.boxes)
    then some (record { claw = f.claw + 1; boxes = f.boxes; held = f.held })
    else none
obey left f =
    if ltb 0 f.claw
    then some (record { claw = f.claw - 1; boxes = f.boxes; held = f.held })
    else none
obey pick f =
    if f.held
    then none
    else if ltb 0 (get_or f.boxes f.claw 0)
    then some (record {
      claw = f.claw;
      boxes = set f.boxes f.claw (get_or f.boxes f.claw 0 - 1);
      held = true;
    })
    else none
obey place f =
    if f.held
    then some (record {
      claw = f.claw;
      boxes = set f.boxes f.claw (get_or f.boxes f.claw 0 + 1);
      held = false;
    })
    else none
obey no_command f = none

-- Solve's commands, obeyed for `fuel` turns at most, until there is none.
unfoldable pub play : ℕ → Factory → Option Factory
unfolding obey
play zero f = none
play (suc fuel) f = elim (solve f.claw f.boxes f.held) [
  | none ↦ none
  | some no_command ↦ some f
  | some c ↦ elim (obey c f) [ none ↦ none | some f' ↦ play fuel f' ]
]

sum-set :
    (boxes : List ℕ) (k v : ℕ)
    → k < length boxes
    → sum_boxes (set boxes k v) + get_or boxes k 0 ≡ sum_boxes boxes + v
unfolding sum_boxes
sum-set [] k v h = absurd (omega arith)
sum-set (b ∷ boxes) zero v h = omega arith
sum-set (b ∷ boxes) (suc k) v h = omega (arith, sum-set boxes k v)

-- The boxes above the target heights.
unfoldable pub excess : List ℕ → List ℕ → ℕ
excess [] targets = 0
excess (b ∷ boxes) [] = 0
excess (b ∷ boxes) (t ∷ targets) = b - t + excess boxes targets

excess-set :
    (boxes targets : List ℕ) (k v : ℕ)
    → length targets ≡ length boxes
    → k < length boxes
    → excess (set boxes k v) targets + (get_or boxes k 0 - get_or targets k 0)
      ≡ excess boxes targets + (v - get_or targets k 0)
unfolding excess
excess-set [] targets k v e h = absurd (omega arith)
excess-set (b ∷ boxes) [] k v e h = absurd (omega arith)
excess-set (b ∷ boxes) (t ∷ targets) zero v e h = omega arith
excess-set (b ∷ boxes) (t ∷ targets) (suc k) v e h = omega (arith, excess-set boxes targets k v)

-- The turns that so many boxes to move may take, with `n` stacks.
unfoldable pub weight : ℕ → ℕ → ℕ
weight n zero = 0
weight n (suc e) = 2 * n + 2 + weight n e

abbrev pub distance : ℕ → Option ℕ → ℕ
distance p none = 0
distance p (some g) = p - g + (g - p)

-- The stack that Solve makes for.
unfoldable pub goal_of : List ℕ → Bool → List ℕ → Option ℕ
goal_of boxes true targets = find_target boxes targets 0
goal_of boxes false targets = find_source boxes targets 0

abbrev pub factory : ℕ → List ℕ → Bool → Factory
factory claw boxes held = record { claw = claw; boxes = boxes; held = held }

unfoldable pub turns_left : ℕ → List ℕ → Bool → List ℕ → ℕ
unfolding weight excess goal_of
turns_left claw boxes held targets =
    weight (length boxes) (excess boxes targets)
    + (if held then length boxes + 1 else 0)
    + distance claw (goal_of boxes held targets)

recompute :
    (boxes boxes' : List ℕ) (held held' : Bool)
    → length boxes' ≡ length boxes
    → total boxes' held' ≡ total boxes held
    → compute_target_heights boxes' held' ≡ compute_target_heights boxes held
unfolding compute_target_heights
recompute boxes boxes' held held' e t = rw (e, t) refl

pub targets-Level :
    (boxes targets : List ℕ) (held : Bool)
    → 0 < length boxes
    → compute_target_heights boxes held ≡ some targets
    → Level boxes held targets
targets-Level boxes targets held pos e =
    let (found, computed, level) = compute_target_heights-Level boxes held pos in
    let same : found ≡ targets = cc in subst (λ ts. Level boxes held ts) same level

-- One turn: a state with the same targets and fewer turns left.
pub record Turned (boxes targets : List ℕ) (left_before : ℕ) (f : Factory) : Type 0 where
  pub inside : f.claw < length boxes
  pub sized : length f.boxes ≡ length boxes
  pub computed : compute_target_heights f.boxes f.held ≡ some targets
  pub fewer : turns_left f.claw f.boxes f.held targets < left_before

move_toward :
    (claw goal : ℕ) (boxes : List ℕ) (held : Bool) (act : Command)
    → claw < length boxes
    → goal < length boxes
    → (claw == goal) ≡ false
    → (claw' : ℕ) × (obey (approach claw goal act) (factory claw boxes held)
        ≡ some (factory claw' boxes held))
      × (claw' < length boxes)
      × (distance claw' (some goal) < distance claw (some goal))
unfolding obey
move_toward claw goal boxes held act inside reach apart = elim (Bool-cases (ltb claw goal)) [
  | inl e ↦
      let room : ltb (claw + 1) (length boxes) ≡ true = ground arith in
      (claw + 1, rw (apart, e, obey, room) refl, ground arith, ground arith)
  | inr e ↦
      let room : ltb 0 claw ≡ true = ground arith in
      (claw - 1, rw (apart, e, obey, room) refl, omega arith, ground arith)
]

pub turn_move :
    (claw goal : ℕ) (boxes targets : List ℕ) (held : Bool) (act : Command)
    → claw < length boxes
    → goal < length boxes
    → compute_target_heights boxes held ≡ some targets
    → goal_of boxes held targets ≡ some goal
    → (claw == goal) ≡ false
    → (f : Factory) × (obey (approach claw goal act) (factory claw boxes held) ≡ some f)
      × Turned boxes targets (turns_left claw boxes held targets) f
unfolding turns_left
turn_move claw goal boxes targets held act inside reach e g apart =
    let (claw', done, inside', nearer) = move_toward claw goal boxes held act inside reach apart in
    (
      factory claw' boxes held,
      done,
      record { inside = inside'; sized = refl; computed = e; fewer = rw g (omega arith) },
    )

pub distance_bound :
    (boxes targets : List ℕ) (held : Bool) (claw : ℕ)
    → claw < length boxes
    → distance claw (goal_of boxes held targets) < length boxes
unfolding goal_of
distance_bound boxes targets true claw h = elim (Option-cases (find_target boxes targets 0)) [
  | inl e ↦ rw e (omega arith)
  | inr (g, e) ↦
      let (k, at_k, inside, gap) = find_target-some boxes targets 0 g e in rw e (omega arith)
]
distance_bound boxes targets false claw h = elim (Option-cases (find_source boxes targets 0)) [
  | inl e ↦ rw e (omega arith)
  | inr (g, e) ↦
      let (k, at_k, inside, gap) = find_source-some boxes targets 0 g e in rw e (omega arith)
]

weight_less : (n e : ℕ) → 0 < e → weight n e ≡ 2 * n + 2 + weight n (e - 1)
unfolding weight
weight_less n zero h = absurd (omega arith)
weight_less n (suc e) h = ap (λ k. 2 * n + 2 + weight n k) {x = e} (omega arith)

pub turn_pick :
    (claw : ℕ) (boxes targets : List ℕ)
    → claw < length boxes
    → length targets ≡ length boxes
    → compute_target_heights boxes false ≡ some targets
    → get_or targets claw 0 < get_or boxes claw 0
    → (f : Factory) × (obey pick (factory claw boxes false) ≡ some f)
      × Turned boxes targets (turns_left claw boxes false targets) f
unfolding obey turns_left total
turn_pick claw boxes targets inside sizes e gap =
    let v = get_or boxes claw 0 - 1 in
    let boxes' = set boxes claw v in
    let some_box : ltb 0 (get_or boxes claw 0) ≡ true = ground arith in
    let size = length-set boxes claw v in
    let sum = sum-set boxes claw v inside in
    let more = excess-set boxes targets claw v sizes inside in
    let less : excess boxes' targets ≡ excess boxes targets - 1 = omega arith in
    let far = distance_bound boxes' targets true claw (omega arith) in
    let w = weight_less (length boxes) (excess boxes targets) (omega arith) in
    (
      factory claw boxes' true,
      rw some_box refl,
      record {
        inside = inside;
        sized = size;
        computed = recompute boxes boxes' false true size (omega arith) ∙ e;
        fewer = rw (size, less) (omega (arith, far));
      },
    )

pub turn_place :
    (claw : ℕ) (boxes targets : List ℕ)
    → claw < length boxes
    → length targets ≡ length boxes
    → compute_target_heights boxes true ≡ some targets
    → get_or boxes claw 0 < get_or targets claw 0
    → (f : Factory) × (obey place (factory claw boxes true) ≡ some f)
      × Turned boxes targets (turns_left claw boxes true targets) f
unfolding obey turns_left total
turn_place claw boxes targets inside sizes e gap =
    let v = get_or boxes claw 0 + 1 in
    let boxes' = set boxes claw v in
    let size = length-set boxes claw v in
    let sum = sum-set boxes claw v inside in
    let more = excess-set boxes targets claw v sizes inside in
    let less : excess boxes' targets ≡ excess boxes targets = omega arith in
    let far = distance_bound boxes' targets false claw (omega arith) in
    (
      factory claw boxes' false,
      refl,
      record {
        inside = inside;
        sized = size;
        computed = recompute boxes boxes' true false size (omega arith) ∙ e;
        fewer = rw (size, less) (omega (arith, far));
      },
    )
