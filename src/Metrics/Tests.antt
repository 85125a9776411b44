-- ===== src/Metrics/Tests.antt =====
-- Runs of a ring of three samples that is written four times, and the theorems at it.
use go_algorithm_practice.Prelude.{
  ℕ, zero, suc, ◌+◌, ◌/◌, ◌<◌, ◌≡◌, refl, arith, Bool, none, some, List, [], ◌∷◌, leb, get_or, take,
}
use go_algorithm_practice.Metrics.{
  Ring, new_ring, position, push, recent, copied, get_recent, sum_from, average, window_from,
  get_window,
}
use go_algorithm_practice.Metrics.History.{Holds, push_all, pushes-Holds}
use go_algorithm_practice.Metrics.Recent.{take_while, get_window_lem}
use go_algorithm_practice.Metrics.Latest.{Latest, get_recent-Latest}

abbrev written : Ring ℕ
written = record { buffer = 40 ∷ 20 ∷ 30 ∷ []; write_idx = 1; count = 3; size = 3 }

abbrev history : List ℕ
history = 40 ∷ 30 ∷ 20 ∷ 10 ∷ []

abbrev plus : ℕ → ℕ → ℕ
plus a b = a + b

abbrev over : ℕ → ℕ → ℕ
over a n = a / n

abbrev at_least_30 : ℕ → ℕ → Bool
at_least_30 i n = leb 30 n

metrics_runs :
    (push {V = ℕ} 40 (record { buffer = 10 ∷ 20 ∷ 30 ∷ []; write_idx = 0; count = 3; size = 3 })
      ≡ some written)
    × (get_recent 0 2 written ≡ some (30 ∷ 40 ∷ []))
    × (get_recent 0 9 written ≡ some (20 ∷ 30 ∷ 40 ∷ []))
    × (average 0 plus over written ≡ 30)
    × (get_window 0 at_least_30 written ≡ 40 ∷ 30 ∷ [])
    × (push {V = ℕ} 40 (new_ring 0 0) ≡ none)
unfolding push new_ring recent copied get_recent sum_from average window_from get_window
metrics_runs = (refl, refl, refl, refl, refl, refl)

newest_three :
    (i : ℕ) → i < 3 → get_or (written.buffer) (position 0 written i) 0 ≡ get_or history i 0
newest_three zero h = refl
newest_three (suc zero) h = refl
newest_three (suc (suc zero)) h = refl
newest_three (suc (suc (suc i))) h = absurd (omega arith)

written-Holds : Holds 0 written history
written-Holds = record {
  sized = refl;
  nonempty = omega arith;
  index = omega arith;
  counted = omega arith;
  newest = newest_three;
}

get_window_lem_example :
    get_window 0 at_least_30 written ≡ take_while at_least_30 0 (take 3 history)
get_window_lem_example = get_window_lem 0 at_least_30 written history written-Holds

get_recent-Latest_example :
    (out : List ℕ) × (get_recent 0 2 written ≡ some out) × Latest 0 written history 2 out
get_recent-Latest_example = get_recent-Latest 0 written history 2 written-Holds

pushes-Holds_example :
    (r' : Ring ℕ) × (push_all 0 (10 ∷ 20 ∷ 30 ∷ 40 ∷ []) (new_ring 0 3) ≡ some r')
    × Holds 0 r' history
    × (r'.size ≡ 3)
pushes-Holds_example = pushes-Holds 0 3 (10 ∷ 20 ∷ 30 ∷ 40 ∷ []) (omega arith)
