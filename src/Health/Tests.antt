-- ===== src/Health/Tests.antt =====
-- A run of the worker pool, and the theorems at it.
use go_algorithm_practice.Prelude.{
  ℕ, ◌+◌, ◌%◌, ◌^◌, ◌/◌, ◌≤◌, ◌<◌, ◌≡◌, ◌==◌, refl, arith, Bool, true, false, List, [], ◌∷◌, length,
  if◌then◌else◌, ltb,
}
use go_algorithm_practice.Prelude.Int.{pos}
use go_algorithm_practice.Health.{Result, answered, compute_summary, check_url}
use go_algorithm_practice.Health.Pool.{
  results_size, Pool, pool, holding, checking, returned, start, send_job, close_jobs, take_job,
  start_check, send_result, end_worker, Reach, at_start, after_step, idle,
}
use go_algorithm_practice.Health.Counts.{count, urls_of}
use go_algorithm_practice.Health.Progress.{Reach-ends}
use go_algorithm_practice.Health.Outcomes.{
  all_ended, any, is_checking, Reach-at_most_once, Reach-all_checked,
}
use go_algorithm_practice.Health.Summaries.{
  is_error, is_healthy, healthy_latency_of, compute_summary_lem,
}

-- The URL 4 by one worker.
abbrev answer : Result ℕ ℕ
answer = check_url 4 (answered (pos 200) 30)

abbrev ended : Pool ℕ ℕ
ended = pool [] true [] (returned ∷ []) (answer ∷ []) false

ended_reached : Reach 1 (4 ∷ []) ended
unfolding start results_size
ended_reached =
    let s0 : Pool ℕ ℕ = pool (4 ∷ []) false [] (idle ∷ []) [] false in
    let s1 : Pool ℕ ℕ = pool [] false (4 ∷ []) (idle ∷ []) [] false in
    let s2 : Pool ℕ ℕ = pool [] true (4 ∷ []) (idle ∷ []) [] false in
    let s3 : Pool ℕ ℕ = pool [] true [] (holding 4 ∷ []) [] false in
    let s4 : Pool ℕ ℕ = pool [] true [] (checking 4 ∷ []) [] false in
    let s5 : Pool ℕ ℕ = pool [] true [] (idle ∷ []) (answer ∷ []) false in
    after_step s5 ended
      (after_step s4 s5
        (after_step s3 s4
          (after_step s2 s3
            (after_step s1 s2
              (after_step s0 s1 at_start (send_job 4 [] [] (idle ∷ []) [] false (omega arith)))
              (close_jobs (4 ∷ []) (idle ∷ []) [] false))
            (take_job 4 [] [] true [] [] [] false))
          (start_check 4 [] [] true [] [] []))
        (send_result 4 (answered (pos 200) 30) [] [] true [] [] [] false (omega arith)))
      (end_worker [] [] [] (answer ∷ []) false)

Reach-at_most_once_example :
    ((p : ℕ → Bool) → count p (urls_of (answer ∷ [])) ≤ count p (4 ∷ []))
    × (any is_checking ended.workers ≡ true → length (urls_of (answer ∷ [])) < 1)
Reach-at_most_once_example = Reach-at_most_once 1 (4 ∷ []) ended ended_reached

Reach-all_checked_example :
    count (λ u. u == 4) (urls_of (answer ∷ [])) ≡ count (λ u. u == 4) (4 ∷ [])
Reach-all_checked_example =
    Reach-all_checked 1 (4 ∷ []) ended ended_reached (omega arith) refl refl (λ u. u == 4)

abbrev two_results : List (Result ℕ ℕ)
two_results = answer ∷ check_url 5 (answered (pos 503) 10) ∷ []

compute_summary_lem_example :
    let s = compute_summary ◌/◌ 0 two_results in
    (s.total ≡ 2)
    × (s.healthy ≡ count is_healthy two_results)
    × (s.errors ≡ count is_error two_results)
    × (s.healthy + s.errors ≤ s.total)
    × (s.avg_latency ≡ (
        if ltb 0 (count is_healthy two_results)
        then (healthy_latency_of two_results % 2 ^ 64) / count is_healthy two_results
        else 0))
compute_summary_lem_example = compute_summary_lem ◌/◌ 0 two_results

Reach-ends_example :
    (t : Pool ℕ ℕ) × Reach 1 (4 ∷ []) t
    × (all_ended t.workers ≡ true)
    × (t.cancelled ≡ false)
    × (false ≡ false → (p : ℕ → Bool) → count p (urls_of t.results) ≡ count p (4 ∷ []))
unfolding start
Reach-ends_example = Reach-ends 1 (4 ∷ []) (start 1 (4 ∷ [])) at_start (omega arith)
