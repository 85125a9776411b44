-- ===== src/Health/Summaries.antt =====
-- ComputeSummary of practice/parallel_url_health.go.
use go_algorithm_practice.Prelude.{
  ℕ, ◌+◌, ◌%◌, ◌^◌, ◌≤◌, ◌<◌, ◌≡◌, refl, ap, arith, Bool, not, ◌&&◌, List, [], ◌∷◌, if◌then◌else◌,
  length, ltb,
}
use go_algorithm_practice.Prelude.Int.{pos, leb_ℤ, ltb_ℤ}
use go_algorithm_practice.Health.{Result, Tally, is_some, tally_result, tally_loop, compute_summary}
use go_algorithm_practice.Health.Counts.{count}

module _ {ℓ} {Url Error : Type ℓ} where
  abbrev pub is_error : Result Url Error → Bool
  is_error r = is_some r.err

  -- Answered with a code from 200 to 299.
  abbrev pub is_healthy : Result Url Error → Bool
  is_healthy r =
      not (is_some r.err) && (leb_ℤ (pos 200) r.status_code && ltb_ℤ r.status_code (pos 300))

  abbrev pub healthy_latency_of : List (Result Url Error) → ℕ
  healthy_latency_of [] = 0
  healthy_latency_of (r ∷ rs) = (if is_healthy r then r.latency_ms else 0) + healthy_latency_of rs

  record Tallied (sum : Tally) (rs : List (Result Url Error)) (t : Tally) : Type ℓ where
    total : t.total ≡ sum.total + length rs
    healthy : t.healthy ≡ sum.healthy + count is_healthy rs
    errors : t.errors ≡ sum.errors + count is_error rs
    latency : t.healthy_latency % 2 ^ 64 ≡ (sum.healthy_latency + healthy_latency_of rs) % 2 ^ 64
    in_range : sum.healthy_latency < 2 ^ 64 → t.healthy_latency < 2 ^ 64

  tally_result-Tallied :
      (sum : Tally) (r : Result Url Error) → Tallied sum (r ∷ []) (tally_result sum r)
  unfolding tally_result
  tally_result-Tallied sum r = record {
    total = ground arith;
    healthy = ground arith;
    errors = ground arith;
    latency = ground arith;
    in_range = ground arith;
  }

  tally_loop-Tallied :
      (rs : List (Result Url Error)) (sum : Tally) → Tallied sum rs (tally_loop sum rs)
  unfolding tally_loop
  tally_loop-Tallied [] sum = record {
    total = omega arith;
    healthy = omega arith;
    errors = omega arith;
    latency = ap (λ n. n % 2 ^ 64) (omega arith);
    in_range = λ lt. lt;
  }
  tally_loop-Tallied (r ∷ rs) sum =
      let first = tally_result-Tallied sum r in
      let rest = tally_loop-Tallied rs (tally_result sum r) in
      let a = first.total in
      let b = first.healthy in
      let c = first.errors in
      let d = first.latency in
      let a' = rest.total in
      let b' = rest.healthy in
      let c' = rest.errors in
      let d' = rest.latency in
      record {
        total = omega arith;
        healthy = omega arith;
        errors = omega arith;
        latency = omega arith;
        in_range = λ lt. rest.in_range (first.in_range lt);
      }

  never_both : (rs : List (Result Url Error)) → count is_healthy rs + count is_error rs ≤ length rs
  never_both [] = omega arith
  never_both (r ∷ rs) = let rest = never_both rs in ground arith

  -- ComputeSummary counts all results, those answered with a code from 200 to 299, and those that are
  -- errors, of which no result is both; the average is the sum of the healthy ones' latencies, modulo
  -- 2^64, divided by their number, or 0 if there is none.
  pub compute_summary_lem :
      {Float : Type ℓ} (divide : ℕ → ℕ → Float) (zero_float : Float) (rs : List (Result Url Error))
      → let s = compute_summary divide zero_float rs in
        (s.total ≡ length rs)
        × (s.healthy ≡ count is_healthy rs)
        × (s.errors ≡ count is_error rs)
        × (s.healthy + s.errors ≤ s.total)
        × (s.avg_latency ≡ (
            if ltb 0 (count is_healthy rs)
            then divide (healthy_latency_of rs % 2 ^ 64) (count is_healthy rs)
            else zero_float))
  unfolding compute_summary
  compute_summary_lem divide zero_float rs =
      let none_yet : Tally = record { total = 0; healthy = 0; errors = 0; healthy_latency = 0 } in
      let sum = tally_loop none_yet rs in
      let t = tally_loop-Tallied rs none_yet in
      let total' = t.total in
      let healthy' = t.healthy in
      let errors' = t.errors in
      let latency' = t.latency in
      let in_range = t.in_range (omega arith) in
      let both = never_both rs in
      let healthy : sum.healthy ≡ count is_healthy rs = omega arith in
      let latency : sum.healthy_latency ≡ healthy_latency_of rs % 2 ^ 64 = omega arith in
      (omega arith, healthy, omega arith, omega arith, rw (latency, healthy) refl)
