-- ===== src/Health.antt =====
-- practice/parallel_url_health.go: the worker pool of RunChecker as a machine whose steps are those of
-- its goroutines, and the summary. URLs are of any type; what HTTP answers is a parameter of a step.
pub mod Pool
pub mod Counts
pub mod Outcomes
pub mod Progress
pub mod Summaries
mod Tests
use go_algorithm_practice.Prelude.{
  ℕ, zero, suc, ◌+◌, ◌%◌, ◌^◌, Bool, true, false, not, ◌&&◌, ◌||◌, Option, none, some, List, [],
  ◌∷◌, if◌then◌else◌, leb, ltb,
}
use go_algorithm_practice.Prelude.Int.{ℤ, pos, leb_ℤ, ltb_ℤ}

-- LatencyMs is an int64 as its 64-bit pattern. An error is of any type.
pub record Result {ℓ} (Url Error : Type ℓ) : Type ℓ where
  pub url : Url
  pub status_code : ℤ
  pub latency_ms : ℕ
  pub err : Option Error

-- How a request ends: it cannot be made, it fails, or it is answered.
pub data Reply {ℓ} (Error : Type ℓ) : Type ℓ where
  not_made : Error → Reply Error
  not_done : Error → ℕ → Reply Error
  answered : ℤ → ℕ → Reply Error

pub record Summary {ℓ} (Float : Type ℓ) : Type ℓ where
  pub total : ℕ
  pub healthy : ℕ
  pub errors : ℕ
  pub avg_latency : Float

-- The counters of ComputeSummary's loop.
pub record Tally : Type 0 where
  pub total : ℕ
  pub healthy : ℕ
  pub errors : ℕ
  pub healthy_latency : ℕ

abbrev pub is_some {ℓ} : {A : Type ℓ} → Option A → Bool
is_some none = false
is_some (some a) = true

module _ {ℓ} {Url Error : Type ℓ} where
  unfoldable pub check_url : Url → Reply Error → Result Url Error
  check_url url (not_made e) = record {
    url = url;
    status_code = pos 0;
    latency_ms = 0;
    err = some e;
  }
  check_url url (not_done e ms) = record {
    url = url;
    status_code = pos 0;
    latency_ms = ms;
    err = some e;
  }
  check_url url (answered code ms) = record {
    url = url;
    status_code = code;
    latency_ms = ms;
    err = none;
  }

  unfoldable pub tally_result : Tally → Result Url Error → Tally
  tally_result sum r =
      if is_some r.err
      then record {
        total = sum.total + 1;
        healthy = sum.healthy;
        errors = sum.errors + 1;
        healthy_latency = sum.healthy_latency;
      }
      else (if leb_ℤ (pos 200) r.status_code && ltb_ℤ r.status_code (pos 300)
          then record {
            total = sum.total + 1;
            healthy = sum.healthy + 1;
            errors = sum.errors;
            healthy_latency = (sum.healthy_latency + r.latency_ms) % 2 ^ 64;
          }
          else record {
            total = sum.total + 1;
            healthy = sum.healthy;
            errors = sum.errors;
            healthy_latency = sum.healthy_latency;
          })

  unfoldable pub tally_loop : Tally → List (Result Url Error) → Tally
  unfolding tally_result
  tally_loop sum [] = sum
  tally_loop sum (r ∷ results) = tally_loop (tally_result sum r) results

  -- The division of floats is a parameter, and the float 0.
  unfoldable pub compute_summary :
      {Float : Type ℓ} → (ℕ → ℕ → Float) → Float → List (Result Url Error) → Summary Float
  unfolding tally_loop
  compute_summary divide zero_float results =
      let sum =
        tally_loop (record { total = 0; healthy = 0; errors = 0; healthy_latency = 0 }) results in
      record {
        total = sum.total;
        healthy = sum.healthy;
        errors = sum.errors;
        avg_latency =
            if ltb 0 sum.healthy then divide sum.healthy_latency sum.healthy else zero_float;
      }
