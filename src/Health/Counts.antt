-- ===== src/Health/Counts.antt =====
-- How many of the URLs of practice/parallel_url_health.go that pass a test are where.
use go_algorithm_practice.Prelude.{
  ℕ, zero, suc, ◌+◌, ◌≤◌, ◌≡◌, refl, ap, ◌∙◌, arith, Bool, false, List, [], ◌∷◌, ◌++◌,
  if◌then◌else◌, length, replicate,
}
use go_algorithm_practice.Health.{Result, Reply, not_made, not_done, answered, check_url}
use go_algorithm_practice.Health.Pool.{
  Worker, idle, holding, checking, returned, bailed, Pool, Step, send_job, close_jobs, stop_feeding,
  take_job, start_check, bail_out, send_result, end_worker, cancel,
}

module _ {ℓ} {A : Type ℓ} (p : A → Bool) where
  abbrev pub count : List A → ℕ
  count [] = 0
  count (x ∷ xs) = (if p x then 1 else 0) + count xs

  pub count-append : (xs ys : List A) → count (xs ++ ys) ≡ count xs + count ys
  count-append [] ys = omega arith
  count-append (x ∷ xs) ys = omega (arith, count-append xs ys)

  pub count_le_length : (xs : List A) → count xs ≤ length xs
  count_le_length [] = omega arith
  count_le_length (x ∷ xs) = ground (arith, count_le_length xs)

module _ {ℓ} {Url : Type ℓ} (p : Url → Bool) where
  abbrev pub one : Url → ℕ
  one u = if p u then 1 else 0

  abbrev pub held : Worker Url → ℕ
  held idle = 0
  held (holding u) = one u
  held (checking u) = one u
  held returned = 0
  held bailed = 0

  abbrev pub held_by : List (Worker Url) → ℕ
  held_by [] = 0
  held_by (w ∷ ws) = held w + held_by ws

  pub held_by-append : (ws vs : List (Worker Url)) → held_by (ws ++ vs) ≡ held_by ws + held_by vs
  held_by-append [] vs = omega arith
  held_by-append (w ∷ ws) vs = omega (arith, held_by-append ws vs)

  pub held_by-replicate : (n : ℕ) → held_by (replicate n idle) ≡ 0
  held_by-replicate zero = refl
  held_by-replicate (suc n) = omega (arith, held_by-replicate n)

module _ {ℓ} {Url Error : Type ℓ} where
  abbrev pub urls_of : List (Result Url Error) → List Url
  urls_of [] = []
  urls_of (r ∷ rs) = r.url ∷ urls_of rs

  pub urls_of-append :
      (rs : List (Result Url Error)) (r : Result Url Error)
      → urls_of (rs ++ r ∷ []) ≡ urls_of rs ++ r.url ∷ []
  urls_of-append [] r = refl
  urls_of-append (x ∷ rs) r = ap (◌∷◌ x.url) (urls_of-append rs r)

  pub url-check_url : (u : Url) (reply : Reply Error) → (check_url u reply).url ≡ u
  unfolding check_url
  url-check_url u (not_made e) = refl
  url-check_url u (not_done e ms) = refl
  url-check_url u (answered code ms) = refl

  -- The URLs that pass the test and are not lost.
  abbrev pub everywhere : (Url → Bool) → Pool Url Error → ℕ
  everywhere p s =
      count p s.feed + count p s.jobs + held_by p s.workers + count p (urls_of s.results)

  -- No step makes a URL, and only those after the context is done lose one.
  pub everywhere-Step :
      (p : Url → Bool) (pool_size capacity : ℕ) (s t : Pool Url Error)
      → Step pool_size capacity s t
      → (everywhere p t ≤ everywhere p s) × (t.cancelled ≡ false → everywhere p t ≡ everywhere p s)
  everywhere-Step p pool_size capacity s t (send_job u feed jobs ws rs c room) =
      let n = count-append p jobs (u ∷ []) in (omega arith, λ e. omega arith)
  everywhere-Step p pool_size capacity s t (close_jobs jobs ws rs c) = (omega arith, λ e. refl)
  everywhere-Step p pool_size capacity s t (stop_feeding feed jobs ws rs) = (omega arith, λ e. refl)
  everywhere-Step p pool_size capacity s t (take_job u feed jobs closed pre post rs c) =
      let n = held_by-append p pre (idle ∷ post) in
      let m = held_by-append p pre (holding u ∷ post) in (omega arith, λ e. omega arith)
  everywhere-Step p pool_size capacity s t (start_check u feed jobs closed pre post rs) =
      let n = held_by-append p pre (holding u ∷ post) in
      let m = held_by-append p pre (checking u ∷ post) in (omega arith, λ e. omega arith)
  everywhere-Step p pool_size capacity s t (bail_out u feed jobs closed pre post rs) =
      let n = held_by-append p pre (holding u ∷ post) in
      let m = held_by-append p pre (bailed ∷ post) in (omega arith, λ e. absurd (cc))
  everywhere-Step p pool_size capacity s t
        (send_result u reply feed jobs closed pre post rs c room) =
      let n = held_by-append p pre (checking u ∷ post) in
      let m = held_by-append p pre (idle ∷ post) in
      let r =
        ap (count p) (urls_of-append rs (check_url u reply))
        ∙ count-append p (urls_of rs) ((check_url u reply).url ∷ []) in
      let same = ap (one p) (url-check_url u reply) in (omega arith, λ e. omega arith)
  everywhere-Step p pool_size capacity s t (end_worker feed pre post rs c) =
      let n = held_by-append p pre (idle ∷ post) in
      let m = held_by-append p pre (returned ∷ post) in (omega arith, λ e. omega arith)
  everywhere-Step p pool_size capacity s t (cancel feed jobs closed ws rs c) =
      (omega arith, λ e. refl)
