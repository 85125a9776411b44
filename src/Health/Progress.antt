-- ===== src/Health/Progress.antt =====
-- RunChecker of practice/parallel_url_health.go comes to an end.
use go_algorithm_practice.Prelude.{
  ℕ, zero, suc, ◌+◌, ◌*◌, ◌<◌, ◌≡◌, refl, sym, ap, ◌∙◌, arith, subst, Bool, true, false, inl, inr,
  List, [], ◌∷◌, ◌++◌, if◌then◌else◌, length, Bool-cases,
}
use go_algorithm_practice.Prelude.Int.{pos}
use go_algorithm_practice.Health.{Result, answered, check_url}
use go_algorithm_practice.Health.Pool.{
  Worker, idle, holding, checking, returned, bailed, Pool, pool, results_size, Step, send_job,
  close_jobs, take_job, start_check, bail_out, send_result, end_worker, Reach, after_step,
}
use go_algorithm_practice.Health.Counts.{count, urls_of}
use go_algorithm_practice.Health.Outcomes.{
  has_ended, all_ended, is_checking, any, any-append, Reach-at_most_once, Reach-all_checked,
}

module _ {ℓ} {Url : Type ℓ} where
  -- How much work a worker has left, and all of them.
  abbrev worker_left : Worker Url → ℕ
  worker_left idle = 1
  worker_left (holding u) = 3
  worker_left (checking u) = 2
  worker_left returned = 0
  worker_left bailed = 0

  abbrev workers_left : List (Worker Url) → ℕ
  workers_left [] = 0
  workers_left (w ∷ ws) = worker_left w + workers_left ws

  workers_left-append :
      (ws vs : List (Worker Url)) → workers_left (ws ++ vs) ≡ workers_left ws + workers_left vs
  workers_left-append [] vs = omega arith
  workers_left-append (w ∷ ws) vs = omega (arith, workers_left-append ws vs)

  -- A worker that has not ended.
  record Busy (ws : List (Worker Url)) : Type ℓ where
    pre : List (Worker Url)
    worker : Worker Url
    post : List (Worker Url)
    split : ws ≡ pre ++ worker ∷ post
    going : has_ended worker ≡ false

  busy : (ws : List (Worker Url)) → all_ended ws ≡ false → Busy ws
  busy [] e = absurd (cc)
  busy (w ∷ ws) e = elim (Bool-cases (has_ended w)) [
    | inr going ↦ record { pre = []; worker = w; post = ws; split = refl; going = going }
    | inl ended ↦
        let b = busy ws (ground arith) in
        record {
          pre = w ∷ b.pre;
          worker = b.worker;
          post = b.post;
          split = ap (◌∷◌ w) b.split;
          going = b.going;
        }
  ]

  any_checking :
      (u : Url) (pre post : List (Worker Url)) → any is_checking (pre ++ checking u ∷ post) ≡ true
  any_checking u pre post = any-append is_checking pre (checking u ∷ post) ∙ ground arith
  -- A step that leaves less work, and the context as it is.

module _ {ℓ} {Url Error : Type ℓ} (pool_size : ℕ) where
  abbrev work : Pool Url Error → ℕ
  work s =
      5 * length s.feed + 4 * length s.jobs + workers_left s.workers + (if s.closed then 0 else 1)

  length-urls_of : (rs : List (Result Url Error)) → length (urls_of rs) ≡ length rs
  length-urls_of [] = refl
  length-urls_of (r ∷ rs) = ap suc (length-urls_of rs)

  -- While a worker is in checkUrl, there is room for its result.
  abbrev HasRoom : ℕ → Pool Url Error → Type 0
  HasRoom capacity s = any is_checking s.workers ≡ true → length s.results < capacity

  Reach-HasRoom :
      (urls : List Url) (s : Pool Url Error)
      → Reach pool_size urls s
      → HasRoom (results_size urls) s
  unfolding results_size
  Reach-HasRoom urls s reach e =
      let room = (Reach-at_most_once pool_size urls s reach).1 e in
      let size = length-urls_of s.results in omega arith

  abbrev Progress : ℕ → Pool Url Error → Type ℓ
  Progress capacity s =
      (t : Pool Url Error) × Step pool_size capacity s t
      × (work t < work s)
      × (t.cancelled ≡ s.cancelled)

  advance_worker :
      (capacity : ℕ) (feed jobs : List Url) (closed : Bool) (pre : List (Worker Url))
      (w : Worker Url) (post : List (Worker Url)) (rs : List (Result Url Error)) (c : Bool)
      → 0 < pool_size
      → has_ended w ≡ false
      → HasRoom capacity (pool feed closed jobs (pre ++ w ∷ post) rs c)
      → Progress capacity (pool feed closed jobs (pre ++ w ∷ post) rs c)
  advance_worker capacity feed (u ∷ jobs) closed pre idle post rs c some_worker e room =
      let n = workers_left-append pre (idle ∷ post) in
      let m = workers_left-append pre (holding u ∷ post) in
      (
        pool feed closed jobs (pre ++ holding u ∷ post) rs c,
        take_job u feed jobs closed pre post rs c,
        omega arith,
        refl,
      )
  advance_worker capacity feed [] true pre idle post rs c some_worker e room =
      let n = workers_left-append pre (idle ∷ post) in
      let m = workers_left-append pre (returned ∷ post) in
      (
        pool feed true [] (pre ++ returned ∷ post) rs c,
        end_worker feed pre post rs c,
        omega arith,
        refl,
      )
  advance_worker capacity [] [] false pre idle post rs c some_worker e room = (
    pool [] true [] (pre ++ idle ∷ post) rs c,
    close_jobs [] (pre ++ idle ∷ post) rs c,
    omega arith,
    refl,
  )
  advance_worker capacity (u ∷ feed) [] false pre idle post rs c some_worker e room = (
    pool feed false (u ∷ []) (pre ++ idle ∷ post) rs c,
    send_job u feed [] (pre ++ idle ∷ post) rs c some_worker,
    omega arith,
    refl,
  )
  advance_worker capacity feed jobs closed pre (holding u) post rs false some_worker e room =
      let n = workers_left-append pre (holding u ∷ post) in
      let m = workers_left-append pre (checking u ∷ post) in
      (
        pool feed closed jobs (pre ++ checking u ∷ post) rs false,
        start_check u feed jobs closed pre post rs,
        omega arith,
        refl,
      )
  advance_worker capacity feed jobs closed pre (holding u) post rs true some_worker e room =
      let n = workers_left-append pre (holding u ∷ post) in
      let m = workers_left-append pre (bailed ∷ post) in
      (
        pool feed closed jobs (pre ++ bailed ∷ post) rs true,
        bail_out u feed jobs closed pre post rs,
        omega arith,
        refl,
      )
  advance_worker capacity feed jobs closed pre (checking u) post rs c some_worker e room =
      let n = workers_left-append pre (checking u ∷ post) in
      let m = workers_left-append pre (idle ∷ post) in
      (
        pool feed closed jobs (pre ++ idle ∷ post) (rs ++ check_url u (answered (pos 200) 0) ∷ [])
            c,
        send_result u (answered (pos 200) 0) feed jobs closed pre post rs c
            (room (any_checking u pre post)),
        omega arith,
        refl,
      )
  advance_worker capacity feed jobs closed pre returned post rs c some_worker e room = absurd (cc)
  advance_worker capacity feed jobs closed pre bailed post rs c some_worker e room = absurd (cc)

  progress :
      (capacity : ℕ) (s : Pool Url Error)
      → 0 < pool_size
      → all_ended s.workers ≡ false
      → HasRoom capacity s
      → Progress capacity s
  progress capacity s some_worker going room =
      let b = busy s.workers going in
      subst (λ ws. Progress capacity (pool s.feed s.closed s.jobs ws s.results s.cancelled))
        (sym b.split)
        (advance_worker capacity s.feed s.jobs s.closed b.pre b.worker b.post s.results s.cancelled
          some_worker b.going
          (subst (λ ws. HasRoom capacity (pool s.feed s.closed s.jobs ws s.results s.cancelled))
            b.split room))

  finish :
      (fuel : ℕ) (urls : List Url) (s : Pool Url Error)
      → work s < fuel
      → 0 < pool_size
      → Reach pool_size urls s
      → (t : Pool Url Error) × Reach pool_size urls t
        × (all_ended t.workers ≡ true)
        × (t.cancelled ≡ s.cancelled)
  finish zero urls s enough some_worker reach = absurd (omega arith)
  finish (suc fuel) urls s enough some_worker reach = elim (Bool-cases (all_ended s.workers)) [
    | inl ended ↦ (s, reach, ended, refl)
    | inr going ↦
        let (t, step, less, same) =
          progress (results_size urls) s some_worker going (Reach-HasRoom urls s reach) in
        let (end, reach', ended, same') =
          finish fuel urls t (omega arith) some_worker (after_step s t reach step) in
        (end, reach', ended, same' ∙ same)
  ]

  -- With one worker at least, and the channels of the capacities that the code makes, on which a send
  -- waits for room, RunChecker cannot get stuck: from every state that its steps lead to, further
  -- steps lead to one in which all workers have ended and the context is as it was, done or not. If
  -- it is not done, every URL then has as many results as it was given.
  pub Reach-ends :
      (urls : List Url) (s : Pool Url Error)
      → Reach pool_size urls s
      → 0 < pool_size
      → (t : Pool Url Error) × Reach pool_size urls t
        × (all_ended t.workers ≡ true)
        × (t.cancelled ≡ s.cancelled)
        × (s.cancelled ≡ false → (p : Url → Bool) → count p (urls_of t.results) ≡ count p urls)
  Reach-ends urls s reach some_worker =
      let (t, reach', ended, same) = finish (suc (work s)) urls s (omega arith) some_worker reach in
      (
        t,
        reach',
        ended,
        same,
        λ going p. Reach-all_checked pool_size urls t reach' some_worker ended (same ∙ going) p,
      )
