-- ===== src/Health/Outcomes.antt =====
-- What RunChecker of practice/parallel_url_health.go has collected, in any order of the steps.
use go_algorithm_practice.Prelude.{
  ℕ, zero, suc, ◌≤◌, ◌<◌, ◌≡◌, refl, sym, ap, ◌∙◌, arith, Bool, true, false, ◌&&◌, ◌||◌, inl, inr,
  List, [], ◌∷◌, ◌++◌, length, length-append, length-replicate, replicate, Bool-cases,
}
use go_algorithm_practice.Health.Pool.{
  Worker, idle, holding, checking, returned, bailed, Pool, start, results_size, Step, send_job,
  close_jobs, stop_feeding, take_job, start_check, bail_out, send_result, end_worker, cancel, Reach,
  at_start, after_step,
}
use go_algorithm_practice.Health.Counts.{
  count, held_by, held_by-replicate, urls_of, everywhere, everywhere-Step,
}

module _ {ℓ} {Url : Type ℓ} where
  abbrev is_returned : Worker Url → Bool
  is_returned returned = true
  is_returned _ = false

  abbrev is_bailed : Worker Url → Bool
  is_bailed bailed = true
  is_bailed _ = false

  abbrev pub is_checking : Worker Url → Bool
  is_checking (checking u) = true
  is_checking _ = false

  abbrev pub any : (Worker Url → Bool) → List (Worker Url) → Bool
  any q [] = false
  any q (w ∷ ws) = q w || any q ws

  -- The goroutine of the worker has ended.
  abbrev pub has_ended : Worker Url → Bool
  has_ended w = is_returned w || is_bailed w

  abbrev pub all_ended : List (Worker Url) → Bool
  all_ended [] = true
  all_ended (w ∷ ws) = has_ended w && all_ended ws

  pub any-append :
      (q : Worker Url → Bool) (ws vs : List (Worker Url))
      → any q (ws ++ vs) ≡ (any q ws || any q vs)
  any-append q [] vs = refl
  any-append q (w ∷ ws) vs = ground (arith, any-append q ws vs)

  any-replicate :
      (q : Worker Url → Bool) (n : ℕ) → q idle ≡ false → any q (replicate n idle) ≡ false
  any-replicate q zero e = refl
  any-replicate q (suc n) e = ground (arith, any-replicate q n e)

  -- One worker in the place of another.
  swapped :
      (q : Worker Url → Bool) (w v : Worker Url) (pre post : List (Worker Url))
      → q w ≡ q v
      → any q (pre ++ w ∷ post) ≡ any q (pre ++ v ∷ post)
  swapped q w v pre post e =
      any-append q pre (w ∷ post)
      ∙ ap (λ b. any q pre || (b || any q post)) e
      ∙ sym (any-append q pre (v ∷ post))

  length-swapped :
      (w v : Worker Url) (pre post : List (Worker Url))
      → length (pre ++ w ∷ post) ≡ length (pre ++ v ∷ post)
  length-swapped w v pre post = length-append pre (w ∷ post) ∙ sym (length-append pre (v ∷ post))

  -- Of workers that have all ended, none has a URL, and one returned or bailed.
  ended_hold_none :
      (p : Url → Bool) (ws : List (Worker Url)) → all_ended ws ≡ true → held_by p ws ≡ 0
  ended_hold_none p [] e = refl
  ended_hold_none p (returned ∷ ws) e = omega (arith, ended_hold_none p ws e)
  ended_hold_none p (bailed ∷ ws) e = omega (arith, ended_hold_none p ws e)
  ended_hold_none p (idle ∷ ws) e = absurd (cc)
  ended_hold_none p (holding u ∷ ws) e = absurd (cc)
  ended_hold_none p (checking u ∷ ws) e = absurd (cc)

  one_returned :
      (ws : List (Worker Url))
      → 0 < length ws
      → all_ended ws ≡ true
      → any is_bailed ws ≡ false
      → any is_returned ws ≡ true
  one_returned [] some_worker e none_bailed = absurd (omega arith)
  one_returned (w ∷ ws) some_worker e none_bailed = ground arith

  -- A worker in checkUrl has a URL.
  checking_holds : (ws : List (Worker Url)) → any is_checking ws ≡ true → 0 < held_by (λ u. true) ws
  checking_holds [] e = absurd (cc)
  checking_holds (checking u ∷ ws) e = omega arith
  checking_holds (idle ∷ ws) e = omega (arith, checking_holds ws e)
  checking_holds (holding u ∷ ws) e = omega arith
  checking_holds (returned ∷ ws) e = omega (arith, checking_holds ws e)
  checking_holds (bailed ∷ ws) e = omega (arith, checking_holds ws e)

  count_all : (us : List Url) → count (λ u. true) us ≡ length us
  count_all [] = refl
  count_all (u ∷ us) = omega (arith, count_all us)

module _ {ℓ} {Url Error : Type ℓ} (pool_size : ℕ) where
  -- How the phases of the goroutines hang together.
  record Orderly (s : Pool Url Error) : Type ℓ where
    fed : s.closed ≡ true → s.cancelled ≡ false → s.feed ≡ []
    drained : any is_returned s.workers ≡ true → (s.closed ≡ true) × (s.jobs ≡ [])
    bailing : any is_bailed s.workers ≡ true → s.cancelled ≡ true
    size : length s.workers ≡ pool_size

  Orderly-Step :
      (capacity : ℕ) (s t : Pool Url Error) → Step pool_size capacity s t → Orderly s → Orderly t
  Orderly-Step capacity s t (send_job u feed jobs ws rs c room) o = record {
    fed = λ e e'. absurd (cc);
    drained = λ e. absurd (let (a, b) = o.drained e in cc);
    bailing = o.bailing;
    size = o.size;
  }
  Orderly-Step capacity s t (close_jobs jobs ws rs c) o = record {
    fed = λ e e'. refl;
    drained = λ e. (refl, (o.drained e).1);
    bailing = o.bailing;
    size = o.size;
  }
  Orderly-Step capacity s t (stop_feeding feed jobs ws rs) o = record {
    fed = λ e e'. absurd (cc);
    drained = λ e. (refl, (o.drained e).1);
    bailing = o.bailing;
    size = o.size;
  }
  Orderly-Step capacity s t (take_job u feed jobs closed pre post rs c) o = record {
    fed = o.fed;
    drained = λ e.
        absurd
          (let y = (o.drained (swapped is_returned idle (holding u) pre post refl ∙ e)).1 in cc);
    bailing = λ e. o.bailing (swapped is_bailed idle (holding u) pre post refl ∙ e);
    size = sym (length-swapped idle (holding u) pre post) ∙ o.size;
  }
  Orderly-Step capacity s t (start_check u feed jobs closed pre post rs) o = record {
    fed = o.fed;
    drained = λ e. o.drained (swapped is_returned (holding u) (checking u) pre post refl ∙ e);
    bailing = λ e. o.bailing (swapped is_bailed (holding u) (checking u) pre post refl ∙ e);
    size = sym (length-swapped (holding u) (checking u) pre post) ∙ o.size;
  }
  Orderly-Step capacity s t (bail_out u feed jobs closed pre post rs) o = record {
    fed = o.fed;
    drained = λ e. o.drained (swapped is_returned (holding u) bailed pre post refl ∙ e);
    bailing = λ e. refl;
    size = sym (length-swapped (holding u) bailed pre post) ∙ o.size;
  }
  Orderly-Step capacity s t (send_result u reply feed jobs closed pre post rs c room) o = record {
    fed = o.fed;
    drained = λ e. o.drained (swapped is_returned (checking u) idle pre post refl ∙ e);
    bailing = λ e. o.bailing (swapped is_bailed (checking u) idle pre post refl ∙ e);
    size = sym (length-swapped (checking u) idle pre post) ∙ o.size;
  }
  Orderly-Step capacity s t (end_worker feed pre post rs c) o = record {
    fed = o.fed;
    drained = λ e. (refl, refl);
    bailing = λ e. o.bailing (swapped is_bailed idle returned pre post refl ∙ e);
    size = sym (length-swapped idle returned pre post) ∙ o.size;
  }
  Orderly-Step capacity s t (cancel feed jobs closed ws rs c) o = record {
    fed = λ e e'. absurd (cc);
    drained = o.drained;
    bailing = λ e. refl;
    size = o.size;
  }

  cancelled-Step :
      (capacity : ℕ) (s t : Pool Url Error)
      → Step pool_size capacity s t
      → t.cancelled ≡ false
      → s.cancelled ≡ false
  cancelled-Step capacity s t (send_job u feed jobs ws rs c room) e = e
  cancelled-Step capacity s t (close_jobs jobs ws rs c) e = e
  cancelled-Step capacity s t (stop_feeding feed jobs ws rs) e = e
  cancelled-Step capacity s t (take_job u feed jobs closed pre post rs c) e = e
  cancelled-Step capacity s t (start_check u feed jobs closed pre post rs) e = e
  cancelled-Step capacity s t (bail_out u feed jobs closed pre post rs) e = e
  cancelled-Step capacity s t (send_result u reply feed jobs closed pre post rs c room) e = e
  cancelled-Step capacity s t (end_worker feed pre post rs c) e = e
  cancelled-Step capacity s t (cancel feed jobs closed ws rs c) e = absurd (cc)

  Reach-Orderly : (urls : List Url) (s : Pool Url Error) → Reach pool_size urls s → Orderly s
  unfolding start
  Reach-Orderly urls s at_start = record {
    fed = λ e e'. absurd (cc);
    drained = λ e. absurd (
        let n : any (is_returned {Url = Url}) (replicate pool_size idle) ≡ false =
          any-replicate is_returned pool_size refl in
        cc);
    bailing = λ e. absurd (
        let n : any (is_bailed {Url = Url}) (replicate pool_size idle) ≡ false =
          any-replicate is_bailed pool_size refl in
        cc);
    size = length-replicate pool_size idle;
  }
  Reach-Orderly urls t (after_step r s reach step) =
      Orderly-Step (results_size urls) r s step (Reach-Orderly urls r reach)

  Reach-everywhere :
      (p : Url → Bool) (urls : List Url) (s : Pool Url Error)
      → Reach pool_size urls s
      → (everywhere p s ≤ count p urls) × (s.cancelled ≡ false → everywhere p s ≡ count p urls)
  unfolding start
  Reach-everywhere p urls s at_start =
      let n = held_by-replicate p pool_size in (omega arith, λ e. omega arith)
  Reach-everywhere p urls t (after_step r s reach step) =
      let (le, same) = Reach-everywhere p urls r reach in
      let (le', same') = everywhere-Step p pool_size (results_size urls) r s step in
      (omega arith, λ e. same' e ∙ same (cancelled-Step (results_size urls) r s step e))

  -- In every state of RunChecker, after any steps of its goroutines: of the URLs that pass a test there
  -- are no more results than such URLs, so none is checked more often than it is given; and while a
  -- worker is in checkUrl, the channel of the results has room.
  pub Reach-at_most_once :
      (urls : List Url) (s : Pool Url Error)
      → Reach pool_size urls s
      → ((p : Url → Bool) → count p (urls_of s.results) ≤ count p urls)
        × (any is_checking s.workers ≡ true → length (urls_of s.results) < length urls)
  Reach-at_most_once urls s reach = (
    λ p. let le = (Reach-everywhere p urls s reach).0 in omega arith,
    λ e.
        let le = (Reach-everywhere (λ u. true) urls s reach).0 in
        let held = checking_holds s.workers e in
        let all = count_all urls in let some_results = count_all (urls_of s.results) in omega arith,
  )

  -- When all workers have ended, of which there is one at least, and the context was never done, every
  -- URL was checked: of those that pass a test there are as many results as such URLs.
  pub Reach-all_checked :
      (urls : List Url) (s : Pool Url Error)
      → Reach pool_size urls s
      → 0 < pool_size
      → all_ended s.workers ≡ true
      → s.cancelled ≡ false
      → (p : Url → Bool) → count p (urls_of s.results) ≡ count p urls
  Reach-all_checked urls s reach some_worker ended going p =
      let o = Reach-Orderly urls s reach in
      let size = o.size in
      let none_bailed : any is_bailed s.workers ≡ false =
        elim (Bool-cases (any is_bailed s.workers)) [
          | inl b ↦ absurd (let c = o.bailing b in cc)
          | inr n ↦ n
        ] in
      let (closed, no_jobs) = o.drained (one_returned s.workers (omega arith) ended none_bailed) in
      let no_feed = o.fed closed going in
      let none_held = ended_hold_none p s.workers ended in
      let same = (Reach-everywhere p urls s reach).1 going in
      let no_jobs' = ap (count p) no_jobs in let no_feed' = ap (count p) no_feed in omega arith
