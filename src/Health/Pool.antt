-- ===== src/Health/Pool.antt =====
-- The goroutines of RunChecker in practice/parallel_url_health.go.
use go_algorithm_practice.Prelude.{
  ℕ, ◌<◌, Bool, true, false, List, [], ◌∷◌, ◌++◌, length, replicate,
}
use go_algorithm_practice.Health.{Result, Reply, check_url}

-- A worker: at the head of its loop, with a URL at the select, in checkUrl, or returned, with nil or
-- with the error of the context.
pub data Worker {ℓ} (Url : Type ℓ) : Type ℓ where
  idle : Worker Url
  holding : Url → Worker Url
  checking : Url → Worker Url
  returned : Worker Url
  bailed : Worker Url

-- What the feeding goroutine has left, the channels, the workers, and whether the context is done.
pub record Pool {ℓ} (Url Error : Type ℓ) : Type ℓ where
  pub feed : List Url
  pub closed : Bool
  pub jobs : List Url
  pub workers : List (Worker Url)
  pub results : List (Result Url Error)
  pub cancelled : Bool

abbrev pub pool {ℓ} :
    {Url Error : Type ℓ}
    → List Url
    → Bool
    → List Url
    → List (Worker Url)
    → List (Result Url Error)
    → Bool
    → Pool Url Error
pool feed closed jobs workers results cancelled = record {
  feed = feed;
  closed = closed;
  jobs = jobs;
  workers = workers;
  results = results;
  cancelled = cancelled;
}

unfoldable pub start {ℓ} : {Url Error : Type ℓ} → ℕ → List Url → Pool Url Error
start pool_size urls = pool urls false [] (replicate pool_size idle) [] false

-- `make(chan Result, len(urls))`: how many results the channel holds. Nothing is received from it
-- before all workers have ended.
unfoldable pub results_size {ℓ} : {Url : Type ℓ} → List Url → ℕ
results_size urls = length urls

-- One step of one goroutine, with the capacities of the channels of the jobs and the results. A send
-- waits for room in the channel.
pub data Step {ℓ} {Url Error : Type ℓ} (pool_size capacity : ℕ)
    : Pool Url Error → Pool Url Error → Type ℓ where
  send_job :
      (u : Url) (feed jobs : List Url) (ws : List (Worker Url)) (rs : List (Result Url Error))
      (c : Bool)
      → length jobs < pool_size
      → Step pool_size capacity
          (pool (u ∷ feed) false jobs ws rs c)
          (pool feed false (jobs ++ u ∷ []) ws rs c)
  close_jobs :
      (jobs : List Url) (ws : List (Worker Url)) (rs : List (Result Url Error)) (c : Bool)
      → Step pool_size capacity (pool [] false jobs ws rs c) (pool [] true jobs ws rs c)
  stop_feeding :
      (feed jobs : List Url) (ws : List (Worker Url)) (rs : List (Result Url Error))
      → Step pool_size capacity (pool feed false jobs ws rs true) (pool feed true jobs ws rs true)
  take_job :
      (u : Url) (feed jobs : List Url) (closed : Bool) (pre post : List (Worker Url))
      (rs : List (Result Url Error)) (c : Bool)
      → Step pool_size capacity
          (pool feed closed (u ∷ jobs) (pre ++ idle ∷ post) rs c)
          (pool feed closed jobs (pre ++ holding u ∷ post) rs c)
  start_check :
      (u : Url) (feed jobs : List Url) (closed : Bool) (pre post : List (Worker Url))
      (rs : List (Result Url Error))
      → Step pool_size capacity
          (pool feed closed jobs (pre ++ holding u ∷ post) rs false)
          (pool feed closed jobs (pre ++ checking u ∷ post) rs false)
  bail_out :
      (u : Url) (feed jobs : List Url) (closed : Bool) (pre post : List (Worker Url))
      (rs : List (Result Url Error))
      → Step pool_size capacity
          (pool feed closed jobs (pre ++ holding u ∷ post) rs true)
          (pool feed closed jobs (pre ++ bailed ∷ post) rs true)
  send_result :
      (u : Url) (reply : Reply Error) (feed jobs : List Url) (closed : Bool)
      (pre post : List (Worker Url)) (rs : List (Result Url Error)) (c : Bool)
      → length rs < capacity
      → Step pool_size capacity
          (pool feed closed jobs (pre ++ checking u ∷ post) rs c)
          (pool feed closed jobs (pre ++ idle ∷ post) (rs ++ check_url u reply ∷ []) c)
  end_worker :
      (feed : List Url) (pre post : List (Worker Url)) (rs : List (Result Url Error)) (c : Bool)
      → Step pool_size capacity
          (pool feed true [] (pre ++ idle ∷ post) rs c)
          (pool feed true [] (pre ++ returned ∷ post) rs c)
  cancel :
      (feed jobs : List Url) (closed : Bool) (ws : List (Worker Url)) (rs : List (Result Url Error))
      (c : Bool)
      → Step pool_size capacity (pool feed closed jobs ws rs c) (pool feed closed jobs ws rs true)

-- The states that the start leads to.
pub data Reach {ℓ} {Url Error : Type ℓ} (pool_size : ℕ) (urls : List Url)
    : Pool Url Error → Type ℓ where
  at_start : Reach pool_size urls (start pool_size urls)
  after_step :
      (s t : Pool Url Error)
      → Reach pool_size urls s
      → Step pool_size (results_size urls) s t
      → Reach pool_size urls t
