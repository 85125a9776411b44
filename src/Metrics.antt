-- ===== src/Metrics.antt =====
-- practice/metrics_buffer.go: the ring buffers of samples. A sample is a value of any type `V`: a
-- `float64` in MetricsBuffer, a value with its time in TimestampedMetricsBuffer, whose Push differs
-- in the sample only. `blank` is the zero value that `make` fills a slice with. The mutex makes each
-- method one step. `none` is a run-time panic: an index out of range or a division by zero, in a
-- buffer of size 0. The argument of GetRecent is not negative.
pub mod History
pub mod Recent
pub mod Copies
pub mod Latest
mod Tests
use go_algorithm_practice.Prelude.{
  ℕ, zero, suc, ◌+◌, ◌-◌, ◌%◌, Bool, true, false, Option, none, some, List, [], ◌∷◌, ◌++◌, min,
  if◌then◌else◌, ◌==◌, ltb, leb, length, get_or, set, take, drop, replicate,
}

pub record Ring {ℓ} (V : Type ℓ) : Type ℓ where
  pub buffer : List V
  pub write_idx : ℕ
  pub count : ℕ
  pub size : ℕ

module _ {ℓ} {V : Type ℓ} (blank : V) where
  -- NewMetricsBuffer, NewTimestampedMetricsBuffer
  unfoldable pub new_ring : ℕ → Ring V
  new_ring size = record { buffer = replicate size blank; write_idx = 0; count = 0; size = size }

  -- `copy(dest, src)` into a new slice of `n` elements: the slice after it.
  unfoldable pub copied : ℕ → List V → List V
  copied n src = take n src ++ replicate (n - length src) blank

  -- GetRecent behind the clamp. In a buffer of size 0 `%` panics.
  unfoldable pub recent : ℕ → Ring V → Option (List V)
  unfolding copied
  recent n r =
      let last = (r.write_idx + r.size - 1) % r.size in
      let start = (r.write_idx + r.size - n) % r.size in
      if r.size == 0
      then none
      else if ltb start last
      then some (copied n (take (last + 1 - start) (drop start r.buffer)))
      else (let m = min n (length (drop start r.buffer)) in
          some (take m (drop start r.buffer) ++ copied (n - m) (take (last + 1) r.buffer)))

  unfoldable pub get_recent : ℕ → Ring V → Option (List V)
  unfolding recent
  get_recent n r = if ltb r.count n then recent r.count r else recent n r

  -- The position of the sample that was written `i` writes before the last, as Average and
  -- GetWindow compute it: `writeIdx - 1 - i`, and the size on top if that is negative.
  abbrev pub position : Ring V → ℕ → ℕ
  position r i = if ltb i r.write_idx then r.write_idx - 1 - i else r.size + r.write_idx - 1 - i

  -- The loop of Average from round `i` on; `left` is the number of rounds to go.
  module _ (add : V → V → V) (divide : V → ℕ → V) where
    unfoldable pub sum_from : Ring V → ℕ → ℕ → V → V
    sum_from r zero i sum = sum
    sum_from r (suc left) i sum =
        sum_from r left (i + 1) (add sum (get_or r.buffer (position r i) blank))

    unfoldable pub average : Ring V → V
    unfolding sum_from
    average r = if r.count == 0 then blank else divide (sum_from r r.count 0 blank) r.count

  -- The loop of GetWindow, where `within i` is the test `time.Since(sample.Timestamp) <= duration` in
  -- round `i`: each round reads the clock.
  module _ (within : ℕ → V → Bool) where
    unfoldable pub window_from : Ring V → ℕ → ℕ → List V → List V
    window_from r zero i result = result
    window_from r (suc left) i result =
        let sample = get_or r.buffer (position r i) blank in
        elim (within i sample) [
          | true ↦ window_from r left (i + 1) (result ++ sample ∷ [])
          | false ↦ result
        ]

    unfoldable pub get_window : Ring V → List V
    unfolding window_from
    get_window r = if r.count == 0 then [] else window_from r r.count 0 []

module _ {ℓ} {V : Type ℓ} where
  -- Push
  unfoldable pub push : V → Ring V → Option (Ring V)
  push value r =
      if ltb r.write_idx (length r.buffer)
      then some (record {
        buffer = set r.buffer r.write_idx value;
        write_idx = (r.write_idx + 1) % r.size;
        count = (if ltb r.count r.size then r.count + 1 else r.count);
        size = r.size;
      })
      else none

-- TimestampedSample and the TimestampedMetricsBuffer of such samples. `now` is the clock's reading.
pub record Sample {ℓ} (V : Type ℓ) : Type ℓ where
  pub value : V
  pub timestamp : ℕ

module _ {ℓ} {V : Type ℓ} where
  abbrev pub new_timestamped_ring : V → ℕ → Ring (Sample V)
  new_timestamped_ring zero_value size =
      new_ring (record { value = zero_value; timestamp = 0 }) size

  abbrev pub push_timestamped : V → ℕ → Ring (Sample V) → Option (Ring (Sample V))
  push_timestamped value now r = push (record { value = value; timestamp = now }) r
