-- ===== src/LruCache/Runs.antt =====
-- Sequences of calls of the cache of data-structures/lru-cache.go.
use go_algorithm_practice.Prelude.{◌≡◌, refl, arith, Option, none, some, List, [], ◌∷◌}
use go_algorithm_practice.Prelude.Int.{ℤ}
use go_algorithm_practice.LruCache.{LruCache, new_lru_cache, lookup, get, put}
use go_algorithm_practice.LruCache.Entries.{Entries, get_entry, put_entry}
use go_algorithm_practice.LruCache.Refines.{Shows, get-Shows}
use go_algorithm_practice.LruCache.Puts.{put-Shows}

pub data Call : Type 0 where
  get_call : ℤ → Call
  put_call : ℤ → ℤ → Call

-- The answers of Get, in the order of the calls.
unfoldable pub run : LruCache → List Call → Option (List ℤ)
run c [] = some []
run c (get_call k ∷ calls) = elim (run (get k c).1 calls) [
  | none ↦ none
  | some answers ↦ some ((get k c).0 ∷ answers)
]
run c (put_call k v ∷ calls) = elim (put k v c) [ none ↦ none | some c' ↦ run c' calls ]

unfoldable pub run_entries : ℤ → Entries → List Call → List ℤ
unfolding get_entry put_entry
run_entries capacity es [] = []
run_entries capacity es (get_call k ∷ calls) =
    (get_entry k es).0 ∷ run_entries capacity (get_entry k es).1 calls
run_entries capacity es (put_call k v ∷ calls) =
    run_entries capacity (put_entry capacity k v es) calls

run-Shows :
    (capacity : ℤ) (calls : List Call) (c : LruCache) (es : Entries)
    → Shows capacity c es
    → run c calls ≡ some (run_entries capacity es calls)
unfolding run run_entries
run-Shows capacity [] c es s = refl
run-Shows capacity (get_call k ∷ calls) c es s =
    let (answer, s') = get-Shows capacity k c es s in
    rw (run-Shows capacity calls (get k c).1 (get_entry k es).1 s', answer) refl
run-Shows capacity (put_call k v ∷ calls) c es s =
    let (c', done, s') = put-Shows capacity k v c es s in
    rw (done, run) (run-Shows capacity calls c' (put_entry capacity k v es) s')

pub new_lru_cache-Shows : (capacity : ℤ) → Shows capacity (new_lru_cache capacity) []
unfolding new_lru_cache
new_lru_cache-Shows capacity = record {
  nodes = [];
  holds = record {
    chain = (refl, refl);
    distinct = tt;
    indexed = record {
      found = λ k a e. unfold lookup in absurd (cc);
      there = λ a m. cc;
      once = tt;
      count = refl;
    };
    below = λ a m. cc;
    started = omega arith;
  };
  entries_are = refl;
  fits = omega arith;
  capacity_is = refl;
}

-- From a new cache, no sequence of calls of Get and Put panics, and Get answers as a list of entries
-- does that keeps no more than the capacity, the most recently used.
pub run_lem :
    (capacity : ℤ) (calls : List Call)
    → run (new_lru_cache capacity) calls ≡ some (run_entries capacity [] calls)
run_lem capacity calls =
    run-Shows capacity calls (new_lru_cache capacity) [] (new_lru_cache-Shows capacity)
