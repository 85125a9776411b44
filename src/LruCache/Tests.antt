-- ===== src/LruCache/Tests.antt =====
-- Runs of the cache, and the theorems at them.
use go_algorithm_practice.Prelude.{◌≡◌, refl, arith, some, List, [], ◌∷◌}
use go_algorithm_practice.Prelude.Int.{pos, negsuc}
use go_algorithm_practice.LruCache.{LruCache, new_lru_cache, lookup, put}
use go_algorithm_practice.LruCache.Entries.{put_entry, get_entry}
use go_algorithm_practice.LruCache.Refines.{Shows}
use go_algorithm_practice.LruCache.Puts.{put-Shows}
use go_algorithm_practice.LruCache.Runs.{Call, get_call, put_call, run, run_entries, run_lem}

abbrev calls : List Call
calls =
    put_call (pos 1) (pos 10)
    ∷ put_call (pos 2) (pos 20)
    ∷ get_call (pos 1)
    ∷ put_call (pos 3) (pos 30)
    ∷ get_call (pos 2)
    ∷ get_call (pos 3)
    ∷ put_call (pos 1) (pos 11)
    ∷ get_call (pos 1)
    ∷ []

answers : run_entries (pos 2) [] calls ≡ pos 10 ∷ negsuc 0 ∷ pos 30 ∷ pos 11 ∷ []
unfolding run_entries put_entry get_entry
answers = refl

run_lem_example : run (new_lru_cache (pos 2)) calls ≡ some (run_entries (pos 2) [] calls)
run_lem_example = run_lem (pos 2) calls

abbrev one : LruCache
one = record {
  capacity = pos 1;
  cache = (pos 5, 1) ∷ [];
  head = 1;
  tail = 1;
  mem = λ a. record { key = pos 5; value = pos 50; prev = 0; next = 0 };
  fresh = 2;
}

one-Shows : Shows (pos 1) one ((pos 5, pos 50) ∷ [])
unfolding lookup
one-Shows = record {
  nodes = 1 ∷ [];
  holds = record {
    chain = (refl, (λ e. omega arith), refl, (refl, refl));
    distinct = (refl, tt);
    indexed = record {
      found = λ k a e. ground arith;
      there = λ a m. ground arith;
      once = (refl, tt);
      count = refl;
    };
    below = λ a m. ground arith;
    started = omega arith;
  };
  entries_are = refl;
  fits = omega arith;
  capacity_is = refl;
}

put-Shows_example :
    (c' : LruCache) × (put (pos 6) (pos 60) one ≡ some c')
    × Shows (pos 1) c' (put_entry (pos 1) (pos 6) (pos 60) ((pos 5, pos 50) ∷ []))
put-Shows_example = put-Shows (pos 1) (pos 6) (pos 60) one ((pos 5, pos 50) ∷ []) one-Shows
