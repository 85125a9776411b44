-- ===== src/LruCache.antt =====
-- data-structures/lru-cache.go: a cache that evicts the least recently used entry. The nodes of its
-- doubly linked list are in a memory; a pointer is an address, and 0 is nil.
pub mod Entries
pub mod Links
pub mod Moves
pub mod State
pub mod Refines
pub mod Evictions
pub mod Inserts
pub mod Puts
pub mod Runs
mod Tests
use go_algorithm_practice.Prelude.{
  ℕ, zero, suc, ◌+◌, Bool, true, false, not, Option, none, some, List, [], ◌∷◌, if◌then◌else◌, ◌==◌,
  length,
}
use go_algorithm_practice.Prelude.Int.{ℤ, pos, negsuc, ltb_ℤ, ◌==ℤ◌}

pub record ListNode : Type 0 where
  pub key : ℤ
  pub value : ℤ
  pub prev : ℕ
  pub next : ℕ

abbrev pub Memory : Type 0
Memory = ℕ → ListNode

-- The map from keys to nodes, which is a list of pairs with every key at most once.
abbrev pub Table : Type 0
Table = List (ℤ × ℕ)

unfoldable pub lookup : ℤ → Table → Option ℕ
lookup k [] = none
lookup k ((j, n) ∷ table) = if k ==ℤ j then some n else lookup k table

unfoldable pub remove : ℤ → Table → Table
remove k [] = []
remove k ((j, n) ∷ table) = if k ==ℤ j then remove k table else (j, n) ∷ remove k table

-- The cache, with the memory, and the address of the next node that is allocated.
pub record LruCache : Type 0 where
  pub capacity : ℤ
  pub cache : Table
  pub head : ℕ
  pub tail : ℕ
  pub mem : Memory
  pub fresh : ℕ

abbrev pub relinked : LruCache → Memory → ℕ → ℕ → LruCache
relinked c mem head tail = record {
  capacity = c.capacity;
  cache = c.cache;
  head = head;
  tail = tail;
  mem = mem;
  fresh = c.fresh;
}

abbrev pub with_cache : LruCache → Table → LruCache
with_cache c table = record {
  capacity = c.capacity;
  cache = table;
  head = c.head;
  tail = c.tail;
  mem = c.mem;
  fresh = c.fresh;
}

unfoldable pub new_lru_cache : ℤ → LruCache
new_lru_cache capacity = record {
  capacity = capacity;
  cache = [];
  head = 0;
  tail = 0;
  mem = λ a. record { key = pos 0; value = pos 0; prev = 0; next = 0 };
  fresh = 1;
}

unfoldable pub put_node : Memory → ℕ → ListNode → Memory
put_node h a n b = if b == a then n else h b

-- `a.next = q`, `a.prev = q` and `a.value = v`
abbrev pub set_next : Memory → ℕ → ℕ → Memory
set_next h a q =
    put_node h a (record { key = (h a).key; value = (h a).value; prev = (h a).prev; next = q })

abbrev pub set_prev : Memory → ℕ → ℕ → Memory
set_prev h a q =
    put_node h a (record { key = (h a).key; value = (h a).value; prev = q; next = (h a).next })

abbrev pub set_value : Memory → ℕ → ℤ → Memory
set_value h a v =
    put_node h a (record { key = (h a).key; value = v; prev = (h a).prev; next = (h a).next })

-- addHead, on the memory.
unfoldable pub linked_first : Memory → ℕ → ℕ → Memory
linked_first h head n =
    let h' = set_next (set_prev h n 0) n head in if head == 0 then h' else set_prev h' head n

unfoldable pub add_head : LruCache → ℕ → LruCache
unfolding linked_first
add_head c n = relinked c (linked_first c.mem c.head n) n (if c.tail == 0 then n else c.tail)

-- moveToHead: the two writes that take a node out, on the memory.
unfoldable pub unlinked : Memory → ℕ → Memory
unlinked h n =
    let h1 = if (h n).prev == 0 then h else set_next h (h n).prev (h n).next in
    if (h1 n).next == 0 then h1 else set_prev h1 (h1 n).next (h1 n).prev

unfoldable pub move_to_head : LruCache → ℕ → LruCache
unfolding unlinked linked_first
move_to_head c n =
    let h = unlinked c.mem n in
    if n == c.head
    then c
    else relinked c (linked_first h c.head n) n (if n == c.tail then (h n).prev else c.tail)

-- popTail, and the cache after it.
unfoldable pub pop_tail : LruCache → ℕ × LruCache
pop_tail c =
    let before = (c.mem c.tail).prev in
    if c.tail == 0
    then (0, c)
    else (if before == 0
        then (c.tail, relinked c c.mem 0 before)
        else (c.tail, relinked c (set_next c.mem before 0) c.head before))

-- Put on an overflow. A read through nil panics.
unfoldable pub evict : LruCache → Option LruCache
unfolding pop_tail remove
evict c =
    let (n, c') = pop_tail c in
    if n == 0 then none else some (with_cache c' (remove (c'.mem n).key c'.cache))

unfoldable pub get : ℤ → LruCache → ℤ × LruCache
unfolding lookup move_to_head
get key c = elim (lookup key c.cache) [
  | none ↦ (negsuc 0, c)
  | some n ↦ let c' = move_to_head c n in ((c'.mem n).value, c')
]

-- Put of a key that is not there, up to the test on the size.
unfoldable pub inserted : ℤ → ℤ → LruCache → LruCache
unfolding add_head
inserted key value c =
    let n = c.fresh in
    add_head
      (record {
        capacity = c.capacity;
        cache = (key, n) ∷ c.cache;
        head = c.head;
        tail = c.tail;
        mem = put_node c.mem n (record { key = key; value = value; prev = 0; next = 0 });
        fresh = suc n;
      })
      n

unfoldable pub put : ℤ → ℤ → LruCache → Option LruCache
unfolding lookup move_to_head inserted evict
put key value c =
    let c' = inserted key value c in
    elim (lookup key c.cache) [
      | some n ↦ some (move_to_head (relinked c (set_value c.mem n value) c.head c.tail) n)
      | none ↦ if ltb_ℤ c'.capacity (pos (length c'.cache)) then evict c' else some c'
    ]
