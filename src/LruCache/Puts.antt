-- ===== src/LruCache/Puts.antt =====
-- Put of data-structures/lru-cache.go against the list of entries.
use go_algorithm_practice.Prelude.Addresses.{Distinct}
use go_algorithm_practice.Prelude.{
  ℕ, zero, suc, ◌≤◌, ◌≡◌, refl, sym, ap, ◌∙◌, arith, subst, true, false, inl, inr, none, some, List,
  [], ◌∷◌, ◌++◌, length, length-append, take, Bool-cases, Option-cases,
}
use go_algorithm_practice.Prelude.Int.{ℤ, pos, pos_part, ltb_ℤ}
use go_algorithm_practice.LruCache.{
  ListNode, Memory, LruCache, relinked, set_value, put_node, lookup, evict, inserted, move_to_head,
  put,
}
use go_algorithm_practice.LruCache.Links.{Chain-same_links, put_node_at}
use go_algorithm_practice.LruCache.Entries.{
  Entries, without, put_entry, entries, entries-SameData, length-entries, without_lacking,
}
use go_algorithm_practice.LruCache.State.{Holds, Indexed-same, Distinct-moved, move_to_head-Holds}
use go_algorithm_practice.LruCache.Refines.{
  Shows, placed, no_entry, move_to_head_capacity, other_entries, moved_length,
}
use go_algorithm_practice.LruCache.Evictions.{evict-Holds}
use go_algorithm_practice.LruCache.Inserts.{entries_frame, inserted-Holds}

take_all : (n : ℕ) (es : Entries) → length es ≤ n → take n es ≡ es
take_all zero [] le = refl
take_all (suc n) [] le = refl
take_all zero (e ∷ es) le = absurd (omega arith)
take_all (suc n) (e ∷ es) le = ap (◌∷◌ e) (take_all n es (omega arith))

take_front : (h : Memory) (zs ys : List ℕ) → take (length zs) (entries h (zs ++ ys)) ≡ entries h zs
take_front h [] ys = refl
take_front h (z ∷ zs) ys = ap (◌∷◌ ((h z).key, (h z).value)) (take_front h zs ys)

-- A list of nodes but the last, and the last.
last_apart : (a : ℕ) (xs : List ℕ) → (zs : List ℕ) × (t : ℕ) × (a ∷ xs ≡ zs ++ t ∷ [])
last_apart a [] = ([], a, refl)
last_apart a (b ∷ xs) = let (zs, t, e) = last_apart b xs in (a ∷ zs, t, ap (◌∷◌ a) e)

put_found :
    (k v : ℤ) (c : LruCache) (n : ℕ)
    → lookup k c.cache ≡ some n
    → put k v c ≡ some (move_to_head (relinked c (set_value c.mem n v) c.head c.tail) n)
unfolding put
put_found k v c n e = rw (e, put) refl

put_room :
    (k v : ℤ) (c : LruCache)
    → lookup k c.cache ≡ none
    → ltb_ℤ (inserted k v c).capacity (pos (length (inserted k v c).cache)) ≡ false
    → put k v c ≡ some (inserted k v c)
unfolding put
put_room k v c e room = rw (e, put) (rw room refl)

put_full :
    (k v : ℤ) (c c' : LruCache)
    → lookup k c.cache ≡ none
    → ltb_ℤ (inserted k v c).capacity (pos (length (inserted k v c).cache)) ≡ true
    → evict (inserted k v c) ≡ some c'
    → put k v c ≡ some c'
unfolding put
put_full k v c c' e full done = rw (e, put) (rw full done)

-- Put of a new key.
put_new :
    (capacity k v : ℤ) (c : LruCache) (es : Entries)
    → Shows capacity c es
    → lookup k c.cache ≡ none
    → (c' : LruCache) × (put k v c ≡ some c') × Shows capacity c' (put_entry capacity k v es)
unfolding put_entry
put_new capacity k v c es s e =
    let d = inserted k v c in
    let (holds, shown, same_capacity) = inserted-Holds c k v s.nodes s.holds e in
    let lacks : without k es ≡ es =
      subst (λ l. without k l ≡ l) s.entries_are
        (without_lacking c.mem k s.nodes (no_entry c k s.nodes s.holds.indexed e)) in
    let all : entries d.mem (c.fresh ∷ s.nodes) ≡ (k, v) ∷ es =
      shown ∙ ap (◌∷◌ (k, v)) s.entries_are in
    let size : length es ≡ length s.nodes =
      ap length (sym s.entries_are) ∙ length-entries c.mem s.nodes in
    let fits = s.fits in
    let count = holds.indexed.count in
    let limit : d.capacity ≡ capacity = same_capacity ∙ s.capacity_is in
    let limit' : pos_part d.capacity ≡ pos_part capacity = ap pos_part limit in
    let after : put_entry capacity k v es ≡ take (pos_part capacity) ((k, v) ∷ es) =
      ap (λ l. take (pos_part capacity) ((k, v) ∷ l)) lacks in
    subst (λ l. (c' : LruCache) × (put k v c ≡ some c') × Shows capacity c' l) (sym after)
      (elim (Bool-cases (ltb_ℤ d.capacity (pos (length d.cache)))) [
        | inr room ↦
            let le : length ((k, v) ∷ es) ≤ pos_part capacity = ground arith in
            let whole = take_all (pos_part capacity) ((k, v) ∷ es) le in
            (
              d,
              put_room k v c e room,
              record {
                nodes = c.fresh ∷ s.nodes;
                holds = holds;
                entries_are = all ∙ sym whole;
                fits = rw whole le;
                capacity_is = limit;
              },
            )
        | inl full ↦
            let (zs, t, parts) = last_apart c.fresh s.nodes in
            let (c', done, kept, same, same_capacity') =
              evict-Holds d zs t (subst (Holds d) parts holds) in
            let parts_size = ap length parts ∙ length-append zs (t ∷ []) in
            let room : length zs ≡ pos_part capacity = ground arith in
            let front : take (pos_part capacity) ((k, v) ∷ es) ≡ entries d.mem zs =
              ap (λ l. take (pos_part capacity) l) (sym all ∙ ap (entries d.mem) parts)
              ∙ ap (λ m. take m (entries d.mem (zs ++ t ∷ []))) (sym room)
              ∙ take_front d.mem zs (t ∷ []) in
            (
              c',
              put_full k v c c' e full done,
              record {
                nodes = zs;
                holds = kept;
                entries_are = entries-SameData d.mem c'.mem zs same ∙ sym front;
                fits = rw front (let n = length-entries d.mem zs in omega arith);
                capacity_is = same_capacity' ∙ limit;
              },
            )
      ])

set_value-Holds :
    (c : LruCache) (n : ℕ) (v : ℤ) (xs : List ℕ)
    → Holds c xs
    → Holds (relinked c (set_value c.mem n v) c.head c.tail) xs
unfolding put_node
set_value-Holds c n v xs i =
    let g = set_value c.mem n v in
    record {
      chain = Chain-same_links c.mem g 0 c.head xs c.tail 0 (λ a. ground arith) i.chain;
      distinct = i.distinct;
      indexed = Indexed-same c.cache c.mem g xs xs (λ a. ground arith) (λ a. refl) refl i.indexed;
      below = i.below;
      started = i.started;
    }

-- Put of a key that is there.
put_old :
    (capacity k v : ℤ) (c : LruCache) (es : Entries) (n : ℕ)
    → Shows capacity c es
    → lookup k c.cache ≡ some n
    → (c' : LruCache) × (put k v c ≡ some c') × Shows capacity c' (put_entry capacity k v es)
unfolding put_entry
put_old capacity k v c es n s e =
    let p = placed c k n s.nodes s.holds e in
    let d = relinked c (set_value c.mem n v) c.head c.tail in
    let c' = move_to_head d n in
    let (holds, same) =
      move_to_head-Holds d n p.pre p.post
        (subst (Holds d) p.split (set_value-Holds c n v s.nodes s.holds)) in
    let node : ListNode = record {
      key = (c.mem n).key;
      value = v;
      prev = (c.mem n).prev;
      next = (c.mem n).next;
    } in
    let at_n : d.mem n ≡ node = put_node_at c.mem n node in
    let d' = Distinct-moved n p.pre p.post (subst Distinct p.split s.holds.distinct) in
    let rest : without k es ≡ entries c.mem (p.pre ++ p.post) =
      subst (λ l. without k l ≡ entries c.mem (p.pre ++ p.post)) s.entries_are
        (other_entries c k n s.nodes p) in
    let shown : entries c'.mem (n ∷ p.pre ++ p.post) ≡ (k, v) ∷ without k es =
      entries-SameData d.mem c'.mem (n ∷ p.pre ++ p.post) same
      ∙ rw (at_n, p.key, entries_frame c.mem n node (p.pre ++ p.post) d'.0, rest) refl in
    let size = moved_length c k n s.nodes p in
    let size' = ap length (sym s.entries_are) ∙ length-entries c.mem s.nodes in
    let le : length ((k, v) ∷ without k es) ≤ pos_part capacity =
      let m = length-entries c.mem (p.pre ++ p.post) in
      let r = ap length rest in let fits = s.fits in omega arith in
    let whole = take_all (pos_part capacity) ((k, v) ∷ without k es) le in
    (
      c',
      put_found k v c n e,
      record {
        nodes = n ∷ p.pre ++ p.post;
        holds = holds;
        entries_are = shown ∙ sym whole;
        fits = rw whole le;
        capacity_is = move_to_head_capacity d n ∙ s.capacity_is;
      },
    )

-- Put does not panic. The cache then has the entry at the front, in place of one of its key, and the
-- least recently used entry is gone if there was no room.
pub put-Shows :
    (capacity k v : ℤ) (c : LruCache) (es : Entries)
    → Shows capacity c es
    → (c' : LruCache) × (put k v c ≡ some c') × Shows capacity c' (put_entry capacity k v es)
put-Shows capacity k v c es s = elim (Option-cases (lookup k c.cache)) [
  | inl e ↦ put_new capacity k v c es s e
  | inr (n, e) ↦ put_old capacity k v c es n s e
]
