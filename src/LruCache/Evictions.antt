-- ===== src/LruCache/Evictions.antt =====
-- Evictions of data-structures/lru-cache.go: popTail, and the map without the key of the node.
use go_algorithm_practice.Prelude.Addresses.{has, Distinct, has-append, Distinct-append}
use go_algorithm_practice.Prelude.{
  ℕ, suc, ◌≡◌, ◌≢◌, refl, sym, ap, ◌∙◌, arith, subst, true, false, inl, inr, none, some, List, [],
  ◌∷◌, ◌++◌, if◌then◌else◌, ◌==◌, length, length-append, Bool-cases,
}
use go_algorithm_practice.Prelude.Int.{ℤ, ◌==ℤ◌, ==ℤ_iff}
use go_algorithm_practice.LruCache.{
  Memory, Table, LruCache, relinked, with_cache, set_next, lookup, remove, pop_tail, evict,
}
use go_algorithm_practice.LruCache.Links.{last-has, Chain-live, Chain-split, Chain-set_next}
use go_algorithm_practice.LruCache.Moves.{SameData, set_next-SameData}
use go_algorithm_practice.LruCache.State.{KeysOnce, Holds, Indexed, Indexed-same, others_lack}

lookup-remove :
    (k j : ℤ) (table : Table)
    → lookup k (remove j table) ≡ (if k ==ℤ j then none else lookup k table)
unfolding lookup remove
lookup-remove k j [] = ground arith
lookup-remove k j ((i, a) ∷ table) = elim (Bool-cases (j ==ℤ i)) [
  | inl e ↦
      let same : j ≡ i = (==ℤ_iff j i).0 e in
      rw (e, remove) (lookup-remove k j table ∙ ground arith)
  | inr e ↦ rw (e, remove) (ground (arith, lookup-remove k j table))
]

KeysOnce-remove : (j : ℤ) (table : Table) → KeysOnce table → KeysOnce (remove j table)
unfolding remove
KeysOnce-remove j [] o = tt
KeysOnce-remove j ((i, a) ∷ table) (new, o) = elim (Bool-cases (j ==ℤ i)) [
  | inl e ↦ rw (e, remove) (KeysOnce-remove j table o)
  | inr e ↦
      let other : (i ==ℤ j) ≡ false = ground arith in
      rw (e, remove) (lookup-remove i j table ∙ rw other new, KeysOnce-remove j table o)
]

remove_missing : (j : ℤ) (table : Table) → lookup j table ≡ none → remove j table ≡ table
unfolding remove lookup
remove_missing j [] e = refl
remove_missing j ((i, a) ∷ table) e = elim (Bool-cases (j ==ℤ i)) [
  | inl found ↦
      let hit : lookup j ((i, a) ∷ table) ≡ some a = rw (found, lookup) refl in absurd (cc)
  | inr other ↦
      let rest : lookup j ((i, a) ∷ table) ≡ lookup j table = rw (other, lookup) refl in
      rw (other, remove) (ap (◌∷◌ (i, a)) (remove_missing j table (sym rest ∙ e)))
]

length-remove :
    (j : ℤ) (a : ℕ) (table : Table)
    → KeysOnce table
    → lookup j table ≡ some a
    → suc (length (remove j table)) ≡ length table
unfolding remove lookup
length-remove j a [] o e = absurd (cc)
length-remove j a ((i, b) ∷ table) (new, o) e = elim (Bool-cases (j ==ℤ i)) [
  | inl found ↦
      let same : i ≡ j = sym ((==ℤ_iff j i).0 found) in
      rw (found, remove) (ap (λ l. suc (length l)) (remove_missing j table (rw (sym same) new)))
  | inr other ↦
      let rest : lookup j ((i, b) ∷ table) ≡ lookup j table = rw (other, lookup) refl in
      rw (other, remove) (ap suc (length-remove j a table o (sym rest ∙ e)))
]

-- Without the last node.
Indexed-remove :
    (table : Table) (h : Memory) (zs : List ℕ) (t : ℕ)
    → Distinct (zs ++ t ∷ [])
    → Indexed table h (zs ++ t ∷ [])
    → Indexed (remove (h t).key table) h zs
Indexed-remove table h zs t d i =
    let all = λ (a : ℕ). has-append a zs (t ∷ []) in
    let (d1, d2, apart) = Distinct-append zs (t ∷ []) d in
    let t_in : has t (zs ++ t ∷ []) ≡ true = all t ∙ ground arith in
    let t_out : has t zs ≡ false = elim (Bool-cases (has t zs)) [
      | inl m ↦ let o = apart t m in ground arith
      | inr o ↦ o
    ] in
    let lacks =
      others_lack table h t (zs ++ t ∷ []) i t_in zs (λ a m. all a ∙ ground arith) t_out in
    record {
      found = λ k a e. elim (Bool-cases (k ==ℤ (h t).key)) [
        | inl same ↦
            let none_there : lookup k (remove (h t).key table) ≡ none =
              lookup-remove k (h t).key table ∙ rw same refl in
            absurd (cc)
        | inr other ↦
            let (member, key) =
              i.found k a (sym (lookup-remove k (h t).key table ∙ rw other refl) ∙ e) in
            (
              elim (Bool-cases (a == t)) [
                | inl same ↦
                    let it : a ≡ t = ground arith in
                    let clash : (k ==ℤ (h t).key) ≡ true =
                      (==ℤ_iff k (h t).key).1 (sym key ∙ ap (λ b. (h b).key) it) in
                    ground arith
                | inr apart ↦ let m = all a in ground arith
              ],
              key,
            )
      ];
      there = λ a m.
          let apart = lacks a m in
          lookup-remove (h a).key (h t).key table ∙ rw apart (i.there a (all a ∙ ground arith));
      once = KeysOnce-remove (h t).key table i.once;
      count =
          let size = length-append zs (t ∷ []) in
          let less = length-remove (h t).key t table i.once (i.there t t_in) in
          let count = i.count in omega arith;
    }

-- The two ways of an eviction: of the only node, and of the last of several.
evict_only :
    (c : LruCache)
    → c.tail ≢ 0
    → (c.mem c.tail).prev ≡ 0
    → evict c ≡ some (with_cache (relinked c c.mem 0 0) (remove (c.mem c.tail).key c.cache))
unfolding evict pop_tail
evict_only c live e =
    let some_tail : (c.tail == 0) ≡ false = ground arith in rw (some_tail, e, some_tail) refl

evict_more :
    (c : LruCache) (m : ℕ)
    → c.tail ≢ 0
    → (c.mem c.tail).prev ≡ m
    → m ≢ 0
    → evict c
      ≡ some (
          with_cache
            (relinked c (set_next c.mem m 0) c.head m)
            (remove (set_next c.mem m 0 c.tail).key c.cache))
unfolding evict pop_tail
evict_more c m live e live' =
    let some_tail : (c.tail == 0) ≡ false = ground arith in
    let some_before : (m == 0) ≡ false = ground arith in
    rw (some_tail, e, some_before, some_tail) refl

-- The eviction of a cache that has a last node.
pub evict-Holds :
    (c : LruCache) (zs : List ℕ) (t : ℕ)
    → Holds c (zs ++ t ∷ [])
    → (c' : LruCache) × (evict c ≡ some c')
      × Holds c' zs
      × SameData c.mem c'.mem
      × (c'.capacity ≡ c.capacity)
evict-Holds c [] t i =
    let (e, live, back, (nil, last)) = i.chain in
    let before : (c.mem c.tail).prev ≡ 0 = ap (λ a. (c.mem a).prev) last ∙ back in
    let key : (c.mem c.tail).key ≡ (c.mem t).key = ap (λ a. (c.mem a).key) last in
    (
      with_cache (relinked c c.mem 0 0) (remove (c.mem c.tail).key c.cache),
      evict_only c (λ z. live (sym last ∙ z)) before,
      record {
        chain = (refl, refl);
        distinct = tt;
        indexed =
            subst (λ k. Indexed (remove k c.cache) c.mem []) (sym key)
              (Indexed-remove c.cache c.mem [] t i.distinct i.indexed);
        below = λ a m. cc;
        started = i.started;
      },
      (λ a. (refl, refl)),
      refl,
    )
evict-Holds c (b ∷ zs) t i =
    let (m, n, s1, s2) = Chain-split c.mem 0 c.head (b ∷ zs) (t ∷ []) c.tail 0 i.chain in
    let (e, live, back, (nil, last)) = s2 in
    let (d1, d2, apart) = Distinct-append (b ∷ zs) (t ∷ []) i.distinct in
    let m_in = last-has c.mem 0 c.head b zs m n s1 in
    let m_live = Chain-live c.mem 0 c.head (b ∷ zs) m n m s1 m_in in
    let m_out = apart m m_in in
    let before : (c.mem c.tail).prev ≡ m = ap (λ a. (c.mem a).prev) last ∙ back in
    let g = set_next c.mem m 0 in
    let same = set_next-SameData c.mem m 0 in
    let key : (c.mem t).key ≡ (g c.tail).key =
      ap (λ a. (c.mem a).key) (sym last) ∙ sym (same c.tail).0 in
    (
      with_cache (relinked c g c.head m) (remove (g c.tail).key c.cache),
      evict_more c m (λ z. live (sym last ∙ z)) before m_live,
      record {
        chain = Chain-set_next c.mem 0 c.head b zs m n 0 d1 s1;
        distinct = d1;
        indexed =
            subst (λ k. Indexed (remove k c.cache) g (b ∷ zs)) key
              (Indexed-same (remove (c.mem t).key c.cache) c.mem g (b ∷ zs) (b ∷ zs)
                (λ a. (same a).0) (λ a. refl) refl
                (Indexed-remove c.cache c.mem (b ∷ zs) t i.distinct i.indexed));
        below = λ a m. i.below a (has-append a (b ∷ zs) (t ∷ []) ∙ ground arith);
        started = i.started;
      },
      same,
      refl,
    )
