-- ===== src/LruCache/Inserts.antt =====
-- A new entry of data-structures/lru-cache.go: the map with its key, and the list with its node.
use go_algorithm_practice.Prelude.Addresses.{has, has_apart}
use go_algorithm_practice.Prelude.{
  ℕ, suc, ◌≡◌, refl, sym, ap, ◌∙◌, arith, true, false, inl, inr, none, some, List, [], ◌∷◌, ◌==◌,
  Bool-cases,
}
use go_algorithm_practice.Prelude.Int.{ℤ, ◌==ℤ◌, ==ℤ_iff, ==ℤ_refl}
use go_algorithm_practice.LruCache.{
  ListNode, Memory, Table, LruCache, put_node, lookup, linked_first, add_head, inserted,
}
use go_algorithm_practice.LruCache.Links.{put_node_at, put_node_other, frame-put_node}
use go_algorithm_practice.LruCache.Moves.{linked_first-SameData, linked_first-Chain}
use go_algorithm_practice.LruCache.Entries.{entries, entries-SameData}
use go_algorithm_practice.LruCache.State.{Holds, Indexed, Indexed-same}

pub entries_frame :
    (h : Memory) (n : ℕ) (v : ListNode) (xs : List ℕ)
    → has n xs ≡ false
    → entries (put_node h n v) xs ≡ entries h xs
entries_frame h n v [] out = refl
entries_frame h n v (a ∷ xs) out =
    let here : put_node h n v a ≡ h a = put_node_other h n a v (ground arith) in
    rw (here, entries_frame h n v xs (ground arith)) refl

-- The map with a new key, and the memory with its node.
Indexed-put :
    (table : Table) (h : Memory) (k : ℤ) (n : ℕ) (node : ListNode) (xs : List ℕ)
    → node.key ≡ k
    → has n xs ≡ false
    → Indexed table h xs
    → lookup k table ≡ none
    → Indexed ((k, n) ∷ table) (put_node h n node) (n ∷ xs)
unfolding lookup
Indexed-put table h k n node xs key out i e =
    let g = put_node h n node in
    let at_n : g n ≡ node = put_node_at h n node in
    let kept =
      λ (a : ℕ) (m : has a xs ≡ true). put_node_other h n a node (has_apart a n xs m out) in
    record {
      found = λ j a f. elim (Bool-cases (j ==ℤ k)) [
        | inl same ↦
            let hit : lookup j ((k, n) ∷ table) ≡ some n = rw (same, lookup) refl in
            let it : a ≡ n = cc in
            let j_k : j ≡ k = (==ℤ_iff j k).0 same in
            (rw it (ground arith), ap (λ b. (g b).key) it ∙ ap (λ b. b.key) at_n ∙ key ∙ sym j_k)
        | inr other ↦
            let rest : lookup j ((k, n) ∷ table) ≡ lookup j table = rw (other, lookup) refl in
            let (member, its_key) = i.found j a (sym rest ∙ f) in
            (ground arith, ap (λ b. b.key) (kept a member) ∙ its_key)
      ];
      there = λ a m. elim (Bool-cases (a == n)) [
        | inl here ↦
            let it : a ≡ n = ground arith in
            let its_key : (g a).key ≡ k = ap (λ b. (g b).key) it ∙ ap (λ b. b.key) at_n ∙ key in
            rw (its_key, lookup) (rw (==ℤ_refl k) (ap some (sym it)))
        | inr other ↦
            let member : has a xs ≡ true = ground arith in
            let its_key : (g a).key ≡ (h a).key = ap (λ b. b.key) (kept a member) in
            let hit = i.there a member in
            let new : ((h a).key ==ℤ k) ≡ false = elim (Bool-cases ((h a).key ==ℤ k)) [
              | inl same ↦ let j_k : (h a).key ≡ k = (==ℤ_iff (h a).key k).0 same in absurd (cc)
              | inr apart ↦ apart
            ] in
            ap (λ j. lookup j ((k, n) ∷ table)) its_key ∙ rw (new, lookup) hit
      ];
      once = (e, i.once);
      count = ap suc i.count;
    }

-- The cache with a new first node, for a key that is not there.
pub inserted-Holds :
    (c : LruCache) (k v : ℤ) (xs : List ℕ)
    → Holds c xs
    → lookup k c.cache ≡ none
    → Holds (inserted k v c) (c.fresh ∷ xs)
      × (entries (inserted k v c).mem (c.fresh ∷ xs) ≡ (k, v) ∷ entries c.mem xs)
      × ((inserted k v c).capacity ≡ c.capacity)
unfolding inserted add_head
inserted-Holds c k v xs i e =
    let n = c.fresh in
    let node : ListNode = record { key = k; value = v; prev = 0; next = 0 } in
    let h = put_node c.mem n node in
    let g = linked_first h c.head n in
    let same = linked_first-SameData h c.head n in
    let at_n : h n ≡ node = put_node_at c.mem n node in
    let started = i.started in
    let out : has n xs ≡ false = elim (Bool-cases (has n xs)) [
      | inl m ↦ absurd (let lt = i.below n m in omega arith)
      | inr o ↦ o
    ] in
    (
      record {
        chain =
            linked_first-Chain h c.head n c.tail xs
              (frame-put_node c.mem 0 c.head xs c.tail 0 n node out i.chain) i.distinct out
              (omega arith);
        distinct = (out, i.distinct);
        indexed =
            Indexed-same ((k, n) ∷ c.cache) h g (n ∷ xs) (n ∷ xs) (λ a. (same a).0) (λ a. refl) refl
              (Indexed-put c.cache c.mem k n node xs refl out i.indexed e);
        below = λ a m. elim (Bool-cases (a == n)) [
          | inl here ↦ ground arith
          | inr other ↦ let lt = i.below a (ground arith) in omega arith
        ];
        started = omega arith;
      },
      entries-SameData h g (n ∷ xs) same ∙ rw (at_n, entries_frame c.mem n node xs out) refl,
      refl,
    )
