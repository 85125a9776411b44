-- ===== src/LruCache/State.antt =====
-- The states of the cache of data-structures/lru-cache.go: the map and the list have the same nodes.
use go_algorithm_practice.Prelude.Addresses.{has, Distinct, has-append, has_apart}
use go_algorithm_practice.Prelude.{
  ℕ, ◌<◌, ◌≡◌, refl, sym, ap, ◌∙◌, arith, subst, true, false, inl, inr, none, some, List, [], ◌∷◌,
  ◌++◌, if◌then◌else◌, ◌==◌, length, length-append, Bool-cases,
}
use go_algorithm_practice.Prelude.Int.{ℤ, ◌==ℤ◌, ==ℤ_iff}
use go_algorithm_practice.LruCache.{
  Memory, Table, LruCache, lookup, linked_first, unlinked, relinked, move_to_head,
}
use go_algorithm_practice.LruCache.Links.{Chain, last-has, Chain-live}
use go_algorithm_practice.LruCache.Moves.{
  SameData, linked_first-SameData, linked_first-Chain, unlinked-SameData, unlinked-Chain,
}
use go_algorithm_practice.LruCache.Entries.{Lacks}

abbrev pub KeysOnce : Table → Type 0
KeysOnce [] = Unit
KeysOnce ((k, a) ∷ table) = (lookup k table ≡ none) × KeysOnce table

-- The map leads from the key of each of the nodes to the node, and to no other.
pub record Indexed (table : Table) (h : Memory) (xs : List ℕ) : Type 0 where
  pub found : (k : ℤ) (a : ℕ) → lookup k table ≡ some a → (has a xs ≡ true) × ((h a).key ≡ k)
  pub there : (a : ℕ) → has a xs ≡ true → lookup (h a).key table ≡ some a
  pub once : KeysOnce table
  pub count : length table ≡ length xs

pub record Holds (c : LruCache) (xs : List ℕ) : Type 0 where
  pub chain : Chain c.mem 0 c.head xs c.tail 0
  pub distinct : Distinct xs
  pub indexed : Indexed c.cache c.mem xs
  pub below : (a : ℕ) → has a xs ≡ true → a < c.fresh
  pub started : 0 < c.fresh

-- Another order of the nodes, and other links.
pub Indexed-same :
    (table : Table) (h g : Memory) (xs ys : List ℕ)
    → ((a : ℕ) → (g a).key ≡ (h a).key)
    → ((a : ℕ) → has a ys ≡ has a xs)
    → length ys ≡ length xs
    → Indexed table h xs
    → Indexed table g ys
Indexed-same table h g xs ys same members size i = record {
  found = λ k a e. let (member, key) = i.found k a e in (members a ∙ member, same a ∙ key);
  there = λ a m. ap (λ k. lookup k table) (same a) ∙ i.there a (sym (members a) ∙ m);
  once = i.once;
  count = i.count ∙ sym size;
}

-- The other nodes have other keys.
pub others_lack :
    (table : Table) (h : Memory) (n : ℕ) (xs : List ℕ)
    → Indexed table h xs
    → has n xs ≡ true
    → (zs : List ℕ) → ((a : ℕ) → has a zs ≡ true → has a xs ≡ true)
    → has n zs ≡ false
    → Lacks h (h n).key zs
others_lack table h n xs i n_in zs inside out a m = elim (Bool-cases ((h a).key ==ℤ (h n).key)) [
  | inl e ↦
      let key : (h a).key ≡ (h n).key = (==ℤ_iff (h a).key (h n).key).0 e in
      let to_a = i.there a (inside a m) in
      let to_n = i.there n n_in in
      let same : a ≡ n = cc in absurd (ground (arith, has_apart a n zs m out))
  | inr o ↦ o
]

module _ (n : ℕ) (pre post : List ℕ) where
  pub members_moved : (a : ℕ) → has a (n ∷ pre ++ post) ≡ has a (pre ++ n ∷ post)
  members_moved a =
      let l = has-append a pre post in let r = has-append a pre (n ∷ post) in ground arith

  pub length_moved : length (n ∷ pre ++ post) ≡ length (pre ++ n ∷ post)
  length_moved =
      let l = length-append pre post in let r = length-append pre (n ∷ post) in omega arith

pub Distinct-moved :
    (n : ℕ) (pre post : List ℕ) → Distinct (pre ++ n ∷ post) → Distinct (n ∷ pre ++ post)
Distinct-moved n [] post d = d
Distinct-moved n (a ∷ pre) post (out, d) =
    let (fresh, rest) = Distinct-moved n pre post d in
    let all = members_moved n pre post a in (ground arith, (ground arith, rest))

move_step :
    (c : LruCache) (n : ℕ)
    → (n == c.head) ≡ false
    → move_to_head c n
      ≡ relinked c
          (linked_first (unlinked c.mem n) c.head n)
          n
          (if n == c.tail then (unlinked c.mem n n).prev else c.tail)
unfolding move_to_head
move_step c n e = rw e refl

-- moveToHead of a node of the list.
pub move_to_head-Holds :
    (c : LruCache) (n : ℕ) (pre post : List ℕ)
    → Holds c (pre ++ n ∷ post)
    → Holds (move_to_head c n) (n ∷ pre ++ post) × SameData c.mem (move_to_head c n).mem
unfolding move_to_head
move_to_head-Holds c n [] post i =
    let is_head : (n == c.head) ≡ true = ground (arith, i.chain.0) in
    rw is_head (i, λ a. (refl, refl))
move_to_head-Holds c n (a ∷ pre) post i =
    let h = unlinked c.mem n in
    let xs = (a ∷ pre) ++ n ∷ post in
    let ys = (a ∷ pre) ++ post in
    let t = if n == c.tail then (h n).prev else c.tail in
    let taken : Chain h 0 c.head ys t 0 =
      unlinked-Chain c.mem c.head a n c.tail pre post i.chain i.distinct in
    let (out, d) = Distinct-moved n (a ∷ pre) post i.distinct in
    let members = members_moved n (a ∷ pre) post in
    let n_in : has n xs ≡ true = sym (members n) ∙ ground arith in
    let n_live = Chain-live c.mem 0 c.head xs c.tail 0 n i.chain n_in in
    let other : (n == c.head) ≡ false =
      let first = i.chain.0 in let apart : has n (a ∷ pre ++ post) ≡ false = out in ground arith in
    let t_live : (t == 0) ≡ false =
      let live =
        Chain-live h 0 c.head ys t 0 t taken (last-has h 0 c.head a (pre ++ post) t 0 taken) in
      ground arith in
    let g = linked_first h c.head n in
    let first : Chain g 0 n (n ∷ ys) t 0 =
      subst (λ l. Chain g 0 n (n ∷ ys) l 0) (rw t_live refl)
        (linked_first-Chain h c.head n t ys taken d out n_live) in
    let same : SameData c.mem g = λ b.
      let (k, v) = unlinked-SameData c.mem n b in
      let (k', v') = linked_first-SameData h c.head n b in (k' ∙ k, v' ∙ v) in
    subst (λ e. Holds e (n ∷ ys) × SameData c.mem e.mem) (sym (move_step c n other))
      (
        record {
          chain = first;
          distinct = (out, d);
          indexed =
              Indexed-same c.cache c.mem g xs (n ∷ ys) (λ b. (same b).0) members
                (length_moved n (a ∷ pre) post) i.indexed;
          below = λ b m. i.below b (sym (members b) ∙ m);
          started = i.started;
        },
        same,
      )
