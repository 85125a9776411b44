-- ===== src/LruCache/Refines.antt =====
-- Get and Put of data-structures/lru-cache.go against the list of entries.
use go_algorithm_practice.Prelude.Addresses.{has, Distinct, has-append, Distinct-append}
use go_algorithm_practice.Prelude.{
  ℕ, suc, ◌≤◌, ◌≡◌, refl, sym, ap, ◌∙◌, arith, subst, true, false, inl, inr, none, some, List, ◌∷◌,
  ◌++◌, length, Bool-cases, Option-cases,
}
use go_algorithm_practice.Prelude.Int.{ℤ, negsuc, pos_part, ◌==ℤ◌, ==ℤ_iff}
use go_algorithm_practice.LruCache.{LruCache, lookup, move_to_head, get}
use go_algorithm_practice.LruCache.Entries.{
  Entries, find, without, get_entry, entries, entries-SameData, length-entries, Lacks, find_lacking,
  find_at, without_at, has-split,
}
use go_algorithm_practice.LruCache.State.{
  Holds, Indexed, others_lack, length_moved, move_to_head-Holds,
}

-- The cache has these entries, and no more than its capacity.
pub record Shows (capacity : ℤ) (c : LruCache) (es : Entries) : Type 0 where
  pub nodes : List ℕ
  pub holds : Holds c nodes
  pub entries_are : entries c.mem nodes ≡ es
  pub fits : length es ≤ pos_part capacity
  pub capacity_is : c.capacity ≡ capacity

pub move_to_head_capacity : (c : LruCache) (n : ℕ) → (move_to_head c n).capacity ≡ c.capacity
unfolding move_to_head
move_to_head_capacity c n = ground arith

-- A node of the cache and the entries before and behind its own.
pub record Place (c : LruCache) (k : ℤ) (n : ℕ) (xs : List ℕ) : Type 0 where
  pub pre : List ℕ
  pub post : List ℕ
  pub split : xs ≡ pre ++ n ∷ post
  pub key : (c.mem n).key ≡ k
  pub before : Lacks c.mem k pre
  pub behind : Lacks c.mem k post

pub placed :
    (c : LruCache) (k : ℤ) (n : ℕ) (xs : List ℕ)
    → Holds c xs
    → lookup k c.cache ≡ some n
    → Place c k n xs
placed c k n xs i e =
    let (n_in, key) = i.indexed.found k n e in
    let (pre, post, split) = has-split n xs n_in in
    let d : Distinct (pre ++ n ∷ post) = subst Distinct split i.distinct in
    let (d1, (out, d2), apart) = Distinct-append pre (n ∷ post) d in
    let inside =
      λ (zs : List ℕ) (o : has n zs ≡ false) (f : (a : ℕ) → has a zs ≡ true → has a xs ≡ true).
        subst (λ j. Lacks c.mem j zs) key (others_lack c.cache c.mem n xs i.indexed n_in zs f o) in
    let all = λ (a : ℕ). ap (has a) split ∙ has-append a pre (n ∷ post) in
    record {
      pre = pre;
      post = post;
      split = split;
      key = key;
      before =
          inside pre
            (elim (Bool-cases (has n pre)) [
              | inl m ↦ let o = apart n m in ground arith
              | inr o ↦ o
            ])
            (λ a m. all a ∙ ground arith);
      behind = inside post out (λ a m. all a ∙ ground arith);
    }

get_found :
    (c : LruCache) (k : ℤ) (n : ℕ)
    → lookup k c.cache ≡ some n
    → get k c ≡ (((move_to_head c n).mem n).value, move_to_head c n)
unfolding get
get_found c k n e = rw (e, get) refl

get_missing : (c : LruCache) (k : ℤ) → lookup k c.cache ≡ none → get k c ≡ (negsuc 0, c)
unfolding get
get_missing c k e = rw (e, get) refl

get_entry_found :
    (k v : ℤ) (es : Entries) → find k es ≡ some v → get_entry k es ≡ (v, (k, v) ∷ without k es)
unfolding get_entry
get_entry_found k v es e = rw (e, get_entry) refl

get_entry_missing : (k : ℤ) (es : Entries) → find k es ≡ none → get_entry k es ≡ (negsuc 0, es)
unfolding get_entry
get_entry_missing k es e = rw (e, get_entry) refl

-- The entries of the other nodes, and the value of this one.
module _ (c : LruCache) (k : ℤ) (n : ℕ) (xs : List ℕ) (p : Place c k n xs) where
  pub other_entries : without k (entries c.mem xs) ≡ entries c.mem (p.pre ++ p.post)
  other_entries =
      ap (λ l. without k (entries c.mem l)) p.split
      ∙ subst
          (λ j. without j (entries c.mem (p.pre ++ n ∷ p.post)) ≡ entries c.mem (p.pre ++ p.post))
          p.key
          (without_at c.mem n p.post (subst (λ j. Lacks c.mem j p.post) (sym p.key) p.behind) p.pre
            (subst (λ j. Lacks c.mem j p.pre) (sym p.key) p.before))

  own_value : find k (entries c.mem xs) ≡ some (c.mem n).value
  own_value =
      ap (λ l. find k (entries c.mem l)) p.split
      ∙ subst (λ j. find j (entries c.mem (p.pre ++ n ∷ p.post)) ≡ some (c.mem n).value) p.key
          (find_at c.mem n p.post (subst (λ j. Lacks c.mem j p.post) (sym p.key) p.behind) p.pre
            (subst (λ j. Lacks c.mem j p.pre) (sym p.key) p.before))

  pub moved_length : suc (length (p.pre ++ p.post)) ≡ length xs
  moved_length = length_moved n p.pre p.post ∙ ap length (sym p.split)

-- Without a node of the key, no entry has it.
pub no_entry :
    (c : LruCache) (k : ℤ) (xs : List ℕ)
    → Indexed c.cache c.mem xs
    → lookup k c.cache ≡ none
    → Lacks c.mem k xs
no_entry c k xs i e a m = elim (Bool-cases ((c.mem a).key ==ℤ k)) [
  | inl same ↦
      let key : (c.mem a).key ≡ k = (==ℤ_iff (c.mem a).key k).0 same in
      let there = i.there a m in absurd (cc)
  | inr other ↦ other
]

-- Get returns what the list of entries has for the key, or -1, and the cache then has the entry of
-- the key at the front.
pub get-Shows :
    (capacity k : ℤ) (c : LruCache) (es : Entries)
    → Shows capacity c es
    → ((get k c).0 ≡ (get_entry k es).0) × Shows capacity (get k c).1 (get_entry k es).1
get-Shows capacity k c es s = elim (Option-cases (lookup k c.cache)) [
  | inl e ↦
      let entry : find k es ≡ none =
        subst (λ l. find k l ≡ none) s.entries_are
          (find_lacking c.mem k s.nodes (no_entry c k s.nodes s.holds.indexed e)) in
      rw (get_missing c k e, get_entry_missing k es entry) (refl, s)
  | inr (n, e) ↦
      let p = placed c k n s.nodes s.holds e in
      let c' = move_to_head c n in
      let (holds, same) = move_to_head-Holds c n p.pre p.post (subst (Holds c) p.split s.holds) in
      let v = (c.mem n).value in
      let entry : find k es ≡ some v =
        subst (λ l. find k l ≡ some v) s.entries_are (own_value c k n s.nodes p) in
      let rest : without k es ≡ entries c.mem (p.pre ++ p.post) =
        subst (λ l. without k l ≡ entries c.mem (p.pre ++ p.post)) s.entries_are
          (other_entries c k n s.nodes p) in
      let size = moved_length c k n s.nodes p in
      let old_size = sym (length-entries c.mem s.nodes) ∙ ap length s.entries_are in
      rw (get_found c k n e, get_entry_found k v es entry)
        (
          (same n).1,
          record {
            nodes = n ∷ p.pre ++ p.post;
            holds = holds;
            entries_are =
                entries-SameData c.mem c'.mem (n ∷ p.pre ++ p.post) same ∙ rw (p.key, rest) refl;
            fits =
                rw rest
                  (let n = length-entries c.mem (p.pre ++ p.post) in let f = s.fits in omega arith);
            capacity_is = move_to_head_capacity c n ∙ s.capacity_is;
          },
        )
]
