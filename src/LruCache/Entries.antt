-- ===== src/LruCache/Entries.antt =====
-- The abstract view of the cache of data-structures/lru-cache.go: its entries, the most recently used
-- first, each a key and a value.
use go_algorithm_practice.Prelude.Addresses.{has}
use go_algorithm_practice.Prelude.{
  ℕ, suc, ◌≡◌, refl, ap, arith, true, false, inl, inr, Option, none, some, List, [], ◌∷◌, ◌++◌,
  if◌then◌else◌, ◌==◌, length, take, Bool-cases,
}
use go_algorithm_practice.Prelude.Int.{ℤ, negsuc, pos_part, ◌==ℤ◌, ==ℤ_refl}
use go_algorithm_practice.LruCache.{Memory}
use go_algorithm_practice.LruCache.Moves.{SameData}

abbrev pub Entries : Type 0
Entries = List (ℤ × ℤ)

abbrev pub find : ℤ → Entries → Option ℤ
find k [] = none
find k ((j, v) ∷ es) = if k ==ℤ j then some v else find k es

abbrev pub without : ℤ → Entries → Entries
without k [] = []
without k ((j, v) ∷ es) = if k ==ℤ j then without k es else (j, v) ∷ without k es

-- Get: the value, or -1, and the entry moved to the front.
unfoldable pub get_entry : ℤ → Entries → ℤ × Entries
get_entry k es = elim (find k es) [ none ↦ (negsuc 0, es) | some v ↦ (v, (k, v) ∷ without k es) ]

-- Put: the entry at the front, in place of one of its key, and no more entries than the capacity.
unfoldable pub put_entry : ℤ → ℤ → ℤ → Entries → Entries
put_entry capacity k v es = take (pos_part capacity) ((k, v) ∷ without k es)

abbrev pub entries : Memory → List ℕ → Entries
entries h [] = []
entries h (a ∷ xs) = ((h a).key, (h a).value) ∷ entries h xs

pub entries-SameData : (h g : Memory) (xs : List ℕ) → SameData h g → entries g xs ≡ entries h xs
entries-SameData h g [] s = refl
entries-SameData h g (a ∷ xs) s = rw ((s a).0, (s a).1, entries-SameData h g xs s) refl

pub length-entries : (h : Memory) (xs : List ℕ) → length (entries h xs) ≡ length xs
length-entries h [] = refl
length-entries h (a ∷ xs) = ap suc (length-entries h xs)

-- No node of the list has the key.
abbrev pub Lacks : Memory → ℤ → List ℕ → Type 0
Lacks h k xs = (a : ℕ) → has a xs ≡ true → ((h a).key ==ℤ k) ≡ false

pub find_lacking : (h : Memory) (k : ℤ) (xs : List ℕ) → Lacks h k xs → find k (entries h xs) ≡ none
find_lacking h k [] l = refl
find_lacking h k (a ∷ xs) l =
    let here = l a (ground arith) in
    let other : (k ==ℤ (h a).key) ≡ false = ground arith in
    rw other (find_lacking h k xs (λ b i. l b (ground arith)))

pub without_lacking :
    (h : Memory) (k : ℤ) (xs : List ℕ) → Lacks h k xs → without k (entries h xs) ≡ entries h xs
without_lacking h k [] l = refl
without_lacking h k (a ∷ xs) l =
    let here = l a (ground arith) in
    let other : (k ==ℤ (h a).key) ≡ false = ground arith in
    rw other
      (ap (◌∷◌ ((h a).key, (h a).value)) (without_lacking h k xs (λ b i. l b (ground arith))))

-- The entry of the node `n` is the only one of its key.
module _ (h : Memory) (n : ℕ) (post : List ℕ) (after : Lacks h (h n).key post) where
  pub find_at :
      (pre : List ℕ)
      → Lacks h (h n).key pre
      → find (h n).key (entries h (pre ++ n ∷ post)) ≡ some (h n).value
  find_at [] l = rw (==ℤ_refl (h n).key) refl
  find_at (a ∷ pre) l =
      let here = l a (ground arith) in
      let other : ((h n).key ==ℤ (h a).key) ≡ false = ground arith in
      rw other (find_at pre (λ b i. l b (ground arith)))

  pub without_at :
      (pre : List ℕ)
      → Lacks h (h n).key pre
      → without (h n).key (entries h (pre ++ n ∷ post)) ≡ entries h (pre ++ post)
  without_at [] l = rw (==ℤ_refl (h n).key) (without_lacking h (h n).key post after)
  without_at (a ∷ pre) l =
      let here = l a (ground arith) in
      let other : ((h n).key ==ℤ (h a).key) ≡ false = ground arith in
      rw other (ap (◌∷◌ ((h a).key, (h a).value)) (without_at pre (λ b i. l b (ground arith))))

-- A node of a list splits it.
pub has-split :
    (n : ℕ) (xs : List ℕ)
    → has n xs ≡ true
    → (pre : List ℕ) × (post : List ℕ) × (xs ≡ pre ++ n ∷ post)
has-split n [] i = absurd (cc)
has-split n (a ∷ xs) i = elim (Bool-cases (n == a)) [
  | inl e ↦ let same : a ≡ n = ground arith in ([], xs, ap (λ b. b ∷ xs) same)
  | inr o ↦ let (pre, post, e) = has-split n xs (ground arith) in (a ∷ pre, post, ap (◌∷◌ a) e)
]
