-- ===== src/Trie/Words.antt =====
-- The words of the trie of data-structures/trie.go: Search as the view of a trie, and Insert against it.
use go_algorithm_practice.Prelude.{
  ℕ, ◌≡◌, refl, sym, ◌∙◌, arith, Bool, true, false, ◌&&◌, inl, inr, none, some, [], ◌∷◌, ◌++◌,
  if◌then◌else◌, ◌==◌, Option-cases,
}
use go_algorithm_practice.Trie.{
  Word, Node, node, Children, no_children, child, get, put, remove, empty_node, new_trie, or_empty,
  insert_helper, insert, walk, search, starts_with,
}

abbrev pub eq_word : Word → Word → Bool
eq_word [] [] = true
eq_word [] (d ∷ v) = false
eq_word (c ∷ w) [] = false
eq_word (c ∷ w) (d ∷ v) = (c == d) && eq_word w v

pub get-put :
    (v c : ℕ) (m : Node) (cs : Children)
    → get v (put c m cs) ≡ (if v == c then some m else get v cs)
unfolding get put
get-put v c m no_children = refl
get-put v c m (child d n cs) = ground (arith, get-put v c m cs)

pub get-remove :
    (v c : ℕ) (cs : Children) → get v (remove c cs) ≡ (if v == c then none else get v cs)
unfolding get remove
get-remove v c no_children = ground arith
get-remove v c (child d n cs) = ground (arith, get-remove v c cs)

pub search_empty : (v : Word) → search v empty_node ≡ false
unfolding search walk get
search_empty [] = refl
search_empty (d ∷ v) = refl

-- A search goes on below the child.
pub search_step :
    (d : ℕ) (v : Word) (cs : Children) (b : Bool)
    → search (d ∷ v) (node cs b) ≡ search v (or_empty (get d cs))
unfolding search walk
search_step d v cs b = elim (Option-cases (get d cs)) [
  | inl e ↦ rw (e, walk, search) (sym (search_empty v))
  | inr (m, e) ↦ rw (e, walk, search) refl
]

-- Search in a node with one child replaced.
pub search-put :
    (d c : ℕ) (v : Word) (m : Node) (cs : Children) (b : Bool)
    → search (d ∷ v) (node (put c m cs) b)
      ≡ (if d == c then search v m else search (d ∷ v) (node cs b))
search-put d c v m cs b =
    search_step d v (put c m cs) b ∙ rw (get-put d c m cs, search_step d v cs b) (ground arith)

pub search-remove :
    (d c : ℕ) (v : Word) (cs : Children) (b : Bool)
    → search (d ∷ v) (node (remove c cs) b) ≡ (if d == c then false else search (d ∷ v) (node cs b))
search-remove d c v cs b =
    search_step d v (remove c cs) b
    ∙ rw (get-remove d c cs, search_step d v cs b) (let empty = search_empty v in ground arith)

search-insert_helper :
    (w v : Word) (n : Node)
    → search v (insert_helper w n) ≡ (if eq_word w v then true else search v n)
unfolding insert_helper
search-insert_helper [] [] (node cs b) = unfold search in unfold walk in refl
search-insert_helper [] (d ∷ v) (node cs b) = search_step d v cs true ∙ sym (search_step d v cs b)
search-insert_helper (c ∷ w) [] (node cs b) = unfold search in unfold walk in refl
search-insert_helper (c ∷ w) (d ∷ v) (node cs b) =
    let below = search-insert_helper w v (or_empty (get c cs)) in
    let new = search-put d c v (insert_helper w (or_empty (get c cs))) cs b in
    let old = search_step d v cs b in ground arith

-- After Insert of a word, Search finds it and every word that it found before, and no other.
pub search-insert :
    (w v : Word) (root : Node)
    → search v (insert w root) ≡ (if eq_word w v then true else search v root)
unfolding insert
search-insert w v root = search-insert_helper w v root

-- Search finds no word in a new trie.
pub search-new_trie : (v : Word) → search v new_trie ≡ false
unfolding new_trie
search-new_trie v = search_empty v

-- StartsWith accepts every prefix of a word that Search finds.
pub starts_with-search :
    (p s : Word) (root : Node) → search (p ++ s) root ≡ true → starts_with p root ≡ true
unfolding starts_with walk
starts_with-search [] s n h = refl
starts_with-search (c ∷ p) s (node cs b) h =
    let below = sym (search_step c (p ++ s) cs b) ∙ h in
    elim (Option-cases (get c cs)) [
      | inl e ↦ cc (search_empty (p ++ s), rw e at below)
      | inr (m, e) ↦ rw (e, walk, starts_with) (starts_with-search p s m (rw e at below))
    ]
