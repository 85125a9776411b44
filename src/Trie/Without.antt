-- ===== src/Trie/Without.antt =====
-- What the deletions of data-structures/trie.go do to the words that Search finds: marks taken off,
-- and nodes without a word taken away.
use go_algorithm_practice.Prelude.{
  ℕ, ◌≡◌, refl, sym, ◌∙◌, arith, Bool, true, false, not, ◌&&◌, inl, inr, none, some, [], ◌∷◌,
  if◌then◌else◌, Bool-cases, Option-cases,
}
use go_algorithm_practice.Trie.{
  Word, Node, node, Children, no_children, child, children, is_end, is_empty, get, put, remove,
  walk, search,
}
use go_algorithm_practice.Trie.Paths.{Trail, follow, restore, prune}
use go_algorithm_practice.Trie.Words.{eq_word, search_empty, search_step, search-put, search-remove}

-- The same words are found in both.
abbrev pub Same : Node → Node → Type 0
Same n m = (v : Word) → search v n ≡ search v m

pub search_nil : (cs : Children) (b : Bool) → search [] (node cs b) ≡ b
unfolding search walk
search_nil cs b = refl

pub put-Same :
    (c : ℕ) (n m : Node) (cs : Children) (b : Bool)
    → Same n m
    → Same (node (put c n cs) b) (node (put c m cs) b)
put-Same c n m cs b h [] = search_nil (put c n cs) b ∙ sym (search_nil (put c m cs) b)
put-Same c n m cs b h (d ∷ v) = search-put d c v n cs b ∙ rw (h v) (sym (search-put d c v m cs b))

pub restore-Same : (path : Trail) (n m : Node) → Same n m → Same (restore path n) (restore path m)
unfolding restore
restore-Same [] n m h v = h v
restore-Same ((c, node cs b) ∷ path) n m h v =
    restore-Same path (node (put c n cs) b) (node (put c m cs) b) (put-Same c n m cs b h) v

-- A node with no child that ends no word may go.
pub remove-Same :
    (c : ℕ) (cs : Children) (b : Bool) (n : Node)
    → ((v : Word) → search v n ≡ false)
    → Same (node (remove c cs) b) (node (put c n cs) b)
remove-Same c cs b n h [] = search_nil (remove c cs) b ∙ sym (search_nil (put c n cs) b)
remove-Same c cs b n h (d ∷ v) =
    search-remove d c v cs b ∙ sym (search-put d c v n cs b ∙ rw (h v) refl)

pub childless :
    (n : Node) → (is_empty (children n) && not (is_end n)) ≡ true → (v : Word) → search v n ≡ false
childless (node no_children false) h v = search_empty v
childless (node no_children true) h v = cc
childless (node (child c n cs) b) h v = cc

pub prune-Same : (path : Trail) (n : Node) → Same (prune path n) (restore path n)
unfolding prune restore
prune-Same [] n v = refl
prune-Same ((c, node cs b) ∷ path) n v =
    elim (Bool-cases (is_empty (children n) && not (is_end n))) [
      | inl e ↦ rw e (
          prune-Same path (node (remove c cs) b) v
          ∙ restore-Same path (node (remove c cs) b) (node (put c n cs) b)
              (remove-Same c cs b n (childless n e)) v)
      | inr e ↦ rw e refl
    ]

-- Without a word.
abbrev pub Without : Word → Node → Node → Type 0
Without w old new = (v : Word) → search v new ≡ (if eq_word w v then false else search v old)

pub unmark-Without : (cs : Children) (b : Bool) → Without [] (node cs b) (node cs false)
unmark-Without cs b [] = search_nil cs false
unmark-Without cs b (d ∷ v) = search_step d v cs false ∙ sym (search_step d v cs b)

pub below-Without :
    (c : ℕ) (w : Word) (cs : Children) (b : Bool) (old new : Node)
    → get c cs ≡ some old
    → Without w old new
    → Without (c ∷ w) (node cs b) (node (put c new cs) b)
below-Without c w cs b old new e h [] = search_nil (put c new cs) b ∙ sym (search_nil cs b)
below-Without c w cs b old new e h (d ∷ v) =
    let new_step = search-put d c v new cs b in
    let old_step = search_step d v cs b in let below = h v in ground arith

-- What a descent finds: the node of Search, and, with its mark off, the trie without the word.
pub follow-none : (w : Word) (n : Node) (path : Trail) → follow w n path ≡ none → search w n ≡ false
unfolding follow
follow-none [] n path h = cc
follow-none (c ∷ w) (node cs b) path h = elim (Option-cases (get c cs)) [
  | inl e ↦ search_step c w cs b ∙ rw e (search_empty w)
  | inr (m, e) ↦
      search_step c w cs b ∙ rw e (follow-none w m ((c, node cs b) ∷ path) (rw (e, follow) at h))
]

pub follow-some :
    (w : Word) (n : Node) (path trail : Trail) (cs : Children) (b : Bool)
    → follow w n path ≡ some (node cs b, trail)
    → (search w n ≡ b)
      × ((new : Node) × (restore trail (node cs false) ≡ restore path new) × Without w n new)
unfolding follow restore
follow-some [] n path trail cs b h =
    let found : n ≡ node cs b = cc in
    let same : trail ≡ path = cc in
    rw (found, same) (search_nil cs b, (node cs false, refl, unmark-Without cs b))
follow-some (c ∷ w) (node ds a) path trail cs b h = elim (Option-cases (get c ds)) [
  | inl e ↦ cc (rw (e, follow) at h)
  | inr (m, e) ↦
      let (found, (new, same, without)) =
        follow-some w m ((c, node ds a) ∷ path) trail cs b (rw (e, follow) at h) in
      (
        search_step c w ds a ∙ rw e found,
        (node (put c new ds) a, same, below-Without c w ds a m new e without),
      )
]

pub eq_word-eq : (w v : Word) → eq_word w v ≡ true → w ≡ v
eq_word-eq [] [] h = refl
eq_word-eq [] (d ∷ v) h = cc
eq_word-eq (c ∷ w) [] h = cc
eq_word-eq (c ∷ w) (d ∷ v) h = ground (arith, eq_word-eq w v)

pub absent-Without : (w : Word) (n : Node) → search w n ≡ false → Without w n n
absent-Without w n h v = elim (Bool-cases (eq_word w v)) [
  | inl e ↦ rw e (rw (eq_word-eq w v e) at h)
  | inr e ↦ rw e refl
]
