-- ===== src/Trie/Keys.antt =====
-- The keys of the map of children in data-structures/trie.go: each stands there once, which a Go map
-- gives and the operations keep.
use go_algorithm_practice.Prelude.{
  ℕ, ◌≡◌, refl, sym, ◌∙◌, arith, Bool, true, false, not, ◌&&◌, inl, inr, Option, none, some, [],
  ◌∷◌, ◌==◌, Bool-cases, Option-cases, length,
}
use go_algorithm_practice.Trie.{
  Word, Node, node, Children, no_children, child, children, is_end, is_empty, get, put, remove,
  new_trie, or_empty, insert_helper, insert, byte_len, delete,
}
use go_algorithm_practice.Trie.Paths.{
  Trail, follow, restore, prune, length_le_byte_len, delete_absent, delete_unmarked, delete_marked,
  delete_wide,
}
use go_algorithm_practice.Trie.Words.{get-put, get-remove}

abbrev mutual
  pub HasKeysOnce : Node → Type 0
  HasKeysOnce (node cs b) = KeysOnce cs

  pub KeysOnce : Children → Type 0
  KeysOnce no_children = Unit
  KeysOnce (child c n cs) = (get c cs ≡ none) × HasKeysOnce n × KeysOnce cs

pub KeysOnce-get : (c : ℕ) (cs : Children) → KeysOnce cs → HasKeysOnce (or_empty (get c cs))
unfolding get
KeysOnce-get c no_children h = tt
KeysOnce-get c (child d n cs) h = elim (Bool-cases (c == d)) [
  | inl e ↦ rw e (h.1)
  | inr e ↦ rw e (KeysOnce-get c cs h.2)
]

KeysOnce-put :
    (c : ℕ) (m : Node) (cs : Children) → HasKeysOnce m → KeysOnce cs → KeysOnce (put c m cs)
unfolding put
KeysOnce-put c m no_children k h = (unfold get in refl, k, tt)
KeysOnce-put c m (child d n cs) k h = elim (Bool-cases (c == d)) [
  | inl e ↦ rw e (h.0, k, h.2)
  | inr e ↦
      let apart : (d == c) ≡ false = ground arith in
      rw e (get-put d c m cs ∙ rw apart h.0, h.1, KeysOnce-put c m cs k h.2)
]

KeysOnce-remove : (c : ℕ) (cs : Children) → KeysOnce cs → KeysOnce (remove c cs)
unfolding remove
KeysOnce-remove c no_children h = tt
KeysOnce-remove c (child d n cs) h = elim (Bool-cases (c == d)) [
  | inl e ↦ rw e (KeysOnce-remove c cs h.2)
  | inr e ↦
      let apart : (d == c) ≡ false = ground arith in
      rw e (get-remove d c cs ∙ rw apart h.0, h.1, KeysOnce-remove c cs h.2)
]

insert_helper-HasKeysOnce : (w : Word) (n : Node) → HasKeysOnce n → HasKeysOnce (insert_helper w n)
unfolding insert_helper
insert_helper-HasKeysOnce [] (node cs b) h = h
insert_helper-HasKeysOnce (c ∷ w) (node cs b) h =
    KeysOnce-put c (insert_helper w (or_empty (get c cs))) cs
      (insert_helper-HasKeysOnce w (or_empty (get c cs)) (KeysOnce-get c cs h)) h

abbrev AllOnPath : Trail → Type 0
AllOnPath [] = Unit
AllOnPath ((c, n) ∷ path) = HasKeysOnce n × AllOnPath path

restore-HasKeysOnce :
    (path : Trail) (n : Node) → AllOnPath path → HasKeysOnce n → HasKeysOnce (restore path n)
unfolding restore
restore-HasKeysOnce [] n a h = h
restore-HasKeysOnce ((c, node cs b) ∷ path) n a h =
    restore-HasKeysOnce path (node (put c n cs) b) a.1 (KeysOnce-put c n cs h a.0)

prune-HasKeysOnce :
    (path : Trail) (n : Node) → AllOnPath path → HasKeysOnce n → HasKeysOnce (prune path n)
unfolding prune
prune-HasKeysOnce [] n a h = h
prune-HasKeysOnce ((c, node cs b) ∷ path) n a h =
    elim (Bool-cases (is_empty (children n) && not (is_end n))) [
      | inl e ↦ rw e (prune-HasKeysOnce path (node (remove c cs) b) a.1 (KeysOnce-remove c cs a.0))
      | inr e ↦ rw e (restore-HasKeysOnce ((c, node cs b) ∷ path) n a h)
    ]

follow-HasKeysOnce :
    (w : Word) (n : Node) (path : Trail) (m : Node) (trail : Trail)
    → HasKeysOnce n
    → AllOnPath path
    → follow w n path ≡ some (m, trail)
    → HasKeysOnce m × AllOnPath trail
unfolding follow
follow-HasKeysOnce [] n path m trail h a e =
    let found : m ≡ n = cc in let same : trail ≡ path = cc in rw (found, same) (h, a)
follow-HasKeysOnce (c ∷ w) (node cs b) path m trail h a e = elim (Option-cases (get c cs)) [
  | inl g ↦ cc (rw (g, follow) at e)
  | inr (k, g) ↦
      follow-HasKeysOnce w k ((c, node cs b) ∷ path) m trail (rw g at (KeysOnce-get c cs h)) (h, a)
        (rw (g, follow) at e)
]

-- Delete that does not panic leaves a trie with each key once.
pub delete-HasKeysOnce :
    (w : Word) (root new : Node) (found : Bool)
    → HasKeysOnce root
    → delete w root ≡ some (found, new)
    → HasKeysOnce new
unfolding delete
delete-HasKeysOnce w root new found h e = go (follow w root []) refl
  where
    go : (end : Option (Node × Trail)) → follow w root [] ≡ end → HasKeysOnce new
    go none d = let same : root ≡ new = cc (delete_absent w root d) in rw (sym same) h
    go (some (node cs false, trail)) d =
        let same : root ≡ new = cc (delete_unmarked w root cs trail d) in rw (sym same) h
    go (some (node cs true, trail)) d =
        let there = follow-HasKeysOnce w root [] (node cs true) trail h tt d in
        elim (Bool-cases (byte_len w == length w)) [
          | inl b ↦
              let same : prune trail (node cs false) ≡ new =
                cc (delete_marked w root cs trail (ground arith) d) in
              rw (sym same) (prune-HasKeysOnce trail (node cs false) there.1 there.0)
          | inr b ↦
              let bytes = length_le_byte_len w in cc (delete_wide w root cs trail (ground arith) d)
        ]

pub new_trie-HasKeysOnce : HasKeysOnce new_trie
unfolding new_trie
new_trie-HasKeysOnce = tt

pub insert-HasKeysOnce : (w : Word) (root : Node) → HasKeysOnce root → HasKeysOnce (insert w root)
unfolding insert
insert-HasKeysOnce w root h = insert_helper-HasKeysOnce w root h
