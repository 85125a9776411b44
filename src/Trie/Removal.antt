-- ===== src/Trie/Removal.antt =====
-- Delete of data-structures/trie.go against Search: the iterative deletion with its path, and the
-- recursive one.
use go_algorithm_practice.Prelude.{
  ltb, ◌<◌, ◌+◌, ℕ, ◌≡◌, ◌≢◌, refl, sym, ap, ◌∙◌, arith, Bool, true, false, not, ◌&&◌, inl, inr,
  Option, none, some, [], ◌∷◌, ◌==◌, Option-cases, length,
}
use go_algorithm_practice.Trie.{
  Word, Node, node, Children, is_empty, get, put, remove, byte_len, search, delete,
  delete_recursive,
}
use go_algorithm_practice.Trie.Paths.{
  Trail, follow, restore, prune, length_le_byte_len, delete_absent, delete_unmarked, delete_marked,
  delete_wide,
}
use go_algorithm_practice.Trie.Words.{search_empty, search_step}
use go_algorithm_practice.Trie.Without.{
  search_nil, remove-Same, childless, prune-Same, Without, unmark-Without, below-Without,
  follow-none, follow-some, absent-Without,
}

-- Delete of a word whose runes are one byte each reports whether Search finds it, and after it
-- Search finds the other words that it found before, and no other. Delete does not panic on such a
-- word.
pub delete-Without :
    (w : Word) (root : Node)
    → byte_len w ≡ length w
    → (new : Node) × (delete w root ≡ some (search w root, new)) × Without w root new
unfolding delete restore
delete-Without w root h = go (follow w root []) refl
  where
    go :
        (found : Option (Node × Trail))
        → follow w root [] ≡ found
        → (new : Node) × (delete w root ≡ some (search w root, new)) × Without w root new
    go none e =
        let gone = follow-none w root [] e in
        (
          root,
          delete_absent w root e ∙ ap (λ b. some (b, root)) (sym gone),
          absent-Without w root gone,
        )
    go (some (node cs false, trail)) e =
        let gone = (follow-some w root [] trail cs false e).0 in
        (
          root,
          delete_unmarked w root cs trail e ∙ ap (λ b. some (b, root)) (sym gone),
          absent-Without w root gone,
        )
    go (some (node cs true, trail)) e =
        let (found, (new, same, without)) = follow-some w root [] trail cs true e in
        let pruned = prune trail (node cs false) in
        (
          pruned,
          delete_marked w root cs trail h e ∙ ap (λ b. some (b, pruned)) (sym found),
          λ v. prune-Same trail (node cs false) v ∙ rw (same, restore) (without v),
        )

-- Delete of a word that Search finds panics if a rune of it takes more than one byte.
pub delete-panics :
    (w : Word) (root : Node) → search w root ≡ true → byte_len w ≢ length w → delete w root ≡ none
unfolding delete
delete-panics w root h more = go (follow w root []) refl
  where
    go : (found : Option (Node × Trail)) → follow w root [] ≡ found → delete w root ≡ none
    go none e = cc (follow-none w root [] e)
    go (some (node cs false, trail)) e = cc ((follow-some w root [] trail cs false e).0)
    go (some (node cs true, trail)) e =
        let bytes = length_le_byte_len w in delete_wide w root cs trail (omega arith) e

-- What DeleteRecursive of a word of single bytes returns at a node: whether the word is there, and
-- the node without it, which has no word at all if the parent is to delete it.
abbrev pub Deletes : Word → Node → Option (Bool × Bool × Node) → Type 0
Deletes w n r =
    (flag : Bool) × (new : Node) × (r ≡ some (search w n, flag, new))
    × Without w n new
    × (flag ≡ true → (v : Word) → search v new ≡ false)

-- DeleteRecursive at a node for the runes from `pos` on, of a word of `len` bytes.
abbrev DeletesFrom : ℕ → ℕ → Word → Node → Type 0
DeletesFrom len pos w n = Deletes w n (delete_recursive len pos w n)

recursive_step :
    (len pos c : ℕ) (w : Word) (cs : Children) (b : Bool) (m : Node)
    → pos < len
    → get c cs ≡ some m
    → DeletesFrom len (pos + 1) w m
    → DeletesFrom len pos (c ∷ w) (node cs b)
unfolding delete_recursive
recursive_step len pos c w cs b m inside e (flag, new, returned, without, empty) =
    go flag (search w m) refl returned empty
  where
    low : ltb len pos ≡ false
    low = ground arith

    apart : (len == pos) ≡ false
    apart = ground arith

    go :
        (f found : Bool)
        → search w m ≡ found
        → delete_recursive len (pos + 1) w m ≡ some (search w m, f, new)
        → (f ≡ true → (v : Word) → search v new ≡ false)
        → DeletesFrom len pos (c ∷ w) (node cs b)
    go f false here r gone =
        let found : search (c ∷ w) (node cs b) ≡ false = search_step c w cs b ∙ rw e here in
        let r' = rw here at r in
        (
          false,
          node (put c new cs) b,
          rw (low, delete_recursive, apart, e, r', found) refl,
          below-Without c w cs b m new e without,
          λ k. cc,
        )
    go false true here r gone =
        let found : search (c ∷ w) (node cs b) ≡ true = search_step c w cs b ∙ rw e here in
        let r' = rw here at r in
        (
          false,
          node (put c new cs) b,
          rw (low, delete_recursive, apart, e, r', found) refl,
          below-Without c w cs b m new e without,
          λ k. cc,
        )
    go true true here r gone =
        let found : search (c ∷ w) (node cs b) ≡ true = search_step c w cs b ∙ rw e here in
        let r' = rw here at r in
        (
          is_empty (remove c cs) && not b,
          node (remove c cs) b,
          rw (low, delete_recursive, apart, e, r', found) refl,
          λ v. remove-Same c cs b new (gone refl) v ∙ below-Without c w cs b m new e without v,
          childless (node (remove c cs) b),
        )

recursive_end : (len : ℕ) (n : Node) → DeletesFrom len len [] n
unfolding delete_recursive
recursive_end len (node cs b) = go b refl
  where
    low : ltb len len ≡ false
    low = ground arith

    same : (len == len) ≡ true
    same = ground arith

    go : (a : Bool) → b ≡ a → DeletesFrom len len [] (node cs b)
    go true e = (
      is_empty cs,
      node cs false,
      rw (low, delete_recursive, same, e) (rw (search_nil cs true) refl),
      unmark-Without cs b,
      λ k. childless (node cs false) (rw k refl),
    )
    go false e = (
      false,
      node cs b,
      rw (low, delete_recursive, same, e) (rw (search_nil cs false) refl),
      rw e (unmark-Without cs false),
      λ k. cc,
    )

recursive_from :
    (len pos : ℕ) (w : Word) (n : Node) → pos + length w ≡ len → DeletesFrom len pos w n
recursive_from len pos [] n size =
    let here : len ≡ pos = omega arith in rw here (recursive_end pos n)
recursive_from len pos (c ∷ w) (node cs b) size = elim (Option-cases (get c cs)) [
  | inl e ↦
      let found : search (c ∷ w) (node cs b) ≡ false =
        search_step c w cs b ∙ rw e (search_empty w) in
      let low : ltb len pos ≡ false = ground arith in
      let apart : (len == pos) ≡ false = ground arith in
      (
        false,
        node cs b,
        unfold delete_recursive in rw (low, delete_recursive, apart, e, found) refl,
        absent-Without (c ∷ w) (node cs b) found,
        λ k. cc,
      )
  | inr (m, e) ↦
      recursive_step len pos c w cs b m (omega arith) e
        (recursive_from len (pos + 1) w m (omega arith))
]

-- DeleteRecursive of a word whose runes are one byte each, called at a node with the position 0,
-- reports whether Search finds the word and leaves the other words that it finds, like Delete. It asks
-- for the deletion of the node only if the node has no word left.
pub delete_recursive-Deletes :
    (w : Word) (n : Node)
    → byte_len w ≡ length w
    → Deletes w n (delete_recursive (byte_len w) 0 w n)
delete_recursive-Deletes w n bytes = recursive_from (byte_len w) 0 w n (omega arith)
