-- ===== src/Trie/Completion.antt =====
-- FindAllWithPrefix of data-structures/trie.go against Search.
use go_algorithm_practice.Prelude.{
  ℕ, ◌≡◌, ◌⊎◌, ◌↔◌, refl, sym, ◌∙◌, arith, Bool, true, false, inl, inr, Option, none, some, List,
  [], ◌∷◌, ◌++◌, append_assoc, append-nil, ◌==◌, Bool-cases, Option-cases,
}
use go_algorithm_practice.Trie.{
  Word, Node, node, Children, no_children, child, get, walk, search, find_suffixes,
  find_in_children, find_all_with_prefix,
}
use go_algorithm_practice.Trie.Words.{search_empty, search_step}
use go_algorithm_practice.Trie.Keys.{HasKeysOnce, KeysOnce, KeysOnce-get}

abbrev pub Among : Word → List Word → Type 0
Among w [] = false ≡ true
Among w (v ∷ vs) = (w ≡ v) ⊎ Among w vs

Among-append_left : (w : Word) (us vs : List Word) → Among w us → Among w (us ++ vs)
Among-append_left w [] vs h = cc
Among-append_left w (u ∷ us) vs (inl e) = inl e
Among-append_left w (u ∷ us) vs (inr h) = inr (Among-append_left w us vs h)

Among-append_right : (w : Word) (us vs : List Word) → Among w vs → Among w (us ++ vs)
Among-append_right w [] vs h = h
Among-append_right w (u ∷ us) vs h = inr (Among-append_right w us vs h)

Among-child :
    (w p : Word) (d : ℕ) (m : Node) (cs : Children)
    → get d cs ≡ some m
    → Among w (find_suffixes (p ++ d ∷ []) m)
    → Among w (find_in_children p cs)
unfolding find_suffixes get
Among-child w p d m no_children e h = cc
Among-child w p d m (child c n cs) e h = elim (Bool-cases (d == c)) [
  | inl same ↦
      let key : c ≡ d = ground arith in
      let at_head : n ≡ m = ground arith in
      Among-append_left w (find_suffixes (p ++ c ∷ []) n) (find_in_children p cs)
        (rw (key, at_head) h)
  | inr other ↦
      let rest : get d cs ≡ some m = ground arith in
      Among-append_right w (find_suffixes (p ++ c ∷ []) n) (find_in_children p cs)
        (Among-child w p d m cs rest h)
]

Among-node :
    (w p : Word) (cs : Children) (b : Bool)
    → Among w (find_in_children p cs)
    → Among w (find_suffixes p (node cs b))
unfolding find_suffixes
Among-node w p cs true h = inr h
Among-node w p cs false h = h

find_suffixes-Among :
    (s p : Word) (n : Node) → search s n ≡ true → Among (p ++ s) (find_suffixes p n)
unfolding search walk find_suffixes
find_suffixes-Among [] p (node cs true) h = inl (append-nil p)
find_suffixes-Among [] p (node cs false) h = cc
find_suffixes-Among (d ∷ s) p (node cs b) h =
    let below = sym (search_step d s cs b) ∙ h in
    elim (Option-cases (get d cs)) [
      | inl e ↦ cc (search_empty s, rw e at below)
      | inr (m, e) ↦
          let deeper = find_suffixes-Among s (p ++ d ∷ []) m (rw e at below) in
          Among-node (p ++ d ∷ s) p cs b
            (Among-child (p ++ d ∷ s) p d m cs e (rw (append_assoc p (d ∷ []) s) at deeper))
    ]

-- What is found below a node, and below its children, is a word of Search with the prefix in front.
abbrev Suffix : Word → Word → Node → Type 0
Suffix w p n = (s : Word) × (w ≡ p ++ s) × (search s n ≡ true)

abbrev ChildSuffix : Word → Word → Children → Type 0
ChildSuffix w p cs = (d : ℕ) × (m : Node) × (get d cs ≡ some m) × Suffix w (p ++ d ∷ []) m

Among-split : (w : Word) (us vs : List Word) → Among w (us ++ vs) → Among w us ⊎ Among w vs
Among-split w [] vs h = inr h
Among-split w (u ∷ us) vs (inl e) = inl (inl e)
Among-split w (u ∷ us) vs (inr h) = elim (Among-split w us vs h) [
  | inl k ↦ inl (inr k)
  | inr k ↦ inr k
]

at_head :
    (w p : Word) (c : ℕ) (n : Node) (cs : Children)
    → Suffix w (p ++ c ∷ []) n
    → ChildSuffix w p (child c n cs)
unfolding get
at_head w p c n cs h = let same : (c == c) ≡ true = ground arith in (c, n, rw same refl, h)

in_tail :
    (w p : Word) (c : ℕ) (n : Node) (cs : Children)
    → get c cs ≡ none
    → ChildSuffix w p cs
    → ChildSuffix w p (child c n cs)
unfolding get
in_tail w p c n cs fresh (d, m, e, h) = elim (Bool-cases (d == c)) [
  | inl same ↦ let key : d ≡ c = ground arith in cc (rw key at e)
  | inr other ↦ (d, m, rw other e, h)
]

child_Suffix : (w p : Word) (cs : Children) (b : Bool) → ChildSuffix w p cs → Suffix w p (node cs b)
child_Suffix w p cs b (d, m, e, (s, form, found)) =
    (d ∷ s, form ∙ append_assoc p (d ∷ []) s, search_step d s cs b ∙ rw e found)

mutual
  unfolding find_suffixes search walk

  find_suffixes-Suffix :
      (n : Node) (w p : Word) → HasKeysOnce n → Among w (find_suffixes p n) → Suffix w p n
  find_suffixes-Suffix (node cs true) w p k (inl e) = ([], e ∙ sym (append-nil p), refl)
  find_suffixes-Suffix (node cs true) w p k (inr h) =
      child_Suffix w p cs true (find_in_children-ChildSuffix cs w p k h)
  find_suffixes-Suffix (node cs false) w p k h =
      child_Suffix w p cs false (find_in_children-ChildSuffix cs w p k h)

  find_in_children-ChildSuffix :
      (cs : Children) (w p : Word)
      → KeysOnce cs
      → Among w (find_in_children p cs)
      → ChildSuffix w p cs
  find_in_children-ChildSuffix no_children w p k h = cc
  find_in_children-ChildSuffix (child c n cs) w p k h =
      elim (Among-split w (find_suffixes (p ++ c ∷ []) n) (find_in_children p cs) h) [
        | inl a ↦ at_head w p c n cs (find_suffixes-Suffix n w (p ++ c ∷ []) k.1 a)
        | inr a ↦ in_tail w p c n cs k.0 (find_in_children-ChildSuffix cs w p k.2 a)
      ]

-- The node that the prefix leads to.
walk-none : (p s : Word) (n : Node) → walk p n ≡ none → search (p ++ s) n ≡ false
unfolding walk
walk-none [] s n e = cc
walk-none (c ∷ p) s (node cs b) e = elim (Option-cases (get c cs)) [
  | inl g ↦ search_step c (p ++ s) cs b ∙ rw g (search_empty (p ++ s))
  | inr (m, g) ↦ search_step c (p ++ s) cs b ∙ rw g (walk-none p s m (rw (g, walk) at e))
]

walk-some :
    (p : Word) (n m : Node)
    → HasKeysOnce n
    → walk p n ≡ some m
    → HasKeysOnce m × ((s : Word) → search (p ++ s) n ≡ search s m)
unfolding walk
walk-some [] n m k e = let same : n ≡ m = cc in rw (sym same) (k, λ s. refl)
walk-some (c ∷ p) (node cs b) m k e = elim (Option-cases (get c cs)) [
  | inl g ↦ cc (rw (g, walk) at e)
  | inr (l, g) ↦
      let (keys, found) = walk-some p l m (rw g at (KeysOnce-get c cs k)) (rw (g, walk) at e) in
      (keys, λ s. search_step c (p ++ s) cs b ∙ rw g (found s))
]

-- FindAllWithPrefix of a trie that has each key once returns exactly the words with the prefix that
-- Search finds.
pub find_all_with_prefix_iff :
    (p w : Word) (root : Node)
    → HasKeysOnce root
    → Among w (find_all_with_prefix p root) ↔ ((s : Word) × (w ≡ p ++ s) × (search w root ≡ true))
unfolding find_all_with_prefix
find_all_with_prefix_iff p w root k = go (walk p root) refl
  where
    go :
        (end : Option Node)
        → walk p root ≡ end
        → Among w (find_all_with_prefix p root)
          ↔ ((s : Word) × (w ≡ p ++ s) × (search w root ≡ true))
    go none e = (
      λ h. cc (rw (e, find_all_with_prefix) at h),
      λ (s, form, found). cc (walk-none p s root e, rw form at found),
    )
    go (some n) e =
        let (keys, same) = walk-some p root n k e in
        (
          λ h.
              let (s, form, found) =
                find_suffixes-Suffix n w p keys (rw (e, find_all_with_prefix) at h) in
              (s, form, rw form (same s ∙ found)),
          λ (s, form, found).
              rw (e, find_all_with_prefix, form)
                (find_suffixes-Among s p n (sym (same s) ∙ rw form at found)),
        )
