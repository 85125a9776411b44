-- ===== src/Trie/Paths.antt =====
-- The search path of DeleteIterative in data-structures/trie.go as a trail: each parent with the rune
-- that was followed, the last first. The loops of the code read the path by an index; here they are
-- the same loops on the trail.
use go_algorithm_practice.Prelude.{
  ℕ, zero, suc, ◌+◌, ◌<◌, ◌≤◌, ◌≡◌, refl, sym, ap, ◌∙◌, arith, true, false, not, ◌&&◌, inl, inr,
  Option, none, some, List, [], ◌∷◌, ◌++◌, if◌then◌else◌, length, length-append, get_elem?,
  Bool-cases, Option-cases,
}
use go_algorithm_practice.Trie.{
  Word, Node, node, Children, children, is_end, is_empty, get, put, remove, rune_len, byte_len,
  descend, rebuild, delete_up, delete_iterative,
}

abbrev pub Trail : Type 0
Trail = List (ℕ × Node)

unfoldable pub follow : Word → Node → Trail → Option (Node × Trail)
unfolding get
follow [] n trail = some (n, trail)
follow (val ∷ word) (node cs b) trail = elim (get val cs) [
  | none ↦ none
  | some m ↦ follow word m ((val, node cs b) ∷ trail)
]

unfoldable pub restore : Trail → Node → Node
unfolding put
restore [] n = n
restore ((val, node cs b) ∷ trail) n = restore trail (node (put val n cs) b)

unfoldable pub prune : Trail → Node → Node
unfolding remove restore
prune [] n = n
prune ((val, node cs b) ∷ trail) n =
    if is_empty (children n) && not (is_end n)
    then prune trail (node (remove val cs) b)
    else restore ((val, node cs b) ∷ trail) n

-- The word and the path read at each index what the trail has there.
abbrev Reads : Word → List Node → Trail → Type 0
Reads word path [] = Unit
Reads word path ((c, n) ∷ trail) =
    (get_elem? word (length trail) ≡ some c)
    × (get_elem? path (length trail) ≡ some n)
    × Reads word path trail

rebuild-restore :
    (word : Word) (path : List Node) (trail : Trail) (n : Node)
    → Reads word path trail
    → rebuild word path (length trail) n ≡ some (restore trail n)
unfolding rebuild restore
rebuild-restore word path [] n r = refl
rebuild-restore word path ((c, node cs b) ∷ trail) n (rune, parent, r) =
    rw (rune, rebuild)
      (rw (parent, rebuild) (rebuild-restore word path trail (node (put c n cs) b) r))

delete_up-prune :
    (word : Word) (path : List Node) (trail : Trail) (n : Node)
    → Reads word path trail
    → delete_up word path (length trail) n ≡ some (prune trail n)
unfolding delete_up prune
delete_up-prune word path [] n r = refl
delete_up-prune word path ((c, node cs b) ∷ trail) n (rune, parent, r) =
    elim (Bool-cases (is_empty (children n) && not (is_end n))) [
      | inl e ↦
          rw (rune, delete_up)
            (rw (parent, delete_up)
              (rw (e, delete_up) (delete_up-prune word path trail (node (remove c cs) b) r)))
      | inr e ↦
          rw (rune, delete_up)
            (rw (parent, delete_up)
              (rw (e, delete_up)
                (rebuild-restore word path ((c, node cs b) ∷ trail) n (rune, parent, r))))
    ]

get_elem?-append :
    (xs ys : List Node) (i : ℕ) (n : Node)
    → get_elem? xs i ≡ some n
    → get_elem? (xs ++ ys) i ≡ some n
get_elem?-append [] ys i n e = cc
get_elem?-append (x ∷ xs) ys zero n e = e
get_elem?-append (x ∷ xs) ys (suc i) n e = get_elem?-append xs ys i n e

get_elem?-last : (xs : List Node) (n : Node) → get_elem? (xs ++ n ∷ []) (length xs) ≡ some n
get_elem?-last [] n = refl
get_elem?-last (x ∷ xs) n = get_elem?-last xs n

Reads-append :
    (word : Word) (path more : List Node) (trail : Trail)
    → Reads word path trail
    → Reads word (path ++ more) trail
Reads-append word path more [] r = tt
Reads-append word path more ((c, n) ∷ trail) (rune, parent, r) =
    (rune, get_elem?-append path more (length trail) n parent, Reads-append word path more trail r)

-- The path of a descent that has reached a node reads as the trail does.
record Reached (word : Word) (n : Node) (path : List Node) (trail : Trail) : Type 0 where
  reads : Reads word path trail
  here : get_elem? path (length trail) ≡ some n
  size : length path ≡ suc (length trail)

Reached-step :
    (word : Word) (c : ℕ) (n m : Node) (path : List Node) (trail : Trail)
    → get_elem? word (length trail) ≡ some c
    → Reached word n path trail
    → Reached word m (path ++ m ∷ []) ((c, n) ∷ trail)
Reached-step word c n m path trail rune r =
    let size = r.size in
    let last = get_elem?-last path m in
    record {
      reads = (
        rune,
        get_elem?-append path (m ∷ []) (length trail) n r.here,
        Reads-append word path (m ∷ []) trail r.reads,
      );
      here = ap (get_elem? (path ++ m ∷ [])) (sym size) ∙ last;
      size = length-append path (m ∷ []) ∙ omega arith;
    }

-- Both descents find the same node.
record Descent (whole word : Word) (n : Node) (path : List Node) (trail : Trail) : Type 0 where
  absent : follow word n trail ≡ none → descend word n path ≡ none
  found :
      (last : Node) (t : Trail)
      → follow word n trail ≡ some (last, t)
      → (p : List Node) × (descend word n path ≡ some (last, p))
        × Reads whole p t
        × (length t ≡ length trail + length word)

descent :
    (whole word : Word) (n : Node) (path : List Node) (trail : Trail)
    → ((j : ℕ) → get_elem? whole (length trail + j) ≡ get_elem? word j)
    → Reached whole n path trail
    → Descent whole word n path trail
unfolding descend follow
descent whole [] n path trail rest r = record {
  absent = λ e. cc;
  found = λ last t e.
      let here : n ≡ last = cc in
      let same : trail ≡ t = cc in
      (path, rw here refl, rw (sym same) r.reads, rw (sym same) (omega arith));
}
descent whole (c ∷ word) (node cs b) path trail rest r = elim (Option-cases (get c cs)) [
  | inl g ↦ record {
    absent = λ e. rw (g, descend) refl;
    found = λ last t e. cc (rw (g, follow) at e);
  }
  | inr (m, g) ↦
      let k = length trail in
      let first : k ≡ k + 0 = omega arith in
      let rune : get_elem? whole k ≡ some c = ap (get_elem? whole) first ∙ rest 0 in
      let d =
        descent whole word m (path ++ m ∷ []) ((c, node cs b) ∷ trail)
          (λ j.
            let next : suc k + j ≡ k + suc j = omega arith in
            ap (get_elem? whole) next ∙ rest (suc j))
          (Reached-step whole c (node cs b) m path trail rune r) in
      record {
        absent = λ e. rw (g, descend) (d.absent (rw (g, follow) at e));
        found = λ last t e.
            let (p, e', reads, size) = d.found last t (rw (g, follow) at e) in
            (p, rw (g, descend) e', reads, size ∙ omega arith);
      }
]

from_root : (w : Word) (root : Node) → Descent w w root (root ∷ []) []
from_root w root =
    descent w w root (root ∷ []) [] (λ j. ap (get_elem? w) (omega arith))
      (record { reads = tt; here = refl; size = refl })

pub length_le_byte_len : (w : Word) → length w ≤ byte_len w
length_le_byte_len [] = omega arith
length_le_byte_len (c ∷ w) =
    let rest = length_le_byte_len w in let some_byte : 0 < rune_len c = ground arith in omega arith

get_elem?-beyond : (w : Word) (i : ℕ) → length w ≤ i → get_elem? w i ≡ none
get_elem?-beyond [] i h = refl
get_elem?-beyond (c ∷ w) zero h = absurd (omega arith)
get_elem?-beyond (c ∷ w) (suc i) h = get_elem?-beyond w i (omega arith)

-- The loop up the path reads the word out of range.
delete_up-beyond :
    (w : Word) (path : List Node) (i : ℕ) (n : Node) → length w < i → delete_up w path i n ≡ none
unfolding delete_up
delete_up-beyond w path zero n h = absurd (omega arith)
delete_up-beyond w path (suc i) n h = rw (get_elem?-beyond w i (omega arith), delete_up) refl

module _ (w : Word) (root : Node) where
  pub delete_absent : follow w root [] ≡ none → delete_iterative w root ≡ some (false, root)
  unfolding delete_iterative
  delete_absent e = rw ((from_root w root).absent e, delete_iterative) refl

  module _ (cs : Children) (t : Trail) where
    pub delete_unmarked :
        follow w root [] ≡ some (node cs false, t) → delete_iterative w root ≡ some (false, root)
    unfolding delete_iterative
    delete_unmarked e =
        let (p, e', reads, size) = (from_root w root).found (node cs false) t e in
        rw (e', delete_iterative) refl

    pub delete_marked :
        byte_len w ≡ length w
        → follow w root [] ≡ some (node cs true, t)
        → delete_iterative w root ≡ some (true, prune t (node cs false))
    unfolding delete_iterative
    delete_marked bytes e =
        let (p, e', reads, size) = (from_root w root).found (node cs true) t e in
        let rounds : byte_len w ≡ length t = omega arith in
        let pruned : delete_up w p (byte_len w) (node cs false) ≡ some (prune t (node cs false)) =
          ap (λ i. delete_up w p i (node cs false)) rounds
          ∙ delete_up-prune w p t (node cs false) reads in
        rw (e', delete_iterative) (rw (pruned, delete_iterative) refl)

    pub delete_wide :
        length w < byte_len w
        → follow w root [] ≡ some (node cs true, t)
        → delete_iterative w root ≡ none
    unfolding delete_iterative
    delete_wide more e =
        let (p, e', reads, size) = (from_root w root).found (node cs true) t e in
        let panics = delete_up-beyond w p (byte_len w) (node cs false) more in
        rw (e', delete_iterative) (rw (panics, delete_iterative) refl)
