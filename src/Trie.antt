-- ===== src/Trie.antt =====
-- data-structures/trie.go: the prefix tree. A Go string is the list of its runes; it is taken to be
-- valid UTF-8, and `len` of it counts bytes. A node is reached by one pointer only, so a call returns
-- the new trie. The children of a node are an association list, in the order of an iteration over
-- the map.
pub mod Words
pub mod Paths
pub mod Without
pub mod Removal
pub mod Keys
pub mod Completion
mod Tests
use go_algorithm_practice.Prelude.{
  ℕ, zero, suc, ◌+◌, Bool, true, false, not, ◌&&◌, Option, none, some, List, [], ◌∷◌, ◌++◌,
  if◌then◌else◌, ◌==◌, ltb, length, get_elem?,
}

abbrev pub Word : Type 0
Word = List ℕ

-- The bytes of a rune in UTF-8, and `len(word)`.
abbrev pub rune_len : ℕ → ℕ
rune_len c = if ltb c 0x80 then 1 else if ltb c 0x800 then 2 else if ltb c 0x10000 then 3 else 4

abbrev pub byte_len : Word → ℕ
byte_len [] = 0
byte_len (c ∷ word) = rune_len c + byte_len word

mutual
  pub data Node : Type 0 where
    node : Children → Bool → Node

  pub data Children : Type 0 where
    no_children : Children
    child : ℕ → Node → Children → Children

abbrev pub children : Node → Children
children (node cs is_end) = cs

abbrev pub is_end : Node → Bool
is_end (node cs b) = b

-- `n.children[val]`, an assignment to it, and `delete(n.children, val)`.
unfoldable pub get : ℕ → Children → Option Node
get val no_children = none
get val (child c n cs) = if val == c then some n else get val cs

unfoldable pub put : ℕ → Node → Children → Children
put val m no_children = child val m no_children
put val m (child c n cs) = if val == c then child c m cs else child c n (put val m cs)

unfoldable pub remove : ℕ → Children → Children
remove val no_children = no_children
remove val (child c n cs) = if val == c then remove val cs else child c n (remove val cs)

abbrev pub is_empty : Children → Bool
is_empty no_children = true
is_empty (child c n cs) = false

-- `&TrieNode{children: make(map[rune]*TrieNode)}`, which is also the root of NewTrie.
abbrev pub empty_node : Node
empty_node = node no_children false

unfoldable pub new_trie : Node
new_trie = empty_node

abbrev pub or_empty : Option Node → Node
or_empty none = empty_node
or_empty (some n) = n

-- insertHelper, which Insert calls at the root
unfoldable pub insert_helper : Word → Node → Node
unfolding get put
insert_helper [] (node cs b) = node cs true
insert_helper (val ∷ word) (node cs b) =
    node (put val (insert_helper word (or_empty (get val cs))) cs) b

unfoldable pub insert : Word → Node → Node
unfolding insert_helper
insert word root = insert_helper word root

-- The walk of Search, StartsWith and FindAllWithPrefix: the node at the end of a word.
unfoldable pub walk : Word → Node → Option Node
unfolding get
walk [] n = some n
walk (val ∷ word) (node cs b) = elim (get val cs) [ none ↦ none | some m ↦ walk word m ]

unfoldable pub search : Word → Node → Bool
unfolding walk
search word root = elim (walk word root) [ none ↦ false | some n ↦ is_end n ]

unfoldable pub starts_with : Word → Node → Bool
unfolding walk
starts_with prefix root = elim (walk prefix root) [ none ↦ false | some n ↦ true ]

-- The loop of DeleteIterative down the trie. The search path has the nodes from the root on; it is
-- returned with its last node.
unfoldable pub descend : Word → Node → List Node → Option (Node × List Node)
unfolding get
descend [] n search_path = some (n, search_path)
descend (val ∷ word) (node cs b) search_path = elim (get val cs) [
  | none ↦ none
  | some m ↦ descend word m (search_path ++ m ∷ [])
]

-- The root when the node at this depth of the search path is now `n`: the code changes the nodes in
-- place, here those above the changed one are made anew.
unfoldable pub rebuild : Word → List Node → ℕ → Node → Option Node
unfolding put
rebuild word search_path zero n = some n
rebuild word search_path (suc i) n = elim (get_elem? word i) [
  | none ↦ none
  | some val ↦ elim (get_elem? search_path i) [
    | none ↦ none
    | some parent ↦ rebuild word search_path i (node (put val n (children parent)) (is_end parent))
  ]
]

-- The loop that deletes up the path, where `i` goes down from one less than the number given: the new
-- root. The path's last node, whose mark is off by then, is read at no index of a rune.
-- `[]rune(word)[i]` and `searchPath[i]` panic out of range, which is `none`.
unfoldable pub delete_up : Word → List Node → ℕ → Node → Option Node
unfolding remove rebuild
delete_up word search_path zero n = some n
delete_up word search_path (suc i) n = elim (get_elem? word i) [
  | none ↦ none
  | some val ↦ elim (get_elem? search_path i) [
    | none ↦ none
    | some parent ↦
        if is_empty (children n) && not (is_end n)
        then delete_up word search_path i (node (remove val (children parent)) (is_end parent))
        else rebuild word search_path (suc i) n
  ]
]

-- Whether the word was there and is deleted, and the new root. `none` is a run-time panic. The loop
-- starts at `len(word) - 1`, which counts bytes.
unfoldable pub delete_iterative : Word → Node → Option (Bool × Node)
unfolding descend delete_up
delete_iterative word root = elim (descend word root (root ∷ [])) [
  | none ↦ some (false, root)
  | some (node cs false, search_path) ↦ some (false, root)
  | some (node cs true, search_path) ↦
      elim (delete_up word search_path (byte_len word) (node cs false)) [
        | none ↦ none
        | some new ↦ some (true, new)
      ]
]

unfoldable pub delete : Word → Node → Option (Bool × Node)
unfolding delete_iterative
delete word root = delete_iterative word root

-- The end of DeleteRecursive at the last rune's node: whether the word is deleted, whether the parent
-- is to delete this node, and the node after the call.
abbrev pub unmark : Children → Bool → Bool × Bool × Node
unmark cs b = if b then (true, is_empty cs, node cs false) else (false, false, node cs b)

-- DeleteRecursive of a word, where `len` is its number of bytes and `rest` has its runes from `pos` on,
-- in the source `[]rune(word)[pos]`; if there is none, that panics, which is `none`.
unfoldable pub delete_recursive : ℕ → ℕ → Word → Node → Option (Bool × Bool × Node)
unfolding get put remove
delete_recursive len pos [] (node cs b) = elim (ltb len pos) [
  | true ↦ some (false, false, node cs b)
  | false ↦ elim (len == pos) [ true ↦ some (unmark cs b) | false ↦ none ]
]
delete_recursive len pos (val ∷ rest) (node cs b) = elim (ltb len pos) [
  | true ↦ some (false, false, node cs b)
  | false ↦ elim (len == pos) [
    | true ↦ some (unmark cs b)
    | false ↦ elim (get val cs) [
      | none ↦ some (false, false, node cs b)
      | some m ↦ elim (delete_recursive len (pos + 1) rest m) [
        | none ↦ none
        | some (false, delete_child, m') ↦ some (false, false, node (put val m' cs) b)
        | some (true, false, m') ↦ some (true, false, node (put val m' cs) b)
        | some (true, true, m') ↦
            some (true, is_empty (remove val cs) && not b, node (remove val cs) b)
      ]
    ]
  ]
]

-- findSuffixesDFS: the words found below a node, each with the prefix in front.
unfoldable mutual
  pub find_suffixes : Word → Node → List Word
  find_suffixes so_far (node cs true) = so_far ∷ find_in_children so_far cs
  find_suffixes so_far (node cs false) = find_in_children so_far cs

  pub find_in_children : Word → Children → List Word
  find_in_children so_far no_children = []
  find_in_children so_far (child c n cs) =
      find_suffixes (so_far ++ c ∷ []) n ++ find_in_children so_far cs

unfoldable pub find_all_with_prefix : Word → Node → List Word
unfolding walk find_suffixes
find_all_with_prefix prefix root = elim (walk prefix root) [
  | none ↦ []
  | some n ↦ find_suffixes prefix n
]
