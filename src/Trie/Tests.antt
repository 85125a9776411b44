-- ===== src/Trie/Tests.antt =====
-- Runs of a trie with "car", "cart" and "do", and the theorems at it.
use go_algorithm_practice.Prelude.{
  ◌≡◌, ◌↔◌, refl, arith, true, false, none, some, [], ◌∷◌, ◌++◌, if◌then◌else◌,
}
use go_algorithm_practice.Trie.{
  Word, Node, node, no_children, child, get, put, remove, new_trie, insert_helper, insert, walk,
  search, starts_with, descend, rebuild, delete_up, delete_iterative, delete, delete_recursive,
  find_suffixes, find_all_with_prefix,
}
use go_algorithm_practice.Trie.Words.{eq_word, search-insert}
use go_algorithm_practice.Trie.Without.{Without}
use go_algorithm_practice.Trie.Removal.{
  Deletes, delete-Without, delete-panics, delete_recursive-Deletes,
}
use go_algorithm_practice.Trie.Keys.{HasKeysOnce}
use go_algorithm_practice.Trie.Completion.{Among, find_all_with_prefix_iff}

abbrev car : Word
car = b'c' ∷ b'a' ∷ b'r' ∷ []

abbrev cart : Word
cart = b'c' ∷ b'a' ∷ b'r' ∷ b't' ∷ []

abbrev accented : Word
accented = 0xe9 ∷ []

abbrev leaf : Node
leaf = node no_children true

abbrev sample : Node
sample =
    node
      (child b'c'
        (node
          (child b'a'
            (node (child b'r' (node (child b't' leaf no_children) true) no_children) false)
            no_children)
          false)
        (child 0xe9 leaf no_children))
      false

trie_runs :
    (insert accented (insert car (insert cart new_trie)) ≡ sample)
    × (search car sample ≡ true)
    × (starts_with (b'c' ∷ []) sample ≡ true)
    × (find_all_with_prefix (b'c' ∷ []) sample ≡ car ∷ cart ∷ [])
    × (delete cart (insert cart new_trie) ≡ some (true, new_trie))
    × (delete_recursive 4 0 cart (insert cart new_trie) ≡ some (true, true, new_trie))
unfolding insert insert_helper new_trie get put remove walk search starts_with descend rebuild
    delete_up delete_iterative delete delete_recursive find_suffixes find_all_with_prefix
trie_runs = (refl, refl, refl, refl, refl, refl)

search-insert_example :
    search car (insert cart sample) ≡ (if eq_word cart car then true else search car sample)
search-insert_example = search-insert cart car sample

delete-Without_example :
    (new : Node) × (delete cart sample ≡ some (search cart sample, new)) × Without cart sample new
delete-Without_example = delete-Without cart sample refl

accented_found : search accented sample ≡ true
unfolding search walk get
accented_found = refl

delete-panics_example : delete accented sample ≡ none
delete-panics_example = delete-panics accented sample accented_found (omega arith)

delete_recursive-Deletes_example : Deletes cart sample (delete_recursive 4 0 cart sample)
delete_recursive-Deletes_example = delete_recursive-Deletes cart sample refl

sample-HasKeysOnce : HasKeysOnce sample
unfolding get
sample-HasKeysOnce = (refl, (refl, (refl, (refl, tt, tt), tt), tt), (refl, tt, tt))

find_all_with_prefix_iff_example :
    Among cart (find_all_with_prefix (b'c' ∷ []) sample)
    ↔ ((s : Word) × (cart ≡ b'c' ∷ [] ++ s) × (search cart sample ≡ true))
find_all_with_prefix_iff_example =
    find_all_with_prefix_iff (b'c' ∷ []) cart sample sample-HasKeysOnce

without_cart :
    delete cart sample
    ≡ some (
      true,
      node
          (child b'c'
            (node
              (child b'a' (node (child b'r' (node no_children true) no_children) false) no_children)
              false)
            (child 0xe9 leaf no_children))
          false,
    )
unfolding delete delete_iterative descend delete_up rebuild get put remove
without_cart = refl
