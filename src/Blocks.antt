-- ===== src/Blocks.antt =====
-- practice/file_block_service.go: a chain of blocks of eight bytes. The blocks are an array whose
-- links are set once, from each block to the one behind it, so the chain is the array in its order.
-- A string is its bytes.
pub mod Contents
mod Tests
use go_algorithm_practice.Prelude.{
  ℕ, zero, suc, ◌+◌, ◌-◌, ◌*◌, ◌/◌, ◌%◌, Bool, true, false, Option, none, some, List, [], ◌∷◌, ◌++◌,
  if◌then◌else◌, ◌==◌, ltb, length, get_or, set, take, drop, replicate,
}

abbrev pub Text : Type 0
Text = List ℕ

pub record Service : Type 0 where
  pub blocks : List Text
  pub capacity : ℕ
  pub used : ℕ

-- NewFileBlockService. `none` is a panic: the head points to the block with index 0.
unfoldable pub new_file_block_service : ℕ → Option Service
new_file_block_service capacity =
    if capacity == 0
    then none
    else some (record { blocks = replicate capacity []; capacity = capacity; used = 0 })

-- What Print writes.
unfoldable pub print_from : List Text → Text
print_from [] = b'\n' ∷ []
print_from (b ∷ []) = (b'[' ∷ b ++ (b']' ∷ [])) ++ (b'\n' ∷ [])
print_from (b ∷ c ∷ blocks) =
    (b'[' ∷ b ++ (b']' ∷ b' ' ∷ b'-' ∷ b'>' ∷ b' ' ∷ [])) ++ print_from (c ∷ blocks)

unfoldable pub print : Service → Text
unfolding print_from
print s = print_from s.blocks

pub data WriteError : Type 0 where
  invalid_length : ℕ → WriteError
  cannot_add : ℕ → ℕ → ℕ → WriteError

pub data Written : Type 0 where
  written : Service → Written
  refused : WriteError → Written

-- The loop of Write from round `i` on, with `left` rounds to go.
unfoldable pub write_blocks : ℕ → ℕ → Text → Service → Service
write_blocks zero i text s = s
write_blocks (suc left) i text s = write_blocks left (i + 1) text (record {
  blocks = set s.blocks s.used (take ((i + 1) * 8 - i * 8) (drop (i * 8) text));
  capacity = s.capacity;
  used = s.used + 1;
})

-- Write, which changes nothing where it returns an error.
unfoldable pub write : Text → Service → Written
unfolding write_blocks
write text s =
    let n = length text in
    if n == 0
    then written s
    else if ltb 0 (n % 8)
    then refused (invalid_length n)
    else if ltb s.capacity (n / 8 + s.used)
    then refused (cannot_add (n / 8) s.used s.capacity)
    else written (write_blocks (n / 8) 0 text s)
