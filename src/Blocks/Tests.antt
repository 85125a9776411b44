-- ===== src/Blocks/Tests.antt =====
-- Runs of a service of three blocks, and the theorem at it.
use go_algorithm_practice.Prelude.{◌≡◌, refl, arith, none, [], ◌∷◌, ◌++◌}
use go_algorithm_practice.Blocks.{
  Text, Service, new_file_block_service, print_from, print, invalid_length, cannot_add, written,
  refused, write_blocks, write,
}
use go_algorithm_practice.Blocks.Contents.{Appends, write-Appends}

abbrev eight : Text
eight = 1 ∷ 2 ∷ 3 ∷ 4 ∷ 5 ∷ 6 ∷ 7 ∷ 8 ∷ []

abbrev sample : Service
sample = record { blocks = eight ∷ [] ∷ [] ∷ []; capacity = 3; used = 1 }

blocks_runs :
    (write eight (record { blocks = [] ∷ [] ∷ [] ∷ []; capacity = 3; used = 0 }) ≡ written sample)
    × (write (1 ∷ []) sample ≡ refused (invalid_length 1))
    × (write (eight ++ (eight ++ eight)) sample ≡ refused (cannot_add 3 1 3))
    × (print (record { blocks = [] ∷ (b'a' ∷ []) ∷ []; capacity = 2; used = 0 })
        ≡ b'[' ∷ b']' ∷ b' ' ∷ b'-' ∷ b'>' ∷ b' ' ∷ b'[' ∷ b'a' ∷ b']' ∷ b'\n' ∷ [])
    × (new_file_block_service 0 ≡ none)
unfolding write write_blocks print print_from new_file_block_service
blocks_runs = (refl, refl, refl, refl, refl)

write-Appends_example : Appends eight eight sample (write eight sample)
write-Appends_example =
    write-Appends eight eight sample
      (record { sized = refl; fits = omega arith; filled = refl; counted = refl })
