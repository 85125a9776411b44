-- ===== src/Merkle/Sparse/Bits.antt =====
-- The bits of the keys of data-structures/merkle.go: flipping one gives another key.
use go_algorithm_practice.Prelude.{
  ℕ, zero, suc, ◌-◌, ◌/◌, ◌%◌, ◌^◌, ◌≤◌, ◌<◌, ◌≡◌, arith, false, inl, inr, [], ◌∷◌, ◌==◌, ltb,
  length, Bool-cases, get_or, set,
}
use go_algorithm_practice.Merkle.{Bytes, bytes_equal}
use go_algorithm_practice.Merkle.Sparse.{bit_of, flip_byte, flip_bit}

two_powers : (n : ℕ) → 0 < 2 ^ n
two_powers zero = omega arith
two_powers (suc n) = let rest = two_powers n in grind arith

flip_byte-other : (b w : ℕ) → 0 < w → (flip_byte b w == b) ≡ false
unfolding flip_byte
flip_byte-other b w some_bit = elim (Bool-cases ((b / w) % 2 == 1)) [
  | inl e ↦
      let big : w ≤ b = elim (Bool-cases (ltb b w)) [
        | inl small ↦ let none_left : b / w ≡ 0 = grind arith in ground arith
        | inr le ↦ ground arith
      ] in
      rw e (ground arith)
  | inr e ↦ rw e (ground arith)
]

set-other :
    (key : Bytes) (i v : ℕ)
    → i < length key
    → (v == get_or key i 0) ≡ false
    → bytes_equal (set key i v) key ≡ false
set-other [] i v lt other = absurd (omega arith)
set-other (b ∷ key) zero v lt other = ground arith
set-other (b ∷ key) (suc i) v lt other =
    let rest = set-other key i v (omega arith) other in ground arith

pub flip_bit-other :
    (key : Bytes) (pos : ℕ) → pos / 8 < length key → bytes_equal (flip_bit key pos) key ≡ false
unfolding flip_bit
flip_bit-other key pos lt =
    set-other key (pos / 8) (flip_byte (get_or key (pos / 8) 0) (bit_of pos)) lt
      (flip_byte-other (get_or key (pos / 8) 0) (bit_of pos) (two_powers (7 - pos % 8)))
