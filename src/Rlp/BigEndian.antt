-- ===== src/Rlp/BigEndian.antt =====
-- encodeBigEndian and decodeBigEndian of algorithms/serialization.go.
use go_algorithm_practice.Prelude.{
  ℕ, zero, suc, ◌-◌, ◌^◌, ◌≤◌, ◌<◌, ◌≡◌, refl, arith, [], ◌∷◌, ◌++◌, length, replicate,
}
use go_algorithm_practice.Rlp.{
  Bytes, put_uint64, uint64_from, strip_zeros, encode_big_endian, decode_big_endian,
}

-- Zero bytes on the left add nothing.
uint64_from-zeros : (k : ℕ) (bs : Bytes) → uint64_from 0 (replicate k 0 ++ bs) ≡ uint64_from 0 bs
unfolding uint64_from
uint64_from-zeros zero bs = refl
uint64_from-zeros (suc k) bs = uint64_from-zeros k bs

uint64_from-strip_zeros : (k : ℕ) (bs : Bytes) → uint64_from 0 (strip_zeros k bs) ≡ uint64_from 0 bs
unfolding uint64_from strip_zeros
uint64_from-strip_zeros zero bs = refl
uint64_from-strip_zeros (suc k) [] = refl
uint64_from-strip_zeros (suc k) (b ∷ bs) = ground (arith, uint64_from-strip_zeros k bs)

uint64_from-put_uint64 : (n : ℕ) → n < 2 ^ 64 → uint64_from 0 (put_uint64 n) ≡ n
unfolding uint64_from put_uint64
uint64_from-put_uint64 n h = omega arith

-- The shortest big-endian bytes of a 64-bit number read back as the number.
pub decode_big_endian-encode_big_endian :
    (n : ℕ) → n < 2 ^ 64 → decode_big_endian (encode_big_endian n) ≡ n
unfolding decode_big_endian encode_big_endian
decode_big_endian-encode_big_endian n h =
    rw
      (
        uint64_from-zeros (8 - length (strip_zeros 7 (put_uint64 n)))
            (strip_zeros 7 (put_uint64 n)),
        uint64_from-strip_zeros 7 (put_uint64 n),
      )
      (uint64_from-put_uint64 n h)

strip_zeros-length :
    (k : ℕ) (bs : Bytes)
    → length bs ≡ suc k
    → (1 ≤ length (strip_zeros k bs)) × (length (strip_zeros k bs) ≤ suc k)
unfolding strip_zeros
strip_zeros-length zero bs h = omega arith
strip_zeros-length (suc k) [] h = absurd (omega arith)
strip_zeros-length (suc k) (b ∷ bs) h = ground (arith, strip_zeros-length k bs)

-- They are one to eight bytes.
pub length-encode_big_endian :
    (n : ℕ) → (1 ≤ length (encode_big_endian n)) × (length (encode_big_endian n) ≤ 8)
unfolding encode_big_endian put_uint64
length-encode_big_endian n = strip_zeros-length 7 (put_uint64 n) refl
