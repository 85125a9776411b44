-- ===== src/Rlp/Encodings.antt =====
-- The encodings of algorithms/serialization.go: each takes a byte at least, and a number is encoded
-- like its big-endian bytes.
use go_algorithm_practice.Prelude.{
  ℕ, ◌/◌, ◌%◌, ◌^◌, ◌<◌, ◌≡◌, refl, arith, List, [], ◌∷◌, inl, inr, if◌then◌else◌, ◌==◌, leb,
  length, length-append, Bool-cases,
}
use go_algorithm_practice.Prelude.Run.{ok, bind_inv}
use go_algorithm_practice.Rlp.{
  Bytes, Input, put_uint64, strip_zeros, encode_big_endian, concat_items, list_prefix, encode_list,
  encode_string, encode_uint64, encode, encode_items,
}

list_prefix_pos : (n : ℕ) → 0 < length (list_prefix n)
unfolding list_prefix
list_prefix_pos n = ground arith

pub encode_string_nil : encode_string [] ≡ 0x80 ∷ []
unfolding encode_string
encode_string_nil = refl

encode_string_pos : (d : Bytes) → 0 < length (encode_string d)
unfolding encode_string
encode_string_pos [] = ground arith
encode_string_pos (b ∷ d) = ground arith

encode_uint64_pos : (n : ℕ) → 0 < length (encode_uint64 n)
unfolding encode_uint64
encode_uint64_pos n = ground (arith, encode_string_pos (encode_big_endian n))

encode_list_pos : (items : List Bytes) → 0 < length (encode_list items)
unfolding encode_list
encode_list_pos items =
    let n = length (concat_items items) in
    omega (arith, list_prefix_pos n, length-append (list_prefix n) (concat_items items))

-- Every encoding takes a byte at least.
pub encode_pos : (x : Input) (b : Bytes) → encode x ≡ ok b → 0 < length b
unfolding encode
encode_pos (Input.bytes bs) b h = ground (arith, encode_string_pos bs)
encode_pos (Input.text bs) b h = ground (arith, encode_string_pos bs)
encode_pos (Input.uint64 n) b h = ground (arith, encode_uint64_pos n)
encode_pos (Input.list xs) b h =
    let (items, got, form) = bind_inv (encode_items xs) (λ items. ok (encode_list items)) h in
    ground (arith, encode_list_pos items)
encode_pos Input.null b h = ground arith
encode_pos Input.other b h = cc

encode_big_endian_byte : (n : ℕ) → n < 256 → encode_big_endian n ≡ n ∷ []
unfolding encode_big_endian put_uint64 strip_zeros
encode_big_endian_byte n h =
    let b7 : n / 2 ^ 56 % 256 ≡ 0 = omega arith in
    let b6 : n / 2 ^ 48 % 256 ≡ 0 = omega arith in
    let b5 : n / 2 ^ 40 % 256 ≡ 0 = omega arith in
    let b4 : n / 2 ^ 32 % 256 ≡ 0 = omega arith in
    let b3 : n / 2 ^ 24 % 256 ≡ 0 = omega arith in
    let b2 : n / 2 ^ 16 % 256 ≡ 0 = omega arith in
    let b1 : n / 2 ^ 8 % 256 ≡ 0 = omega arith in
    let b0 : n % 256 ≡ n = omega arith in rw (b7, b6, b5, b4, b3, b2, b1, b0)

-- RLPEncodeUint64 writes the big-endian bytes as a string, and zero as the empty string.
pub encode_uint64-eq :
    (n : ℕ) → encode_uint64 n ≡ encode_string (if n == 0 then [] else encode_big_endian n)
unfolding encode_uint64
encode_uint64-eq n = elim (Bool-cases (n == 0)) [
  | inl e ↦ rw e (unfold encode_string in refl)
  | inr e ↦ elim (Bool-cases (leb n 127)) [
    | inl small ↦
        let one = encode_big_endian_byte n (ground arith) in
        let byte : n % 256 ≡ n = ground arith in
        rw (e, small, one, byte) (unfold encode_string in rw small)
    | inr large ↦ rw (e, large)
  ]
]
