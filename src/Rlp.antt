-- ===== src/Rlp.antt =====
-- algorithms/serialization.go, the part that is implemented: RLP. A byte is a number below 256. A Go
-- `int` is its 64-bit pattern, a number below 2 ^ 64 whose upper half stands for the negative
-- integers, and sums wrap around. A slice is the list of its bytes; it is taken to have no spare
-- capacity, so that slicing past its end panics.
pub mod BigEndian
pub mod Decoder
pub mod Slices
pub mod Strings
pub mod Encodings
pub mod RoundTrip
pub mod Lists
pub mod Reader
pub mod Loop
mod Tests
use go_algorithm_practice.Prelude.{
  ℕ, zero, suc, ◌+◌, ◌-◌, ◌*◌, ◌/◌, ◌%◌, ◌^◌, Bool, true, false, not, ◌&&◌, ◌||◌, Option, none,
  some, List, [], ◌∷◌, ◌++◌, if◌then◌else◌, ◌==◌, ltb, leb, length, get_elem?, take, drop,
  replicate,
}
use go_algorithm_practice.Prelude.Run.{Run, ok, err, panic, out_of_fuel, ◌>>=◌}

pub data Error : Type 0 where
  empty_data : Error
  out_of_bounds : Error
  unsupported_type : Error
  end_of_stream : Error
  got_list_prefix : Error
  got_string_prefix : Error

abbrev pub Bytes : Type 0
Bytes = List ℕ

-- `a + b` and `a < b` on 64-bit patterns.
abbrev pub add_int : ℕ → ℕ → ℕ
add_int a b = (a + b) % 2 ^ 64

abbrev pub ltb_int : ℕ → ℕ → Bool
ltb_int a b = ltb ((a + 2 ^ 63) % 2 ^ 64) ((b + 2 ^ 63) % 2 ^ 64)

-- `data[lo:hi]`. A negative bound is a pattern above every length.
unfoldable pub slice : Bytes → ℕ → ℕ → Run Error Bytes
slice bs lo hi = if leb lo hi && leb hi (length bs) then ok (take (hi - lo) (drop lo bs)) else panic

abbrev pub or_panic : {A : Type 0} → Option A → Run Error A
or_panic none = panic
or_panic (some a) = ok a

-- binary.BigEndian.PutUint64 into an 8-byte buffer, and Uint64 of one.
unfoldable pub put_uint64 : ℕ → Bytes
put_uint64 n =
    (n / 2 ^ 56 % 256)
    ∷ (n / 2 ^ 48 % 256)
    ∷ (n / 2 ^ 40 % 256)
    ∷ (n / 2 ^ 32 % 256)
    ∷ (n / 2 ^ 24 % 256)
    ∷ (n / 2 ^ 16 % 256)
    ∷ (n / 2 ^ 8 % 256)
    ∷ (n % 256)
    ∷ []

unfoldable pub uint64_from : ℕ → Bytes → ℕ
uint64_from acc [] = acc
uint64_from acc (b ∷ bs) = uint64_from (acc * 256 + b) bs

-- The loop `for i < 7 && buf[i] == 0`, and `buf[i:]`; the number is 7 less `i`.
unfoldable pub strip_zeros : ℕ → Bytes → Bytes
strip_zeros zero bs = bs
strip_zeros (suc k) [] = []
strip_zeros (suc k) (b ∷ bs) = if b == 0 then strip_zeros k bs else b ∷ bs

unfoldable pub encode_big_endian : ℕ → Bytes
unfolding put_uint64 strip_zeros
encode_big_endian n = strip_zeros 7 (put_uint64 n)

-- The bytes are copied to the right end of 8 zero bytes. The callers pass 8 bytes at most.
unfoldable pub decode_big_endian : Bytes → ℕ
unfolding uint64_from
decode_big_endian bs = uint64_from 0 (replicate (8 - length bs) 0 ++ bs)

-- `0x80 + byte(n)`, in a byte.
abbrev pub add_byte : ℕ → ℕ → ℕ
add_byte a n = (a + n % 256) % 256

abbrev pub is_small_byte : Bytes → Bool
is_small_byte [] = false
is_small_byte (b ∷ []) = leb b 0x7f
is_small_byte (b ∷ c ∷ bs) = false

-- RLPEncodeString
unfoldable pub encode_string : Bytes → Bytes
encode_string bs =
    let n = length bs in
    if is_small_byte bs
    then bs
    else if leb n 55
    then add_byte 0x80 n ∷ bs
    else (let len_bytes = encode_big_endian n in
        (add_byte 0xb7 (length len_bytes) ∷ len_bytes) ++ bs)

-- The two nested loops of RLPEncodeList, which append the bytes one by one.
unfoldable pub concat_items : List Bytes → Bytes
concat_items [] = []
concat_items (item ∷ items) = item ++ concat_items items

unfoldable pub list_prefix : ℕ → Bytes
list_prefix n =
    if leb n 55
    then add_byte 0xc0 n ∷ []
    else (let len_bytes = encode_big_endian n in add_byte 0xf7 (length len_bytes) ∷ len_bytes)

-- RLPEncodeList
unfoldable pub encode_list : List Bytes → Bytes
unfolding concat_items list_prefix
encode_list items = let result = concat_items items in list_prefix (length result) ++ result

-- RLPEncodeUint64
unfoldable pub encode_uint64 : ℕ → Bytes
encode_uint64 n =
    if n == 0
    then 0x80 ∷ []
    else (if leb n 127 then (n % 256) ∷ [] else encode_string (encode_big_endian n))

-- The values that RLPEncode takes: `other` is a value of any other type.
mutual
  pub data Input : Type 0 where
    bytes : Bytes → Input
    text : Bytes → Input
    uint64 : ℕ → Input
    list : Inputs → Input
    null : Input
    other : Input

  pub data Inputs : Type 0 where
    end : Inputs
    item : Input → Inputs → Inputs

unfoldable mutual
  -- RLPEncode
  pub encode : Input → Run Error Bytes
  encode (bytes bs) = ok (encode_string bs)
  encode (text bs) = ok (encode_string bs)
  encode (uint64 n) = ok (encode_uint64 n)
  encode (list xs) = encode_items xs >>= λ items. ok (encode_list items)
  encode null = ok (0x80 ∷ [])
  encode other = err unsupported_type

  -- Its loop over the items of a list.
  pub encode_items : Inputs → Run Error (List Bytes)
  encode_items end = ok []
  encode_items (item x xs) = encode x >>= λ b. encode_items xs >>= λ bs. ok (b ∷ bs)
