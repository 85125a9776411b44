-- ===== src/Rlp/Strings.antt =====
-- Decoding what RLPEncodeString of algorithms/serialization.go wrote.
use go_algorithm_practice.Prelude.{
  ℕ, suc, ◌+◌, ◌-◌, ◌^◌, ◌≤◌, ◌<◌, ◌≡◌, refl, ap, ◌∙◌, arith, true, false, inl, inr, [], ◌∷◌, ◌++◌,
  append_assoc, if◌then◌else◌, leb, length, length-append, Bool-cases,
}
use go_algorithm_practice.Prelude.Run.{ok}
use go_algorithm_practice.Rlp.BigEndian.{
  decode_big_endian-encode_big_endian, length-encode_big_endian,
}
use go_algorithm_practice.Rlp.Slices.{slice-middle, decode_item-key}
use go_algorithm_practice.Rlp.{
  Bytes, add_int, add_byte, is_small_byte, slice, encode_big_endian, decode_big_endian,
  encode_string,
}
use go_algorithm_practice.Rlp.Decoder.{
  Value, ItemLoop, decode_short_string, read_length, decode_long_string, decode_by_key, decode_item,
}

-- The value that a string of bytes comes back as.
abbrev pub string_value : Bytes → Value
string_value [] = Value.empty_text
string_value (b ∷ []) = if leb b 0x7f then Value.byte b else Value.bytes (b ∷ [])
string_value (b ∷ c ∷ bs) = Value.bytes (b ∷ c ∷ bs)

-- A place in a slice: the bytes before it, those that are read there, and those behind.
abbrev pub Fits : Bytes → Bytes → Bytes → Type 0
Fits p b q = length (p ++ (b ++ q)) < 2 ^ 63

-- What the key and the bytes behind it decode to at a place, by any loop over items.
abbrev DecodesBy : Bytes → ℕ → Bytes → Bytes → Value → ℕ → Type 0
DecodesBy p k d q v n =
    (loop : ItemLoop) → decode_by_key loop (p ++ (k ∷ d ++ q)) (length p) k ≡ ok (v, n)

decode_by_key-short :
    (p d q : Bytes) (n : ℕ)
    → n ≡ length d
    → 0 < n
    → n ≤ 55
    → Fits p ((0x80 + n) ∷ d) q
    → DecodesBy p (0x80 + n) d q (Value.bytes d) (1 + n)
unfolding decode_by_key decode_short_string
decode_by_key-short p d q n e pos small fits loop =
    let size = length-append p ((0x80 + n) ∷ d ++ q) in
    let sizes = length-append d q in
    let place = length-append p ((0x80 + n) ∷ []) in
    let assoc = append_assoc p ((0x80 + n) ∷ []) (d ++ q) in
    let read : slice (p ++ ((0x80 + n) ∷ d ++ q)) (add_int (length p) 1)
          (add_int (add_int (length p) 1) (0x80 + n - 0x80))
        ≡ ok d =
      rw assoc at (
        slice-middle (p ++ (0x80 + n) ∷ []) d q (add_int (length p) 1)
          (add_int (add_int (length p) 1) (0x80 + n - 0x80)) (omega arith) (omega arith)) in
    ground arith

-- The length behind a long prefix, and where the payload begins.
pub read_length-middle :
    (p : Bytes) (k : ℕ) (lb rest : Bytes)
    → length (p ++ (k ∷ lb ++ rest)) < 2 ^ 63
    → read_length (p ++ (k ∷ lb ++ rest)) (length p) (length lb) ≡ ok (decode_big_endian lb)
unfolding read_length
read_length-middle p k lb rest fits =
    let size = length-append p (k ∷ lb ++ rest) in
    let sizes = length-append lb rest in
    let place = length-append p (k ∷ []) in
    let assoc = append_assoc p (k ∷ []) (lb ++ rest) in
    let read : slice (p ++ (k ∷ lb ++ rest)) (add_int (length p) 1)
          (add_int (add_int (length p) 1) (length lb))
        ≡ ok lb =
      rw assoc at (
        slice-middle (p ++ k ∷ []) lb rest (add_int (length p) 1)
          (add_int (add_int (length p) 1) (length lb)) (omega arith) (omega arith)) in
    rw read

-- The bytes of the length of `d`.
abbrev pub len_bytes : Bytes → Bytes
len_bytes d = encode_big_endian (length d)

decode_by_key-long :
    (p d q : Bytes)
    → Fits p ((0xb7 + length (len_bytes d)) ∷ len_bytes d ++ d) q
    → DecodesBy p
        (0xb7 + length (len_bytes d))
        (len_bytes d ++ d)
        q
        (Value.bytes d)
        (1 + length (len_bytes d) + length d)
unfolding decode_by_key decode_long_string
decode_by_key-long p d q fits loop =
    let lb = len_bytes d in
    let k = 0xb7 + length lb in
    let bounds = length-encode_big_endian (length d) in
    let size = length-append p (k ∷ lb ++ d ++ q) in
    let size_lb = length-append lb d in
    let size_d = length-append (lb ++ d) q in
    let assoc : p ++ (k ∷ lb ++ d ++ q) ≡ p ++ (k ∷ lb ++ (d ++ q)) = rw (append_assoc lb d q) in
    let back : decode_big_endian lb ≡ length d =
      decode_big_endian-encode_big_endian (length d) (omega arith) in
    let spelled : read_length (p ++ (k ∷ lb ++ (d ++ q))) (length p) (k - 0xb7) ≡ ok (length d) =
      let same : k - 0xb7 ≡ length lb = omega arith in
      rw (same, read_length-middle p k lb (d ++ q) (rw assoc at fits)) (ap ok back) in
    let start = add_int (add_int (length p) 1) (k - 0xb7) in
    let place = length-append p (k ∷ lb) in
    let read : slice (p ++ (k ∷ lb ++ (d ++ q))) start (add_int start (length d)) ≡ ok d =
      rw (append_assoc p (k ∷ lb) (d ++ q)) at (
        slice-middle (p ++ (k ∷ lb)) d q start (add_int start (length d)) (omega arith)
          (omega arith)) in
    rw assoc (ground arith)

-- The three forms that RLPEncodeString writes.
pub encode_string-short :
    (d : Bytes) → is_small_byte d ≡ false → length d ≤ 55 → encode_string d ≡ (0x80 + length d) ∷ d
unfolding encode_string
encode_string-short d h s =
    let small : leb (length d) 55 ≡ true = ground arith in
    let prefix : add_byte 0x80 (length d) ≡ 0x80 + length d = omega arith in rw (h, small, prefix)

pub encode_string-long :
    (d : Bytes)
    → is_small_byte d ≡ false
    → 55 < length d
    → encode_string d ≡ (0xb7 + length (len_bytes d)) ∷ len_bytes d ++ d
unfolding encode_string
encode_string-long d h s =
    let large : leb (length d) 55 ≡ false = ground arith in
    let bounds = length-encode_big_endian (length d) in
    let prefix : add_byte 0xb7 (length (len_bytes d)) ≡ 0xb7 + length (len_bytes d) = omega arith in
    rw (h, large, prefix)

abbrev pub DecodesTo : ℕ → Bytes → Bytes → Bytes → Value → Type 0
DecodesTo f p b q v = decode_item f (p ++ (b ++ q)) (length p) ≡ ok (v, length b)

decode_item-encode_bytes :
    (f : ℕ) (p d q : Bytes)
    → is_small_byte d ≡ false
    → 0 < length d
    → Fits p (encode_string d) q
    → DecodesTo (suc f) p (encode_string d) q (Value.bytes d)
decode_item-encode_bytes f p d q h pos fits = elim (Bool-cases (leb (length d) 55)) [
  | inl e ↦
      let form = encode_string-short d h (ground arith) in
      let room : Fits p ((0x80 + length d) ∷ d) q = rw form at fits in
      rw form (
        decode_item-key f p (0x80 + length d) (d ++ q) room
        ∙ decode_by_key-short p d q (length d) refl pos (ground arith) room _
        ∙ ap (λ (n : ℕ). ok (Value.bytes d, n)) (omega arith))
  | inr e ↦
      let form = encode_string-long d h (ground arith) in
      let room : Fits p ((0xb7 + length (len_bytes d)) ∷ len_bytes d ++ d) q = rw form at fits in
      rw form (
        decode_item-key f p (0xb7 + length (len_bytes d)) (len_bytes d ++ d ++ q) room
        ∙ decode_by_key-long p d q room _
        ∙ ap (λ (n : ℕ). ok (Value.bytes d, n)) (omega (arith, length-append (len_bytes d) d)))
]

decode_by_key_small :
    (loop : ItemLoop) (bs : Bytes) (off b : ℕ)
    → b ≤ 0x7f
    → decode_by_key loop bs off b ≡ ok (Value.byte b, 1)
unfolding decode_by_key
decode_by_key_small loop bs off b h = ground arith

-- RLPEncodeString, decoded at any place.
pub decode_item-encode_string :
    (f : ℕ) (p d q : Bytes)
    → Fits p (encode_string d) q
    → DecodesTo (suc f) p (encode_string d) q (string_value d)
decode_item-encode_string f p [] q fits =
    let form = encode_string-short [] refl (omega arith) in
    rw form (decode_item-key f p 0x80 q (rw form at fits) ∙ unfold decode_by_key in refl)
decode_item-encode_string f p (b ∷ []) q fits = elim (Bool-cases (leb b 0x7f)) [
  | inl e ↦
      let form : encode_string (b ∷ []) ≡ b ∷ [] = unfold encode_string in rw e in
      rw (form, e)
        (decode_item-key f p b q (rw form at fits) ∙ decode_by_key_small _ _ _ b (ground arith))
  | inr e ↦ rw e (decode_item-encode_bytes f p (b ∷ []) q e (omega arith) fits)
]
decode_item-encode_string f p (b ∷ c ∷ d) q fits =
    decode_item-encode_bytes f p (b ∷ c ∷ d) q refl (omega arith) fits
