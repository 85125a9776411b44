-- ===== src/Rlp/Tests.antt =====
-- Runs of the RLP encoder, decoder and reader, and the theorems at a nested list.
use go_algorithm_practice.Prelude.{ℕ, ◌≡◌, refl, arith, List, [], ◌∷◌, ◌++◌, length}
use go_algorithm_practice.Prelude.Run.{ok, err, panic, out_of_fuel}
use go_algorithm_practice.Rlp.{
  Bytes, empty_data, Input, Inputs, slice, put_uint64, strip_zeros, encode_big_endian,
  decode_big_endian, encode_string, concat_items, list_prefix, encode_list, encode_uint64, encode,
}
use go_algorithm_practice.Rlp.Decoder.{
  Value, snoc, decode_short_string, read_length, decode_long_string, decode_short_list,
  decode_long_list, decode_by_key, decode_item, decode,
}
use go_algorithm_practice.Rlp.RoundTrip.{decoded, decode-encode}
use go_algorithm_practice.Rlp.Loop.{hostile, decode-hostile}
use go_algorithm_practice.Rlp.Reader.{spend, read_string, read_list}
use go_algorithm_practice.Rlp.Reader.Laws.{reader, read_string-encode_string}
use go_algorithm_practice.Rlp.Reader.Headers.{read_list-encode_list}

-- A list of "cat", the number 1024, an empty list and the byte 5.
abbrev sample : Input
sample = Input.list (
    Inputs.item (Input.text (99 ∷ 97 ∷ 116 ∷ [])) (
      Inputs.item (Input.uint64 1024)
        (Inputs.item (Input.list Inputs.end) (Inputs.item (Input.bytes (5 ∷ [])) Inputs.end))))

abbrev sample_bytes : Bytes
sample_bytes = 0xc9 ∷ 0x83 ∷ 99 ∷ 97 ∷ 116 ∷ 0x82 ∷ 4 ∷ 0 ∷ 0xc0 ∷ 5 ∷ []

sample_encoded : encode sample ≡ ok sample_bytes
unfolding encode encode_string encode_uint64 encode_list list_prefix concat_items encode_big_endian
    put_uint64 strip_zeros
sample_encoded = refl

decoder_runs :
    (decode 3 (0x82 ∷ 4 ∷ 0 ∷ []) ≡ ok (Value.bytes (4 ∷ 0 ∷ [])))
    × (decode 3 [] ≡ err empty_data)
    × (decode 3 (0x82 ∷ 4 ∷ []) ≡ panic)
unfolding decode decode_item decode_by_key decode_short_string decode_short_list decode_long_string
    decode_long_list read_length slice decode_big_endian snoc
decoder_runs = (refl, refl, refl)

decode-encode_example : decode 20 sample_bytes ≡ ok (decoded sample)
decode-encode_example =
    decode-encode sample sample_bytes 20 sample_encoded (omega arith) (omega arith)

decode-hostile_example : decode 1000 (0xc9 ∷ hostile ++ (1 ∷ [])) ≡ out_of_fuel
decode-hostile_example = decode-hostile 1000 (1 ∷ []) (omega arith)

cat_length : length (encode_string (99 ∷ 97 ∷ 116 ∷ [])) ≡ 4
unfolding encode_string
cat_length = refl

read_string-encode_string_example :
    read_string (reader (encode_string (99 ∷ 97 ∷ 116 ∷ []) ++ (7 ∷ [])) (9 ∷ [])) ≡ (
      ok (99 ∷ 97 ∷ 116 ∷ []),
      reader (7 ∷ []) (spend (length (encode_string (99 ∷ 97 ∷ 116 ∷ []))) (9 ∷ [])),
    )
read_string-encode_string_example =
    read_string-encode_string (99 ∷ 97 ∷ 116 ∷ []) (7 ∷ []) (9 ∷ []) (omega arith)
      (omega (arith, cat_length))

abbrev sample_items : List Bytes
sample_items = (1 ∷ []) ∷ (2 ∷ []) ∷ []

items_length : length (concat_items sample_items) ≡ 2
unfolding concat_items
items_length = refl

prefix_length : (n : ℕ) → n ≡ 2 → length (list_prefix n) ≡ 1
unfolding list_prefix
prefix_length n e = rw e refl

read_list-encode_list_example :
    let c = concat_items sample_items in
    let left = spend (length (list_prefix (length c))) (9 ∷ []) in
    read_list (reader (encode_list sample_items ++ []) (9 ∷ []))
    ≡ (ok (reader (c ++ []) (length c ∷ left)), reader (c ++ []) left)
read_list-encode_list_example =
    read_list-encode_list sample_items [] (9 ∷ []) (omega (arith, items_length))
      (omega (arith, prefix_length (length (concat_items sample_items)) items_length), tt)
