-- ===== src/Rlp/Reader/Headers.antt =====
-- Reading the headers of lists that RLPEncodeList of algorithms/serialization.go wrote.
use go_algorithm_practice.Prelude.{
  ℕ, suc, ◌+◌, ◌-◌, ◌^◌, ◌≤◌, ◌<◌, ◌≡◌, refl, arith, true, false, ◌&&◌, inl, inr, List, [], ◌∷◌,
  ◌++◌, append_assoc, ◌==◌, ltb, leb, length, Bool-cases,
}
use go_algorithm_practice.Prelude.Run.{ok}
use go_algorithm_practice.Rlp.BigEndian.{
  decode_big_endian-encode_big_endian, length-encode_big_endian,
}
use go_algorithm_practice.Rlp.Lists.{list_prefix-short, list_prefix-long}
use go_algorithm_practice.Rlp.{Bytes, encode_big_endian, encode_list, list_prefix, concat_items}
use go_algorithm_practice.Rlp.Reader.{Reader, spend, limit_reader, read_payload_len, read_list}
use go_algorithm_practice.Rlp.Reader.Laws.{
  HasRoom, HasRoom-le, HasRoom-spend, spend-spend, reader, read_full-middle, read_new-middle,
}

payload_len_short : (n : ℕ) (r : Reader) → n ≤ 55 → read_payload_len (0xc0 + n) r ≡ (ok n, r)
unfolding read_payload_len
payload_len_short n r small = let back : 0xc0 + n - 0xc0 ≡ n = omega arith in ground arith

payload_len_long :
    (n : ℕ) (rest : Bytes) (ls : List ℕ)
    → n < 2 ^ 63
    → HasRoom (length (encode_big_endian n)) ls
    → read_payload_len
        (0xf7 + length (encode_big_endian n))
        (reader (encode_big_endian n ++ rest) ls)
      ≡ (ok n, reader rest (spend (length (encode_big_endian n)) ls))
unfolding read_payload_len
payload_len_long n rest ls small room =
    let lb = encode_big_endian n in
    let bounds = length-encode_big_endian n in
    let back : 0xf7 + length lb - 0xf7 ≡ length lb = omega arith in
    let value = decode_big_endian-encode_big_endian n (omega arith) in
    let read = read_new-middle (length lb) lb rest ls refl (omega arith) room in
    rw (
      (let t : (0xf7 + length lb == 0xc0) ≡ false = ground arith in t),
      (let t : (ltb 0xc0 (0xf7 + length lb) && leb (0xf7 + length lb) 0xf7) ≡ false =
            ground arith in
          t),
      (let t : ltb 0xf7 (0xf7 + length lb) ≡ true = ground arith in t),
      back,
      read,
      value,
    )

list_header :
    (n : ℕ) (rest : Bytes) (ls : List ℕ)
    → n < 2 ^ 63
    → HasRoom (length (list_prefix n)) ls
    → read_list (reader (list_prefix n ++ rest) ls) ≡ (
      ok (reader rest (n ∷ spend (length (list_prefix n)) ls)),
      reader rest (spend (length (list_prefix n)) ls),
    )
unfolding read_list limit_reader
list_header n rest ls small room =
    let limit : ltb n (2 ^ 63) ≡ true = ground arith in
    elim (Bool-cases (leb n 55)) [
      | inl short ↦
          let form = list_prefix-short n (ground arith) in
          let room' : HasRoom 1 ls = rw form at room in
          rw (
            form,
            read_full-middle 1 ((0xc0 + n) ∷ []) rest ls refl room',
            payload_len_short n (reader rest (spend 1 ls)) (ground arith),
            limit,
          )
      | inr long ↦
          let form = list_prefix-long n (ground arith) in
          let lb = encode_big_endian n in
          let all : 1 + length lb ≡ suc (length lb) = omega arith in
          let room' : HasRoom (1 + length lb) ls = rw all (rw form at room) in
          rw (
            form,
            read_full-middle 1 ((0xf7 + length lb) ∷ []) (lb ++ rest) ls refl
                (HasRoom-le 1 (1 + length lb) ls (omega arith) room'),
            payload_len_long n rest (spend 1 ls) small (HasRoom-spend 1 (length lb) ls room'),
            limit,
            spend-spend 1 (length lb) ls,
            all,
          )
    ]

-- ReadList on what RLPEncodeList wrote returns a reader that stands before the items and whose limit
-- is their length, and leaves the reader that it is called on there too. It holds for a payload of
-- fewer than 2 ^ 63 bytes and a reader whose limits let the header through.
pub read_list-encode_list :
    (items : List Bytes) (rest : Bytes) (ls : List ℕ)
    → length (concat_items items) < 2 ^ 63
    → HasRoom (length (list_prefix (length (concat_items items)))) ls
    → let c = concat_items items in
      let left = spend (length (list_prefix (length c))) ls in
      read_list (reader (encode_list items ++ rest) ls)
      ≡ (ok (reader (c ++ rest) (length c ∷ left)), reader (c ++ rest) left)
unfolding encode_list
read_list-encode_list items rest ls small room =
    let c = concat_items items in
    let regroup = append_assoc (list_prefix (length c)) c rest in
    rw regroup (list_header (length c) (c ++ rest) ls small room)
