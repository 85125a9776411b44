-- ===== src/Rlp/Lists.antt =====
-- Decoding what RLPEncodeList of algorithms/serialization.go wrote, given a loop that decodes the
-- items.
use go_algorithm_practice.Prelude.{
  ℕ, suc, ◌+◌, ◌-◌, ◌^◌, ◌≤◌, ◌<◌, ◌≡◌, refl, ap, ◌∙◌, arith, true, false, List, [], ◌∷◌, ◌++◌,
  append_assoc, inl, inr, leb, ltb, length, length-append, Bool-cases,
}
use go_algorithm_practice.Prelude.Run.{ok}
use go_algorithm_practice.Rlp.BigEndian.{
  decode_big_endian-encode_big_endian, length-encode_big_endian,
}
use go_algorithm_practice.Rlp.Slices.{decode_item-key}
use go_algorithm_practice.Rlp.Strings.{Fits, DecodesTo, read_length-middle}
use go_algorithm_practice.Rlp.{
  Bytes, add_int, add_byte, encode_big_endian, decode_big_endian, concat_items, list_prefix,
  encode_list,
}
use go_algorithm_practice.Rlp.Decoder.{
  Value, Values, ItemLoop, read_length, decode_short_list, decode_long_list, decode_by_key,
  decode_loop,
}

-- The loop of fuel `f` decodes the payload `c` at any place.
abbrev pub LoopDecodes : ℕ → Bytes → Values → Type 0
LoopDecodes f c vs =
    (p q : Bytes)
    → Fits p c q
    → decode_loop f (p ++ (c ++ q)) (length p) (length p + length c) Values.end ≡ ok vs

abbrev pub list_value : Values → Value
list_value Values.end = Value.bytes []
list_value (Values.item v vs) = Value.list (Values.item v vs)

decode_by_key_short_list :
    (loop : ItemLoop) (bs : Bytes) (off n : ℕ) (vs : Values)
    → 0 < n
    → n ≤ 55
    → off + 1 + n < 2 ^ 63
    → loop (off + 1) (off + 1 + n) Values.end ≡ ok vs
    → decode_by_key loop bs off (0xc0 + n) ≡ ok (Value.list vs, 1 + n)
unfolding decode_by_key decode_short_list
decode_by_key_short_list loop bs off n vs pos small room h =
    let start : add_int off 1 ≡ off + 1 = omega arith in
    let stop : add_int (off + 1) (0xc0 + n - 0xc0) ≡ off + 1 + n = omega arith in
    let back : 0xc0 + n - 0xc0 ≡ n = omega arith in
    let run : decode_short_list loop off (0xc0 + n - 0xc0) ≡ ok (Value.list vs, 1 + n) =
      rw (start, stop, h, back) in
    ground arith

decode_by_key_long_list :
    (loop : ItemLoop) (bs : Bytes) (off k n : ℕ) (vs : Values)
    → 1 ≤ k
    → k ≤ 8
    → off + 1 + k + n < 2 ^ 63
    → read_length bs off k ≡ ok n
    → loop (off + 1 + k) (off + 1 + k + n) Values.end ≡ ok vs
    → decode_by_key loop bs off (0xf7 + k) ≡ ok (Value.list vs, 1 + k + n)
unfolding decode_by_key decode_long_list
decode_by_key_long_list loop bs off k n vs low high room spelled h =
    let back : 0xf7 + k - 0xf7 ≡ k = omega arith in
    let start : add_int (add_int off 1) k ≡ off + 1 + k = omega arith in
    let stop : add_int (off + 1 + k) n ≡ off + 1 + k + n = omega arith in
    let total : add_int (1 + k) n ≡ 1 + k + n = omega arith in
    let run : decode_long_list loop bs off (0xf7 + k - 0xf7) ≡ ok (Value.list vs, 1 + k + n) =
      rw (back, spelled, start, stop, h, total) in
    ground arith

pub list_prefix-short : (n : ℕ) → n ≤ 55 → list_prefix n ≡ (0xc0 + n) ∷ []
unfolding list_prefix
list_prefix-short n h =
    let small : leb n 55 ≡ true = ground arith in
    let prefix : add_byte 0xc0 n ≡ 0xc0 + n = omega arith in rw (small, prefix)

pub list_prefix-long :
    (n : ℕ) → 55 < n → list_prefix n ≡ (0xf7 + length (encode_big_endian n)) ∷ encode_big_endian n
unfolding list_prefix
list_prefix-long n h =
    let large : leb n 55 ≡ false = ground arith in
    let bounds = length-encode_big_endian n in
    let prefix : add_byte 0xf7 (length (encode_big_endian n))
        ≡ 0xf7 + length (encode_big_endian n) =
      omega arith in
    rw (large, prefix)

-- A short list.
decode_item-short_list :
    (f : ℕ) (p c q : Bytes) (vs : Values)
    → LoopDecodes f c vs
    → 0 < length c
    → length c ≤ 55
    → Fits p ((0xc0 + length c) ∷ c) q
    → DecodesTo (suc f) p ((0xc0 + length c) ∷ c) q (Value.list vs)
decode_item-short_list f p c q vs h pos small fits =
    let n = length c in
    let k = 0xc0 + n in
    let size = length-append p (k ∷ c ++ q) in
    let sizes = length-append c q in
    let place = length-append p (k ∷ []) in
    let assoc = append_assoc p (k ∷ []) (c ++ q) in
    let inner = h (p ++ k ∷ []) q (rw assoc fits) in
    let at_place : length (p ++ k ∷ []) ≡ length p + 1 = omega arith in
    let loop : decode_loop f (p ++ (k ∷ c ++ q)) (length p + 1) (length p + 1 + n) Values.end
        ≡ ok vs =
      rw (assoc, at_place) at inner in
    decode_item-key f p k (c ++ q) fits
    ∙ decode_by_key_short_list _ (p ++ (k ∷ c ++ q)) (length p) n vs pos small (omega arith) loop
    ∙ ap (λ (m : ℕ). ok (Value.list vs, m)) (omega arith)

abbrev count_bytes : Bytes → Bytes
count_bytes c = encode_big_endian (length c)

-- A long list.
decode_item-long_list :
    (f : ℕ) (p c q : Bytes) (vs : Values)
    → LoopDecodes f c vs
    → Fits p ((0xf7 + length (count_bytes c)) ∷ count_bytes c ++ c) q
    → DecodesTo (suc f) p ((0xf7 + length (count_bytes c)) ∷ count_bytes c ++ c) q (Value.list vs)
decode_item-long_list f p c q vs h fits =
    let n = length c in
    let lb = count_bytes c in
    let k = 0xf7 + length lb in
    let bounds = length-encode_big_endian n in
    let regroup : p ++ (k ∷ lb ++ c ++ q) ≡ p ++ (k ∷ lb ++ (c ++ q)) = rw (append_assoc lb c q) in
    let room : length (p ++ (k ∷ lb ++ (c ++ q))) < 2 ^ 63 = rw regroup at fits in
    let size = length-append p (k ∷ lb ++ (c ++ q)) in
    let size_lb = length-append lb (c ++ q) in
    let size_c = length-append c q in
    let size_b = length-append lb c in
    let place = length-append p (k ∷ lb) in
    let assoc = append_assoc p (k ∷ lb) (c ++ q) in
    let back : decode_big_endian lb ≡ n = decode_big_endian-encode_big_endian n (omega arith) in
    let spelled : read_length (p ++ (k ∷ lb ++ (c ++ q))) (length p) (length lb) ≡ ok n =
      read_length-middle p k lb (c ++ q) room ∙ ap ok back in
    let inner = h (p ++ (k ∷ lb)) q (rw assoc room) in
    let at_place : length (p ++ (k ∷ lb)) ≡ length p + 1 + length lb = omega arith in
    let loop : decode_loop f (p ++ (k ∷ lb ++ (c ++ q))) (length p + 1 + length lb)
          (length p + 1 + length lb + n) Values.end
        ≡ ok vs =
      rw (assoc, at_place) at inner in
    rw regroup (
      decode_item-key f p k (lb ++ (c ++ q)) room
      ∙ decode_by_key_long_list _ (p ++ (k ∷ lb ++ (c ++ q))) (length p) (length lb) n vs bounds.0
          bounds.1 (omega arith) spelled loop
      ∙ ap (λ (m : ℕ). ok (Value.list vs, m)) (omega arith))

-- The empty list.
decode_item-empty_list :
    (f : ℕ) (p c q : Bytes)
    → length c ≡ 0
    → Fits p (list_prefix (length c) ++ c) q
    → DecodesTo (suc f) p (list_prefix (length c) ++ c) q (Value.bytes [])
unfolding list_prefix
decode_item-empty_list f p [] q e fits =
    decode_item-key f p 0xc0 q fits ∙ unfold decode_by_key in refl
decode_item-empty_list f p (x ∷ c) q e fits = absurd (omega arith)

-- RLPEncodeList, decoded at any place, if the loop decodes the items.
pub decode_item-encode_list :
    (f : ℕ) (p : Bytes) (items : List Bytes) (q : Bytes) (vs : Values)
    → LoopDecodes f (concat_items items) vs
    → (length (concat_items items) ≡ 0 → vs ≡ Values.end)
    → (0 < length (concat_items items) → list_value vs ≡ Value.list vs)
    → Fits p (encode_list items) q
    → DecodesTo (suc f) p (encode_list items) q (list_value vs)
unfolding encode_list
decode_item-encode_list f p items q vs h none_left some_left fits =
    let c = concat_items items in
    elim (Bool-cases (leb (length c) 55)) [
      | inr e ↦
          let form = list_prefix-long (length c) (ground arith) in
          rw (form, some_left (ground arith)) (decode_item-long_list f p c q vs h (rw form at fits))
      | inl e ↦
          let form = list_prefix-short (length c) (ground arith) in
          elim (Bool-cases (ltb 0 (length c))) [
            | inl pos ↦
                rw (form, some_left (ground arith))
                  (decode_item-short_list f p c q vs h (ground arith) (ground arith)
                    (rw form at fits))
            | inr nothing ↦
                let empty : length c ≡ 0 = ground arith in
                rw (none_left empty) (decode_item-empty_list f p c q empty fits)
          ]
    ]
