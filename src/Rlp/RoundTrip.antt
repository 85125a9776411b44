-- ===== src/Rlp/RoundTrip.antt =====
-- RLPDecode after RLPEncode of algorithms/serialization.go.
use go_algorithm_practice.Prelude.{
  ℕ, zero, suc, ◌+◌, ◌^◌, ◌≤◌, ◌<◌, ◌≡◌, refl, sym, ap, ◌∙◌, arith, true, false, List, [], ◌∷◌,
  ◌++◌, append_assoc, append-nil, inl, inr, if◌then◌else◌, ◌==◌, length, length-append, Bool-cases,
}
use go_algorithm_practice.Prelude.Run.{ok, ◌>>=◌, bind_inv}
use go_algorithm_practice.Rlp.Encodings.{encode_string_nil, encode_pos, encode_uint64-eq}
use go_algorithm_practice.Rlp.Strings.{Fits, DecodesTo, string_value, decode_item-encode_string}
use go_algorithm_practice.Rlp.Lists.{list_value, decode_item-encode_list}
use go_algorithm_practice.Rlp.{
  Bytes, Input, Inputs, add_int, ltb_int, encode_big_endian, concat_items, encode_list,
  encode_string, encode, encode_items,
}
use go_algorithm_practice.Rlp.Decoder.{Value, Values, snoc, decode_item, decode_loop, decode}

-- The value that an input comes back as.
abbrev mutual
  pub decoded : Input → Value
  decoded (Input.bytes bs) = string_value bs
  decoded (Input.text bs) = string_value bs
  decoded (Input.uint64 n) = if n == 0 then Value.empty_text else string_value (encode_big_endian n)
  decoded (Input.list xs) = list_value (decoded_items xs)
  decoded Input.null = Value.empty_text
  decoded Input.other = Value.empty_text

  pub decoded_items : Inputs → Values
  decoded_items Inputs.end = Values.end
  decoded_items (Inputs.item x xs) = Values.item (decoded x) (decoded_items xs)

-- The fuel that decoding an input needs: its values, and one for the end of each list.
abbrev mutual
  pub input_size : Input → ℕ
  input_size (Input.bytes bs) = 1
  input_size (Input.text bs) = 1
  input_size (Input.uint64 n) = 1
  input_size (Input.list xs) = suc (items_size xs)
  input_size Input.null = 1
  input_size Input.other = 1

  pub items_size : Inputs → ℕ
  items_size Inputs.end = 1
  items_size (Inputs.item x xs) = suc (input_size x + items_size xs)

append_values : Values → Values → Values
append_values Values.end ws = ws
append_values (Values.item v vs) ws = Values.item v (append_values vs ws)

append_values-snoc :
    (vs : Values) (v : Value) (ws : Values)
    → append_values (snoc vs v) ws ≡ append_values vs (Values.item v ws)
unfolding append_values snoc
append_values-snoc Values.end v ws = refl
append_values-snoc (Values.item u vs) v ws = ap (Values.item u) (append_values-snoc vs v ws)

append_values-end : (vs : Values) → append_values vs Values.end ≡ vs
unfolding append_values
append_values-end Values.end = refl
append_values-end (Values.item v vs) = ap (Values.item v) (append_values-end vs)

uint64_value :
    (n : ℕ) → string_value (if n == 0 then [] else encode_big_endian n) ≡ decoded (Input.uint64 n)
uint64_value n = elim (Bool-cases (n == 0)) [ inl e ↦ rw e | inr e ↦ rw e ]

-- The items of a list after those that the loop has read, decoded from their place.
abbrev ItemsDecode : ℕ → List Bytes → Values → Type 0
ItemsDecode f items vs =
    (p q : Bytes) (acc : Values)
    → Fits p (concat_items items) q
    → decode_loop f (p ++ (concat_items items ++ q)) (length p)
        (length p + length (concat_items items)) acc
      ≡ ok (append_values acc vs)

loop_stop :
    (f : ℕ) (bs : Bytes) (pos stop : ℕ) (acc : Values)
    → ltb_int pos stop ≡ false
    → decode_loop (suc f) bs pos stop acc ≡ ok acc
unfolding decode_loop
loop_stop f bs pos stop acc h = rw (h, decode_loop)

loop_step :
    (f : ℕ) (bs : Bytes) (pos stop : ℕ) (acc : Values) (v : Value) (n : ℕ)
    → ltb_int pos stop ≡ true
    → decode_item f bs pos ≡ ok (v, n)
    → decode_loop (suc f) bs pos stop acc ≡ decode_loop f bs (add_int pos n) stop (snoc acc v)
unfolding decode_loop
loop_step f bs pos stop acc v n h e = rw (h, decode_loop, e)

decode_loop-end : (f : ℕ) → ItemsDecode (suc f) [] Values.end
unfolding concat_items
decode_loop-end f p q acc fits =
    let size = length-append p q in
    loop_stop f (p ++ q) (length p) (length p + 0) acc (ground arith)
    ∙ ap ok (sym (append_values-end acc))

decode_loop-item :
    (f : ℕ) (b : Bytes) (items : List Bytes) (v : Value) (vs : Values)
    → 0 < length b
    → ((p q : Bytes) → Fits p b q → DecodesTo f p b q v)
    → ItemsDecode f items vs
    → ItemsDecode (suc f) (b ∷ items) (Values.item v vs)
unfolding concat_items
decode_loop-item f b items v vs pos first rest p q acc fits =
    let c = concat_items items in
    let regroup : p ++ (b ++ c ++ q) ≡ p ++ (b ++ (c ++ q)) = rw (append_assoc b c q) in
    let assoc = append_assoc p b (c ++ q) in
    let room : Fits p b (c ++ q) = rw regroup at fits in
    let size = length-append p (b ++ (c ++ q)) in
    let size_b = length-append b (c ++ q) in
    let size_c = length-append c q in
    let total : length (b ++ c) ≡ length b + length c = length-append b c in
    let place : length (p ++ b) ≡ length p + length b = length-append p b in
    let stop = length p + length (b ++ c) in
    let next : add_int (length p) (length b) ≡ length (p ++ b) = omega arith in
    let same_stop : stop ≡ length (p ++ b) + length c = omega arith in
    let more : ltb_int (length p) stop ≡ true = ground arith in
    let tail : decode_loop f (p ++ (b ++ (c ++ q))) (length (p ++ b)) (length (p ++ b) + length c)
          (snoc acc v)
        ≡ ok (append_values (snoc acc v) vs) =
      rw assoc at (rest (p ++ b) q (snoc acc v) (rw assoc room)) in
    rw regroup (
      loop_step f (p ++ (b ++ (c ++ q))) (length p) stop acc v (length b) more
        (first p (c ++ q) room)
      ∙ rw (next, same_stop) tail
      ∙ ap ok (append_values-snoc acc v vs))

decoded_items_nonempty :
    (xs : Inputs) (items : List Bytes)
    → encode_items xs ≡ ok items
    → ((length (concat_items items) ≡ 0 → decoded_items xs ≡ Values.end)
        × (0 < length (concat_items items)
            → list_value (decoded_items xs) ≡ Value.list (decoded_items xs)))
unfolding encode_items concat_items
decoded_items_nonempty Inputs.end items h =
    (λ e. refl, λ (pos : 0 < length (concat_items items)). absurd (ground arith))
decoded_items_nonempty (Inputs.item x xs) items h =
    let (b, first, rest) = bind_inv (encode x) (λ b. encode_items xs >>= λ bs. ok (b ∷ bs)) h in
    let (bs, others, form) = bind_inv (encode_items xs) (λ bs. ok (b ∷ bs)) rest in
    let pos = encode_pos x b first in
    let same : items ≡ b ∷ bs = cc in
    let some_bytes : 0 < length (concat_items items) =
      rw same (omega (arith, length-append b (concat_items bs))) in
    (λ e. absurd (omega arith), λ e. refl)

input_size_pos : (x : Input) → 0 < input_size x
input_size_pos (Input.bytes bs) = omega arith
input_size_pos x = omega arith

items_size_pos : (xs : Inputs) → 0 < items_size xs
items_size_pos Inputs.end = omega arith
items_size_pos (Inputs.item x xs) = omega arith

-- A string or a number in a list or alone.
decode_item_of_string :
    (f : ℕ) (d b : Bytes)
    → b ≡ encode_string d
    → (p q : Bytes) → Fits p b q
    → DecodesTo (suc f) p b q (string_value d)
decode_item_of_string f d b e p q fits = rw e (decode_item-encode_string f p d q (rw e at fits))

decode_item_of_list :
    (f : ℕ) (b : Bytes) (items : List Bytes) (vs : Values)
    → b ≡ encode_list items
    → ItemsDecode f items vs
    → (length (concat_items items) ≡ 0 → vs ≡ Values.end)
    → (0 < length (concat_items items) → list_value vs ≡ Value.list vs)
    → (p q : Bytes) → Fits p b q
    → DecodesTo (suc f) p b q (list_value vs)
unfolding append_values
decode_item_of_list f b items vs e h none_left some_left p q fits = rw e (
    decode_item-encode_list f p items q vs (λ p' q' room. h p' q' Values.end room) none_left
      some_left (rw e at fits))

mutual
  unfolding encode append_values

  decode_item-encode :
      (x : Input) (b : Bytes) (f : ℕ)
      → encode x ≡ ok b
      → input_size x ≤ f
      → (p q : Bytes) → Fits p b q
      → DecodesTo f p b q (decoded x)
  decode_item-encode x b zero h s p q fits = absurd (omega (arith, input_size_pos x))
  decode_item-encode (Input.bytes bs) b (suc f) h s p q fits =
      decode_item_of_string f bs b (cc) p q fits
  decode_item-encode (Input.text bs) b (suc f) h s p q fits =
      decode_item_of_string f bs b (cc) p q fits
  decode_item-encode (Input.uint64 n) b (suc f) h s p q fits = rw (← uint64_value n) (
      decode_item_of_string f (if n == 0 then [] else encode_big_endian n) b
        (cc (encode_uint64-eq n)) p q fits)
  decode_item-encode (Input.list xs) b (suc f) h s p q fits =
      let (items, got, form) = bind_inv (encode_items xs) (λ items. ok (encode_list items)) h in
      let content = decoded_items_nonempty xs items got in
      decode_item_of_list f b items (decoded_items xs) (cc)
        (decode_loop-encode_items xs items f got (omega arith)) content.0 content.1 p q fits
  decode_item-encode Input.null b (suc f) h s p q fits =
      decode_item_of_string f [] b (cc (encode_string_nil)) p q fits
  decode_item-encode Input.other b (suc f) h s p q fits = cc

  decode_loop-encode_items :
      (xs : Inputs) (items : List Bytes) (f : ℕ)
      → encode_items xs ≡ ok items
      → items_size xs ≤ f
      → ItemsDecode f items (decoded_items xs)
  decode_loop-encode_items xs items zero h s = absurd (omega (arith, items_size_pos xs))
  decode_loop-encode_items Inputs.end items (suc f) h s =
      let same : items ≡ [] = cc in rw same (decode_loop-end f)
  decode_loop-encode_items (Inputs.item x xs) items (suc f) h s =
      let (b, first, rest) = bind_inv (encode x) (λ b. encode_items xs >>= λ bs. ok (b ∷ bs)) h in
      let (bs, others, form) = bind_inv (encode_items xs) (λ bs. ok (b ∷ bs)) rest in
      let same : items ≡ b ∷ bs = cc in
      rw same (
        decode_loop-item f b bs (decoded x) (decoded_items xs) (encode_pos x b first)
          (decode_item-encode x b f first (omega arith))
          (decode_loop-encode_items xs bs f others (omega arith)))

-- If RLPEncode accepts a value, and the encoding is shorter than 2 ^ 63 bytes, RLPDecode of it ends
-- with one unit of fuel for each value and each list end, without an error or a panic. It returns
-- the bytes of a string, the big-endian bytes of a number and the values of a list, but a single
-- byte below 0x80 as a byte, the empty string, zero and nil as "", and an empty list as an empty
-- slice of bytes.
pub decode-encode :
    (x : Input) (b : Bytes) (f : ℕ)
    → encode x ≡ ok b
    → length b < 2 ^ 63
    → input_size x ≤ f
    → decode f b ≡ ok (decoded x)
unfolding decode
decode-encode x b f h small s =
    let whole : DecodesTo f [] b [] (decoded x) =
      decode_item-encode x b f h s [] [] (rw (append-nil b) small) in
    rw (rw (append-nil b) at whole)
