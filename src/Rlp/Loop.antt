-- ===== src/Rlp/Loop.antt =====
-- A list that RLPDecode of algorithms/serialization.go never finishes: it holds a long list whose
-- length, read as an `int`, is -9. That item consumes 1 + 8 - 9 = 0 bytes, so the loop of the outer
-- list decodes it again and again, and appends it each time.
use go_algorithm_practice.Prelude.{
  ℕ, zero, suc, ◌+◌, ◌-◌, ◌^◌, ◌<◌, ◌≡◌, ◌⊎◌, refl, ap, ◌∙◌, arith, true, false, inl, inr, [], ◌∷◌,
  ◌++◌, length, length-append,
}
use go_algorithm_practice.Prelude.Run.{ok, out_of_fuel, ◌>>=◌}
use go_algorithm_practice.Rlp.Slices.{decode_item-key}
use go_algorithm_practice.Rlp.Strings.{read_length-middle}
use go_algorithm_practice.Rlp.{Bytes, add_int, ltb_int, decode_big_endian}
use go_algorithm_practice.Rlp.Decoder.{
  Value, Values, snoc, read_length, decode_long_list, decode_short_list, decode_by_key, decode_item,
  decode_loop, decode,
}

-- The eight bytes of 2 ^ 64 - 9.
abbrev minus_nine : Bytes
minus_nine = 0xff ∷ 0xff ∷ 0xff ∷ 0xff ∷ 0xff ∷ 0xff ∷ 0xff ∷ 0xf7 ∷ []

abbrev pub hostile : Bytes
hostile = 0xff ∷ minus_nine

minus_nine-value : decode_big_endian minus_nine ≡ 2 ^ 64 - 9
unfolding decode_big_endian
minus_nine-value = refl

module _ (p q : Bytes) (h : length (p ++ (hostile ++ q)) < 2 ^ 63) where
  abbrev bs : Bytes
  bs = p ++ (hostile ++ q)

  -- The payload of the item begins behind its length and ends nine bytes before it begins.
  abbrev payload : ℕ
  payload = add_int (add_int (length p) 1) 8

  size : length p + 9 < 2 ^ 63
  size = omega (arith, length-append p (hostile ++ q))

  hostile_item :
      (f : ℕ)
      → decode_item (suc f) bs (length p) ≡ (
          decode_loop f bs payload (add_int payload (2 ^ 64 - 9)) Values.end >>= λ items.
          ok (Value.list items, 0))
  unfolding decode_by_key decode_long_list
  hostile_item f =
      let spelled : read_length bs (length p) 8 ≡ ok (2 ^ 64 - 9) =
        read_length-middle p 0xff minus_nine q h ∙ ap ok minus_nine-value in
      decode_item-key f p 0xff (minus_nine ++ q) h ∙ rw (spelled, decode_by_key)

  -- The inner item decodes to an empty list with no byte consumed, once there is fuel for it.
  hostile_key :
      (f : ℕ)
      → (decode_item f bs (length p) ≡ out_of_fuel)
        ⊎ (decode_item f bs (length p) ≡ ok (Value.list Values.end, 0))
  unfolding decode_loop
  hostile_key zero = inl refl
  hostile_key (suc zero) = inl (hostile_item 0)
  hostile_key (suc (suc f)) =
      let backwards : ltb_int payload (add_int payload (2 ^ 64 - 9)) ≡ false =
        let room = size in ground arith in
      inr (hostile_item (suc f) ∙ rw (backwards, decode_loop))

  -- The outer loop, at the place of such an item before its end, uses up any fuel.
  pub decode_loop-hostile :
      (f stop : ℕ) (acc : Values)
      → ltb_int (length p) stop ≡ true
      → decode_loop f bs (length p) stop acc ≡ out_of_fuel
  unfolding decode_loop
  decode_loop-hostile zero stop acc more = refl
  decode_loop-hostile (suc f) stop acc more =
      let stays : add_int (length p) 0 ≡ length p = let room = size in omega arith in
      elim (hostile_key f) [
        | inl e ↦ rw (more, decode_loop, e)
        | inr e ↦
            rw (more, decode_loop, e, stays)
              (decode_loop-hostile f stop (snoc acc (Value.list Values.end)) more)
      ]

-- RLPDecode never returns on a short list of nine bytes that holds a long list of length -9: it
-- uses up any fuel, whatever follows.
pub decode-hostile :
    (f : ℕ) (q : Bytes) → length q < 2 ^ 62 → decode f (0xc9 ∷ hostile ++ q) ≡ out_of_fuel
unfolding decode decode_by_key decode_short_list
decode-hostile zero q h = unfold decode_item in refl
decode-hostile (suc f) q h =
    let endless = decode_loop-hostile (0xc9 ∷ []) q (omega arith) f 10 Values.end refl in
    rw (decode_item-key f [] 0xc9 (hostile ++ q) (omega arith), decode_by_key, endless)
