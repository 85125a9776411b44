-- ===== src/Rlp/Decoder.antt =====
-- rlpDecodeItem and RLPDecode of algorithms/serialization.go. Recursion takes fuel: one unit for each
-- call and for each round of the loops over the items of a list.
use go_algorithm_practice.Prelude.{
  ℕ, zero, suc, ◌+◌, ◌-◌, true, false, not, [], if◌then◌else◌, ◌==◌, leb, length, get_elem?,
}
use go_algorithm_practice.Prelude.Run.{Run, ok, err, out_of_fuel, ◌>>=◌}
use go_algorithm_practice.Rlp.{
  Bytes, Error, empty_data, out_of_bounds, add_int, ltb_int, slice, or_panic, decode_big_endian,
}

-- What RLPDecode returns as an `interface{}`: the string "" of a one-byte empty string, a byte, a
-- slice of bytes, or a slice of values. An empty list comes back as an empty slice of bytes.
mutual
  pub data Value : Type 0 where
    empty_text : Value
    byte : ℕ → Value
    bytes : Bytes → Value
    list : Values → Value

  pub data Values : Type 0 where
    end : Values
    item : Value → Values → Values

-- append(items, item)
unfoldable pub snoc : Values → Value → Values
snoc end v = item v end
snoc (item w ws) v = item w (snoc ws v)

-- A decoded value and the bytes consumed.
abbrev pub Decoded : Type 0
Decoded = Run Error (Value × ℕ)

-- The cases 0x80 to 0xb7: the value of a short string.
unfoldable pub decode_short_string : Bytes → ℕ → ℕ → Decoded
unfolding slice
decode_short_string bs offset n =
    slice bs (add_int offset 1) (add_int (add_int offset 1) n) >>= λ v. ok (Value.bytes v, n + 1)

-- The number that the `k` bytes behind the prefix spell.
unfoldable pub read_length : Bytes → ℕ → ℕ → Run Error ℕ
unfolding slice decode_big_endian
read_length bs offset k =
    slice bs (add_int offset 1) (add_int (add_int offset 1) k) >>= λ v. ok (decode_big_endian v)

unfoldable pub decode_long_string : Bytes → ℕ → ℕ → Decoded
unfolding slice read_length
decode_long_string bs offset k = read_length bs offset k >>= λ n.
    let start = add_int (add_int offset 1) k in
    let total_consumed = add_int (1 + k) n in
    slice bs start (add_int start n) >>= λ v. ok (Value.bytes v, total_consumed)

-- The loop of the two list cases, on the bytes from `pos` up to `end_pos`, with the items so far.
abbrev pub ItemLoop : Type 0
ItemLoop = ℕ → ℕ → Values → Run Error Values

unfoldable pub decode_short_list : ItemLoop → ℕ → ℕ → Decoded
decode_short_list loop offset n =
    let pos = add_int offset 1 in
    loop pos (add_int pos n) Values.end >>= λ items. ok (Value.list items, 1 + n)

unfoldable pub decode_long_list : ItemLoop → Bytes → ℕ → ℕ → Decoded
unfolding read_length
decode_long_list loop bs offset k = read_length bs offset k >>= λ n.
    let pos = add_int (add_int offset 1) k in
    loop pos (add_int pos n) Values.end >>= λ items. ok (Value.list items, add_int (1 + k) n)

-- What rlpDecodeItem does with the prefix byte `key`, in the order of its tests.
unfoldable pub decode_by_key : ItemLoop → Bytes → ℕ → ℕ → Decoded
unfolding decode_short_string decode_long_string decode_short_list decode_long_list
decode_by_key loop bs offset key =
    if key == 0x80
    then ok (Value.empty_text, 1)
    else if key == 0xc0
    then ok (Value.bytes [], 1)
    else if leb key 0x7f
    then ok (Value.byte key, 1)
    else if leb key 0xb7
    then decode_short_string bs offset (key - 0x80)
    else if leb key 0xbf
    then decode_long_string bs offset (key - 0xb7)
    else (if leb key 0xf7
        then decode_short_list loop offset (key - 0xc0)
        else decode_long_list loop bs offset (key - 0xf7))

unfoldable mutual
  unfolding decode_by_key snoc

  -- rlpDecodeItem, with fuel for the calls of itself and the rounds of its loops.
  pub decode_item : ℕ → Bytes → ℕ → Decoded
  decode_item zero bs offset = out_of_fuel
  decode_item (suc fuel) bs offset =
      if length bs == 0
      then err empty_data
      else if not (ltb_int offset (length bs))
      then err out_of_bounds
      else (or_panic (get_elem? bs offset) >>= λ key.
          decode_by_key (decode_loop fuel bs) bs offset key)

  pub decode_loop : ℕ → Bytes → ℕ → ℕ → Values → Run Error Values
  decode_loop zero bs pos end_pos items = out_of_fuel
  decode_loop (suc fuel) bs pos end_pos items = elim (ltb_int pos end_pos) [
    | true ↦ decode_item fuel bs pos >>= λ (v, consumed).
        decode_loop fuel bs (add_int pos consumed) end_pos (snoc items v)
    | false ↦ ok items
  ]

-- RLPDecode
unfoldable pub decode : ℕ → Bytes → Run Error Value
unfolding decode_item
decode fuel bs = decode_item fuel bs 0 >>= λ (v, consumed). ok v
