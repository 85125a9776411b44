-- ===== src/Rlp/Reader.antt =====
-- RLPReader of algorithms/serialization.go. The `io.Reader` is the bytes that it has still to give
-- and, under an `io.LimitReader`, a limit. `io.ReadFull` fails if fewer bytes come than it wants, and
-- has then taken those that came.
pub mod Laws
pub mod Headers
use go_algorithm_practice.Prelude.{
  ℕ, zero, suc, ◌+◌, ◌-◌, ◌^◌, ◌≤◌, ◌<◌, ◌≡◌, refl, sym, ap, ◌∙◌, arith, Bool, true, false, ◌&&◌,
  inl, inr, Option, none, some, min, List, [], ◌∷◌, ◌++◌, append_assoc, if◌then◌else◌, ◌==◌, ltb,
  leb, length, length-append, take, drop, Bool-cases,
}
use go_algorithm_practice.Prelude.Run.{Run, ok, err, panic, out_of_fuel, ◌>>=◌}
use go_algorithm_practice.Rlp.BigEndian.{
  decode_big_endian-encode_big_endian, length-encode_big_endian,
}
use go_algorithm_practice.Rlp.Strings.{len_bytes, encode_string-short, encode_string-long}
use go_algorithm_practice.Rlp.{
  Bytes, Error, end_of_stream, got_list_prefix, got_string_prefix, is_small_byte, decode_big_endian,
  encode_big_endian, encode_string, encode_list, list_prefix, concat_items, ltb_int,
}

-- The limits are those of the reader itself and of the readers that it is a part of: all of them
-- count the bytes that it reads.
pub record Reader : Type 0 where
  pub stream : Bytes
  pub limits : List ℕ

abbrev pub available : ℕ → List ℕ → ℕ
available n [] = n
available n (l ∷ ls) = available (min n l) ls

abbrev pub spend : ℕ → List ℕ → List ℕ
spend n [] = []
spend n (l ∷ ls) = (l - n) ∷ spend n ls

unfoldable pub advance : ℕ → Reader → Reader
advance n r = record { stream = drop n r.stream; limits = spend n r.limits }

abbrev pub Read : Type 0 → Type 0
Read A = Run Error A × Reader

-- io.ReadFull into a new slice of `n` bytes.
unfoldable pub read_full : ℕ → Reader → Read Bytes
unfolding advance
read_full n r =
    let some_bytes = available (length r.stream) r.limits in
    if leb n some_bytes
    then (ok (take n r.stream), advance n r)
    else (err end_of_stream, advance some_bytes r)

infixl 5 ◌>>=ᵣ◌
abbrev pub ◌>>=ᵣ◌ : {A B : Type 0} → Read A → (A → Reader → Read B) → Read B
(ok a, r) >>=ᵣ f = f a r
(err e, r) >>=ᵣ f = (err e, r)
(panic, r) >>=ᵣ f = (panic, r)
(out_of_fuel, r) >>=ᵣ f = (out_of_fuel, r)

-- `make([]byte, n)`, which panics on a negative length, and ReadFull into it.
unfoldable pub read_new : ℕ → Reader → Read Bytes
unfolding read_full
read_new n r = if ltb n (2 ^ 63) then read_full n r else (panic, r)

abbrev pub first_byte : Bytes → ℕ
first_byte [] = 0
first_byte (b ∷ bs) = b

-- What ReadString does behind the prefix byte.
unfoldable pub read_string_by_key : ℕ → Reader → Read Bytes
unfolding read_new
read_string_by_key key r =
    if leb key 0x7f
    then (ok (key ∷ []), r)
    else if key == 0x80
    then (ok [], r)
    else if leb key 0xb7
    then read_new (key - 0x80) r
    else (if leb key 0xbf
        then (read_new (key - 0xb7) r >>=ᵣ λ bs r'. read_new (decode_big_endian bs) r')
        else (err got_list_prefix, r))

unfoldable pub read_string : Reader → Read Bytes
unfolding read_full read_string_by_key
read_string r = read_full 1 r >>=ᵣ λ prefix r'. read_string_by_key (first_byte prefix) r'

-- io.LimitReader: a negative limit lets nothing through.
unfoldable pub limit_reader : ℕ → Reader → Reader
limit_reader n r = record {
  stream = r.stream;
  limits = (if ltb n (2 ^ 63) then n else 0) ∷ r.limits;
}

-- The length of the payload that ReadList finds behind the prefix byte.
unfoldable pub read_payload_len : ℕ → Reader → Read ℕ
unfolding read_new
read_payload_len key r =
    if key == 0xc0
    then (ok 0, r)
    else if ltb 0xc0 key && leb key 0xf7
    then (ok (key - 0xc0), r)
    else (if ltb 0xf7 key
        then (read_new (key - 0xf7) r >>=ᵣ λ bs r'. (ok (decode_big_endian bs), r'))
        else (err got_string_prefix, r))

-- ReadList: the reader of the payload, and the reader it was called on, which is what is left when
-- the limit of the payload's reader is taken off.
unfoldable pub read_list : Reader → Read Reader
unfolding read_full read_payload_len limit_reader
read_list r = read_full 1 r >>=ᵣ λ prefix r'.
    read_payload_len (first_byte prefix) r' >>=ᵣ λ n r''. (ok (limit_reader n r''), r'')
