-- ===== src/Rlp/Reader/Laws.antt =====
-- Reading what RLPEncodeString and RLPEncodeList of algorithms/serialization.go wrote.
use go_algorithm_practice.Prelude.{
  ℕ, suc, ◌+◌, ◌-◌, ◌^◌, ◌≤◌, ◌<◌, ◌≡◌, ◌⊎◌, refl, ◌∙◌, arith, true, false, inl, inr, min, List, [],
  ◌∷◌, ◌++◌, append_assoc, ◌==◌, ltb, leb, length, length-append, Bool-cases,
}
use go_algorithm_practice.Prelude.Run.{ok}
use go_algorithm_practice.Rlp.BigEndian.{
  decode_big_endian-encode_big_endian, length-encode_big_endian,
}
use go_algorithm_practice.Rlp.Slices.{drop-append, take-append}
use go_algorithm_practice.Rlp.Strings.{len_bytes, encode_string-short, encode_string-long}
use go_algorithm_practice.Rlp.{Bytes, is_small_byte, decode_big_endian, encode_string}
use go_algorithm_practice.Rlp.Reader.{
  Reader, available, spend, advance, read_full, ◌>>=ᵣ◌, read_new, read_string_by_key, read_string,
}

-- Every limit lets `n` bytes through.
abbrev pub HasRoom : ℕ → List ℕ → Type 0
HasRoom n [] = Unit
HasRoom n (l ∷ ls) = (n ≤ l) × HasRoom n ls

available-ge : (n k : ℕ) (ls : List ℕ) → n ≤ k → HasRoom n ls → n ≤ available k ls
available-ge n k [] h room = h
available-ge n k (l ∷ ls) h room = available-ge n (min k l) ls (omega arith) room.1

pub HasRoom-le : (m n : ℕ) (ls : List ℕ) → m ≤ n → HasRoom n ls → HasRoom m ls
HasRoom-le m n [] h room = tt
HasRoom-le m n (l ∷ ls) h room = (omega arith, HasRoom-le m n ls h room.1)

pub HasRoom-spend : (m n : ℕ) (ls : List ℕ) → HasRoom (m + n) ls → HasRoom n (spend m ls)
HasRoom-spend m n [] room = tt
HasRoom-spend m n (l ∷ ls) room = (omega arith, HasRoom-spend m n ls room.1)

pub spend-spend : (m n : ℕ) (ls : List ℕ) → spend n (spend m ls) ≡ spend (m + n) ls
spend-spend m n [] = refl
spend-spend m n (l ∷ ls) =
    let e : l - m - n ≡ l - (m + n) = omega arith in rw (e, spend-spend m n ls)

spend_zero : (ls : List ℕ) → spend 0 ls ≡ ls
spend_zero [] = refl
spend_zero (l ∷ ls) = let e : l - 0 ≡ l = omega arith in rw (e, spend_zero ls)

abbrev pub reader : Bytes → List ℕ → Reader
reader bs ls = record { stream = bs; limits = ls }

pub read_full-middle :
    (n : ℕ) (m rest : Bytes) (ls : List ℕ)
    → n ≡ length m
    → HasRoom n ls
    → read_full n (reader (m ++ rest) ls) ≡ (ok m, reader rest (spend n ls))
unfolding read_full advance
read_full-middle n m rest ls e room =
    let size = length-append m rest in
    let enough : leb n (available (length (m ++ rest)) ls) ≡ true =
      let some_bytes = available-ge n (length (m ++ rest)) ls (omega arith) room in ground arith in
    rw (enough, e, take-append m rest, drop-append m rest)

pub read_new-middle :
    (n : ℕ) (m rest : Bytes) (ls : List ℕ)
    → n ≡ length m
    → n < 2 ^ 63
    → HasRoom n ls
    → read_new n (reader (m ++ rest) ls) ≡ (ok m, reader rest (spend n ls))
unfolding read_new
read_new-middle n m rest ls e small room =
    let test : ltb n (2 ^ 63) ≡ true = ground arith in rw test (read_full-middle n m rest ls e room)

-- Two reads in a row, of a length and of as many bytes.
read_new_twice :
    (lb d rest : Bytes) (ls : List ℕ)
    → length lb ≤ 8
    → decode_big_endian lb ≡ length d
    → length d < 2 ^ 63
    → HasRoom (length lb + length d) ls
    → (read_new (length lb) (reader (lb ++ (d ++ rest)) ls) >>=ᵣ λ bs r'.
        read_new (decode_big_endian bs) r')
      ≡ (ok d, reader rest (spend (length lb + length d) ls))
read_new_twice lb d rest ls short value small room = rw (
  read_new-middle (length lb) lb (d ++ rest) ls refl (omega arith)
      (HasRoom-le (length lb) (length lb + length d) ls (omega arith) room),
  value,
  read_new-middle (length d) d rest (spend (length lb) ls) refl small
      (HasRoom-spend (length lb) (length d) ls room),
  spend-spend (length lb) (length d) ls,
)

-- ReadString by the prefix byte, in its four cases.
by_key_short :
    (d rest : Bytes) (ls : List ℕ)
    → length d ≤ 55
    → HasRoom (length d) ls
    → read_string_by_key (0x80 + length d) (reader (d ++ rest) ls)
      ≡ (ok d, reader rest (spend (length d) ls))
unfolding read_string_by_key
by_key_short [] rest ls small room = rw (spend_zero ls)
by_key_short (b ∷ d) rest ls small room =
    let n = length (b ∷ d) in
    let back : 0x80 + n - 0x80 ≡ n = omega arith in
    let read = read_new-middle n (b ∷ d) rest ls refl (omega arith) room in ground arith

by_key_long :
    (d rest : Bytes) (ls : List ℕ)
    → length d < 2 ^ 63
    → HasRoom (length (len_bytes d) + length d) ls
    → read_string_by_key (0xb7 + length (len_bytes d)) (reader (len_bytes d ++ (d ++ rest)) ls)
      ≡ (ok d, reader rest (spend (length (len_bytes d) + length d) ls))
unfolding read_string_by_key
by_key_long d rest ls small room =
    let lb = len_bytes d in
    let bounds = length-encode_big_endian (length d) in
    let back : 0xb7 + length lb - 0xb7 ≡ length lb = omega arith in
    let value = decode_big_endian-encode_big_endian (length d) (omega arith) in
    let reads = read_new_twice lb d rest ls bounds.1 value small room in
    rw
      (
        (let t : leb (0xb7 + length lb) 0x7f ≡ false = ground arith in t),
        (let t : (0xb7 + length lb == 0x80) ≡ false = ground arith in t),
        (let t : leb (0xb7 + length lb) 0xb7 ≡ false = ground arith in t),
        (let t : leb (0xb7 + length lb) 0xbf ≡ true = ground arith in t),
        back,
      )
      reads

read_string-key :
    (k : ℕ) (bs : Bytes) (ls : List ℕ)
    → HasRoom 1 ls
    → read_string (reader (k ∷ bs) ls) ≡ read_string_by_key k (reader bs (spend 1 ls))
unfolding read_string
read_string-key k bs ls room = rw (read_full-middle 1 (k ∷ []) bs ls refl room)

by_key_small : (b : ℕ) (r : Reader) → leb b 0x7f ≡ true → read_string_by_key b r ≡ (ok (b ∷ []), r)
unfolding read_string_by_key
by_key_small b r h = rw h

is_small_byte-cases :
    (d : Bytes) → (is_small_byte d ≡ false) ⊎ ((b : ℕ) × (d ≡ b ∷ []) × (leb b 0x7f ≡ true))
is_small_byte-cases [] = inl refl
is_small_byte-cases (b ∷ []) = elim (Bool-cases (leb b 0x7f)) [
  | inl e ↦ inr (b, refl, e)
  | inr e ↦ inl e
]
is_small_byte-cases (b ∷ c ∷ d) = inl refl

-- ReadString on what RLPEncodeString wrote returns the string and leaves what follows, for a string
-- of fewer than 2 ^ 63 bytes and a reader whose limits let the encoding through. Each limit falls by
-- the length of the encoding.
pub read_string-encode_string :
    (d rest : Bytes) (ls : List ℕ)
    → length d < 2 ^ 63
    → HasRoom (length (encode_string d)) ls
    → read_string (reader (encode_string d ++ rest) ls)
      ≡ (ok d, reader rest (spend (length (encode_string d)) ls))
read_string-encode_string d rest ls small room = elim (is_small_byte-cases d) [
  | inr (b, e, low) ↦
      let form : encode_string d ≡ b ∷ [] = unfold encode_string in rw (e, low) in
      rw (form, e) (read_string-key b rest ls (rw form at room) ∙ by_key_small b _ low)
  | inl h ↦ elim (Bool-cases (leb (length d) 55)) [
    | inl short ↦
        let form = encode_string-short d h (ground arith) in
        let all : 1 + length d ≡ suc (length d) = omega arith in
        let room' : HasRoom (1 + length d) ls = rw all (rw form at room) in
        rw form (
          read_string-key (0x80 + length d) (d ++ rest) ls
            (HasRoom-le 1 (1 + length d) ls (omega arith) room')
          ∙ by_key_short d rest (spend 1 ls) (ground arith) (HasRoom-spend 1 (length d) ls room')
          ∙ rw (spend-spend 1 (length d) ls, all))
    | inr long ↦
        let form = encode_string-long d h (ground arith) in
        let lb = len_bytes d in
        let all : 1 + (length lb + length d) ≡ suc (length (lb ++ d)) =
          omega (arith, length-append lb d) in
        let room' : HasRoom (1 + (length lb + length d)) ls = rw all (rw form at room) in
        let regroup : lb ++ d ++ rest ≡ lb ++ (d ++ rest) = append_assoc lb d rest in
        rw (form, regroup)
          (read_string-key (0xb7 + length lb) (lb ++ (d ++ rest)) ls
              (HasRoom-le 1 (1 + (length lb + length d)) ls (omega arith) room')
            ∙ by_key_long d rest (spend 1 ls) small
                (HasRoom-spend 1 (length lb + length d) ls room')
            ∙ rw (spend-spend 1 (length lb + length d) ls, all))
  ]
]
