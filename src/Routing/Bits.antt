-- ===== src/Routing/Bits.antt =====
-- The bits of an IPv4 address as the 32 binary digits of its value, against those that getBit of
-- practice/routing_table.go reads.
use go_algorithm_practice.Prelude.{
  ℕ, zero, suc, ◌+◌, ◌-◌, ◌*◌, ◌/◌, ◌%◌, ◌^◌, ◌<◌, ◌≤◌, ◌≡◌, refl, ap, ◌∙◌, arith, true, List, [],
  ◌∷◌, leb, take, length,
}
use go_algorithm_practice.Routing.{get_bit, bit_in_round}

abbrev pub Prefix : Type 0
Prefix = List ℕ

abbrev pub AllBits : Prefix → Type 0
AllBits [] = Unit
AllBits (b ∷ p) = (b < 2) × AllBits p

-- The number that bits stand for, the highest one first.
abbrev pub value : Prefix → ℕ
value [] = 0
value (b ∷ p) = b * 2 ^ length p + value p

-- The 32 bits of the IPv4 address with this number.
pub record IsAddress (addr : ℕ) (bits : Prefix) : Type 0 where
  pub binary : AllBits bits
  pub size : length bits ≡ 32
  pub number : value bits ≡ addr

-- The bits that the loops read from round `j` on.
abbrev pub bits_from : ℕ → ℕ → ℕ → Prefix
bits_from addr zero j = []
bits_from addr (suc left) j = bit_in_round addr j ∷ bits_from addr left (j + 1)

value-lt : (p : Prefix) → AllBits p → value p < 2 ^ length p
value-lt [] h = omega arith
value-lt (b ∷ p) (bit, h) = let ih = value-lt p h in grind arith

digit : (p q r : ℕ) → r < p → (q * p + r) / p ≡ q
digit p q r h = grind arith

first_bit :
    (above b : ℕ) (p : Prefix)
    → b < 2
    → AllBits p
    → ((above * 2 + b) * 2 ^ length p + value p) / 2 ^ length p % 2 ≡ b
first_bit above b p bit h =
    let d = digit (2 ^ length p) (above * 2 + b) (value p) (value-lt p h) in
    ap (λ n. n % 2) d ∙ omega arith

-- The rounds read the digits in their order.
bits_from-take :
    (addr above left j : ℕ) (p : Prefix)
    → AllBits p
    → addr ≡ above * 2 ^ length p + value p
    → j + length p ≡ 32
    → left ≤ length p
    → bits_from addr left j ≡ take left p
unfolding bit_in_round get_bit
bits_from-take addr above zero j p h e at inside = refl
bits_from-take addr above (suc left) j [] h e at inside = absurd (omega arith)
bits_from-take addr above (suc left) j (b ∷ p) (bit, h) e at inside =
    let early : leb j 31 ≡ true = ground arith in
    let place : 31 - j ≡ length p = omega arith in
    let sum : addr ≡ (above * 2 + b) * 2 ^ length p + value p = grind arith in
    let first : bit_in_round addr j ≡ b = rw (early, place, sum) (first_bit above b p bit h) in
    let rest =
      bits_from-take addr (above * 2 + b) left (j + 1) p h sum (omega arith) (omega arith) in
    rw (first, rest) refl

pub address_bits :
    (addr : ℕ) (bits : Prefix) (left : ℕ)
    → IsAddress addr bits
    → left ≤ 32
    → bits_from addr left 0 ≡ take left bits
address_bits addr bits left a inside =
    let size = a.size in
    let number = a.number in
    bits_from-take addr 0 left 0 bits a.binary (omega arith) (omega arith) (omega arith)

pub take_all : (p : Prefix) (n : ℕ) → length p ≤ n → take n p ≡ p
take_all [] zero h = refl
take_all [] (suc n) h = refl
take_all (b ∷ p) zero h = absurd (omega arith)
take_all (b ∷ p) (suc n) h = ap (◌∷◌ b) (take_all p n (omega arith))

digits : (k addr : ℕ) → addr < 2 ^ k → (p : Prefix) × AllBits p × (length p ≡ k) × (value p ≡ addr)
digits zero addr h = ([], tt, refl, omega arith)
digits (suc k) addr h =
    let some_power : 0 < 2 ^ k = grind arith in
    let (p, binary, size, number) = digits k (addr % 2 ^ k) (grind arith) in
    let high : addr / 2 ^ k < 2 = grind arith in
    let whole : addr / 2 ^ k * 2 ^ k + addr % 2 ^ k ≡ addr = grind arith in
    (addr / 2 ^ k ∷ p, (high, binary), omega arith, rw (size, number) whole)

-- Every number of 32 bits has its bits.
pub digits-IsAddress : (addr : ℕ) → addr < 2 ^ 32 → (bits : Prefix) × IsAddress addr bits
digits-IsAddress addr h =
    let (p, binary, size, number) = digits 32 addr h in
    (p, record { binary = binary; size = size; number = number })
