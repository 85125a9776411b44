-- ===== src/Rlp/Slices.antt =====
-- Reading at a known place of a byte slice of algorithms/serialization.go.
use go_algorithm_practice.Prelude.{
  ℕ, suc, ◌+◌, ◌-◌, ◌^◌, ◌<◌, ◌≡◌, refl, ap, arith, true, some, [], ◌∷◌, ◌++◌, leb, length,
  get_elem?, take, drop, length-append,
}
use go_algorithm_practice.Prelude.Run.{ok}
use go_algorithm_practice.Rlp.{Bytes, slice}
use go_algorithm_practice.Rlp.Decoder.{decode_by_key, decode_item, decode_loop}

pub drop-append : (p xs : Bytes) → drop (length p) (p ++ xs) ≡ xs
drop-append [] xs = refl
drop-append (b ∷ p) xs = drop-append p xs

pub take-append : (m q : Bytes) → take (length m) (m ++ q) ≡ m
take-append [] q = refl
take-append (b ∷ m) q = ap (◌∷◌ b) (take-append m q)

pub get_elem?-middle : (p : Bytes) (k : ℕ) (q : Bytes) → get_elem? (p ++ k ∷ q) (length p) ≡ some k
get_elem?-middle [] k q = refl
get_elem?-middle (b ∷ p) k q = get_elem?-middle p k q

-- A slice between two places is what stands there.
pub slice-middle :
    (p m q : Bytes) (lo hi : ℕ)
    → lo ≡ length p
    → hi ≡ length p + length m
    → slice (p ++ (m ++ q)) lo hi ≡ ok m
unfolding slice
slice-middle p m q lo hi el eh =
    let size : length (p ++ (m ++ q)) ≡ length p + length m + length q =
      omega (arith, length-append p (m ++ q), length-append m q) in
    let width : hi - lo ≡ length m = omega arith in
    let low : leb lo hi ≡ true = ground arith in
    let high : leb hi (length (p ++ (m ++ q))) ≡ true = ground arith in
    rw (low, high, width, el, drop-append p (m ++ q)) (ap ok (take-append m q))

-- The prefix byte decides.
pub decode_item-key :
    (f : ℕ) (p : Bytes) (k : ℕ) (q : Bytes)
    → length (p ++ k ∷ q) < 2 ^ 63
    → decode_item (suc f) (p ++ k ∷ q) (length p)
      ≡ decode_by_key (decode_loop f (p ++ k ∷ q)) (p ++ k ∷ q) (length p) k
unfolding decode_item
decode_item-key f p k q h =
    let size = length-append p (k ∷ q) in ground (arith, get_elem?-middle p k q)
