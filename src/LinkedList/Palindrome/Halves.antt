-- ===== src/LinkedList/Palindrome/Halves.antt =====
-- A list is a palindrome if its first half agrees with its reversed second half.
use mathlib.Core.List.{reverse, reverse_aux}
use go_algorithm_practice.Prelude.{
  ℕ, zero, suc, ◌+◌, ◌-◌, ◌/◌, ◌<◌, ◌≡◌, ◌↔◌, refl, sym, ap, ◌∙◌, arith, Bool, true, false, inl,
  inr, List, [], ◌∷◌, if◌then◌else◌, ltb, length, length-take, length-drop, take, drop, get_or,
  get_or-take, Bool-cases,
}
use go_algorithm_practice.Prelude.Int.{ℤ, ◌==ℤ◌, ==ℤ_iff, pos}

-- The same values as far as both lists go.
abbrev pub agrees : List ℤ → List ℤ → Bool
agrees [] ys = true
agrees (x ∷ xs) [] = true
agrees (x ∷ xs) (y ∷ ys) = if x ==ℤ y then agrees xs ys else false

agrees_at :
    (xs ys : List ℤ) (i : ℕ)
    → agrees xs ys ≡ true
    → i < length xs
    → i < length ys
    → get_or xs i (pos 0) ≡ get_or ys i (pos 0)
agrees_at [] ys i e lt lt' = absurd (omega arith)
agrees_at (x ∷ xs) [] i e lt lt' = absurd (omega arith)
agrees_at (x ∷ xs) (y ∷ ys) zero e lt lt' = ground (arith, ==ℤ_iff x y)
agrees_at (x ∷ xs) (y ∷ ys) (suc i) e lt lt' =
    agrees_at xs ys i (ground arith) (omega arith) (omega arith)

agrees_from :
    (xs ys : List ℤ)
    → ((i : ℕ) → i < length xs → i < length ys → get_or xs i (pos 0) ≡ get_or ys i (pos 0))
    → agrees xs ys ≡ true
agrees_from [] ys f = refl
agrees_from (x ∷ xs) [] f = refl
agrees_from (x ∷ xs) (y ∷ ys) f =
    let here : (x ==ℤ y) ≡ true = (==ℤ_iff x y).1 (f 0 (omega arith) (omega arith)) in
    rw here (agrees_from xs ys (λ i lt lt'. f (suc i) (omega arith) (omega arith)))

ext :
    (xs ys : List ℤ)
    → length xs ≡ length ys
    → ((i : ℕ) → i < length xs → get_or xs i (pos 0) ≡ get_or ys i (pos 0))
    → xs ≡ ys
ext [] [] e f = refl
ext [] (y ∷ ys) e f = absurd (omega arith)
ext (x ∷ xs) [] e f = absurd (omega arith)
ext (x ∷ xs) (y ∷ ys) e f =
    rw (f 0 (omega arith), ext xs ys (omega arith) (λ i lt. f (suc i) (omega arith))) refl

length-reverse_aux : (xs ys : List ℤ) → length (reverse_aux xs ys) ≡ length xs + length ys
length-reverse_aux [] ys = omega arith
length-reverse_aux (x ∷ xs) ys = omega (arith, length-reverse_aux xs (x ∷ ys))

get_or-reverse_aux_later :
    (xs ys : List ℤ) (i j : ℕ)
    → j ≡ length xs + i
    → get_or (reverse_aux xs ys) j (pos 0) ≡ get_or ys i (pos 0)
get_or-reverse_aux_later [] ys i j e = ap (λ k. get_or ys k (pos 0)) (omega arith)
get_or-reverse_aux_later (x ∷ xs) ys i j e =
    get_or-reverse_aux_later xs (x ∷ ys) (suc i) j (omega arith)

-- The item at a position of the reversed list.
get_or-reverse_aux :
    (xs ys : List ℤ) (i j : ℕ)
    → i + j + 1 ≡ length xs
    → get_or (reverse_aux xs ys) i (pos 0) ≡ get_or xs j (pos 0)
get_or-reverse_aux [] ys i j e = absurd (omega arith)
get_or-reverse_aux (x ∷ xs) ys i zero e = get_or-reverse_aux_later xs (x ∷ ys) 0 i (omega arith)
get_or-reverse_aux (x ∷ xs) ys i (suc j) e = get_or-reverse_aux xs (x ∷ ys) i j (omega arith)

get_or-drop :
    (k : ℕ) (xs : List ℤ) (i j : ℕ) → j ≡ k + i → get_or (drop k xs) i (pos 0) ≡ get_or xs j (pos 0)
get_or-drop zero xs i j e = ap (λ m. get_or xs m (pos 0)) (omega arith)
get_or-drop (suc k) [] i j e = refl
get_or-drop (suc k) (x ∷ xs) i zero e = absurd (omega arith)
get_or-drop (suc k) (x ∷ xs) i (suc j) e = get_or-drop k xs i j (omega arith)

-- What the two halves have at a position, in terms of the list.
module _ (xs : List ℤ) (i j : ℕ) (mirror : i + j + 1 ≡ length xs)
    (first : i < length xs - length xs / 2) where
  at_front : get_or (take (suc (length xs / 2)) xs) i (pos 0) ≡ get_or xs i (pos 0)
  at_front = get_or-take (suc (length xs / 2)) xs i (pos 0) (omega arith)

  at_back : get_or (reverse (drop (length xs / 2) xs)) i (pos 0) ≡ get_or xs j (pos 0)
  at_back =
      let half = length xs / 2 in
      get_or-reverse_aux (drop half xs) [] i (j - half) (omega (arith, length-drop half xs))
      ∙ get_or-drop half xs (j - half) j (omega arith)

mirrored :
    (xs : List ℤ) (i j : ℕ)
    → i + j + 1 ≡ length xs
    → i < length xs - length xs / 2
    → agrees (take (suc (length xs / 2)) xs) (reverse (drop (length xs / 2) xs)) ≡ true
    → get_or xs i (pos 0) ≡ get_or xs j (pos 0)
mirrored xs i j mirror first e =
    let half = length xs / 2 in
    let back = length-reverse_aux (drop half xs) [] in
    let rest = length-drop half xs in
    let front = length-take (suc half) xs in
    sym (at_front xs i j mirror first)
    ∙ agrees_at (take (suc half) xs) (reverse (drop half xs)) i e (omega arith) (omega arith)
    ∙ at_back xs i j mirror first

pub agrees-halves :
    (xs : List ℤ)
    → (agrees (take (suc (length xs / 2)) xs) (reverse (drop (length xs / 2) xs)) ≡ true)
      ↔ (reverse xs ≡ xs)
agrees-halves xs =
    let half = length xs / 2 in
    let all = length-reverse_aux xs [] in
    let back = length-reverse_aux (drop half xs) [] in
    let rest = length-drop half xs in
    (
      λ e. ext (reverse xs) xs (omega arith) (λ i lt.
          let j = length xs - i - 1 in
          get_or-reverse_aux xs [] i j (omega arith)
          ∙ elim (Bool-cases (ltb i (length xs - half))) [
            | inl early ↦ sym (mirrored xs i j (omega arith) (ground arith) e)
            | inr late ↦ mirrored xs j i (omega arith) (ground arith) e
          ]),
      λ e. agrees_from (take (suc half) xs) (reverse (drop half xs)) (λ i lt lt'.
          let j = length xs - i - 1 in
          let mirror : i + j + 1 ≡ length xs = omega arith in
          at_front xs i j mirror (omega arith)
          ∙ sym (ap (λ l. get_or l i (pos 0)) e)
          ∙ get_or-reverse_aux xs [] i j mirror
          ∙ sym (at_back xs i j mirror (omega arith))),
    )
