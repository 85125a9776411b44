-- ===== src/Bst/Sorted.antt =====
-- The abstract view of the search tree of data-structures/bst.go: a strictly ascending list, with
-- the operations that a set of integers has on it.
use go_algorithm_practice.Prelude.{
  ◌≡◌, refl, arith, Bool, true, false, ◌||◌, List, [], ◌∷◌, ◌++◌, if◌then◌else◌,
}
use go_algorithm_practice.Prelude.Int.{ℤ, ltb_ℤ, ◌==ℤ◌, ◌<ℤ◌, ==ℤ_iff}

abbrev pub AllList : (ℤ → Type 0) → List ℤ → Type 0
AllList P [] = Unit
AllList P (x ∷ xs) = P x × AllList P xs

abbrev pub Ascending : List ℤ → Type 0
Ascending [] = Unit
Ascending (x ∷ xs) = AllList (λ y. x <ℤ y) xs × Ascending xs

unfoldable pub contains : ℤ → List ℤ → Bool
contains x [] = false
contains x (y ∷ ys) = (x ==ℤ y) || contains x ys

unfoldable pub insert_sorted : ℤ → List ℤ → List ℤ
insert_sorted x [] = x ∷ []
insert_sorted x (y ∷ ys) =
    if x ==ℤ y then y ∷ ys else (if ltb_ℤ x y then x ∷ y ∷ ys else y ∷ insert_sorted x ys)

unfoldable pub erase : ℤ → List ℤ → List ℤ
erase x [] = []
erase x (y ∷ ys) = if x ==ℤ y then ys else y ∷ erase x ys

pub AllList-append :
    (P : ℤ → Type 0) (xs ys : List ℤ) → AllList P xs → AllList P ys → AllList P (xs ++ ys)
AllList-append P [] ys a b = b
AllList-append P (x ∷ xs) ys a b = (a.0, AllList-append P xs ys a.1 b)

pub AllList-split :
    (P : ℤ → Type 0) (xs ys : List ℤ) → AllList P (xs ++ ys) → AllList P xs × AllList P ys
AllList-split P [] ys a = (tt, a)
AllList-split P (x ∷ xs) ys a = let rest = AllList-split P xs ys a.1 in ((a.0, rest.0), rest.1)

pub AllList-imp :
    {P Q : ℤ → Type 0} → ((x : ℤ) → P x → Q x) → (xs : List ℤ) → AllList P xs → AllList Q xs
AllList-imp f [] a = tt
AllList-imp f (x ∷ xs) a = (f x a.0, AllList-imp f xs a.1)

-- A list around a middle value is ascending when its parts are, on their sides of the value.
pub Ascending-middle :
    (xs : List ℤ) (v : ℤ) (ys : List ℤ)
    → AllList (λ x. x <ℤ v) xs
    → AllList (λ x. v <ℤ x) ys
    → Ascending xs
    → Ascending ys
    → Ascending (xs ++ v ∷ ys)
Ascending-middle [] v ys a b s t = (b, t)
Ascending-middle (x ∷ xs) v ys a b s t = (
  AllList-append (λ y. x <ℤ y) xs (v ∷ ys) s.0
      (a.0, AllList-imp (λ y (h : v <ℤ y). omega arith) ys b),
  Ascending-middle xs v ys a.1 b s.1 t,
)

pub Ascending-split :
    (xs : List ℤ) (v : ℤ) (ys : List ℤ)
    → Ascending (xs ++ v ∷ ys)
    → AllList (λ x. x <ℤ v) xs × AllList (λ x. v <ℤ x) ys × Ascending xs × Ascending ys
Ascending-split [] v ys s = (tt, s.0, tt, s.1)
Ascending-split (x ∷ xs) v ys s =
    let ih = Ascending-split xs v ys s.1 in
    let parts = AllList-split (λ y. x <ℤ y) xs (v ∷ ys) s.0 in
    ((parts.1.0, ih.0), ih.1, (parts.0, ih.2), ih.3)

module _ (v : ℤ) (ys : List ℤ) where
  pub insert_sorted-left :
      (xs : List ℤ) (x : ℤ) → x <ℤ v → insert_sorted x (xs ++ v ∷ ys) ≡ insert_sorted x xs ++ v ∷ ys
  unfolding insert_sorted
  insert_sorted-left [] x h = ground arith
  insert_sorted-left (y ∷ xs) x h = ground (arith, insert_sorted-left xs x)

  pub insert_sorted-right :
      (xs : List ℤ) (x : ℤ)
      → AllList (λ y. y <ℤ v) xs
      → v <ℤ x
      → insert_sorted x (xs ++ v ∷ ys) ≡ xs ++ v ∷ insert_sorted x ys
  unfolding insert_sorted
  insert_sorted-right [] x a h = ground arith
  insert_sorted-right (y ∷ xs) x a h = ground (arith, insert_sorted-right xs x)

  pub insert_sorted_self :
      (xs : List ℤ) → AllList (λ y. y <ℤ v) xs → insert_sorted v (xs ++ v ∷ ys) ≡ xs ++ v ∷ ys
  unfolding insert_sorted
  insert_sorted_self [] a = ground arith
  insert_sorted_self (y ∷ xs) a = ground (arith, insert_sorted_self xs)

  pub erase_self : (xs : List ℤ) → AllList (λ y. y <ℤ v) xs → erase v (xs ++ v ∷ ys) ≡ xs ++ ys
  unfolding erase
  erase_self [] a = ground arith
  erase_self (y ∷ xs) a = ground (arith, erase_self xs)

  pub erase-right :
      (xs : List ℤ) (x : ℤ)
      → AllList (λ y. y <ℤ v) xs
      → v <ℤ x
      → erase x (xs ++ v ∷ ys) ≡ xs ++ v ∷ erase x ys
  unfolding erase
  erase-right [] x a h = ground arith
  erase-right (y ∷ xs) x a h = ground (arith, erase-right xs x)

pub erase-absent : (x : ℤ) (ys : List ℤ) → AllList (λ y. x <ℤ y) ys → erase x ys ≡ ys
unfolding erase
erase-absent x [] a = refl
erase-absent x (y ∷ ys) a = ground (arith, erase-absent x ys)

pub erase-not_contained : (x : ℤ) (xs : List ℤ) → contains x xs ≡ false → erase x xs ≡ xs
unfolding erase contains
erase-not_contained x [] h = refl
erase-not_contained x (y ∷ ys) h = ground (arith, erase-not_contained x ys)

pub erase-left :
    (xs : List ℤ) (v : ℤ) (ys : List ℤ) (x : ℤ)
    → AllList (λ y. v <ℤ y) ys
    → x <ℤ v
    → erase x (xs ++ v ∷ ys) ≡ erase x xs ++ v ∷ ys
unfolding erase
erase-left [] v ys x b h =
    ground (arith, erase-absent x ys (AllList-imp (λ y (k : v <ℤ y). omega arith) ys b))
erase-left (y ∷ xs) v ys x b h = ground (arith, erase-left xs v ys x b h)

pub contains-below : (x : ℤ) (ys : List ℤ) → AllList (λ y. x <ℤ y) ys → contains x ys ≡ false
unfolding contains
contains-below x [] a = refl
contains-below x (y ∷ ys) a = ground (arith, contains-below x ys)

pub contains-left :
    (xs : List ℤ) (v : ℤ) (ys : List ℤ) (x : ℤ)
    → AllList (λ y. v <ℤ y) ys
    → x <ℤ v
    → contains x (xs ++ v ∷ ys) ≡ contains x xs
unfolding contains
contains-left [] v ys x b h =
    ground (arith, contains-below x ys (AllList-imp (λ y (k : v <ℤ y). omega arith) ys b))
contains-left (y ∷ xs) v ys x b h = ground (arith, contains-left xs v ys x b h)

pub contains-right :
    (xs : List ℤ) (v : ℤ) (ys : List ℤ) (x : ℤ)
    → AllList (λ y. y <ℤ v) xs
    → v <ℤ x
    → contains x (xs ++ v ∷ ys) ≡ contains x ys
unfolding contains
contains-right [] v ys x a h = ground arith
contains-right (y ∷ xs) v ys x a h = ground (arith, contains-right xs v ys x a.1 h)

pub contains_self : (xs : List ℤ) (v : ℤ) (ys : List ℤ) → contains v (xs ++ v ∷ ys) ≡ true
unfolding contains
contains_self [] v ys = ground arith
contains_self (y ∷ xs) v ys = ground (arith, contains_self xs v ys)

-- Inserting and erasing, read through membership.
pub contains-insert_sorted :
    (x y : ℤ) (xs : List ℤ)
    → contains y (insert_sorted x xs) ≡ (if y ==ℤ x then true else contains y xs)
unfolding contains insert_sorted
contains-insert_sorted x y [] = ground arith
contains-insert_sorted x y (z ∷ xs) =
    ground (arith, contains-insert_sorted x y xs, ==ℤ_iff x z, ==ℤ_iff y z, ==ℤ_iff y x)

pub contains-erase :
    (x y : ℤ) (xs : List ℤ)
    → Ascending xs
    → contains y (erase x xs) ≡ (if y ==ℤ x then false else contains y xs)
unfolding contains erase
contains-erase x y [] s = ground arith
contains-erase x y (z ∷ xs) s =
    ground
      (arith, contains-erase x y xs, contains-below z xs, ==ℤ_iff x z, ==ℤ_iff y z, ==ℤ_iff y x)

pub AllList-insert_sorted :
    (P : ℤ → Type 0) (x : ℤ) (xs : List ℤ) → P x → AllList P xs → AllList P (insert_sorted x xs)
unfolding insert_sorted
AllList-insert_sorted P x [] p a = (p, tt)
AllList-insert_sorted P x (y ∷ ys) p a = ground (arith, AllList-insert_sorted P x ys p a.1)

pub insert_sorted-Ascending : (x : ℤ) (xs : List ℤ) → Ascending xs → Ascending (insert_sorted x xs)
unfolding insert_sorted
insert_sorted-Ascending x [] s = (tt, tt)
insert_sorted-Ascending x (y ∷ ys) s = ground (
  arith,
  insert_sorted-Ascending x ys s.1,
  AllList-insert_sorted (λ z. y <ℤ z) x ys,
  λ (h : x <ℤ y). AllList-imp {P = λ z. y <ℤ z} {Q = λ z. x <ℤ z} (λ z k. omega arith) ys s.0,
)

pub AllList-erase : (P : ℤ → Type 0) (x : ℤ) (xs : List ℤ) → AllList P xs → AllList P (erase x xs)
unfolding erase
AllList-erase P x [] a = tt
AllList-erase P x (y ∷ ys) a = ground (arith, AllList-erase P x ys a.1)

pub erase-Ascending : (x : ℤ) (xs : List ℤ) → Ascending xs → Ascending (erase x xs)
unfolding erase
erase-Ascending x [] s = tt
erase-Ascending x (y ∷ ys) s =
    ground (arith, erase-Ascending x ys s.1, AllList-erase (λ z. y <ℤ z) x ys s.0)
