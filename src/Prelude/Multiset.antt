-- ===== src/Prelude/Multiset.antt =====
-- How often an integer occurs in a list: the view of a list that forgets the order of its items.
use Prim.Native.Nat.{ℕ, zero, suc, ◌+◌, ◌<◌}
use mathlib.Core.Path.{◌≡◌, refl}
use mathlib.Core.List.{List, [], ◌∷◌, ◌++◌}
use native.Mathlib.Omega.{arith}
use go_algorithm_practice.Prelude.Tests.{if◌then◌else◌}
use go_algorithm_practice.Prelude.Lists.{length, get_or, set}
use go_algorithm_practice.Prelude.Int.{ℤ, ◌==ℤ◌}

abbrev pub once : ℤ → ℤ → ℕ
once x y = if x ==ℤ y then 1 else 0

pub count : ℤ → List ℤ → ℕ
count x [] = 0
count x (y ∷ ys) = once x y + count x ys

-- The same items, each as often.
abbrev pub SameItems : List ℤ → List ℤ → Type 0
SameItems xs ys = (x : ℤ) → count x xs ≡ count x ys

pub count-nil : (x : ℤ) → count x [] ≡ 0
unfolding count
count-nil x = refl

pub count-cons : (x y : ℤ) (ys : List ℤ) → count x (y ∷ ys) ≡ once x y + count x ys
unfolding count
count-cons x y ys = refl

pub count-append : (x : ℤ) (xs ys : List ℤ) → count x (xs ++ ys) ≡ count x xs + count x ys
unfolding count
count-append x [] ys = omega arith
count-append x (y ∷ xs) ys = omega (arith, count-append x xs ys)

-- A write trades the old item for the new one.
pub count-set :
    (x : ℤ) (xs : List ℤ) (i : ℕ) (v d : ℤ)
    → i < length xs
    → count x (set xs i v) + once x (get_or xs i d) ≡ count x xs + once x v
unfolding count
count-set x [] i v d h = absurd (omega arith)
count-set x (y ∷ ys) zero v d h = omega arith
count-set x (y ∷ ys) (suc i) v d h = omega (arith, count-set x ys i v d)
