-- ===== src/Prelude/Addresses.antt =====
-- Lists of addresses in a memory.
use Prim.Native.Nat.{ℕ}
use mathlib.Core.Path.{◌≡◌, refl}
use mathlib.Core.Bool.{Bool, true, false, ◌||◌}
use mathlib.Core.Logic.{inl, inr}
use mathlib.Core.List.{List, [], ◌∷◌, ◌++◌}
use native.Mathlib.Omega.{arith}
use go_algorithm_practice.Prelude.Tests.{◌==◌, Bool-cases}

abbrev pub has : ℕ → List ℕ → Bool
has a [] = false
has a (b ∷ ys) = (a == b) || has a ys

abbrev pub Disjoint : List ℕ → List ℕ → Type 0
Disjoint xs ys = (a : ℕ) → has a xs ≡ true → has a ys ≡ false

abbrev pub Distinct : List ℕ → Type 0
Distinct [] = Unit
Distinct (a ∷ xs) = (has a xs ≡ false) × Distinct xs

pub has-append : (a : ℕ) (xs ys : List ℕ) → has a (xs ++ ys) ≡ (has a xs || has a ys)
has-append a [] ys = refl
has-append a (b ∷ xs) ys = ground (arith, has-append a xs ys)

pub has_apart : (a b : ℕ) (ys : List ℕ) → has a ys ≡ true → has b ys ≡ false → (a == b) ≡ false
has_apart a b [] h k = cc
has_apart a b (c ∷ ys) h k = ground (arith, has_apart a b ys)

pub Distinct-append :
    (xs ys : List ℕ)
    → Distinct (xs ++ ys)
    → Distinct xs × Distinct ys × ((a : ℕ) → has a xs ≡ true → has a ys ≡ false)
Distinct-append [] ys d = (tt, d, λ a i. cc)
Distinct-append (x ∷ xs) ys (out, d) =
    let all = has-append x xs ys in
    let (d1, d2, apart) = Distinct-append xs ys d in
    (
      (ground arith, d1),
      d2,
      λ a i. elim (Bool-cases (a == x)) [
        | inl e ↦ let same : a ≡ x = ground arith in rw same (ground arith)
        | inr e ↦ apart a (ground arith)
      ],
    )
