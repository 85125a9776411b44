-- ===== src/LinkedList/Segments.antt =====
-- List segments in the memory of data-structures/linkedlist.go.
use go_algorithm_practice.Prelude.Addresses.{has, Disjoint, has-append, has_apart}
use go_algorithm_practice.Prelude.{
  ℕ, ◌≡◌, ◌≢◌, refl, ◌∙◌, arith, true, false, List, [], ◌∷◌, ◌++◌, ◌==◌,
}
use go_algorithm_practice.Prelude.Int.{ℤ}
use go_algorithm_practice.LinkedList.{Memory, set_next, with_node}

-- From `p` the pointers lead through the distinct nodes at the addresses to `stop`.
abbrev pub Seg : Memory → ℕ → ℕ → List ℕ → Type 0
Seg h stop p [] = p ≡ stop
Seg h stop p (a ∷ xs) = (p ≡ a) × (a ≢ 0) × (has a xs ≡ false) × Seg h stop (h a).next xs

abbrev pub SameOutside : List ℕ → Memory → Memory → Type 0
SameOutside xs h g = (a : ℕ) → has a xs ≡ false → g a ≡ h a

abbrev pub SameVals : Memory → Memory → Type 0
SameVals h g = (a : ℕ) → (g a).val ≡ (h a).val

-- The values at the addresses.
abbrev pub vals : Memory → List ℕ → List ℤ
vals h [] = []
vals h (a ∷ xs) = (h a).val ∷ vals h xs

pub vals-SameVals : (h g : Memory) (xs : List ℕ) → SameVals h g → vals g xs ≡ vals h xs
vals-SameVals h g [] e = refl
vals-SameVals h g (a ∷ xs) e = rw (e a, vals-SameVals h g xs e) refl

-- A segment survives a change that spares its addresses.
pub frame :
    (h g : Memory) (stop p : ℕ) (xs : List ℕ)
    → ((a : ℕ) → has a xs ≡ true → g a ≡ h a)
    → Seg h stop p xs
    → Seg g stop p xs
frame h g stop p [] same s = s
frame h g stop p (a ∷ xs) same (e, live, fresh, s) =
    let here : g a ≡ h a = same a (ground arith) in
    (e, live, fresh, rw here (frame h g stop (h a).next xs (λ b i. same b (ground arith)) s))

pub set_next-SameVals : (h : Memory) (p q : ℕ) → SameVals h (set_next h p q)
unfolding set_next
set_next-SameVals h p q a = ground arith

pub set_next_at : (h : Memory) (p q : ℕ) → (set_next h p q p).next ≡ q
unfolding set_next
set_next_at h p q = ground arith

pub set_next_other : (h : Memory) (p q a : ℕ) → (a == p) ≡ false → set_next h p q a ≡ h a
unfolding set_next
set_next_other h p q a e = rw e refl

pub with_node_at : (h : Memory) (d q : ℕ) → (with_node h d q d).next ≡ q
unfolding with_node
with_node_at h d q = ground arith

pub with_node_other : (h : Memory) (d q a : ℕ) → (a == d) ≡ false → with_node h d q a ≡ h a
unfolding with_node
with_node_other h d q a e = rw e refl

pub frame-set_next :
    (h : Memory) (stop p a q : ℕ) (xs : List ℕ)
    → has a xs ≡ false
    → Seg h stop p xs
    → Seg (set_next h a q) stop p xs
frame-set_next h stop p a q xs out s =
    frame h (set_next h a q) stop p xs (λ b i. set_next_other h a q b (has_apart b a xs i out)) s

pub Seg-append :
    (h : Memory) (stop mid p : ℕ) (xs ys : List ℕ)
    → Seg h mid p xs
    → Seg h stop mid ys
    → Disjoint xs ys
    → Seg h stop p (xs ++ ys)
Seg-append h stop mid p [] ys e t apart = rw e t
Seg-append h stop mid p (a ∷ xs) ys (e, live, fresh, s) t apart = (
  e,
  live,
  has-append a xs ys ∙ rw (fresh, apart a (ground arith)) refl,
  Seg-append h stop mid (h a).next xs ys s t (λ b i. apart b (ground arith)),
)
