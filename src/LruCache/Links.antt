-- ===== src/LruCache/Links.antt =====
-- Doubly linked lists in the memory of data-structures/lru-cache.go.
use go_algorithm_practice.Prelude.Addresses.{has, Distinct, has_apart}
use go_algorithm_practice.Prelude.{
  ℕ, ◌≡◌, ◌≢◌, refl, sym, ap, ◌∙◌, arith, true, false, inl, inr, List, [], ◌∷◌, ◌++◌, ◌==◌,
  Bool-cases,
}
use go_algorithm_practice.LruCache.{ListNode, Memory, put_node, set_next, set_prev}

-- Behind the node `q` comes `p`, from which the pointers lead through the nodes at the addresses and
-- back; `t` is the last of these, or `q`, and `r` comes behind it.
abbrev pub Chain : Memory → ℕ → ℕ → List ℕ → ℕ → ℕ → Type 0
Chain h q p [] t r = (p ≡ r) × (t ≡ q)
Chain h q p (a ∷ xs) t r = (p ≡ a) × (a ≢ 0) × ((h a).prev ≡ q) × Chain h a (h a).next xs t r

pub put_node_at : (h : Memory) (a : ℕ) (n : ListNode) → put_node h a n a ≡ n
unfolding put_node
put_node_at h a n = ground arith

pub put_node_other :
    (h : Memory) (a b : ℕ) (n : ListNode) → (b == a) ≡ false → put_node h a n b ≡ h b
unfolding put_node
put_node_other h a b n e = rw e refl

pub frame :
    (h g : Memory) (q p : ℕ) (xs : List ℕ) (t r : ℕ)
    → ((a : ℕ) → has a xs ≡ true → g a ≡ h a)
    → Chain h q p xs t r
    → Chain g q p xs t r
frame h g q p [] t r same s = s
frame h g q p (a ∷ xs) t r same (e, live, back, s) =
    let here : g a ≡ h a = same a (ground arith) in
    (
      e,
      live,
      ap (λ n. n.prev) here ∙ back,
      rw here (frame h g a (h a).next xs t r (λ b i. same b (ground arith)) s),
    )

-- A chain depends on the links only.
pub Chain-same_links :
    (h g : Memory) (q p : ℕ) (xs : List ℕ) (t r : ℕ)
    → ((a : ℕ) → ((g a).prev ≡ (h a).prev) × ((g a).next ≡ (h a).next))
    → Chain h q p xs t r
    → Chain g q p xs t r
Chain-same_links h g q p [] t r same s = s
Chain-same_links h g q p (a ∷ xs) t r same (e, live, back, s) =
    (e, live, (same a).0 ∙ back, rw (same a).1 (Chain-same_links h g a (h a).next xs t r same s))

pub frame-put_node :
    (h : Memory) (q p : ℕ) (xs : List ℕ) (t r a : ℕ) (n : ListNode)
    → has a xs ≡ false
    → Chain h q p xs t r
    → Chain (put_node h a n) q p xs t r
frame-put_node h q p xs t r a n out s =
    frame h (put_node h a n) q p xs t r (λ b i. put_node_other h a b n (has_apart b a xs i out)) s

pub Chain-append :
    (h : Memory) (q p : ℕ) (xs ys : List ℕ) (t r m n : ℕ)
    → Chain h q p xs m n
    → Chain h m n ys t r
    → Chain h q p (xs ++ ys) t r
Chain-append h q p [] ys t r m n (e, e') s = rw (e, sym e') s
Chain-append h q p (a ∷ xs) ys t r m n (e, live, back, s) s' =
    (e, live, back, Chain-append h a (h a).next xs ys t r m n s s')

-- A chain in two parts: the last node of the first, and the first of the second.
pub Chain-split :
    (h : Memory) (q p : ℕ) (xs ys : List ℕ) (t r : ℕ)
    → Chain h q p (xs ++ ys) t r
    → (m : ℕ) × (n : ℕ) × Chain h q p xs m n × Chain h m n ys t r
Chain-split h q p [] ys t r s = (q, p, (refl, refl), s)
Chain-split h q p (a ∷ xs) ys t r (e, live, back, s) =
    let (m, n, s1, s2) = Chain-split h a (h a).next xs ys t r s in (m, n, (e, live, back, s1), s2)

-- The last node of a chain is one of its nodes.
pub last-has :
    (h : Memory) (q p : ℕ) (a : ℕ) (xs : List ℕ) (t r : ℕ)
    → Chain h q p (a ∷ xs) t r
    → has t (a ∷ xs) ≡ true
last-has h q p a [] t r (e, live, back, (e', e'')) = ground arith
last-has h q p a (b ∷ xs) t r (e, live, back, s) =
    let there = last-has h a (h a).next b xs t r s in ground arith

pub Chain-live :
    (h : Memory) (q p : ℕ) (xs : List ℕ) (t r a : ℕ) → Chain h q p xs t r → has a xs ≡ true → a ≢ 0
Chain-live h q p [] t r a s i = λ e. cc
Chain-live h q p (b ∷ xs) t r a (e, live, back, s) i = elim (Bool-cases (a == b)) [
  | inl same ↦ ground arith
  | inr other ↦ Chain-live h b (h b).next xs t r a s (ground arith)
]

-- Writing to the last node what comes behind it.
pub Chain-set_next :
    (h : Memory) (q p a : ℕ) (xs : List ℕ) (t r r' : ℕ)
    → Distinct (a ∷ xs)
    → Chain h q p (a ∷ xs) t r
    → Chain (set_next h t r') q p (a ∷ xs) t r'
Chain-set_next h q p a [] t r r' d (e, live, back, (e', e'')) =
    let here =
      put_node_at h a
        (record { key = (h a).key; value = (h a).value; prev = (h a).prev; next = r' }) in
    rw e'' (e, live, ap (λ n. n.prev) here ∙ back, (ap (λ n. n.next) here, refl))
Chain-set_next h q p a (b ∷ xs) t r r' (out, d) (e, live, back, s) =
    let rest = Chain-set_next h a (h a).next b xs t r r' d s in
    let apart : (a == t) ≡ false =
      let other = has_apart t a (b ∷ xs) (last-has h a (h a).next b xs t r s) out in ground arith in
    let here : set_next h t r' a ≡ h a =
      put_node_other h t a
        (record { key = (h t).key; value = (h t).value; prev = (h t).prev; next = r' }) apart in
    (e, live, ap (λ n. n.prev) here ∙ back, rw here rest)

-- Writing to the first node what comes before it.
pub Chain-set_prev :
    (h : Memory) (q q' p a : ℕ) (xs : List ℕ) (t r : ℕ)
    → Distinct (a ∷ xs)
    → Chain h q p (a ∷ xs) t r
    → Chain (set_prev h a q') q' p (a ∷ xs) t r
Chain-set_prev h q q' p a xs t r (out, d) (e, live, back, s) =
    let n : ListNode = record {
      key = (h a).key;
      value = (h a).value;
      prev = q';
      next = (h a).next;
    } in
    let here = put_node_at h a n in
    (e, live, ap (λ m. m.prev) here, rw here (frame-put_node h a (h a).next xs t r a n out s))
