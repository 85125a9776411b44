-- ===== src/LruCache/Moves.antt =====
-- What addHead, moveToHead and popTail of data-structures/lru-cache.go do to the list of nodes.
use go_algorithm_practice.Prelude.Addresses.{has, Distinct, has_apart, Distinct-append}
use go_algorithm_practice.Prelude.{
  ℕ, ◌≡◌, ◌≢◌, refl, sym, ap, ◌∙◌, arith, subst, true, false, inl, inr, List, [], ◌∷◌, ◌++◌,
  if◌then◌else◌, ◌==◌, Bool-cases,
}
use go_algorithm_practice.LruCache.{Memory, put_node, set_next, set_prev, linked_first, unlinked}
use go_algorithm_practice.LruCache.Links.{
  Chain, put_node_other, frame, Chain-append, Chain-split, last-has, Chain-live, Chain-set_next,
  Chain-set_prev,
}

-- The keys and values are the same.
abbrev pub SameData : Memory → Memory → Type 0
SameData h g = (a : ℕ) → ((g a).key ≡ (h a).key) × ((g a).value ≡ (h a).value)

pub set_next-SameData : (h : Memory) (a q : ℕ) → SameData h (set_next h a q)
unfolding put_node
set_next-SameData h a q b = ground arith

set_prev-SameData : (h : Memory) (a q : ℕ) → SameData h (set_prev h a q)
unfolding put_node
set_prev-SameData h a q b = ground arith

pub SameData-trans : (h g f : Memory) → SameData h g → SameData g f → SameData h f
SameData-trans h g f s t a = ((t a).0 ∙ (s a).0, (t a).1 ∙ (s a).1)

pub linked_first-SameData : (h : Memory) (head n : ℕ) → SameData h (linked_first h head n)
unfolding linked_first
linked_first-SameData h head n =
    let h' = set_next (set_prev h n 0) n head in
    let same =
      SameData-trans h (set_prev h n 0) h' (set_prev-SameData h n 0)
        (set_next-SameData (set_prev h n 0) n head) in
    elim (Bool-cases (head == 0)) [
      | inl e ↦ rw e same
      | inr e ↦ rw e (SameData-trans h h' (set_prev h' head n) same (set_prev-SameData h' head n))
    ]

-- The node before the first, as addHead and moveToHead write it first.
abbrev as_first : Memory → ℕ → ℕ → Memory
as_first h head n = set_next (set_prev h n 0) n head

as_first_at :
    (h : Memory) (head n : ℕ)
    → ((as_first h head n n).prev ≡ 0) × ((as_first h head n n).next ≡ head)
unfolding put_node
as_first_at h head n = ground arith

as_first_other : (h : Memory) (head n a : ℕ) → (a == n) ≡ false → as_first h head n a ≡ h a
unfolding put_node
as_first_other h head n a e = rw e refl

linked_first_before :
    (h : Memory) (head n : ℕ)
    → head ≢ 0
    → linked_first h head n ≡ set_prev (as_first h head n) head n
unfolding linked_first
linked_first_before h head n live =
    let some_head : (head == 0) ≡ false = ground arith in rw some_head refl

-- A node that is put before a list.
pub linked_first-Chain :
    (h : Memory) (head n t : ℕ) (xs : List ℕ)
    → Chain h 0 head xs t 0
    → Distinct xs
    → has n xs ≡ false
    → n ≢ 0
    → Chain (linked_first h head n) 0 n (n ∷ xs) (if t == 0 then n else t) 0
unfolding linked_first
linked_first-Chain h head n t [] (e, e') d out live =
    let (before, behind) = as_first_at h 0 n in rw (e, e') (refl, live, before, (behind, refl))
linked_first-Chain h head n t (a ∷ xs) s d out live =
    let (e, alive, back, s') = s in
    let h' = as_first h head n in
    let g = set_prev h' a n in
    let (before, behind) = as_first_at h head n in
    let kept : Chain h' 0 head (a ∷ xs) t 0 =
      frame h h' 0 head (a ∷ xs) t 0
        (λ b i. as_first_other h head n b (has_apart b n (a ∷ xs) i out)) s in
    let list : Chain g n head (a ∷ xs) t 0 = Chain-set_prev h' 0 n head a xs t 0 d kept in
    let at_n : g n ≡ h' n =
      put_node_other h' a n
        (record { key = (h' a).key; value = (h' a).value; prev = n; next = (h' a).next })
        (ground arith) in
    let some_last : (t == 0) ≡ false =
      let there = Chain-live h 0 head (a ∷ xs) t 0 t s (last-has h 0 head a xs t 0 s) in
      ground arith in
    let same : linked_first h head n ≡ g =
      linked_first_before h head n (ground arith) ∙ ap (λ b. set_prev h' b n) e in
    let tail : (if t == 0 then n else t) ≡ t = rw some_last refl in
    subst (λ u. Chain u 0 n (n ∷ a ∷ xs) (if t == 0 then n else t) 0) (sym same)
      (subst (λ l. Chain g 0 n (n ∷ a ∷ xs) l 0) (sym tail)
        (
          refl,
          live,
          ap (λ m. m.prev) at_n ∙ before,
          subst (λ b. Chain g n b (a ∷ xs) t 0) (sym (ap (λ m. m.next) at_n ∙ behind)) list,
        ))

pub unlinked-SameData : (h : Memory) (n : ℕ) → SameData h (unlinked h n)
unfolding unlinked
unlinked-SameData h n =
    let h1 = set_next h (h n).prev (h n).next in
    let first = set_next-SameData h (h n).prev (h n).next in
    elim (Bool-cases ((h n).prev == 0)) [
      | inl e ↦ rw e (elim (Bool-cases ((h n).next == 0)) [
        | inl e' ↦ rw e' (λ a. (refl, refl))
        | inr e' ↦ rw e' (set_prev-SameData h (h n).next (h n).prev)
      ])
      | inr e ↦ rw e (elim (Bool-cases ((h1 n).next == 0)) [
        | inl e' ↦ rw e' first
        | inr e' ↦ rw e' (
            SameData-trans h h1 (set_prev h1 (h1 n).next (h1 n).prev) first
              (set_prev-SameData h1 (h1 n).next (h1 n).prev))
      ])
    ]

pub set_next_other : (h : Memory) (a q b : ℕ) → (b == a) ≡ false → set_next h a q b ≡ h b
unfolding put_node
set_next_other h a q b e = rw e refl

set_prev_other : (h : Memory) (a q b : ℕ) → (b == a) ≡ false → set_prev h a q b ≡ h b
unfolding put_node
set_prev_other h a q b e = rw e refl

-- The two writes for the last node, and for another one.
unlinked_last :
    (h : Memory) (n m : ℕ)
    → (h n).prev ≡ m
    → m ≢ 0
    → (h n).next ≡ 0
    → (n == m) ≡ false
    → unlinked h n ≡ set_next h m 0
unfolding unlinked
unlinked_last h n m e live e' apart =
    let some_prev : (m == 0) ≡ false = ground arith in
    let kept : set_next h m 0 n ≡ h n = set_next_other h m 0 n apart in
    rw (e, e', some_prev, kept) (rw e' refl)

unlinked_inner :
    (h : Memory) (n m b : ℕ)
    → (h n).prev ≡ m
    → m ≢ 0
    → (h n).next ≡ b
    → b ≢ 0
    → (n == m) ≡ false
    → unlinked h n ≡ set_prev (set_next h m b) b m
unfolding unlinked
unlinked_inner h n m b e live e' live' apart =
    let some_prev : (m == 0) ≡ false = ground arith in
    let some_next : (b == 0) ≡ false = ground arith in
    let kept : set_next h m b n ≡ h n = set_next_other h m b n apart in
    rw (e, e', some_prev, kept) (rw (e, e', some_next) refl)

-- A node that is not the first, taken out of a list.
pub unlinked-Chain :
    (h : Memory) (head a n t : ℕ) (pre post : List ℕ)
    → Chain h 0 head ((a ∷ pre) ++ n ∷ post) t 0
    → Distinct ((a ∷ pre) ++ n ∷ post)
    → Chain
        (unlinked h n)
        0
        head
        ((a ∷ pre) ++ post)
        (if n == t then (unlinked h n n).prev else t)
        0
unlinked-Chain h head a n t pre [] s d =
    let (m, n', s1, s2) = Chain-split h 0 head (a ∷ pre) (n ∷ []) t 0 s in
    let (e, live, back, (nil, last)) = s2 in
    let (d1, d2, apart) = Distinct-append (a ∷ pre) (n ∷ []) d in
    let m_in = last-has h 0 head a pre m n' s1 in
    let m_live = Chain-live h 0 head (a ∷ pre) m n' m s1 m_in in
    let m_out = apart m m_in in
    let other : (n == m) ≡ false = ground arith in
    let is_last : (n == t) ≡ true = ground arith in
    let g = set_next h m 0 in
    let same : unlinked h n ≡ g = unlinked_last h n m back m_live nil other in
    let prev : (g n).prev ≡ m = ap (λ x. x.prev) (set_next_other h m 0 n other) ∙ back in
    let tail : (if n == t then (g n).prev else t) ≡ m = rw is_last prev in
    subst (λ u. Chain u 0 head ((a ∷ pre) ++ []) (if n == t then (u n).prev else t) 0) (sym same)
      (subst (λ l. Chain g 0 head ((a ∷ pre) ++ []) l 0) (sym tail)
        (Chain-append g 0 head (a ∷ pre) [] m 0 m 0 (Chain-set_next h 0 head a pre m n' 0 d1 s1)
          (refl, refl)))
unlinked-Chain h head a n t pre (b ∷ post) s d =
    let (m, n', s1, s2) = Chain-split h 0 head (a ∷ pre) (n ∷ b ∷ post) t 0 s in
    let (e, live, back, s3) = s2 in
    let (e', live', back', s4) = s3 in
    let (d1, d2, apart) = Distinct-append (a ∷ pre) (n ∷ b ∷ post) d in
    let (n_out, d3) = d2 in
    let m_in = last-has h 0 head a pre m n' s1 in
    let m_live = Chain-live h 0 head (a ∷ pre) m n' m s1 m_in in
    let m_out = apart m m_in in
    let other : (n == m) ≡ false = ground arith in
    let t_in = last-has h n (h n).next b post t 0 s3 in
    let not_last : (n == t) ≡ false = let o = has_apart t n (b ∷ post) t_in n_out in ground arith in
    let g1 = set_next h m b in
    let g2 = set_prev g1 b m in
    let same : unlinked h n ≡ g2 = unlinked_inner h n m b back m_live e' live' other in
    let b_out : has b (a ∷ pre) ≡ false = elim (Bool-cases (has b (a ∷ pre))) [
      | inl i ↦ let o = apart b i in ground arith
      | inr o ↦ o
    ] in
    let front1 : Chain g1 0 head (a ∷ pre) m b = Chain-set_next h 0 head a pre m n' b d1 s1 in
    let front : Chain g2 0 head (a ∷ pre) m b =
      frame g1 g2 0 head (a ∷ pre) m b
        (λ c i. set_prev_other g1 b m c (has_apart c b (a ∷ pre) i b_out)) front1 in
    let back1 : Chain g1 n b (b ∷ post) t 0 =
      frame h g1 n b (b ∷ post) t 0
        (λ c i. set_next_other h m b c (has_apart c m (b ∷ post) i (ground arith)))
        (refl, live', back', s4) in
    let back2 : Chain g2 m b (b ∷ post) t 0 = Chain-set_prev g1 n m b b post t 0 d3 back1 in
    let tail : (if n == t then (g2 n).prev else t) ≡ t = rw not_last refl in
    subst (λ u. Chain u 0 head ((a ∷ pre) ++ b ∷ post) (if n == t then (u n).prev else t) 0)
      (sym same)
      (subst (λ l. Chain g2 0 head ((a ∷ pre) ++ b ∷ post) l 0) (sym tail)
        (Chain-append g2 0 head (a ∷ pre) (b ∷ post) t 0 m b front back2))
