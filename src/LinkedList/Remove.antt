-- ===== src/LinkedList/Remove.antt =====
-- RemoveNthFromEnd of data-structures/linkedlist.go.
use go_algorithm_practice.Prelude.Addresses.{has, has-append, has_apart}
use go_algorithm_practice.Prelude.{
  ℕ, zero, suc, ◌+◌, ◌-◌, ◌≤◌, ◌<◌, ◌≡◌, ◌≢◌, refl, sym, ap, ◌∙◌, arith, true, false, ◌||◌, inl,
  inr, none, some, List, [], ◌∷◌, ◌++◌, ◌==◌, length, length-append, subst, Bool-cases,
}
use go_algorithm_practice.Prelude.Run.{ok, panic, ◌>>=◌}
use go_algorithm_practice.LinkedList.{
  Memory, set_next, jump, with_node, advance, trail, unlink_next, remove_nth_from_end,
}
use go_algorithm_practice.LinkedList.Segments.{
  Seg, set_next-SameVals, set_next_at, set_next_other, with_node_at, with_node_other, frame,
  frame-set_next,
}
use go_algorithm_practice.LinkedList.Walks.{walk, walk_later, walk-has, walk_live, walk_nil}

advance-walk :
    (h : Memory) (p k : ℕ) (xs : List ℕ)
    → Seg h 0 p xs
    → k ≤ length xs
    → advance k h p ≡ some (walk h p k)
unfolding advance
advance-walk h p zero xs s le = refl
advance-walk h p (suc k) [] s le = absurd (omega arith)
advance-walk h p (suc k) (a ∷ xs) (e, live, fresh, s) le =
    let going : (p == 0) ≡ false = ground arith in
    let rest : advance k h (h p).next ≡ some (walk h (h p).next k) =
      rw e (advance-walk h (h a).next k xs s (omega arith)) in
    rw going (rest ∙ ap some (walk_later h p k))

advance_short :
    (h : Memory) (p k : ℕ) (xs : List ℕ) → Seg h 0 p xs → length xs < k → advance k h p ≡ none
unfolding advance
advance_short h p zero xs s lt = absurd (omega arith)
advance_short h p (suc k) [] s lt = rw s refl
advance_short h p (suc k) (a ∷ xs) (e, live, fresh, s) lt =
    let going : (p == 0) ≡ false = ground arith in
    rw going (rw e (advance_short h (h a).next k xs s (omega arith)))

trail_step :
    (fuel : ℕ) (h : Memory) (first second : ℕ)
    → first ≢ 0
    → second ≢ 0
    → trail (suc fuel) h first second ≡ trail fuel h (h first).next (h second).next
unfolding trail
trail_step fuel h first second live live' =
    let going : (second == 0) ≡ false = ground arith in
    let going' : (first == 0) ≡ false = ground arith in rw (going, trail, going') refl

trail-walk :
    (fuel i j k : ℕ) (h : Memory) (p : ℕ) (xs : List ℕ)
    → Seg h 0 p xs
    → j ≡ i + k
    → j ≤ length xs
    → length xs < fuel + i
    → trail fuel h (walk h p i) (walk h p j) ≡ ok (walk h p (length xs - k))
unfolding trail
trail-walk zero i j k h p xs s gap inside enough = absurd (omega arith)
trail-walk (suc fuel) i j k h p xs s gap inside enough = elim (Bool-cases (j == length xs)) [
  | inl e ↦
      let here = walk_nil h p xs j s inside in
      let stops : (walk h p j == 0) ≡ true = ground arith in
      let at_end : i ≡ length xs - k = ground arith in
      rw (stops, trail) (ap (λ m. ok (walk h p m)) at_end)
  | inr e ↦
      trail_step fuel h (walk h p i) (walk h p j) (walk_live h 0 p xs i s (ground arith))
        (walk_live h 0 p xs j s (ground arith))
      ∙ trail-walk fuel (suc i) (suc j) k h p xs s (omega arith) (ground arith) (omega arith)
]

smaller :
    (a b : ℕ) (pre post : List ℕ) → has a (pre ++ b ∷ post) ≡ false → has a (pre ++ post) ≡ false
smaller a b pre post out =
    let all = has-append a pre (b ∷ post) in let rest = has-append a pre post in ground arith

-- Unlinking the node behind the first `length pre + 1` nodes.
unlinked :
    (h : Memory) (p d b : ℕ) (pre post : List ℕ)
    → Seg h 0 p (d ∷ pre ++ b ∷ post)
    → Seg
        (set_next h (walk h p (length pre)) (jump h (walk h p (length pre))))
        0
        p
        (d ∷ pre ++ post)
unlinked h p d b [] post (e, live, fresh, (e', live', fresh', s')) =
    let over : jump h p ≡ (h b).next = ap (λ a. (h (h a).next).next) e ∙ ap (λ a. (h a).next) e' in
    let out : has d post ≡ false = ground arith in
    let at_d : (set_next h p (jump h p) d).next ≡ jump h p =
      ap (λ a. (set_next h p (jump h p) a).next) (sym e) ∙ set_next_at h p (jump h p) in
    (
      e,
      live,
      out,
      subst (λ q. Seg (set_next h p (jump h p)) 0 q post) (sym (at_d ∙ over))
          (frame-set_next h 0 (h b).next p (jump h p) post (rw (sym e) at out) s'),
    )
unlinked h p d b (x ∷ pre) post (e, live, fresh, s) =
    let q = walk h p (length (x ∷ pre)) in
    let same : walk h (h d).next (length pre) ≡ q =
      walk_later h d (length pre) ∙ ap (λ a. walk h a (length (x ∷ pre))) (sym e) in
    let inside : has q (x ∷ pre ++ b ∷ post) ≡ true =
      subst (λ a. has a (x ∷ pre ++ b ∷ post) ≡ true) same
        (walk-has h 0 (h d).next (x ∷ pre ++ b ∷ post) (length pre) s
          (let n = length-append (x ∷ pre) (b ∷ post) in omega arith)) in
    let apart : (d == q) ≡ false =
      let other = has_apart q d (x ∷ pre ++ b ∷ post) inside fresh in ground arith in
    let kept : set_next h q (jump h q) d ≡ h d = set_next_other h q (jump h q) d apart in
    let rest = unlinked h (h d).next x b pre post s in
    (
      e,
      live,
      smaller d b (x ∷ pre) post fresh,
      rw kept (subst (λ a. Seg (set_next h a (jump h a)) 0 (h d).next (x ∷ pre ++ post)) same rest),
    )

module _ (dummy : ℕ) (h : Memory) (head : ℕ) where
  abbrev pub started : Memory
  started = with_node h dummy head

  from_dummy :
      (xs : List ℕ)
      → dummy ≢ 0
      → has dummy xs ≡ false
      → Seg h 0 head xs
      → Seg started 0 dummy (dummy ∷ xs)
  from_dummy xs live out s = (
    refl,
    live,
    out,
    subst (λ q. Seg started 0 q xs) (sym (with_node_at h dummy head))
        (frame h started 0 head xs
          (λ a i. with_node_other h dummy head a (has_apart a dummy xs i out)) s),
  )

  remove_step :
      (fuel n second first : ℕ)
      → advance (n + 1) started dummy ≡ some second
      → trail fuel started dummy second ≡ ok first
      → remove_nth_from_end dummy fuel h head n
        ≡ (unlink_next started first >>= λ g. ok ((g dummy).next, g))
  unfolding remove_nth_from_end
  remove_step fuel n second first e e' = rw (e, remove_nth_from_end, e') refl

  -- Where the first pointer is when the second is at the end.
  two_pointers :
      (fuel n : ℕ) (xs : List ℕ)
      → dummy ≢ 0
      → has dummy xs ≡ false
      → Seg h 0 head xs
      → n ≤ length xs
      → length xs + 1 < fuel
      → remove_nth_from_end dummy fuel h head n
        ≡ (unlink_next started (walk started dummy (length xs - n)) >>= λ g. ok ((g dummy).next, g))
  two_pointers fuel n xs live out s le enough =
      let chain = from_dummy xs live out s in
      remove_step fuel n (walk started dummy (n + 1)) (walk started dummy (length xs - n))
        (advance-walk started dummy (n + 1) (dummy ∷ xs) chain (omega arith))
        (trail-walk fuel 0 (n + 1) (n + 1) started dummy (dummy ∷ xs) chain (omega arith)
            (omega arith) (omega arith)
          ∙ ap (λ k. ok (walk started dummy k)) (omega arith))

-- RemoveNthFromEnd of a list and the position from the end of its node `b` ends within as many rounds
-- as there are nodes and two more, without a panic. It returns the list of the other nodes, in their
-- order, and changes no value.
pub remove_nth_from_end-removes :
    (dummy fuel : ℕ) (h : Memory) (head b : ℕ) (pre post : List ℕ)
    → dummy ≢ 0
    → has dummy (pre ++ b ∷ post) ≡ false
    → Seg h 0 head (pre ++ b ∷ post)
    → length (pre ++ b ∷ post) + 1 < fuel
    → (p : ℕ) × (g : Memory) × (remove_nth_from_end dummy fuel h head (length (b ∷ post))
        ≡ ok (p, g))
      × Seg g 0 p (pre ++ post)
      × ((a : ℕ) → (a == dummy) ≡ false → (g a).val ≡ (h a).val)
unfolding unlink_next
remove_nth_from_end-removes dummy fuel h head b pre post live out s enough =
    let sum = length-append pre (b ∷ post) in
    let h' = started dummy h head in
    let chain = from_dummy dummy h head (pre ++ b ∷ post) live out s in
    let first = walk h' dummy (length pre) in
    let n = length (b ∷ post) in
    let here = walk_nil h' dummy (dummy ∷ pre ++ b ∷ post) (length pre) chain (omega arith) in
    let after =
      walk_nil h' dummy (dummy ∷ pre ++ b ∷ post) (suc (length pre)) chain (omega arith) in
    let going : (first == 0 || ((h' first).next == 0)) ≡ false = ground arith in
    let g = set_next h' first (jump h' first) in
    let back : length (pre ++ b ∷ post) - n ≡ length pre = omega arith in
    let (e, alive, fresh, whole) = unlinked h' dummy dummy b pre post chain in
    (
      (g dummy).next,
      g,
      two_pointers dummy h head fuel n (pre ++ b ∷ post) live out s (omega arith) enough
          ∙ ap (λ k. unlink_next h' (walk h' dummy k) >>= λ m. ok ((m dummy).next, m)) back
          ∙ rw going refl,
      whole,
      λ a o.
          set_next-SameVals h' first (jump h' first) a
          ∙ ap (λ m. m.val) (with_node_other h dummy head a o),
    )

-- RemoveNthFromEnd of a list panics for 0, within as many rounds as there are nodes and two more, and
-- for a number greater than the list's length it returns nil and changes no node of the list.
pub remove_nth_from_end-edges :
    (dummy fuel : ℕ) (h : Memory) (head n : ℕ) (xs : List ℕ)
    → dummy ≢ 0
    → has dummy xs ≡ false
    → Seg h 0 head xs
    → length xs + 1 < fuel
    → (remove_nth_from_end dummy fuel h head 0 ≡ panic)
      × (length xs < n → remove_nth_from_end dummy fuel h head n ≡ ok (0, started dummy h head))
unfolding remove_nth_from_end unlink_next
remove_nth_from_end-edges dummy fuel h head n xs live out s enough =
    let h' = started dummy h head in
    let chain = from_dummy dummy h head xs live out s in
    let last = walk h' dummy (length xs) in
    let end = walk_nil h' dummy (dummy ∷ xs) (suc (length xs)) chain (omega arith) in
    let whole : length xs - 0 ≡ length xs = omega arith in
    let panics : (last == 0 || ((h' last).next == 0)) ≡ true = ground arith in
    (
      two_pointers dummy h head fuel 0 xs live out s (omega arith) enough
          ∙ ap (λ k. unlink_next h' (walk h' dummy k) >>= λ m. ok ((m dummy).next, m)) whole
          ∙ rw panics refl,
      λ lt.
          let short = advance_short h' dummy (n + 1) (dummy ∷ xs) chain (omega arith) in
          rw (short, remove_nth_from_end) refl,
    )
