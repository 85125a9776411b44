-- ===== src/Metrics/Latest.antt =====
-- GetRecent of practice/metrics_buffer.go: the two copies give the newest samples, oldest first.
use go_algorithm_practice.Prelude.{
  ℕ, zero, suc, ◌+◌, ◌-◌, ◌%◌, ◌≤◌, ◌<◌, ◌≡◌, refl, ap, ◌∙◌, arith, false, inl, inr, some, List,
  min, if◌then◌else◌, ◌==◌, ltb, length, get_or, subst, Bool-cases, ltb→lt,
}
use native.Mathlib.Nat.{mod-eq_of_lt, mod-eq-sub-mod}
use go_algorithm_practice.Metrics.{Ring, position, recent, get_recent}
use go_algorithm_practice.Metrics.Copies.{
  one_copy, two_copies, length-one_copy, get_or-one_copy, length-two_copies, get_or-two_copies,
}
use go_algorithm_practice.Metrics.History.{Holds}

module _ {ℓ} {V : Type ℓ} (blank : V) where
  -- The list has the newest `n` samples of the ring, the oldest of them first.
  pub record Latest (r : Ring V) (h : List V) (n : ℕ) (out : List V) : Type ℓ where
    pub sized : length out ≡ n
    pub at : (j : ℕ) → j < n → get_or out j blank ≡ get_or h (n - 1 - j) blank

  -- Where the reading starts and ends.
  wrapped : (x s : ℕ) → x < s + s → x % s ≡ (if ltb x s then x else x - s)
  wrapped x s h = elim (Bool-cases (ltb x s)) [
    | inl e ↦ rw e (mod-eq_of_lt (ltb→lt x s e))
    | inr e ↦ rw e (mod-eq-sub-mod (ground arith) ∙ mod-eq_of_lt (ground arith))
  ]

  last_index : (w s : ℕ) → w < s → (w + s - 1) % s ≡ (if w == 0 then s - 1 else w - 1)
  last_index w s h = ground (arith, wrapped (w + s - 1) s)

  start_index :
      (w s n : ℕ) → w < s → n ≤ s → 0 < n → (w + s - n) % s ≡ (if ltb w n then w + s - n else w - n)
  start_index w s n h b p = ground (arith, wrapped (w + s - n) s)

  start_index_zero : (w s : ℕ) → w < s → (w + s - 0) % s ≡ w
  start_index_zero w s h = ground (arith, wrapped (w + s - 0) s)

  -- The `j`-th sample read is the one written `n - 1 - j` writes before the last.
  position_wrapped :
      (r : Ring V) (n j : ℕ)
      → r.write_idx < r.size
      → n ≤ r.size
      → j < n
      → let start = (r.write_idx + r.size - n) % r.size in
        (if ltb (start + j) r.size then start + j else start + j - r.size)
        ≡ position blank r (n - 1 - j)
  position_wrapped r n j h b lt = ground (arith, start_index r.write_idx r.size n h b)

  position_straight :
      (r : Ring V) (n j : ℕ)
      → r.write_idx < r.size
      → n ≤ r.size
      → j < n
      → let start = (r.write_idx + r.size - n) % r.size in
        start < (r.write_idx + r.size - 1) % r.size → start + j ≡ position blank r (n - 1 - j)
  position_straight r n j h b lt s =
      ground (arith, start_index r.write_idx r.size n h b, last_index r.write_idx r.size h)

  -- The bounds of the two copies.
  straight_bounds :
      (w s n : ℕ)
      → w < s
      → n ≤ s
      → (w + s - n) % s < (w + s - 1) % s
      → (n ≤ (w + s - 1) % s + 1 - (w + s - n) % s) × ((w + s - n) % s + n ≤ s)
  straight_bounds w s zero h b lt = omega (arith, start_index_zero w s h)
  straight_bounds w s (suc n) h b lt = ground (arith, start_index w s (suc n) h b, last_index w s h)

  wrapped_bounds :
      (w s n : ℕ)
      → w < s
      → n ≤ s
      → (w + s - 1) % s ≤ (w + s - n) % s
      → (n ≤ s - (w + s - n) % s + ((w + s - 1) % s + 1))
        × ((w + s - 1) % s + 1 ≤ s)
        × ((w + s - n) % s ≤ s)
  wrapped_bounds w s zero h b le = ground (arith, start_index_zero w s h, last_index w s h)
  wrapped_bounds w s (suc n) h b le = ground (arith, start_index w s (suc n) h b, last_index w s h)

  straight_Latest :
      (r : Ring V) (h : List V) (n : ℕ)
      → Holds blank r h
      → n ≤ r.count
      → let start = (r.write_idx + r.size - n) % r.size in
        let last = (r.write_idx + r.size - 1) % r.size in
        start < last → Latest r h n (one_copy blank r.buffer start (last + 1 - start) n)
  straight_Latest r h n v b lt =
      let start = (r.write_idx + r.size - n) % r.size in
      let k = (r.write_idx + r.size - 1) % r.size + 1 - start in
      let small : n ≤ r.size = omega (arith, v.counted) in
      let (fits, ends) = straight_bounds r.write_idx r.size n v.index small lt in
      let inside : start + n ≤ length r.buffer = omega (arith, v.sized) in
      record {
        sized = length-one_copy blank r.buffer start k n fits inside;
        at = λ j j_lt.
            get_or-one_copy blank r.buffer start k n j fits inside j_lt
            ∙ ap (λ i. get_or r.buffer i blank) (position_straight r n j v.index small j_lt lt)
            ∙ v.newest (n - 1 - j) (omega arith);
      }

  wrapped_Latest :
      (r : Ring V) (h : List V) (n : ℕ)
      → Holds blank r h
      → n ≤ r.count
      → let start = (r.write_idx + r.size - n) % r.size in
        let last = (r.write_idx + r.size - 1) % r.size in
        last ≤ start → Latest r h n (two_copies blank r.buffer start (last + 1) n)
  wrapped_Latest r h n v b le =
      let start = (r.write_idx + r.size - n) % r.size in
      let k = (r.write_idx + r.size - 1) % r.size + 1 in
      let small : n ≤ r.size = omega (arith, v.counted) in
      let (fits, low, high) = wrapped_bounds r.write_idx r.size n v.index small le in
      let fits' : n ≤ length r.buffer - start + k = omega (arith, v.sized) in
      let low' : k ≤ length r.buffer = omega (arith, v.sized) in
      let high' : start ≤ length r.buffer = omega (arith, v.sized) in
      record {
        sized = length-two_copies blank r.buffer start k n fits' low';
        at = λ j j_lt.
            get_or-two_copies blank r.buffer start k n j fits' low' high' j_lt
            ∙ ap
                (λ s.
                  get_or r.buffer (if ltb (start + j) s then start + j else start + j - s) blank)
                v.sized
            ∙ ap (λ i. get_or r.buffer i blank) (position_wrapped r n j v.index small j_lt)
            ∙ v.newest (n - 1 - j) (omega arith);
      }

  recent-Latest :
      (r : Ring V) (h : List V) (n : ℕ)
      → Holds blank r h
      → n ≤ r.count
      → (out : List V) × (recent blank n r ≡ some out) × Latest r h n out
  unfolding recent one_copy two_copies
  recent-Latest r h n v b =
      let start = (r.write_idx + r.size - n) % r.size in
      let last = (r.write_idx + r.size - 1) % r.size in
      let live : (r.size == 0) ≡ false = ground (arith, v.nonempty) in
      elim (Bool-cases (ltb start last)) [
        | inl e ↦ (
          one_copy blank r.buffer start (last + 1 - start) n,
          rw (live, e) refl,
          straight_Latest r h n v b (ltb→lt start last e),
        )
        | inr e ↦ (
          two_copies blank r.buffer start (last + 1) n,
          rw (live, e) refl,
          wrapped_Latest r h n v b (ground arith),
        )
      ]

  -- GetRecent of a ring that holds the history `h` does not panic and returns the newest `n` samples,
  -- or all that the ring holds if those are fewer, the oldest of them first.
  pub get_recent-Latest :
      (r : Ring V) (h : List V) (n : ℕ)
      → Holds blank r h
      → (out : List V) × (get_recent blank n r ≡ some out)
        × Latest r h (min n (min (length h) r.size)) out
  unfolding get_recent
  get_recent-Latest r h n v = elim (Bool-cases (ltb r.count n)) [
    | inl e ↦
        (let all : r.count ≡ min n (min (length h) r.size) = ground (arith, v.counted) in
          let (out, returned, newest) = recent-Latest r h r.count v (omega arith) in
          (out, rw e returned, subst (λ k. Latest r h k out) all newest))
    | inr e ↦
        (let all : n ≡ min n (min (length h) r.size) = ground (arith, v.counted) in
          let (out, returned, newest) = recent-Latest r h n v (ground arith) in
          (out, rw e returned, subst (λ k. Latest r h k out) all newest))
  ]
