-- ===== src/Metrics/Copies.antt =====
-- The two ways in which GetRecent of practice/metrics_buffer.go copies a part of a slice.
use go_algorithm_practice.Prelude.{
  ℕ, zero, suc, ◌+◌, ◌-◌, ◌≤◌, ◌<◌, ◌≡◌, refl, ap, ◌∙◌, arith, inl, inr, List, [], ◌∷◌, ◌++◌, min,
  if◌then◌else◌, ltb, length, get_or, take, drop, length-take, length-drop, length-append,
  get_or-take, get_or-append_left, Bool-cases, append-nil,
}
use go_algorithm_practice.Metrics.{copied}

module _ {ℓ} {V : Type ℓ} (blank : V) where
  get_or-drop :
      (start : ℕ) (xs : List V) (j : ℕ)
      → get_or (drop start xs) j blank ≡ get_or xs (start + j) blank
  get_or-drop zero xs j = ap (λ k. get_or xs k blank) {x = j} (omega arith)
  get_or-drop (suc start) [] j = refl
  get_or-drop (suc start) (x ∷ xs) j =
      get_or-drop start xs j ∙ ap (λ k. get_or (x ∷ xs) k blank) {x = suc (start + j)} (omega arith)

  get_or-append_right :
      (xs ys : List V) (j : ℕ)
      → length xs ≤ j
      → get_or (xs ++ ys) j blank ≡ get_or ys (j - length xs) blank
  get_or-append_right [] ys j h = ap (λ k. get_or ys k blank) (omega arith)
  get_or-append_right (x ∷ xs) ys zero h = absurd (omega arith)
  get_or-append_right (x ∷ xs) ys (suc j) h =
      get_or-append_right xs ys j (omega arith)
      ∙ ap (λ k. get_or ys k blank) {x = j - length xs} (omega arith)

  -- A full copy.
  copied_full : (n : ℕ) (src : List V) → n ≤ length src → copied blank n src ≡ take n src
  unfolding copied
  copied_full n src h = let e : n - length src ≡ 0 = omega arith in rw e (append-nil (take n src))

  -- Both parts read the ring from `start` on, the second past the end.
  unfoldable pub one_copy : List V → ℕ → ℕ → ℕ → List V
  unfolding copied
  one_copy buffer start k n = copied blank n (take k (drop start buffer))

  pub length-one_copy :
      (buffer : List V) (start k n : ℕ)
      → n ≤ k
      → start + n ≤ length buffer
      → length (one_copy buffer start k n) ≡ n
  unfolding one_copy copied
  length-one_copy buffer start k n h b =
      rw
        (copied_full n (take k (drop start buffer))
          (omega (arith, length-take k (drop start buffer), length-drop start buffer)))
        (omega (
          arith,
          length-take n (take k (drop start buffer)),
          length-take k (drop start buffer),
          length-drop start buffer,
        ))

  pub get_or-one_copy :
      (buffer : List V) (start k n j : ℕ)
      → n ≤ k
      → start + n ≤ length buffer
      → j < n
      → get_or (one_copy buffer start k n) j blank ≡ get_or buffer (start + j) blank
  unfolding one_copy
  get_or-one_copy buffer start k n j h b lt =
      rw
        (copied_full n (take k (drop start buffer))
          (omega (arith, length-take k (drop start buffer), length-drop start buffer)))
        (get_or-take n (take k (drop start buffer)) j blank lt
          ∙ get_or-take k (drop start buffer) j blank (omega arith)
          ∙ get_or-drop start buffer j)

  unfoldable pub two_copies : List V → ℕ → ℕ → ℕ → List V
  unfolding one_copy
  two_copies buffer start k n =
      let m = min n (length (drop start buffer)) in
      take m (drop start buffer) ++ one_copy buffer 0 k (n - m)

  pub length-two_copies :
      (buffer : List V) (start k n : ℕ)
      → n ≤ length buffer - start + k
      → k ≤ length buffer
      → length (two_copies buffer start k n) ≡ n
  unfolding two_copies
  length-two_copies buffer start k n h b =
      let m = min n (length (drop start buffer)) in
      omega (
        arith,
        length-append (take m (drop start buffer)) (one_copy buffer 0 k (n - m)),
        length-take m (drop start buffer),
        length-drop start buffer,
        length-one_copy buffer 0 k (n - m) (omega (arith, length-drop start buffer))
            (omega (arith, length-drop start buffer)),
      )

  pub get_or-two_copies :
      (buffer : List V) (start k n j : ℕ)
      → n ≤ length buffer - start + k
      → k ≤ length buffer
      → start ≤ length buffer
      → j < n
      → get_or (two_copies buffer start k n) j blank
        ≡ get_or buffer
            (if ltb (start + j) (length buffer) then start + j else start + j - length buffer)
            blank
  unfolding two_copies
  get_or-two_copies buffer start k n j h b c lt =
      let m = min n (length (drop start buffer)) in
      let front = take m (drop start buffer) in
      let size : length front ≡ m = omega (arith, length-take m (drop start buffer)) in
      let left : length (drop start buffer) ≡ length buffer - start = length-drop start buffer in
      elim (Bool-cases (ltb (start + j) (length buffer))) [
        | inl e ↦ rw e (
            get_or-append_left front (one_copy buffer 0 k (n - m)) j blank (ground arith)
            ∙ get_or-take m (drop start buffer) j blank (ground arith)
            ∙ get_or-drop start buffer j)
        | inr e ↦ rw e (
            get_or-append_right front (one_copy buffer 0 k (n - m)) j (ground arith)
            ∙ get_or-one_copy buffer 0 k (n - m) (j - length front) (ground arith) (ground arith)
                (ground arith)
            ∙ ap (λ i. get_or buffer i blank) {x = 0 + (j - length front)} (ground arith))
      ]
