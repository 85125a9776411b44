-- ===== src/Metrics/Recent.antt =====
-- What the readers of practice/metrics_buffer.go return: GetRecent, Average and GetWindow against the
-- history of the samples pushed, newest first.
use go_algorithm_practice.Prelude.{
  ℕ, zero, suc, ◌+◌, ◌≤◌, ◌<◌, ◌≡◌, refl, sym, ap, ◌∙◌, arith, Bool, true, false, inl, inr, List,
  [], ◌∷◌, ◌++◌, min, if◌then◌else◌, ◌==◌, length, get_or, take, drop, Bool-cases, append_assoc,
  append-nil,
}
use go_algorithm_practice.Metrics.{Ring, position, sum_from, average, window_from, get_window}
use go_algorithm_practice.Metrics.History.{Holds}

module _ {ℓ} {V : Type ℓ} where
  -- The items of a list added up from the first on, and the items before the first that fails the
  -- test of its position.
  abbrev pub total : (V → V → V) → V → List V → V
  total add sum [] = sum
  total add sum (x ∷ xs) = total add (add sum x) xs

  abbrev pub take_while : (ℕ → V → Bool) → ℕ → List V → List V
  take_while within i [] = []
  take_while within i (x ∷ xs) = if within i x then x ∷ take_while within (i + 1) xs else []

  take-drop :
      (xs : List V) (i left : ℕ) (d : V)
      → i < length xs
      → take (suc left) (drop i xs) ≡ get_or xs i d ∷ take left (drop (suc i) xs)
  take-drop [] i left d h = absurd (omega arith)
  take-drop (x ∷ xs) zero left d h = refl
  take-drop (x ∷ xs) (suc i) left d h = take-drop xs i left d (omega arith)

  take-empty : (n : ℕ) (xs : List V) → length xs ≡ 0 → take n xs ≡ []
  take-empty zero xs e = refl
  take-empty (suc n) [] e = refl
  take-empty (suc n) (x ∷ xs) e = absurd (omega arith)

  take-min : (n : ℕ) (xs : List V) → take (min (length xs) n) xs ≡ take n xs
  take-min n [] = take-empty (min 0 n) [] refl ∙ sym (take-empty n [] refl)
  take-min zero (x ∷ xs) = let e : min (suc (length xs)) 0 ≡ 0 = omega arith in rw e refl
  take-min (suc n) (x ∷ xs) =
      let e : min (suc (length xs)) (suc n) ≡ suc (min (length xs) n) = omega arith in
      rw e (ap (◌∷◌ x) (take-min n xs))

module _ {ℓ} {V : Type ℓ} (blank : V) where
  next_sample :
      (r : Ring V) (h : List V) (i left : ℕ)
      → Holds blank r h
      → i < r.count
      → take (suc left) (drop i h)
        ≡ get_or r.buffer (position blank r i) blank ∷ take left (drop (i + 1) h)
  next_sample r h i left v lt =
      take-drop h i left blank (omega (arith, v.counted))
      ∙ ap (λ k. get_or h i blank ∷ take left (drop k h)) {x = suc i} (omega arith)
      ∙ ap (λ s. s ∷ take left (drop (i + 1) h)) (sym (v.newest i lt))

  sum_from-total :
      (add : V → V → V) (divide : V → ℕ → V) (r : Ring V) (h : List V)
      → Holds blank r h
      → (left i : ℕ) (sum : V) → i + left ≤ r.count
      → sum_from blank add divide r left i sum ≡ total add sum (take left (drop i h))
  unfolding sum_from
  sum_from-total add divide r h v zero i sum b = refl
  sum_from-total add divide r h v (suc left) i sum b =
      sum_from-total add divide r h v left (i + 1)
        (add sum (get_or r.buffer (position blank r i) blank)) (omega arith)
      ∙ sym (ap (total add sum) (next_sample r h i left v (omega arith)))

  -- Average adds up the samples that the ring holds, the newest first, and divides by their number;
  -- with no sample it is 0.
  pub average_lem :
      (add : V → V → V) (divide : V → ℕ → V) (r : Ring V) (h : List V)
      → Holds blank r h
      → average blank add divide r ≡ (
          if min (length h) r.size == 0
          then blank
          else divide (total add blank (take r.size h)) (min (length h) r.size))
  unfolding average
  average_lem add divide r h v =
      rw (sum_from-total add divide r h v r.count 0 blank (omega arith)) (
        ap (λ k. if k == 0 then blank else divide (total add blank (take k h)) k) v.counted
        ∙ ap
            (λ xs.
              if min (length h) r.size == 0
              then blank
              else divide (total add blank xs) (min (length h) r.size))
            (take-min r.size h))

  window_from-take_while :
      (within : ℕ → V → Bool) (r : Ring V) (h : List V)
      → Holds blank r h
      → (left i : ℕ) (result : List V) → i + left ≤ r.count
      → window_from blank within r left i result
        ≡ result ++ take_while within i (take left (drop i h))
  unfolding window_from
  window_from-take_while within r h v zero i result b = sym (append-nil result)
  window_from-take_while within r h v (suc left) i result b =
      let x = get_or r.buffer (position blank r i) blank in
      let xs = take left (drop (i + 1) h) in
      let rest = window_from blank within r left (i + 1) (result ++ x ∷ []) in
      rw (next_sample r h i left v (omega arith))
        (elim (within i x)
          as (λ b.
            elim b [ true ↦ rest | false ↦ result ]
            ≡ result ++ (if b then x ∷ take_while within (i + 1) xs else [])) [
              | true ↦
                  window_from-take_while within r h v left (i + 1) (result ++ x ∷ []) (omega arith)
                  ∙ append_assoc result (x ∷ []) (take_while within (i + 1) xs)
              | false ↦ sym (append-nil result)
            ])

  -- GetWindow returns the samples that the ring holds from the newest back to the first that is too
  -- old.
  pub get_window_lem :
      (within : ℕ → V → Bool) (r : Ring V) (h : List V)
      → Holds blank r h
      → get_window blank within r ≡ take_while within 0 (take r.size h)
  unfolding get_window
  get_window_lem within r h v = elim (Bool-cases (r.count == 0)) [
    | inl e ↦ rw e (
        ap (take_while within 0)
          (sym (take-empty r.size h (ground (arith, v.counted, v.nonempty)))))
    | inr e ↦ rw e (
        window_from-take_while within r h v r.count 0 [] (omega arith)
        ∙ ap (take_while within 0) (ap (λ k. take k h) v.counted ∙ take-min r.size h))
  ]
