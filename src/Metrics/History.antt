-- ===== src/Metrics/History.antt =====
-- The ring buffers of practice/metrics_buffer.go against the list of all samples pushed, newest first.
use go_algorithm_practice.Prelude.{
  ℕ, zero, suc, ◌+◌, ◌%◌, ◌<◌, ◌≡◌, ◌≢◌, refl, ap, ◌∙◌, arith, Option, none, some, List, [], ◌∷◌,
  min, if◌then◌else◌, ◌==◌, ltb, length, get_or, set, length-set, length-replicate,
}
use go_algorithm_practice.Metrics.{Ring, new_ring, position, push}

module _ {ℓ} {V : Type ℓ} (blank : V) where
  -- The ring holds the newest samples of the history `h`, as many as fit.
  pub record Holds (r : Ring V) (h : List V) : Type ℓ where
    pub sized : length r.buffer ≡ r.size
    pub nonempty : 0 < r.size
    pub index : r.write_idx < r.size
    pub counted : r.count ≡ min (length h) r.size
    pub newest :
        (i : ℕ) → i < r.count → get_or r.buffer (position blank r i) blank ≡ get_or h i blank

  pub new_ring-Holds : (n : ℕ) → 0 < n → Holds (new_ring blank n) []
  unfolding new_ring
  new_ring-Holds n pos = record {
    sized = length-replicate n blank;
    nonempty = pos;
    index = pos;
    counted = omega arith;
    newest = λ i h. absurd (omega arith);
  }

  next_index : (w s : ℕ) → w < s → (w + 1) % s ≡ (if w + 1 == s then 0 else w + 1)
  next_index w s h = grind arith

  pushed : V → Ring V → Ring V
  pushed value r = record {
    buffer = set r.buffer r.write_idx value;
    write_idx = (r.write_idx + 1) % r.size;
    count = (if ltb r.count r.size then r.count + 1 else r.count);
    size = r.size;
  }

  push-eq-pushed :
      (value : V) (r : Ring V)
      → r.write_idx < length r.buffer
      → push value r ≡ some (pushed value r)
  unfolding push pushed
  push-eq-pushed value r h = ground arith

  -- A sample read at the position just written, and at any other.
  get_or-set_same :
      (xs : List V) (i j : ℕ) (v : V) → i < length xs → j ≡ i → get_or (set xs i v) j blank ≡ v
  get_or-set_same [] i j v h e = absurd (omega arith)
  get_or-set_same (x ∷ xs) zero zero v h e = refl
  get_or-set_same (x ∷ xs) zero (suc j) v h e = absurd (omega arith)
  get_or-set_same (x ∷ xs) (suc i) zero v h e = absurd (omega arith)
  get_or-set_same (x ∷ xs) (suc i) (suc j) v h e =
      get_or-set_same xs i j v (omega arith) (omega arith)

  get_or-set_other :
      (xs : List V) (i j : ℕ) (v : V) → j ≢ i → get_or (set xs i v) j blank ≡ get_or xs j blank
  get_or-set_other [] i j v h = refl
  get_or-set_other (x ∷ xs) zero zero v h = absurd (omega arith)
  get_or-set_other (x ∷ xs) zero (suc j) v h = refl
  get_or-set_other (x ∷ xs) (suc i) zero v h = refl
  get_or-set_other (x ∷ xs) (suc i) (suc j) v h = get_or-set_other xs i j v (omega arith)

  position-zero :
      (value : V) (r : Ring V)
      → r.write_idx < r.size
      → position blank (pushed value r) 0 ≡ r.write_idx
  unfolding pushed
  position-zero value r lt = ground (arith, next_index r.write_idx r.size lt)

  position-suc :
      (value : V) (r : Ring V) (i : ℕ)
      → r.write_idx < r.size
      → suc i < r.size
      → (position blank (pushed value r) (suc i) ≡ position blank r i)
        × (position blank r i ≢ r.write_idx)
  unfolding pushed
  position-suc value r i lt bound = (ground (arith, next_index r.write_idx r.size lt), ground arith)

  count-pushed :
      (value : V) (r : Ring V) (h : List V)
      → Holds r h
      → (i : ℕ) → suc i < (pushed value r).count
      → (i < r.count) × (suc i < r.size)
  unfolding pushed
  count-pushed value r h v i lt = ground (arith, v.counted)

  pushed-newest :
      (value : V) (r : Ring V) (h : List V)
      → Holds r h
      → (i : ℕ) → i < (pushed value r).count
      → get_or (pushed value r).buffer (position blank (pushed value r) i) blank
        ≡ get_or (value ∷ h) i blank
  unfolding pushed
  pushed-newest value r h v zero lt =
      get_or-set_same r.buffer r.write_idx (position blank (pushed value r) 0) value
        (omega (arith, v.sized, v.index)) (position-zero value r v.index)
  pushed-newest value r h v (suc i) lt =
      let (old, bound) = count-pushed value r h v i lt in
      let (same, other) = position-suc value r i v.index bound in
      ap (λ k. get_or (set r.buffer r.write_idx value) k blank) same
      ∙ get_or-set_other r.buffer r.write_idx (position blank r i) value other
      ∙ v.newest i old

  -- Push keeps the ring full of the newest samples, and never panics on such a ring.
  pub push-Holds :
      (value : V) (r : Ring V) (h : List V)
      → Holds r h
      → (r' : Ring V) × (push value r ≡ some r') × Holds r' (value ∷ h) × (r'.size ≡ r.size)
  unfolding pushed
  push-Holds value r h v = (
    pushed value r,
    push-eq-pushed value r (omega (arith, v.sized, v.index)),
    record {
      sized = length-set r.buffer r.write_idx value ∙ v.sized;
      nonempty = v.nonempty;
      index = ground (arith, next_index r.write_idx r.size v.index, v.nonempty, v.index);
      counted = ground (arith, v.counted);
      newest = pushed-newest value r h v;
    },
    refl,
  )

  -- A sequence of pushes, and the history after it.
  pub push_all : List V → Ring V → Option (Ring V)
  push_all [] r = some r
  push_all (value ∷ values) r = elim (push value r) [ none ↦ none | some r' ↦ push_all values r' ]

  abbrev pub after : List V → List V → List V
  after [] h = h
  after (value ∷ values) h = after values (value ∷ h)

  push_all-Holds :
      (values : List V) (r : Ring V) (h : List V)
      → Holds r h
      → (r' : Ring V) × (push_all values r ≡ some r')
        × Holds r' (after values h)
        × (r'.size ≡ r.size)
  unfolding push_all
  push_all-Holds [] r h v = (r, refl, v, refl)
  push_all-Holds (value ∷ values) r h v =
      let (r1, first, holds, size) = push-Holds value r h v in
      let (r', rest, all, sizes) = push_all-Holds values r1 (value ∷ h) holds in
      (r', rw (first, push_all) rest, all, sizes ∙ size)

  -- In a buffer made for at least one sample no sequence of pushes panics, and after it the buffer
  -- holds the newest samples of the sequence, as many as fit.
  pub pushes-Holds :
      (n : ℕ) (values : List V)
      → 0 < n
      → (r' : Ring V) × (push_all values (new_ring blank n) ≡ some r')
        × Holds r' (after values [])
        × (r'.size ≡ n)
  unfolding new_ring
  pushes-Holds n values pos = push_all-Holds values (new_ring blank n) [] (new_ring-Holds n pos)
