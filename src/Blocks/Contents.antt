-- ===== src/Blocks/Contents.antt =====
-- What the blocks of practice/file_block_service.go hold: the data written, in order.
use go_algorithm_practice.Prelude.{
  ℕ, zero, suc, ◌+◌, ◌-◌, ◌*◌, ◌/◌, ◌%◌, ◌≤◌, ◌<◌, ◌≡◌, refl, sym, ap, ◌∙◌, arith, false, inl, inr,
  some, List, [], ◌∷◌, ◌++◌, append_assoc, append-nil, ◌==◌, ltb, length, length-append, length-set,
  length-take, length-drop, set, take, drop, replicate, length-replicate, take-append-drop, subst,
  Bool-cases,
}
use go_algorithm_practice.Blocks.{
  Text, Service, new_file_block_service, invalid_length, cannot_add, Written, written, refused,
  write_blocks, write,
}

-- The bytes of the first `k` blocks.
abbrev pub joined : ℕ → List Text → Text
joined zero blocks = []
joined (suc k) [] = []
joined (suc k) (b ∷ blocks) = b ++ joined k blocks

-- The service holds the text: it fills the used blocks, and there are as many blocks as the capacity.
pub record Stores (s : Service) (text : Text) : Type 0 where
  pub sized : length s.blocks ≡ s.capacity
  pub fits : s.used ≤ s.capacity
  pub filled : joined s.used s.blocks ≡ text
  pub counted : length text ≡ 8 * s.used

joined-set :
    (k : ℕ) (blocks : List Text) (b : Text)
    → k < length blocks
    → joined (suc k) (set blocks k b) ≡ joined k blocks ++ b
joined-set zero [] b h = absurd (omega arith)
joined-set (suc k) [] b h = absurd (omega arith)
joined-set zero (c ∷ blocks) b h = append-nil b
joined-set (suc k) (c ∷ blocks) b h =
    ap (◌++◌ c) (joined-set k blocks b (omega arith)) ∙ sym (append_assoc c (joined k blocks) b)

drop_nil : (n : ℕ) → drop {A = ℕ} n [] ≡ []
drop_nil zero = refl
drop_nil (suc n) = refl

drop_all : (n : ℕ) (text : Text) → length text ≤ n → drop n text ≡ []
drop_all zero [] h = refl
drop_all zero (c ∷ text) h = absurd (omega arith)
drop_all (suc n) [] h = refl
drop_all (suc n) (c ∷ text) h = drop_all n text (omega arith)

drop-drop : (i j : ℕ) (text : Text) → drop j (drop i text) ≡ drop (i + j) text
drop-drop zero j text = ap (λ k. drop k text) {x = j} (omega arith)
drop-drop (suc i) j [] = drop_nil j ∙ sym (drop_nil (suc i + j))
drop-drop (suc i) j (c ∷ text) =
    drop-drop i j text ∙ ap (λ k. drop k (c ∷ text)) {x = suc (i + j)} (omega arith)

write_blocks-Stores :
    (left i : ℕ) (text held : Text) (s : Service)
    → Stores s held
    → length text ≡ 8 * (i + left)
    → s.used + left ≤ s.capacity
    → Stores (write_blocks left i text s) (held ++ drop (i * 8) text)
      × ((write_blocks left i text s).capacity ≡ s.capacity)
unfolding write_blocks
write_blocks-Stores zero i text held s v size room =
    (rw (drop_all (i * 8) text (omega arith), append-nil held) v, refl)
write_blocks-Stores (suc left) i text held s v size room =
    let n = (i + 1) * 8 - i * 8 in
    let piece = take n (drop (i * 8) text) in
    let blocks' = set s.blocks s.used piece in
    let s' : Service = record { blocks = blocks'; capacity = s.capacity; used = s.used + 1 } in
    let stored : joined (s.used + 1) blocks' ≡ held ++ piece =
      ap (λ k. joined k blocks') {x = s.used + 1} {y = suc s.used} (omega arith)
      ∙ joined-set s.used s.blocks piece (omega (arith, v.sized))
      ∙ ap (λ h. h ++ piece) v.filled in
    let next : Stores s' (held ++ piece) = record {
      sized = length-set s.blocks s.used piece ∙ v.sized;
      fits = omega arith;
      filled = stored;
      counted = omega (
        arith,
        v.counted,
        length-append held piece,
        length-take n (drop (i * 8) text),
        length-drop (i * 8) text,
      );
    } in
    let (all, same) =
      write_blocks-Stores left (i + 1) text (held ++ piece) s' next (omega arith) (omega arith) in
    let rest : piece ++ drop ((i + 1) * 8) text ≡ drop (i * 8) text =
      ap (λ t. piece ++ t)
        (ap (λ k. drop k text) {x = (i + 1) * 8} {y = i * 8 + n} (omega arith)
          ∙ sym (drop-drop (i * 8) n text))
      ∙ take-append-drop n (drop (i * 8) text) in
    (
      subst (λ t. Stores (write_blocks left (i + 1) text s') t)
          (append_assoc held piece (drop ((i + 1) * 8) text) ∙ ap (◌++◌ held) rest) all,
      same,
    )

-- What Write promises: a text that does not fill whole blocks, or more blocks than are left, is
-- refused with the numbers, and any other text is appended.
abbrev pub Appends : Text → Text → Service → Written → Type 0
Appends text held s (written s') =
    (length text % 8 ≡ 0)
    × (length text / 8 + s.used ≤ s.capacity)
    × Stores s' (held ++ text)
    × (s'.capacity ≡ s.capacity)
Appends text held s (refused (invalid_length n)) = (n ≡ length text) × (0 < length text % 8)
Appends text held s (refused (cannot_add k used capacity)) =
    (k ≡ length text / 8) × (used ≡ s.used) × (capacity ≡ s.capacity) × (s.capacity < k + used)

-- Write on a service that holds a text keeps it well formed: it appends the data if its length is a
-- multiple of 8 and it fits, and otherwise returns the error that says which of the two fails.
pub write-Appends :
    (text held : Text) (s : Service) → Stores s held → Appends text held s (write text s)
unfolding write
write-Appends text held s v = elim (Bool-cases (length text == 0)) [
  | inl e ↦
      let none_left : length text ≡ 0 = ground arith in
      let empty : text ≡ [] = drop_all 0 text (omega arith) in
      let same : Stores s (held ++ []) = rw (append-nil held) v in
      rw e (
        omega arith,
        omega (arith, v.fits),
        subst (λ t. Stores s (held ++ t)) (sym empty) same,
        refl,
      )
  | inr e ↦ elim (Bool-cases (ltb 0 (length text % 8))) [
    | inl odd ↦ rw (e, odd) (refl, ground arith)
    | inr even ↦ elim (Bool-cases (ltb s.capacity (length text / 8 + s.used))) [
      | inl full ↦ rw (e, even, full) (refl, refl, refl, ground arith)
      | inr room ↦
          let whole : length text % 8 ≡ 0 = ground arith in
          let fits : length text / 8 + s.used ≤ s.capacity = ground arith in
          let (all, same) =
            write_blocks-Stores (length text / 8) 0 text held s v (omega arith) (omega arith) in
          rw (e, even, room) (whole, fits, all, same)
    ]
  ]
]

replicate-empty : (k n : ℕ) → joined k (replicate n []) ≡ []
replicate-empty zero n = refl
replicate-empty (suc k) zero = refl
replicate-empty (suc k) (suc n) = replicate-empty k n

-- A new service with at least one block holds the empty text.
pub new_file_block_service-Stores :
    (capacity : ℕ)
    → 0 < capacity
    → (s : Service) × (new_file_block_service capacity ≡ some s)
      × Stores s []
      × (s.capacity ≡ capacity)
unfolding new_file_block_service
new_file_block_service-Stores capacity h =
    let live : (capacity == 0) ≡ false = ground arith in
    (
      record { blocks = replicate capacity []; capacity = capacity; used = 0 },
      rw live refl,
      record {
        sized = length-replicate capacity [];
        fits = omega arith;
        filled = refl;
        counted = refl;
      },
      refl,
    )
