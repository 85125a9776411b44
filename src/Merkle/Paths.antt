-- ===== src/Merkle/Paths.antt =====
-- The ways from a leaf up in the memory of data-structures/merkle.go.
use go_algorithm_practice.Prelude.{
  ℕ, zero, suc, ◌≤◌, ◌<◌, ◌≡◌, ◌≢◌, ◌⊎◌, refl, sym, ap, ◌∙◌, arith, subst, Bool, true, false, inl,
  inr, Option, none, some, List, [], ◌∷◌, ◌++◌, if◌then◌else◌, ◌==◌, length, Bool-cases,
}
use go_algorithm_practice.Merkle.{Bytes, Memory, hash_pair, walk_up, recompute}

module _ (sha256 : Bytes → Bytes) (h : Memory) (bound : ℕ) where
  -- The node `p` is made of two nodes, one of which is `a`.
  pub record Joined (p a : ℕ) : Type 0 where
    pub left_live : (h p).left ≢ 0
    pub right_live : (h p).right ≢ 0
    pub left_old : (h p).left < bound
    pub right_old : (h p).right < bound
    pub hash_is : (h p).hash ≡ hash_pair sha256 (h (h p).left).hash (h (h p).right).hash
    pub side : ((h p).left ≡ a) ⊎ ((h p).right ≡ a)

  -- From the node `a` the parents are these nodes, the last of which is `r`.
  abbrev pub PathUp : ℕ → List ℕ → ℕ → Type 0
  PathUp a [] r = (a ≡ r) × (a < bound)
  PathUp a (p ∷ ps) r = ((h a).parent ≡ p) × (p ≢ 0) × (a < bound) × Joined p a × PathUp p ps r

-- What a later memory keeps of an earlier one.
abbrev pub Extends : Memory → ℕ → Memory → Type 0
Extends h bound g =
    (a : ℕ)
    → a < bound
    → ((g a).hash ≡ (h a).hash)
      × ((g a).left ≡ (h a).left)
      × ((g a).right ≡ (h a).right)
      × ((h a).parent ≢ 0 → (g a).parent ≡ (h a).parent)

module _ (sha256 : Bytes → Bytes) (h g : Memory) (bound bound' : ℕ) where
  start_old : (a : ℕ) (ps : List ℕ) (r : ℕ) → PathUp sha256 h bound a ps r → a < bound
  start_old a [] r (e, lt) = lt
  start_old a (p ∷ ps) r (e, live, lt, j, rest) = lt

  Joined-Extends :
      (p a : ℕ)
      → Extends h bound g
      → bound ≤ bound'
      → p < bound
      → Joined sha256 h bound p a
      → Joined sha256 g bound' p a
  Joined-Extends p a ext le lt j =
      let (hash, left, right, parent) = ext p lt in
      let left_live = j.left_live in
      let right_live = j.right_live in
      let left_old = j.left_old in
      let right_old = j.right_old in
      record {
        left_live = λ e. left_live (sym left ∙ e);
        right_live = λ e. right_live (sym right ∙ e);
        left_old = omega arith;
        right_old = omega arith;
        hash_is =
            hash
            ∙ j.hash_is
            ∙ rw (left, right)
                (sym (
                  ap (λ b. sha256 (b ++ (g (h p).right).hash)) (ext (h p).left left_old).0
                  ∙ ap (λ b. sha256 ((h (h p).left).hash ++ b)) (ext (h p).right right_old).0));
        side = elim (j.side) [ inl e ↦ inl (left ∙ e) | inr e ↦ inr (right ∙ e) ];
      }

  pub PathUp-Extends :
      (a : ℕ) (ps : List ℕ) (r : ℕ)
      → Extends h bound g
      → bound ≤ bound'
      → PathUp sha256 h bound a ps r
      → PathUp sha256 g bound' a ps r
  PathUp-Extends a [] r ext le (e, lt) = (e, omega arith)
  PathUp-Extends a (p ∷ ps) r ext le (e, live, lt, j, s) =
      let (hash, left, right, parent) = ext a lt in
      (
        parent (λ z. live (sym e ∙ z)) ∙ e,
        live,
        omega arith,
        Joined-Extends p a ext le (start_old p ps r s) j,
        PathUp-Extends p ps r ext le s,
      )

-- One more node at the top.
pub PathUp-more :
    (sha256 : Bytes → Bytes) (h : Memory) (bound a : ℕ) (ps : List ℕ) (r p : ℕ)
    → PathUp sha256 h bound a ps r
    → (h r).parent ≡ p
    → p ≢ 0
    → p < bound
    → Joined sha256 h bound p r
    → PathUp sha256 h bound a (ps ++ p ∷ []) p
PathUp-more sha256 h bound a [] r p (e, lt) up live old j = (
  ap (λ b. (h b).parent) e ∙ up,
  live,
  lt,
  subst (Joined sha256 h bound p) (sym e) j,
  (refl, old),
)
PathUp-more sha256 h bound a (q ∷ ps) r p (e, alive, lt, j, s) up live old j' =
    (e, alive, lt, j, PathUp-more sha256 h bound q ps r p s up live old j')

-- The sibling of a node, and whether it is the right one.
module _ (h : Memory) where
  -- A round of the walk, for the parent `p`.
  abbrev round : ℕ → ℕ → ℕ → Option (List Bytes × List Bool)
  round fuel a p =
      let is_left = a == (h p).left in
      let sibling = if is_left then (h p).right else (h p).left in
      elim (p == 0) [
        | true ↦ some ([], [])
        | false ↦ elim (sibling == 0) [
          | true ↦ none
          | false ↦ elim (walk_up fuel h p) [
            | none ↦ none
            | some (siblings, bits) ↦ some ((h sibling).hash ∷ siblings, is_left ∷ bits)
          ]
        ]
      ]

  walk_up-round : (fuel a p : ℕ) → (h a).parent ≡ p → walk_up (suc fuel) h a ≡ round fuel a p
  unfolding walk_up
  walk_up-round fuel a p e = ap (round fuel a) e

  walk_left :
      (fuel a p : ℕ) (sibs : List Bytes) (bits : List Bool)
      → (h a).parent ≡ p
      → p ≢ 0
      → (a == (h p).left) ≡ true
      → (h p).right ≢ 0
      → walk_up fuel h p ≡ some (sibs, bits)
      → walk_up (suc fuel) h a ≡ some ((h (h p).right).hash ∷ sibs, true ∷ bits)
  walk_left fuel a p sibs bits e live side sib_live rest =
      let going : (p == 0) ≡ false = ground arith in
      let some_sib : ((h p).right == 0) ≡ false = ground arith in
      walk_up-round fuel a p e ∙ rw (going, round) (rw (side, some_sib, rest) (rw side refl))

  walk_right :
      (fuel a p : ℕ) (sibs : List Bytes) (bits : List Bool)
      → (h a).parent ≡ p
      → p ≢ 0
      → (a == (h p).left) ≡ false
      → (h p).left ≢ 0
      → walk_up fuel h p ≡ some (sibs, bits)
      → walk_up (suc fuel) h a ≡ some ((h (h p).left).hash ∷ sibs, false ∷ bits)
  walk_right fuel a p sibs bits e live side sib_live rest =
      let going : (p == 0) ≡ false = ground arith in
      let some_sib : ((h p).left == 0) ≡ false = ground arith in
      walk_up-round fuel a p e ∙ rw (going, round) (rw (side, some_sib, rest) (rw side refl))

-- What the walk from a node collects: enough to compute the hash at the top.
pub record Collected (sha256 : Bytes → Bytes) (h : Memory) (fuel a r : ℕ) : Type 0 where
  pub siblings : List Bytes
  pub bits : List Bool
  pub walked : walk_up fuel h a ≡ some (siblings, bits)
  pub same_length : length siblings ≡ length bits
  pub recomputed : recompute sha256 (h a).hash siblings bits ≡ (h r).hash

pub collected :
    (sha256 : Bytes → Bytes) (h : Memory) (bound fuel a r : ℕ) (ps : List ℕ)
    → PathUp sha256 h bound a ps r
    → (h r).parent ≡ 0
    → length ps < fuel
    → Collected sha256 h fuel a r
unfolding walk_up recompute
collected sha256 h bound zero a r ps s top enough = absurd (omega arith)
collected sha256 h bound (suc fuel) a r [] (e, lt) top enough = record {
  siblings = [];
  bits = [];
  walked = let stops : ((h a).parent == 0) ≡ true = rw e (rw top refl) in rw (stops, walk_up) refl;
  same_length = refl;
  recomputed = ap (λ b. (h b).hash) e;
}
collected sha256 h bound (suc fuel) a r (p ∷ ps) (e, live, lt, j, s) top enough =
    let rest = collected sha256 h bound fuel p r ps s top (omega arith) in
    elim (Bool-cases (a == (h p).left)) [
      | inl left ↦
          let it : (h p).left ≡ a = ground arith in
          let hash : hash_pair sha256 (h a).hash (h (h p).right).hash ≡ (h p).hash =
            ap (λ b. sha256 ((h b).hash ++ (h (h p).right).hash)) (sym it) ∙ sym j.hash_is in
          record {
            siblings = (h (h p).right).hash ∷ rest.siblings;
            bits = true ∷ rest.bits;
            walked =
                walk_left h fuel a p rest.siblings rest.bits e live left j.right_live rest.walked;
            same_length = ap suc rest.same_length;
            recomputed =
                ap (λ b. recompute sha256 b rest.siblings rest.bits) hash ∙ rest.recomputed;
          }
      | inr right ↦
          let it : (h p).right ≡ a = ground (arith, j.side) in
          let hash : hash_pair sha256 (h (h p).left).hash (h a).hash ≡ (h p).hash =
            ap (λ b. sha256 ((h (h p).left).hash ++ (h b).hash)) (sym it) ∙ sym j.hash_is in
          record {
            siblings = (h (h p).left).hash ∷ rest.siblings;
            bits = false ∷ rest.bits;
            walked =
                walk_right h fuel a p rest.siblings rest.bits e live right j.left_live rest.walked;
            same_length = ap suc rest.same_length;
            recomputed =
                ap (λ b. recompute sha256 b rest.siblings rest.bits) hash ∙ rest.recomputed;
          }
    ]
