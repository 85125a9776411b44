-- ===== src/Routing/Match.antt =====
-- practice/routing_table.go against prefixes of bits: the routes of a table are a function from
-- prefixes to gateways, and FindRoute returns the gateway of the longest prefix that has one.
use go_algorithm_practice.Prelude.{
  subst, ◌^◌, ℕ, zero, suc, ◌+◌, ◌<◌, ◌≤◌, ◌≡◌, refl, sym, ap, ◌∙◌, arith, Bool, true, false, ◌&&◌,
  inl, inr, Option, some, [], ◌∷◌, if◌then◌else◌, ◌==◌, Bool-cases, take, fun_ext, length,
}
use native.Mathlib.Decide.{ℕ_discrete}
use go_algorithm_practice.Routing.{
  Text, is_empty, Trie, nil, node, empty_node, Ip, ipv4_to_uint32, get_bit, bit_in_round, child,
  set_child, set_gateway, created, add_loop, add_route, gateway_of, better, find_loop, find_route,
}
use go_algorithm_practice.Routing.Bits.{
  Prefix, AllBits, IsAddress, bits_from, address_bits, take_all, digits-IsAddress,
}

abbrev pub eq_prefix : Prefix → Prefix → Bool
eq_prefix [] [] = true
eq_prefix [] (c ∷ q) = false
eq_prefix (b ∷ p) [] = false
eq_prefix (b ∷ p) (c ∷ q) = (b == c) && eq_prefix p q

-- The gateway that a trie holds for a prefix.
abbrev pub routes : Trie → Prefix → Text
routes nil p = []
routes (node c0 c1 gateway) [] = gateway
routes (node c0 c1 gateway) (b ∷ p) = if b == 0 then routes c0 p else routes c1 p

-- The gateway of the longest prefix of the bits that has one, or "".
abbrev pub longest_match : (Prefix → Text) → Prefix → Text
longest_match f [] = f []
longest_match f (b ∷ bits) =
    let deeper = longest_match (λ p. f (b ∷ p)) bits in if is_empty deeper then f [] else deeper

routes-created : (t : Trie) (p : Prefix) → routes (created t) p ≡ routes t p
unfolding created empty_node
routes-created nil [] = refl
routes-created nil (b ∷ p) = ground arith
routes-created (node c0 c1 g) p = refl

bit_in_round-lt : (addr j : ℕ) → bit_in_round addr j < 2
unfolding bit_in_round get_bit
bit_in_round-lt addr j = ground arith

-- The routes of a trie with a gateway set for one prefix.
abbrev Sets : ℕ → ℕ → ℕ → Text → Prefix → Trie → Trie → Type 0
Sets addr left j gateway p n old =
    routes (add_loop addr left j gateway n) p
    ≡ (if eq_prefix (bits_from addr left j) p then gateway else routes old p)

Sets-created :
    (addr left j : ℕ) (gateway : Text) (p : Prefix)
    → ((c0 c1 : Trie) (g : Text) → Sets addr left j gateway p (node c0 c1 g) (node c0 c1 g))
    → (t : Trie) → Sets addr left j gateway p (created t) t
unfolding created empty_node
Sets-created addr left j gateway p h nil =
    h nil nil []
    ∙ ap (λ (x : Text). if eq_prefix (bits_from addr left j) p then gateway else x)
        (routes-created nil p)
Sets-created addr left j gateway p h (node c0 c1 g) = h c0 c1 g

routes-add_loop :
    (addr left j : ℕ) (gateway : Text) (c0 c1 : Trie) (g : Text) (p : Prefix)
    → AllBits p
    → Sets addr left j gateway p (node c0 c1 g) (node c0 c1 g)
unfolding add_loop set_gateway set_child child
routes-add_loop addr zero j gateway c0 c1 g [] h = refl
routes-add_loop addr zero j gateway c0 c1 g (b ∷ p) h = refl
routes-add_loop addr (suc left) j gateway c0 c1 g [] h = ground arith
routes-add_loop addr (suc left) j gateway c0 c1 g (b ∷ p) h =
    let below =
      Sets-created addr left (j + 1) gateway p
        (λ d0 d1 g'. routes-add_loop addr left (j + 1) gateway d0 d1 g' p h.1) in
    let bit = bit_in_round-lt addr j in ground (arith, below c0, below c1)

longest_match_none : (bits : Prefix) → longest_match (λ p. []) bits ≡ []
longest_match_none [] = refl
longest_match_none (b ∷ bits) = rw (longest_match_none bits)

find_loop-longest_match :
    (addr left j : ℕ) (t : Trie) (best : Text)
    → find_loop addr left j t best ≡ (
        let found = longest_match (routes t) (bits_from addr left j) in
        if is_empty found then best else found)
unfolding find_loop child better gateway_of
find_loop-longest_match addr left j nil best = rw (longest_match_none (bits_from addr left j))
find_loop-longest_match addr zero j (node c0 c1 g) best = refl
find_loop-longest_match addr (suc left) j (node c0 c1 g) best =
    let bit = bit_in_round addr j in
    let c : Trie = if bit == 0 then c0 else c1 in
    let under : (λ (p : Prefix). routes (node c0 c1 g) (bit ∷ p)) ≡ routes c =
      fun_ext λ p. ground arith in
    let ih = find_loop-longest_match addr left (j + 1) c (better (node c0 c1 g) best) in
    ih ∙ rw under (ground arith)

-- The match is the gateway of one prefix of the bits; longer ones have none, and so have all if the
-- match is "".
abbrev pub IsLongest : (Prefix → Text) → Prefix → Text → Type 0
IsLongest f bits found =
    (k : ℕ) × (k ≤ length bits)
    × (found ≡ f (take k bits))
    × ((m : ℕ) → k < m → m ≤ length bits → f (take m bits) ≡ [])
    × (0 < k → is_empty found ≡ false)

is_empty-eq : (t : Text) → is_empty t ≡ true → t ≡ []
is_empty-eq [] h = refl
is_empty-eq (c ∷ cs) h = cc

module _ (bits : Prefix) (f : Prefix → Text) (b k : ℕ) where
  -- No prefix is longer than the empty one, if none of the rest has a gateway.
  longer :
      k ≡ 0
      → f (b ∷ take k bits) ≡ []
      → ((m : ℕ) → k < m → m ≤ length bits → f (b ∷ take m bits) ≡ [])
      → (m : ℕ) → 0 < m
      → m ≤ suc (length bits)
      → f (take m (b ∷ bits)) ≡ []
  longer first empty above zero h q = absurd (omega arith)
  longer first empty above (suc m) h q = elim (ℕ_discrete m k) [
    | yes same ↦ rw same empty
    | no other ↦ above m (omega arith) (omega arith)
  ]

  shifted :
      ((m : ℕ) → k < m → m ≤ length bits → f (b ∷ take m bits) ≡ [])
      → (m : ℕ) → suc k < m
      → m ≤ suc (length bits)
      → f (take m (b ∷ bits)) ≡ []
  shifted above zero h q = absurd (omega arith)
  shifted above (suc m) h q = above m (omega arith) (omega arith)

or_empty : (t : Text) → (if is_empty t then [] else t) ≡ t
or_empty [] = refl
or_empty (c ∷ cs) = refl

longest_match-IsLongest :
    (f : Prefix → Text) (bits : Prefix) → IsLongest f bits (longest_match f bits)
longest_match-IsLongest f [] =
    (0, omega arith, refl, λ m h k. absurd (omega arith), λ h. absurd (omega arith))
longest_match-IsLongest f (b ∷ bits) =
    let g = λ (p : Prefix). f (b ∷ p) in
    let deeper = longest_match g bits in
    let (k, inside, e, above, some_gateway) = longest_match-IsLongest g bits in
    elim (Bool-cases (is_empty deeper)) [
      | inl none_deeper ↦
          let first : k ≡ 0 = ground arith in
          let empty : g (take k bits) ≡ [] = sym e ∙ is_empty-eq deeper none_deeper in
          rw none_deeper
            (0, omega arith, refl, longer bits f b k first empty above, λ h. absurd (omega arith))
      | inr deeper_one ↦
          rw deeper_one (suc k, omega arith, e, shifted bits f b k above, λ h. deeper_one)
    ]

-- For an IPv4 address that parses FindRoute returns the gateway of the longest prefix that has one, of
-- the 32 binary digits of the address, and "" if no prefix of them has one.
pub find_route-IsLongest :
    (parse_ip : Text → Option Ip) (ip : Text) (t : Trie) (addr : ℕ)
    → parse_ip ip ≡ some (some addr)
    → addr < 2 ^ 32
    → (bits : Prefix) × IsAddress addr bits × IsLongest (routes t) bits (find_route parse_ip ip t)
unfolding find_route ipv4_to_uint32
find_route-IsLongest parse_ip ip t addr e small =
    let (bits, a) = digits-IsAddress addr small in
    let size = a.size in
    let read : bits_from addr 32 0 ≡ bits =
      address_bits addr bits 32 a (omega arith) ∙ take_all bits 32 (omega arith) in
    let same = find_loop-longest_match addr 32 0 t [] in
    let whole : find_route parse_ip ip t ≡ longest_match (routes t) bits =
      rw (e, find_route)
        (same
          ∙ or_empty (longest_match (routes t) (bits_from addr 32 0))
          ∙ ap (longest_match (routes t)) read) in
    (bits, a, rw whole (longest_match-IsLongest (routes t) bits))

-- AddRoute of an IPv4 prefix that parses, with a mask of at most 32 ones, sets the gateway of that
-- prefix, the first as many of the 32 binary digits of its address as the mask has ones, and leaves
-- the routes of every other prefix.
pub add_route-routes :
    (parse_cidr : Text → Option (Ip × ℕ)) (cidr gateway : Text) (c0 c1 : Trie) (g : Text)
    (addr ones : ℕ)
    → parse_cidr cidr ≡ some (some addr, ones)
    → addr < 2 ^ 32
    → ones ≤ 32
    → (bits : Prefix) × IsAddress addr bits
      × ((t : Trie) × (add_route parse_cidr cidr gateway (node c0 c1 g) ≡ some t)
          × ((p : Prefix)
              → AllBits p
              → routes t p
                ≡ (if eq_prefix (take ones bits) p then gateway else routes (node c0 c1 g) p)))
unfolding add_route ipv4_to_uint32
add_route-routes parse_cidr cidr gateway c0 c1 g addr ones e small inside =
    let (bits, a) = digits-IsAddress addr small in
    let read = address_bits addr bits ones a inside in
    (
      bits,
      a,
      (
        add_loop addr ones 0 gateway (node c0 c1 g),
        rw (e, add_route),
        λ p h.
            subst
              (λ key.
                routes (add_loop addr ones 0 gateway (node c0 c1 g)) p
                ≡ (if eq_prefix key p then gateway else routes (node c0 c1 g) p))
              read (routes-add_loop addr ones 0 gateway c0 c1 g p h),
      ),
    )
