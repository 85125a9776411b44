-- ===== src/Routing.antt =====
-- practice/routing_table.go: longest-prefix routing on a binary trie. A node is reached by one
-- pointer only, so AddRoute returns the new trie. A text is its bytes, and the empty text means that
-- no route ends at a node. `net.ParseCIDR` and `net.ParseIP` are parameters: the first gives the
-- network address and the number of ones in the mask, the second an address; an address is what
-- `To4` makes of it, `none` for one that is not IPv4.
pub mod Bits
pub mod Match
pub mod Foreign
mod Tests
use go_algorithm_practice.Prelude.{
  ℕ, zero, suc, ◌+◌, ◌-◌, ◌/◌, ◌%◌, ◌^◌, Bool, true, false, Option, none, some, List, [], ◌∷◌,
  if◌then◌else◌, ◌==◌, leb,
}

abbrev pub Text : Type 0
Text = List ℕ

abbrev pub is_empty : Text → Bool
is_empty [] = true
is_empty (c ∷ cs) = false

pub data Trie : Type 0 where
  nil : Trie
  node : Trie → Trie → Text → Trie

-- `&TrieNode{}`, which is also the root of a new table.
unfoldable pub empty_node : Trie
empty_node = node nil nil []

unfoldable pub new_routing_table : Trie
unfolding empty_node
new_routing_table = empty_node

abbrev pub Ip : Type 0
Ip = Option ℕ

unfoldable pub ipv4_to_uint32 : Ip → ℕ
ipv4_to_uint32 none = 0
ipv4_to_uint32 (some addr) = addr

unfoldable pub get_bit : ℕ → ℕ → ℕ
get_bit addr i = addr / 2 ^ i % 2

-- The bit in round `j` of a loop from i = 31 down: `getBit(addr, 31 - j)`. AddRoute goes on below 0
-- for a mask of more than 32 ones; a shift by such a count, read as unsigned, leaves 0.
unfoldable pub bit_in_round : ℕ → ℕ → ℕ
unfolding get_bit
bit_in_round addr j = if leb j 31 then get_bit addr (31 - j) else 0

unfoldable pub child : Trie → ℕ → Trie
child nil bit = nil
child (node c0 c1 gateway) bit = if bit == 0 then c0 else c1

unfoldable pub set_child : Trie → ℕ → Trie → Trie
set_child nil bit c = nil
set_child (node c0 c1 gateway) bit c = if bit == 0 then node c c1 gateway else node c0 c gateway

unfoldable pub set_gateway : Trie → Text → Trie
set_gateway nil gateway = nil
set_gateway (node c0 c1 old) gateway = node c0 c1 gateway

-- A missing child is created.
unfoldable pub created : Trie → Trie
unfolding empty_node
created nil = empty_node
created (node c0 c1 gateway) = node c0 c1 gateway

-- The loop of AddRoute from round `j` on, with `left` rounds to go, at the node `n`; then the
-- gateway is set at the node that it ends at. The result is `n` after the changes below it.
unfoldable pub add_loop : ℕ → ℕ → ℕ → Text → Trie → Trie
unfolding bit_in_round child set_child set_gateway created
add_loop addr zero j gateway n = set_gateway n gateway
add_loop addr (suc left) j gateway n =
    let bit = bit_in_round addr j in
    set_child n bit (add_loop addr left (j + 1) gateway (created (child n bit)))

module _ (parse_cidr : Text → Option (Ip × ℕ)) where
  -- AddRoute: the new table, or `none` for the error of ParseCIDR, which changes nothing.
  unfoldable pub add_route : Text → Text → Trie → Option Trie
  unfolding ipv4_to_uint32 add_loop
  add_route cidr gateway root = elim (parse_cidr cidr) [
    | none ↦ none
    | some (ip, ones) ↦ some (add_loop (ipv4_to_uint32 ip) ones 0 gateway root)
  ]

unfoldable pub gateway_of : Trie → Text
gateway_of nil = []
gateway_of (node c0 c1 gateway) = gateway

-- `if n.gateway != "" { best = n.gateway }`
unfoldable pub better : Trie → Text → Text
unfolding gateway_of
better n best = if is_empty (gateway_of n) then best else gateway_of n

-- The loop of FindRoute from round `j` on, and the check of the final node.
unfoldable pub find_loop : ℕ → ℕ → ℕ → Trie → Text → Text
unfolding bit_in_round child better
find_loop addr left j nil best = best
find_loop addr zero j (node c0 c1 gateway) best = better (node c0 c1 gateway) best
find_loop addr (suc left) j (node c0 c1 gateway) best =
    find_loop addr left (j + 1) (child (node c0 c1 gateway) (bit_in_round addr j))
      (better (node c0 c1 gateway) best)

module _ (parse_ip : Text → Option Ip) where
  unfoldable pub find_route : Text → Trie → Text
  unfolding ipv4_to_uint32 find_loop
  find_route ip root = elim (parse_ip ip) [
    | none ↦ []
    | some parsed ↦ find_loop (ipv4_to_uint32 parsed) 32 0 root []
  ]
