-- ===== src/Routing/Tests.antt =====
-- Runs of the routing table on addresses of four bytes, with a text of bytes for a parser's input, and
-- the theorems at them.
use go_algorithm_practice.Prelude.{
  arith, take, ℕ, ◌+◌, ◌*◌, ◌^◌, ◌≡◌, refl, Option, none, some, [], ◌∷◌, if◌then◌else◌,
}
use go_algorithm_practice.Routing.{
  Text, Trie, nil, node, empty_node, new_routing_table, Ip, ipv4_to_uint32, get_bit, bit_in_round,
  child, set_child, set_gateway, created, add_loop, add_route, gateway_of, better, find_loop,
  find_route,
}
use go_algorithm_practice.Routing.Bits.{Prefix, AllBits, IsAddress}
use go_algorithm_practice.Routing.Match.{
  eq_prefix, routes, IsLongest, find_route-IsLongest, add_route-routes,
}
use go_algorithm_practice.Routing.Foreign.{find_route-after_ipv6_default}

-- Four bytes are an IPv4 address, a fifth the length of its prefix, and a text of two bytes stands
-- for `::` and its prefix's length.
abbrev address : ℕ → ℕ → ℕ → ℕ → ℕ
address a b c d = a * 2 ^ 24 + b * 2 ^ 16 + c * 2 ^ 8 + d

abbrev sample_cidr : Text → Option (Ip × ℕ)
sample_cidr (a ∷ b ∷ c ∷ d ∷ ones ∷ []) = some (some (address a b c d), ones)
sample_cidr (v ∷ ones ∷ []) = some (none, ones)
sample_cidr other = none

abbrev sample_ip : Text → Option Ip
sample_ip (a ∷ b ∷ c ∷ d ∷ []) = some (some (address a b c d))
sample_ip other = none

abbrev wide : Text
wide = 10 ∷ 0 ∷ 0 ∷ 0 ∷ 8 ∷ []

abbrev narrow : Text
narrow = 10 ∷ 1 ∷ 0 ∷ 0 ∷ 16 ∷ []

abbrev with_wide : Trie
with_wide = add_loop (address 10 0 0 0) 8 0 (1 ∷ []) (node nil nil [])

abbrev with_both : Trie
with_both = add_loop (address 10 1 0 0) 16 0 (2 ∷ []) with_wide

routing_runs :
    (add_route sample_cidr wide (1 ∷ []) new_routing_table ≡ some with_wide)
    × (add_route sample_cidr narrow (2 ∷ []) with_wide ≡ some with_both)
    × (find_route sample_ip (10 ∷ 1 ∷ 2 ∷ 3 ∷ []) with_both ≡ 2 ∷ [])
    × (find_route sample_ip (10 ∷ 2 ∷ 0 ∷ 0 ∷ []) with_both ≡ 1 ∷ [])
    × (find_route sample_ip (11 ∷ 1 ∷ 0 ∷ 0 ∷ []) with_both ≡ [])
unfolding add_route add_loop find_route find_loop new_routing_table empty_node get_bit bit_in_round
    child set_child set_gateway created better gateway_of ipv4_to_uint32
routing_runs = (refl, refl, refl, refl, refl)

find_route-IsLongest_example :
    (bits : Prefix) × IsAddress (address 10 1 2 3) bits
    × IsLongest (routes with_both) bits (find_route sample_ip (10 ∷ 1 ∷ 2 ∷ 3 ∷ []) with_both)
find_route-IsLongest_example =
    find_route-IsLongest sample_ip (10 ∷ 1 ∷ 2 ∷ 3 ∷ []) with_both (address 10 1 2 3) refl
      (omega arith)

add_route-routes_example :
    (bits : Prefix) × IsAddress (address 10 1 0 0) bits
    × ((t : Trie) × (add_route sample_cidr narrow (2 ∷ []) (node nil nil (3 ∷ [])) ≡ some t)
        × ((p : Prefix)
            → AllBits p
            → routes t p
              ≡ (if eq_prefix (take 16 bits) p then 2 ∷ [] else routes (node nil nil (3 ∷ [])) p)))
add_route-routes_example =
    add_route-routes sample_cidr narrow (2 ∷ []) nil nil (3 ∷ []) (address 10 1 0 0) 16 refl
      (omega arith) (omega arith)

find_route-after_ipv6_default_example :
    (t : Trie) × (add_route sample_cidr (6 ∷ 0 ∷ []) (7 ∷ []) new_routing_table ≡ some t)
    × (find_route sample_ip (8 ∷ 8 ∷ 8 ∷ 8 ∷ []) t ≡ 7 ∷ [])
find_route-after_ipv6_default_example =
    find_route-after_ipv6_default sample_cidr sample_ip (6 ∷ 0 ∷ []) (8 ∷ 8 ∷ 8 ∷ 8 ∷ []) 7 []
      (some (address 8 8 8 8)) refl refl
