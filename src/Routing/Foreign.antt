-- ===== src/Routing/Foreign.antt =====
-- IPv6 addresses in practice/routing_table.go: ipv4ToUint32 turns them into 0.0.0.0.
use go_algorithm_practice.Prelude.{ℕ, ◌≡◌, refl, arith, Option, none, some, ◌∷◌}
use go_algorithm_practice.Routing.{
  Text, Trie, nil, node, empty_node, new_routing_table, Ip, ipv4_to_uint32, child, set_gateway,
  add_loop, add_route, gateway_of, better, find_loop, find_route,
}

find_loop-nil :
    (addr left j : ℕ) (c : Trie) (best : Text) → c ≡ nil → find_loop addr left j c best ≡ best
unfolding find_loop
find_loop-nil addr left j c best e = rw e refl

-- AddRoute of a default route for IPv6, `::/0`, on a new table makes every address take it, an IPv4
-- address too.
pub find_route-after_ipv6_default :
    (parse_cidr : Text → Option (Ip × ℕ)) (parse_ip : Text → Option Ip) (cidr ip : Text) (b : ℕ)
    (bs : Text) (parsed : Ip)
    → parse_cidr cidr ≡ some (none, 0)
    → parse_ip ip ≡ some parsed
    → (t : Trie) × (add_route parse_cidr cidr (b ∷ bs) new_routing_table ≡ some t)
      × (find_route parse_ip ip t ≡ b ∷ bs)
unfolding add_route add_loop set_gateway new_routing_table empty_node find_route
find_route-after_ipv6_default parse_cidr parse_ip cidr ip b bs parsed e p = (
  node nil nil (b ∷ bs),
  rw (e, add_route),
  rw (p, find_route, find_loop)
      (unfold better in
        unfold child in
        unfold gateway_of in find_loop-nil (ipv4_to_uint32 parsed) 31 1 _ (b ∷ bs) (ground arith)),
)
