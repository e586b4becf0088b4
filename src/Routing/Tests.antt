-- ===== src/Routing/Tests.antt =====
-- Routing on a concrete table.
use norr.Prelude.{ℕ, ◌≡◌, ◌≢◌, ap, refl, [], ◌∷◌, arith, inl, ok, err, replicate}
use norr.Address.{Address, Prefix, ipv4, same_octets, contains, octets_eq, address_eq, prefix_eq}
use norr.IpPacket.{IpPacketView, is_multicast, is_unspecified, is_loopback}
use norr.Routing.{
  RoutingTable, duplicate_prefix, forward, source_not_authorized, find_prefix, insert, add,
  add_local, holds_prefix, is_local, lookup, authorized, is_authorized, classify, refuse,
}
use norr.Routing.LongestMatch.{
  Reached, start, added, added_local, WellFormed, Reached-WellFormed, Longest, lookup-Longest,
}
use norr.Routing.Classify.{Holds, Forwards, classify-forward_iff, classify-Holds}

abbrev host : ℕ → ℕ → Address
host a b = record { family = ipv4; octets = 10 ∷ a ∷ 0 ∷ b ∷ replicate 12 0 }

abbrev wide : Prefix
wide = record { address = host 0 0; length = 8 }

abbrev narrow : Prefix
narrow = record { address = host 7 0; length = 16 }

abbrev own : Prefix
own = record { address = host 9 1; length = 32 }

abbrev one_route : RoutingTable
one_route = record { entries = record { prefix = wide; peer = 1 } ∷ []; locals = [] }

abbrev two_routes : RoutingTable
two_routes = record {
  entries = record { prefix = narrow; peer = 2 } ∷ record { prefix = wide; peer = 1 } ∷ [];
  locals = [];
}

abbrev table : RoutingTable
table = record two_routes { locals = own ∷ [] }

add-wide : add 1 wide (record { entries = []; locals = [] }) ≡ ok one_route
unfolding add find_prefix insert
add-wide = refl

add-narrow : add 2 narrow one_route ≡ ok two_routes
unfolding add find_prefix insert prefix_eq address_eq octets_eq
add-narrow = refl

add_own : add_local own two_routes ≡ ok table
unfolding add_local holds_prefix
add_own = refl

add_taken : add 3 narrow two_routes ≡ err duplicate_prefix
unfolding add find_prefix prefix_eq address_eq octets_eq
add_taken = refl

table-Reached : Reached table
table-Reached = added_local own (added 2 narrow (added 1 wide start add-wide) add-narrow) add_own

abbrev packet : Address → Address → IpPacketView
packet from to = record {
  family = ipv4;
  source = from;
  destination = to;
  protocol = 17;
  hop_limit = 64;
  header_length = 20;
  total_length = 28;
}

classify-packet :
    classify table (packet (host 7 3) (host 5 5)) 2 ≡ record { decision = forward; peer = 1 }
unfolding classify is_multicast is_unspecified is_loopback is_authorized authorized is_local lookup
    contains same_octets
classify-packet = refl

classify_spoofed : classify table (packet (host 5 3) (host 7 5)) 2 ≡ refuse source_not_authorized
unfolding classify is_multicast is_unspecified is_loopback is_authorized authorized is_local lookup
    contains same_octets
classify_spoofed = refl

Reached-WellFormed_example : WellFormed table
Reached-WellFormed_example = Reached-WellFormed table table-Reached

lookup-Longest_example : Longest table.entries (host 7 5) (lookup table.entries (host 7 5))
lookup-Longest_example = lookup-Longest table (host 7 5) table-Reached

lookup_narrow : lookup table.entries (host 7 5) ≡ 2
unfolding lookup contains same_octets
lookup_narrow = refl

classify-forward_iff_example : Forwards table (packet (host 7 3) (host 5 5)) 2 1
classify-forward_iff_example =
    (classify-forward_iff table (packet (host 7 3) (host 5 5)) 2 1).0 classify-packet

two_is_a_peer : ◌≢◌ {A = ℕ} 2 0
two_is_a_peer e = omega arith

classify-Holds_example : Holds table 2 (host 7 3)
classify-Holds_example =
    classify-Holds table (packet (host 7 3) (host 5 5)) 2 two_is_a_peer
      (inl (ap (λ r. r.decision) classify-packet))
