-- ===== src/Routing.antt =====
-- src/routing.cpp, include/norr/routing.hpp: which peer a packet goes to, and who may send it.
-- The table's lock makes each call atomic, so a call is one function of the table.
pub mod LongestMatch
pub mod Classify
pub mod Tests
use norr.Prelude.{
  ℕ, ◌+◌, Bool, true, false, not, ◌&&◌, ◌||◌, List, [], ◌∷◌, ◌++◌, ltb, leb, ◌==◌, if◌then◌else◌,
  length, Result, ok, err,
}
use norr.Address.{Address, Prefix, family_eq, contains, prefix_eq}
use norr.IpPacket.{IpPacketView, is_multicast, is_unspecified, is_loopback}

abbrev pub PeerId : Type 0
PeerId = ℕ

abbrev pub no_peer : PeerId
no_peer = 0

abbrev pub maximum_prefixes : ℕ
maximum_prefixes = 4096

pub data RoutingError : Type 0 where
  duplicate_prefix invalid_peer prefix_family_mismatch too_many_prefixes : RoutingError

pub data ForwardDecision : Type 0 where
  forward deliver_local no_route source_not_authorized multicast_denied : ForwardDecision
  unspecified_address loopback_address hop_limit_exceeded routing_loop : ForwardDecision

pub record ForwardResult : Type 0 where
  pub decision : ForwardDecision
  pub peer : PeerId

pub record Entry : Type 0 where
  pub prefix : Prefix
  pub peer : PeerId

pub record RoutingTable : Type 0 where
  pub entries : List Entry
  pub locals : List Prefix

-- The first entry with the prefix, in the loop of `add`.
pub data Found : Type 0 where
  absent : Found
  owner : PeerId → Found

unfoldable pub find_prefix : Prefix → List Entry → Found
find_prefix p [] = absent
find_prefix p (e ∷ es) = if prefix_eq e.prefix p then owner e.peer else find_prefix p es

-- `std::ranges::lower_bound` by `greater` on the lengths, and the insertion there: before the first
-- entry whose prefix is not longer.
unfoldable pub insert : Entry → List Entry → List Entry
insert e [] = e ∷ []
insert e (x ∷ xs) = if ltb e.prefix.length x.prefix.length then x ∷ insert e xs else e ∷ x ∷ xs

unfoldable pub add : PeerId → Prefix → RoutingTable → Result RoutingError RoutingTable
add peer p t =
    if peer == no_peer
    then err invalid_peer
    else if leb maximum_prefixes (length t.entries)
    then err too_many_prefixes
    else elim (find_prefix p t.entries) [
      | owner held ↦ if held == peer then ok t else err duplicate_prefix
      | absent ↦ ok (record t { entries = insert (record { prefix = p; peer = peer }) t.entries })
    ]

unfoldable pub clear_peer_routes : RoutingTable → RoutingTable
clear_peer_routes t = record t { entries = [] }

unfoldable pub holds_prefix : Prefix → List Prefix → Bool
holds_prefix p [] = false
holds_prefix p (q ∷ qs) = prefix_eq q p || holds_prefix p qs

unfoldable pub add_local : Prefix → RoutingTable → Result RoutingError RoutingTable
add_local p t =
    if leb maximum_prefixes (length t.locals)
    then err too_many_prefixes
    else if holds_prefix p t.locals
    then ok t
    else ok (record t { locals = t.locals ++ (p ∷ []) })

abbrev pub matches : Prefix → Address → Bool
matches p a = family_eq p.address.family a.family && contains p a

unfoldable pub is_local : List Prefix → Address → Bool
is_local [] a = false
is_local (p ∷ ps) a = matches p a || is_local ps a

unfoldable pub lookup : List Entry → Address → PeerId
lookup [] a = no_peer
lookup (e ∷ es) a = if matches e.prefix a then e.peer else lookup es a

unfoldable pub authorized : List Entry → PeerId → Address → Bool
authorized [] peer a = false
authorized (e ∷ es) peer a = (e.peer == peer && matches e.prefix a) || authorized es peer a

unfoldable pub is_authorized : RoutingTable → PeerId → Address → Bool
is_authorized t peer a = if peer == no_peer then false else authorized t.entries peer a

abbrev pub refuse : ForwardDecision → ForwardResult
refuse d = record { decision = d; peer = no_peer }

unfoldable pub classify : RoutingTable → IpPacketView → PeerId → ForwardResult
classify t packet ingress =
    if is_multicast packet.destination
    then refuse multicast_denied
    else if is_unspecified packet.destination || is_unspecified packet.source
    then refuse unspecified_address
    else if is_loopback packet.destination || is_loopback packet.source
    then refuse loopback_address
    else if leb packet.hop_limit 1
    then refuse hop_limit_exceeded
    else if not (ingress == no_peer) && not (is_authorized t ingress packet.source)
    then refuse source_not_authorized
    else if is_local t.locals packet.destination
    then refuse deliver_local
    else (let destination_peer = lookup t.entries packet.destination in
        if destination_peer == no_peer
        then (if not (ingress == no_peer) then refuse deliver_local else refuse no_route)
        else if destination_peer == ingress
        then refuse routing_loop
        else record { decision = forward; peer = destination_peer })
