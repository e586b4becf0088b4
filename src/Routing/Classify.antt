-- ===== src/Routing/Classify.antt =====
-- When a packet is forwarded.
use norr.Prelude.{
  ◌≡◌, ◌≢◌, ◌≤◌, ◌↔◌, true, false, ◌&&◌, List, [], ◌∷◌, arith, ◌==◌, Bool-cases, inl, inr, ◌⊎◌,
}
use mathlib.Core.List.{Mem, mem-cons_self, mem-cons_of_mem}
use norr.Address.{Address, Prefix}
use norr.IpPacket.{IpPacketView, is_multicast, is_unspecified, is_loopback}
use norr.Routing.{
  PeerId, no_peer, Entry, RoutingTable, forward, deliver_local, matches, is_local, lookup,
  authorized, is_authorized, classify,
}

-- The peer has an entry that matches the address.
pub record Holds (t : RoutingTable) (peer : PeerId) (a : Address) : Type 0 where
  pub entry : Entry
  pub present : Mem entry t.entries
  pub theirs : entry.peer ≡ peer
  pub hit : matches entry.prefix a ≡ true

authorized-Holds :
    (es : List Entry) (ls : List Prefix) (peer : PeerId) (a : Address)
    → authorized es peer a ≡ true
    → Holds (record { entries = es; locals = ls }) peer a
unfolding authorized
authorized-Holds [] ls peer a e = ground arith
authorized-Holds (x ∷ xs) ls peer a e = elim (Bool-cases (x.peer == peer && matches x.prefix a)) [
  | inl c ↦ record { entry = x; present = mem-cons_self; theirs = ground arith; hit = ground arith }
  | inr c ↦
      let h = authorized-Holds xs ls peer a (ground arith) in
      record {
        entry = h.entry;
        present = mem-cons_of_mem x h.present;
        theirs = h.theirs;
        hit = h.hit;
      }
]

-- What must hold of a packet that is sent on to the peer.
pub record Forwards (t : RoutingTable) (p : IpPacketView) (ingress peer : PeerId) : Type 0 where
  pub routed : peer ≡ lookup t.entries p.destination
  pub known : peer ≢ no_peer
  pub elsewhere : peer ≢ ingress
  pub hops : 2 ≤ p.hop_limit
  pub unicast : is_multicast p.destination ≡ false
  pub specified : (is_unspecified p.source ≡ false) × (is_unspecified p.destination ≡ false)
  pub outside : (is_loopback p.source ≡ false) × (is_loopback p.destination ≡ false)
  pub foreign : is_local t.locals p.destination ≡ false
  pub allowed : (ingress ≡ no_peer) ⊎ (is_authorized t ingress p.source ≡ true)

forwards :
    (t : RoutingTable) (p : IpPacketView) (ingress peer : PeerId)
    → classify t p ingress ≡ record { decision = forward; peer = peer }
    → Forwards t p ingress peer
unfolding classify
forwards t p ingress peer e = ground arith

forwarded :
    (t : RoutingTable) (p : IpPacketView) (ingress peer : PeerId)
    → Forwards t p ingress peer
    → classify t p ingress ≡ record { decision = forward; peer = peer }
unfolding classify
forwarded t p ingress peer f = ground arith

-- A packet is sent on to a peer exactly when none of the refusals applies: its destination is
-- unicast, no address is unspecified or loopback, two hops are left, a peer that sent it is
-- authorized for its source, the destination is not local, and the peer that the destination routes
-- to exists and is not the sender.
pub classify-forward_iff :
    (t : RoutingTable) (p : IpPacketView) (ingress peer : PeerId)
    → (classify t p ingress ≡ record { decision = forward; peer = peer })
      ↔ Forwards t p ingress peer
classify-forward_iff t p ingress peer = (forwards t p ingress peer, forwarded t p ingress peer)

passed_authorization :
    (t : RoutingTable) (p : IpPacketView) (ingress : PeerId)
    → ingress ≢ no_peer
    → ((classify t p ingress).decision ≡ forward)
      ⊎ ((classify t p ingress).decision ≡ deliver_local)
    → is_authorized t ingress p.source ≡ true
unfolding classify
passed_authorization t p ingress n e = ground arith

-- A packet from a peer that is sent on or delivered locally comes from an address in one of the
-- prefixes of that peer.
pub classify-Holds :
    (t : RoutingTable) (p : IpPacketView) (ingress : PeerId)
    → ingress ≢ no_peer
    → ((classify t p ingress).decision ≡ forward)
      ⊎ ((classify t p ingress).decision ≡ deliver_local)
    → Holds t ingress p.source
unfolding is_authorized
classify-Holds t p ingress n e =
    authorized-Holds t.entries t.locals ingress p.source
      (ground (arith, passed_authorization t p ingress n e))
