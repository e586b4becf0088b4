-- ===== src/FlowHash/Direction.antt =====
-- Both directions of a flow go to one worker.
use norr.Prelude.{
  ℕ, ◌+◌, ◌%◌, ◌≤◌, ◌<◌, ◌≡◌, ap, ◌∙◌, arith, length, List, drop, leb, if◌then◌else◌,
}
use native.Mathlib.Nat.{mod-lt, add_comm}
use norr.Prelude.Bytes.{byte_at, u64}
use norr.IpPacket.{IpPacketView}
use norr.FlowHash.{
  FlowKey, hash_address, flow_key_of, finish, mix, offset_basis, hash_flow, worker_for,
}

-- The key of the packets that go the other way.
abbrev pub reverse : FlowKey → FlowKey
reverse key = record {
  source = key.destination;
  destination = key.source;
  source_port = key.destination_port;
  destination_port = key.source_port;
  protocol = key.protocol;
}

hash_flow-reverse : (key : FlowKey) → hash_flow (reverse key) ≡ hash_flow key
unfolding hash_flow
hash_flow-reverse key =
    ap (λ t. finish (mix (mix offset_basis (u64 t)) key.protocol))
      (add_comm (u64 (hash_address key.destination + key.destination_port))
        (u64 (hash_address key.source + key.source_port)))

-- A packet and one that goes the other way: the addresses, the ports and nothing else are exchanged.
pub record Answers (p q : IpPacketView) (frame answer : List ℕ) : Type 0 where
  pub source : q.source ≡ p.destination
  pub destination : q.destination ≡ p.source
  pub protocol : q.protocol ≡ p.protocol
  pub long : (p.header_length + 4 ≤ length frame) × (q.header_length + 4 ≤ length answer)
  pub port0 : byte_at (drop q.header_length answer) 0 ≡ byte_at (drop p.header_length frame) 2
  pub port1 : byte_at (drop q.header_length answer) 1 ≡ byte_at (drop p.header_length frame) 3
  pub port2 : byte_at (drop q.header_length answer) 2 ≡ byte_at (drop p.header_length frame) 0
  pub port3 : byte_at (drop q.header_length answer) 3 ≡ byte_at (drop p.header_length frame) 1

flow_key_of-reverse :
    (p q : IpPacketView) (frame answer : List ℕ)
    → Answers p q frame answer
    → flow_key_of q answer ≡ reverse (flow_key_of p frame)
unfolding flow_key_of
flow_key_of-reverse p q frame answer a =
    ground (arith, a.source, a.destination, a.protocol, a.long, a.port0, a.port1, a.port2, a.port3)

worker_for-lt : (key : FlowKey) (n : ℕ) → 1 ≤ n → worker_for key n < n
unfolding worker_for
worker_for-lt key n h = ground (arith, mod-lt (hash_flow key) h)

-- A packet and its answer, whose addresses and ports are exchanged, go to the same worker, one of
-- those there are.
pub worker_for-Answers :
    (p q : IpPacketView) (frame answer : List ℕ) (n : ℕ)
    → Answers p q frame answer
    → 1 ≤ n
    → (worker_for (flow_key_of q answer) n ≡ worker_for (flow_key_of p frame) n)
      × (worker_for (flow_key_of p frame) n < n)
unfolding worker_for
worker_for-Answers p q frame answer n a h = (
  ap (λ k. worker_for k n) (flow_key_of-reverse p q frame answer a)
      ∙ ap (λ t. if leb n 1 then 0 else t % n) (hash_flow-reverse (flow_key_of p frame)),
  worker_for-lt (flow_key_of p frame) n h,
)
