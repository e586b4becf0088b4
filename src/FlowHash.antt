-- ===== src/FlowHash.antt =====
-- src/flow_hash.cpp, include/norr/flow_hash.hpp: which worker a flow's packets go to.
pub mod Direction
pub mod Tests
use norr.Prelude.{
  ℕ, ◌+◌, ◌*◌, ◌/◌, ◌%◌, ◌^◌, bit_or, bit_xor, Bool, not, ◌&&◌, List, [], ◌∷◌, ltb, leb, ◌==◌,
  if◌then◌else◌, length, drop,
}
use norr.Prelude.Bytes.{byte_at, u16, u64}
use norr.Address.{Address, bytes}
use norr.IpPacket.{IpPacketView}
use norr.Qos.{protocol_tcp, protocol_udp}

pub record FlowKey : Type 0 where
  pub source : Address
  pub destination : Address
  pub source_port : ℕ
  pub destination_port : ℕ
  pub protocol : ℕ

abbrev pub offset_basis : ℕ
offset_basis = 1469598103934665603

abbrev pub prime : ℕ
prime = 1099511628211

unfoldable pub mix : ℕ → ℕ → ℕ
mix hash value = u64 (bit_xor hash value * prime)

-- The loop of `mix_address`.
unfoldable pub mix_octets : ℕ → List ℕ → ℕ
mix_octets hash [] = hash
mix_octets hash (octet ∷ octets) = mix_octets (mix hash octet) octets

unfoldable pub hash_address : Address → ℕ
hash_address address = mix_octets offset_basis (bytes address)

unfoldable pub flow_key_of : IpPacketView → List ℕ → FlowKey
flow_key_of packet frame =
    let key : FlowKey = record {
      source = packet.source;
      destination = packet.destination;
      source_port = 0;
      destination_port = 0;
      protocol = packet.protocol;
    } in
    let transport = drop packet.header_length frame in
    if not (packet.protocol == protocol_tcp) && not (packet.protocol == protocol_udp)
    then key
    else if ltb (length frame) (packet.header_length + 4)
    then key
    else record key {
      source_port = u16 (bit_or (byte_at transport 0 * 2 ^ 8) (byte_at transport 1));
      destination_port = u16 (bit_or (byte_at transport 2 * 2 ^ 8) (byte_at transport 3));
    }

-- The scrambling at the end of `hash_flow`.
unfoldable pub finish : ℕ → ℕ
finish hash =
    let first = bit_xor hash (hash / 2 ^ 33) in
    let second = u64 (first * 0xFF51AFD7ED558CCD) in bit_xor second (second / 2 ^ 33)

unfoldable pub hash_flow : FlowKey → ℕ
hash_flow key =
    let source = u64 (hash_address key.source + key.source_port) in
    let destination = u64 (hash_address key.destination + key.destination_port) in
    let hash = mix offset_basis (u64 (source + destination)) in finish (mix hash key.protocol)

unfoldable pub worker_for : FlowKey → ℕ → ℕ
worker_for key worker_count = if leb worker_count 1 then 0 else hash_flow key % worker_count
