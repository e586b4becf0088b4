-- ===== src/Packet/Tests.antt =====
-- Packets on concrete bytes, and the theorems at inputs that meet their hypotheses.
use norr.Prelude.{ℕ, ◌≡◌, refl, List, [], ◌∷◌, arith, ok, err}
use norr.Prelude.Bytes.{read_be, write_be}
use norr.Wire.{malformed_packet, read_u16, write_u16, read_u64, write_u64}
use norr.Packet.{PacketHeader, parse_packet, serialize_packet, serialize_header, write_header}
use norr.Packet.RoundTrip.{parse_packet-serialize_packet}
use norr.Packet.Canonical.{serialize_packet-parse_packet, view_of}

abbrev keepalive : PacketHeader
keepalive = record {
  version = 1;
  frame_type = 2;
  flags = 0;
  key_id = 0x1234;
  header_length = 16;
  counter = 0x0102030405060708;
  payload_length = 0;
}

abbrev datagram : List ℕ
datagram = 0x12 ∷ 0 ∷ 0x12 ∷ 0x34 ∷ 0 ∷ 16 ∷ 1 ∷ 2 ∷ 3 ∷ 4 ∷ 5 ∷ 6 ∷ 7 ∷ 8 ∷ 0 ∷ 2 ∷ 7 ∷ 9 ∷ []

serialize_keepalive : serialize_packet keepalive (7 ∷ 9 ∷ []) ≡ ok datagram
unfolding serialize_packet serialize_header write_header write_u16 write_u64 write_be
serialize_keepalive = refl

parse_short : parse_packet (0x12 ∷ []) ≡ err malformed_packet
unfolding parse_packet
parse_short = refl

parse_packet-serialize_packet_example :
    parse_packet datagram
    ≡ ok (record { header = record keepalive { payload_length = 2 }; payload = 7 ∷ 9 ∷ [] })
parse_packet-serialize_packet_example =
    parse_packet-serialize_packet keepalive (7 ∷ 9 ∷ []) datagram (omega arith) serialize_keepalive

parse_datagram : parse_packet datagram ≡ ok (view_of datagram)
unfolding parse_packet read_u16 read_u64 read_be
parse_datagram = refl

serialize_packet-parse_packet_example :
    serialize_packet (view_of datagram).header (view_of datagram).payload ≡ ok datagram
serialize_packet-parse_packet_example =
    serialize_packet-parse_packet datagram (view_of datagram) (omega arith) parse_datagram
