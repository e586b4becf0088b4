-- ===== src/IpPacket/Tests.antt =====
-- A concrete IPv4 packet.
use norr.Prelude.{ℕ, ◌≡◌, refl, List, [], ◌∷◌, ◌++◌, arith, ok, err, All}
use norr.Prelude.Bytes.{IsByte, read_be}
use norr.Wire.{payload_length_mismatch, read_u16}
use norr.Address.{ipv4, from_bytes}
use norr.IpPacket.{IpPacketView, parse_ipv4, parse_ip_packet}
use norr.IpPacket.Bounds.{Covers, parse_ip_packet-Covers}

abbrev packet : List ℕ
packet =
    0x45 ∷ 0 ∷ 0 ∷ 21 ∷ 0 ∷ 0 ∷ 0 ∷ 0 ∷ 64 ∷ 17 ∷ 0 ∷ 0 ∷ 10 ∷ 0 ∷ 0 ∷ 1 ∷ 10 ∷ 0 ∷ 0 ∷ 2 ∷ 9 ∷ []

abbrev view : IpPacketView
view = record {
  family = ipv4;
  source = from_bytes ipv4 (10 ∷ 0 ∷ 0 ∷ 1 ∷ []);
  destination = from_bytes ipv4 (10 ∷ 0 ∷ 0 ∷ 2 ∷ []);
  protocol = 17;
  hop_limit = 64;
  header_length = 20;
  total_length = 21;
}

packet-All : All IsByte packet
packet-All = ground arith

parse_view : parse_ip_packet packet ≡ ok view
unfolding parse_ip_packet parse_ipv4 read_u16 read_be
parse_view = refl

parse_longer : parse_ip_packet (packet ++ (0 ∷ [])) ≡ err payload_length_mismatch
unfolding parse_ip_packet parse_ipv4 read_u16 read_be
parse_longer = refl

parse_ip_packet-Covers_example : Covers packet view
parse_ip_packet-Covers_example = parse_ip_packet-Covers packet view packet-All parse_view
