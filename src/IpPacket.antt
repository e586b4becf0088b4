-- ===== src/IpPacket.antt =====
-- src/ip_packet.cpp, include/norr/ip_packet.hpp: the IP headers of tunnelled packets.
pub mod Bounds
pub mod Tests
use norr.Prelude.{
  ℕ, zero, suc, ◌+◌, ◌*◌, ◌/◌, ◌^◌, bit_and, Bool, true, false, not, ◌&&◌, ◌||◌, List, [], ◌∷◌, ltb,
  ◌==◌, if◌then◌else◌, length, take, drop, Option, none, some, Result, ok, err, fail_if, ◌>>=◌,
  ◌>>◌,
}
use norr.Prelude.Bytes.{byte_at, u8}
use norr.Wire.{Error, malformed_packet, payload_length_mismatch, unsupported_version, read_u16}
use norr.Address.{AddressFamily, ipv4, ipv6, Address, bytes, from_bytes}

abbrev pub ipv4_header_size : ℕ
ipv4_header_size = 20

abbrev pub ipv6_header_size : ℕ
ipv6_header_size = 40

pub record IpPacketView : Type 0 where
  pub family : AddressFamily
  pub source : Address
  pub destination : Address
  pub protocol : ℕ
  pub hop_limit : ℕ
  pub header_length : ℕ
  pub total_length : ℕ

-- `bytes.subspan(offset, count)`
abbrev pub subspan : List ℕ → ℕ → ℕ → List ℕ
subspan bytes offset count = take count (drop offset bytes)

unfoldable pub parse_ipv4 : List ℕ → Result Error IpPacketView
parse_ipv4 bytes = do
  fail_if (ltb (length bytes) ipv4_header_size) malformed_packet
  let header_words = bit_and (byte_at bytes 0) 0x0f
  let header_length = header_words * 4
  fail_if (ltb header_length ipv4_header_size || ltb (length bytes) header_length) malformed_packet
  let total_length = read_u16 bytes 2
  fail_if (ltb total_length header_length) malformed_packet
  fail_if (not (total_length == length bytes)) payload_length_mismatch
  ok (record {
    family = ipv4;
    source = from_bytes ipv4 (subspan bytes 12 4);
    destination = from_bytes ipv4 (subspan bytes 16 4);
    protocol = byte_at bytes 9;
    hop_limit = byte_at bytes 8;
    header_length = header_length;
    total_length = total_length;
  })

unfoldable pub parse_ipv6 : List ℕ → Result Error IpPacketView
parse_ipv6 bytes = do
  fail_if (ltb (length bytes) ipv6_header_size) malformed_packet
  let payload_length = read_u16 bytes 4
  let total_length = ipv6_header_size + payload_length
  fail_if (not (total_length == length bytes)) payload_length_mismatch
  ok (record {
    family = ipv6;
    source = from_bytes ipv6 (subspan bytes 8 16);
    destination = from_bytes ipv6 (subspan bytes 24 16);
    protocol = byte_at bytes 6;
    hop_limit = byte_at bytes 7;
    header_length = ipv6_header_size;
    total_length = total_length;
  })

unfoldable pub declared_ip_length : List ℕ → Option ℕ
declared_ip_length [] = none
declared_ip_length (b ∷ rest) =
    let bytes : List ℕ = b ∷ rest in
    let version = b / 2 ^ 4 in
    if version == 4
    then (if ltb (length bytes) ipv4_header_size
        then none
        else if ltb (read_u16 bytes 2) ipv4_header_size
        then none
        else some (read_u16 bytes 2))
    else if version == 6
    then (if ltb (length bytes) ipv6_header_size
        then none
        else some (ipv6_header_size + read_u16 bytes 4))
    else none

unfoldable pub parse_ip_packet : List ℕ → Result Error IpPacketView
parse_ip_packet [] = err malformed_packet
parse_ip_packet (b ∷ rest) =
    let version = u8 (b / 2 ^ 4) in
    if version == 4
    then parse_ipv4 (b ∷ rest)
    else if version == 6
    then parse_ipv6 (b ∷ rest)
    else err unsupported_version

unfoldable pub is_multicast : Address → Bool
is_multicast a = elim a.family [
  | ipv4 ↦ bit_and (byte_at (bytes a) 0) 0xf0 == 0xe0
  | ipv6 ↦ byte_at (bytes a) 0 == 0xff
]

abbrev pub all_zero : List ℕ → Bool
all_zero [] = true
all_zero (x ∷ xs) = x == 0 && all_zero xs

unfoldable pub is_unspecified : Address → Bool
is_unspecified a = all_zero (bytes a)

unfoldable pub is_loopback : Address → Bool
is_loopback a = elim a.family [
  | ipv4 ↦ byte_at (bytes a) 0 == 127
  | ipv6 ↦ all_zero (take 15 (bytes a)) && byte_at (bytes a) 15 == 1
]
