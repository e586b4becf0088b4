-- ===== src/HandshakeFrame.antt =====
-- src/handshake_frame.cpp, include/norr/handshake_frame.hpp: the envelope of handshake messages.
-- An enum whose underlying type is int can hold any byte, so a `HandshakeMessage` is its number.
pub mod Layout
pub mod RoundTrip
pub mod Tests
use norr.Prelude.{
  ℕ, ◌+◌, ◌-◌, ◌*◌, ◌/◌, ◌^◌, Bool, true, false, not, ◌&&◌, List, [], ◌++◌, ltb, leb, ◌==◌,
  if◌then◌else◌, length, set, take, drop, replicate, Result, ok, err, fail_if, ◌>>=◌, ◌>>◌,
}
use norr.Prelude.Bytes.{byte_at, u8, u16}
use norr.Wire.{
  Error, malformed_packet, packet_too_large, unsupported_version, payload_length_mismatch, read_u16,
}
use norr.IpPacket.{subspan}

abbrev pub handshake_envelope_size : ℕ
handshake_envelope_size = 4

abbrev pub maximum_handshake_payload : ℕ
maximum_handshake_payload = 4096

abbrev pub handshake_mac_size : ℕ
handshake_mac_size = 16

abbrev pub handshake_mac_trailer_size : ℕ
handshake_mac_trailer_size = 2 * handshake_mac_size

-- enum class HandshakeMessage { none, init, response, confirm, rekey_init, rekey_ack, cookie_reply }
abbrev pub init : ℕ
init = 1

abbrev pub cookie_reply : ℕ
cookie_reply = 6

pub record HandshakeFrameView : Type 0 where
  pub message : ℕ
  pub noise_message : List ℕ
  pub has_macs : Bool
  pub mac1 : List ℕ
  pub mac2 : List ℕ
  pub mac1_covered : List ℕ
  pub mac2_covered : List ℕ

abbrev pub mac1_offset : ℕ → ℕ
mac1_offset noise_length = handshake_envelope_size + noise_length

abbrev pub mac2_offset : ℕ → ℕ
mac2_offset noise_length = mac1_offset noise_length + handshake_mac_size

abbrev pub is_wire_message : ℕ → Bool
is_wire_message message = leb init message && leb message cookie_reply

abbrev pub plain_view : ℕ → List ℕ → HandshakeFrameView
plain_view message noise_message = record {
  message = message;
  noise_message = noise_message;
  has_macs = false;
  mac1 = [];
  mac2 = [];
  mac1_covered = [];
  mac2_covered = [];
}

unfoldable pub parse_handshake_frame : List ℕ → Result Error HandshakeFrameView
parse_handshake_frame bytes = do
  fail_if (ltb (length bytes) handshake_envelope_size) malformed_packet
  let message = byte_at bytes 0
  let version = byte_at bytes 1
  let noise_length = read_u16 bytes 2
  fail_if (not (version == 1)) unsupported_version
  fail_if (not (is_wire_message message)) malformed_packet
  fail_if (ltb maximum_handshake_payload noise_length) packet_too_large
  let without_header = length bytes - handshake_envelope_size
  let first = mac1_offset noise_length
  let second = mac2_offset noise_length
  (if noise_length == without_header
      then ok (plain_view message (drop handshake_envelope_size bytes))
      else if not (noise_length + handshake_mac_trailer_size == without_header)
      then err payload_length_mismatch
      else ok (record {
        message = message;
        noise_message = subspan bytes handshake_envelope_size noise_length;
        has_macs = true;
        mac1 = subspan bytes first handshake_mac_size;
        mac2 = subspan bytes second handshake_mac_size;
        mac1_covered = take first bytes;
        mac2_covered = take second bytes;
      }))

unfoldable pub serialize_handshake_frame : ℕ → List ℕ → Result Error (List ℕ)
serialize_handshake_frame message noise_message = do
  fail_if (not (is_wire_message message)) malformed_packet
  fail_if (ltb maximum_handshake_payload (length noise_message)) packet_too_large
  let size = u16 (length noise_message)
  let bytes0 = set (replicate handshake_envelope_size 0) 0 (u8 message)
  let bytes1 = set bytes0 1 1
  let bytes2 = set bytes1 2 (u8 (size / 2 ^ 8))
  let bytes3 = set bytes2 3 (u8 size)
  ok (bytes3 ++ noise_message)

unfoldable pub serialize_handshake_frame_with_macs : ℕ → List ℕ → Result Error (List ℕ)
serialize_handshake_frame_with_macs message noise_message = do
  bytes ← serialize_handshake_frame message noise_message
  ok (bytes ++ replicate handshake_mac_trailer_size 0)
