-- ===== src/Packet.antt =====
-- src/packet.cpp, include/norr/packet.hpp: the 16-byte header of every datagram.
-- An enum with a fixed underlying type can hold any value of it, so a `FrameType` is its number.
pub mod Read
pub mod RoundTrip
pub mod Canonical
pub mod Tests
use norr.Prelude.{
  ℕ, ◌+◌, ◌-◌, ◌*◌, ◌/◌, ◌%◌, ◌^◌, bit_and, bit_or, Bool, not, ◌&&◌, List, ◌++◌, ltb, leb, ◌==◌,
  if◌then◌else◌, length, set, drop, replicate, Result, ok, err, fail_if, ◌>>=◌, ◌>>◌,
}
use norr.Prelude.Bytes.{byte_at, u8, u16}
use norr.Wire.{
  Error, malformed_packet, packet_too_large, unsupported_version, unsupported_flags,
  payload_length_mismatch, reserved_key_id, read_u16, write_u16, read_u64, write_u64,
}

abbrev pub protocol_version : ℕ
protocol_version = 1

abbrev pub padding_alignment : ℕ
padding_alignment = 16

abbrev pub packet_header_size : ℕ
packet_header_size = 16

abbrev pub maximum_packet_size : ℕ
maximum_packet_size = 65535

abbrev pub pre_session_key_id : ℕ
pre_session_key_id = 0

pub padded_length : ℕ → ℕ
padded_length length =
    let remainder = length % padding_alignment in
    if remainder == 0 then length else length + (padding_alignment - remainder)

-- enum class FrameType : std::uint8_t { data = 1, control, path, key, error, fec }
abbrev pub data_frame : ℕ
data_frame = 1

abbrev pub fec_frame : ℕ
fec_frame = 6

pub record PacketHeader : Type 0 where
  pub version : ℕ
  pub frame_type : ℕ
  pub flags : ℕ
  pub key_id : ℕ
  pub header_length : ℕ
  pub counter : ℕ
  pub payload_length : ℕ

pub record PacketView : Type 0 where
  pub header : PacketHeader
  pub payload : List ℕ

abbrev pub valid_frame_type : ℕ → Bool
valid_frame_type t = leb data_frame t && leb t fec_frame

pub parse_packet : List ℕ → Result Error PacketView
parse_packet bytes = do
  fail_if (ltb (length bytes) packet_header_size) malformed_packet
  fail_if (ltb maximum_packet_size (length bytes)) packet_too_large
  let version = u8 (byte_at bytes 0 / 2 ^ 4)
  let frame_type = bit_and (byte_at bytes 0) 0x0f
  let flags = byte_at bytes 1
  let header_length = read_u16 bytes 4
  let payload_length = read_u16 bytes 14
  fail_if (not (version == protocol_version)) unsupported_version
  fail_if (not (valid_frame_type frame_type)) malformed_packet
  fail_if (not (flags == 0)) unsupported_flags
  fail_if (not (header_length == packet_header_size)) malformed_packet
  fail_if (not (payload_length == length bytes - packet_header_size)) payload_length_mismatch
  fail_if (read_u16 bytes 2 == pre_session_key_id && frame_type == data_frame) reserved_key_id
  ok (record {
    header = record {
      version = version;
      frame_type = frame_type;
      flags = flags;
      key_id = read_u16 bytes 2;
      header_length = header_length;
      counter = read_u64 bytes 6;
      payload_length = payload_length;
    };
    payload = drop packet_header_size bytes;
  })

-- The stores of `serialize_header`, in their order.
unfoldable pub write_header : PacketHeader → ℕ → List ℕ → List ℕ
write_header h payload_length out =
    let out1 = set out 0 (u8 (bit_or (h.version * 2 ^ 4) h.frame_type)) in
    let out2 = set out1 1 h.flags in
    let out3 = write_u16 out2 2 h.key_id in
    let out4 = write_u16 out3 4 h.header_length in
    let out5 = write_u64 out4 6 h.counter in write_u16 out5 14 (u16 payload_length)

-- The result is the buffer `out` after the call.
unfoldable pub serialize_header : PacketHeader → ℕ → List ℕ → Result Error (List ℕ)
serialize_header h payload_length out = do
  fail_if (not (h.version == protocol_version)) unsupported_version
  fail_if (not (valid_frame_type h.frame_type)) malformed_packet
  fail_if (not (h.flags == 0)) unsupported_flags
  fail_if (not (h.header_length == packet_header_size)) malformed_packet
  fail_if (h.key_id == pre_session_key_id && h.frame_type == data_frame) reserved_key_id
  fail_if (ltb (maximum_packet_size - packet_header_size) payload_length) packet_too_large
  fail_if (ltb (length out) packet_header_size) malformed_packet
  ok (write_header h payload_length out)

pub serialize_packet : PacketHeader → List ℕ → Result Error (List ℕ)
serialize_packet h payload = do
  prefix ← serialize_header h (length payload) (replicate packet_header_size 0)
  ok (prefix ++ payload)
