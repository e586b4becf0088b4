-- ===== src/SshFramer.antt =====
-- src/ssh_framer.cpp, include/norr/ssh_framer.hpp: tunnel frames inside SSH binary packets.
-- A call that writes to a buffer of `room` bytes gives the bytes it wrote.
pub mod Records
pub mod Tests
use norr.Prelude.{
  ℕ, zero, suc, ◌+◌, ◌-◌, ◌*◌, ◌/◌, ◌%◌, ◌^◌, bit_and, bit_or, bit_xor, Bool, ◌||◌, List, [], ◌∷◌,
  ◌++◌, ltb, if◌then◌else◌, length, Result, ok, err,
}
use norr.Prelude.Bytes.{byte_at, u8, u64}
use norr.IpPacket.{subspan}

abbrev pub ssh_header_size : ℕ
ssh_header_size = 5

abbrev pub ssh_block_size : ℕ
ssh_block_size = 8

abbrev pub ssh_min_padding : ℕ
ssh_min_padding = 4

-- kMaximumTcpFrame of include/norr/tcp_transport.hpp
abbrev pub maximum_tcp_frame : ℕ
maximum_tcp_frame = 65535

pub data SshFramerError : Type 0 where
  payload_too_large buffer_too_small malformed incomplete : SshFramerError

-- The state of a thread's padding generator after a call, and the byte of the call.
abbrev pub pad_increment : ℕ
pad_increment = 0x9E3779B97F4A7C15

unfoldable pub cheap_random_byte : ℕ → ℕ × ℕ
cheap_random_byte state =
    let next = u64 (state + pad_increment) in
    let mixed = u64 (bit_xor next (next / 2 ^ 30) * 0xBF58476D1CE4E5B9) in
    let again = u64 (bit_xor mixed (mixed / 2 ^ 27) * 0x94D049BB133111EB) in
    let value = bit_xor again (again / 2 ^ 31) in (bit_and value 0xff, next)

-- `for (i = 0; i < padding; ++i)`, with `left` bytes to go.
unfoldable pub pad_loop : ℕ → ℕ → List ℕ × ℕ
pad_loop zero state = ([], state)
pad_loop (suc left) state =
    let rest = pad_loop left (cheap_random_byte state).1 in
    ((cheap_random_byte state).0 ∷ rest.0, rest.1)

unfoldable pub put_u32 : ℕ → List ℕ
put_u32 value =
    bit_and (value / 2 ^ 24) 0xff
    ∷ bit_and (value / 2 ^ 16) 0xff
    ∷ bit_and (value / 2 ^ 8) 0xff
    ∷ bit_and value 0xff
    ∷ []

unfoldable pub get_u32 : List ℕ → ℕ
get_u32 b =
    bit_or (bit_or (bit_or (byte_at b 0 * 2 ^ 24) (byte_at b 1 * 2 ^ 16)) (byte_at b 2 * 2 ^ 8))
      (byte_at b 3)

unfoldable pub padding_for : ℕ → ℕ
padding_for payload =
    let padding = ssh_block_size - (ssh_header_size + payload) % ssh_block_size in
    if ltb padding ssh_min_padding then padding + ssh_block_size else padding

unfoldable pub record_size : ℕ → ℕ
record_size payload = 4 + 1 + payload + padding_for payload

-- The record, and the generator's state afterwards.
unfoldable pub wrap : List ℕ → ℕ → ℕ → Result SshFramerError (List ℕ) × ℕ
wrap payload room state =
    let padding = padding_for (length payload) in
    let packet_length = 1 + length payload + padding in
    let total = 4 + packet_length in
    let pads = pad_loop padding state in
    if ltb maximum_tcp_frame (length payload)
    then (err payload_too_large, state)
    else if ltb room total
    then (err buffer_too_small, state)
    else (ok (put_u32 packet_length ++ (u8 padding ∷ payload ++ pads.0)), pads.1)

-- The payload, and the bytes consumed.
unfoldable pub unwrap : List ℕ → ℕ → Result SshFramerError (List ℕ) × ℕ
unwrap wire room =
    let packet_length = get_u32 wire in
    let padding = byte_at wire 4 in
    let total = 4 + packet_length in
    let payload_length = packet_length - padding - 1 in
    if ltb (length wire) ssh_header_size
    then (err incomplete, 0)
    else if ltb packet_length 2 || ltb (maximum_tcp_frame + ssh_block_size + 1) packet_length
    then (err malformed, 0)
    else if ltb padding ssh_min_padding || ltb packet_length (padding + 1)
    then (err malformed, 0)
    else if ltb (length wire) total
    then (err incomplete, 0)
    else if ltb room payload_length
    then (err buffer_too_small, 0)
    else (ok (subspan wire ssh_header_size payload_length), total)
