-- ===== src/Fec/Header.antt =====
-- src/fec.cpp, include/norr/fec.hpp: the header of a symbol, and its bytes on the wire.
use norr.Prelude.{
  ℕ, ◌+◌, ◌*◌, ◌/◌, ◌^◌, bit_and, bit_or, Bool, ◌||◌, ◌&&◌, not, List, ◌==◌, ltb, leb,
  if◌then◌else◌, Option, none, some, length, set,
}
use norr.Prelude.Bytes.{byte_at, u8, u16}
use norr.Packet.{protocol_version, fec_frame}

abbrev pub maximum_fec_parity : ℕ
maximum_fec_parity = 16

abbrev pub maximum_fec_data : ℕ
maximum_fec_data = 64

abbrev pub fec_header_size : ℕ
fec_header_size = 11

abbrev pub fec_tag : ℕ
fec_tag = u8 (bit_or (protocol_version * 2 ^ 4) fec_frame)

pub record FecSymbolHeader : Type 0 where
  pub block_id : ℕ
  pub index : ℕ
  pub block_size : ℕ
  pub parity_count : ℕ
  pub parity : Bool
  pub original_length : ℕ

unfoldable pub looks_like_fec_symbol : List ℕ → Bool
looks_like_fec_symbol bytes = leb 1 (length bytes) && byte_at bytes 0 == fec_tag

unfoldable pub write_u32 : List ℕ → ℕ → ℕ → List ℕ
write_u32 out offset value =
    let out0 = set out offset (u8 (value / 2 ^ 24)) in
    let out1 = set out0 (offset + 1) (u8 (value / 2 ^ 16)) in
    let out2 = set out1 (offset + 2) (u8 (value / 2 ^ 8)) in set out2 (offset + 3) (u8 value)

unfoldable pub read_u32 : List ℕ → ℕ → ℕ
read_u32 bytes offset =
    bit_or
      (bit_or (bit_or (byte_at bytes offset * 2 ^ 24) (byte_at bytes (offset + 1) * 2 ^ 16))
        (byte_at bytes (offset + 2) * 2 ^ 8))
      (byte_at bytes (offset + 3))

-- The bytes written, and the buffer after the call.
unfoldable pub serialize_fec_header : FecSymbolHeader → List ℕ → ℕ × List ℕ
unfolding write_u32
serialize_fec_header header out =
    if ltb (length out) fec_header_size
    then (0, out)
    else let out0 = set out 0 fec_tag in
      let out1 = write_u32 out0 1 header.block_id in
      let out5 = set out1 5 (u8 header.index) in
      let out6 = set out5 6 (u8 header.block_size) in
      let out7 = set out6 7 (u8 header.parity_count) in
      let out8 = set out7 8 (if header.parity then 1 else 0) in
      let out9 = set out8 9 (u8 (header.original_length / 2 ^ 8)) in
      (fec_header_size, set out9 10 (u8 header.original_length))

unfoldable pub parse_fec_header : List ℕ → Option FecSymbolHeader
unfolding read_u32
parse_fec_header bytes =
    if ltb (length bytes) fec_header_size
    then none
    else if not (byte_at bytes 0 == fec_tag)
    then none
    else let flags = byte_at bytes 8 in
      if not (bit_and flags 0xFFFFFFFE == 0)
      then none
      else let header : FecSymbolHeader = record {
        block_id = read_u32 bytes 1;
        index = byte_at bytes 5;
        block_size = byte_at bytes 6;
        parity_count = byte_at bytes 7;
        parity = not (bit_and flags 1 == 0);
        original_length = u16 (bit_or (byte_at bytes 9 * 2 ^ 8) (byte_at bytes 10));
      } in
        if header.block_size == 0 || ltb maximum_fec_data header.block_size
        then none
        else if header.parity_count == 0 || ltb maximum_fec_parity header.parity_count
        then none
        else if if header.parity
            then leb header.parity_count header.index
            else leb header.block_size header.index
        then none
        else some header
