-- ===== src/Packet/Canonical.antt =====
-- Serialising what was parsed, and the datagrams that `parse_packet` takes.
use native.Mathlib.Decide.{dec_lt}
use norr.Prelude.{
  ℕ, ◌+◌, ◌-◌, ◌*◌, ◌/◌, ◌%◌, ◌^◌, ◌≤◌, ◌<◌, ◌≡◌, zero, suc, sym, ap, ◌∙◌, bit_or, bit_and, List,
  ◌++◌, arith, length, take, drop, replicate, All, All-get_or, length-take, length-drop,
  get_or-take, take-append-drop, ok, ◌>>=◌,
}
use norr.Prelude.Bits.{bit_or_sum, bit_and_mask}
use norr.Prelude.Bytes.{IsByte, byte_at, u8}
use norr.Prelude.Fields.{byte_ext}
use norr.Wire.{
  read_u16, write_u16, read_u64, byte_at-write_u16-read_u16, byte_at-write_u64-read_u64,
}
use norr.Packet.{
  PacketHeader, PacketView, parse_packet, serialize_header, serialize_packet, write_header,
}
use norr.Packet.Read.{
  out2, out3, out4, out5, out6, write_header-out6, length-out2, length-out3, length-out4,
  length-out5, length-out6, after_first, after_key, after_length, after_counter,
}
use norr.Packet.RoundTrip.{Valid}

-- The header that the bytes spell.
abbrev pub header_of : List ℕ → PacketHeader
header_of bytes = record {
  version = u8 (byte_at bytes 0 / 2 ^ 4);
  frame_type = bit_and (byte_at bytes 0) 0x0f;
  flags = byte_at bytes 1;
  key_id = read_u16 bytes 2;
  header_length = read_u16 bytes 4;
  counter = read_u64 bytes 6;
  payload_length = read_u16 bytes 14;
}

abbrev pub view_of : List ℕ → PacketView
view_of bytes = record { header = header_of bytes; payload = drop 16 bytes }

-- The datagrams that parse.
pub record WellFormed (bytes : List ℕ) : Type 0 where
  pub has_header : 16 ≤ length bytes
  pub valid : Valid (header_of bytes) (length bytes - 16)
  pub exact : read_u16 bytes 14 ≡ length bytes - 16

parse_packet-ok :
    (bytes : List ℕ) (view : PacketView)
    → parse_packet bytes ≡ ok view
    → WellFormed bytes × (view ≡ view_of bytes)
unfolding parse_packet
parse_packet-ok bytes view e = ground arith

parse_packet-WellFormed :
    (bytes : List ℕ) → WellFormed bytes → parse_packet bytes ≡ ok (view_of bytes)
unfolding parse_packet
parse_packet-WellFormed bytes v = ground arith

serialize_header-Valid :
    (h : PacketHeader) (n : ℕ) (out : List ℕ)
    → Valid h n
    → 16 ≤ length out
    → serialize_header h n out ≡ ok (write_header h n out)
unfolding serialize_header
serialize_header-Valid h n out v room = ground arith

module _ (bytes : List ℕ) (octets : All IsByte bytes) (w : WellFormed bytes) where
  abbrev h : PacketHeader
  h = header_of bytes

  abbrev n : ℕ
  n = length bytes - 16

  abbrev blank : List ℕ
  blank = replicate 16 0

  top_byte : u8 (bit_or (h.version * 2 ^ 4) h.frame_type) ≡ byte_at bytes 0
  top_byte =
      let b : ℕ = byte_at bytes 0 in
      let small : b < 256 = All-get_or IsByte bytes 0 0 octets (omega arith) in
      let low : h.frame_type ≡ b % 16 = bit_and_mask 4 b in
      let joined : bit_or (h.version * 2 ^ 4) h.frame_type ≡ h.version * 2 ^ 4 + h.frame_type =
        bit_or_sum 4 h.version h.frame_type (omega (arith, low)) in
      omega (arith, joined, low)

  -- The stores put back the bytes, one field after the other.
  from_counter : (j : ℕ) → 14 ≤ j → j < 16 → byte_at (out6 h n blank) j ≡ byte_at bytes j
  from_counter j lo hi =
      ap (λ t. byte_at (write_u16 (out5 h n blank) 14 t) j) (omega (arith, w.exact, w.valid.small))
      ∙ byte_at-write_u16-read_u16 bytes (out5 h n blank) 14 j octets lo
          (omega (arith, length-out5 h n blank)) hi

  from_length : (j : ℕ) → 6 ≤ j → j < 14 → byte_at (out6 h n blank) j ≡ byte_at bytes j
  from_length j lo hi =
      after_counter h n blank j hi
      ∙ byte_at-write_u64-read_u64 bytes (out4 h n blank) 6 j octets lo
          (omega (arith, length-out4 h n blank)) hi

  from_key : (j : ℕ) → 4 ≤ j → j < 6 → byte_at (out6 h n blank) j ≡ byte_at bytes j
  from_key j lo hi =
      after_length h n blank j hi
      ∙ byte_at-write_u16-read_u16 bytes (out3 h n blank) 4 j octets lo
          (omega (arith, length-out3 h n blank)) hi

  from_flags : (j : ℕ) → 2 ≤ j → j < 4 → byte_at (out6 h n blank) j ≡ byte_at bytes j
  from_flags j lo hi =
      after_key h n blank j hi
      ∙ byte_at-write_u16-read_u16 bytes (out2 h n blank) 2 j octets lo
          (omega (arith, length-out2 h n blank)) hi

  from_start : (j : ℕ) → j < 2 → byte_at (out6 h n blank) j ≡ byte_at bytes j
  from_start zero hi = after_first h n blank 0 hi ∙ top_byte
  from_start (suc zero) hi = after_first h n blank 1 hi
  from_start (suc (suc j)) hi = absurd (omega arith)

  rewritten : (j : ℕ) → j < 16 → byte_at (out6 h n blank) j ≡ byte_at bytes j
  rewritten j p = elim (dec_lt j 2) [
    | yes a ↦ from_start j a
    | no a ↦ elim (dec_lt j 4) [
      | yes b ↦ from_flags j (omega arith) b
      | no b ↦ elim (dec_lt j 6) [
        | yes c ↦ from_key j (omega arith) c
        | no c ↦ elim (dec_lt j 14) [
          | yes d ↦ from_length j (omega arith) d
          | no d ↦ from_counter j (omega arith) p
        ]
      ]
    ]
  ]

  header_rewritten : write_header h n blank ≡ take 16 bytes
  header_rewritten =
      write_header-out6 h n blank
      ∙ byte_ext (out6 h n blank) (take 16 bytes)
          (length-out6 h n blank ∙ omega (arith, length-take 16 bytes, w.has_header))
          (λ j p.
            let q : j < 16 = omega (arith, length-out6 h n blank) in
            rewritten j q ∙ sym (get_or-take 16 bytes j 0 q))

  serialized : serialize_packet h (drop 16 bytes) ≡ ok bytes
  unfolding serialize_packet
  serialized =
      let count : length (drop 16 bytes) ≡ n = length-drop 16 bytes in
      let made : serialize_header h (length (drop 16 bytes)) blank ≡ ok (take 16 bytes) =
        ap (λ t. serialize_header h t blank) count
        ∙ serialize_header-Valid h n blank w.valid (omega arith)
        ∙ ap ok header_rewritten in
      ap (λ r. r >>= λ prefix. ok (prefix ++ drop 16 bytes)) made
      ∙ ap ok (take-append-drop 16 bytes)

-- A datagram has one spelling: what `parse_packet` takes apart, `serialize_packet` puts together
-- again to the same bytes.
pub serialize_packet-parse_packet :
    (bytes : List ℕ) (view : PacketView)
    → All IsByte bytes
    → parse_packet bytes ≡ ok view
    → serialize_packet view.header view.payload ≡ ok bytes
serialize_packet-parse_packet bytes view octets e =
    let (w, same) = parse_packet-ok bytes view e in
    ap (λ v. serialize_packet v.header v.payload) same ∙ serialized bytes octets w
