-- ===== src/Packet/Read.antt =====
-- What can be read back from a header that was written.
use norr.Prelude.{
  ℕ, ◌*◌, ◌^◌, ◌≤◌, ◌<◌, ◌≡◌, refl, ◌∙◌, inl, bit_or, List, arith, length, set, All, length-set,
  All-set, get_or-set_self, get_or-set_ne,
}
use norr.Prelude.Bytes.{IsByte, byte_at, u8, u16}
use norr.Wire.{
  read_u16, write_u16, read_u64, write_u64, read_u16-write_u16, read_u64-write_u64, read_u16_ext,
  read_u64_ext, byte_at-write_u16_outside, byte_at-write_u64_outside, length-write_u16,
  length-write_u64, write_u16-All, write_u64-All,
}
use norr.Packet.{PacketHeader, write_header}

-- The fields fit their C++ types.
pub record InRange (h : PacketHeader) : Type 0 where
  pub flags_fits : h.flags < 2 ^ 8
  pub key_id_fits : h.key_id < 2 ^ 16
  pub header_length_fits : h.header_length < 2 ^ 16
  pub counter_fits : h.counter < 2 ^ 64

-- A buffer that starts with the header `h`, for a payload of `n` bytes.
pub record Holds (h : PacketHeader) (n : ℕ) (b : List ℕ) : Type 0 where
  pub first : byte_at b 0 ≡ u8 (bit_or (h.version * 2 ^ 4) h.frame_type)
  pub second : byte_at b 1 ≡ h.flags
  pub key_field : read_u16 b 2 ≡ h.key_id
  pub length_field : read_u16 b 4 ≡ h.header_length
  pub counter_field : read_u64 b 6 ≡ h.counter
  pub payload_field : read_u16 b 14 ≡ n

pub Holds-ext :
    (h : PacketHeader) (n : ℕ) (xs ys : List ℕ)
    → ((j : ℕ) → j < 16 → byte_at ys j ≡ byte_at xs j)
    → Holds h n xs
    → Holds h n ys
Holds-ext h n xs ys same v = record {
  first = same 0 (omega arith) ∙ v.first;
  second = same 1 (omega arith) ∙ v.second;
  key_field = read_u16_ext ys xs 2 (λ j p q. same j (omega arith)) ∙ v.key_field;
  length_field = read_u16_ext ys xs 4 (λ j p q. same j (omega arith)) ∙ v.length_field;
  counter_field = read_u64_ext ys xs 6 (λ j p q. same j (omega arith)) ∙ v.counter_field;
  payload_field = read_u16_ext ys xs 14 (λ j p q. same j (omega arith)) ∙ v.payload_field;
}

module _ (h : PacketHeader) (n : ℕ) (out : List ℕ) where
  abbrev pub out1 : List ℕ
  out1 = set out 0 (u8 (bit_or (h.version * 2 ^ 4) h.frame_type))

  abbrev pub out2 : List ℕ
  out2 = set out1 1 h.flags

  abbrev pub out3 : List ℕ
  out3 = write_u16 out2 2 h.key_id

  abbrev pub out4 : List ℕ
  out4 = write_u16 out3 4 h.header_length

  abbrev pub out5 : List ℕ
  out5 = write_u64 out4 6 h.counter

  abbrev pub out6 : List ℕ
  out6 = write_u16 out5 14 (u16 n)

  pub write_header-out6 : write_header h n out ≡ out6
  unfolding write_header
  write_header-out6 = refl

  -- The length of the buffer does not change.
  pub length-out2 : length out2 ≡ length out
  length-out2 = length-set out1 1 h.flags ∙ length-set out 0 _

  pub length-out3 : length out3 ≡ length out
  length-out3 = length-write_u16 out2 2 h.key_id ∙ length-out2

  pub length-out4 : length out4 ≡ length out
  length-out4 = length-write_u16 out3 4 h.header_length ∙ length-out3

  pub length-out5 : length out5 ≡ length out
  length-out5 = length-write_u64 out4 6 h.counter ∙ length-out4

  pub length-out6 : length out6 ≡ length out
  length-out6 = length-write_u16 out5 14 (u16 n) ∙ length-out5

  -- The stores that follow leave a byte alone.
  pub after_first : (j : ℕ) → j < 2 → byte_at out6 j ≡ byte_at out2 j
  after_first j p =
      byte_at-write_u16_outside out5 14 (u16 n) j (inl (omega arith))
      ∙ byte_at-write_u64_outside out4 6 h.counter j (inl (omega arith))
      ∙ byte_at-write_u16_outside out3 4 h.header_length j (inl (omega arith))
      ∙ byte_at-write_u16_outside out2 2 h.key_id j (inl (omega arith))

  pub after_key : (j : ℕ) → j < 4 → byte_at out6 j ≡ byte_at out3 j
  after_key j p =
      byte_at-write_u16_outside out5 14 (u16 n) j (inl (omega arith))
      ∙ byte_at-write_u64_outside out4 6 h.counter j (inl (omega arith))
      ∙ byte_at-write_u16_outside out3 4 h.header_length j (inl (omega arith))

  pub after_length : (j : ℕ) → j < 6 → byte_at out6 j ≡ byte_at out4 j
  after_length j p =
      byte_at-write_u16_outside out5 14 (u16 n) j (inl (omega arith))
      ∙ byte_at-write_u64_outside out4 6 h.counter j (inl (omega arith))

  pub after_counter : (j : ℕ) → j < 14 → byte_at out6 j ≡ byte_at out5 j
  after_counter j p = byte_at-write_u16_outside out5 14 (u16 n) j (inl (omega arith))

  module _ (fits : InRange h) (bytes : All IsByte out) (room : 16 ≤ length out) where
    out2-All : All IsByte out2
    out2-All =
        All-set IsByte out1 1 h.flags (All-set IsByte out 0 _ bytes (omega arith)) fits.flags_fits

    out3-All : All IsByte out3
    out3-All = write_u16-All out2 2 h.key_id out2-All

    out5-All : All IsByte out5
    out5-All = write_u64-All out4 6 h.counter (write_u16-All out3 4 h.header_length out3-All)

    pub write_header-Holds : n < 2 ^ 16 → Holds h n out6
    write_header-Holds small = record {
      first =
          after_first 0 (omega arith)
          ∙ get_or-set_ne out1 1 0 h.flags 0 (omega arith)
          ∙ get_or-set_self out 0 _ 0 (omega arith);
      second =
          after_first 1 (omega arith)
          ∙ get_or-set_self out1 1 h.flags 0 (omega (arith, length-set out 0 _));
      key_field =
          read_u16_ext out6 out3 2 (λ j p q. after_key j (omega arith))
          ∙ read_u16-write_u16 out2 2 h.key_id out2-All (omega (arith, length-out2))
              fits.key_id_fits;
      length_field =
          read_u16_ext out6 out4 4 (λ j p q. after_length j (omega arith))
          ∙ read_u16-write_u16 out3 4 h.header_length out3-All (omega (arith, length-out3))
              fits.header_length_fits;
      counter_field =
          read_u64_ext out6 out5 6 (λ j p q. after_counter j (omega arith))
          ∙ read_u64-write_u64 out4 6 h.counter (omega (arith, length-out4)) fits.counter_fits;
      payload_field =
          read_u16-write_u16 out5 14 (u16 n) out5-All (omega (arith, length-out5)) (omega arith)
          ∙ omega arith;
    }
