-- ===== src/Packet/RoundTrip.antt =====
-- Parsing what was serialised.
use norr.Prelude.{
  ℕ, ◌+◌, ◌*◌, ◌/◌, ◌^◌, ◌≤◌, ◌≡◌, refl, sym, ap, ◌∙◌, bit_or, bit_and, ◌&&◌, false, List, ◌++◌,
  arith, length, drop, replicate, All, length-append, ◌==◌, All-replicate, get_or-append_left,
  drop-append, Result, ok, err, ◌>>=◌, ok-injective,
}
use norr.Prelude.Bits.{bit_or_sum, bit_and_mask}
use norr.Prelude.Bytes.{IsByte, byte_at, u8}
use norr.Wire.{Error}
use norr.Packet.{PacketHeader, parse_packet, serialize_header, serialize_packet, write_header}
use norr.Packet.Read.{
  InRange, Holds, Holds-ext, out6, write_header-out6, length-out6, write_header-Holds,
}

-- The headers that `serialize_header` takes, for a payload of n bytes.
pub record Valid (h : PacketHeader) (n : ℕ) : Type 0 where
  pub current : h.version ≡ 1
  pub known_type : (1 ≤ h.frame_type) × (h.frame_type ≤ 6)
  pub no_flags : h.flags ≡ 0
  pub fixed_length : h.header_length ≡ 16
  pub small : n ≤ 65519
  pub keyed : (h.key_id == 0 && h.frame_type == 1) ≡ false

pub serialize_header-ok :
    (h : PacketHeader) (n : ℕ) (out b : List ℕ)
    → serialize_header h n out ≡ ok b
    → Valid h n × (b ≡ write_header h n out)
unfolding serialize_header
serialize_header-ok h n out b e = ground arith

-- A buffer that holds a valid header and as many bytes behind it parses to that header.
pub parse_packet-Holds :
    (h : PacketHeader) (n : ℕ) (b : List ℕ)
    → Valid h n
    → Holds h n b
    → length b ≡ 16 + n
    → parse_packet b ≡ ok (record { header = record h { payload_length = n }; payload = drop 16 b })
unfolding parse_packet
parse_packet-Holds h n b v s e =
    let joined : bit_or (h.version * 2 ^ 4) h.frame_type ≡ h.version * 2 ^ 4 + h.frame_type =
      bit_or_sum 4 h.version h.frame_type (omega (arith, v.known_type.1)) in
    let top : byte_at b 0 ≡ 16 + h.frame_type =
      omega (arith, s.first, joined, v.current, v.known_type.1) in
    let version : u8 (byte_at b 0 / 2 ^ 4) ≡ h.version =
      omega (arith, top, v.current, v.known_type.1) in
    let frame_type : bit_and (byte_at b 0) 0x0f ≡ h.frame_type =
      bit_and_mask 4 (byte_at b 0) ∙ omega (arith, top, v.known_type.1) in
    ground (arith, version, frame_type)

zeros-All : All IsByte (replicate 16 0)
zeros-All = All-replicate IsByte 16 0 (omega arith)

serialize_packet-ok :
    (h : PacketHeader) (payload b : List ℕ)
    → serialize_packet h payload ≡ ok b
    → Valid h (length payload) × (b ≡ write_header h (length payload) (replicate 16 0) ++ payload)
unfolding serialize_packet
serialize_packet-ok h payload b e = go (serialize_header h (length payload) (replicate 16 0)) refl e
  where
    go :
        (r : Result Error (List ℕ))
        → serialize_header h (length payload) (replicate 16 0) ≡ r
        → (r >>= λ prefix. ok (prefix ++ payload)) ≡ ok b
        → Valid h (length payload)
          × (b ≡ write_header h (length payload) (replicate 16 0) ++ payload)
    go (ok prefix) made done =
        let (v, same) = serialize_header-ok h (length payload) (replicate 16 0) prefix made in
        (v, ok-injective (sym done) ∙ ap (λ t. t ++ payload) same)
    go (err x) made done = cc

-- What `serialize_packet` returns for a header whose fields fit their types parses back to that
-- header, with the payload's true length in it, and to the payload.
pub parse_packet-serialize_packet :
    (h : PacketHeader) (payload b : List ℕ)
    → InRange h
    → serialize_packet h payload ≡ ok b
    → parse_packet b
      ≡ ok (record { header = record h { payload_length = length payload }; payload = payload })
parse_packet-serialize_packet h payload b fits e =
    let n : ℕ = length payload in
    let (v, made) = serialize_packet-ok h payload b e in
    let head : List ℕ = out6 h n (replicate 16 0) in
    let same : b ≡ head ++ payload =
      made ∙ ap (λ t. t ++ payload) (write_header-out6 h n (replicate 16 0)) in
    let sixteen : length head ≡ 16 = length-out6 h n (replicate 16 0) in
    let holds : Holds h n (head ++ payload) =
      Holds-ext h n head (head ++ payload)
        (λ j p. get_or-append_left head payload j 0 (omega (arith, sixteen)))
        (write_header-Holds h n (replicate 16 0) fits zeros-All (omega arith)
          (omega (arith, v.small))) in
    let parsed =
      parse_packet-Holds h n (head ++ payload) v holds
        (length-append head payload ∙ omega (arith, sixteen)) in
    let rest : drop 16 (head ++ payload) ≡ payload =
      ap (λ k. drop k (head ++ payload)) (sym sixteen) ∙ drop-append head payload in
    ap parse_packet same
    ∙ parsed
    ∙ ap (λ p. ok (record { header = record h { payload_length = n }; payload = p })) rest
