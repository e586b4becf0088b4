-- ===== src/HandshakeFrame/RoundTrip.antt =====
-- What is serialized parses, and what parses is what is serialized.
use norr.Prelude.{
  ℕ, ◌+◌, ◌-◌, ◌*◌, ◌/◌, ◌%◌, ◌≤◌, ◌<◌, ◌≡◌, refl, sym, ap, ◌∙◌, true, List, ◌∷◌, ◌++◌, arith,
  length, length-append, take, drop, replicate, ok, All, take-append, bit_or, ◌↔◌,
}
use norr.Prelude.Bytes.{IsByte, byte_at}
use norr.Prelude.Bits.{bit_or_sum}
use norr.Wire.{read_u16}
use norr.HandshakeFrame.{
  HandshakeFrameView, plain_view, parse_handshake_frame, serialize_handshake_frame,
  serialize_handshake_frame_with_macs,
}

pub length_field :
    (a b hi lo : ℕ) (rest : List ℕ)
    → hi < 256
    → lo < 256
    → read_u16 (a ∷ b ∷ hi ∷ lo ∷ rest) 2 ≡ hi * 256 + lo
unfolding read_u16
length_field a b hi lo rest p q =
    let sum : bit_or (hi * 256) lo ≡ hi * 256 + lo = bit_or_sum 8 hi lo q in rw sum (omega arith)

-- A plain frame: the four bytes of the envelope and the message.
abbrev pub frame : ℕ → List ℕ → List ℕ
frame m noise = m ∷ 1 ∷ length noise / 256 ∷ length noise % 256 ∷ noise

-- The view of a frame with its two codes, the message of n bytes.
abbrev pub mac_view_of : ℕ → List ℕ → HandshakeFrameView
mac_view_of n bytes = record {
  message = byte_at bytes 0;
  noise_message = take n (drop 4 bytes);
  has_macs = true;
  mac1 = take 16 (drop (4 + n) bytes);
  mac2 = take 16 (drop (4 + n + 16) bytes);
  mac1_covered = take (4 + n) bytes;
  mac2_covered = take (4 + n + 16) bytes;
}

abbrev pub mac_view : List ℕ → HandshakeFrameView
mac_view bytes = mac_view_of (read_u16 bytes 2) bytes

abbrev pub Sendable : ℕ → List ℕ → Type 0
Sendable m noise = (1 ≤ m) × ((m ≤ 6) × (length noise ≤ 4096))

pub serialize_handshake_frame_iff :
    (m : ℕ) (noise bytes : List ℕ)
    → (serialize_handshake_frame m noise ≡ ok bytes) ↔ (Sendable m noise × (bytes ≡ frame m noise))
unfolding serialize_handshake_frame
serialize_handshake_frame_iff m noise bytes = (ground arith, ground arith)

frame_length :
    (m : ℕ) (noise : List ℕ) → Sendable m noise → read_u16 (frame m noise) 2 ≡ length noise
frame_length m noise h =
    length_field m 1 (length noise / 256) (length noise % 256) noise (omega (arith, h.1.1))
      (omega arith)
    ∙ omega arith

module _ (bytes : List ℕ) (enough : 4 ≤ length bytes) (version : byte_at bytes 1 ≡ 1)
    (least : 1 ≤ byte_at bytes 0) (most : byte_at bytes 0 ≤ 6)
    (small : read_u16 bytes 2 ≤ 4096) where
  parse_plain :
      read_u16 bytes 2 ≡ length bytes - 4
      → parse_handshake_frame bytes ≡ ok (plain_view (byte_at bytes 0) (drop 4 bytes))
  unfolding parse_handshake_frame
  parse_plain e = ground arith

  parse_with_macs :
      read_u16 bytes 2 + 32 ≡ length bytes - 4 → parse_handshake_frame bytes ≡ ok (mac_view bytes)
  unfolding parse_handshake_frame
  parse_with_macs e = ground arith

-- A message within the limits is sent as a frame that parses to it.
pub parse_handshake_frame-serialize_handshake_frame :
    (m : ℕ) (noise bytes : List ℕ)
    → serialize_handshake_frame m noise ≡ ok bytes
    → parse_handshake_frame bytes ≡ ok (plain_view m noise)
parse_handshake_frame-serialize_handshake_frame m noise bytes e =
    let f = (serialize_handshake_frame_iff m noise bytes).0 e in
    let l = frame_length m noise f.0 in
    rw f.1 (
      parse_plain (frame m noise) (omega arith) refl f.0.0 f.0.1.0 (omega (arith, l, f.0.1.1))
        (omega (arith, l)))

-- A frame with room for the two codes parses to a view whose message is the one sent, whose codes
-- are still zero and whose first code covers the plain frame.
pub parse_handshake_frame-serialize_handshake_frame_with_macs :
    (m : ℕ) (noise bytes plain : List ℕ)
    → serialize_handshake_frame m noise ≡ ok plain
    → serialize_handshake_frame_with_macs m noise ≡ ok bytes
    → (bytes ≡ plain ++ replicate 32 0)
      × ((parse_handshake_frame bytes ≡ ok (mac_view_of (length noise) bytes))
          × (take (length noise) (drop 4 bytes) ≡ noise))
unfolding serialize_handshake_frame_with_macs
parse_handshake_frame-serialize_handshake_frame_with_macs m noise bytes plain p e =
    let f = (serialize_handshake_frame_iff m noise plain).0 p in
    let b : bytes ≡ plain ++ replicate 32 0 = ground (arith, p) in
    let c : bytes ≡ frame m noise ++ replicate 32 0 = b ∙ ap (λ t. t ++ replicate 32 0) f.1 in
    let l =
      length_field m 1 (length noise / 256) (length noise % 256) (noise ++ replicate 32 0)
        (omega (arith, f.0.1.1)) (omega arith) in
    let n : read_u16 (frame m noise ++ replicate 32 0) 2 ≡ length noise = l ∙ omega arith in
    let total = length-append noise (replicate 32 0) in
    let parses =
      parse_with_macs (frame m noise ++ replicate 32 0) (omega arith) refl f.0.0 f.0.1.0
        (omega (arith, n, f.0.1.1)) (omega (arith, n, total)) in
    (
      b,
      (
        rw c (parses ∙ ap (λ k. ok (mac_view_of k (frame m noise ++ replicate 32 0))) n),
        rw c (take-append noise (replicate 32 0)),
      ),
    )

pub frame_of_bytes :
    (a b c d : ℕ) (rest : List ℕ)
    → All IsByte (a ∷ b ∷ c ∷ d ∷ rest)
    → read_u16 (a ∷ b ∷ c ∷ d ∷ rest) 2 ≡ length rest
    → b ≡ 1
    → a ∷ b ∷ c ∷ d ∷ rest ≡ frame a rest
frame_of_bytes a b c d rest h e one =
    let s = sym (length_field a b c d rest h.1.1.0 h.1.1.1.0) ∙ e in
    let hi : c ≡ length rest / 256 = omega (arith, s, h.1.1.1.0) in
    let lo : d ≡ length rest % 256 = omega (arith, s, h.1.1.1.0) in cc
