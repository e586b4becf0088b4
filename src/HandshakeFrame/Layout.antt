-- ===== src/HandshakeFrame/Layout.antt =====
-- The parts of a parsed frame cover it, in order.
use norr.Prelude.{
  ℕ, ◌+◌, ◌-◌, ◌≤◌, ◌≡◌, refl, sym, ap, subst, ◌∙◌, ◌⊎◌, inl, inr, true, false, List, [], ◌∷◌, ◌++◌,
  arith, length, length-take, length-drop, All-take, take, drop, take-split, take-all, ok, All,
}
use norr.Prelude.Bytes.{IsByte, byte_at}
use norr.Wire.{read_u16}
use norr.HandshakeFrame.{
  HandshakeFrameView, plain_view, parse_handshake_frame, serialize_handshake_frame,
}
use norr.HandshakeFrame.RoundTrip.{
  length_field, mac_view, mac_view_of, frame_of_bytes, serialize_handshake_frame_iff,
}

record Accepted (bytes : List ℕ) (v : HandshakeFrameView) : Type 0 where
  enough : 4 ≤ length bytes
  version : byte_at bytes 1 ≡ 1
  least : 1 ≤ byte_at bytes 0
  most : byte_at bytes 0 ≤ 6
  small : read_u16 bytes 2 ≤ 4096
  shape :
      ((read_u16 bytes 2 ≡ length bytes - 4) × (v ≡ plain_view (byte_at bytes 0) (drop 4 bytes)))
      ⊎ ((read_u16 bytes 2 + 32 ≡ length bytes - 4) × (v ≡ mac_view bytes))

accepted :
    (bytes : List ℕ) (v : HandshakeFrameView)
    → parse_handshake_frame bytes ≡ ok v
    → Accepted bytes v
unfolding parse_handshake_frame
accepted bytes v e = ground arith

-- What the view of a frame says of its bytes.
pub data Layout (bytes : List ℕ) (v : HandshakeFrameView) : Type 0 where
  plain :
      v.has_macs ≡ false
      → serialize_handshake_frame v.message v.noise_message ≡ ok bytes
      → Layout bytes v
  with_macs :
      v.has_macs ≡ true
      → serialize_handshake_frame v.message v.noise_message ≡ ok v.mac1_covered
      → v.mac2_covered ≡ v.mac1_covered ++ v.mac1
      → bytes ≡ v.mac2_covered ++ v.mac2
      → length v.mac1 ≡ 16
      → length v.mac2 ≡ 16
      → Layout bytes v

module _ (a b c d : ℕ) (rest : List ℕ) (n : ℕ) (h : All IsByte (a ∷ b ∷ c ∷ d ∷ rest))
    (e : read_u16 (a ∷ b ∷ c ∷ d ∷ rest) 2 ≡ n) (fits : n ≤ length rest) (one : b ≡ 1) (low : 1 ≤ a)
    (high : a ≤ 6) (small : n ≤ 4096) where
  cut_length : length (take n rest) ≡ n
  cut_length = omega (arith, length-take n rest)

  cut_field : read_u16 (a ∷ b ∷ c ∷ d ∷ take n rest) 2 ≡ length (take n rest)
  cut_field =
      length_field a b c d (take n rest) h.1.1.0 h.1.1.1.0
      ∙ sym (length_field a b c d rest h.1.1.0 h.1.1.1.0)
      ∙ e
      ∙ sym cut_length

  envelope : serialize_handshake_frame a (take n rest) ≡ ok (a ∷ b ∷ c ∷ d ∷ take n rest)
  envelope = (serialize_handshake_frame_iff a (take n rest) (a ∷ b ∷ c ∷ d ∷ take n rest)).1 (
    (low, (high, omega (arith, cut_length))),
    frame_of_bytes a b c d (take n rest)
        (h.0, (h.1.0, (h.1.1.0, (h.1.1.1.0, All-take IsByte n rest h.1.1.1.1)))) cut_field one,
  )

  covered : take (4 + n) (a ∷ b ∷ c ∷ d ∷ rest) ≡ a ∷ b ∷ c ∷ d ∷ take n rest
  covered = take-split 4 n (a ∷ b ∷ c ∷ d ∷ rest)

  with_codes :
      n + 32 ≡ length rest → Layout (a ∷ b ∷ c ∷ d ∷ rest) (mac_view_of n (a ∷ b ∷ c ∷ d ∷ rest))
  with_codes size =
      let xs : List ℕ = a ∷ b ∷ c ∷ d ∷ rest in
      let whole : take (4 + n + 16 + 16) xs ≡ xs = take-all (4 + n + 16 + 16) xs (omega arith) in
      with_macs refl (envelope ∙ ap ok (sym covered)) (take-split (4 + n) 16 xs)
        (sym whole ∙ take-split (4 + n + 16) 16 xs)
        (omega (arith, length-take 16 (drop (4 + n) xs), length-drop (4 + n) xs, size))
        (omega (arith, length-take 16 (drop (4 + n + 16) xs), length-drop (4 + n + 16) xs, size))

laid_out :
    (a b c d : ℕ) (rest : List ℕ) (v : HandshakeFrameView)
    → All IsByte (a ∷ b ∷ c ∷ d ∷ rest)
    → Accepted (a ∷ b ∷ c ∷ d ∷ rest) v
    → Layout (a ∷ b ∷ c ∷ d ∷ rest) v
laid_out a b c d rest v h k = elim k.shape [
  | inl s ↦
      let whole = take-all (length rest) rest (omega arith) in
      let made =
        envelope a b c d rest (length rest) h (omega (arith, s.0)) (omega arith) k.version k.least
          k.most (omega (arith, s.0, k.small)) in
      subst (Layout (a ∷ b ∷ c ∷ d ∷ rest)) (sym s.1) (
        plain refl (subst (λ t. serialize_handshake_frame a t ≡ ok (a ∷ b ∷ c ∷ d ∷ t)) whole made))
  | inr s ↦
      let n = read_u16 (a ∷ b ∷ c ∷ d ∷ rest) 2 in
      subst (Layout (a ∷ b ∷ c ∷ d ∷ rest)) (sym s.1) (
        with_codes a b c d rest n h refl (omega (arith, s.0)) k.version k.least k.most k.small
          (omega (arith, s.0)))
]

-- A frame that parses is the plain frame that is serialized for its message, or that frame followed
-- by two codes of 16 bytes; the first code covers the plain frame and the second that and the first.
pub parse_handshake_frame-Layout :
    (bytes : List ℕ) (v : HandshakeFrameView)
    → All IsByte bytes
    → parse_handshake_frame bytes ≡ ok v
    → Layout bytes v
parse_handshake_frame-Layout (a ∷ b ∷ c ∷ d ∷ rest) v h e =
    laid_out a b c d rest v h (accepted (a ∷ b ∷ c ∷ d ∷ rest) v e)
parse_handshake_frame-Layout [] v h e = unfold parse_handshake_frame in ground arith
parse_handshake_frame-Layout (a ∷ []) v h e = unfold parse_handshake_frame in ground arith
parse_handshake_frame-Layout (a ∷ b ∷ []) v h e = unfold parse_handshake_frame in ground arith
parse_handshake_frame-Layout (a ∷ b ∷ c ∷ []) v h e = unfold parse_handshake_frame in ground arith
