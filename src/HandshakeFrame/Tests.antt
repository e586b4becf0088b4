-- ===== src/HandshakeFrame/Tests.antt =====
-- A concrete handshake frame, without and with its codes.
use norr.Prelude.{ℕ, ◌≡◌, ◌++◌, refl, List, [], ◌∷◌, arith, ok, err, All, replicate}
use norr.Prelude.Bytes.{IsByte, read_be}
use norr.Wire.{malformed_packet, read_u16}
use norr.HandshakeFrame.{
  plain_view, parse_handshake_frame, serialize_handshake_frame, serialize_handshake_frame_with_macs,
}
use norr.HandshakeFrame.Layout.{Layout, parse_handshake_frame-Layout}
use norr.HandshakeFrame.RoundTrip.{mac_view_of, parse_handshake_frame-serialize_handshake_frame}

abbrev noise : List ℕ
noise = 5 ∷ 6 ∷ 7 ∷ []

abbrev sent : List ℕ
sent = 1 ∷ 1 ∷ 0 ∷ 3 ∷ noise

abbrev with_room : List ℕ
with_room = sent ++ replicate 32 0

serialize_sent : serialize_handshake_frame 1 noise ≡ ok sent
unfolding serialize_handshake_frame
serialize_sent = refl

serialize_with_room : serialize_handshake_frame_with_macs 1 noise ≡ ok with_room
unfolding serialize_handshake_frame_with_macs serialize_handshake_frame
serialize_with_room = refl

serialize_none : serialize_handshake_frame 0 noise ≡ err malformed_packet
unfolding serialize_handshake_frame
serialize_none = refl

parse_room : parse_handshake_frame with_room ≡ ok (mac_view_of 3 with_room)
unfolding parse_handshake_frame read_u16 read_be
parse_room = refl

parse_handshake_frame-serialize_handshake_frame_example :
    parse_handshake_frame sent ≡ ok (plain_view 1 noise)
parse_handshake_frame-serialize_handshake_frame_example =
    parse_handshake_frame-serialize_handshake_frame 1 noise sent serialize_sent

with_room-All : All IsByte with_room
with_room-All = ground arith

parse_handshake_frame-Layout_example : Layout with_room (mac_view_of 3 with_room)
parse_handshake_frame-Layout_example =
    parse_handshake_frame-Layout with_room (mac_view_of 3 with_room) with_room-All parse_room
