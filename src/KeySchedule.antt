-- ===== src/KeySchedule.antt =====
-- src/key_schedule.cpp, include/norr/key_schedule.hpp: the labels from which keys are derived.
use norr.Prelude.{
  ℕ, ◌+◌, ◌/◌, ◌^◌, List, [], ◌∷◌, ◌++◌, ltb, if◌then◌else◌, length, Result, ok, err, ◌>>=◌,
}
use norr.Prelude.Bytes.{u8}
use norr.Wire.{Error, malformed_packet, packet_too_large}
pub mod Separation
pub mod Tests

pub data KeyDirection : Type 0 where
  initiator_to_responder responder_to_initiator : KeyDirection

-- The room of `KeyLabel::bytes`.
abbrev pub label_room : ℕ
label_room = 64

-- "norr v1"
abbrev pub protocol_label : List ℕ
protocol_label = 0x6E ∷ 0x6F ∷ 0x72 ∷ 0x72 ∷ 0x20 ∷ 0x76 ∷ 0x31 ∷ []

-- ":"
abbrev pub separator : List ℕ
separator = 0x3A ∷ []

-- "i2r" and "r2i"
abbrev pub direction_label : KeyDirection → List ℕ
direction_label initiator_to_responder = 0x69 ∷ 0x32 ∷ 0x72 ∷ []
direction_label responder_to_initiator = 0x72 ∷ 0x32 ∷ 0x69 ∷ []

unfoldable pub append_u32 : List ℕ → ℕ → List ℕ
append_u32 bytes value =
    bytes ++ u8 (value / 2 ^ 24) ∷ u8 (value / 2 ^ 16) ∷ u8 (value / 2 ^ 8) ∷ u8 value ∷ []

-- A text that does not fit is refused.
unfoldable pub append_text : List ℕ → List ℕ → Result Error (List ℕ)
append_text bytes text =
    if ltb label_room (length bytes + length text) then err packet_too_large else ok (bytes ++ text)

-- The calls of `append_text` joined by `||`: the first that fails ends them.
unfoldable pub append_texts : List ℕ → List (List ℕ) → Result Error (List ℕ)
unfolding append_text
append_texts bytes [] = ok bytes
append_texts bytes (text ∷ texts) = append_text bytes text >>= (λ b. append_texts b texts)

-- The generation after the texts.
unfoldable pub with_generation : ℕ → List ℕ → Result Error (List ℕ)
unfolding append_u32
with_generation generation bytes =
    if ltb label_room (length bytes + 4)
    then err packet_too_large
    else ok (append_u32 bytes generation)

-- The bytes that `KeyLabel::view` shows.
unfoldable pub make_key_label : List ℕ → KeyDirection → ℕ → Result Error (List ℕ)
unfolding append_texts with_generation
make_key_label [] direction generation = err malformed_packet
make_key_label (c ∷ domain) direction generation =
    append_texts [] (
      protocol_label
      ∷ separator
      ∷ (c ∷ domain)
      ∷ separator
      ∷ direction_label direction
      ∷ separator
      ∷ [])
    >>= with_generation generation
