-- ===== src/KeySchedule/Tests.antt =====
-- Labels of data keys.
use norr.Prelude.{ℕ, ◌≡◌, refl, List, [], ◌∷◌, arith, replicate, ok, err}
use norr.Wire.{packet_too_large}
use norr.KeySchedule.{
  initiator_to_responder, responder_to_initiator, append_u32, append_text, append_texts,
  with_generation, make_key_label,
}
use norr.KeySchedule.Separation.{make_key_label-injective}

abbrev data_domain : List ℕ
data_domain = 0x64 ∷ 0x61 ∷ 0x74 ∷ 0x61 ∷ []

abbrev data_label : List ℕ
data_label =
    0x6E ∷ 0x6F ∷ 0x72 ∷ 0x72 ∷ 0x20 ∷ 0x76 ∷ 0x31 ∷ 0x3A ∷ 0x64 ∷ 0x61 ∷ 0x74 ∷ 0x61 ∷ 0x3A ∷ 0x69
    ∷ 0x32 ∷ 0x72 ∷ 0x3A ∷ 0 ∷ 0 ∷ 1 ∷ 2 ∷ []

make_data_label : make_key_label data_domain initiator_to_responder 258 ≡ ok data_label
unfolding make_key_label append_texts append_text with_generation append_u32
make_data_label = refl

-- The longest domain has 47 characters.
make_long_label : make_key_label (replicate 48 0x61) responder_to_initiator 0 ≡ err packet_too_large
unfolding make_key_label append_texts append_text with_generation append_u32
make_long_label = refl

make_key_label-injective_example :
    (data_domain ≡ data_domain)
    × ((initiator_to_responder ≡ initiator_to_responder) × (◌≡◌ {A = ℕ} 258 258))
make_key_label-injective_example =
    make_key_label-injective data_domain data_domain initiator_to_responder initiator_to_responder
      258 258 data_label (omega arith) (omega arith) make_data_label make_data_label
