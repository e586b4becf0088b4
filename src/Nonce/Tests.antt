-- ===== src/Nonce/Tests.antt =====
-- Nonces and counters on concrete values, and the theorems at inputs that meet their hypotheses.
use norr.Prelude.{◌-◌, ◌≡◌, refl, false, [], ◌∷◌}
use norr.Nonce.{PacketCounter, make_nonce, next, uint64_max}
use norr.Nonce.Laws.{draws}

little_endian : make_nonce 0x0102 ≡ 0 ∷ 0 ∷ 0 ∷ 0 ∷ 2 ∷ 1 ∷ 0 ∷ 0 ∷ 0 ∷ 0 ∷ 0 ∷ 0 ∷ []
unfolding make_nonce
little_endian = refl

abbrev near_end : PacketCounter
near_end = record { value = uint64_max - 1; exhausted = false }

last_draws : draws 4 near_end ≡ (uint64_max - 1) ∷ uint64_max ∷ []
unfolding draws next
last_draws = refl
