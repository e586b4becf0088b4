-- ===== src/Nonce.antt =====
-- src/nonce.cpp, include/norr/nonce.hpp: the AEAD nonce of a packet, and the send counter.
pub mod Laws
pub mod Tests
use norr.Prelude.{
  ℕ, zero, suc, ◌+◌, ◌-◌, ◌*◌, ◌/◌, ◌^◌, Bool, true, List, ◌==◌, if◌then◌else◌, set, replicate,
  Result, ok, err,
}
use norr.Prelude.Bytes.{u8}
use norr.Wire.{Error, counter_exhausted}

-- `for (index = 0; index < 8; ++index) nonce[4 + index] = counter >> (index * 8)`
unfoldable pub nonce_loop : ℕ → ℕ → List ℕ → ℕ → List ℕ
nonce_loop zero index nonce counter = nonce
nonce_loop (suc left) index nonce counter =
    nonce_loop left (index + 1) (set nonce (4 + index) (u8 (counter / 2 ^ (index * 8)))) counter

unfoldable pub make_nonce : ℕ → List ℕ
unfolding nonce_loop
make_nonce counter = nonce_loop 8 0 (replicate 12 0) counter

pub record PacketCounter : Type 0 where
  pub value : ℕ
  pub exhausted : Bool

abbrev pub uint64_max : ℕ
uint64_max = 2 ^ 64 - 1

-- The counter to use, and the counter's state afterwards.
unfoldable pub next : PacketCounter → Result Error ℕ × PacketCounter
next c = if c.exhausted then (err counter_exhausted, c) else (
  ok c.value,
  if c.value == uint64_max then record c { exhausted = true } else record c { value = c.value + 1 },
)
