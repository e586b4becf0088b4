-- ===== src/Crypto.antt =====
-- src/crypto.cpp, include/norr/crypto.hpp: the traffic keys, in the build with libsodium.
-- The two library calls are the parameter `Aead`. A call that writes to a buffer gives the bytes it
-- wrote; what a failed call leaves in the buffer is not modelled.
use norr.Prelude.{
  ℕ, zero, suc, ◌+◌, ◌-◌, ◌*◌, ◌/◌, ◌^◌, ◌≡◌, List, ltb, if◌then◌else◌, length, set, replicate,
  Option, none, some, Result, ok, err,
}
use norr.Prelude.Bytes.{u8}

pub data CryptoError : Type 0 where
  unsupported_platform initialisation_failed authentication_failed buffer_too_small : CryptoError
  invalid_key_length invalid_nonce counter_exhausted weak_public_key : CryptoError

abbrev pub aead_tag_size : ℕ
aead_tag_size = 16

-- `crypto_aead_chacha20poly1305_ietf_encrypt` and `..._decrypt`, of a key, a nonce, the associated
-- data and a text; `none` when the library reports a failure.
pub record Aead : Type 0 where
  pub encrypt : List ℕ → List ℕ → List ℕ → List ℕ → Option (List ℕ)
  pub decrypt : List ℕ → List ℕ → List ℕ → List ℕ → Option (List ℕ)

-- What the library documents: a ciphertext is 16 bytes longer than its plaintext, and decrypts to
-- it under the same key, nonce and associated data.
pub record AeadLaws (a : Aead) : Type 0 where
  pub longer :
      (k n ad p c : List ℕ) → a.encrypt k n ad p ≡ some c → length c ≡ length p + aead_tag_size
  pub decrypts : (k n ad p c : List ℕ) → a.encrypt k n ad p ≡ some c → a.decrypt k n ad c ≡ some p

pub record TrafficKeys : Type 0 where
  pub key : List ℕ
  pub generation : ℕ

-- `for (index = 0; index < 8; ++index) nonce[4 + index] = counter >> (index * 8)`
unfoldable pub aead_nonce_loop : ℕ → ℕ → List ℕ → ℕ → List ℕ
aead_nonce_loop zero index nonce counter = nonce
aead_nonce_loop (suc left) index nonce counter =
    aead_nonce_loop left (index + 1) (set nonce (4 + index) (u8 (counter / 2 ^ (index * 8))))
      counter

unfoldable pub aead_nonce : ℕ → List ℕ
unfolding aead_nonce_loop
aead_nonce counter = aead_nonce_loop 8 0 (replicate 12 0) counter

abbrev of_library : Option (List ℕ) → Result CryptoError (List ℕ)
of_library (some text) = ok text
of_library none = err authentication_failed

-- `TrafficKeys::seal` into a buffer of `room` bytes.
unfoldable pub seal_text :
    Aead → TrafficKeys → ℕ → List ℕ → List ℕ → ℕ → Result CryptoError (List ℕ)
seal_text aead keys counter associated plaintext room =
    if ltb room (length plaintext + aead_tag_size)
    then err buffer_too_small
    else of_library (aead.encrypt keys.key (aead_nonce counter) associated plaintext)

-- `TrafficKeys::open` into a buffer of `room` bytes.
unfoldable pub open_text :
    Aead → TrafficKeys → ℕ → List ℕ → List ℕ → ℕ → Result CryptoError (List ℕ)
open_text aead keys counter associated ciphertext room =
    if ltb (length ciphertext) aead_tag_size
    then err authentication_failed
    else if ltb room (length ciphertext - aead_tag_size)
    then err buffer_too_small
    else of_library (aead.decrypt keys.key (aead_nonce counter) associated ciphertext)
