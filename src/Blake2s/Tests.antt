-- ===== src/Blake2s/Tests.antt =====
-- Hashes of short messages.
use norr.Prelude.{ℕ, ◌≡◌, refl, List, [], ◌∷◌, ◌++◌, arith, some, take}
use norr.Blake2s.Hash.{copy_to, fresh, update, start, finish, hash}
use norr.Blake2s.Streaming.{update-append}
use norr.Blake2s.Hmac.{
  expand_key, padded_key, padded_hash, update_all, hmac_blake2s, hkdf_loop, hkdf_expand,
}
use norr.Blake2s.Expand.{expanded, hkdf_expand-expanded}
use norr.Blake2s.Rfc.{blake2s, little_word, place, rotr}
use norr.Blake2s.Conformance.{finish-blake2s}

abbrev abc : List ℕ
abc = 0x61 ∷ 0x62 ∷ 0x63 ∷ []

abbrev abc_key : List ℕ
abc_key = 0x6B ∷ 0x65 ∷ 0x79 ∷ []

-- BLAKE2s-256 of "abc", as RFC 7693 gives it.
hash-abc :
    hash abc []
    ≡ 0x50 ∷ 0x8C ∷ 0x5E ∷ 0x8C ∷ 0x32 ∷ 0x7C ∷ 0x14 ∷ 0xE2 ∷ 0xE1 ∷ 0xA7 ∷ 0x2B ∷ 0xA3 ∷ 0x4E
      ∷ 0xEB ∷ 0x45 ∷ 0x2F ∷ 0x37 ∷ 0x45 ∷ 0x8B ∷ 0x20 ∷ 0x9E ∷ 0xD6 ∷ 0x3A ∷ 0x29 ∷ 0x4D ∷ 0x99
      ∷ 0x9B ∷ 0x4C ∷ 0x86 ∷ 0x67 ∷ 0x59 ∷ 0x82 ∷ []
unfolding hash
hash-abc = refl

update-append_example :
    update (update (fresh 32 0) abc) abc_key
    ≡ update (fresh 32 0) (0x61 ∷ 0x62 ∷ 0x63 ∷ 0x6B ∷ 0x65 ∷ 0x79 ∷ [])
unfolding fresh
update-append_example = update-append (fresh 32 0) abc abc_key (omega arith)

-- The definition of RFC 7693, on its own example.
blake2s-abc :
    blake2s 32 [] abc
    ≡ 0x50 ∷ 0x8C ∷ 0x5E ∷ 0x8C ∷ 0x32 ∷ 0x7C ∷ 0x14 ∷ 0xE2 ∷ 0xE1 ∷ 0xA7 ∷ 0x2B ∷ 0xA3 ∷ 0x4E
      ∷ 0xEB ∷ 0x45 ∷ 0x2F ∷ 0x37 ∷ 0x45 ∷ 0x8B ∷ 0x20 ∷ 0x9E ∷ 0xD6 ∷ 0x3A ∷ 0x29 ∷ 0x4D ∷ 0x99
      ∷ 0x9B ∷ 0x4C ∷ 0x86 ∷ 0x67 ∷ 0x59 ∷ 0x82 ∷ []
unfolding blake2s little_word place rotr
blake2s-abc = refl

finish-blake2s_example : (finish (update (start 16 abc_key) abc) 16).0 ≡ blake2s 16 abc_key abc
finish-blake2s_example =
    finish-blake2s 16 abc_key abc (omega arith) (omega arith) (omega arith) (omega arith)
      (omega arith)

-- A digest in two calls, and the same in one.
hash_parts : (finish (update (update (start 32 []) abc) abc_key) 32).0 ≡ hash (abc ++ abc_key) []
unfolding finish update start hash
hash_parts = refl

abbrev message : List ℕ
message = 0x6D ∷ 0x65 ∷ 0x73 ∷ 0x73 ∷ 0x61 ∷ 0x67 ∷ 0x65 ∷ []

-- The code of "message" under "key", and 32 bytes of HKDF, as tests/blake2s_test.cpp has them.
hmac_blake2s-message :
    hmac_blake2s abc_key message
    ≡ 0xBB ∷ 0xA8 ∷ 0xFA ∷ 0x28 ∷ 0x70 ∷ 0x8A ∷ 0xE8 ∷ 0x0D ∷ 0x24 ∷ 0x9E ∷ 0x31 ∷ 0x73 ∷ 0x18
      ∷ 0xC9 ∷ 0x5C ∷ 0x85 ∷ 0x9F ∷ 0x3F ∷ 0x77 ∷ 0x51 ∷ 0x2B ∷ 0xE2 ∷ 0x39 ∷ 0x10 ∷ 0xD5 ∷ 0x09
      ∷ 0x4D ∷ 0x91 ∷ 0x10 ∷ 0x45 ∷ 0x4D ∷ 0x6F ∷ []
unfolding hmac_blake2s padded_key padded_hash update_all update start finish hash copy_to
hmac_blake2s-message = refl

abbrev pseudorandom_key : List ℕ
pseudorandom_key =
    0x09 ∷ 0xF3 ∷ 0x03 ∷ 0xB9 ∷ 0xC9 ∷ 0x60 ∷ 0x68 ∷ 0x0E ∷ 0x08 ∷ 0x5F ∷ 0xC4 ∷ 0x97 ∷ 0xCB ∷ 0x95
    ∷ 0xAB ∷ 0xD3 ∷ 0x32 ∷ 0xCE ∷ 0xA7 ∷ 0x6C ∷ 0x2E ∷ 0xC3 ∷ 0xFE ∷ 0x5A ∷ 0x9C ∷ 0xE2 ∷ 0x31
    ∷ 0x2D ∷ 0x4F ∷ 0x54 ∷ 0x90 ∷ 0xC8 ∷ []

abbrev info : List ℕ
info =
    0x6E ∷ 0x6F ∷ 0x72 ∷ 0x72 ∷ 0x20 ∷ 0x76 ∷ 0x31 ∷ 0x3A ∷ 0x64 ∷ 0x61 ∷ 0x74 ∷ 0x61 ∷ 0x3A ∷ 0x69
    ∷ 0x32 ∷ 0x72 ∷ 0x3A ∷ []

hkdf_expand-info :
    hkdf_expand pseudorandom_key info 32
    ≡ some (
        0x0C ∷ 0x68 ∷ 0x95 ∷ 0x04 ∷ 0x34 ∷ 0xD2 ∷ 0xE3 ∷ 0x5C ∷ 0x75 ∷ 0x82 ∷ 0x94 ∷ 0x82 ∷ 0xD3
        ∷ 0x07 ∷ 0x9B ∷ 0x74 ∷ 0xF9 ∷ 0x2E ∷ 0x19 ∷ 0x5C ∷ 0x92 ∷ 0x33 ∷ 0xBD ∷ 0xCD ∷ 0x22 ∷ 0x48
        ∷ 0x76 ∷ 0xDB ∷ 0xF6 ∷ 0xE5 ∷ 0x1A ∷ 0xDA ∷ [])
unfolding hkdf_expand hkdf_loop expand_key padded_hash update_all update start finish hash copy_to
hkdf_expand-info = refl

hkdf_expand-expanded_example :
    hkdf_expand abc_key abc 40 ≡ some (take 40 (expanded 2 abc_key abc [] 1))
hkdf_expand-expanded_example = hkdf_expand-expanded abc_key abc 40 2 (omega arith)
