-- ===== src/Cookie.antt =====
-- src/cookie.cpp, include/norr/cookie.hpp: the codes of handshake messages and the cookies that a
-- responder under load asks for, in the build with libsodium. The calls of libsodium are the
-- parameter `Sodium`; what `random_bytes` draws in a call is an argument of it, `none` when it
-- fails. An instant is its number of nanoseconds.
use norr.Prelude.{
  ℕ, zero, suc, ◌+◌, ◌≡◌, ◌↔◌, Bool, true, false, ◌&&◌, ◌||◌, List, [], ◌∷◌, ◌++◌, ltb, leb, ◌==◌,
  if◌then◌else◌, length, take, drop, replicate, Option, none, some, Result, ok, err,
}
use norr.Address.{Address, bytes}
use norr.Qos.{Instant, Endpoint}
use norr.Crypto.{Aead, AeadLaws}
use norr.Fec.Header.{read_u32, write_u32}
use norr.Blake2s.Hash.{update, start, finish, maximum_digest_size}
pub mod Validity
pub mod Tests

abbrev pub label_mac1 : List ℕ
label_mac1 = 0x6D ∷ 0x61 ∷ 0x63 ∷ 0x31 ∷ 0x2D ∷ 0x2D ∷ 0x2D ∷ 0x2D ∷ []

abbrev pub label_cookie : List ℕ
label_cookie = 0x63 ∷ 0x6F ∷ 0x6F ∷ 0x6B ∷ 0x69 ∷ 0x65 ∷ 0x2D ∷ 0x2D ∷ []

abbrev pub mac_size : ℕ
mac_size = 16

abbrev pub cookie_nonce_size : ℕ
cookie_nonce_size = 24

-- The nonce, the cookie and the tag of its encryption, after the index.
abbrev pub cookie_reply_size : ℕ
cookie_reply_size = 4 + 24 + 16 + 16

-- Two minutes, in nanoseconds.
abbrev pub cookie_secret_lifetime : ℕ
cookie_secret_lifetime = 120000000000

pub data CookieError : Type 0 where
  unsupported_platform invalid_mac decryption_failed buffer_too_small message_too_short :
      CookieError

-- `crypto_aead_xchacha20poly1305_ietf_encrypt` and `..._decrypt`, and whether `sodium_memcmp` of
-- two buffers of the same size gives 0.
pub record Sodium : Type 0 where
  pub aead : Aead
  pub memcmp : List ℕ → List ℕ → Bool

-- What the library documents of them.
pub record SodiumLaws (sodium : Sodium) : Type 0 where
  pub laws : AeadLaws sodium.aead
  pub same : (a b : List ℕ) → length a ≡ length b → (sodium.memcmp a b ≡ true) ↔ (a ≡ b)

unfoldable pub constant_time_equal : Sodium → List ℕ → List ℕ → Bool
constant_time_equal sodium left right =
    if length left == length right
    then if length left == 0 then true else sodium.memcmp left right
    else false

unfoldable pub hash_label_and_key : List ℕ → List ℕ → List ℕ
hash_label_and_key label key =
    (finish (update (update (start maximum_digest_size []) label) key) maximum_digest_size).0

unfoldable pub keyed_mac : List ℕ → List ℕ → List ℕ
keyed_mac key message = (finish (update (start mac_size key) message) mac_size).0

pub record CookieReply : Type 0 where
  pub receiver_index : ℕ
  pub nonce : List ℕ
  pub encrypted_cookie : List ℕ

-- Into a buffer of `room` bytes. The code's `write_u32` and `read_u32` are those of the FEC header.
unfoldable pub serialize_cookie_reply : CookieReply → ℕ → Result CookieError (List ℕ)
unfolding write_u32
serialize_cookie_reply reply room =
    if ltb room cookie_reply_size
    then err buffer_too_small
    else ok (
        write_u32 (replicate 4 0) 0 reply.receiver_index ++ (reply.nonce ++ reply.encrypted_cookie))

unfoldable pub parse_cookie_reply : List ℕ → Result CookieError CookieReply
unfolding read_u32
parse_cookie_reply bytes =
    if ltb (length bytes) cookie_reply_size
    then err message_too_short
    else ok (record {
      receiver_index = read_u32 bytes 0;
      nonce = take cookie_nonce_size (drop 4 bytes);
      encrypted_cookie = take 32 (drop (4 + cookie_nonce_size) bytes);
    })

pub record CookieIssuer : Type 0 where
  pub mac1_key : List ℕ
  pub cookie_key : List ℕ
  pub secret : List ℕ
  pub previous_secret : List ℕ
  pub secret_created : Instant
  pub has_previous : Bool
  pub under_load : Bool

unfoldable pub new_issuer : List ℕ → CookieIssuer
unfolding hash_label_and_key
new_issuer local_static = record {
  mac1_key = hash_label_and_key label_mac1 local_static;
  cookie_key = hash_label_and_key label_cookie local_static;
  secret = replicate 32 0;
  previous_secret = replicate 32 0;
  secret_created = 0;
  has_previous = false;
  under_load = false;
}

-- The secret that a refresh sets: zeros when nothing could be drawn.
abbrev pub drawn : Option (List ℕ) → List ℕ
drawn none = replicate 32 0
drawn (some bytes) = bytes

unfoldable pub refresh : CookieIssuer → Instant → Option (List ℕ) → CookieIssuer
refresh i now draw =
    let first = i.secret_created == 0 in
    let expired = first || leb (i.secret_created + cookie_secret_lifetime) now in
    if expired
    then record i {
      secret = drawn draw;
      previous_secret = if first then i.previous_secret else i.secret;
      has_previous = if first then i.has_previous else true;
      secret_created = now;
    }
    else i

unfoldable pub compute_cookie :
    CookieIssuer → Endpoint → Instant → Option (List ℕ) → List ℕ × CookieIssuer
unfolding keyed_mac refresh
compute_cookie i source now draw =
    let fresh = refresh i now draw in (keyed_mac fresh.secret (bytes source.address), fresh)

unfoldable pub set_under_load : CookieIssuer → Bool → CookieIssuer
set_under_load i value = record i { under_load = value }

unfoldable pub compute_mac1 : CookieIssuer → List ℕ → List ℕ
compute_mac1 i message = keyed_mac i.mac1_key message

unfoldable pub verify_mac1 : Sodium → CookieIssuer → List ℕ → List ℕ → Bool
unfolding constant_time_equal
verify_mac1 sodium i message mac1 = constant_time_equal sodium (compute_mac1 i message) mac1

-- The test of `verify_mac2` under one secret.
unfoldable pub check : Sodium → Endpoint → List ℕ → List ℕ → List ℕ → Bool
check sodium source message mac2 secret =
    constant_time_equal sodium (keyed_mac (keyed_mac secret (bytes source.address)) message) mac2

unfoldable pub verify_mac2 :
    Sodium
    → CookieIssuer
    → Endpoint
    → List ℕ
    → List ℕ
    → Instant
    → Option (List ℕ)
    → Bool × CookieIssuer
unfolding check
verify_mac2 sodium i source message mac2 now draw =
    let fresh = refresh i now draw in
    (
      check sodium source message mac2 fresh.secret
          || (fresh.has_previous && check sodium source message mac2 fresh.previous_secret),
      fresh,
    )

-- The encryption of a cookie, under a nonce that could be drawn.
unfoldable pub sealed_cookie :
    Sodium → List ℕ → List ℕ → ℕ → List ℕ → Option (List ℕ) → Result CookieError CookieReply
sealed_cookie sodium key cookie receiver_index received_mac1 none = err unsupported_platform
sealed_cookie sodium key cookie receiver_index received_mac1 (some nonce) =
    elim (sodium.aead.encrypt key nonce received_mac1 cookie) [
      | none ↦ err decryption_failed
      | some encrypted ↦
          ok (record {
            receiver_index = receiver_index;
            nonce = nonce;
            encrypted_cookie = encrypted;
          })
    ]

unfoldable pub build_reply :
    Sodium
    → CookieIssuer
    → Endpoint
    → ℕ
    → List ℕ
    → Instant
    → Option (List ℕ)
    → Option (List ℕ)
    → Result CookieError CookieReply × CookieIssuer
unfolding compute_cookie sealed_cookie
build_reply sodium i source receiver_index received_mac1 now draw nonce_draw =
    let (cookie, fresh) = compute_cookie i source now draw in
    (sealed_cookie sodium fresh.cookie_key cookie receiver_index received_mac1 nonce_draw, fresh)

pub record CookieHolder : Type 0 where
  pub mac1_key : List ℕ
  pub cookie_key : List ℕ
  pub cookie : List ℕ
  pub received : Instant
  pub has_cookie : Bool

unfoldable pub new_holder : List ℕ → CookieHolder
new_holder responder_static = record {
  mac1_key = hash_label_and_key label_mac1 responder_static;
  cookie_key = hash_label_and_key label_cookie responder_static;
  cookie = replicate 16 0;
  received = 0;
  has_cookie = false;
}

-- The holder after the decryption of a reply, which `none` says has failed.
unfoldable pub accepted :
    CookieHolder → Instant → Option (List ℕ) → Result CookieError (Unit {0}) × CookieHolder
accepted h now none = (err decryption_failed, h)
accepted h now (some cookie) =
    (ok tt, record h { cookie = cookie; received = now; has_cookie = true })

unfoldable pub accept_reply :
    Sodium
    → CookieHolder
    → CookieReply
    → List ℕ
    → Instant
    → Result CookieError (Unit {0}) × CookieHolder
unfolding accepted
accept_reply sodium h reply sent_mac1 now =
    accepted h now (sodium.aead.decrypt h.cookie_key reply.nonce sent_mac1 reply.encrypted_cookie)

-- `CookieHolder::compute_mac2`.
unfoldable pub compute_mac2 : CookieHolder → List ℕ → List ℕ
compute_mac2 h message = if h.has_cookie then keyed_mac h.cookie message else replicate mac_size 0
