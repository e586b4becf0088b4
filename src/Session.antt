-- ===== src/Session.antt =====
-- src/session.cpp, include/norr/session.hpp: one peer's keys, counters and replay window.
-- The calls that change the state hold the session's lock, so each is one function of the state;
-- `seal` and `open` make several such calls. An `Instant` is its number of nanoseconds.
pub mod Calls
pub mod Sealing
pub mod Opening
pub mod Loss
pub mod Tests
use norr.Prelude.{
  ℕ, ◌+◌, ◌-◌, ◌^◌, Bool, true, false, not, ◌&&◌, ◌||◌, List, ◌++◌, ltb, leb, ◌==◌, if◌then◌else◌,
  length, take, drop, replicate, min, Option, none, some, Result, ok, err, fail_if, ◌>>=◌, ◌>>◌,
}
use norr.Prelude.Bytes.{u16, u64, sub64}
use norr.Wire.{Error}
use norr.Nonce.{PacketCounter, next}
use norr.Packet.{
  PacketHeader, PacketView, packet_header_size, maximum_packet_size, protocol_version,
  serialize_header,
}
use norr.Replay.{
  ReplayResult, accepted, replayed, too_old, ReplayWindow, empty_window, window_size, accept,
}
use norr.Crypto.{Aead, TrafficKeys, CryptoError, aead_tag_size, seal_text, open_text}
use norr.Crypto
use norr.Qos.{Instant, Endpoint}
use norr.Routing.{PeerId}

pub data SessionError : Type 0 where
  unknown_peer unknown_key_id not_established counter_exhausted replayed_packet : SessionError
  too_old_packet authentication_failed buffer_too_small key_id_exhausted : SessionError
  too_many_sessions generation_mismatch : SessionError

pub record SessionStats : Type 0 where
  pub sent : ℕ
  pub received : ℕ
  pub replay_drops : ℕ
  pub auth_failures : ℕ
  pub too_old_drops : ℕ

pub record Session : Type 0 where
  pub peer : PeerId
  pub local_key_id : ℕ
  pub remote_key_id : ℕ
  pub send_keys : TrafficKeys
  pub receive_keys : TrafficKeys
  pub send_counter : PacketCounter
  pub replay : ReplayWindow
  pub endpoint : Option Endpoint
  pub last_received : Instant
  pub established_at : Instant
  pub stats : SessionStats
  pub sample_base : ℕ
  pub sample_received : ℕ
  pub sample_recovered : ℕ
  pub sample_late : ℕ
  pub sample_primed : Bool

-- The constructor, at the time `now`.
abbrev pub new_session : PeerId → ℕ → ℕ → TrafficKeys → TrafficKeys → Instant → Session
new_session peer local_key_id remote_key_id send_keys receive_keys now = record {
  peer = peer;
  local_key_id = local_key_id;
  remote_key_id = remote_key_id;
  send_keys = send_keys;
  receive_keys = receive_keys;
  send_counter = record { value = 0; exhausted = false };
  replay = empty_window;
  endpoint = none;
  last_received = 0;
  established_at = now;
  stats = record { sent = 0; received = 0; replay_drops = 0; auth_failures = 0; too_old_drops = 0 };
  sample_base = 0;
  sample_received = 0;
  sample_recovered = 0;
  sample_late = 0;
  sample_primed = false;
}

abbrev pub uint64_max : ℕ
uint64_max = 2 ^ 64 - 1

abbrev pub rekey_after_messages : ℕ
rekey_after_messages = 2 ^ 60

abbrev pub reject_after_messages : ℕ
reject_after_messages = uint64_max - 2 ^ 13

-- kRekeyAfter, two minutes, and kSessionExpiry, three minutes.
abbrev pub rekey_after : Instant
rekey_after = 120000000000

abbrev pub session_expiry : Instant
session_expiry = 180000000000

unfoldable pub needs_rekey : Session → Instant → Bool
needs_rekey s now =
    leb rekey_after_messages s.stats.sent || leb (s.established_at + rekey_after) now

unfoldable pub expired : Session → Instant → Bool
expired s now =
    leb reject_after_messages s.stats.sent || leb (s.established_at + session_expiry) now

unfoldable pub note_authenticated_endpoint : Endpoint → Session → Session
note_authenticated_endpoint endpoint s = record s { endpoint = some endpoint }

unfoldable pub reserve_counter : Session → Result SessionError ℕ × Session
reserve_counter s =
    if leb reject_after_messages s.stats.sent
    then (err counter_exhausted, s)
    else (let (drawn, counter) = next s.send_counter in
        elim drawn [
          | err e ↦ (err counter_exhausted, record s { send_counter = counter })
          | ok value ↦ (
            ok value,
            record s {
              send_counter = counter;
              stats = record s.stats { sent = u64 (s.stats.sent + 1) };
            },
          )
        ])

-- The error that a failed `TrafficKeys` call becomes.
abbrev pub session_error : CryptoError → SessionError
session_error Crypto.buffer_too_small = buffer_too_small
session_error _ = authentication_failed

-- `if (!call) return std::unexpected(f(call.error()));`
abbrev pub map_error : {A : Type 0} {E F : Type 0} → (E → F) → Result E A → Result F A
map_error f (ok a) = ok a
map_error f (err e) = err (f e)

abbrev pub sealed_header : Session → ℕ → ℕ → ℕ → PacketHeader
sealed_header s frame_type counter ciphertext_length = record {
  version = protocol_version;
  frame_type = frame_type;
  flags = 0;
  key_id = s.remote_key_id;
  header_length = packet_header_size;
  counter = counter;
  payload_length = u16 ciphertext_length;
}

-- The result is the packet: the first bytes of `out`, as many as the code returns.
unfoldable pub seal_reserved :
    Aead → Session → ℕ → ℕ → List ℕ → List ℕ → Result SessionError (List ℕ)
seal_reserved aead s frame_type counter plaintext out = do
  let ciphertext_length = length plaintext + aead_tag_size
  fail_if (ltb (length out) (packet_header_size + ciphertext_length)) buffer_too_small
  fail_if (ltb (maximum_packet_size - packet_header_size) ciphertext_length) buffer_too_small
  headed ←
      map_error (λ e. buffer_too_small)
        (serialize_header (sealed_header s frame_type counter ciphertext_length) ciphertext_length
          out)
  let associated = take packet_header_size headed
  sealed ←
      map_error session_error
        (seal_text aead s.send_keys counter associated plaintext (length out - packet_header_size))
  ok (associated ++ sealed)

unfoldable pub seal : Aead → Session → ℕ → List ℕ → List ℕ → Result SessionError (List ℕ) × Session
seal aead s frame_type plaintext out =
    if ltb (length out) (packet_header_size + length plaintext + aead_tag_size)
    then (err buffer_too_small, s)
    else (let (reserved, after) = reserve_counter s in
        elim reserved [
          | err e ↦ (err e, after)
          | ok counter ↦ (seal_reserved aead after frame_type counter plaintext out, after)
        ])

abbrev pub Done : Type 0
Done = Result SessionError (Unit {0})

unfoldable pub check_window : ℕ → Session → Done × Session
check_window counter s =
    if ltb counter s.replay.highest && leb window_size (s.replay.highest - counter)
    then (
      err too_old_packet,
      record s { stats = record s.stats { too_old_drops = u64 (s.stats.too_old_drops + 1) } },
    )
    else (ok tt, s)

-- `out` is a buffer of `room` bytes; the result is the plaintext written to it.
unfoldable pub decrypt : Aead → Session → PacketView → List ℕ → ℕ → Result SessionError (List ℕ)
decrypt aead s view packet room =
    if ltb (length packet) packet_header_size
    then err buffer_too_small
    else map_error session_error (
        open_text aead s.receive_keys view.header.counter (take packet_header_size packet)
          view.payload room)

unfoldable pub note_authentication_failure : Session → Session
note_authentication_failure s = record s {
  stats = record s.stats { auth_failures = u64 (s.stats.auth_failures + 1) };
}

-- `std::chrono::steady_clock::now()` gives `now`.
unfoldable pub commit : Instant → ℕ → Session → Done × Session
commit now counter s =
    let verdict = accept s.replay counter in
    let after = record s { replay = verdict.1 } in
    elim verdict.0 [
      | accepted ↦ (
        ok tt,
        record after {
          stats = record s.stats { received = u64 (s.stats.received + 1) };
          sample_received = u64 (s.sample_received + 1);
          last_received = now;
        },
      )
      | replayed ↦ (
        err replayed_packet,
        record after {
          stats = record s.stats { replay_drops = u64 (s.stats.replay_drops + 1) };
          sample_late = u64 (s.sample_late + 1);
        },
      )
      | too_old ↦ (
        err too_old_packet,
        record after { stats = record s.stats { too_old_drops = u64 (s.stats.too_old_drops + 1) } },
      )
    ]

abbrev pub is_authentication_failure : SessionError → Bool
is_authentication_failure authentication_failed = true
is_authentication_failure _ = false

-- `open` once the packet's counter is not below the window.
unfoldable pub open_checked :
    Aead → Instant → PacketView → List ℕ → ℕ → Session → Result SessionError (List ℕ) × Session
open_checked aead now view packet room s = elim (decrypt aead s view packet room) [
  | err e ↦ (err e, if is_authentication_failure e then note_authentication_failure s else s)
  | ok plaintext ↦
      let (committed, after) = commit now view.header.counter s in
      elim committed [ err e ↦ (err e, after) | ok done ↦ (ok plaintext, after) ]
]

unfoldable pub open_packet :
    Aead → Instant → PacketView → List ℕ → ℕ → Session → Result SessionError (List ℕ) × Session
open_packet aead now view packet room s =
    let (window, after) = check_window view.header.counter s in
    elim window [ err e ↦ (err e, after) | ok done ↦ open_checked aead now view packet room after ]

unfoldable pub note_recovered : Session → Session
note_recovered s = record s { sample_recovered = u64 (s.sample_recovered + 1) }

-- A fraction, a double in the code, is its numerator over `expected`.
pub record LossSample : Type 0 where
  pub raw : ℕ
  pub residual : ℕ
  pub expected : ℕ

abbrev pub fraction_missing : ℕ → ℕ → ℕ
fraction_missing expected arrived = if leb expected arrived then 0 else expected - arrived

abbrev pub reset_sample : Session → Session
reset_sample s = record s {
  sample_base = s.replay.highest;
  sample_received = 0;
  sample_recovered = 0;
  sample_late = 0;
}

unfoldable pub take_loss_sample : Session → Option LossSample × Session
take_loss_sample s =
    let highest = s.replay.highest in
    let expected = if ltb s.sample_base highest then highest - s.sample_base else 0 in
    let late = min s.sample_late s.sample_recovered in
    let direct = u64 (sub64 s.sample_received s.sample_recovered + late) in
    if not s.sample_primed
    then (if s.stats.received == 0
        then (none, s)
        else (none, record (reset_sample s) { sample_primed = true }))
    else if ltb expected 64
    then (none, s)
    else (
      some (record {
        raw = fraction_missing expected direct;
        residual = fraction_missing expected s.sample_received;
        expected = expected;
      }),
      reset_sample s,
    )
