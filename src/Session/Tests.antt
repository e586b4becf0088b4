-- ===== src/Session/Tests.antt =====
-- Sessions with an authenticated cipher that only appends a tag.
use norr.Prelude.{
  ℕ, ◌-◌, ◌≡◌, refl, sym, ap, ◌∙◌, List, [], ◌∷◌, ◌++◌, map, arith, true, some, Option, ok, length,
  take, replicate, length-append, take-append, All,
}
use norr.Prelude.Bytes.{IsByte, write_be}
use norr.Wire.{write_u16, write_u64}
use norr.Packet.{PacketHeader, PacketView, serialize_header, write_header}
use norr.Replay.Once.{Distinct}
use norr.Crypto.{Aead, AeadLaws, TrafficKeys, aead_nonce, seal_text}
use norr.Session.{Session, new_session, seal_reserved, take_loss_sample, open_packet}
use norr.Session.Calls.{
  Call, reserves, checks, commits, all_given, all_let_through, Different, all_given-Different,
  all_let_through-Distinct,
}
use norr.Session.Sealing.{Delivered, seal_reserved-Delivered}
use norr.Session.Opening.{Outcome, open_packet-Outcome}

abbrev tagged : Aead
tagged = record {
  encrypt = λ k n ad p. some (p ++ replicate 16 0);
  decrypt = λ k n ad c. some (take (length c - 16) c);
}

tagged-AeadLaws : AeadLaws tagged
tagged-AeadLaws = record {
  longer = λ k n ad p c e. ap (λ t. length t) (sym (some_of e)) ∙ length-append p (replicate 16 0);
  decrypts = λ k n ad p c e. ap some (
      ap (λ t. take (length t - 16) t) (sym (some_of e))
      ∙ ap (λ t. take t (p ++ replicate 16 0)) (shorter p)
      ∙ take-append p (replicate 16 0));
}
  where
    some_of : {a b : List ℕ} → ◌≡◌ {A = Option (List ℕ)} (some a) (some b) → a ≡ b
    some_of e = cc

    shorter : (p : List ℕ) → length (p ++ replicate 16 0) - 16 ≡ length p
    shorter p = omega (arith, length-append p (replicate 16 0))

abbrev keys : TrafficKeys
keys = record { key = replicate 32 7; generation = 1 }

abbrev session : Session
session = new_session 1 5 6 keys keys 0

abbrev buffer : List ℕ
buffer = replicate 40 0

abbrev packet : List ℕ
packet = 0x11 ∷ 0 ∷ 0 ∷ 6 ∷ 0 ∷ 16 ∷ 0 ∷ 0 ∷ 0 ∷ 0 ∷ 0 ∷ 0 ∷ 0 ∷ 9 ∷ 0 ∷ 18 ∷ 8 ∷ 8 ∷ replicate 16 0

seal_packet : seal_reserved tagged session 1 9 (8 ∷ 8 ∷ []) buffer ≡ ok packet
unfolding seal_reserved seal_text serialize_header write_header write_u16 write_u64 write_be
seal_packet = refl

seal_reserved-Delivered_example : Delivered tagged session 9 (8 ∷ 8 ∷ []) packet
seal_reserved-Delivered_example =
    seal_reserved-Delivered tagged session 1 9 (8 ∷ 8 ∷ []) buffer packet tagged-AeadLaws buffer-All
      (omega arith) (omega arith) seal_packet
  where
    buffer-All : All IsByte buffer
    buffer-All = ground arith

abbrev header : PacketHeader
header = record {
  version = 1;
  frame_type = 1;
  flags = 0;
  key_id = 6;
  header_length = 16;
  counter = 9;
  payload_length = 18;
}

abbrev view : PacketView
view = record { header = header; payload = 8 ∷ 8 ∷ replicate 16 0 }

open_packet-Outcome_example :
    Outcome tagged 3 view packet 100 session (open_packet tagged 3 view packet 100 session)
open_packet-Outcome_example = open_packet-Outcome tagged 3 view packet 100 session (λ e. refl)

abbrev calls : List Call
calls = reserves ∷ checks 4 ∷ commits 1 4 ∷ reserves ∷ commits 2 4 ∷ commits 3 2 ∷ []

all_given-Different_example : Different (map aead_nonce (all_given calls session))
all_given-Different_example = all_given-Different calls session (omega arith)

all_let_through-Distinct_example : Distinct (all_let_through calls session)
all_let_through-Distinct_example = all_let_through-Distinct calls session refl

abbrev sampled : Session
sampled = record session {
  replay = record { initialized = true; highest = 100; seen = replicate 128 0 };
  sample_primed = true;
  sample_received = 90;
  sample_recovered = 5;
}

sampled_sample :
    (take_loss_sample sampled).0 ≡ some (record { raw = 15; residual = 10; expected = 100 })
unfolding take_loss_sample
sampled_sample = refl
