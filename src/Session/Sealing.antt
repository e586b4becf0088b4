-- ===== src/Session/Sealing.antt =====
-- A sealed packet parses, and opens with the same key.
use norr.Prelude.{
  ℕ, ◌+◌, ◌^◌, ◌≤◌, ◌<◌, ◌≡◌, refl, sym, ap, subst, ◌∙◌, List, ◌++◌, arith, length, length-append,
  length-take, take, drop, take-append, drop-append, get_or-append_left, get_or-take, All, some, ok,
  Option-cases, Result-cases, inl, inr,
}
use norr.Prelude.Bytes.{IsByte}
use norr.Packet.{PacketHeader, PacketView, parse_packet, serialize_header, write_header}
use norr.Packet.Read.{InRange, Holds, Holds-ext, write_header-out6, length-out6, write_header-Holds}
use norr.Packet.RoundTrip.{Valid, serialize_header-ok, parse_packet-Holds}
use norr.Crypto.{Aead, AeadLaws, aead_nonce, seal_text, open_text}
use norr.Session.{Session, sealed_header, seal_reserved, decrypt}

-- What stands in a packet that was sealed.
record Sealed (aead : Aead) (s : Session) (frame_type counter : ℕ) (plaintext out packet : List ℕ)
    : Type 0 where
  headed : List ℕ
  ciphertext : List ℕ
  made :
      serialize_header
        (sealed_header s frame_type counter (length plaintext + 16))
        (length plaintext + 16)
        out
      ≡ ok headed
  encrypted :
      aead.encrypt s.send_keys.key (aead_nonce counter) (take 16 headed) plaintext ≡ some ciphertext
  joined : packet ≡ take 16 headed ++ ciphertext
  room : 16 + (length plaintext + 16) ≤ length out

module _ (aead : Aead) (s : Session) (ft c : ℕ) (p out : List ℕ) where
  abbrev header : PacketHeader
  header = sealed_header s ft c (length p + 16)

  sealed_text :
      (packet headed : List ℕ)
      → serialize_header header (length p + 16) out ≡ ok headed
      → seal_reserved aead s ft c p out ≡ ok packet
      → (x : List ℕ) × ((aead.encrypt s.send_keys.key (aead_nonce c) (take 16 headed) p ≡ some x)
          × ((packet ≡ take 16 headed ++ x) × (16 + (length p + 16) ≤ length out)))
  unfolding seal_reserved seal_text
  sealed_text packet headed m e =
      elim (Option-cases (aead.encrypt s.send_keys.key (aead_nonce c) (take 16 headed) p)) [
        | inl none_ ↦ ground arith
        | inr (x, some_) ↦ (x, ground arith)
      ]

  seal_reserved-Sealed :
      (packet : List ℕ)
      → seal_reserved aead s ft c p out ≡ ok packet
      → Sealed aead s ft c p out packet
  seal_reserved-Sealed packet e =
      elim (Result-cases (serialize_header header (length p + 16) out)) [
        | inl (headed, m) ↦
            let t = sealed_text packet headed m e in
            record {
              headed = headed;
              ciphertext = t.0;
              made = m;
              encrypted = t.1.0;
              joined = t.1.1.0;
              room = t.1.1.1;
            }
        | inr (x, m) ↦ unfold seal_reserved in ground arith
      ]

-- What the receiver of a packet finds in it.
pub record Delivered (aead : Aead) (s : Session) (counter : ℕ) (plaintext packet : List ℕ)
    : Type 0 where
  pub view : PacketView
  pub parses : parse_packet packet ≡ ok view
  pub same_counter : view.header.counter ≡ counter
  pub same_key_id : view.header.key_id ≡ s.remote_key_id
  pub opens :
      (receiver : Session) (room : ℕ)
      → receiver.receive_keys.key ≡ s.send_keys.key
      → length plaintext ≤ room
      → decrypt aead receiver view packet room ≡ ok plaintext

decrypted :
    (aead : Aead) (laws : AeadLaws aead) (receiver : Session) (view : PacketView)
    (packet head p c : List ℕ) (room : ℕ)
    → aead.encrypt receiver.receive_keys.key (aead_nonce view.header.counter) head p ≡ some c
    → take 16 packet ≡ head
    → view.payload ≡ c
    → 16 ≤ length packet
    → length p ≤ room
    → decrypt aead receiver view packet room ≡ ok p
unfolding decrypt open_text
decrypted aead laws receiver view packet head p c room e h q long fits =
    let size = laws.longer _ _ _ _ _ e in
    let back = laws.decrypts _ _ _ _ _ e in rw (h, q) (ground (arith, size, back))

module _ (aead : Aead) (laws : AeadLaws aead) (s : Session) (ft c : ℕ) (p out packet : List ℕ)
    (bytes : All IsByte out) (key_fits : s.remote_key_id < 2 ^ 16) (counter_fits : c < 2 ^ 64)
    (d : Sealed aead s ft c p out packet) where
  n : ℕ
  n = length p + 16

  h : PacketHeader
  unfolding n
  h = sealed_header s ft c n

  head : List ℕ
  head = take 16 d.headed

  fits : InRange h
  unfolding h
  fits = record {
    flags_fits = omega arith;
    key_id_fits = key_fits;
    header_length_fits = omega arith;
    counter_fits = counter_fits;
  }

  valid : Valid h n × (d.headed ≡ write_header h n out)
  unfolding h n
  valid =
      serialize_header-ok (sealed_header s ft c (length p + 16)) (length p + 16) out d.headed d.made

  headed-Holds : Holds h n d.headed
  headed-Holds =
      subst (Holds h n) (sym (valid.1 ∙ write_header-out6 h n out)) (
        write_header-Holds h n out fits bytes (omega (arith, d.room))
          (omega (arith, valid.0.small)))

  length-headed : length d.headed ≡ length out
  length-headed = ap (λ t. length t) (valid.1 ∙ write_header-out6 h n out) ∙ length-out6 h n out

  length-head : length head ≡ 16
  unfolding head
  length-head = omega (arith, length-take 16 d.headed, length-headed, d.room)

  length-ciphertext : length d.ciphertext ≡ n
  unfolding n
  length-ciphertext = laws.longer _ _ _ _ _ d.encrypted

  packet-Holds : Holds h n (head ++ d.ciphertext)
  unfolding head
  packet-Holds =
      Holds-ext h n d.headed (head ++ d.ciphertext)
        (λ j q.
          get_or-append_left head d.ciphertext j 0 (omega (arith, length-head))
          ∙ get_or-take 16 d.headed j 0 q)
        headed-Holds

  payload : drop 16 (head ++ d.ciphertext) ≡ d.ciphertext
  payload =
      ap (λ k. drop k (head ++ d.ciphertext)) (sym length-head) ∙ drop-append head d.ciphertext

  start : take 16 (head ++ d.ciphertext) ≡ head
  start = ap (λ k. take k (head ++ d.ciphertext)) (sym length-head) ∙ take-append head d.ciphertext

  delivered : Delivered aead s c p packet
  unfolding h n head
  delivered =
      let sized : length (head ++ d.ciphertext) ≡ 16 + n =
        length-append head d.ciphertext ∙ omega (arith, length-head, length-ciphertext) in
      record {
        view = record {
          header = record h { payload_length = n };
          payload = drop 16 (head ++ d.ciphertext);
        };
        parses =
            ap parse_packet d.joined
            ∙ parse_packet-Holds h n (head ++ d.ciphertext) valid.0 packet-Holds sized;
        same_counter = refl;
        same_key_id = refl;
        opens = λ receiver room same fits_.
            decrypted aead laws receiver _ packet head p d.ciphertext room
              (subst (λ k. aead.encrypt k (aead_nonce c) head p ≡ some d.ciphertext) (sym same)
                d.encrypted)
              (ap (take 16) d.joined ∙ start) payload
              (omega (arith, ap (λ t. length t) d.joined, sized)) fits_;
      }

-- A packet that `seal_reserved` makes parses to a header with the counter and the receiver's key
-- id, and a session that receives with the same key decrypts it to the plaintext.
pub seal_reserved-Delivered :
    (aead : Aead) (s : Session) (ft c : ℕ) (p out packet : List ℕ)
    → AeadLaws aead
    → All IsByte out
    → s.remote_key_id < 2 ^ 16
    → c < 2 ^ 64
    → seal_reserved aead s ft c p out ≡ ok packet
    → Delivered aead s c p packet
seal_reserved-Delivered aead s ft c p out packet laws bytes k m e =
    delivered aead laws s ft c p out packet bytes k m
      (seal_reserved-Sealed aead s ft c p out packet e)
