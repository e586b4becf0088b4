-- ===== src/Session/Opening.antt =====
-- When a packet opens, and what a packet that does not open changes.
use norr.Prelude.{
  ℕ, ◌≡◌, ◌≢◌, refl, ◌⊎◌, inl, inr, false, List, arith, Result, ok, err, Result-cases,
}
use norr.Packet.{PacketView}
use norr.Replay.{ReplayResult, accepted, replayed, too_old, ReplayWindow, accept}
use norr.Crypto.{Aead}
use norr.Qos.{Instant}
use norr.Session.{
  Session, SessionError, replayed_packet, too_old_packet, check_window, decrypt, commit,
  note_authentication_failure, open_checked, open_packet,
}

-- A window that has accepted nothing has no highest counter.
abbrev pub Fresh : ReplayWindow → Type 0
Fresh w = w.initialized ≡ false → w.highest ≡ 0

module _ (aead : Aead) (now : Instant) (view : PacketView) (packet : List ℕ) (room : ℕ) where
  abbrev opened : Session → Result SessionError (List ℕ)
  opened s = (open_packet aead now view packet room s).0

  abbrev text : Session → Result SessionError (List ℕ)
  text s = decrypt aead s view packet room

  -- The check before decryption refuses only what the window refuses.
  check_agrees :
      (s : Session)
      → Fresh s.replay
      → ((check_window view.header.counter s).0 ≡ ok tt)
        ⊎ ((accept s.replay view.header.counter).0 ≡ too_old)
  unfolding check_window accept
  check_agrees s f = ground arith

  check_keeps :
      (s : Session)
      → (check_window view.header.counter s).0 ≡ ok tt
      → (check_window view.header.counter s).1 ≡ s
  unfolding check_window
  check_keeps s e = ground arith

  check_refuses :
      (s : Session) (e : SessionError)
      → (check_window view.header.counter s).0 ≡ err e
      → (check_window view.header.counter s).1.replay ≡ s.replay
  unfolding check_window
  check_refuses s e h = ground arith

  refused_window : (w : ReplayWindow) (n : ℕ) → (accept w n).0 ≢ accepted → (accept w n).1 ≡ w
  unfolding accept
  refused_window w n h = ground arith

  -- What `commit` makes of the window's verdict.
  data Decided (s : Session) : Type 0 where
    commits :
        (accept s.replay view.header.counter).0 ≡ accepted
        → (commit now view.header.counter s).0 ≡ ok tt
        → (commit now view.header.counter s).1.replay ≡ (accept s.replay view.header.counter).1
        → Decided s
    denies :
        (e : SessionError)
        → (accept s.replay view.header.counter).0 ≢ accepted
        → (commit now view.header.counter s).0 ≡ err e
        → (commit now view.header.counter s).1.replay ≡ s.replay
        → Decided s

  commit-Decided :
      (s : Session) (v : ReplayResult) → (accept s.replay view.header.counter).0 ≡ v → Decided s
  unfolding commit
  commit-Decided s accepted e = commits e (ground (arith, e)) (ground (arith, e))
  commit-Decided s replayed e =
      let n : (accept s.replay view.header.counter).0 ≢ accepted = ground (arith, e) in
      denies replayed_packet n (ground (arith, e))
        (ground (arith, e, refused_window s.replay view.header.counter n))
  commit-Decided s too_old e =
      let n : (accept s.replay view.header.counter).0 ≢ accepted = ground (arith, e) in
      denies too_old_packet n (ground (arith, e))
        (ground (arith, e, refused_window s.replay view.header.counter n))

  -- What opening a packet comes to.
  pub data Outcome (s : Session) (r : Result SessionError (List ℕ) × Session) : Type 0 where
    opens :
        (p : List ℕ)
        → text s ≡ ok p
        → (accept s.replay view.header.counter).0 ≡ accepted
        → r.0 ≡ ok p
        → r.1.replay ≡ (accept s.replay view.header.counter).1
        → Outcome s r
    refuses :
        (e : SessionError)
        → ((accept s.replay view.header.counter).0 ≢ accepted)
          ⊎ ((x : SessionError) × (text s ≡ err x))
        → r.0 ≡ err e
        → r.1.replay ≡ s.replay
        → Outcome s r

  open_checked-Outcome : (s : Session) → Outcome s (open_checked aead now view packet room s)
  unfolding open_checked note_authentication_failure
  open_checked-Outcome s = elim (Result-cases (decrypt aead s view packet room)) [
    | inr (x, d) ↦ refuses x (inr (x, d)) (ground (arith, d)) (ground (arith, d))
    | inl (p, d) ↦ elim (commit-Decided s (accept s.replay view.header.counter).0 refl) [
      | commits v c w ↦ opens p d v (ground (arith, d, c)) (ground (arith, d, c, w))
      | denies e v c w ↦ refuses e (inl v) (ground (arith, d, c)) (ground (arith, d, c, w))
    ]
  ]

  -- A packet opens, with its plaintext as the result, exactly when its text decrypts and the window
  -- accepts its counter; a packet that does not open gives an error and leaves the window as it was.
  pub open_packet-Outcome :
      (s : Session) → Fresh s.replay → Outcome s (open_packet aead now view packet room s)
  unfolding open_packet
  open_packet-Outcome s f = elim (Result-cases (check_window view.header.counter s).0) [
    | inl (done, c) ↦ rw (open_packet, c, check_keeps s c) (open_checked-Outcome s)
    | inr (e, c) ↦
        refuses e (inl (ground (arith, c, check_agrees s f))) (rw (open_packet, c) refl)
          (rw (open_packet, c) (check_refuses s e c))
  ]
