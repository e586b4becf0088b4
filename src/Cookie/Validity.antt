-- ===== src/Cookie/Validity.antt =====
-- src/cookie.cpp: how long a cookie is good for.
use norr.Prelude.{
  ℕ, ◌+◌, ◌≤◌, ◌<◌, ◌≡◌, ◌⊎◌, refl, sym, ap, subst, replicate, ◌∙◌, Bool, true, inl, inr, ◌&&◌,
  ◌||◌, List, [], ◌∷◌, arith, ◌==◌, ==_refl, if◌then◌else◌, length, All, Option, none, some,
  Option-cases, Bool-cases, Result, ok,
}
use norr.Address.{bytes}
use norr.Qos.{Instant, Endpoint}
use norr.Cookie.{
  CookieError, CookieReply, CookieIssuer, CookieHolder, Sodium, SodiumLaws, constant_time_equal,
  keyed_mac, check, refresh, set_under_load, compute_cookie, verify_mac2, sealed_cookie,
  build_reply, accepted, accept_reply, compute_mac2, mac_size, cookie_secret_lifetime,
}

-- The calls that change an issuer, with their times and what they draw.
pub data Call : Type 0 where
  refreshes : Instant → Option (List ℕ) → Call
  sets_under_load : Bool → Call
  computes : Endpoint → Instant → Option (List ℕ) → Call
  replies : Endpoint → ℕ → List ℕ → Instant → Option (List ℕ) → Option (List ℕ) → Call
  verifies : Endpoint → List ℕ → List ℕ → Instant → Option (List ℕ) → Call

unfoldable pub after_call : Sodium → Call → CookieIssuer → CookieIssuer
unfolding set_under_load compute_cookie build_reply verify_mac2
after_call sodium (refreshes now draw) i = refresh i now draw
after_call sodium (sets_under_load value) i = set_under_load i value
after_call sodium (computes source now draw) i = (compute_cookie i source now draw).1
after_call sodium (replies source index mac1 now draw nonce_draw) i =
    (build_reply sodium i source index mac1 now draw nonce_draw).1
after_call sodium (verifies source message mac2 now draw) i =
    (verify_mac2 sodium i source message mac2 now draw).1

unfoldable pub after_calls : Sodium → List Call → CookieIssuer → CookieIssuer
unfolding after_call
after_calls sodium [] i = i
after_calls sodium (c ∷ calls) i = after_calls sodium calls (after_call sodium c i)

-- A call comes no later than an instant.
unfoldable pub Until : Instant → Call → Type 0
Until end (refreshes now draw) = now ≤ end
Until end (sets_under_load value) = Unit {0}
Until end (computes source now draw) = now ≤ end
Until end (replies source index mac1 now draw nonce_draw) = now ≤ end
Until end (verifies source message mac2 now draw) = now ≤ end

-- A secret that was current at an instant is still one of the two.
unfoldable pub Remembers : Instant → List ℕ → CookieIssuer → Type 0
Remembers t secret i =
    ((i.secret ≡ secret)
      × ((1 ≤ i.secret_created) × (t < i.secret_created + cookie_secret_lifetime)))
    ⊎ ((i.previous_secret ≡ secret)
        × ((i.has_previous ≡ true) × ((1 ≤ i.secret_created) × (t < i.secret_created))))

refresh-current :
    (i : CookieIssuer) (t : Instant) (draw : Option (List ℕ))
    → 1 ≤ t
    → (1 ≤ (refresh i t draw).secret_created)
      × (t < (refresh i t draw).secret_created + cookie_secret_lifetime)
unfolding refresh
refresh-current i t draw start = ground arith

refresh-Remembers :
    (i : CookieIssuer) (t now : Instant) (secret : List ℕ) (draw : Option (List ℕ))
    → now ≤ t + cookie_secret_lifetime
    → Remembers t secret i
    → Remembers t secret (refresh i now draw)
unfolding refresh Remembers
refresh-Remembers i t now secret draw soon (inl (e, (created, young))) = ground arith
refresh-Remembers i t now secret draw soon (inr (e, (has, (created, later)))) = ground arith

load-Remembers :
    (i : CookieIssuer) (t : Instant) (secret : List ℕ) (value : Bool)
    → Remembers t secret i
    → Remembers t secret (set_under_load i value)
unfolding Remembers set_under_load
load-Remembers i t secret value h = h

after_call-Remembers :
    (sodium : Sodium) (c : Call) (i : CookieIssuer) (t : Instant) (secret : List ℕ)
    → Until (t + cookie_secret_lifetime) c
    → Remembers t secret i
    → Remembers t secret (after_call sodium c i)
unfolding after_call Until compute_cookie build_reply verify_mac2
after_call-Remembers sodium (refreshes now draw) i t secret soon h =
    refresh-Remembers i t now secret draw soon h
after_call-Remembers sodium (sets_under_load value) i t secret soon h =
    load-Remembers i t secret value h
after_call-Remembers sodium (computes source now draw) i t secret soon h =
    refresh-Remembers i t now secret draw soon h
after_call-Remembers sodium (replies source index mac1 now draw nonce_draw) i t secret soon h =
    refresh-Remembers i t now secret draw soon h
after_call-Remembers sodium (verifies source message mac2 now draw) i t secret soon h =
    refresh-Remembers i t now secret draw soon h

after_calls-Remembers :
    (sodium : Sodium) (calls : List Call) (i : CookieIssuer) (t : Instant) (secret : List ℕ)
    → All (Until (t + cookie_secret_lifetime)) calls
    → Remembers t secret i
    → Remembers t secret (after_calls sodium calls i)
unfolding after_calls
after_calls-Remembers sodium [] i t secret soon h = h
after_calls-Remembers sodium (c ∷ calls) i t secret soon h =
    after_calls-Remembers sodium calls (after_call sodium c i) t secret soon.1
      (after_call-Remembers sodium c i t secret soon.0 h)

constant_time_equal_self :
    (sodium : Sodium) → SodiumLaws sodium → (a : List ℕ) → constant_time_equal sodium a a ≡ true
unfolding constant_time_equal
constant_time_equal_self sodium laws a =
    rw (==_refl (length a)) (elim (Bool-cases (length a == 0)) [
      | inl e ↦ rw e refl
      | inr e ↦ rw e ((laws.same a a refl).1 refl)
    ])

constant_time_equal_same :
    (sodium : Sodium)
    → SodiumLaws sodium
    → (a b : List ℕ) → a ≡ b
    → constant_time_equal sodium a b ≡ true
constant_time_equal_same sodium laws a b e =
    ap (constant_time_equal sodium a) (sym e) ∙ constant_time_equal_self sodium laws a

check_same :
    (sodium : Sodium)
    → SodiumLaws sodium
    → (source : Endpoint) (message mac2 secret kept : List ℕ) → kept ≡ secret
    → keyed_mac (keyed_mac secret (bytes source.address)) message ≡ mac2
    → check sodium source message mac2 kept ≡ true
unfolding check
check_same sodium laws source message mac2 secret kept e same =
    constant_time_equal_same sodium laws _ mac2
      (ap (λ s. keyed_mac (keyed_mac s (bytes source.address)) message) e ∙ same)

or_right : (a b c : Bool) → b ≡ true → c ≡ true → (a || (b && c)) ≡ true
or_right a b c p q = ground arith

or_left : (a b : Bool) → a ≡ true → (a || b) ≡ true
or_left a b p = ground arith

verify_mac2-Remembers :
    (sodium : Sodium) (i : CookieIssuer) (source : Endpoint) (message mac2 secret : List ℕ)
    (t now : Instant) (draw : Option (List ℕ))
    → SodiumLaws sodium
    → Remembers t secret (refresh i now draw)
    → keyed_mac (keyed_mac secret (bytes source.address)) message ≡ mac2
    → (verify_mac2 sodium i source message mac2 now draw).0 ≡ true
unfolding verify_mac2 Remembers
verify_mac2-Remembers sodium i source message mac2 secret t now draw laws (inl (e, rest)) same =
    or_left _ _ (check_same sodium laws source message mac2 secret _ e same)
verify_mac2-Remembers sodium i source message mac2 secret t now draw laws (inr (e, (has, rest)))
      same =
    or_right _ _ _ has (check_same sodium laws source message mac2 secret _ e same)

sealed_cookie-encrypt :
    (sodium : Sodium) (key cookie mac1 : List ℕ) (index : ℕ) (nonce_draw : Option (List ℕ))
    (reply : CookieReply)
    → sealed_cookie sodium key cookie index mac1 nonce_draw ≡ ok reply
    → sodium.aead.encrypt key reply.nonce mac1 cookie ≡ some reply.encrypted_cookie
unfolding sealed_cookie
sealed_cookie-encrypt sodium key cookie mac1 index none reply e = ground arith
sealed_cookie-encrypt sodium key cookie mac1 index (some n) reply e =
    elim (Option-cases (sodium.aead.encrypt key n mac1 cookie)) [
      | inl fails ↦ ground arith
      | inr found ↦ ground arith
    ]

accept_reply_lem :
    (sodium : Sodium) (h : CookieHolder) (reply : CookieReply) (mac1 cookie : List ℕ)
    (now : Instant)
    → sodium.aead.decrypt h.cookie_key reply.nonce mac1 reply.encrypted_cookie ≡ some cookie
    → accept_reply sodium h reply mac1 now
      ≡ (ok tt, record h { cookie = cookie; received = now; has_cookie = true })
unfolding accept_reply accepted
accept_reply_lem sodium h reply mac1 cookie now e = ap (accepted h now) e

build_reply-parts :
    (sodium : Sodium) (i after : CookieIssuer) (source : Endpoint) (index : ℕ) (mac1 : List ℕ)
    (t : Instant) (draw nonce_draw : Option (List ℕ)) (reply : CookieReply)
    → build_reply sodium i source index mac1 t draw nonce_draw ≡ (ok reply, after)
    → (sealed_cookie sodium
          (refresh i t draw).cookie_key
          (keyed_mac (refresh i t draw).secret (bytes source.address))
          index
          mac1
          nonce_draw
        ≡ ok reply)
      × (refresh i t draw ≡ after)
unfolding build_reply compute_cookie
build_reply-parts sodium i after source index mac1 t draw nonce_draw reply e = (
  ap (λ (r : Result CookieError CookieReply × CookieIssuer). r.0) e,
  ap (λ (r : Result CookieError CookieReply × CookieIssuer). r.1) e,
)

refresh-cookie_key :
    (i : CookieIssuer) (t : Instant) (draw : Option (List ℕ))
    → (refresh i t draw).cookie_key ≡ i.cookie_key
unfolding refresh
refresh-cookie_key i t draw = ground arith

refresh-Remembers_now :
    (i : CookieIssuer) (t : Instant) (draw : Option (List ℕ))
    → 1 ≤ t
    → Remembers t (refresh i t draw).secret (refresh i t draw)
unfolding Remembers
refresh-Remembers_now i t draw start = inl (refl, refresh-current i t draw start)

compute_mac2_held :
    (h : CookieHolder) (message : List ℕ)
    → h.has_cookie ≡ true
    → compute_mac2 h message ≡ keyed_mac h.cookie message
unfolding compute_mac2
compute_mac2_held h message e =
    ap (λ b. if b then keyed_mac h.cookie message else replicate mac_size 0) e

-- What a responder under load promises: a client that takes the reply to its first message gets
-- the cookie out of it, and the second code that it computes with the cookie, for any message, is
-- accepted for two minutes from the reply on, whatever other calls the responder serves until then
-- and however often it changes its secret.
pub build_reply-Admits :
    (sodium : Sodium) (i after : CookieIssuer) (h : CookieHolder) (source : Endpoint) (index : ℕ)
    (mac1 message : List ℕ) (t arrival now : Instant) (draw nonce_draw later : Option (List ℕ))
    (reply : CookieReply) (calls : List Call)
    → SodiumLaws sodium
    → h.cookie_key ≡ i.cookie_key
    → 1 ≤ t
    → build_reply sodium i source index mac1 t draw nonce_draw ≡ (ok reply, after)
    → All (Until (t + cookie_secret_lifetime)) calls
    → now ≤ t + cookie_secret_lifetime
    → ((accept_reply sodium h reply mac1 arrival).0 ≡ ok tt)
      × ((verify_mac2 sodium
            (after_calls sodium calls after)
            source
            message
            (compute_mac2 (accept_reply sodium h reply mac1 arrival).1 message)
            now
            later).0
          ≡ true)
build_reply-Admits sodium i after h source index mac1 message t arrival now draw nonce_draw later
      reply calls laws key start e soon timely =
    let fresh = refresh i t draw in
    let parts = build_reply-parts sodium i after source index mac1 t draw nonce_draw reply e in
    let cookie = keyed_mac fresh.secret (bytes source.address) in
    let sealed =
      sealed_cookie-encrypt sodium fresh.cookie_key cookie mac1 index nonce_draw reply parts.0 in
    let decrypted : sodium.aead.decrypt h.cookie_key reply.nonce mac1 reply.encrypted_cookie
        ≡ some cookie =
      ap (λ k. sodium.aead.decrypt k reply.nonce mac1 reply.encrypted_cookie)
        (key ∙ sym (refresh-cookie_key i t draw))
      ∙ laws.laws.decrypts _ _ _ _ _ sealed in
    let holds = accept_reply_lem sodium h reply mac1 cookie arrival decrypted in
    let held : CookieHolder = record h { cookie = cookie; received = arrival; has_cookie = true } in
    let known = subst (Remembers t fresh.secret) parts.1 (refresh-Remembers_now i t draw start) in
    let last = after_calls sodium calls after in
    (
      ap (λ (r : Result CookieError (Unit {0}) × CookieHolder). r.0) holds,
      verify_mac2-Remembers sodium last source message _ fresh.secret t now later laws
          (refresh-Remembers last t now fresh.secret later timely
            (after_calls-Remembers sodium calls after t fresh.secret soon known))
          (sym (
            ap (λ (r : Result CookieError (Unit {0}) × CookieHolder). compute_mac2 r.1 message)
              holds
            ∙ compute_mac2_held held message refl)),
    )
