-- ===== src/Cookie/Tests.antt =====
-- A responder that changes its secret between its reply and the client's second message. The cipher
-- puts sixteen zeros before the text.
use norr.Prelude.{
  ℕ, ◌+◌, ◌*◌, ◌≡◌, refl, sym, ap, ap₂, ◌∙◌, Bool, true, ◌&&◌, List, [], ◌∷◌, ◌++◌, arith, ==_iff,
  ◌==◌, length, length-append, drop, replicate, Option, some, none, ok, All,
}
use norr.Address.{from_bytes, ipv4, octets_eq}
use norr.Qos.{Endpoint}
use norr.Cookie.{
  Sodium, SodiumLaws, CookieReply, CookieIssuer, new_issuer, new_holder, keyed_mac, refresh,
  compute_cookie, sealed_cookie, build_reply, accept_reply, verify_mac2, compute_mac2,
  cookie_secret_lifetime,
}
use norr.Cookie.Validity.{Call, refreshes, sets_under_load, Until, after_calls, build_reply-Admits}

abbrev plain : Sodium
plain = record {
  aead = record {
    encrypt = λ k n ad p. some (replicate 16 0 ++ p);
    decrypt = λ k n ad c. some (drop 16 c);
  };
  memcmp = octets_eq;
}

octets_eq_self : (a : List ℕ) → octets_eq a a ≡ true
unfolding octets_eq
octets_eq_self [] = refl
octets_eq_self (x ∷ a) = ap₂ (λ p q. p && q) ((==_iff x x).1 refl) (octets_eq_self a)

and_true : (p q : Bool) → (p && q) ≡ true → (p ≡ true) × (q ≡ true)
and_true p q e = ground arith

octets_eq_sound : (a b : List ℕ) → octets_eq a b ≡ true → a ≡ b
unfolding octets_eq
octets_eq_sound [] [] e = refl
octets_eq_sound [] (y ∷ b) e = ground arith
octets_eq_sound (x ∷ a) [] e = ground arith
octets_eq_sound (x ∷ a) (y ∷ b) e =
    let both = and_true (x == y) (octets_eq a b) e in
    ap₂ (λ z c. z ∷ c) ((==_iff x y).0 both.0) (octets_eq_sound a b both.1)

some_of : {a b : List ℕ} → ◌≡◌ {A = Option (List ℕ)} (some a) (some b) → a ≡ b
some_of e = cc

plain-SodiumLaws : SodiumLaws plain
plain-SodiumLaws = record {
  laws = record {
    longer = λ k n ad p c e.
        ap (λ t. length t) (sym (some_of e)) ∙ omega (arith, length-append (replicate 16 0) p);
    decrypts = λ k n ad p c e. ap (λ t. some (drop 16 t)) (sym (some_of e));
  };
  same = λ a b e. (octets_eq_sound a b, λ q. ap (octets_eq a) (sym q) ∙ octets_eq_self a);
}

abbrev client : Endpoint
client = record { address = from_bytes ipv4 (10 ∷ 0 ∷ 0 ∷ 7 ∷ []); port = 4000 }

abbrev issuer : CookieIssuer
issuer = new_issuer (replicate 32 3)

abbrev seconds : ℕ → ℕ
seconds n = n * 1000000000

-- The secret is drawn at one minute, and replaced at three.
abbrev after_reply : CookieIssuer
after_reply = refresh (refresh issuer (seconds 60) (some (replicate 32 8))) (seconds 90) none

abbrev visits : List Call
visits = sets_under_load true ∷ refreshes (seconds 185) (some (replicate 32 9)) ∷ []

-- The reply to the client, under a nonce of zeros.
abbrev reply : CookieReply
reply = record {
  receiver_index = 77;
  nonce = replicate 24 0;
  encrypted_cookie = replicate 16 0 ++ keyed_mac (replicate 32 8) (10 ∷ 0 ∷ 0 ∷ 7 ∷ []);
}

abbrev started : CookieIssuer
started = refresh issuer (seconds 60) (some (replicate 32 8))

reply_built :
    build_reply plain started client 77 (replicate 16 1) (seconds 90) none (some (replicate 24 0))
    ≡ (ok reply, after_reply)
unfolding build_reply compute_cookie sealed_cookie refresh new_issuer from_bytes
reply_built = refl

same_key : (new_holder (replicate 32 3)).cookie_key ≡ started.cookie_key
unfolding new_holder refresh new_issuer
same_key = refl

visits-Until : All (Until (seconds 90 + cookie_secret_lifetime)) visits
unfolding Until
visits-Until = (tt, (omega arith, tt))

build_reply-Admits_example :
    ((accept_reply plain (new_holder (replicate 32 3)) reply (replicate 16 1) (seconds 91)).0
      ≡ ok tt)
    × ((verify_mac2 plain
          (after_calls plain visits after_reply)
          client
          (5 ∷ 6 ∷ [])
          (compute_mac2
            (accept_reply plain (new_holder (replicate 32 3)) reply (replicate 16 1) (seconds 91)).1
            (5 ∷ 6 ∷ []))
          (seconds 209)
          none).0
        ≡ true)
build_reply-Admits_example =
    build_reply-Admits plain started after_reply (new_holder (replicate 32 3)) client 77
      (replicate 16 1) (5 ∷ 6 ∷ []) (seconds 90) (seconds 91) (seconds 209) none
      (some (replicate 24 0)) none reply visits plain-SodiumLaws same_key (omega arith) reply_built
      visits-Until (omega arith)
