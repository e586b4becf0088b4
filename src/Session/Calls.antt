-- ===== src/Session/Calls.antt =====
-- The atomic calls of a session, in any order: what several threads do to it.
use norr.Prelude.{
  ℕ, ◌+◌, ◌≤◌, ◌<◌, ◌≡◌, ◌≢◌, refl, sym, ap, subst, ◌∙◌, true, false, List, [], ◌∷◌, ◌++◌, map,
  arith, All, ok, err, Bool-cases, inl, inr, if◌then◌else◌,
}
use norr.Nonce.{PacketCounter, nonce_loop, next, uint64_max, make_nonce}
use norr.Nonce.Laws.{Rising, make_nonce-injective}
use norr.Replay.{accepted, replayed, too_old, ReplayResult, empty_window, accept}
use norr.Replay.Once.{is_accepted, accepted_of, Distinct, accepted_of-Distinct}
use norr.Crypto.{aead_nonce, aead_nonce_loop}
use norr.Qos.{Instant, Endpoint}
use norr.Session.{
  Session, reserve_counter, check_window, note_authentication_failure, commit, note_recovered,
  take_loss_sample, note_authenticated_endpoint,
}

pub data Call : Type 0 where
  reserves : Call
  checks : ℕ → Call
  fails : Call
  commits : Instant → ℕ → Call
  recovers : Call
  samples : Call
  learns : Endpoint → Call

abbrev pub after_call : Call → Session → Session
after_call reserves s = (reserve_counter s).1
after_call (checks counter) s = (check_window counter s).1
after_call fails s = note_authentication_failure s
after_call (commits now counter) s = (commit now counter s).1
after_call recovers s = note_recovered s
after_call samples s = (take_loss_sample s).1
after_call (learns endpoint) s = note_authenticated_endpoint endpoint s

-- The counter that a call gives out for sealing.
abbrev pub given : Call → Session → List ℕ
given reserves s = elim (reserve_counter s).0 [ ok counter ↦ counter ∷ [] | err e ↦ [] ]
given _ s = []

-- The counter that a call lets through.
abbrev pub let_through : Call → Session → List ℕ
let_through (commits now counter) s = elim (commit now counter s).0 [
  | ok done ↦ counter ∷ []
  | err e ↦ []
]
let_through _ s = []

unfoldable pub all_given : List Call → Session → List ℕ
all_given [] s = []
all_given (c ∷ cs) s = given c s ++ all_given cs (after_call c s)

unfoldable pub all_let_through : List Call → Session → List ℕ
all_let_through [] s = []
all_let_through (c ∷ cs) s = let_through c s ++ all_let_through cs (after_call c s)

-- A call leaves the send counter alone, or draws from it and gives out what it drew.
data Drew (c : Call) (s : Session) : Type 0 where
  keeps : given c s ≡ [] → (after_call c s).send_counter ≡ s.send_counter → Drew c s
  draws :
      s.send_counter.exhausted ≡ false
      → given c s ≡ s.send_counter.value ∷ []
      → (after_call c s).send_counter ≡ (next s.send_counter).1
      → Drew c s

call-Drew : (c : Call) (s : Session) → Drew c s
unfolding reserve_counter next check_window note_authentication_failure commit note_recovered
    take_loss_sample note_authenticated_endpoint
call-Drew reserves s = ground arith
call-Drew (checks n) s = ground arith
call-Drew fails s = keeps refl refl
call-Drew (commits now n) s = ground arith
call-Drew recovers s = keeps refl refl
call-Drew samples s = ground arith
call-Drew (learns p) s = keeps refl refl

none_given : (cs : List Call) (s : Session) → s.send_counter.exhausted ≡ true → all_given cs s ≡ []
unfolding all_given
none_given [] s e = refl
none_given (c ∷ cs) s e = elim (call-Drew c s) [
  | keeps g k ↦ rw g (none_given cs (after_call c s) (ap (λ t. t.exhausted) k ∙ e))
  | draws f _ _ ↦ ground arith
]

data Advanced (c : PacketCounter) : Type 0 where
  advanced : (next c).1.value ≡ c.value + 1 → c.value + 1 ≤ uint64_max → Advanced c
  ended : (next c).1.exhausted ≡ true → Advanced c

next-Advanced : (c : PacketCounter) → c.exhausted ≡ false → c.value ≤ uint64_max → Advanced c
unfolding next
next-Advanced c e h = ground arith

-- The counters that a session gives out to all its callers rise from the counter's value on and
-- stay below 2 ^ 64: none is given out twice.
pub all_given-Rising :
    (cs : List Call) (s : Session)
    → s.send_counter.value ≤ uint64_max
    → Rising s.send_counter.value (all_given cs s)
unfolding all_given
all_given-Rising [] s h = tt
all_given-Rising (c ∷ cs) s h = elim (call-Drew c s) [
  | keeps g k ↦ rw g (
      subst (λ v. Rising v (all_given cs (after_call c s))) (ap (λ t. t.value) k)
        (all_given-Rising cs (after_call c s) (omega (arith, ap (λ t. t.value) k))))
  | draws f g k ↦ elim (next-Advanced s.send_counter f h) [
    | advanced v small ↦ rw g (
      omega arith,
      h,
      subst (λ v. Rising v (all_given cs (after_call c s))) (ap (λ t. t.value) k ∙ v)
          (all_given-Rising cs (after_call c s) (omega (arith, ap (λ t. t.value) k, v))),
    )
    | ended e ↦
        rw (g, none_given cs (after_call c s) (ap (λ t. t.exhausted) k ∙ e)) (omega arith, h, tt)
  ]
]

-- No two members are equal.
abbrev pub Different : List (List ℕ) → Type 0
Different [] = Unit {0}
Different (x ∷ xs) = All (λ y. y ≢ x) xs × Different xs

aead_nonce-make_nonce : (c : ℕ) → aead_nonce c ≡ make_nonce c
unfolding aead_nonce aead_nonce_loop make_nonce nonce_loop
aead_nonce-make_nonce c = refl

nonces_above :
    (x low : ℕ) (xs : List ℕ)
    → x < low
    → Rising low xs
    → All (λ n. n ≢ aead_nonce x) (map aead_nonce xs)
nonces_above x low [] h r = tt
nonces_above x low (y ∷ ys) h r = (
  λ e.
      let same : y ≡ x =
        make_nonce-injective y x (omega arith) (omega arith)
          (sym (aead_nonce-make_nonce y) ∙ e ∙ aead_nonce-make_nonce x) in
      omega arith,
  nonces_above x (y + 1) ys (omega arith) r.2,
)

Rising-Different : (low : ℕ) (xs : List ℕ) → Rising low xs → Different (map aead_nonce xs)
Rising-Different low [] r = tt
Rising-Different low (x ∷ xs) r =
    (nonces_above x (x + 1) xs (omega arith) r.2, Rising-Different (x + 1) xs r.2)

-- However many threads seal with a session, no two of the counters it gives out make the same nonce.
pub all_given-Different :
    (cs : List Call) (s : Session)
    → s.send_counter.value ≤ uint64_max
    → Different (map aead_nonce (all_given cs s))
all_given-Different cs s h =
    Rising-Different s.send_counter.value (all_given cs s) (all_given-Rising cs s h)

-- A call leaves the replay window alone, or makes it accept a counter.
data Committed (c : Call) (s : Session) : Type 0 where
  no_commit : let_through c s ≡ [] → (after_call c s).replay ≡ s.replay → Committed c s
  commit_of :
      (n : ℕ)
      → (after_call c s).replay ≡ (accept s.replay n).1
      → let_through c s ≡ (if is_accepted (accept s.replay n).0 then n ∷ [] else [])
      → Committed c s

commit_verdict :
    (now : Instant) (n : ℕ) (s : Session) (v : ReplayResult)
    → (accept s.replay n).0 ≡ v
    → ((commit now n s).1.replay ≡ (accept s.replay n).1)
      × (let_through (commits now n) s ≡ (if is_accepted v then n ∷ [] else []))
unfolding commit
commit_verdict now n s accepted e = ground (arith, e)
commit_verdict now n s replayed e = ground (arith, e)
commit_verdict now n s too_old e = ground (arith, e)

call-Committed : (c : Call) (s : Session) → Committed c s
unfolding reserve_counter next check_window note_authentication_failure commit note_recovered
    take_loss_sample note_authenticated_endpoint
call-Committed reserves s = ground arith
call-Committed (checks n) s = ground arith
call-Committed fails s = no_commit refl refl
call-Committed (commits now n) s =
    let v = commit_verdict now n s (accept s.replay n).0 refl in commit_of n v.0 v.1
call-Committed recovers s = no_commit refl refl
call-Committed samples s = ground arith
call-Committed (learns p) s = no_commit refl refl

-- The counters of the commits among the calls.
commits_of :
    (cs : List Call) (s : Session)
    → (ns : List ℕ) × (all_let_through cs s ≡ accepted_of s.replay ns)
unfolding all_let_through accepted_of
commits_of [] s = ([], refl)
commits_of (c ∷ cs) s = elim (call-Committed c s) [
  | no_commit none_ kept ↦
      let rest = commits_of cs (after_call c s) in
      (rest.0, rw none_ (rest.1 ∙ ap (λ w. accepted_of w rest.0) kept))
  | commit_of n moved verdict ↦
      let rest = commits_of cs (after_call c s) in
      let same = rest.1 ∙ ap (λ w. accepted_of w rest.0) moved in
      (
        n ∷ rest.0,
        elim (Bool-cases (is_accepted (accept s.replay n).0)) [
          | inl yes_ ↦ rw (verdict, yes_) (ap (◌∷◌ n) same)
          | inr no_ ↦ rw (verdict, no_) same
        ],
      )
]

-- In whatever order the threads that share a new session check, decrypt and commit, no counter is
-- committed twice.
pub all_let_through-Distinct :
    (cs : List Call) (s : Session) → s.replay ≡ empty_window → Distinct (all_let_through cs s)
all_let_through-Distinct cs s e =
    let found = commits_of cs s in
    subst Distinct (sym (found.1 ∙ ap (λ w. accepted_of w found.0) e))
      (accepted_of-Distinct found.0)
