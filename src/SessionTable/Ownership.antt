-- ===== src/SessionTable/Ownership.antt =====
-- A peer's key id leads to a session of that peer, through rekeys, removals and expiry.
use norr.Prelude.{
  ℕ, ◌≡◌, ◌≢◌, refl, sym, ap, ◌∙◌, inl, inr, true, false, List, [], ◌∷◌, ◌++◌, arith, Option, some,
  ok, Option-cases, Bool-cases, if◌then◌else◌, ◌==◌,
}
use norr.Prelude.Maps.{
  find, has, erase, put, find-erase_ne, find-put_self, find-put_ne, has-find, has-erase_self,
}
use norr.Qos.{Instant}
use norr.Routing.{PeerId}
use norr.Session.{Session}
use norr.SessionTable.{Retired, SessionTable, forget_retired, replace_existing, install, is_retired}

-- The session that the table holds for a peer is that peer's, and it is not retired.
pub record OwnsAt (t : SessionTable) (p : PeerId) (k : ℕ) : Type 0 where
  pub session : Session
  pub held : find t.sessions k ≡ some session
  pub theirs : session.peer ≡ p
  pub current : is_retired k t.retired ≡ false

abbrev pub Owns : SessionTable → Type 0
Owns t = (p : PeerId) (k : ℕ) → find t.by_peer p ≡ some k → OwnsAt t p k

-- Two peers never share a key id.
one_owner :
    (t : SessionTable) (p q : PeerId) (k : ℕ)
    → Owns t
    → find t.by_peer p ≡ some k
    → find t.by_peer q ≡ some k
    → p ≡ q
one_owner t p q k o e f =
    let a = o p k e in
    let b = o q k f in
    let same : a.session ≡ b.session = some_injective (sym a.held ∙ b.held) in
    sym a.theirs ∙ ap (λ s. s.peer) same ∙ b.theirs
  where
    some_injective : {x y : Session} → ◌≡◌ {A = Option Session} (some x) (some y) → x ≡ y
    some_injective e = cc

is_retired-append :
    (k : ℕ) (rs : List Retired) (r : Retired)
    → is_retired k (rs ++ (r ∷ [])) ≡ (if is_retired k rs then true else r.key_id == k)
unfolding is_retired
is_retired-append k [] r = ground arith
is_retired-append k (x ∷ xs) r = ground (arith, is_retired-append k xs r)

pub is_retired-forget_retired_ne :
    (k j : ℕ) (rs : List Retired) → j ≢ k → is_retired j (forget_retired k rs) ≡ is_retired j rs
unfolding is_retired forget_retired
is_retired-forget_retired_ne k j [] n = refl
is_retired-forget_retired_ne k j (x ∷ xs) n = ground (arith, is_retired-forget_retired_ne k j xs n)

is_retired-forget_retired_self :
    (k : ℕ) (rs : List Retired) → is_retired k (forget_retired k rs) ≡ false
unfolding is_retired forget_retired
is_retired-forget_retired_self k [] = refl
is_retired-forget_retired_self k (x ∷ xs) = ground (arith, is_retired-forget_retired_self k xs)

-- What `install` has done before it stores the session, when no session has its key id.
record Replaced (peer : PeerId) (key_id : ℕ) (t r : SessionTable) : Type 0 where
  same_sessions : r.sessions ≡ t.sessions
  others : (p : PeerId) → p ≢ peer → find r.by_peer p ≡ find t.by_peer p
  others_current :
      (j : ℕ) → find t.by_peer peer ≢ some j → is_retired j r.retired ≡ is_retired j t.retired
  retires : (j : ℕ) → find t.by_peer peer ≡ some j → is_retired j r.retired ≡ true

replace_existing-Replaced :
    (now : Instant) (peer : PeerId) (key_id : ℕ) (t : SessionTable)
    → find t.by_peer peer ≢ some key_id
    → Replaced peer key_id t (replace_existing now peer key_id t)
unfolding replace_existing
replace_existing-Replaced now peer key_id t fresh = elim (Option-cases (find t.by_peer peer)) [
  | inl e ↦ record {
    same_sessions = ground (arith, e);
    others = λ p n. ground (arith, e);
    others_current = λ j n. ground (arith, e);
    retires = λ j f. ground (arith, e, f);
  }
  | inr (k, e) ↦
      let differs : (k == key_id) ≡ false = ground (arith, e, fresh) in
      record {
        same_sessions = ground (arith, e, differs);
        others = λ p n. ground (arith, e, differs, find-erase_ne peer p t.by_peer n);
        others_current = λ j n. ground (
          arith,
          e,
          differs,
          n,
          is_retired-append j t.retired (record { key_id = k; retired_at = now }),
        );
        retires = λ j f. ground (
          arith,
          e,
          differs,
          f,
          is_retired-append j t.retired (record { key_id = k; retired_at = now }),
        );
      }
]

-- What a successful `install` leaves, when no session had its key id.
pub record Installed (now : Instant) (peer : PeerId) (key_id : ℕ) (session : Session)
    (t u : SessionTable) : Type 0 where
  pub stored : find u.sessions key_id ≡ some session
  pub other_sessions : (j : ℕ) → j ≢ key_id → find u.sessions j ≡ find t.sessions j
  pub mapped : find u.by_peer peer ≡ some key_id
  pub other_peers : (p : PeerId) → p ≢ peer → find u.by_peer p ≡ find t.by_peer p
  pub not_retired : is_retired key_id u.retired ≡ false
  pub old_retired : (j : ℕ) → find t.by_peer peer ≡ some j → is_retired j u.retired ≡ true
  pub other_retired :
      (j : ℕ)
      → j ≢ key_id
      → find t.by_peer peer ≢ some j
      → is_retired j u.retired ≡ is_retired j t.retired

installed_table : PeerId → ℕ → Session → SessionTable → SessionTable
installed_table peer key_id session r = record r {
  sessions = put key_id session (erase key_id r.sessions);
  retired = forget_retired key_id r.retired;
  by_peer = put peer key_id r.by_peer;
}

install-ok :
    (now : Instant) (peer : PeerId) (key_id : ℕ) (session s : Session) (t : SessionTable)
    → (install now peer key_id session t).0 ≡ ok s
    → (install now peer key_id session t).1
      ≡ installed_table peer key_id session (replace_existing now peer key_id t)
unfolding install installed_table
install-ok now peer key_id session s t e =
    ground (arith, has-erase_self key_id (replace_existing now peer key_id t).sessions)

-- An owned key id is in use.
owned_used :
    (t : SessionTable) (p : PeerId) (k : ℕ)
    → Owns t
    → has t.sessions k ≡ false
    → find t.by_peer p ≢ some k
owned_used t p k o free e =
    let a = o p k e in ground (arith, free, has-find k a.session t.sessions a.held)

Replaced-Installed :
    (now : Instant) (peer : PeerId) (key_id : ℕ) (session : Session) (t r : SessionTable)
    → find t.by_peer peer ≢ some key_id
    → Replaced peer key_id t r
    → Installed now peer key_id session t (installed_table peer key_id session r)
unfolding installed_table
Replaced-Installed now peer key_id session t r fresh d = record {
  stored = find-put_self key_id session (erase key_id r.sessions);
  other_sessions = λ j n.
      find-put_ne key_id j session (erase key_id r.sessions) n
      ∙ find-erase_ne key_id j r.sessions n
      ∙ ap (λ m. find m j) d.same_sessions;
  mapped = find-put_self peer key_id r.by_peer;
  other_peers = λ p n. find-put_ne peer p key_id r.by_peer n ∙ d.others p n;
  not_retired = is_retired-forget_retired_self key_id r.retired;
  old_retired = λ j e.
      is_retired-forget_retired_ne key_id j r.retired (λ same. fresh (e ∙ ap some same))
      ∙ d.retires j e;
  other_retired = λ j n f. is_retired-forget_retired_ne key_id j r.retired n ∙ d.others_current j f;
}

-- A successful `install` under a key id that no session has gives the peer the new session, retires
-- the one it had without dropping it, and changes nothing for any other peer or key id.
pub install-Installed :
    (now : Instant) (peer : PeerId) (key_id : ℕ) (session s : Session) (t : SessionTable)
    → Owns t
    → has t.sessions key_id ≡ false
    → (install now peer key_id session t).0 ≡ ok s
    → Installed now peer key_id session t (install now peer key_id session t).1
install-Installed now peer key_id session s t o free e =
    let fresh = owned_used t peer key_id o free in
    rw (install-ok now peer key_id session s t e) (
      Replaced-Installed now peer key_id session t (replace_existing now peer key_id t) fresh
        (replace_existing-Replaced now peer key_id t fresh))

pub install-Owns :
    (now : Instant) (peer : PeerId) (key_id : ℕ) (session : Session) (t u : SessionTable)
    → Owns t
    → has t.sessions key_id ≡ false
    → session.peer ≡ peer
    → Installed now peer key_id session t u
    → Owns u
install-Owns now peer key_id session t u o free same d p k e = elim (Bool-cases (p == peer)) [
  | inl c ↦
      let q : p ≡ peer = ground (arith, c) in
      let l : k ≡ key_id = key_of (sym e ∙ ap (find u.by_peer) q ∙ d.mapped) in
      record {
        session = session;
        held = ap (find u.sessions) l ∙ d.stored;
        theirs = same ∙ sym q;
        current = ap (λ j. is_retired j u.retired) l ∙ d.not_retired;
      }
  | inr c ↦
      let q : p ≢ peer = ground (arith, c) in
      let before : find t.by_peer p ≡ some k = sym (d.other_peers p q) ∙ e in
      let a = o p k before in
      let l : k ≢ key_id = λ m. owned_used t p key_id o free (before ∙ ap some m) in
      let n : find t.by_peer peer ≢ some k = λ m. q (one_owner t p peer k o before m) in
      record {
        session = a.session;
        held = d.other_sessions k l ∙ a.held;
        theirs = a.theirs;
        current = d.other_retired k l n ∙ a.current;
      }
]
  where
    key_of : {x y : ℕ} → ◌≡◌ {A = Option ℕ} (some x) (some y) → x ≡ y
    key_of e = cc
