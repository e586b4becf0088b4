-- ===== src/SessionTable/Lifetime.antt =====
-- The tables that the calls of a program make, and what they keep.
use norr.Prelude.{
  ℕ, ◌≡◌, ◌≢◌, refl, sym, ap, subst, ◌∙◌, inl, inr, false, List, [], ◌∷◌, arith, Option, some, err,
  Option-cases, Result-cases, Bool-cases, ◌==◌,
}
use norr.Prelude.Maps.{find, has, erase, find-erase_self, find-erase_ne, has-erase_self}
use norr.Qos.{Instant}
use norr.Routing.{PeerId}
use norr.Session.{Session, SessionError}
use norr.SessionTable.{
  Retired, SessionTable, empty_table, allocate_key_id, forget_retired, install, is_retired,
  find_by_key_id, expire_loop, expire_retired, find_by_peer, unmap, remove, replace_existing,
}
use norr.SessionTable.Ownership.{
  Owns, install-Installed, install-Owns, is_retired-forget_retired_ne,
}

find-unmap :
    (q : PeerId) (key_id : ℕ) (m : List (ℕ × ℕ)) (p k : ℕ)
    → find (unmap q key_id m) p ≡ some k
    → (find m p ≡ some k) × (p ≡ q → k ≢ key_id)
find-unmap q key_id m p k e = elim (Option-cases (find m q)) [
  | inl n ↦ (ground (arith, n), λ same l. ground (arith, n, ap (find m) same))
  | inr (l, f) ↦ elim (Bool-cases (p == q)) [
    | inl c ↦
        let same : p ≡ q = ground (arith, c) in
        (
          ground (arith, f, ap (find m) same, find-erase_self q m, ap (find (erase q m)) same),
          λ s t.
              ground
                (arith, f, t, ap (find m) same, find-erase_self q m, ap (find (erase q m)) same),
        )
    | inr c ↦
        let differs : p ≢ q = ground (arith, c) in
        (ground (arith, f, find-erase_ne q p m differs), λ s t. differs s)
  ]
]

abbrev removed : Session → ℕ → SessionTable → SessionTable
removed s key_id t = record t {
  retired = forget_retired key_id t.retired;
  by_peer = unmap s.peer key_id t.by_peer;
  sessions = erase key_id t.sessions;
}

removed-Owns :
    (s : Session) (key_id : ℕ) (t : SessionTable)
    → find t.sessions key_id ≡ some s
    → Owns t
    → Owns (removed s key_id t)
removed-Owns s key_id t e o p k f =
    let g = find-unmap s.peer key_id t.by_peer p k f in
    let a = o p k g.0 in
    let n : k ≢ key_id = λ m.
      g.1 (sym a.theirs ∙ ap (λ x. x.peer) (same_session (sym a.held ∙ ap (find t.sessions) m ∙ e)))
        m in
    record {
      session = a.session;
      held = find-erase_ne key_id k t.sessions n ∙ a.held;
      theirs = a.theirs;
      current = is_retired-forget_retired_ne key_id k t.retired n ∙ a.current;
    }
  where
    same_session : {x y : Session} → ◌≡◌ {A = Option Session} (some x) (some y) → x ≡ y
    same_session e = cc

remove-Owns : (key_id : ℕ) (t : SessionTable) → Owns t → Owns (remove key_id t)
unfolding remove
remove-Owns key_id t o = elim (Option-cases (find t.sessions key_id)) [
  | inl e ↦ let same : remove key_id t ≡ t = rw (remove, e) refl in subst Owns (sym same) o
  | inr (s, e) ↦
      let same : remove key_id t ≡ removed s key_id t = rw (remove, e) refl in
      subst Owns (sym same) (removed-Owns s key_id t e o)
]

expire_loop-find :
    (now : Instant) (rs : List Retired) (m : List (ℕ × Session)) (j : ℕ)
    → is_retired j rs ≡ false
    → (find (expire_loop now rs m).1 j ≡ find m j) × (is_retired j (expire_loop now rs m).0 ≡ false)
unfolding expire_loop is_retired
expire_loop-find now [] m j h = (refl, refl)
expire_loop-find now (r ∷ rs) m j h = ground (
  arith,
  expire_loop-find now rs m j,
  expire_loop-find now rs (erase r.key_id m) j,
  find-erase_ne r.key_id j m,
)

expire_retired-Owns : (now : Instant) (t : SessionTable) → Owns t → Owns (expire_retired now t)
unfolding expire_retired
expire_retired-Owns now t o p k e =
    let a = o p k e in
    let f = expire_loop-find now t.retired t.sessions k a.current in
    record { session = a.session; held = f.0 ∙ a.held; theirs = a.theirs; current = f.1 }

find_by_key_id-kept :
    (key_id : ℕ) (t : SessionTable)
    → ((find_by_key_id key_id t).1.sessions ≡ t.sessions)
      × ((find_by_key_id key_id t).1.by_peer ≡ t.by_peer)
      × ((find_by_key_id key_id t).1.retired ≡ t.retired)
unfolding find_by_key_id
find_by_key_id-kept key_id t = ground arith

allocate_key_id-kept :
    (t : SessionTable)
    → ((allocate_key_id t).1.sessions ≡ t.sessions)
      × ((allocate_key_id t).1.by_peer ≡ t.by_peer)
      × ((allocate_key_id t).1.retired ≡ t.retired)
unfolding allocate_key_id
allocate_key_id-kept t = ground arith

Owns-same :
    (t u : SessionTable)
    → (u.sessions ≡ t.sessions) × (u.by_peer ≡ t.by_peer) × (u.retired ≡ t.retired)
    → Owns t
    → Owns u
Owns-same t u (s, b, r) o p k e =
    let a = o p k (ap (λ m. find m p) (sym b) ∙ e) in
    record {
      session = a.session;
      held = ap (λ m. find m k) s ∙ a.held;
      theirs = a.theirs;
      current = ap (is_retired k) r ∙ a.current;
    }

install-err :
    (now : Instant) (peer : PeerId) (key_id : ℕ) (session : Session) (t : SessionTable)
    (x : SessionError)
    → (install now peer key_id session t).0 ≡ err x
    → (install now peer key_id session t).1 ≡ t
unfolding install
install-err now peer key_id session t x e =
    ground (arith, has-erase_self key_id (replace_existing now peer key_id t).sessions)

find_by_peer-kept :
    (p : PeerId) (t : SessionTable)
    → ((find_by_peer p t).1.sessions ≡ t.sessions)
      × ((find_by_peer p t).1.by_peer ≡ t.by_peer)
      × ((find_by_peer p t).1.retired ≡ t.retired)
unfolding find_by_peer
find_by_peer-kept p t = elim (Option-cases (find t.by_peer p)) [
  | inl e ↦ ground (arith, e)
  | inr (k, e) ↦ ground (arith, e, find_by_key_id-kept k t)
]

-- The tables that the calls make of the empty one, where a session is installed for its own peer and
-- under a key id that no session has, as `allocate_key_id` gives it.
pub data Reached : SessionTable → Type 0 where
  start : Reached empty_table
  allocates : {t : SessionTable} → Reached t → Reached (allocate_key_id t).1
  installs :
      {t : SessionTable} (now : Instant) (peer : PeerId) (key_id : ℕ) (session : Session)
      → Reached t
      → has t.sessions key_id ≡ false
      → session.peer ≡ peer
      → Reached (install now peer key_id session t).1
  removes : {t : SessionTable} (key_id : ℕ) → Reached t → Reached (remove key_id t)
  expires : {t : SessionTable} (now : Instant) → Reached t → Reached (expire_retired now t)
  finds : {t : SessionTable} (key_id : ℕ) → Reached t → Reached (find_by_key_id key_id t).1
  finds_peer : {t : SessionTable} (p : PeerId) → Reached t → Reached (find_by_peer p t).1

empty-Owns : Owns empty_table
unfolding find
empty-Owns p k e = ground arith

pub Reached-Owns : (t : SessionTable) → Reached t → Owns t
Reached-Owns _ start = empty-Owns
Reached-Owns _ (allocates {t} r) =
    Owns-same t (allocate_key_id t).1 (allocate_key_id-kept t) (Reached-Owns t r)
Reached-Owns _ (installs {t} now peer key_id session r free same) =
    let o = Reached-Owns t r in
    elim (Result-cases (install now peer key_id session t).0) [
      | inl (s, e) ↦
          install-Owns now peer key_id session t (install now peer key_id session t).1 o free same
            (install-Installed now peer key_id session s t o free e)
      | inr (x, e) ↦ subst Owns (sym (install-err now peer key_id session t x e)) o
    ]
Reached-Owns _ (removes {t} key_id r) = remove-Owns key_id t (Reached-Owns t r)
Reached-Owns _ (expires {t} now r) = expire_retired-Owns now t (Reached-Owns t r)
Reached-Owns _ (finds {t} key_id r) =
    Owns-same t (find_by_key_id key_id t).1 (find_by_key_id-kept key_id t) (Reached-Owns t r)
Reached-Owns _ (finds_peer {t} p r) =
    Owns-same t (find_by_peer p t).1 (find_by_peer-kept p t) (Reached-Owns t r)

found : (key_id : ℕ) (t : SessionTable) → (find_by_key_id key_id t).0 ≡ find t.sessions key_id
unfolding find_by_key_id
found key_id t = ground arith

-- Whatever calls made the table, the session found for a peer is that peer's, and it is found
-- whenever the peer has a key id: expiry and the retiring of other sessions never take it away.
pub find_by_peer-Owns :
    (t : SessionTable) (p : PeerId) (k : ℕ)
    → Reached t
    → find t.by_peer p ≡ some k
    → (s : Session) × ((find_by_peer p t).0 ≡ some s) × (s.peer ≡ p)
unfolding find_by_peer
find_by_peer-Owns t p k r e =
    let a = Reached-Owns t r p k e in (a.session, ground (arith, e, found k t ∙ a.held), a.theirs)
