-- ===== src/SessionTable.antt =====
-- The SessionTable of src/session.cpp, include/norr/session.hpp: the sessions by key id and by peer.
-- The table holds its sessions through shared pointers; it reads only the peer of a session, which
-- never changes, so a session here is its value.
pub mod Allocation
pub mod Ownership
pub mod Lifetime
pub mod Tests
use norr.Prelude.{
  ℕ, zero, suc, ◌+◌, ◌-◌, ◌%◌, ◌^◌, Bool, true, false, not, ◌&&◌, ◌||◌, List, [], ◌∷◌, ◌++◌, ltb,
  leb, ◌==◌, if◌then◌else◌, length, Option, none, some, Result, ok, err,
}
use norr.Prelude.Bytes.{u64}
use norr.Prelude.Maps.{find, has, erase, put}
use norr.Packet.{pre_session_key_id}
use norr.Qos.{Instant}
use norr.Routing.{PeerId, no_peer}
use norr.Session.{
  Session, SessionError, unknown_peer, unknown_key_id, key_id_exhausted, too_many_sessions,
}

abbrev pub maximum_sessions : ℕ
maximum_sessions = 1024

-- kRetireAfter, ten seconds.
abbrev pub retire_after : Instant
retire_after = 10000000000

pub record Retired : Type 0 where
  pub key_id : ℕ
  pub retired_at : Instant

pub record SessionTable : Type 0 where
  pub sessions : List (ℕ × Session)
  pub by_peer : List (ℕ × ℕ)
  pub retired : List Retired
  pub retired_receives : ℕ
  pub next_key_id : ℕ

abbrev pub empty_table : SessionTable
empty_table = record {
  sessions = [];
  by_peer = [];
  retired = [];
  retired_receives = 0;
  next_key_id = 1;
}

abbrev pub following : ℕ → ℕ
following key_id = if key_id == 0xffff then 1 else key_id + 1

-- The loop of `allocate_key_id` with `left` attempts to go: the id, if any, and the next candidate.
unfoldable pub allocate_loop : ℕ → List (ℕ × Session) → ℕ → Option ℕ × ℕ
allocate_loop zero sessions candidate = (none, candidate)
allocate_loop (suc left) sessions candidate =
    let rest = allocate_loop left sessions (following candidate) in
    if candidate == pre_session_key_id
    then rest
    else if has sessions candidate
    then rest
    else (some candidate, following candidate)

abbrev pub attempts : ℕ
attempts = 0x10000

pub allocate_key_id : SessionTable → Result SessionError ℕ × SessionTable
allocate_key_id t =
    if leb maximum_sessions (length t.sessions)
    then (err too_many_sessions, t)
    else (let (found, next) = allocate_loop attempts t.sessions t.next_key_id in
        elim found [
          | none ↦ (err key_id_exhausted, record t { next_key_id = next })
          | some key_id ↦ (ok key_id, record t { next_key_id = next })
        ])

-- `std::erase_if(retired_, ... entry.key_id == key_id)`
unfoldable pub forget_retired : ℕ → List Retired → List Retired
forget_retired key_id [] = []
forget_retired key_id (r ∷ rs) =
    let rest = forget_retired key_id rs in if r.key_id == key_id then rest else r ∷ rest

-- What `install` does with the peer's present session: it retires it, or drops it when the key id
-- is used again.
unfoldable pub replace_existing : Instant → PeerId → ℕ → SessionTable → SessionTable
replace_existing now peer key_id t = elim (find t.by_peer peer) [
  | none ↦ t
  | some existing ↦
      if not (existing == key_id)
      then record t {
        retired = t.retired ++ (record { key_id = existing; retired_at = now } ∷ []);
        by_peer = erase peer t.by_peer;
      }
      else record t { sessions = erase existing t.sessions; by_peer = erase peer t.by_peer }
]

-- `std::chrono::steady_clock::now()` gives `now`.
unfoldable pub install :
    Instant → PeerId → ℕ → Session → SessionTable → Result SessionError Session × SessionTable
install now peer key_id session t =
    if peer == no_peer
    then (err unknown_peer, t)
    else if key_id == pre_session_key_id
    then (err unknown_key_id, t)
    else if leb maximum_sessions (length t.sessions)
    then (err too_many_sessions, t)
    else (let replaced = replace_existing now peer key_id t in
        let sessions = erase key_id replaced.sessions in
        let retired = forget_retired key_id replaced.retired in
        if has sessions key_id
        then (err unknown_key_id, record replaced { sessions = sessions; retired = retired })
        else (
          ok session,
          record replaced {
            sessions = put key_id session sessions;
            retired = retired;
            by_peer = put peer key_id replaced.by_peer;
          },
        ))

unfoldable pub is_retired : ℕ → List Retired → Bool
is_retired key_id [] = false
is_retired key_id (r ∷ rs) = if r.key_id == key_id then true else is_retired key_id rs

unfoldable pub find_by_key_id : ℕ → SessionTable → Option Session × SessionTable
find_by_key_id key_id t = elim (find t.sessions key_id) [
  | none ↦ (none, t)
  | some session ↦ (
    some session,
    if is_retired key_id t.retired
        then record t { retired_receives = u64 (t.retired_receives + 1) }
        else t,
  )
]

-- `std::erase_if` of `expire_retired`, which also erases the sessions of the entries it drops.
unfoldable pub expire_loop :
    Instant → List Retired → List (ℕ × Session) → List Retired × List (ℕ × Session)
expire_loop now [] sessions = ([], sessions)
expire_loop now (r ∷ rs) sessions =
    if ltb now (r.retired_at + retire_after)
    then (let rest = expire_loop now rs sessions in (r ∷ rest.0, rest.1))
    else expire_loop now rs (erase r.key_id sessions)

unfoldable pub expire_retired : Instant → SessionTable → SessionTable
expire_retired now t =
    let (retired, sessions) = expire_loop now t.retired t.sessions in
    record t { retired = retired; sessions = sessions }

unfoldable pub find_by_peer : PeerId → SessionTable → Option Session × SessionTable
find_by_peer peer t = elim (find t.by_peer peer) [
  | none ↦ (none, t)
  | some key_id ↦ find_by_key_id key_id t
]

-- The mapping of the peer is dropped if it names the key id.
abbrev pub unmap : PeerId → ℕ → List (ℕ × ℕ) → List (ℕ × ℕ)
unmap peer key_id by_peer = elim (find by_peer peer) [
  | none ↦ by_peer
  | some mapped ↦ if mapped == key_id then erase peer by_peer else by_peer
]

unfoldable pub remove : ℕ → SessionTable → SessionTable
remove key_id t = elim (find t.sessions key_id) [
  | none ↦ t
  | some session ↦ record t {
    retired = forget_retired key_id t.retired;
    by_peer = unmap session.peer key_id t.by_peer;
    sessions = erase key_id t.sessions;
  }
]
