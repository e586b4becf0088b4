-- ===== src/Timers.antt =====
-- src/timers.cpp, include/norr/timers.hpp: the timer queue, and the delay before a retry.
-- The standard heap is a list from which `pop_heap` takes a least element; which of several with one
-- due time it takes is not specified, and here it is the first. Times are numbers of nanoseconds.
pub mod Expiry
pub mod Tests
use norr.Prelude.{
  ℕ, zero, suc, ◌+◌, ◌-◌, ◌*◌, ◌^◌, min, Bool, true, false, not, ◌&&◌, List, [], ◌∷◌, ◌++◌, ltb,
  leb, ◌==◌, if◌then◌else◌, length, Option, none, some,
}
use norr.Qos.{Instant}

pub data TimerKind : Type 0 where
  handshake_timeout handshake_retry keepalive rekey session_expiry path_probe : TimerKind
  dead_peer provisional_timeout : TimerKind

abbrev kind_number : TimerKind → ℕ
kind_number handshake_timeout = 0
kind_number handshake_retry = 1
kind_number keepalive = 2
kind_number rekey = 3
kind_number session_expiry = 4
kind_number path_probe = 5
kind_number dead_peer = 6
kind_number provisional_timeout = 7

abbrev pub kind_eq : TimerKind → TimerKind → Bool
kind_eq a b = kind_number a == kind_number b

pub record TimerEvent : Type 0 where
  pub kind : TimerKind
  pub subject : ℕ
  pub due : Instant

abbrev pub handshake_retry_base : ℕ
handshake_retry_base = 500000000

abbrev pub handshake_retry_max : ℕ
handshake_retry_max = 30000000000

abbrev pub maximum_timers : ℕ
maximum_timers = 8192

-- The loop of `retry_backoff`, with `left` steps to go.
unfoldable pub double_loop : ℕ → ℕ → ℕ
double_loop zero delay = delay
double_loop (suc left) delay =
    let next = double_loop left (delay * 2) in if ltb delay handshake_retry_max then next else delay

unfoldable pub retry_backoff : ℕ → ℕ
retry_backoff attempt = min (double_loop attempt handshake_retry_base) handshake_retry_max

unfoldable pub schedule : TimerEvent → List TimerEvent → Bool × List TimerEvent
schedule event timers =
    if leb maximum_timers (length timers) then (false, timers) else (true, timers ++ (event ∷ []))

-- `std::erase_if`: how many it removed, and what is left.
unfoldable pub erase_if : (TimerEvent → Bool) → List TimerEvent → ℕ × List TimerEvent
erase_if test [] = (0, [])
erase_if test (e ∷ es) =
    let rest = erase_if test es in if test e then (rest.0 + 1, rest.1) else (rest.0, e ∷ rest.1)

abbrev pub cancel : TimerKind → ℕ → List TimerEvent → ℕ × List TimerEvent
cancel kind subject = erase_if (λ e. kind_eq e.kind kind && e.subject == subject)

abbrev pub cancel_subject : ℕ → List TimerEvent → ℕ × List TimerEvent
cancel_subject subject = erase_if (λ e. e.subject == subject)

-- `std::pop_heap` and `pop_back`: the front of the heap, and the rest.
unfoldable pub pop : List TimerEvent → Option (TimerEvent × List TimerEvent)
pop [] = none
pop (e ∷ es) = elim (pop es) [
  | none ↦ some (e, [])
  | some found ↦ if leb e.due found.0.due then some (e, es) else some (found.0, e ∷ found.1)
]

-- The loop of `expire`, on fuel; each round removes a timer.
unfoldable pub expire_loop : ℕ → Instant → List TimerEvent → List TimerEvent × List TimerEvent
expire_loop zero now timers = ([], timers)
expire_loop (suc fuel) now timers = elim (pop timers) [
  | none ↦ ([], timers)
  | some found ↦
      if leb found.0.due now
      then (let rest = expire_loop fuel now found.1 in (found.0 ∷ rest.0, rest.1))
      else ([], timers)
]

unfoldable pub expire : Instant → List TimerEvent → List TimerEvent × List TimerEvent
expire now timers = expire_loop (length timers) now timers

-- `Instant{}` is zero.
unfoldable pub next_due : List TimerEvent → Instant
next_due timers = elim (pop timers) [ none ↦ 0 | some found ↦ found.0.due ]
