-- ===== src/Replay.antt =====
-- src/replay_window.cpp, include/norr/replay_window.hpp: the sliding window of seen counters.
-- Counters are `std::uint64_t` values, numbers below 2 ^ 64. The window is 128 words of 64 bits.
pub mod Slots
pub mod Clear
pub mod Ledger
pub mod Refine
pub mod Once
pub mod Tests
use norr.Prelude.{
  ℕ, zero, suc, ◌+◌, ◌-◌, ◌/◌, ◌%◌, ◌^◌, bit_and, bit_or, Bool, true, false, not, List, ltb, leb,
  ◌==◌, if◌then◌else◌, get_or, set, replicate,
}
use norr.Prelude.Bits.{bit_not}

pub data ReplayResult : Type 0 where
  accepted replayed too_old : ReplayResult

abbrev pub window_size : ℕ
window_size = 8192

abbrev pub word_count : ℕ
word_count = window_size / 64

pub record ReplayWindow : Type 0 where
  pub initialized : Bool
  pub highest : ℕ
  pub seen : List ℕ

abbrev pub empty_window : ReplayWindow
empty_window = record { initialized = false; highest = 0; seen = replicate word_count 0 }

abbrev pub word_of : ℕ → ℕ
word_of counter = counter / 64 % (window_size / 64)

abbrev pub bit_of : ℕ → ℕ
bit_of counter = 2 ^ (counter % 64)

pub test : List ℕ → ℕ → Bool
test seen counter = not (bit_and (get_or seen (word_of counter) 0) (bit_of counter) == 0)

pub mark : List ℕ → ℕ → List ℕ
mark seen counter =
    set seen (word_of counter) (bit_or (get_or seen (word_of counter) 0) (bit_of counter))

pub unmark : List ℕ → ℕ → List ℕ
unmark seen counter =
    set seen (word_of counter)
      (bit_and (get_or seen (word_of counter) 0) (bit_not 64 (bit_of counter)))

-- `for (counter = first; counter <= last; ++counter) { ...; if (counter == last) break; }`, on
-- fuel; `clear_range` enters it only when the range has fewer counters than the window.
pub clear_loop : ℕ → List ℕ → ℕ → ℕ → List ℕ
clear_loop zero seen counter last = seen
clear_loop (suc fuel) seen counter last =
    let rest = clear_loop fuel (unmark seen counter) (counter + 1) last in
    if leb counter last then (if counter == last then unmark seen counter else rest) else seen

pub clear_range : List ℕ → ℕ → ℕ → List ℕ
clear_range seen first last =
    if leb window_size (last - first + 1)
    then replicate word_count 0
    else clear_loop window_size seen first last

unfoldable pub accept : ReplayWindow → ℕ → ReplayResult × ReplayWindow
accept w counter =
    if not w.initialized
    then (accepted, record { initialized = true; highest = counter; seen = mark w.seen counter })
    else if ltb w.highest counter
    then (
      accepted,
      record w {
        highest = counter;
        seen = mark (clear_range w.seen (w.highest + 1) counter) counter;
      },
    )
    else if leb window_size (w.highest - counter)
    then (too_old, w)
    else if test w.seen counter
    then (replayed, w)
    else (accepted, record w { seen = mark w.seen counter })
