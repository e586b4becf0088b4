-- ===== src/Replay/Clear.antt =====
-- `clear_range`: it turns off the slots of the counters that the window moves over, no others.
use native.Mathlib.Decide.{ℕ_discrete, dec_lt}
use norr.Prelude.{
  ℕ, zero, suc, ◌+◌, ◌-◌, ◌%◌, ◌≤◌, ◌<◌, ◌≡◌, refl, ◌∙◌, ap, inl, inr, List, leb, arith, replicate,
  get_or-replicate, length-replicate, All-replicate, Bool-cases,
}
use norr.Prelude.Bits.{bit, zero-bit}
use norr.Replay.{window_size, word_count, word_of, unmark, clear_loop, clear_range}
use norr.Replay.Slots.{
  Words, IsWord, slot, seen_bit, unmark-Words, seen_bit-unmark_self, seen_bit-unmark_ne,
}

pub zeros-Words : Words (replicate word_count 0)
zeros-Words = record {
  full = length-replicate {A = ℕ} word_count 0;
  words = All-replicate IsWord word_count 0 (omega arith);
}

pub seen_bit-zeros : (d : ℕ) → seen_bit (replicate word_count 0) d ≡ 0
seen_bit-zeros d =
    ap (λ t. bit t (d % 64)) (get_or-replicate word_count (word_of d) 0) ∙ zero-bit (d % 64)

clear_loop-Words :
    (fuel : ℕ) (seen : List ℕ) (c last : ℕ) → Words seen → Words (clear_loop fuel seen c last)
unfolding clear_loop
clear_loop-Words zero seen c last v = v
clear_loop-Words (suc fuel) seen c last v = ground (
  arith,
  clear_loop-Words fuel (unmark seen c) (c + 1) last (unmark-Words seen v c),
  unmark-Words seen v c,
)

-- A bit that is off stays off.
clear_loop-zero :
    (fuel : ℕ) (seen : List ℕ) (c last d : ℕ)
    → Words seen
    → seen_bit seen d ≡ 0
    → seen_bit (clear_loop fuel seen c last) d ≡ 0
unfolding clear_loop
clear_loop-zero zero seen c last d v h = h
clear_loop-zero (suc fuel) seen c last d v h = ground (
  arith,
  cleared,
  clear_loop-zero fuel (unmark seen c) (c + 1) last d (unmark-Words seen v c) cleared,
)
  where
    cleared : seen_bit (unmark seen c) d ≡ 0
    cleared = elim (ℕ_discrete (slot c) (slot d)) [
      | yes e ↦ seen_bit-unmark_self seen v c d e
      | no ne ↦ seen_bit-unmark_ne seen v c d ne ∙ h
    ]

-- The counters of the range are cleared, if the fuel reaches them.
clear_loop-inside :
    (fuel : ℕ) (seen : List ℕ) (c last d : ℕ)
    → Words seen
    → last < c + fuel
    → c ≤ d
    → d ≤ last
    → seen_bit (clear_loop fuel seen c last) d ≡ 0
unfolding clear_loop
clear_loop-inside zero seen c last d v h lo hi = absurd (omega arith)
clear_loop-inside (suc fuel) seen c last d v h lo hi = elim (ℕ_discrete c d) [
  | yes e ↦
      let off = seen_bit-unmark_self seen v c d (ap slot e) in
      ground (
        arith,
        off,
        clear_loop-zero fuel (unmark seen c) (c + 1) last d (unmark-Words seen v c) off,
      )
  | no ne ↦ ground (
    arith,
    clear_loop-inside fuel (unmark seen c) (c + 1) last d (unmark-Words seen v c) (omega arith)
        (omega arith) hi,
  )
]

-- A counter less than a window behind the range keeps its bit.
clear_loop-outside :
    (fuel : ℕ) (seen : List ℕ) (c last d : ℕ)
    → Words seen
    → d < c
    → last < d + window_size
    → seen_bit (clear_loop fuel seen c last) d ≡ seen_bit seen d
unfolding clear_loop
clear_loop-outside zero seen c last d v lo hi = refl
clear_loop-outside (suc fuel) seen c last d v lo hi = elim (dec_lt last c) [
  | yes out ↦ ground arith
  | no go ↦
      let off = seen_bit-unmark_ne seen v c d (λ e. omega arith) in
      ground (
        arith,
        off,
        clear_loop-outside fuel (unmark seen c) (c + 1) last d (unmark-Words seen v c) (omega arith)
            hi,
      )
]

pub clear_range-Words :
    (seen : List ℕ) (first last : ℕ) → Words seen → Words (clear_range seen first last)
unfolding clear_range
clear_range-Words seen first last v =
    ground (arith, zeros-Words, clear_loop-Words window_size seen first last v)

pub clear_range-inside :
    (seen : List ℕ) (first last d : ℕ)
    → Words seen
    → first ≤ d
    → d ≤ last
    → seen_bit (clear_range seen first last) d ≡ 0
unfolding clear_range
clear_range-inside seen first last d v lo hi =
    elim (Bool-cases (leb window_size (last - first + 1))) [
      | inl all ↦ rw all (seen_bit-zeros d)
      | inr part ↦ rw part (clear_loop-inside window_size seen first last d v (ground arith) lo hi)
    ]

pub clear_range-outside :
    (seen : List ℕ) (first last d : ℕ)
    → Words seen
    → first ≤ last
    → d < first
    → last < d + window_size
    → seen_bit (clear_range seen first last) d ≡ seen_bit seen d
unfolding clear_range
clear_range-outside seen first last d v le lo hi =
    elim (Bool-cases (leb window_size (last - first + 1))) [
      | inl all ↦ absurd (ground arith)
      | inr part ↦ rw part (clear_loop-outside window_size seen first last d v lo hi)
    ]
