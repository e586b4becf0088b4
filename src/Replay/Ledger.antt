-- ===== src/Replay/Ledger.antt =====
-- The record of all counters accepted so far, and how the window's bits stand for it.
use native.Mathlib.Decide.{ℕ_discrete, dec_lt}
use norr.Prelude.{
  ℕ, ◌+◌, ◌-◌, ◌≤◌, ◌<◌, ◌≡◌, refl, sym, ap, ◌∙◌, ◌≢◌, Bool, true, false, not, ◌||◌, List, [], ◌∷◌,
  ltb, leb, ◌==◌, if◌then◌else◌, arith, All, ==_ne,
}
use norr.Replay.{
  ReplayResult, accepted, replayed, too_old, ReplayWindow, window_size, mark, clear_range,
}
use norr.Replay.Slots.{Words, slot, seen_bit, seen_bit-mark_self, seen_bit-mark_ne}
use norr.Replay.Clear.{clear_range-Words, clear_range-inside, clear_range-outside}

unfoldable pub contains : List ℕ → ℕ → Bool
contains [] c = false
contains (x ∷ xs) c = c == x || contains xs c

-- The specification keeps every accepted counter and forgets nothing.
pub record Ledger : Type 0 where
  pub started : Bool
  pub top : ℕ
  pub taken : List ℕ

abbrev pub empty_ledger : Ledger
empty_ledger = record { started = false; top = 0; taken = [] }

abbrev pub enter : Ledger → ℕ → ℕ → ReplayResult × Ledger
enter l top c = (accepted, record { started = true; top = top; taken = c ∷ l.taken })

-- A counter is taken once: when it is the first, when it is new and above the rest, or when it
-- lies less than a window below the highest and was not taken.
unfoldable pub accept_spec : Ledger → ℕ → ReplayResult × Ledger
accept_spec l c =
    if not l.started
    then enter l c c
    else if ltb l.top c
    then enter l c c
    else if leb window_size (l.top - c)
    then (too_old, l)
    else if contains l.taken c
    then (replayed, l)
    else enter l l.top c

abbrev pub InReach : ℕ → ℕ → Type 0
InReach top d = (d ≤ top) × (top < d + window_size)

pub record Refines (w : ReplayWindow) (l : Ledger) : Type 0 where
  pub same_started : w.initialized ≡ l.started
  pub same_top : w.highest ≡ l.top
  pub words : Words w.seen
  pub blank : l.started ≡ false → (d : ℕ) → seen_bit w.seen d ≡ 0
  pub fresh : l.started ≡ false → l.taken ≡ []
  pub origin : l.started ≡ false → l.top ≡ 0
  pub below : All (λ c. c ≤ l.top) l.taken
  pub agree :
      l.started ≡ true → (d : ℕ) → InReach l.top d → (seen_bit w.seen d == 1) ≡ contains l.taken d

pub contains_above :
    (xs : List ℕ) (top d : ℕ) → All (λ c. c ≤ top) xs → top < d → contains xs d ≡ false
unfolding contains
contains_above [] top d h lt = refl
contains_above (x ∷ xs) top d h lt = ground (arith, contains_above xs top d h.1 lt)

pub All-raise : (xs : List ℕ) (a b : ℕ) → a ≤ b → All (λ c. c ≤ a) xs → All (λ c. c ≤ b) xs
All-raise [] a b le h = tt
All-raise (x ∷ xs) a b le h = (omega arith, All-raise xs a b le h.1)

-- Marking `c` adds it to the counters in reach, if the other bits in reach agree already.
mark-agree :
    (seen : List ℕ) (xs : List ℕ) (top c : ℕ)
    → Words seen
    → InReach top c
    → ((d : ℕ) → InReach top d → d ≢ c → (seen_bit seen d == 1) ≡ contains xs d)
    → (d : ℕ) → InReach top d
    → (seen_bit (mark seen c) d == 1) ≡ contains (c ∷ xs) d
unfolding contains
mark-agree seen xs top c v hc h d hd = elim (ℕ_discrete d c) [
  | yes e ↦ ground (arith, seen_bit-mark_self seen v c d (ap slot (sym e)))
  | no ne ↦
      ground (arith, seen_bit-mark_ne seen v c d (λ e. ne (omega arith)), h d hd ne, ==_ne d c ne)
]

module _ (w : ReplayWindow) (l : Ledger) (r : Refines w l) (c : ℕ) where
  -- The first counter.
  pub first_agree :
      l.started ≡ false
      → (d : ℕ) → InReach c d
      → (seen_bit (mark w.seen c) d == 1) ≡ contains (c ∷ l.taken) d
  first_agree e =
      mark-agree w.seen l.taken c c r.words (omega arith)
        (λ d hd ne. rw (r.blank e d, r.fresh e) (unfold contains in refl))

  -- A counter above the highest.
  pub above_agree :
      l.started ≡ true
      → l.top < c
      → (d : ℕ) → InReach c d
      → (seen_bit (mark (clear_range w.seen (w.highest + 1) c) c) d == 1) ≡ contains (c ∷ l.taken) d
  above_agree e lt =
      mark-agree _ l.taken c c (clear_range-Words w.seen _ c r.words) (omega arith) λ d hd ne.
        elim (dec_lt l.top d) [
          | yes new ↦ rw (
            clear_range-inside w.seen (w.highest + 1) c d r.words (omega (arith, r.same_top)) hd.0,
            contains_above l.taken l.top d r.below new,
          )
          | no old ↦
              ap (λ t. t == 1)
                (clear_range-outside w.seen (w.highest + 1) c d r.words (omega (arith, r.same_top))
                  (omega (arith, r.same_top)) hd.1)
              ∙ r.agree e d (omega arith)
        ]

  -- A counter in reach that was not taken.
  pub within_agree :
      l.started ≡ true
      → InReach l.top c
      → (d : ℕ) → InReach l.top d
      → (seen_bit (mark w.seen c) d == 1) ≡ contains (c ∷ l.taken) d
  within_agree e hc = mark-agree w.seen l.taken l.top c r.words hc (λ d hd ne. r.agree e d hd)
