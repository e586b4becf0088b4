-- ===== src/Replay/Once.antt =====
-- What the window promises of a whole history: a counter is accepted once, and a new one is.
use norr.Prelude.{
  ℕ, ◌+◌, ◌<◌, ◌≡◌, ◌↔◌, refl, sym, ◌∙◌, Bool, true, false, ◌&&◌, ◌||◌, List, [], ◌∷◌, ◌==◌,
  if◌then◌else◌, arith,
}
use norr.Replay.{
  ReplayResult, accepted, replayed, too_old, ReplayWindow, empty_window, window_size, accept,
}
use norr.Replay.Ledger.{Ledger, Refines, contains, empty_ledger, accept_spec, contains_above}
use norr.Replay.Refine.{accept_step, empty-Refines}

abbrev pub is_accepted : ReplayResult → Bool
is_accepted accepted = true
is_accepted replayed = false
is_accepted too_old = false

-- The window after a history of calls.
pub after : ReplayWindow → List ℕ → ReplayWindow
after w [] = w
after w (c ∷ cs) = after (accept w c).1 cs

-- The counters that a history of calls has accepted, in order.
unfoldable pub accepted_of : ReplayWindow → List ℕ → List ℕ
accepted_of w [] = []
accepted_of w (c ∷ cs) =
    let rest = accepted_of (accept w c).1 cs in
    if is_accepted (accept w c).0 then c ∷ rest else rest

after_spec : Ledger → List ℕ → Ledger
after_spec l [] = l
after_spec l (c ∷ cs) = after_spec (accept_spec l c).1 cs

after-Refines :
    (w : ReplayWindow) (l : Ledger) (cs : List ℕ)
    → Refines w l
    → Refines (after w cs) (after_spec l cs)
unfolding after after_spec
after-Refines w l [] r = r
after-Refines w l (c ∷ cs) r =
    after-Refines (accept w c).1 (accept_spec l c).1 cs (accept_step w l r c).1

taken_step :
    (l : Ledger) (c x : ℕ)
    → contains (accept_spec l c).1.taken x
      ≡ ((is_accepted (accept_spec l c).0 && x == c) || contains l.taken x)
unfolding accept_spec contains
taken_step l c x = ground arith

taken-accepted_of :
    (w : ReplayWindow) (l : Ledger) (cs : List ℕ) (x : ℕ)
    → Refines w l
    → contains (after_spec l cs).taken x ≡ (contains (accepted_of w cs) x || contains l.taken x)
unfolding after_spec accepted_of contains
taken-accepted_of w l [] x r = refl
taken-accepted_of w l (c ∷ cs) x r = ground (
  arith,
  accept_step w l r c,
  taken_step l c x,
  taken-accepted_of (accept w c).1 (accept_spec l c).1 cs x (accept_step w l r c).1,
)

-- The ledger's decision in one formula.
accept_spec_iff :
    (l : Ledger) (c : ℕ)
    → (l.started ≡ false → contains l.taken c ≡ false)
    → (l.started ≡ false → l.top ≡ 0)
    → (l.top < c → contains l.taken c ≡ false)
    → ((accept_spec l c).0 ≡ accepted) ↔ ((contains l.taken c ≡ false) × (l.top < c + window_size))
unfolding accept_spec
accept_spec_iff l c fresh origin above = (ground arith, ground arith)

decision :
    (w : ReplayWindow) (l : Ledger) (r : Refines w l) (c : ℕ)
    → ((accept_spec l c).0 ≡ accepted) ↔ ((contains l.taken c ≡ false) × (l.top < c + window_size))
decision w l r c =
    accept_spec_iff l c (λ e. rw (r.fresh e) (unfold contains in refl)) r.origin
      (contains_above l.taken l.top c r.below)

module _ (cs : List ℕ) (c : ℕ) where
  -- The window after the history, and what stands for it.
  abbrev now : ReplayWindow
  now = after empty_window cs

  abbrev known : Ledger
  known = after_spec empty_ledger cs

  refines : Refines now known
  refines = after-Refines empty_window empty_ledger cs empty-Refines

  known_taken : contains known.taken c ≡ contains (accepted_of empty_window cs) c
  unfolding contains
  known_taken = ground (arith, taken-accepted_of empty_window empty_ledger cs c empty-Refines)

  -- After any history of calls on a new window, a counter is accepted exactly when the history has
  -- not accepted it and it lies less than 8192 below the highest counter accepted, or above it.
  pub accept_iff : ((accept (after empty_window cs) c).0 ≡ accepted) ↔ (
      (contains (accepted_of empty_window cs) c ≡ false)
      × ((after empty_window cs).highest < c + window_size))
  accept_iff = (
    λ e.
        let d = (decision now known refines c).0 (sym same ∙ e) in
        (sym known_taken ∙ d.0, omega (arith, refines.same_top, d.1)),
    λ d.
        same
        ∙ (decision now known refines c).1
            (known_taken ∙ d.0, omega (arith, refines.same_top, d.1)),
  )
    where
      same : (accept now c).0 ≡ (accept_spec known c).0
      same = (accept_step now known refines c).0

-- No counter stands twice among those that a new window accepts.
abbrev pub Distinct : List ℕ → Type 0
Distinct [] = Unit {0}
Distinct (x ∷ xs) = (contains xs x ≡ false) × Distinct xs

accepted_new :
    (w : ReplayWindow) (l : Ledger) (c : ℕ)
    → Refines w l
    → is_accepted (accept w c).0 ≡ true
    → contains l.taken c ≡ false
accepted_new w l c r e = ground (arith, (accept_step w l r c).0, (decision w l r c).0)

-- What is taken is not accepted again.
never_again :
    (w : ReplayWindow) (l : Ledger) (cs : List ℕ) (x : ℕ)
    → Refines w l
    → contains l.taken x ≡ true
    → contains (accepted_of w cs) x ≡ false
unfolding accepted_of contains
never_again w l [] x r h = refl
never_again w l (c ∷ cs) x r h = ground (
  arith,
  accepted_new w l c r,
  taken_step l c x,
  never_again (accept w c).1 (accept_spec l c).1 cs x (accept_step w l r c).1,
)

accepted_of-Distinct_from :
    (w : ReplayWindow) (l : Ledger) (cs : List ℕ) → Refines w l → Distinct (accepted_of w cs)
unfolding accepted_of
accepted_of-Distinct_from w l [] r = tt
accepted_of-Distinct_from w l (c ∷ cs) r =
    let step = accept_step w l r c in
    ground (
      arith,
      step.0,
      taken_step l c c,
      never_again (accept w c).1 (accept_spec l c).1 cs c step.1,
      accepted_of-Distinct_from (accept w c).1 (accept_spec l c).1 cs step.1,
    )

-- A new window accepts no counter twice, in whatever order and however often counters arrive.
pub accepted_of-Distinct : (cs : List ℕ) → Distinct (accepted_of empty_window cs)
accepted_of-Distinct cs = accepted_of-Distinct_from empty_window empty_ledger cs empty-Refines
