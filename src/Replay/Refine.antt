-- ===== src/Replay/Refine.antt =====
-- The window does what the ledger does, on every sequence of counters.
use mathlib.Core.Bool.{true≢false, false≢true}
use norr.Prelude.{
  ℕ, ◌+◌, ◌-◌, ◌≤◌, ◌≡◌, refl, ap, ap₂, ◌∙◌, inl, inr, true, false, List, [], ◌∷◌, ltb, leb, ◌==◌,
  arith, All, Bool-cases,
}
use norr.Replay.{ReplayResult, ReplayWindow, empty_window, window_size, test, accept}
use norr.Replay.Slots.{Words, seen_bit, mark-Words, test-seen_bit}
use norr.Replay.Clear.{zeros-Words, seen_bit-zeros, clear_range-Words}
use norr.Replay.Ledger.{
  Ledger, Refines, contains, empty_ledger, enter, accept_spec, InReach, All-raise, first_agree,
  above_agree, within_agree,
}

-- Both sides give the same result, and the new states correspond.
abbrev pub Corresponds : ReplayResult × ReplayWindow → ReplayResult × Ledger → Type 0
Corresponds p q = (p.0 ≡ q.0) × Refines p.1 q.1

enter-below :
    (l : Ledger) (top c : ℕ)
    → l.top ≤ top
    → c ≤ top
    → All (λ x. x ≤ l.top) l.taken
    → All (λ x. x ≤ top) (c ∷ l.taken)
enter-below l top c le h b = (h, All-raise l.taken l.top top le b)

enter-Refines :
    (l : Ledger) (highest top c : ℕ) (seen : List ℕ)
    → highest ≡ top
    → Words seen
    → All (λ x. x ≤ top) (c ∷ l.taken)
    → ((d : ℕ) → InReach top d → (seen_bit seen d == 1) ≡ contains (c ∷ l.taken) d)
    → Refines (record { initialized = true; highest = highest; seen = seen }) (enter l top c).1
enter-Refines l highest top c seen same v b h = record {
  same_started = refl;
  same_top = same;
  words = v;
  blank = λ e. absurd (true≢false e);
  fresh = λ e. absurd (true≢false e);
  origin = λ e. absurd (true≢false e);
  below = b;
  agree = λ _. h;
}

running-Refines :
    (w : ReplayWindow) (l : Ledger)
    → Refines w l
    → l.started ≡ true
    → Refines (record w { initialized = true }) (record l { started = true })
running-Refines w l r e = record {
  same_started = refl;
  same_top = r.same_top;
  words = r.words;
  blank = λ h. absurd (true≢false h);
  fresh = λ h. absurd (true≢false h);
  origin = λ h. absurd (true≢false h);
  below = r.below;
  agree = λ _. r.agree e;
}

module _ (w : ReplayWindow) (l : Ledger) (r : Refines w l) (c : ℕ) where
  first_step : l.started ≡ false → Corresponds (accept w c) (accept_spec l c)
  unfolding accept accept_spec
  first_step e =
      let i : w.initialized ≡ false = r.same_started ∙ e in
      rw (i, e)
        (
          refl,
          enter-Refines l c c c _ refl (mark-Words w.seen r.words c) (rw (r.fresh e) (omega arith))
              (first_agree w l r c e),
        )

  later_step : l.started ≡ true → Corresponds (accept w c) (accept_spec l c)
  unfolding accept accept_spec
  later_step e = elim (Bool-cases (ltb l.top c)) [
    | inl up ↦
        rw (i, ap (λ t. ltb t c) r.same_top ∙ up, e, up)
          (
            refl,
            enter-Refines l c c c _ refl
                (mark-Words _ (clear_range-Words w.seen (w.highest + 1) c r.words) c)
                (enter-below l c c (ground arith) (omega arith) r.below)
                (above_agree w l r c e (ground arith)),
          )
    | inr down ↦ elim (Bool-cases (leb window_size (l.top - c))) [
      | inl old ↦
          rw (i, below_top down, e, down, ap (λ t. leb window_size (t - c)) r.same_top ∙ old, old)
            (refl, running-Refines w l r e)
      | inr near ↦ elim (Bool-cases (contains l.taken c)) [
        | inl dup ↦
            rw (i, below_top down, e, down, in_window near, near, known near down ∙ dup, dup)
              (refl, running-Refines w l r e)
        | inr new ↦
            rw (i, below_top down, e, down, in_window near, near, known near down ∙ new, new)
              (
                refl,
                enter-Refines l w.highest l.top c _ r.same_top (mark-Words w.seen r.words c)
                    (enter-below l l.top c (omega arith) (ground arith) r.below)
                    (within_agree w l r c e (ground arith)),
              )
      ]
    ]
  ]
    where
      i : w.initialized ≡ true
      i = r.same_started ∙ e

      below_top : ltb l.top c ≡ false → ltb w.highest c ≡ false
      below_top h = ap (λ t. ltb t c) r.same_top ∙ h

      in_window : leb window_size (l.top - c) ≡ false → leb window_size (w.highest - c) ≡ false
      in_window h = ap (λ t. leb window_size (t - c)) r.same_top ∙ h

      known :
          leb window_size (l.top - c) ≡ false
          → ltb l.top c ≡ false
          → test w.seen c ≡ contains l.taken c
      known h k = test-seen_bit w.seen c ∙ r.agree e c (ground arith)

  -- One call.
  pub accept_step : Corresponds (accept w c) (accept_spec l c)
  accept_step = elim (Bool-cases l.started) [ inl e ↦ later_step e | inr e ↦ first_step e ]

-- The outcomes of a sequence of calls, and the state after it.
unfoldable pub run : ReplayWindow → List ℕ → List ReplayResult × ReplayWindow
run w [] = ([], w)
run w (c ∷ cs) =
    let (result, w') = accept w c in let (results, last) = run w' cs in (result ∷ results, last)

pub run_spec : Ledger → List ℕ → List ReplayResult × Ledger
run_spec l [] = ([], l)
run_spec l (c ∷ cs) =
    let (result, l') = accept_spec l c in
    let (results, last) = run_spec l' cs in (result ∷ results, last)

run-run_spec :
    (w : ReplayWindow) (l : Ledger) (cs : List ℕ)
    → Refines w l
    → ((run w cs).0 ≡ (run_spec l cs).0) × Refines (run w cs).1 (run_spec l cs).1
unfolding run run_spec
run-run_spec w l [] r = (refl, r)
run-run_spec w l (c ∷ cs) r =
    let (same, r') = accept_step w l r c in
    let (rest, r'') = run-run_spec (accept w c).1 (accept_spec l c).1 cs r' in
    (ap₂ ◌∷◌ same rest, r'')

pub empty-Refines : Refines empty_window empty_ledger
unfolding contains
empty-Refines = record {
  same_started = refl;
  same_top = refl;
  words = zeros-Words;
  blank = λ e d. seen_bit-zeros d;
  fresh = λ e. refl;
  origin = λ e. refl;
  below = tt;
  agree = λ e. absurd (false≢true e);
}

-- On every sequence of counters a new window gives the results of the ledger that remembers every
-- accepted counter: the bitmap of 8192 slots, its wrap-around and its clearing lose nothing.
pub run-window-ledger : (cs : List ℕ) → (run empty_window cs).0 ≡ (run_spec empty_ledger cs).0
run-window-ledger cs = (run-run_spec empty_window empty_ledger cs empty-Refines).0
