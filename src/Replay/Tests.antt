-- ===== src/Replay/Tests.antt =====
-- The window on concrete histories, and the theorems at inputs that meet their hypotheses.
use norr.Prelude.{ℕ, ◌+◌, ◌<◌, ◌≡◌, ◌↔◌, refl, false, List, [], ◌∷◌}
use norr.Replay.{
  accepted, replayed, too_old, empty_window, accept, window_size, test, mark, clear_range,
  clear_loop, unmark,
}
use norr.Replay.Ledger.{contains, empty_ledger}
use norr.Replay.Refine.{run, run_spec, run-window-ledger}
use norr.Replay.Once.{after, accepted_of, accept_iff}

abbrev history : List ℕ
history = 5 ∷ 3 ∷ 5 ∷ 8200 ∷ 3 ∷ 9 ∷ 20000 ∷ 11809 ∷ 11808 ∷ []

history_results :
    (run empty_window history).0
    ≡ accepted ∷ accepted ∷ replayed ∷ accepted ∷ too_old ∷ accepted ∷ accepted ∷ accepted ∷ too_old
      ∷ []
unfolding run accept test mark clear_range clear_loop unmark
history_results = refl

run-window-ledger_example : (run empty_window history).0 ≡ (run_spec empty_ledger history).0
run-window-ledger_example = run-window-ledger history

accept_iff_example : ((accept (after empty_window history) 12000).0 ≡ accepted) ↔ (
    (contains (accepted_of empty_window history) 12000 ≡ false)
    × ((after empty_window history).highest < 12000 + window_size))
accept_iff_example = accept_iff history 12000
