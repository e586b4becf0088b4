-- ===== src/Spoof/Feedback.antt =====
-- src/spoof_feedback.cpp, include/norr/spoof_feedback.hpp: `SpoofFeedback`.
use norr.Prelude.{
  ℕ, ◌+◌, ◌/◌, bit_xor, not, List, [], ◌∷◌, Option, none, some, ltb, leb, ◌==◌, if◌then◌else◌,
  length, get_or, set, replicate,
}
use norr.Prelude.Bytes.{u32, u64}
use norr.Qos.{Instant}
use norr.Spoof.Pool.{SpoofPool, SpoofPick, mix64, pick, blame, reward}
use norr.Spoof.Receipts.{receipt_bit, decode_source_receipt, receipt_bitmap_for_pool}

pub record SpoofFeedbackConfig : Type 0 where
  pub miss_windows : ℕ
  pub reroll_interval : ℕ

pub record Window : Type 0 where
  pub sent_at_window : ℕ
  pub miss_streak : ℕ

pub record SpoofFeedback : Type 0 where
  pub pool : SpoofPool
  pub config : SpoofFeedbackConfig
  pub windows : List Window
  pub window_counter : ℕ

abbrev pub no_window : Window
no_window = record { sent_at_window = 0; miss_streak = 0 }

unfoldable pub new_feedback : SpoofPool → SpoofFeedbackConfig → SpoofFeedback
new_feedback pool config = record {
  pool = pool;
  config = record config {
    miss_windows = if config.miss_windows == 0 then 1 else config.miss_windows;
  };
  windows = replicate (length pool.entries) no_window;
  window_counter = 0;
}

unfoldable pub epoch_salt : SpoofFeedback → Instant → ℕ
epoch_salt f now =
    if f.config.reroll_interval == 0 then 0 else mix64 (u64 (now / f.config.reroll_interval))

unfoldable pub pick_source : SpoofFeedback → ℕ → Instant → SpoofFeedback × Option SpoofPick
unfolding epoch_salt
pick_source f flow_hash now =
    let (pool, chosen) = pick f.pool (bit_xor flow_hash (epoch_salt f now)) now in
    let windows : List Window = elim chosen [
      | none ↦ f.windows
      | some c ↦ set f.windows c.index (record (get_or f.windows c.index no_window) {
        sent_at_window = u64 (f.window_counter + 1);
      })
    ] in
    (record f { pool = pool; windows = windows }, chosen)

-- One round of the loop of `apply_receipt`: the pool and the window after it.
unfoldable pub judge : ℕ → ℕ → List ℕ → Instant → ℕ → SpoofPool → Window → SpoofPool × Window
judge miss_windows counter bitmap now index pool window =
    let missed = u32 (window.miss_streak + 1) in
    if not (window.sent_at_window == counter)
    then (pool, window)
    else if receipt_bit bitmap index
    then (reward pool index, record window { miss_streak = 0 })
    else if leb miss_windows missed
    then (blame pool index now, record window { miss_streak = 0 })
    else (pool, record window { miss_streak = missed })

unfoldable pub judge_all :
    ℕ → ℕ → List ℕ → Instant → ℕ → SpoofPool → List Window → SpoofPool × List Window
judge_all miss_windows counter bitmap now index pool [] = (pool, [])
judge_all miss_windows counter bitmap now index pool (w ∷ windows) =
    let (next, window) = judge miss_windows counter bitmap now index pool w in
    let rest = judge_all miss_windows counter bitmap now (index + 1) next windows in
    (rest.0, window ∷ rest.1)

unfoldable pub apply_receipt : SpoofFeedback → List ℕ → Instant → SpoofFeedback
unfolding judge_all
apply_receipt f bitmap now =
    let counter = u64 (f.window_counter + 1) in
    let (pool, windows) = judge_all f.config.miss_windows counter bitmap now 0 f.pool f.windows in
    record f { pool = pool; windows = windows; window_counter = counter }

unfoldable pub apply_source_receipt : SpoofFeedback → List ℕ → Instant → SpoofFeedback
apply_source_receipt f frame now =
    apply_receipt f (receipt_bitmap_for_pool (decode_source_receipt frame) f.pool) now

unfoldable pub miss_streak_of : SpoofFeedback → ℕ → ℕ
miss_streak_of f index =
    if ltb index (length f.windows) then (get_or f.windows index no_window).miss_streak else 0
