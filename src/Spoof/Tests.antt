-- ===== src/Spoof/Tests.antt =====
-- A pool of two sources, the second of which is cooling down.
use norr.Prelude.{ℕ, ◌+◌, ◌<◌, ◌≡◌, ◌≢◌, refl, [], ◌∷◌, some, length, get_or, take, ◌==◌, arith}
use norr.Prelude.Bytes.{u64}
use norr.Spoof.Pool.{
  SpoofPool, SpoofPoolConfig, entry_at, new_pool, pick, chosen, blame, cooldown_for,
}
use norr.Spoof.Choice.{IsChoice, pick-IsChoice}
use norr.Spoof.Cooldown.{IsSane, blamed, blame-Blamed}
use norr.Spoof.Receipts.{receipt_bit, encode_source_receipt, decode_source_receipt}
use norr.Spoof.Wire.{decode_source_receipt-encode_source_receipt}
use norr.Spoof.Feedback.{SpoofFeedback, no_window, apply_receipt}
use norr.Spoof.Verdict.{entry_after, window_after, apply_receipt-Judged}

abbrev settings : SpoofPoolConfig
settings = record { death_threshold = 2; initial_cooldown = 30; max_cooldown = 100 }

abbrev two_sources : SpoofPool
two_sources = record {
  entries =
      record { ip_be = 5; death_streak = 1; cooldown_level = 1; cooldown_until = 0; sent = 0 }
      ∷ record { ip_be = 6; death_streak = 0; cooldown_level = 0; cooldown_until = 500; sent = 0 }
      ∷ [];
  config = settings;
}

-- A duplicate and an empty address are left out.
new_pool_two : length (new_pool (5 ∷ 0 ∷ 6 ∷ 5 ∷ []) settings).entries ≡ 2
unfolding new_pool
new_pool_two = refl

cooldown_for_two : cooldown_for two_sources 2 ≡ 100
unfolding cooldown_for
cooldown_for_two = refl

healthy_chosen : chosen two_sources 9 100 ≡ 0
unfolding chosen
healthy_chosen = refl

two_sources-IsSane : IsSane two_sources
two_sources-IsSane = record {
  threshold_pos = omega arith;
  threshold_fits = omega arith;
  initial_le = omega arith;
  streaks = omega arith;
  levels = omega arith;
}

pick-IsChoice_example :
    ((pick two_sources 9 100).1
      ≡ some (record {
        index = chosen two_sources 9 100;
        source_be = (entry_at two_sources (chosen two_sources 9 100)).ip_be;
      }))
    × (chosen two_sources 9 100 < length two_sources.entries)
    × IsChoice two_sources 9 100 (chosen two_sources 9 100)
pick-IsChoice_example = pick-IsChoice two_sources 9 100 (omega arith)

blame-Blamed_example :
    (entry_at (blame two_sources 0 100) 0 ≡ blamed two_sources 100 (entry_at two_sources 0))
    × ((j : ℕ) → ◌≢◌ {A = ℕ} 0 j → entry_at (blame two_sources 0 100) j ≡ entry_at two_sources j)
    × IsSane (blame two_sources 0 100)
blame-Blamed_example = blame-Blamed two_sources 0 100 two_sources-IsSane (omega arith) (omega arith)

decode_source_receipt-encode_source_receipt_example :
    decode_source_receipt (encode_source_receipt (5 ∷ 70000 ∷ [])) ≡ take 1024 (5 ∷ 70000 ∷ [])
decode_source_receipt-encode_source_receipt_example =
    decode_source_receipt-encode_source_receipt (5 ∷ 70000 ∷ []) (omega arith)

abbrev feedback : SpoofFeedback
feedback = record {
  pool = two_sources;
  config = record { miss_windows = 3; reroll_interval = 0 };
  windows =
      record { sent_at_window = 8; miss_streak = 2 }
      ∷ record { sent_at_window = 1; miss_streak = 0 }
      ∷ [];
  window_counter = 7;
}

apply_receipt-Judged_example :
    (entry_at (apply_receipt feedback [] 100).pool 0
      ≡ entry_after 3
          (8 == u64 (7 + 1))
          (receipt_bit [] 0)
          100
          two_sources
          (get_or feedback.windows 0 no_window)
          (entry_at two_sources 0))
    × (get_or (apply_receipt feedback [] 100).windows 0 no_window
        ≡ window_after 3
            (8 == u64 (7 + 1))
            (receipt_bit [] 0)
            (get_or feedback.windows 0 no_window))
apply_receipt-Judged_example =
    apply_receipt-Judged feedback [] 100 0 two_sources-IsSane refl (omega arith) (omega arith)
