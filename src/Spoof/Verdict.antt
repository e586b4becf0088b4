-- ===== src/Spoof/Verdict.antt =====
-- src/spoof_feedback.cpp: what a receipt does to each source.
use norr.Prelude.{
  ℕ, zero, suc, ◌+◌, ◌-◌, ◌≤◌, ◌<◌, ◌≡◌, refl, sym, ap, subst, ◌∙◌, ◌≢◌, Bool, false, not, List, [],
  ◌∷◌, leb, ◌==◌, if◌then◌else◌, Bool-cases, inl, inr, length, get_or, set, All-set, All-get_or,
  length-set, get_or-set_self, get_or-set_ne, arith,
}
use norr.Prelude.Bytes.{u32, u64}
use norr.Qos.{Instant}
use norr.Spoof.Pool.{Entry, SpoofPool, no_entry, entry_at, instant_max, blame, reward}
use norr.Spoof.Cooldown.{IsSane, blamed, blame_lem, blame-Blamed}
use norr.Spoof.Receipts.{receipt_bit}
use norr.Spoof.Feedback.{Window, SpoofFeedback, no_window, judge, judge_all, apply_receipt}

-- An entry after it was rewarded.
abbrev pub rewarded : Entry → Entry
rewarded e = record e { death_streak = 0; cooldown_level = e.cooldown_level - 1 }

reward_lem :
    (pool : SpoofPool) (index : ℕ)
    → index < length pool.entries
    → reward pool index
      ≡ record pool { entries = set pool.entries index (rewarded (entry_at pool index)) }
unfolding reward
reward_lem pool index h =
    let test : leb (length pool.entries) index ≡ false = ground arith in rw test refl

-- A window, and its entry, after the receipt: `sent` says that the source was used since the last
-- one, `confirmed` that the peer saw it.
abbrev pub window_after : ℕ → Bool → Bool → Window → Window
window_after miss_windows sent confirmed w =
    if not sent
    then w
    else if confirmed
    then record w { miss_streak = 0 }
    else if leb miss_windows (u32 (w.miss_streak + 1))
    then record w { miss_streak = 0 }
    else record w { miss_streak = u32 (w.miss_streak + 1) }

abbrev pub entry_after : ℕ → Bool → Bool → Instant → SpoofPool → Window → Entry → Entry
entry_after miss_windows sent confirmed now pool w e =
    if not sent
    then e
    else if confirmed
    then rewarded e
    else if leb miss_windows (u32 (w.miss_streak + 1))
    then blamed pool now e
    else e

-- What a round does to the pool: its own entry only, and the bounds and the settings stay.
record Judged (pool next : SpoofPool) (index : ℕ) (after : Entry) : Type 0 where
  sane : IsSane next
  config : next.config ≡ pool.config
  size : length next.entries ≡ length pool.entries
  own : entry_at next index ≡ after
  other : (k : ℕ) → index ≢ k → entry_at next k ≡ entry_at pool k

module _ (pool : SpoofPool) (index : ℕ) (now : Instant) (sane : IsSane pool)
    (in_pool : index < length pool.entries) where
  kept : Judged pool pool index (entry_at pool index)
  kept = record { sane = sane; config = refl; size = refl; own = refl; other = λ k ne. refl }

  replaced :
      (next : SpoofPool) (after : Entry)
      → next ≡ record pool { entries = set pool.entries index after }
      → IsSane (record pool { entries = set pool.entries index after })
      → Judged pool next index after
  replaced next after e s =
      subst (λ t. Judged pool t index after) (sym e)
        (record {
          sane = s;
          config = refl;
          size = length-set pool.entries index after;
          own = get_or-set_self pool.entries index after no_entry in_pool;
          other = λ k ne. get_or-set_ne pool.entries index k after no_entry ne;
        })

  reward-Judged : Judged pool (reward pool index) index (rewarded (entry_at pool index))
  reward-Judged =
      replaced (reward pool index) (rewarded (entry_at pool index)) (reward_lem pool index in_pool)
        (record {
          threshold_pos = sane.threshold_pos;
          threshold_fits = sane.threshold_fits;
          initial_le = sane.initial_le;
          streaks =
              All-set (λ (x : Entry). x.death_streak < pool.config.death_threshold) pool.entries
                index (rewarded (entry_at pool index)) sane.streaks sane.threshold_pos;
          levels =
              All-set (λ (x : Entry). x.cooldown_level ≤ 30) pool.entries index
                (rewarded (entry_at pool index)) sane.levels
                (omega (
                  arith,
                  All-get_or (λ (x : Entry). x.cooldown_level ≤ 30) pool.entries index no_entry
                      sane.levels (omega arith),
                ));
        })

  blame-Judged :
      now ≤ instant_max
      → Judged pool (blame pool index now) index (blamed pool now (entry_at pool index))
  blame-Judged in_time =
      let whole = blame_lem pool index now sane in_pool in_time in
      let (own, other, s) = blame-Blamed pool index now sane in_pool in_time in
      replaced (blame pool index now) (blamed pool now (entry_at pool index)) whole
        (subst IsSane whole s)

  judge-Judged :
      (miss_windows counter : ℕ) (bitmap : List ℕ) (w : Window)
      → now ≤ instant_max
      → Judged pool (judge miss_windows counter bitmap now index pool w).0 index (
          entry_after miss_windows
            (w.sent_at_window == counter)
            (receipt_bit bitmap index)
            now
            pool
            w
            (entry_at pool index))
        × ((judge miss_windows counter bitmap now index pool w).1
            ≡ window_after miss_windows (w.sent_at_window == counter) (receipt_bit bitmap index) w)
  unfolding judge
  judge-Judged miss_windows counter bitmap w in_time =
      elim (Bool-cases (w.sent_at_window == counter)) [
        | inr e ↦ rw e (kept, refl)
        | inl e ↦ elim (Bool-cases (receipt_bit bitmap index)) [
          | inl c ↦ rw (e, c) (reward-Judged, refl)
          | inr c ↦ elim (Bool-cases (leb miss_windows (u32 (w.miss_streak + 1)))) [
            | inl m ↦ rw (e, c, m) (blame-Judged in_time, refl)
            | inr m ↦ rw (e, c, m) (kept, refl)
          ]
        ]
      ]

entry_after_config :
    (miss_windows : ℕ) (sent confirmed : Bool) (now : Instant) (p q : SpoofPool) (w : Window)
    (e : Entry)
    → p.config ≡ q.config
    → entry_after miss_windows sent confirmed now p w e
      ≡ entry_after miss_windows sent confirmed now q w e
entry_after_config miss_windows sent confirmed now p q w e same =
    ap (λ c. entry_after miss_windows sent confirmed now (record p { config = c }) w e) same

module _ (miss_windows counter : ℕ) (bitmap : List ℕ) (now : Instant)
    (in_time : now ≤ instant_max) where
  abbrev result : ℕ → SpoofPool → List Window → SpoofPool × List Window
  result index pool windows = judge_all miss_windows counter bitmap now index pool windows

  abbrev expected : ℕ → SpoofPool → Window → Entry
  expected k pool w =
      entry_after miss_windows (w.sent_at_window == counter) (receipt_bit bitmap k) now pool w
        (entry_at pool k)

  judge_all-before :
      (windows : List Window) (index : ℕ) (pool : SpoofPool) (k : ℕ)
      → IsSane pool
      → index + length windows ≤ length pool.entries
      → k < index
      → entry_at (result index pool windows).0 k ≡ entry_at pool k
  unfolding judge_all
  judge_all-before [] index pool k sane room h = refl
  judge_all-before (w ∷ windows) index pool k sane room h =
      let (j, _) =
        judge-Judged pool index now sane (omega arith) miss_windows counter bitmap w in_time in
      judge_all-before windows (index + 1) (judge miss_windows counter bitmap now index pool w).0 k
        j.sane (omega (arith, j.size)) (omega arith)
      ∙ j.other k (λ e. absurd (omega arith))

  judge_all_at :
      (windows : List Window) (index : ℕ) (pool : SpoofPool) (j : ℕ)
      → IsSane pool
      → index + length windows ≤ length pool.entries
      → j < length windows
      → (entry_at (result index pool windows).0 (index + j)
          ≡ expected (index + j) pool (get_or windows j no_window))
        × (get_or (result index pool windows).1 j no_window
            ≡ window_after miss_windows
                ((get_or windows j no_window).sent_at_window == counter)
                (receipt_bit bitmap (index + j))
                (get_or windows j no_window))
  unfolding judge_all
  judge_all_at [] index pool j sane room h = absurd (omega arith)
  judge_all_at (w ∷ windows) index pool zero sane room h =
      let (d, window) =
        judge-Judged pool index now sane (omega arith) miss_windows counter bitmap w in_time in
      let here : index ≡ index + 0 = omega arith in
      subst
        (λ k.
          (entry_at (result index pool (w ∷ windows)).0 k ≡ expected k pool w)
          × ((judge miss_windows counter bitmap now index pool w).1
              ≡ window_after miss_windows (w.sent_at_window == counter) (receipt_bit bitmap k) w))
        here
        (
          judge_all-before windows (index + 1)
                (judge miss_windows counter bitmap now index pool w).0 index d.sane
                (omega (arith, d.size)) (omega arith)
              ∙ d.own,
          window,
        )
  judge_all_at (w ∷ windows) index pool (suc j) sane room h =
      let (d, window) =
        judge-Judged pool index now sane (omega arith) miss_windows counter bitmap w in_time in
      let next : SpoofPool = (judge miss_windows counter bitmap now index pool w).0 in
      let v : Window = get_or windows j no_window in
      let there : index + 1 + j ≡ index + suc j = omega arith in
      let (entry, kept_window) =
        judge_all_at windows (index + 1) next j d.sane (omega (arith, d.size)) (omega arith) in
      subst
        (λ k.
          (entry_at (result (index + 1) next windows).0 k ≡ expected k pool v)
          × (get_or (result (index + 1) next windows).1 j no_window
              ≡ window_after miss_windows (v.sent_at_window == counter) (receipt_bit bitmap k) v))
        there
        (
          entry
              ∙ entry_after_config miss_windows (v.sent_at_window == counter)
                  (receipt_bit bitmap (index + 1 + j)) now next pool v
                  (entry_at next (index + 1 + j)) d.config
              ∙ ap
                  (λ e.
                    entry_after miss_windows (v.sent_at_window == counter)
                      (receipt_bit bitmap (index + 1 + j)) now pool v e)
                  (d.other (index + 1 + j) (λ e. absurd (omega arith))),
          kept_window,
        )

-- After a receipt every source stands as its own record says, whatever happened to the others: one
-- that was not used since the last receipt is left alone; one that the peer saw is rewarded and its
-- misses are forgotten; one that it did not see counts a miss, and at the limit of misses is blamed
-- and starts again.
pub apply_receipt-Judged :
    (f : SpoofFeedback) (bitmap : List ℕ) (now : Instant) (i : ℕ)
    → IsSane f.pool
    → length f.windows ≡ length f.pool.entries
    → now ≤ instant_max
    → i < length f.windows
    → let w = get_or f.windows i no_window in
      let sent = w.sent_at_window == u64 (f.window_counter + 1) in
      let confirmed = receipt_bit bitmap i in
      (entry_at (apply_receipt f bitmap now).pool i
        ≡ entry_after f.config.miss_windows sent confirmed now f.pool w (entry_at f.pool i))
      × (get_or (apply_receipt f bitmap now).windows i no_window
          ≡ window_after f.config.miss_windows sent confirmed w)
unfolding apply_receipt
apply_receipt-Judged f bitmap now i sane sizes in_time h =
    let z : 0 + i ≡ i = omega arith in
    subst
      (λ k.
        let w = get_or f.windows i no_window in
        let sent = w.sent_at_window == u64 (f.window_counter + 1) in
        (entry_at (apply_receipt f bitmap now).pool k
          ≡ entry_after f.config.miss_windows sent (receipt_bit bitmap k) now f.pool w
              (entry_at f.pool k))
        × (get_or (apply_receipt f bitmap now).windows i no_window
            ≡ window_after f.config.miss_windows sent (receipt_bit bitmap k) w))
      z
      (judge_all_at f.config.miss_windows (u64 (f.window_counter + 1)) bitmap now in_time f.windows
        0 f.pool i sane (omega arith) h)
