-- ===== src/Spoof/Cooldown.antt =====
-- src/spoof_pool.cpp: how long `SpoofPool::blame` sends a source to cool down.
use norr.Prelude.{
  ℕ, zero, suc, ◌+◌, ◌-◌, ◌*◌, ◌^◌, ◌≤◌, ◌<◌, min, ◌≡◌, refl, subst, sym, ap, ◌∙◌, ◌≢◌, List, [],
  ◌∷◌, true, false, ltb, leb, if◌then◌else◌, length, get_or, set, All, All-set, All-get_or,
  get_or-set_self, get_or-set_ne, arith,
}
use native.Mathlib.Decide.{dec_lt}
use native.Mathlib.Nat.{mul-le-mul_left}
use norr.Prelude.Bits.{two-pow-suc, two-pow-pos}
use norr.Prelude.Bytes.{u32}
use norr.Qos.{Instant}
use norr.Spoof.Pool.{
  Entry, SpoofPool, no_entry, entry_at, instant_max, cooldown_loop, cooldown_for, blame,
}

-- The cooldown doubles at each level, up to the greatest one.
cooldown_loop-min : (n cap c : ℕ) → c ≤ cap → cooldown_loop n cap c ≡ min (c * 2 ^ n) cap
unfolding cooldown_loop
cooldown_loop-min zero cap c h = omega arith
cooldown_loop-min (suc n) cap c h = elim (dec_lt (c + c) cap) [
  | yes p ↦
      let t1 : leb cap (c + c) ≡ false = ground arith in
      let t2 : leb cap (c * 2) ≡ false = ground arith in
      rw (t1, t2)
        (cooldown_loop-min n cap (c * 2) (omega arith)
          ∙ omega (arith, ap (λ (t : ℕ). c * t) (two-pow-suc n)))
  | no p ↦
      let t1 : leb cap (c + c) ≡ true = ground arith in
      rw t1 (
        let grows : c * 1 ≤ c * 2 ^ n = mul-le-mul_left c (two-pow-pos n) in
        omega (arith, ap (λ (t : ℕ). c * t) (two-pow-suc n)))
]

-- The bounds that the constructor and the operations keep.
pub record IsSane (pool : SpoofPool) : Type 0 where
  pub threshold_pos : 0 < pool.config.death_threshold
  pub threshold_fits : pool.config.death_threshold < 2 ^ 32
  pub initial_le : pool.config.initial_cooldown ≤ pool.config.max_cooldown
  pub streaks : All (λ (e : Entry). e.death_streak < pool.config.death_threshold) pool.entries
  pub levels : All (λ (e : Entry). e.cooldown_level ≤ 30) pool.entries

-- An entry after it was blamed at a time.
abbrev pub blamed : SpoofPool → Instant → Entry → Entry
blamed pool now e =
    if ltb (e.death_streak + 1) pool.config.death_threshold
    then record e { death_streak = e.death_streak + 1 }
    else record e {
      death_streak = 0;
      cooldown_until =
          min
            (now
              + min (pool.config.initial_cooldown * 2 ^ e.cooldown_level) pool.config.max_cooldown)
            instant_max;
      cooldown_level = min (e.cooldown_level + 1) 30;
    }

module _ (pool : SpoofPool) (index : ℕ) (now : Instant) (sane : IsSane pool)
    (in_pool : index < length pool.entries) (in_time : now ≤ instant_max) where
  abbrev e : Entry
  e = entry_at pool index

  streak_lt : e.death_streak < pool.config.death_threshold
  streak_lt = All-lookup pool.entries index sane.streaks in_pool
    where
      All-lookup :
          (es : List Entry) (i : ℕ)
          → All (λ (x : Entry). x.death_streak < pool.config.death_threshold) es
          → i < length es
          → (get_or es i no_entry).death_streak < pool.config.death_threshold
      All-lookup [] i h p = absurd (omega arith)
      All-lookup (x ∷ es) zero h p = h.0
      All-lookup (x ∷ es) (suc i) h p = All-lookup es i h.1 (omega arith)

  level_le : e.cooldown_level ≤ 30
  level_le =
      All-get_or (λ (x : Entry). x.cooldown_level ≤ 30) pool.entries index no_entry sane.levels
        (omega arith)

  cut_off :
      (c : ℕ)
      → (if leb (instant_max - now) c then instant_max else now + c) ≡ min (now + c) instant_max
  cut_off c = ground arith

  one_level :
      (if ltb e.cooldown_level 30 then e.cooldown_level + 1 else e.cooldown_level)
      ≡ min (e.cooldown_level + 1) 30
  one_level = ground (arith, level_le)

  pub blame_lem :
      blame pool index now ≡ record pool { entries = set pool.entries index (blamed pool now e) }
  unfolding blame
  blame_lem =
      let inside : leb (length pool.entries) index ≡ false = ground arith in
      let streak : u32 (e.death_streak + 1) ≡ e.death_streak + 1 =
        omega (arith, streak_lt, sane.threshold_fits) in
      let cooldown : cooldown_for pool e.cooldown_level
          ≡ min (pool.config.initial_cooldown * 2 ^ e.cooldown_level) pool.config.max_cooldown =
        cooldown_for_lem in
      rw (inside, streak, cooldown, cut_off _, one_level) refl
    where
      cooldown_for_lem :
          cooldown_for pool e.cooldown_level
          ≡ min (pool.config.initial_cooldown * 2 ^ e.cooldown_level) pool.config.max_cooldown
      cooldown_for_lem =
          unfold cooldown_for in
          cooldown_loop-min e.cooldown_level pool.config.max_cooldown pool.config.initial_cooldown
            sane.initial_le

  blamed-IsSane : IsSane (record pool { entries = set pool.entries index (blamed pool now e) })
  blamed-IsSane = record {
    threshold_pos = sane.threshold_pos;
    threshold_fits = sane.threshold_fits;
    initial_le = sane.initial_le;
    streaks =
        All-set (λ (x : Entry). x.death_streak < pool.config.death_threshold) pool.entries index _
          sane.streaks (ground (arith, sane.threshold_pos));
    levels =
        All-set (λ (x : Entry). x.cooldown_level ≤ 30) pool.entries index _ sane.levels
          (ground (arith, level_le));
  }

-- Blaming a source counts against it until the threshold; at the threshold the count starts again,
-- the source cools down from now on for the first cooldown doubled once for each of its levels, but
-- for no longer than the greatest cooldown and not past the end of time, and its level rises, to 30
-- at most. No other source is touched, and the pool's bounds hold on.
pub blame-Blamed :
    (pool : SpoofPool) (index : ℕ) (now : Instant)
    → IsSane pool
    → index < length pool.entries
    → now ≤ instant_max
    → (entry_at (blame pool index now) index ≡ blamed pool now (entry_at pool index))
      × ((j : ℕ) → index ≢ j → entry_at (blame pool index now) j ≡ entry_at pool j)
      × IsSane (blame pool index now)
blame-Blamed pool index now sane in_pool in_time =
    let whole = blame_lem pool index now sane in_pool in_time in
    (
      ap (λ (t : SpoofPool). entry_at t index) whole
          ∙ get_or-set_self pool.entries index _ no_entry in_pool,
      λ j ne.
          ap (λ (t : SpoofPool). entry_at t j) whole
          ∙ get_or-set_ne pool.entries index j _ no_entry ne,
      subst IsSane (sym whole) (blamed-IsSane pool index now sane in_pool in_time),
    )
