-- ===== src/Spoof/Pool.antt =====
-- src/spoof_pool.cpp, include/norr/spoof_pool.hpp: `SpoofPool`.
-- An instant or a duration is its number of nanoseconds, and counters are as wide as the source's.
use norr.Prelude.{
  ℕ, zero, suc, ◌+◌, ◌-◌, ◌*◌, ◌/◌, ◌^◌, bit_xor, Bool, true, false, ◌||◌, List, [], ◌∷◌, ◌++◌,
  Option, none, some, ltb, leb, ◌==◌, if◌then◌else◌, length, get_or, set,
}
use norr.Prelude.Bytes.{u32, u64}
use norr.Qos.{Instant}

pub record SpoofPoolConfig : Type 0 where
  pub death_threshold : ℕ
  pub initial_cooldown : ℕ
  pub max_cooldown : ℕ

pub record SpoofPick : Type 0 where
  pub index : ℕ
  pub source_be : ℕ

pub record Entry : Type 0 where
  pub ip_be : ℕ
  pub death_streak : ℕ
  pub cooldown_level : ℕ
  pub cooldown_until : Instant
  pub sent : ℕ

pub record SpoofPool : Type 0 where
  pub entries : List Entry
  pub config : SpoofPoolConfig

abbrev pub no_entry : Entry
no_entry = record { ip_be = 0; death_streak = 0; cooldown_level = 0; cooldown_until = 0; sent = 0 }

abbrev pub entry_at : SpoofPool → ℕ → Entry
entry_at pool index = get_or pool.entries index no_entry

-- `Instant::max()`, of a signed count of 64 bits.
abbrev pub instant_max : Instant
instant_max = 2 ^ 63 - 1

unfoldable pub mix64 : ℕ → ℕ
mix64 value =
    let v0 = u64 (value + 0x9E3779B97F4A7C15) in
    let v1 = u64 (bit_xor v0 (v0 / 2 ^ 30) * 0xBF58476D1CE4E5B9) in
    let v2 = u64 (bit_xor v1 (v1 / 2 ^ 27) * 0x94D049BB133111EB) in bit_xor v2 (v2 / 2 ^ 31)

unfoldable pub score : ℕ → ℕ → ℕ
unfolding mix64
score flow_hash ip_be = mix64 (bit_xor flow_hash (mix64 ip_be))

unfoldable pub has_source : List Entry → ℕ → Bool
has_source [] ip = false
has_source (e ∷ entries) ip = e.ip_be == ip || has_source entries ip

unfoldable pub add_sources : List ℕ → List Entry → List Entry
unfolding has_source
add_sources [] entries = entries
add_sources (ip ∷ sources) entries = add_sources sources (
    if ip == 0 || has_source entries ip
    then entries
    else entries ++ (record no_entry { ip_be = ip }) ∷ [])

unfoldable pub new_pool : List ℕ → SpoofPoolConfig → SpoofPool
unfolding add_sources
new_pool sources_be config =
    let threshold = if config.death_threshold == 0 then 1 else config.death_threshold in
    let most =
      if ltb config.max_cooldown config.initial_cooldown
      then config.initial_cooldown
      else config.max_cooldown in
    record {
      entries = add_sources sources_be [];
      config = record config { death_threshold = threshold; max_cooldown = most };
    }

-- The doublings left, from the cooldown so far.
unfoldable pub cooldown_loop : ℕ → ℕ → ℕ → ℕ
cooldown_loop zero cap cooldown = cooldown
cooldown_loop (suc left) cap cooldown =
    let rest = cooldown_loop left cap (cooldown * 2) in
    if leb cap (cooldown + cooldown) then cap else if leb cap (cooldown * 2) then cap else rest

unfoldable pub cooldown_for : SpoofPool → ℕ → ℕ
unfolding cooldown_loop
cooldown_for pool level = cooldown_loop level pool.config.max_cooldown pool.config.initial_cooldown

unfoldable pub quarantined : SpoofPool → ℕ → Instant → Bool
quarantined pool index now =
    if leb (length pool.entries) index then true else ltb now (entry_at pool index).cooldown_until

-- The variables of the loop of `pick`: the best healthy entry and its score, and the entry that is
-- healthy soonest.
pub record Search : Type 0 where
  pub healthy_best : Option ℕ
  pub healthy_score : ℕ
  pub soonest : ℕ
  pub soonest_until : Instant

unfoldable pub search_entry : ℕ → Instant → ℕ → Entry → Search → Search
search_entry flow_hash now index entry s =
    let sooner = ltb entry.cooldown_until s.soonest_until in
    let seen : Search = record s {
      soonest = if sooner then index else s.soonest;
      soonest_until = if sooner then entry.cooldown_until else s.soonest_until;
    } in
    let candidate = score flow_hash entry.ip_be in
    let better : Bool = elim s.healthy_best [
      | none ↦ true
      | some b ↦ ltb s.healthy_score candidate
    ] in
    if ltb now entry.cooldown_until
    then seen
    else if better
    then record seen { healthy_best = some index; healthy_score = candidate }
    else seen

unfoldable pub search_entries : ℕ → Instant → ℕ → List Entry → Search → Search
search_entries flow_hash now index [] s = s
search_entries flow_hash now index (e ∷ entries) s =
    search_entries flow_hash now (index + 1) entries (search_entry flow_hash now index e s)

-- Where the search starts.
abbrev pub start_search : SpoofPool → Search
start_search pool = record {
  healthy_best = none;
  healthy_score = 0;
  soonest = 0;
  soonest_until = (entry_at pool 0).cooldown_until;
}

unfoldable pub chosen : SpoofPool → ℕ → Instant → ℕ
unfolding search_entries search_entry
chosen pool flow_hash now =
    let s = search_entries flow_hash now 0 pool.entries (start_search pool) in
    elim s.healthy_best [ none ↦ s.soonest | some b ↦ b ]

unfoldable pub pick : SpoofPool → ℕ → Instant → SpoofPool × Option SpoofPick
unfolding chosen
pick pool flow_hash now =
    if length pool.entries == 0
    then (pool, none)
    else let index = chosen pool flow_hash now in
      let entry = entry_at pool index in
      (
        record pool {
          entries = set pool.entries index (record entry { sent = u64 (entry.sent + 1) });
        },
        some (record { index = index; source_be = entry.ip_be }),
      )

unfoldable pub blame : SpoofPool → ℕ → Instant → SpoofPool
unfolding cooldown_for
blame pool index now =
    if leb (length pool.entries) index
    then pool
    else let entry = entry_at pool index in
      let streak = u32 (entry.death_streak + 1) in
      let cooldown = cooldown_for pool entry.cooldown_level in
      let until = if leb (instant_max - now) cooldown then instant_max else now + cooldown in
      let level =
        if ltb entry.cooldown_level 30 then entry.cooldown_level + 1 else entry.cooldown_level in
      let next : Entry =
        if ltb streak pool.config.death_threshold
        then record entry { death_streak = streak }
        else record entry { death_streak = 0; cooldown_until = until; cooldown_level = level } in
      record pool { entries = set pool.entries index next }

unfoldable pub reward : SpoofPool → ℕ → SpoofPool
reward pool index =
    if leb (length pool.entries) index
    then pool
    else let entry = entry_at pool index in
      record pool {
        entries =
            set pool.entries index
              (record entry { death_streak = 0; cooldown_level = entry.cooldown_level - 1 });
      }

unfoldable pub healthy_in : List Entry → Instant → ℕ
healthy_in [] now = 0
healthy_in (e ∷ entries) now = (if leb e.cooldown_until now then 1 else 0) + healthy_in entries now

unfoldable pub healthy_count : SpoofPool → Instant → ℕ
unfolding healthy_in
healthy_count pool now = healthy_in pool.entries now

unfoldable pub sent_by : SpoofPool → ℕ → ℕ
sent_by pool index = if ltb index (length pool.entries) then (entry_at pool index).sent else 0

unfoldable pub source : SpoofPool → ℕ → ℕ
source pool index = if ltb index (length pool.entries) then (entry_at pool index).ip_be else 0
