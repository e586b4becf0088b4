-- ===== src/Spoof/Choice.antt =====
-- src/spoof_pool.cpp: the source that `SpoofPool::pick` chooses.
use norr.Prelude.{
  ℕ, suc, ◌+◌, ◌≤◌, ◌<◌, ◌≡◌, refl, sym, ap, subst, ◌∙◌, ◌⊎◌, inl, inr, List, [], ◌∷◌, Option, none,
  some, true, false, ltb, ◌==◌, if◌then◌else◌, length, get_or, arith,
}
use native.Mathlib.Decide.{dec_lt, ℕ_discrete}
use norr.Qos.{Instant}
use norr.Spoof.Pool.{
  Entry, Search, SpoofPool, no_entry, entry_at, score, search_entry, search_entries, start_search,
  chosen, pick,
}

module _ (flow_hash : ℕ) (now : Instant) (entries : List Entry) where
  abbrev entry : ℕ → Entry
  entry j = get_or entries j no_entry

  abbrev IsHealthy : ℕ → Type 0
  IsHealthy j = (entry j).cooldown_until ≤ now

  abbrev rank : ℕ → ℕ
  rank j = score flow_hash (entry j).ip_be

  -- What the search has found among the first k entries.
  abbrev IsBest : ℕ → Option ℕ → ℕ → Type 0
  IsBest k none best = (j : ℕ) → j < k → now < (entry j).cooldown_until
  IsBest k (some b) best =
      (b < k) × IsHealthy b × (rank b ≡ best) × ((j : ℕ) → j < k → IsHealthy j → rank j ≤ best)

  record IsSearched (k : ℕ) (s : Search) : Type 0 where
    soonest_lt : s.soonest < length entries
    soonest_of : (entry s.soonest).cooldown_until ≡ s.soonest_until
    soonest_le : (j : ℕ) → j < k → s.soonest_until ≤ (entry j).cooldown_until
    best : IsBest k s.healthy_best s.healthy_score

  -- One more entry, that is not or is healthy.
  cooling :
      (k : ℕ)
      → now < (entry k).cooldown_until
      → (hb : Option ℕ) (hs : ℕ) → IsBest k hb hs
      → IsBest (suc k) hb hs
  cooling k h none hs best = λ j p. elim (ℕ_discrete j k) [
    | yes e ↦ omega (arith, ap (λ t. (entry t).cooldown_until) e)
    | no ne ↦ best j (omega arith)
  ]
  cooling k h (some b) hs (lt, healthy, same, all) = (
    omega arith,
    healthy,
    same,
    λ j p q. elim (ℕ_discrete j k) [
      | yes e ↦ absurd (omega (arith, ap (λ t. (entry t).cooldown_until) e))
      | no ne ↦ all j (omega arith) q
    ],
  )

  first_healthy : (k hs : ℕ) → IsHealthy k → IsBest k none hs → IsBest (suc k) (some k) (rank k)
  first_healthy k hs h best = (
    omega arith,
    h,
    refl,
    λ j p q. elim (ℕ_discrete j k) [
      | yes e ↦ omega (arith, ap rank e)
      | no ne ↦ absurd (omega (arith, best j (omega arith)))
    ],
  )

  better_healthy :
      (k b hs : ℕ)
      → IsHealthy k
      → hs < rank k
      → IsBest k (some b) hs
      → IsBest (suc k) (some k) (rank k)
  better_healthy k b hs h more (lt, healthy, same, all) = (
    omega arith,
    h,
    refl,
    λ j p q. elim (ℕ_discrete j k) [
      | yes e ↦ omega (arith, ap rank e)
      | no ne ↦ omega (arith, all j (omega arith) q)
    ],
  )

  no_better : (k b hs : ℕ) → rank k ≤ hs → IsBest k (some b) hs → IsBest (suc k) (some b) hs
  no_better k b hs less (lt, healthy, same, all) = (
    omega arith,
    healthy,
    same,
    λ j p q. elim (ℕ_discrete j k) [
      | yes e ↦ omega (arith, ap rank e)
      | no ne ↦ all j (omega arith) q
    ],
  )

  abbrev after : ℕ → Search → Search
  after k s = search_entry flow_hash now k (entry k) s

  IsBest-after :
      (k : ℕ) (hb : Option ℕ) (hs so su : ℕ)
      → IsBest k hb hs
      → let s : Search = record {
        healthy_best = hb;
        healthy_score = hs;
        soonest = so;
        soonest_until = su;
      } in
        IsBest (suc k) (after k s).healthy_best (after k s).healthy_score
  unfolding search_entry
  IsBest-after k none hs so su best = elim (dec_lt now (entry k).cooldown_until) [
    | yes h ↦
        let test : ltb now (entry k).cooldown_until ≡ true = ground arith in
        rw test (cooling k h none hs best)
    | no h ↦
        let test : ltb now (entry k).cooldown_until ≡ false = ground arith in
        rw test (first_healthy k hs (omega arith) best)
  ]
  IsBest-after k (some b) hs so su best = elim (dec_lt now (entry k).cooldown_until) [
    | yes h ↦
        let test : ltb now (entry k).cooldown_until ≡ true = ground arith in
        rw test (cooling k h (some b) hs best)
    | no h ↦
        let test : ltb now (entry k).cooldown_until ≡ false = ground arith in
        elim (dec_lt hs (rank k)) [
          | yes m ↦
              let more : ltb hs (rank k) ≡ true = ground arith in
              rw (test, more) (better_healthy k b hs (omega arith) m best)
          | no m ↦
              let more : ltb hs (rank k) ≡ false = ground arith in
              rw (test, more) (no_better k b hs (omega arith) best)
        ]
  ]

  soonest_after :
      (k : ℕ) (s : Search)
      → ((after k s).soonest
          ≡ (if ltb (entry k).cooldown_until s.soonest_until then k else s.soonest))
        × ((after k s).soonest_until ≡ (
            if ltb (entry k).cooldown_until s.soonest_until
            then (entry k).cooldown_until
            else s.soonest_until))
  unfolding search_entry
  soonest_after k s = ground arith

  step-IsSearched :
      (k : ℕ) (s : Search) → k < length entries → IsSearched k s → IsSearched (suc k) (after k s)
  step-IsSearched k s h inv =
      let (index, until) = soonest_after k s in
      elim (dec_lt (entry k).cooldown_until s.soonest_until) [
        | yes p ↦
            let test : ltb (entry k).cooldown_until s.soonest_until ≡ true = ground arith in
            let index' : (after k s).soonest ≡ k = ground arith in
            let until' : (after k s).soonest_until ≡ (entry k).cooldown_until = ground arith in
            record {
              soonest_lt = omega arith;
              soonest_of = ap (λ t. (entry t).cooldown_until) index' ∙ sym until';
              soonest_le = λ j q. elim (ℕ_discrete j k) [
                | yes e ↦ omega (arith, ap (λ t. (entry t).cooldown_until) e)
                | no ne ↦ omega (arith, inv.soonest_le j (omega arith))
              ];
              best =
                  IsBest-after k s.healthy_best s.healthy_score s.soonest s.soonest_until inv.best;
            }
        | no p ↦
            let index' : (after k s).soonest ≡ s.soonest = ground arith in
            let until' : (after k s).soonest_until ≡ s.soonest_until = ground arith in
            record {
              soonest_lt = omega (arith, inv.soonest_lt);
              soonest_of = ap (λ t. (entry t).cooldown_until) index' ∙ inv.soonest_of ∙ sym until';
              soonest_le = λ j q. elim (ℕ_discrete j k) [
                | yes e ↦ omega (arith, ap (λ t. (entry t).cooldown_until) e)
                | no ne ↦ omega (arith, inv.soonest_le j (omega arith))
              ];
              best =
                  IsBest-after k s.healthy_best s.healthy_score s.soonest s.soonest_until inv.best;
            }
      ]

  run-IsSearched :
      (rest : List Entry) (k : ℕ) (s : Search)
      → k + length rest ≡ length entries
      → ((i : ℕ) → get_or rest i no_entry ≡ entry (k + i))
      → IsSearched k s
      → IsSearched (length entries) (search_entries flow_hash now k rest s)
  unfolding search_entries
  run-IsSearched [] k s l same inv =
      let e : k ≡ length entries = omega arith in subst (λ t. IsSearched t s) e inv
  run-IsSearched (x ∷ rest) k s l same inv =
      let here : x ≡ entry k = same 0 ∙ (let z : k + 0 ≡ k = omega arith in ap entry z) in
      let one : suc k ≡ k + 1 = omega arith in
      subst (λ t. IsSearched (length entries) (search_entries flow_hash now (k + 1) rest t))
        (ap (λ t. search_entry flow_hash now k t s) (sym here))
        (run-IsSearched rest (k + 1) (after k s) (omega arith)
          (λ i. same (suc i) ∙ (let z : k + suc i ≡ k + 1 + i = omega arith in ap entry z))
          (subst (λ t. IsSearched t (after k s)) one (step-IsSearched k s (omega arith) inv)))

-- The choice among the entries: a healthy one that no healthy one outranks, or, where none is
-- healthy, one whose cooldown ends first.
abbrev pub IsChoice : SpoofPool → ℕ → Instant → ℕ → Type 0
IsChoice pool flow_hash now i =
    ((IsHealthy flow_hash now pool.entries i)
      × ((j : ℕ)
          → j < length pool.entries
          → IsHealthy flow_hash now pool.entries j
          → rank flow_hash now pool.entries j ≤ rank flow_hash now pool.entries i))
    ⊎ (((j : ℕ) → j < length pool.entries → now < (entry_at pool j).cooldown_until)
        × ((j : ℕ)
            → j < length pool.entries
            → (entry_at pool i).cooldown_until ≤ (entry_at pool j).cooldown_until))

finished :
    (pool : SpoofPool) (flow_hash : ℕ) (now : Instant) (hb : Option ℕ) (hs so su : ℕ)
    → let s : Search = record {
      healthy_best = hb;
      healthy_score = hs;
      soonest = so;
      soonest_until = su;
    } in
      IsSearched flow_hash now pool.entries (length pool.entries) s
      → let i : ℕ = elim hb [ none ↦ so | some b ↦ b ] in
        (i < length pool.entries) × IsChoice pool flow_hash now i
finished pool flow_hash now none hs so su inv =
    (inv.soonest_lt, inr (inv.best, λ j h. omega (arith, inv.soonest_of, inv.soonest_le j h)))
finished pool flow_hash now (some b) hs so su inv =
    let (lt, healthy, same, all) = inv.best in
    (lt, inl (healthy, λ j h q. omega (arith, all j h q)))

-- From a pool that is not empty a pick gives the index and the source of one of its entries: one
-- that is not cooling down, with the greatest score of those, if there is any such entry; or else
-- one whose cooldown ends no later than any other's.
pub pick-IsChoice :
    (pool : SpoofPool) (flow_hash : ℕ) (now : Instant)
    → 0 < length pool.entries
    → let i = chosen pool flow_hash now in
      ((pick pool flow_hash now).1
        ≡ some (record { index = i; source_be = (entry_at pool i).ip_be }))
      × (i < length pool.entries)
      × IsChoice pool flow_hash now i
unfolding pick chosen
pick-IsChoice pool flow_hash now some_entry =
    let inv =
      run-IsSearched flow_hash now pool.entries pool.entries 0 (start_search pool) (omega arith)
        (λ i. (let z : i ≡ 0 + i = omega arith in ap (entry_at pool) z))
        (record {
          soonest_lt = some_entry;
          soonest_of = refl;
          soonest_le = λ j h. absurd (omega arith);
          best = λ j h. absurd (omega arith);
        }) in
    let s : Search = search_entries flow_hash now 0 pool.entries (start_search pool) in
    let test : (length pool.entries == 0) ≡ false = ground arith in
    let (lt, choice) =
      finished pool flow_hash now s.healthy_best s.healthy_score s.soonest s.soonest_until inv in
    (rw test refl, lt, choice)
