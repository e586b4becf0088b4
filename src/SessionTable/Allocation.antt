-- ===== src/SessionTable/Allocation.antt =====
-- The key ids that `allocate_key_id` gives.
use norr.Prelude.{
  ℕ, zero, suc, ◌+◌, ◌-◌, ◌≤◌, ◌<◌, ◌≡◌, ◌≢◌, sym, ap, ◌∙◌, true, false, List, arith, leb,
  if◌then◌else◌, length, none, some, ok, Option-cases, inl, inr,
}
use norr.Prelude.Maps.{has, erase, has-erase_ne, length-erase_of_present}
use norr.Session.{Session}
use norr.SessionTable.{SessionTable, following, allocate_loop, attempts, allocate_key_id}

-- Distinct keys of a map are no more than its entries.
pigeonhole :
    (n : ℕ) (f : ℕ → ℕ) (m : List (ℕ × Session))
    → ((i : ℕ) → i < n → has m (f i) ≡ true)
    → ((i j : ℕ) → i < j → j < n → f i ≢ f j)
    → n ≤ length m
pigeonhole zero f m h d = omega arith
pigeonhole (suc n) f m h d =
    let fewer =
      pigeonhole n f (erase (f n) m)
        (λ i p. has-erase_ne (f n) (f i) m (d i n p (omega arith)) ∙ h i (omega arith))
        (λ i j p q. d i j p (omega arith)) in
    omega (arith, fewer, length-erase_of_present (f n) m (h n (omega arith)))

-- A key id that a packet can carry, other than the one reserved for handshakes.
abbrev pub IsKeyId : ℕ → Type 0
IsKeyId c = (1 ≤ c) × (c ≤ 65535)

-- The candidate after i steps.
abbrev candidate : ℕ → ℕ → ℕ
candidate c i = if leb (c + i) 65535 then c + i else c + i - 65535

following-IsKeyId : (c : ℕ) → IsKeyId c → IsKeyId (following c)
following-IsKeyId c h = ground arith

candidate_suc : (c i : ℕ) → IsKeyId c → i < 65534 → candidate (following c) i ≡ candidate c (i + 1)
candidate_suc c i h p = ground arith

candidate_ne : (c i j : ℕ) → IsKeyId c → i < j → j < 65535 → candidate c i ≢ candidate c j
candidate_ne c i j h p q = ground arith

-- A loop that finds nothing has seen only key ids in use.
all_used :
    (n : ℕ) (m : List (ℕ × Session)) (c i : ℕ)
    → IsKeyId c
    → (allocate_loop n m c).0 ≡ none
    → i < n
    → i < 65535
    → has m (candidate c i) ≡ true
unfolding allocate_loop
all_used zero m c i h e p q = ground arith
all_used (suc n) m c zero h e p q = ground arith
all_used (suc n) m c (suc i) h e p q =
    let later =
      all_used n m (following c) i (following-IsKeyId c h) (ground arith) (omega arith)
        (omega arith) in
    let same : candidate (following c) i ≡ candidate c (suc i) =
      candidate_suc c i h (omega arith) ∙ ap (candidate c) (omega arith) in
    ap (has m) (sym same) ∙ later

found_free :
    (n : ℕ) (m : List (ℕ × Session)) (c k : ℕ)
    → IsKeyId c
    → (allocate_loop n m c).0 ≡ some k
    → (has m k ≡ false) × IsKeyId k × ((allocate_loop n m c).1 ≡ following k)
unfolding allocate_loop
found_free zero m c k h e = ground arith
found_free (suc n) m c k h e =
    ground (arith, found_free n m (following c) k (following-IsKeyId c h))

-- What a successful call gives and leaves.
pub record Allocated (t : SessionTable) : Type 0 where
  pub key_id : ℕ
  pub result : (allocate_key_id t).0 ≡ ok key_id
  pub free : has t.sessions key_id ≡ false
  pub usable : IsKeyId key_id
  pub moved : (allocate_key_id t).1 ≡ record t { next_key_id = following key_id }

-- While fewer than 1024 sessions are held, `allocate_key_id` succeeds, with a key id from 1 to 65535
-- that no session has, and moves on behind it.
pub allocate_key_id-Allocated :
    (t : SessionTable) → IsKeyId t.next_key_id → length t.sessions < 1024 → Allocated t
unfolding allocate_key_id
allocate_key_id-Allocated t h small =
    elim (Option-cases (allocate_loop attempts t.sessions t.next_key_id).0) [
      | inl e ↦
          let crowded =
            pigeonhole 1024 (candidate t.next_key_id) t.sessions
              (λ i p. all_used attempts t.sessions t.next_key_id i h e (omega arith) (omega arith))
              (λ i j p q. candidate_ne t.next_key_id i j h p (omega arith)) in
          ground (arith, crowded)
      | inr (k, e) ↦
          let f = found_free attempts t.sessions t.next_key_id k h e in
          record {
            key_id = k;
            result = ground (arith, e);
            free = f.0;
            usable = f.1;
            moved = ground (arith, e, f.2);
          }
    ]
