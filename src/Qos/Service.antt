-- ===== src/Qos/Service.antt =====
-- Bulk packets are not starved by normal ones.
use native.Mathlib.Decide.{dec_lt}
use norr.Prelude.{
  ℕ, ◌+◌, ◌-◌, ◌<◌, ◌≡◌, ap, ◌∙◌, inl, inr, List, [], ◌∷◌, arith, length, some, Option, ltb,
  if◌then◌else◌, List-cases,
}
use mathlib.Core.List.{Mem, mem-cons_self, mem-cons_of_mem}
use norr.Qos.Choice.{
  with_deficits, take_from-cons, bulk_waits, both_wait_normal, both_wait_bulk, both_wait_again,
  dequeue-weighted,
}
use norr.Qos.{Instant, normal, bulk, QueuedPacket, Scheduler, take_from, dequeue}

-- The packets that successive calls of `dequeue` give.
unfoldable pub drain : List Instant → Scheduler → List (Option QueuedPacket)
drain [] s = []
drain (now ∷ times) s = let rest = drain times (dequeue now s).1 in (dequeue now s).0 ∷ rest

-- The most normal packets that still go first.
abbrev turns : Scheduler → ℕ
turns s = (3 - s.normal_deficit) + (if ltb s.bulk_deficit 1 then 0 else 3)

-- A bulk packet is served, or its turn comes nearer.
data Nearer (q : QueuedPacket) (qs : List QueuedPacket) (s : Scheduler)
    (r : Option QueuedPacket × Scheduler) : Type 0 where
  now_served : r.0 ≡ some q → Nearer q qs s r
  nearer :
      r.1.queues.at_realtime ≡ []
      → r.1.queues.at_bulk ≡ q ∷ qs
      → turns r.1 < turns s
      → Nearer q qs s r

module _ (now : Instant) (s : Scheduler) (q : QueuedPacket) (qs : List QueuedPacket)
    (z : s.queues.at_realtime ≡ []) (f : s.queues.at_bulk ≡ q ∷ qs) where
  takes_bulk :
      (n b : ℕ)
      → dequeue now s ≡ take_from bulk now (with_deficits n b s)
      → Nearer q qs s (dequeue now s)
  takes_bulk n b e =
      now_served (ap (λ r. r.0) (e ∙ take_from-cons bulk now (with_deficits n b s) q qs f))

  takes_normal :
      (p : QueuedPacket) (ps : List QueuedPacket) (n b : ℕ)
      → s.queues.at_normal ≡ p ∷ ps
      → dequeue now s ≡ take_from normal now (with_deficits n b s)
      → turns (with_deficits n b s) < turns s
      → Nearer q qs s (dequeue now s)
  takes_normal p ps n b e d less =
      rw (d ∙ take_from-cons normal now (with_deficits n b s) p ps e) (nearer z f less)

  both_wait :
      (p : QueuedPacket) (ps : List QueuedPacket)
      → s.queues.at_normal ≡ p ∷ ps
      → Nearer q qs s (dequeue now s)
  both_wait p ps e = elim (dec_lt s.normal_deficit 3) [
    | yes h ↦
        takes_normal p ps _ _ e (dequeue-weighted now s z ∙ both_wait_normal now s p q ps qs e f h)
          (ground arith)
    | no h ↦ elim (dec_lt s.bulk_deficit 1) [
      | yes k ↦
          takes_bulk _ _
            (dequeue-weighted now s z ∙ both_wait_bulk now s p q ps qs e f (omega arith) k)
      | no k ↦
          takes_normal p ps _ _ e
            (dequeue-weighted now s z
              ∙ both_wait_again now s p q ps qs e f (omega arith) (omega arith))
            (ground arith)
    ]
  ]

  step : Nearer q qs s (dequeue now s)
  step = elim (List-cases s.queues.at_normal) [
    | inl e ↦ takes_bulk _ _ (dequeue-weighted now s z ∙ bulk_waits now s q qs e f)
    | inr (p, (ps, e)) ↦ both_wait p ps e
  ]

drain-Mem :
    (times : List Instant) (s : Scheduler) (q : QueuedPacket) (qs : List QueuedPacket)
    → s.queues.at_realtime ≡ []
    → s.queues.at_bulk ≡ q ∷ qs
    → turns s < length times
    → Mem (some q) (drain times s)
unfolding drain
drain-Mem [] s q qs z f h = ground arith
drain-Mem (now ∷ times) s q qs z f h = elim (step now s q qs z f) [
  | now_served e ↦ rw e mem-cons_self
  | nearer z f less ↦ mem-cons_of_mem _ (drain-Mem times (dequeue now s).1 q qs z f (omega arith))
]

-- While no real-time packet waits, the front bulk packet leaves within seven calls of `dequeue`,
-- whatever normal packets wait and whatever the deficits are.
pub drain-bulk :
    (times : List Instant) (s : Scheduler) (q : QueuedPacket) (qs : List QueuedPacket)
    → s.queues.at_realtime ≡ []
    → s.queues.at_bulk ≡ q ∷ qs
    → length times ≡ 7
    → Mem (some q) (drain times s)
drain-bulk times s q qs z f h = drain-Mem times s q qs z f (ground arith)
