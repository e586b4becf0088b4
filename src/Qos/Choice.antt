-- ===== src/Qos/Choice.antt =====
-- The packet that `dequeue` picks.
use norr.Prelude.{
  ℕ, ◌+◌, ◌≤◌, ◌<◌, ◌≡◌, refl, ap, ◌∙◌, List, [], ◌∷◌, arith, List-cases, inl, inr, ◌⊎◌, Option,
  some, none, lt→ltb, le→ltb,
}
use native.Mathlib.Decide.{dec_lt}
use norr.Qos.{
  Instant, TrafficClass, realtime, normal, bulk, at, QueuedPacket, Scheduler, taken, take_from,
  dequeue_weighted, real_time_first, dequeue,
}

take_from-nil :
    (c : TrafficClass) (now : Instant) (s : Scheduler)
    → at s.queues c ≡ []
    → take_from c now s ≡ (none, s)
unfolding take_from
take_from-nil c now s e = rw (e, take_from) refl

pub take_from-cons :
    (c : TrafficClass) (now : Instant) (s : Scheduler) (p : QueuedPacket) (rest : List QueuedPacket)
    → at s.queues c ≡ p ∷ rest
    → take_from c now s ≡ (some p, taken c now p rest s)
unfolding take_from
take_from-cons c now s p rest e = rw (e, take_from) refl

-- A call finds every queue empty, or it removes the front of one; the deficits aside, the rest of
-- the state stays.
pub data Chosen (now : Instant) (s : Scheduler) (r : Option QueuedPacket × Scheduler) : Type 0 where
  idle :
      s.queues.at_realtime ≡ []
      → s.queues.at_normal ≡ []
      → s.queues.at_bulk ≡ []
      → r ≡ (none, s)
      → Chosen now s r
  served :
      (c : TrafficClass) (p : QueuedPacket) (rest : List QueuedPacket) (n b : ℕ)
      → at s.queues c ≡ p ∷ rest
      → (c ≡ realtime) ⊎ (s.queues.at_realtime ≡ [])
      → r ≡ (some p, taken c now p rest (record s { normal_deficit = n; bulk_deficit = b }))
      → Chosen now s r

abbrev pub with_deficits : ℕ → ℕ → Scheduler → Scheduler
with_deficits n b s = record s { normal_deficit = n; bulk_deficit = b }

module _ (now : Instant) (s : Scheduler) where
  none_waits : s.queues.at_normal ≡ [] → s.queues.at_bulk ≡ [] → dequeue_weighted now s ≡ (none, s)
  unfolding dequeue_weighted
  none_waits e f = rw (dequeue_weighted, e, f) refl

  pub bulk_waits :
      (p : QueuedPacket) (rest : List QueuedPacket)
      → s.queues.at_normal ≡ []
      → s.queues.at_bulk ≡ p ∷ rest
      → dequeue_weighted now s ≡ take_from bulk now (with_deficits s.normal_deficit 0 s)
  unfolding dequeue_weighted
  bulk_waits p rest e f = rw (dequeue_weighted, e, f) refl

  normal_waits :
      (p : QueuedPacket) (rest : List QueuedPacket)
      → s.queues.at_normal ≡ p ∷ rest
      → s.queues.at_bulk ≡ []
      → dequeue_weighted now s ≡ take_from normal now (with_deficits 0 s.bulk_deficit s)
  unfolding dequeue_weighted
  normal_waits p rest e f = rw (dequeue_weighted, e, f) refl

  module _ (p q : QueuedPacket) (ps qs : List QueuedPacket) (e : s.queues.at_normal ≡ p ∷ ps)
      (f : s.queues.at_bulk ≡ q ∷ qs) where
    pub both_wait_normal :
        s.normal_deficit < 3
        → dequeue_weighted now s
          ≡ take_from normal now (with_deficits (s.normal_deficit + 1) s.bulk_deficit s)
    unfolding dequeue_weighted
    both_wait_normal h = rw (dequeue_weighted, e, f, lt→ltb s.normal_deficit 3 h) refl

    pub both_wait_bulk :
        3 ≤ s.normal_deficit
        → s.bulk_deficit < 1
        → dequeue_weighted now s
          ≡ take_from bulk now (with_deficits s.normal_deficit (s.bulk_deficit + 1) s)
    unfolding dequeue_weighted
    both_wait_bulk h k =
        rw (dequeue_weighted, e, f, le→ltb s.normal_deficit 3 h, lt→ltb s.bulk_deficit 1 k) refl

    pub both_wait_again :
        3 ≤ s.normal_deficit
        → 1 ≤ s.bulk_deficit
        → dequeue_weighted now s ≡ take_from normal now (with_deficits 1 0 s)
    unfolding dequeue_weighted
    both_wait_again h k =
        rw (dequeue_weighted, e, f, le→ltb s.normal_deficit 3 h, le→ltb s.bulk_deficit 1 k) refl

  chosen :
      (c : TrafficClass) (p : QueuedPacket) (rest : List QueuedPacket) (n b : ℕ)
      → s.queues.at_realtime ≡ []
      → at s.queues c ≡ p ∷ rest
      → dequeue_weighted now s ≡ take_from c now (with_deficits n b s)
      → Chosen now s (dequeue_weighted now s)
  chosen c p rest n b z e d =
      served c p rest n b e (inr z) (d ∙ take_from-cons c now (with_deficits n b s) p rest e)

  both_wait :
      (p q : QueuedPacket) (ps qs : List QueuedPacket)
      → s.queues.at_realtime ≡ []
      → s.queues.at_normal ≡ p ∷ ps
      → s.queues.at_bulk ≡ q ∷ qs
      → Chosen now s (dequeue_weighted now s)
  both_wait p q ps qs z e f = elim (dec_lt s.normal_deficit 3) [
    | yes h ↦ chosen normal p ps _ _ z e (both_wait_normal p q ps qs e f h)
    | no h ↦ elim (dec_lt s.bulk_deficit 1) [
      | yes k ↦ chosen bulk q qs _ _ z f (both_wait_bulk p q ps qs e f (omega arith) k)
      | no k ↦
          chosen normal p ps _ _ z e (both_wait_again p q ps qs e f (omega arith) (omega arith))
    ]
  ]

  weighted-cases : s.queues.at_realtime ≡ [] → Chosen now s (dequeue_weighted now s)
  weighted-cases z = elim (List-cases s.queues.at_normal) [
    | inl e ↦ elim (List-cases s.queues.at_bulk) [
      | inl f ↦ idle z e f (none_waits e f)
      | inr (q, (qs, f)) ↦ chosen bulk q qs _ _ z f (bulk_waits q qs e f)
    ]
    | inr (p, (ps, e)) ↦ elim (List-cases s.queues.at_bulk) [
      | inl f ↦ chosen normal p ps _ _ z e (normal_waits p ps e f)
      | inr (q, (qs, f)) ↦ both_wait p q ps qs z e f
    ]
  ]

  pub dequeue-weighted : s.queues.at_realtime ≡ [] → dequeue now s ≡ dequeue_weighted now s
  unfolding dequeue
  dequeue-weighted e = ap (real_time_first now) (take_from-nil realtime now s e)

-- Every call of `dequeue` gives the front of a queue that was not empty, of the real-time queue
-- whenever that one was not, and gives no packet only when all three were empty.
pub dequeue-cases : (now : Instant) (s : Scheduler) → Chosen now s (dequeue now s)
unfolding dequeue
dequeue-cases now s = elim (List-cases s.queues.at_realtime) [
  | inl e ↦ rw (dequeue-weighted now s e) (weighted-cases now s e)
  | inr (p, (rest, e)) ↦
      served realtime p rest s.normal_deficit s.bulk_deficit e (inl refl)
        (ap (real_time_first now) (take_from-cons realtime now s p rest e))
]
