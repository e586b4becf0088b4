-- ===== src/Qos/Limits.antt =====
-- The bounds on the queues.
use norr.Prelude.{
  ℕ, ◌^◌, ◌≤◌, ◌<◌, ◌≡◌, refl, ap, true, List, [], ◌∷◌, arith, length, length-append,
}
use norr.Prelude.Bytes.{sub64}
use norr.Qos.Choice.{idle, served, dequeue-cases}
use norr.Qos.Accounting.{
  sum_bytes, sum_bytes-append, stored, Accounted, shed_loop-Accounted, enqueue-Accounted,
  dequeue-Accounted,
}
use norr.Qos.{
  Instant, TrafficClass, realtime, normal, bulk, at, update, QueuedPacket, Scheduler, has_room,
  shed_loop, shed_bulk, push_back, enqueue, taken, dequeue, bump, Call, enqueues, dequeues,
  restores, after_calls,
}

-- Every queue is within its capacity, and the packets are within the bound on bytes.
abbrev pub Bounded : Scheduler → Type 0
Bounded s =
    (length s.queues.at_realtime ≤ s.limits.capacity.at_realtime)
    × ((length s.queues.at_normal ≤ s.limits.capacity.at_normal)
        × ((length s.queues.at_bulk ≤ s.limits.capacity.at_bulk)
            × (stored s ≤ s.limits.total_bytes)))

-- No sum of 64-bit sizes wraps.
abbrev pub Moderate : ℕ → Type 0
Moderate n = n < 2 ^ 63

abbrev forget_bulk : List QueuedPacket → Scheduler → Scheduler
forget_bulk ps s = record s { queues = record s.queues { at_bulk = ps } }

shed_loop-Bounded :
    (n : ℕ) (ps : List QueuedPacket) (s : Scheduler)
    → Bounded (forget_bulk ps s)
    → Bounded (shed_loop n ps s) × ((shed_loop n ps s).limits ≡ s.limits)
unfolding shed_loop
shed_loop-Bounded n [] s h = (h, refl)
shed_loop-Bounded n (p ∷ ps) s h = ground (
  arith,
  shed_loop-Bounded n ps (record s {
    queued_bytes = sub64 s.queued_bytes (length p.bytes);
    stats = record s.stats {
      dropped = update s.stats.dropped bulk bump;
      shed_for_memory = bump s.stats.shed_for_memory;
    };
  }),
)

push_back-Bounded :
    (c : TrafficClass) (p : QueuedPacket) (s : Scheduler)
    → Moderate (length p.bytes)
    → Moderate s.limits.total_bytes
    → has_room s c (length p.bytes) ≡ true
    → Accounted s
    → Bounded s
    → Bounded (push_back c p s).1
unfolding has_room
push_back-Bounded realtime p s m t h a k = ground (
  arith,
  length-append s.queues.at_realtime (p ∷ []),
  sum_bytes-append s.queues.at_realtime (p ∷ []),
)
push_back-Bounded normal p s m t h a k =
    ground (
      arith,
      length-append s.queues.at_normal (p ∷ []),
      sum_bytes-append s.queues.at_normal (p ∷ []),
    )
push_back-Bounded bulk p s m t h a k =
    ground
      (arith, length-append s.queues.at_bulk (p ∷ []), sum_bytes-append s.queues.at_bulk (p ∷ []))

enqueue-Bounded :
    (p : QueuedPacket) (s : Scheduler)
    → Moderate (length p.bytes)
    → Moderate s.limits.total_bytes
    → Accounted s
    → Bounded s
    → Bounded (enqueue p s).1 × ((enqueue p s).1.limits ≡ s.limits)
unfolding enqueue shed_bulk
enqueue-Bounded p s m t a k = ground (
  arith,
  push_back-Bounded p.traffic_class p s m t,
  shed_loop-Bounded (length p.bytes) s.queues.at_bulk s k,
  shed_loop-Accounted (length p.bytes) s.queues.at_bulk s a,
  push_back-Bounded p.traffic_class p (shed_loop (length p.bytes) s.queues.at_bulk s) m,
)

taken-Bounded :
    (c : TrafficClass) (now : Instant) (p : QueuedPacket) (rest : List QueuedPacket) (s : Scheduler)
    → at s.queues c ≡ p ∷ rest
    → Bounded s
    → Bounded (taken c now p rest s)
taken-Bounded realtime now p rest s e k = ground (arith, ap sum_bytes e, ap (λ l. length l) e)
taken-Bounded normal now p rest s e k = ground (arith, ap sum_bytes e, ap (λ l. length l) e)
taken-Bounded bulk now p rest s e k = ground (arith, ap sum_bytes e, ap (λ l. length l) e)

dequeue-Bounded :
    (now : Instant) (s : Scheduler)
    → Bounded s
    → Bounded (dequeue now s).1 × ((dequeue now s).1.limits ≡ s.limits)
dequeue-Bounded now s k = elim (dequeue-cases now s) [
  | idle _ _ _ r ↦ rw r (k, refl)
  | served c p rest n b e _ r ↦
      rw r
        (taken-Bounded c now p rest (record s { normal_deficit = n; bulk_deficit = b }) e k, refl)
]

-- The calls that add and remove packets, without those that put a packet back.
abbrev pub Moderated : List Call → Type 0
Moderated [] = Unit {0}
Moderated (enqueues p ∷ cs) = Moderate (length p.bytes) × Moderated cs
Moderated (dequeues now ∷ cs) = Moderated cs
Moderated (restores p ∷ cs) = ⊥

-- However `enqueue` and `dequeue` are called, each queue stays within its capacity and the bytes of
-- all packets together within the limit, when the limit and the packets are below 2 ^ 63 bytes.
pub after_calls-Bounded :
    (cs : List Call) (s : Scheduler)
    → Moderated cs
    → Moderate s.limits.total_bytes
    → Accounted s
    → Bounded s
    → Bounded (after_calls cs s)
after_calls-Bounded [] s m t a k = k
after_calls-Bounded (enqueues p ∷ cs) s m t a k =
    let next = enqueue-Bounded p s m.0 t a k in
    after_calls-Bounded cs (enqueue p s).1 m.1 (rw next.1 t) (enqueue-Accounted p s a) next.0
after_calls-Bounded (dequeues now ∷ cs) s m t a k =
    let next = dequeue-Bounded now s k in
    after_calls-Bounded cs (dequeue now s).1 m (rw next.1 t) (dequeue-Accounted now s a) next.0
after_calls-Bounded (restores p ∷ cs) s m t a k = elim m [ ]
