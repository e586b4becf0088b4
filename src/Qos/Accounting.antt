-- ===== src/Qos/Accounting.antt =====
-- The count of queued bytes.
use norr.Prelude.{ℕ, ◌+◌, ◌≡◌, ap, List, [], ◌∷◌, ◌++◌, arith, length}
use norr.Prelude.Bytes.{u64, sub64}
use norr.Qos.Choice.{idle, served, dequeue-cases}
use norr.Qos.{
  Call, enqueues, dequeues, restores, after_call, after_calls, Instant, TrafficClass, realtime,
  normal, bulk, PerClass, at, update, QueuedPacket, Scheduler, shed_loop, shed_bulk, push_back,
  enqueue, restore, taken, dequeue,
}

-- The bytes of a queue.
abbrev pub sum_bytes : List QueuedPacket → ℕ
sum_bytes [] = 0
sum_bytes (p ∷ ps) = length p.bytes + sum_bytes ps

abbrev pub total : PerClass (List QueuedPacket) → ℕ
total q = sum_bytes q.at_realtime + sum_bytes q.at_normal + sum_bytes q.at_bulk

abbrev pub stored : Scheduler → ℕ
stored s = total s.queues

-- The count is what the queues hold, on 64 bits.
abbrev pub Accounted : Scheduler → Type 0
Accounted s = s.queued_bytes ≡ u64 (stored s)

pub sum_bytes-append :
    (ps qs : List QueuedPacket) → sum_bytes (ps ++ qs) ≡ sum_bytes ps + sum_bytes qs
sum_bytes-append [] qs = omega arith
sum_bytes-append (p ∷ ps) qs = omega (arith, sum_bytes-append ps qs)

pub shed_loop-Accounted :
    (n : ℕ) (ps : List QueuedPacket) (s : Scheduler)
    → s.queued_bytes
      ≡ u64 (sum_bytes s.queues.at_realtime + sum_bytes s.queues.at_normal + sum_bytes ps)
    → Accounted (shed_loop n ps s)
unfolding shed_loop
shed_loop-Accounted n [] s h = ground arith
shed_loop-Accounted n (p ∷ ps) s h = ground (
  arith,
  shed_loop-Accounted n ps (record s {
    queued_bytes = sub64 s.queued_bytes (length p.bytes);
    stats = record s.stats {
      dropped = update s.stats.dropped bulk (λ k. u64 (k + 1));
      shed_for_memory = u64 (s.stats.shed_for_memory + 1);
    };
  }),
)

-- What a change of one queue does to the bytes stored.
stored-update :
    (c : TrafficClass) (q : PerClass (List QueuedPacket))
    (f : List QueuedPacket → List QueuedPacket)
    → total (update q c f) + sum_bytes (at q c) ≡ total q + sum_bytes (f (at q c))
stored-update realtime q f = omega arith
stored-update normal q f = omega arith
stored-update bulk q f = omega arith

push_back-Accounted :
    (c : TrafficClass) (p : QueuedPacket) (s : Scheduler)
    → Accounted s
    → Accounted (push_back c p s).1
push_back-Accounted c p s h = omega (
  arith,
  h,
  stored-update c s.queues (λ q. q ++ (p ∷ [])),
  sum_bytes-append (at s.queues c) (p ∷ []),
)

pub enqueue-Accounted : (p : QueuedPacket) (s : Scheduler) → Accounted s → Accounted (enqueue p s).1
unfolding enqueue shed_bulk
enqueue-Accounted p s h = ground (
  arith,
  push_back-Accounted p.traffic_class p s h,
  shed_loop-Accounted (length p.bytes) s.queues.at_bulk s h,
  push_back-Accounted p.traffic_class p (shed_loop (length p.bytes) s.queues.at_bulk s),
)

restore-Accounted : (p : QueuedPacket) (s : Scheduler) → Accounted s → Accounted (restore p s)
unfolding restore
restore-Accounted p s h = omega (arith, h, stored-update p.traffic_class s.queues (λ q. p ∷ q))

taken-Accounted :
    (c : TrafficClass) (now : Instant) (p : QueuedPacket) (rest : List QueuedPacket) (s : Scheduler)
    → at s.queues c ≡ p ∷ rest
    → Accounted s
    → Accounted (taken c now p rest s)
taken-Accounted c now p rest s e h =
    omega (arith, h, stored-update c s.queues (λ q. rest), ap sum_bytes e)

pub dequeue-Accounted : (now : Instant) (s : Scheduler) → Accounted s → Accounted (dequeue now s).1
dequeue-Accounted now s h = elim (dequeue-cases now s) [
  | idle _ _ _ r ↦ rw r h
  | served c p rest n b e _ r ↦
      rw r (taken-Accounted c now p rest (record s { normal_deficit = n; bulk_deficit = b }) e h)
]

after_call-Accounted : (c : Call) (s : Scheduler) → Accounted s → Accounted (after_call c s)
after_call-Accounted (enqueues p) s h = enqueue-Accounted p s h
after_call-Accounted (dequeues now) s h = dequeue-Accounted now s h
after_call-Accounted (restores p) s h = restore-Accounted p s h

-- Each call of `enqueue`, `dequeue` and `restore`, with the shedding of bulk packets that it does,
-- keeps the count of queued bytes equal, on 64 bits, to the bytes of the packets in the queues.
pub after_calls-Accounted :
    (cs : List Call) (s : Scheduler) → Accounted s → Accounted (after_calls cs s)
after_calls-Accounted [] s h = h
after_calls-Accounted (c ∷ cs) s h =
    after_calls-Accounted cs (after_call c s) (after_call-Accounted c s h)
