-- ===== src/Qos.antt =====
-- src/qos.cpp, include/norr/qos.hpp: the three queues in front of a device and their scheduler.
-- An `Instant` is its number of nanoseconds; the delay totals, doubles in the code, are the
-- microseconds they add up.
pub mod Choice
pub mod Accounting
pub mod Limits
pub mod Service
pub mod Tests
use norr.Prelude.{
  ℕ, zero, suc, ◌+◌, ◌-◌, ◌*◌, ◌/◌, ◌^◌, bit_and, bit_or, Bool, true, false, not, ◌&&◌, ◌||◌, List,
  [], ◌∷◌, ◌++◌, ltb, leb, ◌==◌, if◌then◌else◌, length, Option, none, some,
}
use norr.Prelude.Bytes.{byte_at, u8, u64, sub64}
use norr.Address.{Address, ipv4, ipv6}
use norr.IpPacket.{IpPacketView}

abbrev pub Instant : Type 0
Instant = ℕ

pub record Endpoint : Type 0 where
  pub address : Address
  pub port : ℕ

pub data TrafficClass : Type 0 where
  realtime normal bulk : TrafficClass

-- `std::array<A, kTrafficClassCount>`, indexed by the class.
pub record PerClass (A : Type 0) : Type 0 where
  pub at_realtime : A
  pub at_normal : A
  pub at_bulk : A

abbrev pub at : {A : Type 0} → PerClass A → TrafficClass → A
at a realtime = a.at_realtime
at a normal = a.at_normal
at a bulk = a.at_bulk

abbrev pub update : {A : Type 0} → PerClass A → TrafficClass → (A → A) → PerClass A
update a realtime f = record a { at_realtime = f a.at_realtime }
update a normal f = record a { at_normal = f a.at_normal }
update a bulk f = record a { at_bulk = f a.at_bulk }

abbrev pub protocol_udp : ℕ
protocol_udp = 17

abbrev pub protocol_tcp : ℕ
protocol_tcp = 6

unfoldable pub dscp_of : IpPacketView → List ℕ → ℕ
dscp_of packet frame = elim packet.family [
  | ipv4 ↦ if leb (length frame) 2 then 0 else byte_at frame 1 / 2 ^ 2
  | ipv6 ↦
      if leb (length frame) 1
      then 0
      else u8 (bit_or (bit_and (byte_at frame 0) 0x0f * 2 ^ 4) (byte_at frame 1 / 2 ^ 4) / 2 ^ 2)
]

unfoldable pub classify : IpPacketView → List ℕ → TrafficClass
classify packet frame =
    let dscp = dscp_of packet frame in
    let payload = sub64 packet.total_length packet.header_length in
    if dscp == 46 || (dscp == 44 || dscp == 40)
    then realtime
    else if packet.protocol == protocol_udp && leb payload 256
    then realtime
    else if packet.protocol == protocol_tcp && leb 1024 payload
    then bulk
    else normal

pub record QueueLimits : Type 0 where
  pub capacity : PerClass ℕ
  pub total_bytes : ℕ

pub record QueuedPacket : Type 0 where
  pub bytes : List ℕ
  pub traffic_class : TrafficClass
  pub enqueued_at : Instant
  pub destination : Endpoint

pub record SchedulerStats : Type 0 where
  pub enqueued : PerClass ℕ
  pub dequeued : PerClass ℕ
  pub dropped : PerClass ℕ
  pub queue_delay_samples : PerClass ℕ
  pub queue_delay_total_us : PerClass ℕ
  pub shed_for_memory : ℕ

pub record Scheduler : Type 0 where
  pub limits : QueueLimits
  pub queues : PerClass (List QueuedPacket)
  pub queued_bytes : ℕ
  pub normal_deficit : ℕ
  pub bulk_deficit : ℕ
  pub stats : SchedulerStats

abbrev none_of : PerClass ℕ
none_of = record { at_realtime = 0; at_normal = 0; at_bulk = 0 }

abbrev pub new_scheduler : QueueLimits → Scheduler
new_scheduler limits = record {
  limits = limits;
  queues = record { at_realtime = []; at_normal = []; at_bulk = [] };
  queued_bytes = 0;
  normal_deficit = 0;
  bulk_deficit = 0;
  stats = record {
    enqueued = none_of;
    dequeued = none_of;
    dropped = none_of;
    queue_delay_samples = none_of;
    queue_delay_total_us = none_of;
    shed_for_memory = 0;
  };
}

abbrev pub bump : ℕ → ℕ
bump n = u64 (n + 1)

unfoldable pub total_depth : Scheduler → ℕ
total_depth s = length s.queues.at_realtime + length s.queues.at_normal + length s.queues.at_bulk

unfoldable pub has_room : Scheduler → TrafficClass → ℕ → Bool
has_room s c bytes =
    if leb (at s.limits.capacity c) (length (at s.queues c))
    then false
    else leb (u64 (s.queued_bytes + bytes)) s.limits.total_bytes

-- The loop of `shed_bulk`: the bulk queue is the list of its packets, the front first.
unfoldable pub shed_loop : ℕ → List QueuedPacket → Scheduler → Scheduler
shed_loop needed [] s = record s { queues = record s.queues { at_bulk = [] } }
shed_loop needed (front ∷ rest) s =
    let next = shed_loop needed rest (record s {
      queued_bytes = sub64 s.queued_bytes (length front.bytes);
      stats = record s.stats {
        dropped = update s.stats.dropped bulk bump;
        shed_for_memory = bump s.stats.shed_for_memory;
      };
    }) in
    if ltb s.limits.total_bytes (u64 (s.queued_bytes + needed))
    then next
    else record s { queues = record s.queues { at_bulk = front ∷ rest } }

unfoldable pub shed_bulk : ℕ → Scheduler → Scheduler
shed_bulk needed s = shed_loop needed s.queues.at_bulk s

abbrev pub reject : TrafficClass → Scheduler → Bool × Scheduler
reject c s =
    (false, record s { stats = record s.stats { dropped = update s.stats.dropped c bump } })

abbrev pub push_back : TrafficClass → QueuedPacket → Scheduler → Bool × Scheduler
push_back c p s = (
  true,
  record s {
    queues = update s.queues c (λ q. q ++ (p ∷ []));
    queued_bytes = u64 (s.queued_bytes + length p.bytes);
    stats = record s.stats { enqueued = update s.stats.enqueued c bump };
  },
)

abbrev pub is_bulk : TrafficClass → Bool
is_bulk bulk = true
is_bulk normal = false
is_bulk realtime = false

-- The packet is made before the call, of the four arguments.
unfoldable pub enqueue : QueuedPacket → Scheduler → Bool × Scheduler
enqueue p s =
    let c = p.traffic_class in
    let bytes = length p.bytes in
    if has_room s c bytes
    then push_back c p s
    else (let shed =
          if not (is_bulk c) && ltb s.limits.total_bytes (u64 (s.queued_bytes + bytes))
          then shed_bulk bytes s
          else s in
        if has_room shed c bytes then push_back c p shed else reject c shed)

abbrev pub lower : ℕ → ℕ
lower n = n - 1

unfoldable pub restore : QueuedPacket → Scheduler → Scheduler
restore p s =
    let c = p.traffic_class in
    record s {
      queues = update s.queues c (λ q. p ∷ q);
      queued_bytes = u64 (s.queued_bytes + length p.bytes);
      normal_deficit = (elim c [ normal ↦ lower s.normal_deficit | _ ↦ s.normal_deficit ]);
      bulk_deficit = (elim c [ bulk ↦ lower s.bulk_deficit | _ ↦ s.bulk_deficit ]);
      stats = record s.stats { dequeued = update s.stats.dequeued c lower };
    }

-- A delay is recorded unless it comes to a negative number of microseconds, of which a fraction is
-- dropped.
unfoldable pub note_delay : TrafficClass → Instant → Instant → SchedulerStats → SchedulerStats
note_delay c now enqueued_at stats =
    if leb enqueued_at (now + 999)
    then record stats {
      queue_delay_total_us =
          update stats.queue_delay_total_us c (λ t. t + (now - enqueued_at) / 1000);
      queue_delay_samples = update stats.queue_delay_samples c bump;
    }
    else stats

-- The state once `take` has removed the front packet.
abbrev pub taken : TrafficClass → Instant → QueuedPacket → List QueuedPacket → Scheduler → Scheduler
taken c now packet rest s = record s {
  queues = update s.queues c (λ q. rest);
  queued_bytes = sub64 s.queued_bytes (length packet.bytes);
  stats =
      note_delay c now packet.enqueued_at
        (record s.stats { dequeued = update s.stats.dequeued c bump });
}

unfoldable pub take_from : TrafficClass → Instant → Scheduler → Option QueuedPacket × Scheduler
take_from c now s = elim (at s.queues c) [
  | [] ↦ (none, s)
  | packet ∷ rest ↦ (some packet, taken c now packet rest s)
]

abbrev pub is_empty : List QueuedPacket → Bool
is_empty [] = true
is_empty (p ∷ ps) = false

abbrev pub normal_weight : ℕ
normal_weight = 3

abbrev pub bulk_weight : ℕ
bulk_weight = 1

-- `dequeue` once the queue of real-time packets is empty.
unfoldable pub dequeue_weighted : Instant → Scheduler → Option QueuedPacket × Scheduler
dequeue_weighted now s =
    if is_empty s.queues.at_normal && is_empty s.queues.at_bulk
    then (none, s)
    else if is_empty s.queues.at_normal
    then take_from bulk now (record s { bulk_deficit = 0 })
    else if is_empty s.queues.at_bulk
    then take_from normal now (record s { normal_deficit = 0 })
    else if ltb s.normal_deficit normal_weight
    then take_from normal now (record s { normal_deficit = s.normal_deficit + 1 })
    else if ltb s.bulk_deficit bulk_weight
    then take_from bulk now (record s { bulk_deficit = s.bulk_deficit + 1 })
    else take_from normal now (record s { normal_deficit = 1; bulk_deficit = 0 })

-- `if (auto packet = take(TrafficClass::realtime)) return packet;`
abbrev pub real_time_first :
    Instant → Option QueuedPacket × Scheduler → Option QueuedPacket × Scheduler
real_time_first now (some packet, s) = (some packet, s)
real_time_first now (none, s) = dequeue_weighted now s

unfoldable pub dequeue : Instant → Scheduler → Option QueuedPacket × Scheduler
dequeue now s = real_time_first now (take_from realtime now s)

-- A call on the scheduler, and the state after a sequence of calls.
pub data Call : Type 0 where
  enqueues : QueuedPacket → Call
  dequeues : Instant → Call
  restores : QueuedPacket → Call

abbrev pub after_call : Call → Scheduler → Scheduler
after_call (enqueues p) s = (enqueue p s).1
after_call (dequeues now) s = (dequeue now s).1
after_call (restores p) s = restore p s

abbrev pub after_calls : List Call → Scheduler → Scheduler
after_calls [] s = s
after_calls (c ∷ cs) s = after_calls cs (after_call c s)
