-- ===== src/Qos/Tests.antt =====
-- The scheduler on concrete packets.
use norr.Prelude.{ℕ, ◌≡◌, refl, List, [], ◌∷◌, arith, some, replicate}
use mathlib.Core.List.{Mem}
use norr.Address.{ipv4}
use norr.Qos.{
  Call, enqueues, dequeues, after_calls, TrafficClass, realtime, normal, bulk, QueuedPacket,
  QueueLimits, Scheduler, new_scheduler, has_room, shed_loop, shed_bulk, enqueue, dequeue,
  take_from, note_delay,
}
use norr.Qos.Accounting.{Accounted, after_calls-Accounted}
use norr.Qos.Limits.{Bounded, after_calls-Bounded}
use norr.Qos.Service.{drain, drain-bulk}

abbrev packet : TrafficClass → List ℕ → QueuedPacket
packet c bytes = record {
  bytes = bytes;
  traffic_class = c;
  enqueued_at = 0;
  destination = record { address = record { family = ipv4; octets = replicate 16 0 }; port = 0 };
}

abbrev limits : QueueLimits
limits = record {
  capacity = record { at_realtime = 1; at_normal = 9; at_bulk = 9 };
  total_bytes = 12;
}

abbrev calls : List Call
calls =
    enqueues (packet bulk (1 ∷ 2 ∷ []))
    ∷ enqueues (packet bulk (3 ∷ []))
    ∷ enqueues (packet normal (1 ∷ 2 ∷ 3 ∷ 4 ∷ 5 ∷ 6 ∷ 7 ∷ 8 ∷ 9 ∷ 10 ∷ 11 ∷ []))
    ∷ enqueues (packet realtime (4 ∷ []))
    ∷ dequeues 5000
    ∷ []

-- The large packet pushes the first bulk packet out, the real-time one the second.
calls_stored : (after_calls calls (new_scheduler limits)).queued_bytes ≡ 11
unfolding enqueue has_room shed_bulk shed_loop dequeue take_from note_delay
calls_stored = refl

after_calls-Accounted_example : Accounted (after_calls calls (new_scheduler limits))
after_calls-Accounted_example = after_calls-Accounted calls (new_scheduler limits) refl

after_calls-Bounded_example : Bounded (after_calls calls (new_scheduler limits))
after_calls-Bounded_example =
    after_calls-Bounded calls (new_scheduler limits)
      (omega arith, (omega arith, (omega arith, (omega arith, tt)))) (omega arith) refl
      (omega arith, (omega arith, (omega arith, omega arith)))

abbrev waiting : Scheduler
waiting = record (new_scheduler limits) {
  queues = record {
    at_realtime = [];
    at_normal = packet normal [] ∷ packet normal [] ∷ [];
    at_bulk = packet bulk (7 ∷ []) ∷ [];
  };
  normal_deficit = 2;
}

drain-bulk_example :
    Mem (some (packet bulk (7 ∷ []))) (drain (1 ∷ 2 ∷ 3 ∷ 4 ∷ 5 ∷ 6 ∷ 7 ∷ []) waiting)
drain-bulk_example =
    drain-bulk (1 ∷ 2 ∷ 3 ∷ 4 ∷ 5 ∷ 6 ∷ 7 ∷ []) waiting (packet bulk (7 ∷ [])) [] refl refl refl
