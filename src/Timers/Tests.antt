-- ===== src/Timers/Tests.antt =====
-- Three timers, of which two are due.
use norr.Prelude.{◌≡◌, refl, [], ◌∷◌}
use norr.Timers.{
  TimerEvent, keepalive, rekey, dead_peer, retry_backoff, double_loop, expire, expire_loop, pop,
  cancel, erase_if,
}
use norr.Timers.Expiry.{Expired, InOrder, expire-InOrder}

abbrev late : TimerEvent
late = record { kind = rekey; subject = 1; due = 30 }

abbrev early : TimerEvent
early = record { kind = keepalive; subject = 1; due = 10 }

abbrev next : TimerEvent
next = record { kind = dead_peer; subject = 2; due = 20 }

expire_two : expire 20 (late ∷ next ∷ early ∷ []) ≡ (early ∷ next ∷ [], late ∷ [])
unfolding expire expire_loop pop
expire_two = refl

cancel_one : cancel rekey 1 (late ∷ next ∷ early ∷ []) ≡ (1, next ∷ early ∷ [])
unfolding erase_if
cancel_one = refl

retry_twice : retry_backoff 2 ≡ 2000000000
unfolding retry_backoff double_loop
retry_twice = refl

expire-InOrder_example :
    Expired 20 (late ∷ next ∷ early ∷ []) (expire 20 (late ∷ next ∷ early ∷ []))
    × InOrder 0 (expire 20 (late ∷ next ∷ early ∷ [])).0
expire-InOrder_example = expire-InOrder 20 (late ∷ next ∷ early ∷ [])
