-- ===== src/Timers/Expiry.antt =====
-- What expires, in which order, and how long a retry waits.
use norr.Prelude.{
  ℕ, zero, suc, ◌+◌, ◌*◌, ◌^◌, ◌≤◌, ◌<◌, ◌≡◌, refl, sym, ap, subst, ◌∙◌, min, Bool, List, [], ◌∷◌,
  arith, length, All, none, some, inl, inr, if◌then◌else◌, leb, Bool-cases,
}
use native.Mathlib.Nat.{mul_assoc, le-mul_of_pos_right}
use norr.Prelude.Bits.{two-pow-suc, two-pow-pos}
use norr.Qos.{Instant}
use norr.Timers.{TimerEvent, double_loop, retry_backoff, pop, expire_loop, expire}

-- How many timers a test picks.
unfoldable pub count : (TimerEvent → Bool) → List TimerEvent → ℕ
count test [] = 0
count test (e ∷ es) = let rest = count test es in if test e then rest + 1 else rest

-- The front, and what pop leaves.
record Popped (timers : List TimerEvent) (e : TimerEvent) (es : List TimerEvent) : Type 0 where
  least : All (λ x. e.due ≤ x.due) es
  shorter : length timers ≡ length es + 1
  picked : (low : ℕ) → All (λ x. low ≤ x.due) timers → low ≤ e.due
  same : (test : TimerEvent → Bool) → count test timers ≡ count test (e ∷ es)

All-later :
    (a b : ℕ) (es : List TimerEvent) → a ≤ b → All (λ x. b ≤ x.due) es → All (λ x. a ≤ x.due) es
All-later a b [] h k = tt
All-later a b (e ∷ es) h k = (omega (arith, h, k.0), All-later a b es h k.1)

-- Of an event and a popped rest, the earlier comes first.
module _ (e : TimerEvent) (es : List TimerEvent) (f : TimerEvent) (fs : List TimerEvent)
    (p : Popped es f fs) where
  front_first : e.due ≤ f.due → All (λ x. f.due ≤ x.due) es → Popped (e ∷ es) e es
  front_first h k = record {
    least = All-later e.due f.due es h k;
    shorter = omega arith;
    picked = λ low k. k.0;
    same = λ test. omega arith;
  }

  rest_first : f.due ≤ e.due → Popped (e ∷ es) f (e ∷ fs)
  unfolding count
  rest_first h = record {
    least = (h, p.least);
    shorter = omega (arith, p.shorter);
    picked = λ low k. p.picked low k.1;
    same = λ test. ground (arith, p.same test);
  }

-- What `pop` does with a list of timers.
data Taken (timers : List TimerEvent) : Type 0 where
  nothing : timers ≡ [] → pop timers ≡ none → Taken timers
  front :
      (e : TimerEvent) (es : List TimerEvent)
      → pop timers ≡ some (e, es)
      → All (λ x. e.due ≤ x.due) timers
      → Popped timers e es
      → Taken timers

pop-Taken : (timers : List TimerEvent) → Taken timers
unfolding pop count
pop-Taken [] = nothing refl refl
pop-Taken (x ∷ xs) = elim (pop-Taken xs) [
  | nothing e n ↦
      front x [] (rw (pop, n) refl) (rw e (omega arith, tt)) (record {
        least = tt;
        shorter = rw e refl;
        picked = λ low k. k.0;
        same = λ test. rw e refl;
      })
  | front f fs e all p ↦ elim (Bool-cases (leb x.due f.due)) [
    | inl c ↦
        let h : x.due ≤ f.due = ground (arith, c) in
        front x xs (rw (pop, e, c) refl) (omega arith, All-later x.due f.due xs h all)
          (front_first x xs f fs p h all)
    | inr c ↦
        let h : f.due ≤ x.due = ground (arith, c) in
        front f (x ∷ fs) (rw (pop, e, c) refl) (h, all) (rest_first x xs f fs p h)
  ]
]

-- No event is due before the one ahead of it.
abbrev pub InOrder : Instant → List TimerEvent → Type 0
InOrder low [] = Unit {0}
InOrder low (e ∷ es) = (low ≤ e.due) × InOrder e.due es

-- What has expired and what is left.
pub record Expired (now : Instant) (timers : List TimerEvent)
    (r : List TimerEvent × List TimerEvent) : Type 0 where
  pub past : All (λ e. e.due ≤ now) r.0
  pub future : All (λ e. now < e.due) r.1
  pub same : (test : TimerEvent → Bool) → count test timers ≡ count test r.0 + count test r.1

none_past :
    (now a : ℕ) (es : List TimerEvent)
    → now < a
    → All (λ x. a ≤ x.due) es
    → All (λ e. now < e.due) es
none_past now a [] h k = tt
none_past now a (e ∷ es) h k = (omega (arith, h, k.0), none_past now a es h k.1)

abbrev Right : Instant → Instant → List TimerEvent → List TimerEvent × List TimerEvent → Type 0
Right now low timers r = Expired now timers r × InOrder low r.0

expire_loop-InOrder :
    (fuel : ℕ) (now low : Instant) (timers : List TimerEvent)
    → length timers ≤ fuel
    → All (λ x. low ≤ x.due) timers
    → Expired now timers (expire_loop fuel now timers) × InOrder low (expire_loop fuel now timers).0
unfolding expire_loop count
expire_loop-InOrder zero now low [] h k =
    (record { past = tt; future = tt; same = λ test. omega arith }, tt)
expire_loop-InOrder zero now low (x ∷ xs) h k = ground arith
expire_loop-InOrder (suc fuel) now low timers h k = elim (pop-Taken timers) [
  | nothing e n ↦
      let r : expire_loop (suc fuel) now timers ≡ ([], timers) = rw (expire_loop, n) refl in
      subst (Right now low timers) (sym r)
        (record { past = tt; future = rw e tt; same = λ test. omega arith }, tt)
  | front f fs e all p ↦ elim (Bool-cases (leb f.due now)) [
    | inl c ↦
        let rest = expire_loop-InOrder fuel now f.due fs (omega (arith, p.shorter)) p.least in
        let r : expire_loop (suc fuel) now timers
            ≡ (f ∷ (expire_loop fuel now fs).0, (expire_loop fuel now fs).1) =
          rw (expire_loop, e, c) refl in
        subst (Right now low timers) (sym r) (
          record {
            past = (ground (arith, c), rest.0.past);
            future = rest.0.future;
            same = λ test. ground (arith, p.same test, rest.0.same test);
          },
          (p.picked low k, rest.1),
        )
    | inr c ↦
        let r : expire_loop (suc fuel) now timers ≡ ([], timers) = rw (expire_loop, e, c) refl in
        subst (Right now low timers) (sym r) (
          record {
            past = tt;
            future = none_past now f.due timers (ground (arith, c)) all;
            same = λ test. omega arith;
          },
          tt,
        )
  ]
]

later_than_zero : (es : List TimerEvent) → All (λ x. 0 ≤ x.due) es
later_than_zero [] = tt
later_than_zero (e ∷ es) = (omega arith, later_than_zero es)

-- `expire` takes out just the timers that are due, each as often as it was set, and gives them in
-- the order of their due times.
pub expire-InOrder :
    (now : Instant) (timers : List TimerEvent)
    → Expired now timers (expire now timers) × InOrder 0 (expire now timers).0
unfolding expire
expire-InOrder now timers =
    expire_loop-InOrder (length timers) now 0 timers (omega arith) (later_than_zero timers)

double_loop-min :
    (n delay : ℕ)
    → 0 < delay
    → min (double_loop n delay) 30000000000 ≡ min (delay * 2 ^ n) 30000000000
unfolding double_loop
double_loop-min zero delay h = omega arith
double_loop-min (suc n) delay h =
    let bigger : delay * 2 ^ suc n ≡ delay * 2 * 2 ^ n =
      ap (λ t. delay * t) (two-pow-suc n) ∙ sym (mul_assoc delay 2 (2 ^ n)) in
    let least : delay ≤ delay * 2 ^ suc n = le-mul_of_pos_right delay (two-pow-pos (suc n)) in
    ground (arith, bigger, least, double_loop-min n (delay * 2) (omega arith))

-- The delay before the retry after n attempts is half a second doubled n times, at most 30 seconds.
pub retry_backoff-min : (n : ℕ) → retry_backoff n ≡ min (500000000 * 2 ^ n) 30000000000
unfolding retry_backoff
retry_backoff-min n = double_loop-min n 500000000 (omega arith)
