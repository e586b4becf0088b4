-- ===== src/Fec/FieldLaws.antt =====
-- src/fec.cpp: what the tables of GF(256) hold, and the laws of its multiplication.
use norr.Prelude.{
  ℕ, zero, suc, ◌+◌, ◌-◌, ◌<◌, bit_xor, ◌≡◌, refl, sym, ap, ap₂, ◌∙◌, ◌≢◌, Bool, true, false,
  if◌then◌else◌, ◌&&◌, ◌||◌, ◌==◌, ltb, get_or, ==_iff, arith,
}
use native.Mathlib.Decide.{ℕ_discrete}
use norr.Fec.Field.{next_power, exp_table, log_table, log, product, inverse, advance}

-- A test on each number below a count, from the greatest down.
unfoldable pub holds_for : ℕ → (ℕ → Bool) → Bool
holds_for zero test = true
holds_for (suc greatest) test = if test greatest then holds_for greatest test else false

pub holds_for-at :
    (count : ℕ) (test : ℕ → Bool) (i : ℕ) → holds_for count test ≡ true → i < count → test i ≡ true
unfolding holds_for
holds_for-at (suc greatest) test i h small = elim (ℕ_discrete i greatest) [
  | yes e ↦ rw e (ground arith)
  | no ne ↦ holds_for-at greatest test i (ground arith) (omega arith)
]
holds_for-at zero test i h small = elim small [ ]

-- The tables, checked entry by entry.
exp_entries : holds_for 510 (λ i. get_or exp_table i 0 == advance i 1) ≡ true
unfolding holds_for exp_table advance next_power
exp_entries = refl

log_entries : holds_for 255 (λ i. ltb (log (i + 1)) 255 && advance (log (i + 1)) 1 == i + 1) ≡ true
unfolding holds_for log log_table advance next_power
log_entries = refl

powers_small : holds_for 256 (λ x. ltb (next_power x) 256) ≡ true
unfolding holds_for next_power
powers_small = refl

powers_linear :
    holds_for 256
      (λ a. holds_for 256 (λ b. next_power (bit_xor a b) == bit_xor (next_power a) (next_power b)))
    ≡ true
unfolding holds_for next_power
powers_linear = refl

inverses :
    holds_for 255 (λ i. product (i + 1) (inverse (i + 1)) == 1 && ltb (inverse (i + 1)) 256) ≡ true
unfolding holds_for product inverse log log_table exp_table
inverses = refl

next_power-lt : (x : ℕ) → x < 256 → next_power x < 256
next_power-lt x h = ground (arith, holds_for-at 256 (λ y. ltb (next_power y) 256) x powers_small h)

next_power-xor :
    (a b : ℕ) → a < 256 → b < 256 → next_power (bit_xor a b) ≡ bit_xor (next_power a) (next_power b)
next_power-xor a b p q =
    let row =
      holds_for-at 256
        (λ x.
          holds_for 256 (λ y. next_power (bit_xor x y) == bit_xor (next_power x) (next_power y)))
        a powers_linear p in
    (==_iff _ _).0 (
      holds_for-at 256 (λ y. next_power (bit_xor a y) == bit_xor (next_power a) (next_power y)) b
        row q)

pub advance-lt : (n x : ℕ) → x < 256 → advance n x < 256
unfolding advance
advance-lt zero x h = h
advance-lt (suc n) x h = advance-lt n (next_power x) (next_power-lt x h)

pub advance-xor :
    (n a b : ℕ) → a < 256 → b < 256 → advance n (bit_xor a b) ≡ bit_xor (advance n a) (advance n b)
unfolding advance
advance-xor zero a b p q = refl
advance-xor (suc n) a b p q =
    ap (advance n) (next_power-xor a b p q)
    ∙ advance-xor n (next_power a) (next_power b) (next_power-lt a p) (next_power-lt b q)

advance-zero : (n : ℕ) → advance n 0 ≡ 0
unfolding advance next_power
advance-zero zero = refl
advance-zero (suc n) = advance-zero n

advance-advance : (m n x : ℕ) → advance (m + n) x ≡ advance n (advance m x)
unfolding advance
advance-advance zero n x = let e : 0 + n ≡ n = omega arith in ap (λ t. advance t x) e
advance-advance (suc m) n x =
    let e : suc m + n ≡ suc (m + n) = omega arith in
    ap (λ t. advance t x) e ∙ advance-advance m n (next_power x)

advance_comm : (m n x : ℕ) → advance n (advance m x) ≡ advance m (advance n x)
advance_comm m n x =
    let e : m + n ≡ n + m = omega arith in
    sym (advance-advance m n x) ∙ ap (λ t. advance t x) e ∙ advance-advance n m x

exp-advance : (i : ℕ) → i < 510 → get_or exp_table i 0 ≡ advance i 1
exp-advance i h =
    (==_iff _ _).0 (holds_for-at 510 (λ j. get_or exp_table j 0 == advance j 1) i exp_entries h)

log_lem : (v : ℕ) → v ≢ 0 → v < 256 → (log v < 255) × (advance (log v) 1 ≡ v)
log_lem v ne h =
    let e : v - 1 + 1 ≡ v = omega arith in
    ground (
      arith,
      e,
      holds_for-at 255 (λ i. ltb (log (i + 1)) 255 && advance (log (i + 1)) 1 == i + 1) (v - 1)
          log_entries (omega arith),
      ap log e,
      ap (λ t. advance (log t) 1) e,
    )

-- Multiplication is the generator's powers at work.
pub product-advance : (a b : ℕ) → a < 256 → b ≢ 0 → b < 256 → product a b ≡ advance (log b) a
unfolding product
product-advance a b p ne q = elim (ℕ_discrete a 0) [
  | yes e ↦ rw e (sym (advance-zero (log b)))
  | no na ↦
      let (la, ea) = log_lem a na p in
      let (lb, eb) = log_lem b ne q in
      let tests : (a == 0 || b == 0) ≡ false = ground arith in
      rw tests (
        exp-advance (log a + log b) (omega arith)
        ∙ advance-advance (log a) (log b) 1
        ∙ ap (advance (log b)) ea)
]

pub product_comm : (a b : ℕ) → product a b ≡ product b a
unfolding product
product_comm a b =
    let e : log a + log b ≡ log b + log a = omega arith in
    ground (arith, ap (λ t. get_or exp_table t 0) e)

pub zero-product : (a : ℕ) → product 0 a ≡ 0
unfolding product
zero-product a = refl

pub product-zero : (a : ℕ) → product a 0 ≡ 0
product-zero a = product_comm a 0 ∙ zero-product a

pub product-lt : (a b : ℕ) → a < 256 → b < 256 → product a b < 256
product-lt a b p q = elim (ℕ_discrete b 0) [
  | yes e ↦ omega (arith, product-zero a, ap (product a) e)
  | no ne ↦ omega (arith, product-advance a b p ne q, advance-lt (log b) a p)
]

pub product-xor_left :
    (a b c : ℕ)
    → a < 256
    → b < 256
    → c < 256
    → bit_xor a b < 256
    → product (bit_xor a b) c ≡ bit_xor (product a c) (product b c)
product-xor_left a b c p q r s = elim (ℕ_discrete c 0) [
  | yes e ↦ rw e (product-zero (bit_xor a b) ∙ sym (ap₂ bit_xor (product-zero a) (product-zero b)))
  | no ne ↦
      product-advance (bit_xor a b) c s ne r
      ∙ advance-xor (log c) a b p q
      ∙ sym (ap₂ bit_xor (product-advance a c p ne r) (product-advance b c q ne r))
]

pub product_assoc :
    (a b c : ℕ) → a < 256 → b < 256 → c < 256 → product (product a b) c ≡ product a (product b c)
product_assoc a b c p q r = elim (ℕ_discrete a 0) [
  | yes e ↦ rw e (ap (λ t. product t c) (zero-product b) ∙ zero-product c ∙ sym (zero-product _))
  | no na ↦ elim (ℕ_discrete c 0) [
    | yes e ↦
        rw e (product-zero (product a b) ∙ sym (ap (product a) (product-zero b) ∙ product-zero a))
    | no nc ↦
        ap (λ t. product t c) (product_comm a b ∙ product-advance b a q na p)
        ∙ product-advance (advance (log a) b) c (advance-lt (log a) b q) nc r
        ∙ advance_comm (log a) (log c) b
        ∙ sym (
            product_comm a (product b c)
            ∙ product-advance (product b c) a (product-lt b c q r) na p
            ∙ ap (advance (log a)) (product-advance b c q nc r))
  ]
]

pub one-product : (a : ℕ) → a < 256 → product 1 a ≡ a
one-product a h = elim (ℕ_discrete a 0) [
  | yes e ↦ rw e (product-zero 1)
  | no ne ↦ product-advance 1 a (omega arith) ne h ∙ (log_lem a ne h).1
]

pub inverse_lem : (v : ℕ) → v ≢ 0 → v < 256 → (product v (inverse v) ≡ 1) × (inverse v < 256)
inverse_lem v ne h =
    let e : v - 1 + 1 ≡ v = omega arith in
    ground (
      arith,
      holds_for-at 255 (λ i. product (i + 1) (inverse (i + 1)) == 1 && ltb (inverse (i + 1)) 256)
          (v - 1) inverses (omega arith),
      ap inverse e,
      ap (λ t. product t (inverse t)) e,
    )

-- There are no zero divisors.
pub eq-zero_of_product : (a b : ℕ) → a ≢ 0 → a < 256 → b < 256 → product a b ≡ 0 → b ≡ 0
eq-zero_of_product a b ne p q h =
    let (e, small) = inverse_lem a ne p in
    sym (one-product b q)
    ∙ ap (λ t. product t b) (sym (product_comm (inverse a) a ∙ e))
    ∙ product_assoc (inverse a) a b small p q
    ∙ ap (product (inverse a)) h
    ∙ product-zero (inverse a)
