-- ===== src/Prelude/Bits.antt =====
-- The binary digits of words: `|`, `&`, `^` and `~` digit by digit, and the sums they stand for.
use Prim.Native.Nat.{
  ℕ, zero, suc, ◌+◌, ◌-◌, ◌*◌, ◌/◌, ◌%◌, ◌^◌, ◌≤◌, ◌<◌, min, max, bit_and, bit_or, bit_xor,
}
use Prim.Native.Nat.{digits, differ, bit_and-bitwise, bit_or-bitwise, bit_xor-bitwise}
use mathlib.Core.Path.{◌≡◌, refl, sym, ap, ap₂, subst, ◌∙◌}
use mathlib.Core.Logic.{◌≢◌}
use native.Mathlib.Nat.{pow-suc, one-le-pow, mod-lt, div-add-mod', div-div-eq-div-mul}
use native.Mathlib.Omega.{arith}
use native.Mathlib.Decide.{dec_lt, ℕ_discrete}

-- The digit of weight 2 ^ k.
pub bit : ℕ → ℕ → ℕ
bit x zero = x % 2
bit x (suc k) = bit (x / 2) k

pub bit-lt : (x k : ℕ) → bit x k < 2
unfolding bit
bit-lt x zero = omega arith
bit-lt x (suc k) = bit-lt (x / 2) k

pub zero-bit : (k : ℕ) → bit 0 k ≡ 0
unfolding bit
zero-bit zero = refl
zero-bit (suc k) = zero-bit k

pub two-pow-suc : (k : ℕ) → 2 ^ suc k ≡ 2 * 2 ^ k
two-pow-suc k = omega (arith, pow-suc 2 k)

pub two-pow-pos : (k : ℕ) → 0 < 2 ^ k
two-pow-pos k = one-le-pow k 2 (omega arith)

-- Numbers with the same digits are the same.
bit_ext_fuel : (n x y : ℕ) → x ≤ n → y ≤ n → ((k : ℕ) → bit x k ≡ bit y k) → x ≡ y
unfolding bit
bit_ext_fuel zero x y p q h = omega arith
bit_ext_fuel (suc n) zero zero p q h = refl
bit_ext_fuel (suc n) x y p q h =
    let halves : x / 2 ≡ y / 2 =
      bit_ext_fuel n (x / 2) (y / 2) (omega arith) (omega arith) (λ k. h (suc k)) in
    omega (arith, h 0, halves)

pub bit_ext : (x y : ℕ) → ((k : ℕ) → bit x k ≡ bit y k) → x ≡ y
bit_ext x y h = bit_ext_fuel (x + y) x y (omega arith) (omega arith) h

-- The native operations go digit by digit; `base` answers for a first number that has run out.
module _ (base : ℕ → ℕ) (join : ℕ → ℕ → ℕ) (join-lt : (x y : ℕ) → x < 2 → y < 2 → join x y < 2)
    (bit-base : (b k : ℕ) → bit (base b) k ≡ join 0 (bit b k)) where
  bit-digits : (n a b k : ℕ) → a ≤ n → bit (digits base join n a b) k ≡ join (bit a k) (bit b k)
  unfolding bit
  bit-digits zero a b k p = let e : a ≡ 0 = omega arith in rw (e, zero-bit k) (bit-base b k)
  bit-digits (suc n) zero b k p = rw (zero-bit k) (bit-base b k)
  bit-digits (suc n) (suc a) b zero p =
      omega (arith, join-lt (suc a % 2) (b % 2) (omega arith) (omega arith))
  bit-digits (suc n) (suc a) b (suc k) p =
      let rest = digits base join n (suc a / 2) (b / 2) in
      let e : (rest * 2 + join (suc a % 2) (b % 2)) / 2 ≡ rest =
        omega (arith, join-lt (suc a % 2) (b % 2) (omega arith) (omega arith)) in
      rw e (bit-digits n (suc a / 2) (b / 2) k (omega arith))

max-lt : (x y : ℕ) → x < 2 → y < 2 → max x y < 2
max-lt x y p q = omega arith

min-lt : (x y : ℕ) → x < 2 → y < 2 → min x y < 2
min-lt x y p q = omega arith

differ-lt : (x y : ℕ) → x < 2 → y < 2 → differ x y < 2
differ-lt zero y p q = q
differ-lt (suc x) zero p q = p
differ-lt (suc x) (suc y) p q = differ-lt x y (omega arith) (omega arith)

pub bit-bit_or : (a b k : ℕ) → bit (bit_or a b) k ≡ max (bit a k) (bit b k)
bit-bit_or a b k =
    rw (bit_or-bitwise a b)
      (bit-digits (λ y. y) max max-lt (λ y j. omega arith) a a b k (omega arith))

pub bit-bit_and : (a b k : ℕ) → bit (bit_and a b) k ≡ min (bit a k) (bit b k)
bit-bit_and a b k =
    rw (bit_and-bitwise a b)
      (bit-digits (λ y. 0) min min-lt (λ y j. omega (arith, zero-bit j)) a a b k (omega arith))

pub bit-bit_xor : (a b k : ℕ) → bit (bit_xor a b) k ≡ differ (bit a k) (bit b k)
bit-bit_xor a b k =
    rw (bit_xor-bitwise a b)
      (bit-digits (λ y. y) differ differ-lt (λ y j. refl) a a b k (omega arith))

-- The digits of a number made of a high and a low field.
pub bit-fields_low : (w q r k : ℕ) → r < 2 ^ w → k < w → bit (q * 2 ^ w + r) k ≡ bit r k
unfolding bit
bit-fields_low zero q r k h p = absurd (omega arith)
bit-fields_low (suc w) q r zero h p = omega (arith, ap (λ (t : ℕ). q * t) (two-pow-suc w))
bit-fields_low (suc w) q r (suc k) h p =
    let e : (q * 2 ^ suc w + r) / 2 ≡ q * 2 ^ w + r / 2 =
      omega (arith, ap (λ (t : ℕ). q * t) (two-pow-suc w)) in
    rw e (bit-fields_low w q (r / 2) k (omega (arith, two-pow-suc w)) (omega arith))

pub bit-fields_high : (w q r k : ℕ) → r < 2 ^ w → bit (q * 2 ^ w + r) (w + k) ≡ bit q k
unfolding bit
bit-fields_high zero q r k h =
    let e : q * 2 ^ 0 + r ≡ q = omega arith in let f : 0 + k ≡ k = omega arith in rw (e, f) refl
bit-fields_high (suc w) q r k h =
    let e : (q * 2 ^ suc w + r) / 2 ≡ q * 2 ^ w + r / 2 =
      omega (arith, ap (λ (t : ℕ). q * t) (two-pow-suc w)) in
    let f : suc w + k ≡ suc (w + k) = omega arith in
    rw f (ap (λ t. bit t (w + k)) e ∙ bit-fields_high w q (r / 2) k (omega (arith, two-pow-suc w)))

-- A number below 2 ^ w has no digit from w on.
pub bit-high : (w r k : ℕ) → r < 2 ^ w → w ≤ k → bit r k ≡ 0
bit-high w r k h p =
    let e : r ≡ 0 * 2 ^ w + r = omega arith in
    let f : k ≡ w + (k - w) = omega arith in
    rw (e, f) (bit-fields_high w 0 r (k - w) h ∙ zero-bit (k - w))

-- `(q << w) | r` is a sum when `r` fits in w digits.
pub bit_or_sum : (w q r : ℕ) → r < 2 ^ w → bit_or (q * 2 ^ w) r ≡ q * 2 ^ w + r
bit_or_sum w q r h = bit_ext _ _ digit
  where
    whole : q * 2 ^ w ≡ q * 2 ^ w + 0
    whole = omega arith

    low : (k : ℕ) → k < w → bit (bit_or (q * 2 ^ w) r) k ≡ bit (q * 2 ^ w + r) k
    low k p = omega (
      arith,
      bit-bit_or (q * 2 ^ w) r k,
      ap (λ t. bit t k) whole,
      bit-fields_low w q 0 k (two-pow-pos w) p,
      bit-fields_low w q r k h p,
      zero-bit k,
    )

    high : (j k : ℕ) → k ≡ w + j → bit (bit_or (q * 2 ^ w) r) k ≡ bit (q * 2 ^ w + r) k
    high j k e = rw e (
        omega (
          arith,
          bit-bit_or (q * 2 ^ w) r (w + j),
          ap (λ t. bit t (w + j)) whole,
          bit-fields_high w q 0 j (two-pow-pos w),
          bit-fields_high w q r j h,
          bit-high w r (w + j) h (omega arith),
        ))

    digit : (k : ℕ) → bit (bit_or (q * 2 ^ w) r) k ≡ bit (q * 2 ^ w + r) k
    digit k = elim (dec_lt k w) [ yes p ↦ low k p | no p ↦ high (k - w) k (omega arith) ]

-- `~x` in a word of w digits.
unfoldable pub bit_not : ℕ → ℕ → ℕ
bit_not w x = 2 ^ w - 1 - x

pub bit-bit_not : (w x k : ℕ) → x < 2 ^ w → k < w → bit (bit_not w x) k ≡ 1 - bit x k
unfolding bit bit_not
bit-bit_not zero x k h p = absurd (omega arith)
bit-bit_not (suc w) x zero h p = omega (arith, two-pow-suc w)
bit-bit_not (suc w) x (suc k) h p =
    let e : (2 ^ suc w - 1 - x) / 2 ≡ 2 ^ w - 1 - x / 2 = omega (arith, two-pow-suc w) in
    ap (λ t. bit t k) e ∙ bit-bit_not w (x / 2) k (omega (arith, two-pow-suc w)) (omega arith)

pub bit_not-lt : (w x : ℕ) → bit_not w x < 2 ^ w
unfolding bit_not
bit_not-lt w x = omega (arith, two-pow-pos w)

pub bit-ones : (w k : ℕ) → k < w → bit (2 ^ w - 1) k ≡ 1
unfolding bit_not
bit-ones w k p =
    let e : 2 ^ w - 1 - 0 ≡ 2 ^ w - 1 = omega arith in
    omega (arith, ap (λ t. bit t k) e, bit-bit_not w 0 k (two-pow-pos w) p, zero-bit k)

-- A low mask is a remainder.
pub bit_and_mask : (w x : ℕ) → bit_and x (2 ^ w - 1) ≡ x % 2 ^ w
bit_and_mask w x = bit_ext _ _ digit
  where
    high : ℕ
    high = x / 2 ^ w

    low : ℕ
    low = x % 2 ^ w

    low-lt : low < 2 ^ w
    low-lt = mod-lt x (two-pow-pos w)

    split : x ≡ high * 2 ^ w + low
    split = sym (div-add-mod' x (2 ^ w))

    digit : (k : ℕ) → bit (bit_and x (2 ^ w - 1)) k ≡ bit low k
    digit k = elim (dec_lt k w) [
      | yes p ↦ omega (
        arith,
        bit-bit_and x (2 ^ w - 1) k,
        bit-ones w k p,
        bit-lt x k,
        ap (λ t. bit t k) split,
        bit-fields_low w high low k low-lt p,
      )
      | no p ↦ omega (
        arith,
        bit-bit_and x (2 ^ w - 1) k,
        bit-high w (2 ^ w - 1) k (omega (arith, two-pow-pos w)) (omega arith),
        bit-high w low k low-lt (omega arith),
      )
    ]

-- The digits of a word with a single one.
pub bit-two-pow_self : (j : ℕ) → bit (2 ^ j) j ≡ 1
unfolding bit
bit-two-pow_self zero = refl
bit-two-pow_self (suc j) =
    let e : 2 ^ suc j / 2 ≡ 2 ^ j = omega (arith, two-pow-suc j) in
    ap (λ t. bit t j) e ∙ bit-two-pow_self j

pub bit-two-pow_ne : (j k : ℕ) → j ≢ k → bit (2 ^ j) k ≡ 0
unfolding bit
bit-two-pow_ne zero zero h = absurd (h refl)
bit-two-pow_ne zero (suc k) h = zero-bit k
bit-two-pow_ne (suc j) zero h = omega (arith, two-pow-suc j)
bit-two-pow_ne (suc j) (suc k) h =
    let e : 2 ^ suc j / 2 ≡ 2 ^ j = omega (arith, two-pow-suc j) in
    ap (λ t. bit t k) e ∙ bit-two-pow_ne j k (λ p. h (ap suc p))

pub two-pow-lt : (w j : ℕ) → j < w → 2 ^ j < 2 ^ w
two-pow-lt zero j h = absurd (omega arith)
two-pow-lt (suc w) zero h = omega (arith, two-pow-suc w, two-pow-pos w)
two-pow-lt (suc w) (suc j) h =
    omega (arith, two-pow-suc w, two-pow-suc j, two-pow-lt w j (omega arith))

-- `x & (1 << j)` is not 0 exactly when digit j of x is one.
pub bit_and-two-pow : (x j : ℕ) → bit_and x (2 ^ j) ≡ bit x j * 2 ^ j
bit_and-two-pow x j = elim (ℕ_discrete (bit x j) 0) [
  | yes e ↦
      let none : bit_and x (2 ^ j) ≡ 0 = bit_ext _ 0 (λ k. absent e k ∙ sym (zero-bit k)) in
      omega (arith, none, ap (λ (t : ℕ). t * 2 ^ j) e)
  | no ne ↦
      let e : bit x j ≡ 1 = omega (arith, bit-lt x j) in
      let whole : bit_and x (2 ^ j) ≡ 2 ^ j = bit_ext _ _ (present e) in
      omega (arith, whole, ap (λ (t : ℕ). t * 2 ^ j) e)
]
  where
    absent : bit x j ≡ 0 → (k : ℕ) → bit (bit_and x (2 ^ j)) k ≡ 0
    absent e k = elim (ℕ_discrete j k) [
      | yes p ↦ omega (arith, bit-bit_and x (2 ^ j) k, ap (bit x) p)
      | no ne ↦ omega (arith, bit-bit_and x (2 ^ j) k, bit-two-pow_ne j k ne)
    ]

    present : bit x j ≡ 1 → (k : ℕ) → bit (bit_and x (2 ^ j)) k ≡ bit (2 ^ j) k
    present e k = elim (ℕ_discrete j k) [
      | yes p ↦ omega (arith, bit-bit_and x (2 ^ j) k, ap (bit x) p, bit-lt (2 ^ j) k)
      | no ne ↦ omega (arith, bit-bit_and x (2 ^ j) k, bit-two-pow_ne j k ne)
    ]

-- A number with no digit from w on is below 2 ^ w.
pub lt_of_bits : (w x : ℕ) → ((k : ℕ) → w ≤ k → bit x k ≡ 0) → x < 2 ^ w
lt_of_bits w x h = subst (λ t. t < 2 ^ w) (sym (bit_ext _ _ digit)) low-lt
  where
    low : ℕ
    low = x % 2 ^ w

    low-lt : low < 2 ^ w
    low-lt = mod-lt x (two-pow-pos w)

    digit : (k : ℕ) → bit x k ≡ bit low k
    digit k = elim (dec_lt k w) [
      | yes p ↦
          ap (λ t. bit t k) (sym (div-add-mod' x (2 ^ w)))
          ∙ bit-fields_low w (x / 2 ^ w) low k low-lt p
      | no p ↦ h k (omega arith) ∙ sym (bit-high w low k low-lt (omega arith))
    ]

-- The word operations stay in the word.
pub bit_or-lt : (w a b : ℕ) → a < 2 ^ w → b < 2 ^ w → bit_or a b < 2 ^ w
bit_or-lt w a b p q =
    lt_of_bits w _ (λ k h. omega (arith, bit-bit_or a b k, bit-high w a k p h, bit-high w b k q h))

pub bit_and-lt : (w a b : ℕ) → a < 2 ^ w → bit_and a b < 2 ^ w
bit_and-lt w a b p = lt_of_bits w _ (λ k h. omega (arith, bit-bit_and a b k, bit-high w a k p h))

pub bit_xor-lt : (w a b : ℕ) → a < 2 ^ w → b < 2 ^ w → bit_xor a b < 2 ^ w
bit_xor-lt w a b p q =
    lt_of_bits w _ (λ k h. bit-bit_xor a b k ∙ ap₂ differ (bit-high w a k p h) (bit-high w b k q h))

-- A digit by division, and the digits of a remainder.
pub bit-div : (x k : ℕ) → bit x k ≡ x / 2 ^ k % 2
unfolding bit
bit-div x zero = omega arith
bit-div x (suc k) =
    bit-div (x / 2) k
    ∙ ap (λ t. t % 2) (div-div-eq-div-mul x 2 (2 ^ k) ∙ ap (λ (t : ℕ). x / t) (sym (two-pow-suc k)))

pub bit-mod : (w x k : ℕ) → k < w → bit (x % 2 ^ w) k ≡ bit x k
bit-mod w x k p =
    sym (bit-fields_low w (x / 2 ^ w) (x % 2 ^ w) k (mod-lt x (two-pow-pos w)) p)
    ∙ ap (λ t. bit t k) (div-add-mod' x (2 ^ w))
