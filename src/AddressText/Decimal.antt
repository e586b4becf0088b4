-- ===== src/AddressText/Decimal.antt =====
-- Decimal numbers as text.
use native.Mathlib.Decide.{dec_lt}
use norr.Prelude.{
  ℕ, ◌+◌, ◌*◌, ◌/◌, ◌%◌, ◌≤◌, ◌<◌, ◌≡◌, List, [], ◌∷◌, ◌++◌, arith, length, none, some, ok,
}
use norr.AddressText.{digit_value, from_chars, parse_decimal, split_at, has_colon, decimal}

-- The three shapes of a number below 1000.
data Shape (v : ℕ) : Type 0 where
  one : v < 10 → decimal v ≡ (48 + v) ∷ [] → Shape v
  two :
      (a b : ℕ)
      → 1 ≤ a
      → a < 10
      → b < 10
      → v ≡ a * 10 + b
      → decimal v ≡ (48 + a) ∷ (48 + b) ∷ []
      → Shape v
  three :
      (a b c : ℕ)
      → 1 ≤ a
      → a < 10
      → b < 10
      → c < 10
      → v ≡ (a * 10 + b) * 10 + c
      → decimal v ≡ (48 + a) ∷ (48 + b) ∷ (48 + c) ∷ []
      → Shape v

decimal-Shape : (v : ℕ) → v < 1000 → Shape v
unfolding decimal
decimal-Shape v h = elim (dec_lt v 10) [
  | yes p ↦ one p (ground arith)
  | no p ↦ elim (dec_lt v 100) [
    | yes q ↦
        two (v / 10) (v % 10) (omega arith) (omega arith) (omega arith) (omega arith) (ground arith)
    | no q ↦
        three (v / 100) (v / 10 % 10) (v % 10) (omega arith) (omega arith) (omega arith)
          (omega arith) (omega arith) (ground arith)
  ]
]

digit_value-digit : (d : ℕ) → d < 10 → digit_value 10 (48 + d) ≡ some d
unfolding digit_value
digit_value-digit d h = ground arith

-- What a byte's text gives back, at the end of a text and before a dot.
pub parse_decimal-decimal : (v : ℕ) → v < 256 → parse_decimal (decimal v) 255 ≡ ok v
unfolding parse_decimal from_chars
parse_decimal-decimal v h = elim (decimal-Shape v (omega arith)) [
  | one p e ↦ rw e (ground (arith, digit_value-digit v p))
  | two a b l p q s e ↦ rw e (ground (arith, digit_value-digit a p, digit_value-digit b q))
  | three a b c l p q r s e ↦
      rw e (ground (arith, digit_value-digit a p, digit_value-digit b q, digit_value-digit c r))
]

module _ (v : ℕ) (h : v < 256) where
  pub split_at-decimal : split_at 46 (decimal v) ≡ (decimal v, none)
  unfolding split_at
  split_at-decimal = elim (decimal-Shape v (omega arith)) [
    | one p e ↦ rw e (ground arith)
    | two a b l p q s e ↦ rw e (ground arith)
    | three a b c l p q r s e ↦ rw e (ground arith)
  ]

  pub split_at-decimal_dot :
      (rest : List ℕ) → split_at 46 (decimal v ++ (46 ∷ rest)) ≡ (decimal v, some rest)
  unfolding split_at
  split_at-decimal_dot rest = elim (decimal-Shape v (omega arith)) [
    | one p e ↦ rw e (ground arith)
    | two a b l p q s e ↦ rw e (ground arith)
    | three a b c l p q r s e ↦ rw e (ground arith)
  ]

  pub has_colon-decimal : (rest : List ℕ) → has_colon (decimal v ++ rest) ≡ has_colon rest
  unfolding has_colon
  has_colon-decimal rest = elim (decimal-Shape v (omega arith)) [
    | one p e ↦ rw e (ground arith)
    | two a b l p q s e ↦ rw e (ground arith)
    | three a b c l p q r s e ↦ rw e (ground arith)
  ]

  pub length-decimal : (rest : List ℕ) → 1 ≤ length (decimal v ++ rest)
  length-decimal rest = elim (decimal-Shape v (omega arith)) [
    | one p e ↦ rw e (omega arith)
    | two a b l p q s e ↦ rw e (omega arith)
    | three a b c l p q r s e ↦ rw e (omega arith)
  ]
