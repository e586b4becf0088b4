-- ===== src/Fec/Dot.antt =====
-- src/fec.cpp: the value of a row of `matrix` at the unknowns, a sum over the columns.
use norr.Prelude.{
  ℕ, zero, suc, ◌+◌, ◌≤◌, ◌<◌, bit_xor, ◌≡◌, refl, sym, ap, ap₂, ◌∙◌, ◌≢◌, ◌==◌, if◌then◌else◌,
  arith,
}
use native.Mathlib.Decide.{ℕ_discrete}
use norr.Prelude.Bytes.{IsByte}
use norr.Prelude.Xor.{bit_xor_self, bit_xor-zero, zero-bit_xor, bit_xor_swap}
use norr.Fec.Field.{product}
use norr.Fec.FieldLaws.{product_assoc, product-lt, product-zero, zero-product, one-product}
use norr.Fec.Cauchy.{xor-IsByte, product-xor, product-xor_right}

-- A sum of products over the first n columns.
unfoldable pub dot : ℕ → (ℕ → ℕ) → (ℕ → ℕ) → ℕ
dot zero a b = 0
dot (suc n) a b = bit_xor (dot n a b) (product (a n) (b n))

abbrev pub AreSmall : (ℕ → ℕ) → Type 0
AreSmall b = (c : ℕ) → IsByte (b c)

pub dot-IsByte : (n : ℕ) (a b : ℕ → ℕ) → AreSmall a → AreSmall b → IsByte (dot n a b)
unfolding dot
dot-IsByte zero a b p q = omega arith
dot-IsByte (suc n) a b p q =
    xor-IsByte _ _ (dot-IsByte n a b p q) (product-lt (a n) (b n) (p n) (q n))

pub dot_cong : (n : ℕ) (a a' b : ℕ → ℕ) → ((c : ℕ) → c < n → a c ≡ a' c) → dot n a b ≡ dot n a' b
unfolding dot
dot_cong zero a a' b h = refl
dot_cong (suc n) a a' b h =
    ap₂ bit_xor (dot_cong n a a' b (λ c p. h c (omega arith)))
      (ap (λ t. product t (b n)) (h n (omega arith)))

-- A row times a factor.
pub dot-scaled :
    (n k : ℕ) (a b : ℕ → ℕ)
    → IsByte k
    → AreSmall a
    → AreSmall b
    → dot n (λ c. product k (a c)) b ≡ product k (dot n a b)
unfolding dot
dot-scaled zero k a b h p q = sym (product-zero k)
dot-scaled (suc n) k a b h p q =
    ap₂ bit_xor (dot-scaled n k a b h p q) (product_assoc k (a n) (b n) h (p n) (q n))
    ∙ sym (
        product-xor_right k (dot n a b) (product (a n) (b n)) h (dot-IsByte n a b p q)
          (product-lt (a n) (b n) (p n) (q n)))

-- The sum of two rows.
pub dot-sum :
    (n : ℕ) (a a' b : ℕ → ℕ)
    → AreSmall a
    → AreSmall a'
    → AreSmall b
    → dot n (λ c. bit_xor (a c) (a' c)) b ≡ bit_xor (dot n a b) (dot n a' b)
unfolding dot
dot-sum zero a a' b p p' q = sym (bit_xor_self 0)
dot-sum (suc n) a a' b p p' q =
    ap₂ bit_xor (dot-sum n a a' b p p' q) (product-xor (a n) (a' n) (b n) (p n) (p' n) (q n))
    ∙ bit_xor_swap (dot n a b) (dot n a' b) (product (a n) (b n)) (product (a' n) (b n))

abbrev pub unit : ℕ → ℕ → ℕ
unit r c = if r == c then 1 else 0

pub unit_self : (r : ℕ) → unit r r ≡ 1
unit_self r = ground arith

pub unit_ne : (r c : ℕ) → r ≢ c → unit r c ≡ 0
unit_ne r c ne = ground arith

pub dot-unit_past : (n r : ℕ) (b : ℕ → ℕ) → n ≤ r → dot n (unit r) b ≡ 0
unfolding dot
dot-unit_past zero r b h = refl
dot-unit_past (suc n) r b h =
    ap₂ bit_xor (dot-unit_past n r b (omega arith))
      (ap (λ t. product t (b n)) (unit_ne r n (λ e. absurd (omega arith))) ∙ zero-product (b n))
    ∙ bit_xor_self 0

pub dot-unit : (n r : ℕ) (b : ℕ → ℕ) → AreSmall b → r < n → dot n (unit r) b ≡ b r
unfolding dot
dot-unit zero r b q h = absurd (omega arith)
dot-unit (suc n) r b q h = elim (ℕ_discrete r n) [
  | yes e ↦
      ap₂ bit_xor (dot-unit_past n r b (omega arith))
        (ap₂ product (ap (unit r) (sym e) ∙ unit_self r) (ap b (sym e)) ∙ one-product (b r) (q r))
      ∙ zero-bit_xor (b r)
  | no ne ↦
      ap₂ bit_xor (dot-unit n r b q (omega arith))
        (ap (λ t. product t (b n)) (unit_ne r n ne) ∙ zero-product (b n))
      ∙ bit_xor-zero (b r)
]

-- Columns that weigh 0 add nothing.
pub dot-past : (k n : ℕ) (a b : ℕ → ℕ) → ((c : ℕ) → n ≤ c → b c ≡ 0) → dot (k + n) a b ≡ dot n a b
unfolding dot
dot-past zero n a b z = let e : 0 + n ≡ n = omega arith in ap (λ t. dot t a b) e
dot-past (suc k) n a b z =
    let e : suc k + n ≡ suc (k + n) = omega arith in
    ap (λ t. dot t a b) e
    ∙ ap₂ bit_xor (dot-past k n a b z)
        (ap (product (a (k + n))) (z (k + n) (omega arith)) ∙ product-zero (a (k + n)))
    ∙ bit_xor-zero (dot n a b)
