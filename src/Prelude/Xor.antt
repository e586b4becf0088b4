-- ===== src/Prelude/Xor.antt =====
-- The laws of `^` on words.
use Prim.Native.Nat.{ℕ, zero, suc, ◌<◌, bit_xor, differ}
use mathlib.Core.Path.{◌≡◌, refl, sym, ap, ◌∙◌}
use native.Mathlib.Omega.{arith}
use norr.Prelude.Bits.{bit, bit-lt, bit_ext, zero-bit, bit-bit_xor}

differ_comm : (x y : ℕ) → differ x y ≡ differ y x
differ_comm zero zero = refl
differ_comm zero (suc y) = refl
differ_comm (suc x) zero = refl
differ_comm (suc x) (suc y) = differ_comm x y

differ_self : (x : ℕ) → differ x x ≡ 0
differ_self zero = refl
differ_self (suc x) = differ_self x

differ_zero : (x : ℕ) → differ x 0 ≡ x
differ_zero zero = refl
differ_zero (suc x) = refl

differ_assoc : (x y z : ℕ) → x < 2 → y < 2 → z < 2 → differ (differ x y) z ≡ differ x (differ y z)
differ_assoc zero y z p q r = refl
differ_assoc (suc zero) zero z p q r = refl
differ_assoc (suc zero) (suc zero) zero p q r = refl
differ_assoc (suc zero) (suc zero) (suc zero) p q r = refl
differ_assoc (suc zero) (suc zero) (suc (suc z)) p q r = absurd (omega arith)
differ_assoc (suc zero) (suc (suc y)) z p q r = absurd (omega arith)
differ_assoc (suc (suc x)) y z p q r = absurd (omega arith)

pub bit_xor_comm : (a b : ℕ) → bit_xor a b ≡ bit_xor b a
bit_xor_comm a b =
    bit_ext _ _ (λ k. bit-bit_xor a b k ∙ differ_comm (bit a k) (bit b k) ∙ sym (bit-bit_xor b a k))

pub bit_xor_self : (a : ℕ) → bit_xor a a ≡ 0
bit_xor_self a = bit_ext _ _ (λ k. bit-bit_xor a a k ∙ differ_self (bit a k) ∙ sym (zero-bit k))

pub bit_xor-zero : (a : ℕ) → bit_xor a 0 ≡ a
bit_xor-zero a =
    bit_ext _ _
      (λ k. bit-bit_xor a 0 k ∙ ap (differ (bit a k)) (zero-bit k) ∙ differ_zero (bit a k))

pub zero-bit_xor : (a : ℕ) → bit_xor 0 a ≡ a
zero-bit_xor a = bit_xor_comm 0 a ∙ bit_xor-zero a

pub bit_xor_assoc : (a b c : ℕ) → bit_xor (bit_xor a b) c ≡ bit_xor a (bit_xor b c)
bit_xor_assoc a b c = bit_ext _ _ (λ k.
    bit-bit_xor (bit_xor a b) c k
    ∙ ap (λ t. differ t (bit c k)) (bit-bit_xor a b k)
    ∙ differ_assoc (bit a k) (bit b k) (bit c k) (bit-lt a k) (bit-lt b k) (bit-lt c k)
    ∙ ap (differ (bit a k)) (sym (bit-bit_xor b c k))
    ∙ sym (bit-bit_xor a (bit_xor b c) k))

-- (a ^ b) ^ (c ^ d), paired the other way.
pub bit_xor_swap :
    (a b c d : ℕ) → bit_xor (bit_xor a b) (bit_xor c d) ≡ bit_xor (bit_xor a c) (bit_xor b d)
bit_xor_swap a b c d =
    bit_xor_assoc a b (bit_xor c d)
    ∙ ap (bit_xor a)
        (sym (bit_xor_assoc b c d) ∙ ap (λ t. bit_xor t d) (bit_xor_comm b c) ∙ bit_xor_assoc c b d)
    ∙ sym (bit_xor_assoc a c (bit_xor b d))

-- What is added twice is gone.
pub bit_xor_cancel : (a b : ℕ) → bit_xor (bit_xor a b) b ≡ a
bit_xor_cancel a b = bit_xor_assoc a b b ∙ ap (bit_xor a) (bit_xor_self b) ∙ bit_xor-zero a

-- A sum that is 0 has equal parts.
pub eq_of_bit_xor : (a b : ℕ) → bit_xor a b ≡ 0 → a ≡ b
eq_of_bit_xor a b h = sym (bit_xor_cancel a b) ∙ ap (λ t. bit_xor t b) h ∙ zero-bit_xor b
