-- ===== src/Prelude/Bytes.antt =====
-- Buffers as lists of bytes, and the big-endian fields that the wire formats read and write.
-- A `std::byte` is a number below 256. Every caller tests the buffer's size first, so the reads
-- and writes below stay in range.
use Prim.Native.Nat.{ℕ, zero, suc, ◌+◌, ◌-◌, ◌*◌, ◌/◌, ◌%◌, ◌^◌, ◌≤◌, ◌<◌, bit_or}
use mathlib.Core.Path.{◌≡◌, refl, ap, subst, ◌∙◌}
use mathlib.Core.Logic.{◌⊎◌}
use mathlib.Core.List.{List}
use native.Mathlib.Nat.{
  div-add-mod', mod-lt, mod-eq_of_lt, mul-add-mod_self_right, mul-le-mul_left, mul-le-mul_right,
}
use native.Mathlib.Omega.{arith}
use norr.Prelude.Bits.{bit_or_sum, two-pow-suc, two-pow-pos}
use norr.Prelude.Lists.{
  length, get_or, set, All, length-set, All-set, All-get_or, get_or-set_self, get_or-set_ne,
}

abbrev pub IsByte : ℕ → Type 0
IsByte b = b < 256

abbrev pub byte_at : List ℕ → ℕ → ℕ
byte_at bytes o = get_or bytes o 0

abbrev pub u8 : ℕ → ℕ
u8 n = n % 2 ^ 8

abbrev pub u16 : ℕ → ℕ
u16 n = n % 2 ^ 16

abbrev pub u32 : ℕ → ℕ
u32 n = n % 2 ^ 32

abbrev pub u64 : ℕ → ℕ
u64 n = n % 2 ^ 64

-- `a - b` on 64-bit integers.
abbrev pub sub64 : ℕ → ℕ → ℕ
sub64 a b = u64 (a + (2 ^ 64 - b % 2 ^ 64))

-- The field of `n` bytes at offset `o`, most significant byte first, on top of `value`;
-- `value = (value << 8U) | b[o + i]` in a word of w bits.
unfoldable pub read_be : ℕ → ℕ → List ℕ → ℕ → ℕ → ℕ
read_be w zero bytes o value = value
read_be w (suc left) bytes o value =
    read_be w left bytes (o + 1) (bit_or (value * 2 ^ 8 % 2 ^ w) (byte_at bytes o))

-- `b[o + i] = v >> ((n - 1 - i) * 8)` for each i below n.
unfoldable pub write_be : ℕ → List ℕ → ℕ → ℕ → List ℕ
write_be zero bytes o v = bytes
write_be (suc left) bytes o v = write_be left (set bytes o (u8 (v / 2 ^ (left * 8)))) (o + 1) v

pub length-write_be :
    (n : ℕ) (bytes : List ℕ) (o v : ℕ) → length (write_be n bytes o v) ≡ length bytes
unfolding write_be
length-write_be zero bytes o v = refl
length-write_be (suc n) bytes o v = length-write_be n _ (o + 1) v ∙ length-set bytes o _

pub write_be-All :
    (n : ℕ) (bytes : List ℕ) (o v : ℕ) → All IsByte bytes → All IsByte (write_be n bytes o v)
unfolding write_be
write_be-All zero bytes o v h = h
write_be-All (suc n) bytes o v h =
    write_be-All n _ (o + 1) v (All-set IsByte bytes o _ h (omega arith))

-- A write leaves the bytes outside its field.
pub byte_at-write_be_outside :
    (n : ℕ) (bytes : List ℕ) (o v j : ℕ)
    → (j < o) ⊎ (o + n ≤ j)
    → byte_at (write_be n bytes o v) j ≡ byte_at bytes j
unfolding write_be
byte_at-write_be_outside zero bytes o v j h = refl
byte_at-write_be_outside (suc n) bytes o v j h =
    byte_at-write_be_outside n _ (o + 1) v j (omega arith)
    ∙ get_or-set_ne bytes o j _ 0 (omega arith)

abbrev pub span : ℕ → ℕ
span n = 2 ^ (n * 8)

pub span-pos : (n : ℕ) → 0 < span n
span-pos n = two-pow-pos (n * 8)

pub span-suc : (n : ℕ) → span (suc n) ≡ 256 * span n
span-suc n =
    let e : suc n * 8 ≡ suc (suc (suc (suc (suc (suc (suc (suc (n * 8)))))))) = omega arith in
    ap (λ (t : ℕ). 2 ^ t) e
    ∙ omega (
      arith,
      two-pow-suc (n * 8),
      two-pow-suc (n * 8 + 1),
      two-pow-suc (n * 8 + 2),
      two-pow-suc (n * 8 + 3),
      two-pow-suc (n * 8 + 4),
      two-pow-suc (n * 8 + 5),
      two-pow-suc (n * 8 + 6),
      two-pow-suc (n * 8 + 7),
    )

below-span : (p m r : ℕ) → m < 256 → r < p → m * p + r < 256 * p
below-span p m r h k = grind arith

mod-span : (p v : ℕ) → 0 < p → v % (256 * p) ≡ v / p % 256 * p + v % p
mod-span p v pos =
    ap (λ t. t % (256 * p)) split
    ∙ mul-add-mod_self_right (v / p / 256) (256 * p) rest
    ∙ mod-eq_of_lt (below-span p (v / p % 256) (v % p) (omega arith) (mod-lt v pos))
  where
    rest : ℕ
    rest = v / p % 256 * p + v % p

    split : v ≡ v / p / 256 * (256 * p) + rest
    split = omega (arith, div-add-mod' v p, ap (λ (t : ℕ). t * p) (div-add-mod' (v / p) 256))

room_next : (p m acc b : ℕ) → b < 256 → (acc + 1) * (256 * p) ≤ m → (acc * 256 + b + 1) * p ≤ m
room_next p m acc b h fits =
    let step : (b + 1) * p ≤ 256 * p = mul-le-mul_right p (omega arith) in omega arith

room_shift : (p m acc : ℕ) → 0 < p → (acc + 1) * (256 * p) ≤ m → acc * 256 < m
room_shift p m acc pos fits =
    let step : (acc * 256 + 256) * 1 ≤ (acc * 256 + 256) * p = mul-le-mul_left _ pos in omega arith

-- What a round of `read_be` computes, when the word is wide enough.
pub read_round :
    (w n acc b : ℕ)
    → b < 256
    → (acc + 1) * span (suc n) ≤ 2 ^ w
    → (bit_or (acc * 2 ^ 8 % 2 ^ w) b ≡ acc * 256 + b) × ((acc * 256 + b + 1) * span n ≤ 2 ^ w)
read_round w n acc b h fits =
    let wide : (acc + 1) * (256 * span n) ≤ 2 ^ w =
      subst (λ t. (acc + 1) * t ≤ 2 ^ w) (span-suc n) fits in
    (
      rw (mod-eq_of_lt (room_shift (span n) (2 ^ w) acc (span-pos n) wide)) (bit_or_sum 8 acc b h),
      room_next (span n) (2 ^ w) acc b h wide,
    )

-- Reading a field that was written gives the written value, cut to the field's width.
pub read_be-write_be :
    (w n : ℕ) (bytes : List ℕ) (o v acc : ℕ)
    → o + n ≤ length bytes
    → (acc + 1) * span n ≤ 2 ^ w
    → read_be w n (write_be n bytes o v) o acc ≡ acc * span n + v % span n
unfolding read_be write_be
read_be-write_be w zero bytes o v acc room fits = omega arith
read_be-write_be w (suc n) bytes o v acc room fits =
    let b : ℕ = u8 (v / span n) in
    let round = read_round w n acc b (omega arith) fits in
    let stored : byte_at (write_be n (set bytes o b) (o + 1) v) o ≡ b =
      byte_at-write_be_outside n (set bytes o b) (o + 1) v o (omega arith)
      ∙ get_or-set_self bytes o b 0 (omega arith) in
    let rest =
      read_be-write_be w n (set bytes o b) (o + 1) v (acc * 256 + b)
        (omega (arith, length-set bytes o b)) round.1 in
    rw (stored, round.0)
      (rest
        ∙ omega (
          arith,
          mod-span (span n) v (span-pos n),
          span-suc n,
          ap (λ (t : ℕ). v % t) (span-suc n),
          ap (λ (t : ℕ). acc * t) (span-suc n),
        ))

-- A field read is the value on top of it, shifted, plus what fits in the field.
pub read_be-split :
    (w n : ℕ) (bytes : List ℕ) (o acc : ℕ)
    → All IsByte bytes
    → (acc + 1) * span n ≤ 2 ^ w
    → (r : ℕ) × (read_be w n bytes o acc ≡ acc * span n + r) × (r < span n)
unfolding read_be
read_be-split w zero bytes o acc h fits = (0, omega arith, omega arith)
read_be-split w (suc n) bytes o acc h fits =
    let b : ℕ = byte_at bytes o in
    let small : b < 256 = All-get_or IsByte bytes o 0 h (omega arith) in
    let round = read_round w n acc b small fits in
    let (r, e, lt) = read_be-split w n bytes (o + 1) (acc * 256 + b) h round.1 in
    (
      b * span n + r,
      rw (round.0) (e ∙ omega (arith, ap (λ (t : ℕ). acc * t) (span-suc n))),
      omega (arith, span-suc n, below-span (span n) b r small lt),
    )
