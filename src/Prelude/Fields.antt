-- ===== src/Prelude/Fields.antt =====
-- The big-endian fields the other way: writing back what was read, and the bounds of a field.
use mathlib.Core.Path.{◌≡◌, refl, ap, ap₂, ◌∙◌}
use mathlib.Core.Logic.{inl}
use mathlib.Core.List.{List, [], ◌∷◌}
use Prim.Native.Nat.{ℕ, zero, suc, ◌+◌, ◌*◌, ◌/◌, ◌^◌, ◌≤◌, ◌<◌}
use native.Mathlib.Nat.{div-eq_of_lt-le}
use native.Mathlib.Decide.{ℕ_discrete}
use native.Mathlib.Omega.{arith}
use norr.Prelude.Lists.{length, set, All, get_or-set_self, length-set, All-get_or}
use norr.Prelude.Bytes.{
  IsByte, byte_at, u8, read_be, write_be, span, read_round, read_be-split, byte_at-write_be_outside,
}

quotient : (p a r : ℕ) → r < p → (a * p + r) / p ≡ a
quotient p a r h = div-eq_of_lt-le p (omega arith) (omega arith)

-- A field of n bytes is below 2 ^ (8 n).
pub read_be-lt :
    (w n : ℕ) (bytes : List ℕ) (o : ℕ)
    → All IsByte bytes
    → span n ≤ 2 ^ w
    → read_be w n bytes o 0 < span n
read_be-lt w n bytes o h fits =
    let (r, e, lt) = read_be-split w n bytes o 0 h (omega arith) in omega arith

-- Writing the field that was read from one buffer copies its bytes into the other.
pub byte_at-write_be-read_be :
    (w n : ℕ) (bytes out : List ℕ) (o acc j : ℕ)
    → All IsByte bytes
    → o + n ≤ length out
    → (acc + 1) * span n ≤ 2 ^ w
    → o ≤ j
    → j < o + n
    → byte_at (write_be n out o (read_be w n bytes o acc)) j ≡ byte_at bytes j
unfolding read_be write_be
byte_at-write_be-read_be w zero bytes out o acc j h room fits lo hi = absurd (omega arith)
byte_at-write_be-read_be w (suc n) bytes out o acc j h room fits lo hi =
    let b : ℕ = byte_at bytes o in
    let small : b < 256 = All-get_or IsByte bytes o 0 h (omega arith) in
    let round = read_round w n acc b small fits in
    let (r, e, lt) = read_be-split w n bytes (o + 1) (acc * 256 + b) h round.1 in
    let v : ℕ = read_be w n bytes (o + 1) (acc * 256 + b) in
    let first : u8 (v / span n) ≡ b =
      omega (arith, ap (λ (t : ℕ). t / span n) e, quotient (span n) (acc * 256 + b) r lt) in
    rw round.0 (elim (ℕ_discrete j o) [
      | yes p ↦ rw p (
          byte_at-write_be_outside n (set out o _) (o + 1) _ o (inl (omega arith))
          ∙ get_or-set_self out o _ 0 (omega arith)
          ∙ first)
      | no ne ↦
          byte_at-write_be-read_be w n bytes (set out o _) (o + 1) (acc * 256 + b) j h
            (omega (arith, length-set out o (u8 (v / span n)))) round.1 (omega arith) (omega arith)
    ])

-- Buffers of the same length with the same bytes are the same.
pub byte_ext :
    (xs ys : List ℕ)
    → length xs ≡ length ys
    → ((j : ℕ) → j < length xs → byte_at xs j ≡ byte_at ys j)
    → xs ≡ ys
byte_ext [] [] e h = refl
byte_ext [] (y ∷ ys) e h = absurd (omega arith)
byte_ext (x ∷ xs) [] e h = absurd (omega arith)
byte_ext (x ∷ xs) (y ∷ ys) e h =
    ap₂ ◌∷◌ (h 0 (omega arith)) (byte_ext xs ys (omega arith) (λ j p. h (suc j) (omega arith)))
