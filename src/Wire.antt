-- ===== src/Wire.antt =====
-- The error values and the 16- and 64-bit fields that the wire formats share:
-- include/norr/error.hpp, and the helpers at the top of src/packet.cpp.
use norr.Prelude.{
  ℕ, zero, suc, ◌+◌, ◌*◌, ◌/◌, ◌%◌, ◌^◌, ◌≤◌, ◌<◌, ◌≡◌, refl, sym, ap, subst, ◌∙◌, ◌⊎◌, bit_or,
  List, arith, length, set, All, All-get_or,
}
use norr.Prelude.Bits.{bit_or_sum}
use norr.Prelude.Bytes.{
  IsByte, byte_at, u8, u16, read_be, write_be, read_be-write_be, length-write_be, write_be-All,
  byte_at-write_be_outside,
}
use norr.Prelude.Fields.{byte_at-write_be-read_be}

-- include/norr/error.hpp
pub data Error : Type 0 where
  malformed_packet packet_too_large unsupported_version unsupported_flags : Error
  payload_length_mismatch counter_exhausted reserved_key_id : Error

unfoldable pub read_u16 : List ℕ → ℕ → ℕ
read_u16 b o = u16 (bit_or (byte_at b o * 2 ^ 8) (byte_at b (o + 1)))

unfoldable pub write_u16 : List ℕ → ℕ → ℕ → List ℕ
write_u16 b o v = set (set b o (u8 (v / 2 ^ 8))) (o + 1) (u8 v)

unfoldable pub read_u64 : List ℕ → ℕ → ℕ
read_u64 b o = read_be 64 8 b o 0

unfoldable pub write_u64 : List ℕ → ℕ → ℕ → List ℕ
write_u64 b o v = write_be 8 b o v

-- Both 16-bit helpers are the general field of two bytes.
pub write_u16-write_be : (b : List ℕ) (o v : ℕ) → write_u16 b o v ≡ write_be 2 b o v
unfolding write_u16 write_be
write_u16-write_be b o v =
    let e : v ≡ v / 2 ^ (0 * 8) = omega arith in
    ap (λ t. set (set b o (u8 (v / 2 ^ 8))) (o + 1) (u8 t)) e

pub read_u16-read_be : (b : List ℕ) (o : ℕ) → All IsByte b → read_u16 b o ≡ read_be 16 2 b o 0
unfolding read_u16 read_be
read_u16-read_be b o h =
    let hi : ℕ = byte_at b o in
    let lo : ℕ = byte_at b (o + 1) in
    let hi_lt : hi < 256 = All-get_or IsByte b o 0 h (omega arith) in
    let lo_lt : lo < 256 = All-get_or IsByte b (o + 1) 0 h (omega arith) in
    let top : bit_or 0 hi ≡ hi = bit_or_sum 8 0 hi hi_lt ∙ omega arith in
    let cut : hi * 256 % 65536 ≡ hi * 256 = omega arith in
    let sum : bit_or (hi * 256) lo ≡ hi * 256 + lo = bit_or_sum 8 hi lo lo_lt in
    rw (top, cut, sum) (omega arith)

pub read_u64-write_u64 :
    (b : List ℕ) (o v : ℕ) → o + 8 ≤ length b → v < 2 ^ 64 → read_u64 (write_u64 b o v) o ≡ v
unfolding read_u64 write_u64
read_u64-write_u64 b o v room h = read_be-write_be 64 8 b o v 0 room (omega arith) ∙ omega arith

pub read_u16-write_u16 :
    (b : List ℕ) (o v : ℕ)
    → All IsByte b
    → o + 2 ≤ length b
    → v < 2 ^ 16
    → read_u16 (write_u16 b o v) o ≡ v
read_u16-write_u16 b o v bytes room h =
    read_u16-read_be (write_u16 b o v) o
      (subst (All IsByte) (sym (write_u16-write_be b o v)) (write_be-All 2 b o v bytes))
    ∙ ap (λ t. read_be 16 2 t o 0) (write_u16-write_be b o v)
    ∙ read_be-write_be 16 2 b o v 0 room (omega arith)
    ∙ omega arith

-- A field depends on its own bytes only.
pub read_be_ext :
    (w n : ℕ) (xs ys : List ℕ) (o acc : ℕ)
    → ((j : ℕ) → o ≤ j → j < o + n → byte_at xs j ≡ byte_at ys j)
    → read_be w n xs o acc ≡ read_be w n ys o acc
unfolding read_be
read_be_ext w zero xs ys o acc h = refl
read_be_ext w (suc n) xs ys o acc h =
    rw (h o (omega arith) (omega arith))
      (read_be_ext w n xs ys (o + 1) _ (λ j p q. h j (omega arith) (omega arith)))

-- What the 16- and 64-bit stores leave alone, and that a read sees its own bytes only.
module _ (b : List ℕ) (o v j : ℕ) where
  pub byte_at-write_u16_outside : (j < o) ⊎ (o + 2 ≤ j) → byte_at (write_u16 b o v) j ≡ byte_at b j
  byte_at-write_u16_outside h =
      ap (λ t. byte_at t j) (write_u16-write_be b o v) ∙ byte_at-write_be_outside 2 b o v j h

  pub byte_at-write_u64_outside : (j < o) ⊎ (o + 8 ≤ j) → byte_at (write_u64 b o v) j ≡ byte_at b j
  unfolding write_u64
  byte_at-write_u64_outside h = byte_at-write_be_outside 8 b o v j h

pub read_u16_ext :
    (xs ys : List ℕ) (o : ℕ)
    → ((j : ℕ) → o ≤ j → j < o + 2 → byte_at xs j ≡ byte_at ys j)
    → read_u16 xs o ≡ read_u16 ys o
unfolding read_u16
read_u16_ext xs ys o h = rw (h o (omega arith) (omega arith), h (o + 1) (omega arith) (omega arith))

pub read_u64_ext :
    (xs ys : List ℕ) (o : ℕ)
    → ((j : ℕ) → o ≤ j → j < o + 8 → byte_at xs j ≡ byte_at ys j)
    → read_u64 xs o ≡ read_u64 ys o
unfolding read_u64
read_u64_ext xs ys o h = read_be_ext 64 8 xs ys o 0 h

pub length-write_u16 : (b : List ℕ) (o v : ℕ) → length (write_u16 b o v) ≡ length b
length-write_u16 b o v = ap length (write_u16-write_be b o v) ∙ length-write_be 2 b o v

pub length-write_u64 : (b : List ℕ) (o v : ℕ) → length (write_u64 b o v) ≡ length b
unfolding write_u64
length-write_u64 b o v = length-write_be 8 b o v

pub write_u16-All : (b : List ℕ) (o v : ℕ) → All IsByte b → All IsByte (write_u16 b o v)
write_u16-All b o v h = subst (All IsByte) (sym (write_u16-write_be b o v)) (write_be-All 2 b o v h)

pub write_u64-All : (b : List ℕ) (o v : ℕ) → All IsByte b → All IsByte (write_u64 b o v)
unfolding write_u64
write_u64-All b o v h = write_be-All 8 b o v h

-- Storing what was read copies the bytes.
module _ (bytes out : List ℕ) (o j : ℕ) (h : All IsByte bytes) (lo : o ≤ j) where
  pub byte_at-write_u16-read_u16 :
      o + 2 ≤ length out
      → j < o + 2
      → byte_at (write_u16 out o (read_u16 bytes o)) j ≡ byte_at bytes j
  byte_at-write_u16-read_u16 room hi =
      ap (λ t. byte_at t j) (write_u16-write_be out o (read_u16 bytes o))
      ∙ ap (λ t. byte_at (write_be 2 out o t) j) (read_u16-read_be bytes o h)
      ∙ byte_at-write_be-read_be 16 2 bytes out o 0 j h room (omega arith) lo hi

  pub byte_at-write_u64-read_u64 :
      o + 8 ≤ length out
      → j < o + 8
      → byte_at (write_u64 out o (read_u64 bytes o)) j ≡ byte_at bytes j
  unfolding write_u64 read_u64
  byte_at-write_u64-read_u64 room hi =
      byte_at-write_be-read_be 64 8 bytes out o 0 j h room (omega arith) lo hi
