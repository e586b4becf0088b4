-- ===== src/Spoof/Bitmap.antt =====
-- src/spoof_feedback.cpp: the bits of a receipt's bitmap.
use norr.Prelude.{
  ℕ, ◌+◌, ◌*◌, ◌/◌, ◌%◌, ◌^◌, ◌≤◌, ◌<◌, bit_and, bit_or, ◌≡◌, refl, sym, ap, ap₂, ◌∙◌, Bool, true,
  false, not, ◌&&◌, ◌||◌, List, [], ◌∷◌, ltb, leb, ◌==◌, length, get_or, set, replicate, length-set,
  length-replicate, get_or-set_self, get_or-set_ne, get_or-replicate, arith,
}
use native.Mathlib.Decide.{dec_lt, ℕ_discrete}
use norr.Prelude.Bits.{
  bit, bit-lt, bit-div, bit-bit_or, bit_and_mask, bit-two-pow_self, bit-two-pow_ne, zero-bit,
}
use norr.Spoof.Receipts.{mark, mark_all, make_receipt_bitmap, receipt_bit, seen}

abbrev is_set : ℕ → ℕ → Bool
is_set word k = not (bit_and (word / 2 ^ k) 1 == 0)

is_set-bit : (word k : ℕ) → is_set word k ≡ (bit word k == 1)
is_set-bit word k = ground (arith, bit_and_mask 1 (word / 2 ^ k), bit-div word k, bit-lt word k)

-- Setting one bit of a word.
is_set-or : (word m k : ℕ) → is_set (bit_or word (2 ^ m)) k ≡ (is_set word k || m == k)
is_set-or word m k = elim (ℕ_discrete m k) [
  | yes e ↦
      let one : bit (2 ^ m) k ≡ 1 = ap (bit (2 ^ m)) (sym e) ∙ bit-two-pow_self m in
      ground (
        arith,
        is_set-bit (bit_or word (2 ^ m)) k,
        is_set-bit word k,
        bit-bit_or word (2 ^ m) k,
        bit-lt word k,
      )
  | no ne ↦ ground (
    arith,
    is_set-bit (bit_or word (2 ^ m)) k,
    is_set-bit word k,
    bit-bit_or word (2 ^ m) k,
    bit-two-pow_ne m k ne,
    bit-lt word k,
  )
]

length-mark : (n : ℕ) (bitmap : List ℕ) (j : ℕ) → length (mark n bitmap j) ≡ length bitmap
unfolding mark
length-mark n bitmap j = elim (dec_lt j n) [
  | yes p ↦ let test : leb n j ≡ false = ground arith in rw test (length-set bitmap (j / 64) _)
  | no p ↦ let test : leb n j ≡ true = ground arith in rw test refl
]

same_index : (i j : ℕ) → i / 64 ≡ j / 64 → (j % 64 == i % 64) ≡ (j == i)
same_index i j e = ground arith

-- Marking an index that the pool has sets its bit and no other.
receipt_bit-mark :
    (n : ℕ) (bitmap : List ℕ) (j i : ℕ)
    → j < n
    → n ≤ length bitmap * 64
    → receipt_bit (mark n bitmap j) i ≡ (receipt_bit bitmap i || j == i)
unfolding mark receipt_bit
receipt_bit-mark n bitmap j i h room =
    let inside : leb n j ≡ false = ground arith in
    let w : ℕ = bit_or (get_or bitmap (j / 64) 0) (2 ^ (j % 64)) in
    let size : length (set bitmap (j / 64) w) ≡ length bitmap = length-set bitmap (j / 64) w in
    rw (inside, size)
      (elim (dec_lt (i / 64) (length bitmap)) [
        | no p ↦
            let out : leb (length bitmap) (i / 64) ≡ true = ground arith in
            let other : (j == i) ≡ false = ground arith in rw (out, other) refl
        | yes p ↦
            let out : leb (length bitmap) (i / 64) ≡ false = ground arith in
            rw out (elim (ℕ_discrete (j / 64) (i / 64)) [
              | yes e ↦
                  let word : get_or (set bitmap (j / 64) w) (i / 64) 0 ≡ w =
                    ap (λ t. get_or (set bitmap t w) (i / 64) 0) e
                    ∙ get_or-set_self bitmap (i / 64) w 0 p in
                  rw word (
                    is_set-or (get_or bitmap (j / 64) 0) (j % 64) (i % 64)
                    ∙ ap₂ (λ s t. is_set (get_or bitmap s 0) (i % 64) || t) e
                        (same_index i j (sym e)))
              | no ne ↦
                  let word : get_or (set bitmap (j / 64) w) (i / 64) 0 ≡ get_or bitmap (i / 64) 0 =
                    get_or-set_ne bitmap (j / 64) (i / 64) w 0 ne in
                  let other : (j == i) ≡ false = ground arith in
                  rw (word, other) (or_false (is_set (get_or bitmap (i / 64) 0) (i % 64)))
            ])
      ])
  where
    or_false : (b : Bool) → b ≡ (b || false)
    or_false true = refl
    or_false false = refl

mark_outside : (n : ℕ) (bitmap : List ℕ) (j : ℕ) → n ≤ j → mark n bitmap j ≡ bitmap
unfolding mark
mark_outside n bitmap j h = let test : leb n j ≡ true = ground arith in rw test refl

receipt_bit-mark_all :
    (n : ℕ) (received bitmap : List ℕ) (i : ℕ)
    → n ≤ length bitmap * 64
    → receipt_bit (mark_all n received bitmap) i
      ≡ (receipt_bit bitmap i || (ltb i n && seen received i))
unfolding mark_all seen
receipt_bit-mark_all n [] bitmap i room = ground arith
receipt_bit-mark_all n (j ∷ received) bitmap i room = elim (dec_lt j n) [
  | yes p ↦ ground (
    arith,
    receipt_bit-mark_all n received (mark n bitmap j) i (omega (arith, length-mark n bitmap j)),
    receipt_bit-mark n bitmap j i p room,
  )
  | no p ↦
      ap (λ t. receipt_bit (mark_all n received t) i) (mark_outside n bitmap j (omega arith))
      ∙ receipt_bit-mark_all n received bitmap i room
      ∙ ground arith
]

no_bits : (words i : ℕ) → receipt_bit (replicate words 0) i ≡ false
unfolding receipt_bit
no_bits words i =
    rw (get_or-replicate {A = ℕ} words (i / 64) 0)
      (ground (arith, is_set-bit 0 (i % 64), zero-bit (i % 64)))

-- In the bitmap made from the indices received, a bit is set exactly when its index was received
-- and the pool has it.
pub receipt_bit-make_receipt_bitmap :
    (received : List ℕ) (pool_size i : ℕ)
    → receipt_bit (make_receipt_bitmap received pool_size) i ≡ (ltb i pool_size && seen received i)
unfolding make_receipt_bitmap
receipt_bit-make_receipt_bitmap received pool_size i =
    receipt_bit-mark_all pool_size received (replicate ((pool_size + 63) / 64) 0) i
      (omega (arith, length-replicate {A = ℕ} ((pool_size + 63) / 64) 0))
    ∙ ap (λ t. t || (ltb i pool_size && seen received i)) (no_bits ((pool_size + 63) / 64) i)
