-- ===== src/Blake2s/Words.antt =====
-- src/blake2s.cpp: lists of 32-bit words, and `mix`, against the words of RFC 7693.
use native.Mathlib.Decide.{ℕ_discrete}
use norr.Prelude.{
  ℕ, ◌+◌, ◌*◌, ◌/◌, ◌%◌, ◌^◌, ◌<◌, ◌≡◌, ◌≢◌, refl, sym, ap, subst, ◌∙◌, bit_or, bit_xor, List,
  arith, ==_iff, ==_ne, if◌then◌else◌, length, length-set, get_or, set, get_or-set_self,
  get_or-set_ne,
}
use norr.Prelude.Bits.{bit_ext, bit-bit_or, bit_or_sum, bit_xor-lt}
use norr.Prelude.Bytes.{IsByte, byte_at, u32}
use norr.Blake2s.Hash.{rotate_right, load_le32, mix}
use norr.Blake2s.Rfc.{Words, rotr, little_word, put, g}

bit_or_comm : (a b : ℕ) → bit_or a b ≡ bit_or b a
bit_or_comm a b = bit_ext _ _ (λ k. bit-bit_or a b k ∙ omega arith ∙ sym (bit-bit_or b a k))

-- The bits that leave on the right and those that come in on the left are apart.
rotated : (bits q x : ℕ) → x < 2 ^ bits → bit_or x (q * 2 ^ bits) ≡ x + q * 2 ^ bits
rotated bits q x h = bit_or_comm x (q * 2 ^ bits) ∙ bit_or_sum bits q x h ∙ omega arith

module _ (x : ℕ) (small : x < 2 ^ 32) where
  pub rotate_right-16 : rotate_right x 16 ≡ rotr x 16
  unfolding rotate_right rotr
  rotate_right-16 =
      let left : u32 (x * 2 ^ 16) ≡ x % 2 ^ 16 * 2 ^ 16 = omega arith in
      ap (bit_or (x / 2 ^ 16)) left ∙ rotated 16 (x % 2 ^ 16) (x / 2 ^ 16) (omega arith)

  pub rotate_right-12 : rotate_right x 12 ≡ rotr x 12
  unfolding rotate_right rotr
  rotate_right-12 =
      let left : u32 (x * 2 ^ 20) ≡ x % 2 ^ 12 * 2 ^ 20 = omega arith in
      ap (bit_or (x / 2 ^ 12)) left ∙ rotated 20 (x % 2 ^ 12) (x / 2 ^ 12) (omega arith)

  pub rotate_right-8 : rotate_right x 8 ≡ rotr x 8
  unfolding rotate_right rotr
  rotate_right-8 =
      let left : u32 (x * 2 ^ 24) ≡ x % 2 ^ 8 * 2 ^ 24 = omega arith in
      ap (bit_or (x / 2 ^ 8)) left ∙ rotated 24 (x % 2 ^ 8) (x / 2 ^ 8) (omega arith)

  pub rotate_right-7 : rotate_right x 7 ≡ rotr x 7
  unfolding rotate_right rotr
  rotate_right-7 =
      let left : u32 (x * 2 ^ 25) ≡ x % 2 ^ 7 * 2 ^ 25 = omega arith in
      ap (bit_or (x / 2 ^ 7)) left ∙ rotated 25 (x % 2 ^ 7) (x / 2 ^ 7) (omega arith)

  rotr-lt : (rotr x 16 < 2 ^ 32) × (rotr x 12 < 2 ^ 32) × (rotr x 8 < 2 ^ 32) × (rotr x 7 < 2 ^ 32)
  unfolding rotr
  rotr-lt = omega arith

pub load_le32-little_word :
    (bytes : List ℕ) (i : ℕ)
    → ((j : ℕ) → IsByte (byte_at bytes j))
    → load_le32 bytes (i * 4) ≡ little_word bytes i
unfolding load_le32 little_word
load_le32-little_word bytes i small =
    let a = byte_at bytes (i * 4) in
    let b = byte_at bytes (i * 4 + 1) in
    let c = byte_at bytes (i * 4 + 2) in
    let d = byte_at bytes (i * 4 + 3) in
    let ab : bit_or a (b * 2 ^ 8) ≡ a + b * 2 ^ 8 = rotated 8 b a (small (i * 4)) in
    let abc : bit_or (a + b * 2 ^ 8) (c * 2 ^ 16) ≡ a + b * 2 ^ 8 + c * 2 ^ 16 =
      rotated 16 c (a + b * 2 ^ 8) (omega (arith, small (i * 4), small (i * 4 + 1))) in
    let abcd : bit_or (a + b * 2 ^ 8 + c * 2 ^ 16) (d * 2 ^ 24)
        ≡ a + b * 2 ^ 8 + c * 2 ^ 16 + d * 2 ^ 24 =
      rotated 24 d (a + b * 2 ^ 8 + c * 2 ^ 16)
        (omega (arith, small (i * 4), small (i * 4 + 1), small (i * 4 + 2))) in
    ap (λ t. bit_or (bit_or t (c * 2 ^ 16)) (d * 2 ^ 24)) ab
    ∙ ap (λ t. bit_or t (d * 2 ^ 24)) abc
    ∙ abcd
    ∙ omega arith

-- A list of sixteen words holds those of a function, each of 32 bits.
pub record Holds (v : List ℕ) (w : Words) : Type 0 where
  pub count : length v ≡ 16
  pub each : (i : ℕ) → i < 16 → get_or v i 0 ≡ w i
  pub small : (i : ℕ) → i < 16 → w i < 2 ^ 32

put_at : (w : Words) (i j x : ℕ) → i ≡ j → put w i x j ≡ x
unfolding put
put_at w i j x e = ap (λ b. if b then x else w j) ((==_iff j i).1 (sym e))

put_off : (w : Words) (i j x : ℕ) → i ≢ j → put w i x j ≡ w j
unfolding put
put_off w i j x ne = ap (λ b. if b then x else w j) (==_ne j i (λ q. ne (sym q)))

pub set-Holds :
    (v : List ℕ) (w : Words) (i x : ℕ)
    → Holds v w
    → i < 16
    → x < 2 ^ 32
    → Holds (set v i x) (put w i x)
set-Holds v w i x h at fits = record {
  count = length-set v i x ∙ h.count;
  each = λ j p. elim (ℕ_discrete i j) [
    | yes e ↦
        ap (λ k. get_or (set v i x) k 0) (sym e)
        ∙ get_or-set_self v i x 0 (omega (arith, h.count))
        ∙ sym (put_at w i j x e)
    | no ne ↦ get_or-set_ne v i j x 0 ne ∙ h.each j p ∙ sym (put_off w i j x ne)
  ];
  small = λ j p. elim (ℕ_discrete i j) [
    | yes e ↦ rw (put_at w i j x e) fits
    | no ne ↦ rw (put_off w i j x ne) (h.small j p)
  ];
}

-- The words that `mix` stores, by how it rotates.
abbrev mixed : (ℕ → ℕ → ℕ) → ℕ → ℕ → ℕ → ℕ → ℕ → ℕ → ℕ × ℕ × ℕ × ℕ
mixed rotate a b c d x y =
    let a1 = u32 (a + b + x) in
    let d1 = rotate (bit_xor d a1) 16 in
    let c1 = u32 (c + d1) in
    let b1 = rotate (bit_xor b c1) 12 in
    let a2 = u32 (a1 + b1 + y) in
    let d2 = rotate (bit_xor d1 a2) 8 in
    let c2 = u32 (c1 + d2) in let b2 = rotate (bit_xor b1 c2) 7 in (a2, b2, c2, d2)

module _ (a b c d x y : ℕ) (b_small : b < 2 ^ 32) (d_small : d < 2 ^ 32) where
  abbrev a1 : ℕ
  a1 = u32 (a + b + x)

  abbrev d1 : ℕ
  d1 = rotr (bit_xor d a1) 16

  abbrev c1 : ℕ
  c1 = u32 (c + d1)

  abbrev b1 : ℕ
  b1 = rotr (bit_xor b c1) 12

  abbrev a2 : ℕ
  a2 = u32 (a1 + b1 + y)

  abbrev d2 : ℕ
  d2 = rotr (bit_xor d1 a2) 8

  abbrev c2 : ℕ
  c2 = u32 (c1 + d2)

  abbrev b2 : ℕ
  b2 = rotr (bit_xor b1 c2) 7

  d1_in : bit_xor d a1 < 2 ^ 32
  d1_in = bit_xor-lt 32 d a1 d_small (omega arith)

  b1_in : bit_xor b c1 < 2 ^ 32
  b1_in = bit_xor-lt 32 b c1 b_small (omega arith)

  d2_in : bit_xor d1 a2 < 2 ^ 32
  d2_in = bit_xor-lt 32 d1 a2 (rotr-lt (bit_xor d a1) d1_in).0 (omega arith)

  b2_in : bit_xor b1 c2 < 2 ^ 32
  b2_in = bit_xor-lt 32 b1 c2 (rotr-lt (bit_xor b c1) b1_in).1 (omega arith)

  mixed-rotr : mixed rotate_right a b c d x y ≡ (a2, b2, c2, d2)
  mixed-rotr =
      ap
        (λ (t : ℕ).
          let c' = u32 (c + t) in
          let b' = rotate_right (bit_xor b c') 12 in
          let a' = u32 (a1 + b' + y) in
          let d' = rotate_right (bit_xor t a') 8 in
          let c'' = u32 (c' + d') in (a', rotate_right (bit_xor b' c'') 7, c'', d'))
        (rotate_right-16 (bit_xor d a1) d1_in)
      ∙ ap
          (λ (t : ℕ).
            let a' = u32 (a1 + t + y) in
            let d' = rotate_right (bit_xor d1 a') 8 in
            let c'' = u32 (c1 + d') in (a', rotate_right (bit_xor t c'') 7, c'', d'))
          (rotate_right-12 (bit_xor b c1) b1_in)
      ∙ ap (λ (t : ℕ). let c'' = u32 (c1 + t) in (a2, rotate_right (bit_xor b1 c'') 7, c'', t))
          (rotate_right-8 (bit_xor d1 a2) d2_in)
      ∙ ap (λ (t : ℕ). (a2, t, c2, d2)) (rotate_right-7 (bit_xor b1 c2) b2_in)

  mixed_small : (a2 < 2 ^ 32) × (b2 < 2 ^ 32) × (c2 < 2 ^ 32) × (d2 < 2 ^ 32)
  mixed_small = (
    omega arith,
    (rotr-lt (bit_xor b1 c2) b2_in).3,
    omega arith,
    (rotr-lt (bit_xor d1 a2) d2_in).2,
  )

-- The four words put in their places.
abbrev store : List ℕ → ℕ → ℕ → ℕ → ℕ → ℕ × ℕ × ℕ × ℕ → List ℕ
store v a b c d words = set (set (set (set v a words.0) d words.3) c words.2) b words.1

mix-mixed :
    (v : List ℕ) (a b c d x y : ℕ)
    → mix v a b c d x y
      ≡ store v a b c d
          (mixed rotate_right (get_or v a 0) (get_or v b 0) (get_or v c 0) (get_or v d 0) x y)
unfolding mix
mix-mixed v a b c d x y = refl

pub mix-g :
    (v : List ℕ) (w : Words) (a b c d x y x' y' : ℕ)
    → Holds v w
    → a < 16
    → b < 16
    → c < 16
    → d < 16
    → x ≡ x'
    → y ≡ y'
    → Holds (mix v a b c d x y) (g w a b c d x' y')
unfolding g
mix-g v w a b c d x y x' y' h pa pb pc pd ex ey =
    let same =
      mix-mixed v a b c d x y
      ∙ ap
          (λ t.
            store v a b c d (mixed rotate_right t (get_or v b 0) (get_or v c 0) (get_or v d 0) x y))
          (h.each a pa)
      ∙ ap (λ t. store v a b c d (mixed rotate_right (w a) t (get_or v c 0) (get_or v d 0) x y))
          (h.each b pb)
      ∙ ap (λ t. store v a b c d (mixed rotate_right (w a) (w b) t (get_or v d 0) x y))
          (h.each c pc)
      ∙ ap (λ t. store v a b c d (mixed rotate_right (w a) (w b) (w c) t x y)) (h.each d pd)
      ∙ ap (λ t. store v a b c d (mixed rotate_right (w a) (w b) (w c) (w d) t y)) ex
      ∙ ap (λ t. store v a b c d (mixed rotate_right (w a) (w b) (w c) (w d) x' t)) ey
      ∙ ap (store v a b c d)
          (mixed-rotr (w a) (w b) (w c) (w d) x' y' (h.small b pb) (h.small d pd)) in
    let small = mixed_small (w a) (w b) (w c) (w d) x' y' (h.small b pb) (h.small d pd) in
    subst (λ l. Holds l (g w a b c d x' y')) (sym same)
      (set-Holds _ _ b _
        (set-Holds _ _ c _ (set-Holds _ _ d _ (set-Holds v w a _ h pa small.0) pd small.3) pc
          small.2)
        pb small.1)
