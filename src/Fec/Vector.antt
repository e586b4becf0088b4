-- ===== src/Fec/Vector.antt =====
-- src/fec.cpp: `gf256::multiply_add` and `scale` over buffers. `vector` is the number of bytes that
-- the processor's vector unit takes at a time: 32 with AVX2, 16 with NEON, 0 without one.
use norr.Prelude.{
  ℕ, zero, suc, ◌+◌, ◌-◌, ◌*◌, ◌/◌, ◌^◌, ◌<◌, min, bit_and, bit_xor, ◌≡◌, refl, sym, ap, ap₂, ◌∙◌,
  List, [], ◌∷◌, map, true, false, ◌&&◌, ◌==◌, if◌then◌else◌, length, All, arith,
}
use native.Mathlib.Decide.{ℕ_discrete}
use norr.Prelude.Bytes.{IsByte, byte_at}
use norr.Prelude.Xor.{bit_xor-zero}
use norr.Fec.Field.{product}
use norr.Fec.FieldLaws.{
  product-zero, zero-product, one-product, product-lt, holds_for, holds_for-at,
}
use norr.Fec.Cauchy.{xor-IsByte, product-xor_right}

-- Entry `index` of the row of `nibbles`: the products of the low nibbles, then of the high ones.
unfoldable pub nibbles : ℕ → ℕ → ℕ
nibbles coefficient index =
    if index / 16 == 0
    then product coefficient index
    else product coefficient ((index - 16) * 2 ^ 4)

-- `accumulator[index] ^= source[index]`
unfoldable pub add_bytes : List ℕ → List ℕ → List ℕ
add_bytes [] source = []
add_bytes (a ∷ accumulator) [] = a ∷ accumulator
add_bytes (a ∷ accumulator) (s ∷ source) = bit_xor a s ∷ add_bytes accumulator source

-- `accumulator[index] ^= table[source[index]]`
unfoldable pub add_products : ℕ → List ℕ → List ℕ → List ℕ
add_products coefficient [] source = []
add_products coefficient (a ∷ accumulator) [] = a ∷ accumulator
add_products coefficient (a ∷ accumulator) (s ∷ source) =
    bit_xor a (product coefficient s) ∷ add_products coefficient accumulator source

-- The bytes that the vector unit takes, each by two table look-ups; then the others.
unfoldable pub add_vector : ℕ → ℕ → List ℕ → List ℕ → List ℕ
add_vector zero coefficient accumulator source = add_products coefficient accumulator source
add_vector (suc left) coefficient [] source = []
add_vector (suc left) coefficient (a ∷ accumulator) [] = a ∷ accumulator
add_vector (suc left) coefficient (a ∷ accumulator) (s ∷ source) =
    bit_xor a (
      bit_xor (nibbles coefficient (bit_and s 0x0F))
        (nibbles coefficient (16 + bit_and (s / 2 ^ 4) 0x0F)))
    ∷ add_vector left coefficient accumulator source

-- Where the loop over whole vectors ends: `for (; index + vector <= length; index += vector)`.
unfoldable pub vector_end : ℕ → ℕ → ℕ
vector_end vector length = if vector == 0 then 0 else length / vector * vector

unfoldable pub multiply_add : ℕ → List ℕ → List ℕ → ℕ → List ℕ
multiply_add vector accumulator source coefficient =
    if coefficient == 0
    then accumulator
    else if coefficient == 1
    then add_bytes accumulator source
    else add_vector (vector_end vector (min (length accumulator) (length source))) coefficient
        accumulator source

unfoldable pub scale : List ℕ → ℕ → List ℕ
scale row coefficient = map (product coefficient) row

-- The two nibbles of a byte add up to it.
nibble_sums :
    holds_for 256 (λ s.
      bit_xor (bit_and s 0x0F) (bit_and (s / 2 ^ 4) 0x0F * 2 ^ 4) == s
      && bit_and s 0x0F / 16 == 0
      && bit_and (s / 2 ^ 4) 0x0F / 16 == 0)
    ≡ true
unfolding holds_for
nibble_sums = refl

nibbles_lem :
    (c s : ℕ)
    → IsByte c
    → IsByte s
    → bit_xor (nibbles c (bit_and s 0x0F)) (nibbles c (16 + bit_and (s / 2 ^ 4) 0x0F)) ≡ product c s
unfolding nibbles
nibbles_lem c s p q =
    let checked =
      holds_for-at 256
        (λ t.
          bit_xor (bit_and t 0x0F) (bit_and (t / 2 ^ 4) 0x0F * 2 ^ 4) == t
          && bit_and t 0x0F / 16 == 0
          && bit_and (t / 2 ^ 4) 0x0F / 16 == 0)
        s nibble_sums q in
    let lo : ℕ = bit_and s 0x0F in
    let hi : ℕ = bit_and (s / 2 ^ 4) 0x0F in
    let small : (lo / 16 ≡ 0) × (hi / 16 ≡ 0) × (bit_xor lo (hi * 2 ^ 4) ≡ s) = ground arith in
    let low : (lo / 16 == 0) ≡ true = ground arith in
    let high : ((16 + hi) / 16 == 0) ≡ false = ground arith in
    let shift : 16 + hi - 16 ≡ hi = omega arith in
    rw (low, high, shift)
      (sym (product-xor_right c lo (hi * 2 ^ 4) p (omega arith) (omega arith))
        ∙ ap (product c) small.2)

-- The vector unit computes the products of the table.
add_vector_lem :
    (left c : ℕ) (accumulator source : List ℕ)
    → IsByte c
    → All IsByte source
    → add_vector left c accumulator source ≡ add_products c accumulator source
unfolding add_vector add_products
add_vector_lem zero c accumulator source p q = refl
add_vector_lem (suc left) c [] source p q = refl
add_vector_lem (suc left) c (a ∷ accumulator) [] p q = refl
add_vector_lem (suc left) c (a ∷ accumulator) (s ∷ source) p q =
    ap₂ ◌∷◌ (ap (bit_xor a) (nibbles_lem c s p q.0))
      (add_vector_lem left c accumulator source p q.1)

add_products-one :
    (accumulator source : List ℕ)
    → All IsByte source
    → add_bytes accumulator source ≡ add_products 1 accumulator source
unfolding add_bytes add_products
add_products-one [] source q = refl
add_products-one (a ∷ accumulator) [] q = refl
add_products-one (a ∷ accumulator) (s ∷ source) q =
    ap₂ ◌∷◌ (ap (bit_xor a) (sym (one-product s q.0))) (add_products-one accumulator source q.1)

pub add_products-zero :
    (accumulator source : List ℕ) → accumulator ≡ add_products 0 accumulator source
unfolding add_products
add_products-zero [] source = refl
add_products-zero (a ∷ accumulator) [] = refl
add_products-zero (a ∷ accumulator) (s ∷ source) =
    ap₂ ◌∷◌ (sym (ap (bit_xor a) (zero-product s) ∙ bit_xor-zero a))
      (add_products-zero accumulator source)

-- On every path, whatever the processor, each byte of the source is multiplied by the coefficient
-- and added to the byte of the accumulator at its place.
pub multiply_add-add_products :
    (vector : ℕ) (accumulator source : List ℕ) (c : ℕ)
    → All IsByte source
    → IsByte c
    → multiply_add vector accumulator source c ≡ add_products c accumulator source
unfolding multiply_add
multiply_add-add_products vector accumulator source c q p = elim (ℕ_discrete c 0) [
  | yes e ↦ rw e (add_products-zero accumulator source)
  | no ne ↦ elim (ℕ_discrete c 1) [
    | yes e ↦ rw e (add_products-one accumulator source q)
    | no ne' ↦
        let tests : ((c == 0) ≡ false) × ((c == 1) ≡ false) = ground arith in
        rw (tests.0, tests.1)
          (add_vector_lem (vector_end vector (min (length accumulator) (length source))) c
            accumulator source p q)
  ]
]

-- Whatever the processor's vector unit, the bytes come out as without one.
pub multiply_add-vector :
    (vector : ℕ) (accumulator source : List ℕ) (c : ℕ)
    → All IsByte source
    → IsByte c
    → multiply_add vector accumulator source c ≡ multiply_add 0 accumulator source c
multiply_add-vector vector accumulator source c q p =
    multiply_add-add_products vector accumulator source c q p
    ∙ sym (multiply_add-add_products 0 accumulator source c q p)

pub length-add_products :
    (c : ℕ) (accumulator source : List ℕ)
    → length (add_products c accumulator source) ≡ length accumulator
unfolding add_products
length-add_products c [] source = refl
length-add_products c (a ∷ accumulator) [] = refl
length-add_products c (a ∷ accumulator) (s ∷ source) =
    ap suc (length-add_products c accumulator source)

pub add_products-IsByte :
    (c : ℕ) (accumulator source : List ℕ)
    → IsByte c
    → All IsByte accumulator
    → All IsByte source
    → All IsByte (add_products c accumulator source)
unfolding add_products
add_products-IsByte c [] source p q r = tt
add_products-IsByte c (a ∷ accumulator) [] p q r = q
add_products-IsByte c (a ∷ accumulator) (s ∷ source) p q r = (
  xor-IsByte a (product c s) q.0 (product-lt c s p r.0),
  add_products-IsByte c accumulator source p q.1 r.1,
)

-- A byte past the end of the source counts as 0.
pub byte_at-add_products :
    (c : ℕ) (accumulator source : List ℕ) (j : ℕ)
    → j < length accumulator
    → byte_at (add_products c accumulator source) j
      ≡ bit_xor (byte_at accumulator j) (product c (byte_at source j))
unfolding add_products
byte_at-add_products c [] source j h = absurd (omega arith)
byte_at-add_products c (a ∷ accumulator) [] j h = sym (
    ap (bit_xor (byte_at (a ∷ accumulator) j)) (product-zero c)
    ∙ bit_xor-zero (byte_at (a ∷ accumulator) j))
byte_at-add_products c (a ∷ accumulator) (s ∷ source) zero h = refl
byte_at-add_products c (a ∷ accumulator) (s ∷ source) (suc j) h =
    byte_at-add_products c accumulator source j (omega arith)

pub length-scale : (row : List ℕ) (c : ℕ) → length (scale row c) ≡ length row
unfolding scale
length-scale [] c = refl
length-scale (b ∷ row) c = ap suc (length-scale row c)

pub scale-IsByte : (row : List ℕ) (c : ℕ) → IsByte c → All IsByte row → All IsByte (scale row c)
unfolding scale
scale-IsByte [] c p q = tt
scale-IsByte (b ∷ row) c p q = (product-lt c b p q.0, scale-IsByte row c p q.1)

pub byte_at-scale : (row : List ℕ) (c j : ℕ) → byte_at (scale row c) j ≡ product c (byte_at row j)
unfolding scale
byte_at-scale [] c j = sym (product-zero c)
byte_at-scale (b ∷ row) c zero = refl
byte_at-scale (b ∷ row) c (suc j) = byte_at-scale row c j
