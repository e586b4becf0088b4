-- ===== src/Fec/Solution.antt =====
-- src/fec.cpp: a round of the elimination keeps the solutions of the equations, and the equations
-- independent.
use norr.Prelude.{
  ℕ, ◌<◌, bit_xor, ◌≡◌, sym, ap, ap₂, subst, ◌∙◌, ◌≢◌, List, length, All, All-get_or, arith,
}
use native.Mathlib.Decide.{ℕ_discrete}
use norr.Prelude.Bytes.{IsByte, byte_at}
use norr.Prelude.Xor.{bit_xor-zero}
use norr.Fec.Field.{product, inverse}
use norr.Fec.FieldLaws.{product-lt, product-zero, inverse_lem, eq-zero_of_product}
use norr.Fec.Vector.{
  add_products, scale, length-add_products, add_products-IsByte, byte_at-add_products,
  byte_at-scale,
}
use norr.Fec.Elimination.{Equation, row_at, entry_at, normalise, apply_pivot}
use norr.Fec.Dot.{AreSmall, dot, dot-IsByte, dot_cong, dot-scaled, dot-sum}
use norr.Fec.Rounds.{
  IsEquation, normalise_lem, normalise-IsEquation, clear_row_other, origin, length-apply_pivot,
  pivot_row, other_row,
}

pub record IsSystem (n width : ℕ) (rows : List Equation) : Type 0 where
  pub count : length rows ≡ n
  pub each : (r : ℕ) → r < n → IsEquation n width (row_at rows r)

pub bytes-AreSmall : (m : List ℕ) → All IsByte m → AreSmall (byte_at m)
bytes-AreSmall m h c = All-get_or IsByte m c 0 h (omega arith)

abbrev pub value : ℕ → Equation → (ℕ → ℕ) → ℕ
value n e b = dot n (byte_at e.0) b

value-scale :
    (n : ℕ) (m : List ℕ) (f : ℕ) (b : ℕ → ℕ)
    → IsByte f
    → All IsByte m
    → AreSmall b
    → dot n (byte_at (scale m f)) b ≡ product f (dot n (byte_at m) b)
value-scale n m f b hf hm hb =
    dot_cong n (byte_at (scale m f)) (λ c. product f (byte_at m c)) b (λ c p. byte_at-scale m f c)
    ∙ dot-scaled n f (byte_at m) b hf (bytes-AreSmall m hm) hb

value-add_products :
    (n : ℕ) (m p : List ℕ) (k : ℕ) (b : ℕ → ℕ)
    → length m ≡ n
    → IsByte k
    → All IsByte m
    → All IsByte p
    → AreSmall b
    → dot n (byte_at (add_products k m p)) b
      ≡ bit_xor (dot n (byte_at m) b) (product k (dot n (byte_at p) b))
value-add_products n m p k b l hk hm hp hb =
    dot_cong n (byte_at (add_products k m p)) (λ c. bit_xor (byte_at m c) (product k (byte_at p c)))
      b (λ c h. byte_at-add_products k m p c (omega arith))
    ∙ dot-sum n (byte_at m) (λ c. product k (byte_at p c)) b (bytes-AreSmall m hm)
        (λ c. product-lt k (byte_at p c) hk (bytes-AreSmall p hp c)) hb
    ∙ ap (bit_xor (dot n (byte_at m) b)) (dot-scaled n k (byte_at p) b hk (bytes-AreSmall p hp) hb)

module _ (vector n width column pivot : ℕ) (rows : List Equation) (system : IsSystem n width rows)
    (in_column : column < n) (in_pivot : pivot < n) (found : entry_at rows pivot column ≢ 0) where
  abbrev pub old : ℕ → Equation
  old r = row_at rows r

  abbrev pub new : ℕ → Equation
  new r = row_at (apply_pivot vector column pivot rows) r

  abbrev pub scaled : Equation
  scaled = normalise column (old pivot)

  abbrev factor : ℕ
  factor = inverse (entry_at rows pivot column)

  pivot_lem : (product (entry_at rows pivot column) factor ≡ 1) × IsByte factor
  pivot_lem =
      inverse_lem (entry_at rows pivot column) found
        (bytes-AreSmall (old pivot).0 (system.each pivot in_pivot).bytes column)

  column_lt : column < length rows
  column_lt = omega (arith, system.count)

  pivot_lt : pivot < length rows
  pivot_lt = omega (arith, system.count)

  new-column : new column ≡ scaled
  new-column = pivot_row vector column pivot rows column_lt pivot_lt

  scaled-IsEquation : IsEquation n width scaled
  scaled-IsEquation =
      normalise-IsEquation vector n width column (old pivot) (system.each pivot in_pivot) found

  origin_lt : (r : ℕ) → r < n → origin column pivot r < n
  origin_lt r h = ground arith

  abbrev pub mixed : ℕ → Equation
  mixed r =
      let e = old (origin column pivot r) in
      (
        add_products (byte_at e.0 column) e.0 scaled.0,
        add_products (byte_at e.0 column) e.1 scaled.1,
      )

  new_other : (r : ℕ) → r < n → r ≢ column → new r ≡ mixed r
  new_other r h ne =
      other_row vector column pivot rows column_lt pivot_lt r (omega (arith, system.count)) ne
      ∙ clear_row_other vector n width column scaled r (old (origin column pivot r)) ne
          scaled-IsEquation (system.each (origin column pivot r) (origin_lt r h))

  entry_small : (r : ℕ) → r < n → IsByte (entry_at rows r column)
  entry_small r h = bytes-AreSmall (old r).0 (system.each r h).bytes column

  mixed-IsEquation : (r : ℕ) → r < n → IsEquation n width (mixed r)
  mixed-IsEquation r h =
      let o : ℕ = origin column pivot r in
      let e = system.each o (origin_lt r h) in
      let k : ℕ = entry_at rows o column in
      record {
        columns = length-add_products k (old o).0 scaled.0 ∙ e.columns;
        bytes =
            add_products-IsByte k (old o).0 scaled.0 (entry_small o (origin_lt r h)) e.bytes
              scaled-IsEquation.bytes;
        wide = length-add_products k (old o).1 scaled.1 ∙ e.wide;
        sums =
            add_products-IsByte k (old o).1 scaled.1 (entry_small o (origin_lt r h)) e.sums
              scaled-IsEquation.sums;
      }

  -- A property of the scaled row and of the others, after the round.
  pub each_row {ℓ} :
      (P : ℕ → Equation → Type ℓ)
      → P column scaled
      → ((r : ℕ) → r < n → r ≢ column → P r (mixed r))
      → (r : ℕ) → r < n
      → P r (new r)
  each_row P ps pm r h = elim (ℕ_discrete r column) [
    | yes e ↦ subst (λ t. P t (new t)) (sym e) (subst (P column) (sym new-column) ps)
    | no ne ↦ subst (P r) (sym (new_other r h ne)) (pm r h ne)
  ]

  pub apply_pivot-IsSystem : IsSystem n width (apply_pivot vector column pivot rows)
  apply_pivot-IsSystem = record {
    count = length-apply_pivot vector column pivot rows column_lt pivot_lt ∙ system.count;
    each =
        each_row (λ r e. IsEquation n width e) scaled-IsEquation (λ r h ne. mixed-IsEquation r h);
  }

  scaled_value :
      (b : ℕ → ℕ) → AreSmall b → value n scaled b ≡ product factor (value n (old pivot) b)
  scaled_value b hb =
      ap (λ (t : Equation). value n t b) (normalise_lem column (old pivot))
      ∙ value-scale n (old pivot).0 factor b pivot_lem.1 (system.each pivot in_pivot).bytes hb

  mixed_value :
      (r : ℕ) (b : ℕ → ℕ)
      → r < n
      → AreSmall b
      → value n (mixed r) b
        ≡ bit_xor
            (value n (old (origin column pivot r)) b)
            (product (entry_at rows (origin column pivot r) column) (value n scaled b))
  mixed_value r b h hb =
      let o : ℕ = origin column pivot r in
      let e = system.each o (origin_lt r h) in
      value-add_products n (old o).0 scaled.0 (entry_at rows o column) b e.columns
        (entry_small o (origin_lt r h)) e.bytes scaled-IsEquation.bytes hb

  -- What solves the equations before the round solves them after it.
  pub apply_pivot-solved :
      (b : ℕ → ℕ) (j : ℕ)
      → AreSmall b
      → j < width
      → ((r : ℕ) → r < n → value n (old r) b ≡ byte_at (old r).1 j)
      → (r : ℕ) → r < n
      → value n (new r) b ≡ byte_at (new r).1 j
  apply_pivot-solved b j hb hj solved =
      each_row (λ r e. value n e b ≡ byte_at e.1 j) for_scaled for_mixed
    where
      for_scaled : value n scaled b ≡ byte_at scaled.1 j
      for_scaled =
          scaled_value b hb
          ∙ ap (product factor) (solved pivot in_pivot)
          ∙ sym (byte_at-scale (old pivot).1 factor j)
          ∙ ap (λ (t : Equation). byte_at t.1 j) (sym (normalise_lem column (old pivot)))

      for_mixed : (r : ℕ) → r < n → r ≢ column → value n (mixed r) b ≡ byte_at (mixed r).1 j
      for_mixed r h ne =
          let o : ℕ = origin column pivot r in
          let e = system.each o (origin_lt r h) in
          mixed_value r b h hb
          ∙ ap₂ (λ s t. bit_xor s (product (entry_at rows o column) t)) (solved o (origin_lt r h))
              for_scaled
          ∙ sym (
              byte_at-add_products (entry_at rows o column) (old o).1 scaled.1 j
                (omega (arith, e.wide)))

  -- What makes every row 0 after the round made it 0 before.
  module _ (w : ℕ → ℕ) (hw : AreSmall w) (zeros : (r : ℕ) → r < n → value n (new r) w ≡ 0) where
    scaled_zero : value n scaled w ≡ 0
    scaled_zero = ap (λ (t : Equation). value n t w) (sym new-column) ∙ zeros column in_column

    old_pivot_zero : value n (old pivot) w ≡ 0
    old_pivot_zero =
        eq-zero_of_product factor (value n (old pivot) w) factor_ne pivot_lem.1
          (dot-IsByte n _ w (bytes-AreSmall (old pivot).0 (system.each pivot in_pivot).bytes) hw)
          (sym (scaled_value w hw) ∙ scaled_zero)
      where
        factor_ne : factor ≢ 0
        factor_ne z = absurd (
            omega (
              arith,
              pivot_lem.0,
              ap (product (entry_at rows pivot column)) z,
              product-zero (entry_at rows pivot column),
            ))

    old_origin_zero : (r : ℕ) → r < n → r ≢ column → value n (old (origin column pivot r)) w ≡ 0
    old_origin_zero r h ne =
        let k : ℕ = entry_at rows (origin column pivot r) column in
        sym (
          ap (bit_xor (value n (old (origin column pivot r)) w))
            (ap (product k) scaled_zero ∙ product-zero k)
          ∙ bit_xor-zero (value n (old (origin column pivot r)) w))
        ∙ sym (mixed_value r w h hw)
        ∙ ap (λ (t : Equation). value n t w) (sym (new_other r h ne))
        ∙ zeros r h

    pub apply_pivot-zeros : (r : ℕ) → r < n → value n (old r) w ≡ 0
    apply_pivot-zeros r h = elim (ℕ_discrete r pivot) [
      | yes e ↦ rw e old_pivot_zero
      | no np ↦ elim (ℕ_discrete r column) [
        | yes e ↦
            let back : origin column pivot pivot ≡ column = ground arith in
            rw e (
              ap (λ t. value n (old t) w) (sym back)
              ∙ old_origin_zero pivot in_pivot (λ q. np (e ∙ sym q)))
        | no nc ↦
            let back : origin column pivot r ≡ r = ground arith in
            ap (λ t. value n (old t) w) (sym back) ∙ old_origin_zero r h nc
      ]
    ]
