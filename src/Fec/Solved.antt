-- ===== src/Fec/Solved.antt =====
-- src/fec.cpp: the elimination finds a pivot in every column of independent equations, and ends with
-- the unknowns in the syndromes.
use norr.Prelude.{
  ℕ, zero, suc, ◌+◌, ◌-◌, ◌≤◌, ◌<◌, bit_xor, ◌≡◌, refl, sym, ap, ap₂, subst, ◌∙◌, ◌≢◌, ◌⊎◌, inl,
  inr, List, some, ◌==◌, if◌then◌else◌, true, false, length, ltb, arith,
}
use native.Mathlib.Decide.{dec_lt, ℕ_discrete}
use norr.Prelude.Bytes.{byte_at}
use norr.Prelude.Xor.{bit_xor_self, bit_xor-zero}
use norr.Fec.Field.{product, inverse}
use norr.Fec.FieldLaws.{product_comm, product-zero, one-product, inverse_lem}
use norr.Fec.Vector.{add_products, byte_at-add_products, byte_at-scale}
use norr.Fec.Elimination.{
  Equation, row_at, entry_at, find_pivot, normalise, apply_pivot, eliminate, solve,
}
use norr.Fec.Dot.{
  AreSmall, dot, dot_cong, dot-unit, dot-unit_past, dot-past, unit, unit_self, unit_ne,
}
use norr.Fec.Rounds.{normalise_lem, origin}
use norr.Fec.Solution.{
  IsSystem, bytes-AreSmall, value, apply_pivot-IsSystem, apply_pivot-solved, apply_pivot-zeros,
  each_row,
}

-- The columns before `column` are those of the unit matrix.
abbrev pub IsCleared : ℕ → ℕ → List Equation → Type 0
IsCleared n column rows = (r c : ℕ) → r < n → c < column → entry_at rows r c ≡ unit r c

abbrev pub IsIndependent : ℕ → List Equation → Type 0
IsIndependent n rows =
    (w : ℕ → ℕ)
    → AreSmall w
    → ((r : ℕ) → r < n → value n (row_at rows r) w ≡ 0)
    → (c : ℕ) → c < n
    → w c ≡ 0

-- The search ends at a row whose entry is not 0, or past rows that all have 0 there.
find_pivot-cases :
    (left pivot column : ℕ) (rows : List Equation)
    → ((pivot ≤ find_pivot left pivot column rows)
        × (find_pivot left pivot column rows < pivot + left)
        × (entry_at rows (find_pivot left pivot column rows) column ≢ 0))
      ⊎ ((find_pivot left pivot column rows ≡ pivot + left)
          × ((r : ℕ) → pivot ≤ r → r < pivot + left → entry_at rows r column ≡ 0))
unfolding find_pivot
find_pivot-cases zero pivot column rows = inr (omega arith, λ r p q. absurd (omega arith))
find_pivot-cases (suc left) pivot column rows = elim (ℕ_discrete (entry_at rows pivot column) 0) [
  | no ne ↦
      let test : (entry_at rows pivot column == 0) ≡ false = ground arith in
      rw test (inl (omega arith, omega arith, ne))
  | yes z ↦
      let test : (entry_at rows pivot column == 0) ≡ true = ground arith in
      rw test (elim (find_pivot-cases left (pivot + 1) column rows) [
        | inl (lo, hi, ne) ↦ inl (omega arith, omega arith, ne)
        | inr (e, all) ↦ inr (
          omega arith,
          λ r p q. elim (ℕ_discrete r pivot) [
            | yes same ↦ ap (λ t. entry_at rows t column) same ∙ z
            | no ne ↦ all r (omega arith) (omega arith)
          ],
        )
      ])
]

-- A column that is 0 from the diagonal on would weigh the columns before it to 0.
module _ (n width column : ℕ) (rows : List Equation) (system : IsSystem n width rows)
    (cleared : IsCleared n column rows) (in_column : column < n)
    (zeros : (r : ℕ) → column ≤ r → r < n → entry_at rows r column ≡ 0) where
  abbrev weights : ℕ → ℕ
  weights c = if ltb c column then entry_at rows c column else unit column c

  weights-AreSmall : AreSmall weights
  weights-AreSmall c = elim (dec_lt c column) [
    | yes p ↦
        let test : ltb c column ≡ true = ground arith in
        rw test (bytes-AreSmall (row_at rows c).0 (system.each c (omega arith)).bytes column)
    | no p ↦ let test : ltb c column ≡ false = ground arith in rw test (ground arith)
  ]

  weights-column : weights column ≡ 1
  weights-column = ground arith

  weights_before : (c : ℕ) → c < column → weights c ≡ entry_at rows c column
  weights_before c h = ground arith

  weights_past : (c : ℕ) → suc column ≤ c → weights c ≡ 0
  weights_past c h = ground arith

  before : (r : ℕ) → r < n → dot column (byte_at (row_at rows r).0) weights ≡ entry_at rows r column
  before r h =
      dot_cong column (byte_at (row_at rows r).0) (unit r) weights (λ c p. cleared r c h p)
      ∙ elim (dec_lt r column) [
        | yes p ↦ dot-unit column r weights weights-AreSmall p ∙ weights_before r p
        | no p ↦ dot-unit_past column r weights (omega arith) ∙ sym (zeros r (omega arith) h)
      ]

  weighed : (r : ℕ) → r < n → value n (row_at rows r) weights ≡ 0
  unfolding dot
  weighed r h =
      let a : ℕ → ℕ = byte_at (row_at rows r).0 in
      let k : ℕ = entry_at rows r column in
      let split : n ≡ n - suc column + suc column = omega arith in
      ap (λ t. dot t a weights) split
      ∙ dot-past (n - suc column) (suc column) a weights weights_past
      ∙ ap₂ bit_xor (before r h) (
          ap (product k) weights-column
          ∙ product_comm k 1
          ∙ one-product k (bytes-AreSmall (row_at rows r).0 (system.each r h).bytes column))
      ∙ bit_xor_self k

  pub pivot_exists : IsIndependent n rows → ⊥
  pivot_exists independent =
      absurd (
        omega
          (arith, independent weights weights-AreSmall weighed column in_column, weights-column))

-- A round clears one more column.
module _ (vector n width column pivot : ℕ) (rows : List Equation) (system : IsSystem n width rows)
    (in_column : column < n) (in_pivot : pivot < n) (found : entry_at rows pivot column ≢ 0)
    (from_column : column ≤ pivot) (cleared : IsCleared n column rows) where
  abbrev scaled : Equation
  scaled = normalise column (row_at rows pivot)

  abbrev factor : ℕ
  factor = inverse (entry_at rows pivot column)

  scaled_at : (c : ℕ) → byte_at scaled.0 c ≡ product factor (entry_at rows pivot c)
  scaled_at c =
      ap (λ (t : Equation). byte_at t.0 c) (normalise_lem column (row_at rows pivot))
      ∙ byte_at-scale (row_at rows pivot).0 factor c

  scaled_before : (c : ℕ) → c < column → byte_at scaled.0 c ≡ 0
  scaled_before c h =
      scaled_at c
      ∙ ap (product factor)
          (cleared pivot c in_pivot h ∙ unit_ne pivot c (λ e. absurd (omega arith)))
      ∙ product-zero factor

  scaled_column : byte_at scaled.0 column ≡ 1
  scaled_column =
      scaled_at column
      ∙ product_comm factor (entry_at rows pivot column)
      ∙ (inverse_lem (entry_at rows pivot column) found
          (bytes-AreSmall (row_at rows pivot).0 (system.each pivot in_pivot).bytes column)).0

  abbrev Clears : ℕ → Equation → Type 0
  Clears r e = (c : ℕ) → c < suc column → byte_at e.0 c ≡ unit r c

  split_last :
      (r : ℕ) (e : Equation)
      → ((c : ℕ) → c < column → byte_at e.0 c ≡ unit r c)
      → byte_at e.0 column ≡ unit r column
      → Clears r e
  split_last r e first last c h = elim (ℕ_discrete c column) [
    | yes q ↦ rw q last
    | no ne ↦ first c (omega arith)
  ]

  scaled-Clears : Clears column scaled
  scaled-Clears =
      split_last column scaled
        (λ c h. scaled_before c h ∙ sym (unit_ne column c (λ e. absurd (omega arith))))
        (scaled_column ∙ sym (unit_self column))

  origin_unit : (r c : ℕ) → c < column → unit (origin column pivot r) c ≡ unit r c
  origin_unit r c h = ground arith

  module _ (r : ℕ) (h : r < n) (ne : r ≢ column) where
    abbrev start : ℕ
    start = origin column pivot r

    abbrev k : ℕ
    k = entry_at rows start column

    abbrev cleared_row : List ℕ
    cleared_row = add_products k (row_at rows start).0 scaled.0

    start_lt : start < n
    start_lt = ground arith

    cleared_at :
        (c : ℕ)
        → c < n
        → byte_at cleared_row c ≡ bit_xor (entry_at rows start c) (product k (byte_at scaled.0 c))
    cleared_at c hc =
        byte_at-add_products k (row_at rows start).0 scaled.0 c
          (omega (arith, (system.each start start_lt).columns))

    other-Clears : Clears r (cleared_row, add_products k (row_at rows start).1 scaled.1)
    other-Clears =
        split_last r (cleared_row, add_products k (row_at rows start).1 scaled.1)
          (λ c hc.
            cleared_at c (omega arith)
            ∙ ap (bit_xor (entry_at rows start c))
                (ap (product k) (scaled_before c hc) ∙ product-zero k)
            ∙ bit_xor-zero (entry_at rows start c)
            ∙ cleared start c start_lt hc
            ∙ origin_unit r c hc)
          (cleared_at column in_column
            ∙ ap (bit_xor k) (
                ap (product k) scaled_column
                ∙ product_comm k 1
                ∙ one-product k (
                    bytes-AreSmall (row_at rows start).0 (system.each start start_lt).bytes column))
            ∙ bit_xor_self k
            ∙ sym (unit_ne r column ne))

  pub apply_pivot-IsCleared : IsCleared n (suc column) (apply_pivot vector column pivot rows)
  apply_pivot-IsCleared r c h hc =
      each_row vector n width column pivot rows system in_column in_pivot found Clears scaled-Clears
        (λ q p ne. other-Clears q p ne) r h c hc

-- The unknowns stand in the syndromes once every column is cleared.
read_off :
    (n : ℕ) (rows : List Equation) (b : ℕ → ℕ) (j : ℕ)
    → IsCleared n n rows
    → AreSmall b
    → ((r : ℕ) → r < n → value n (row_at rows r) b ≡ byte_at (row_at rows r).1 j)
    → (r : ℕ) → r < n
    → byte_at (row_at rows r).1 j ≡ b r
read_off n rows b j cleared hb solved r h =
    sym (solved r h)
    ∙ dot_cong n (byte_at (row_at rows r).0) (unit r) b (λ c p. cleared r c h p)
    ∙ dot-unit n r b hb h

abbrev pub IsSolution : ℕ → ℕ → List Equation → (ℕ → ℕ) → ℕ → Type 0
IsSolution n width rows b j =
    (r : ℕ) → r < n → value n (row_at rows r) b ≡ byte_at (row_at rows r).1 j

abbrev pub Solved : ℕ → ℕ → List Equation → List Equation → Type 0
Solved n width rows final =
    IsSystem n width final
    × ((b : ℕ → ℕ) (j : ℕ)
        → AreSmall b
        → j < width
        → IsSolution n width rows b j
        → (r : ℕ) → r < n
        → byte_at (row_at final r).1 j ≡ b r)

eliminate_found :
    (vector column : ℕ) (rows : List Equation)
    → find_pivot (length rows - column) column column rows < length rows
    → eliminate vector column rows
      ≡ some (apply_pivot vector column (find_pivot (length rows - column) column column rows) rows)
unfolding eliminate
eliminate_found vector column rows h =
    let test : (find_pivot (length rows - column) column column rows == length rows) ≡ false =
      ground arith in
    rw test refl

solve-eliminate :
    (vector left column : ℕ) (rows next : List Equation)
    → eliminate vector column rows ≡ some next
    → solve vector (suc left) column rows ≡ solve vector left (column + 1) next
unfolding solve
solve-eliminate vector left column rows next e = rw (e, solve) refl

pub solve_lem :
    (vector n width left column : ℕ) (rows : List Equation)
    → column + left ≡ n
    → IsSystem n width rows
    → IsCleared n column rows
    → IsIndependent n rows
    → (final : List Equation) × (solve vector left column rows ≡ some final)
      × Solved n width rows final
unfolding solve
solve_lem vector n width zero column rows e system cleared independent =
    let all : column ≡ n = omega arith in
    (
      rows,
      refl,
      (
        system,
        λ b j hb hj solved.
            read_off n rows b j (subst (λ t. IsCleared n t rows) all cleared) hb solved,
      ),
    )
solve_lem vector n width (suc left) column rows e system cleared independent =
    let p : ℕ = find_pivot (length rows - column) column column rows in
    elim (find_pivot-cases (length rows - column) column column rows) [
      | inr (past, zeros) ↦ absurd (
          pivot_exists n width column rows system cleared (omega arith)
            (λ r lo hi. zeros r lo (omega (arith, system.count))) independent)
      | inl (lo, hi, ne) ↦
          let in_pivot : p < n = omega (arith, system.count) in
          let next : List Equation = apply_pivot vector column p rows in
          let (final, run, (whole, read)) =
            solve_lem vector n width left (column + 1) next (omega arith)
              (apply_pivot-IsSystem vector n width column p rows system (omega arith) in_pivot ne)
              (let one : suc column ≡ column + 1 = omega arith in
                subst (λ t. IsCleared n t next) one
                  (apply_pivot-IsCleared vector n width column p rows system (omega arith) in_pivot
                    ne lo cleared))
              (λ w hw zeros. independent w hw (
                apply_pivot-zeros vector n width column p rows system (omega arith) in_pivot ne w hw
                  zeros)) in
          (
            final,
            solve-eliminate vector left column rows next
                  (eliminate_found vector column rows (omega (arith, system.count)))
                ∙ run,
            (
              whole,
              λ b j hb hj solved. read b j hb hj (
                  apply_pivot-solved vector n width column p rows system (omega arith) in_pivot ne b
                    j hb hj solved),
            ),
          )
    ]
