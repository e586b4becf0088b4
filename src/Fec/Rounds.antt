-- ===== src/Fec/Rounds.antt =====
-- src/fec.cpp: what a round of the elimination does to each equation, and what it keeps.
use norr.Prelude.{
  ℕ, zero, suc, ◌+◌, ◌<◌, ◌≡◌, refl, sym, ap, ap₂, ◌∙◌, ◌≢◌, List, [], ◌∷◌, map, true, false, ◌||◌,
  ◌==◌, if◌then◌else◌, length, set, All, All-get_or, length-set, get_or-set_self, get_or-set_ne,
  arith,
}
use native.Mathlib.Decide.{ℕ_discrete}
use norr.Prelude.Bytes.{IsByte, byte_at}
use norr.Fec.Field.{product, inverse}
use norr.Fec.FieldLaws.{product_comm, inverse_lem}
use norr.Fec.Vector.{
  add_products, scale, multiply_add-add_products, add_products-zero, length-scale, scale-IsByte,
}
use norr.Fec.Elimination.{Equation, row_at, swap_rows, normalise, clear_row, clear, apply_pivot}

-- An equation in n unknowns, with a syndrome of `width` bytes.
pub record IsEquation (n width : ℕ) (e : Equation) : Type 0 where
  pub columns : length e.0 ≡ n
  pub bytes : All IsByte e.0
  pub wide : length e.1 ≡ width
  pub sums : All IsByte e.1

map-by-scale : (m : List ℕ) (f : ℕ) → map (λ v. product v f) m ≡ scale m f
unfolding scale
map-by-scale [] f = refl
map-by-scale (v ∷ m) f = ap₂ ◌∷◌ (product_comm v f) (map-by-scale m f)

pub normalise_lem :
    (column : ℕ) (e : Equation)
    → normalise column e
      ≡ (scale e.0 (inverse (byte_at e.0 column)), scale e.1 (inverse (byte_at e.0 column)))
unfolding normalise
normalise_lem column (m, s) =
    ap (λ t. (t, scale s (inverse (byte_at m column))))
      (map-by-scale m (inverse (byte_at m column)))

module _ (vector n width column : ℕ) where
  pub normalise-IsEquation :
      (e : Equation)
      → IsEquation n width e
      → byte_at e.0 column ≢ 0
      → IsEquation n width (normalise column e)
  normalise-IsEquation e h ne =
      let f_lt = (inverse_lem _ ne (All-get_or IsByte e.0 column 0 h.bytes (omega arith))).1 in
      rw (normalise_lem column e) (record {
        columns = length-scale e.0 _ ∙ h.columns;
        bytes = scale-IsByte e.0 _ f_lt h.bytes;
        wide = length-scale e.1 _ ∙ h.wide;
        sums = scale-IsByte e.1 _ f_lt h.sums;
      })

  -- A row that is not the pivot's: the multiple that it takes of it.
  pub clear_row_other :
      (pivot : Equation) (r : ℕ) (e : Equation)
      → r ≢ column
      → IsEquation n width pivot
      → IsEquation n width e
      → clear_row vector column pivot r e ≡ (
        add_products (byte_at e.0 column) e.0 pivot.0,
        add_products (byte_at e.0 column) e.1 pivot.1,
      )
  unfolding clear_row
  clear_row_other pivot r (m, s) ne hp h = elim (ℕ_discrete (byte_at m column) 0) [
    | yes z ↦
        let test : (r == column || byte_at m column == 0) ≡ true = ground arith in
        rw test
          (rw z (ap₂ (λ a b. (a, b)) (add_products-zero m pivot.0) (add_products-zero s pivot.1)))
    | no nz ↦
        let test : (r == column || byte_at m column == 0) ≡ false = ground arith in
        rw test (
          ap (λ t. (add_products (byte_at m column) m pivot.0, t))
            (multiply_add-add_products vector s pivot.1 (byte_at m column) hp.sums
              (All-get_or IsByte m column 0 h.bytes (omega arith))))
  ]

row_at-clear :
    (vector column : ℕ) (pivot : Equation) (first : ℕ) (rows : List Equation) (r : ℕ)
    → r < length rows
    → row_at (clear vector column pivot first rows) r
      ≡ clear_row vector column pivot (first + r) (row_at rows r)
unfolding clear
row_at-clear vector column pivot first [] r h = absurd (omega arith)
row_at-clear vector column pivot first (e ∷ rows) zero h =
    let z : first ≡ first + 0 = omega arith in ap (λ t. clear_row vector column pivot t e) z
row_at-clear vector column pivot first (e ∷ rows) (suc r) h =
    let z : first + 1 + r ≡ first + suc r = omega arith in
    row_at-clear vector column pivot (first + 1) rows r (omega arith)
    ∙ ap (λ t. clear_row vector column pivot t (row_at rows r)) z

length-clear :
    (vector column : ℕ) (pivot : Equation) (first : ℕ) (rows : List Equation)
    → length (clear vector column pivot first rows) ≡ length rows
unfolding clear
length-clear vector column pivot first [] = refl
length-clear vector column pivot first (e ∷ rows) =
    ap suc (length-clear vector column pivot (first + 1) rows)

-- Where the row that ends at an index stood before the round.
abbrev pub origin : ℕ → ℕ → ℕ → ℕ
origin column pivot r = if r == pivot then column else r

module _ (vector column pivot : ℕ) (rows : List Equation) (in_column : column < length rows)
    (in_pivot : pivot < length rows) where
  pub length-apply_pivot : length (apply_pivot vector column pivot rows) ≡ length rows
  unfolding apply_pivot swap_rows
  length-apply_pivot =
      length-clear vector column _ 0 _
      ∙ length-set (swap_rows rows pivot column) column _
      ∙ length-set (set rows pivot (row_at rows column)) column _
      ∙ length-set rows pivot _

  swapped_column : row_at (swap_rows rows pivot column) column ≡ row_at rows pivot
  unfolding swap_rows
  swapped_column =
      get_or-set_self (set rows pivot (row_at rows column)) column _ _
        (omega (arith, length-set rows pivot (row_at rows column)))

  swapped_other :
      (r : ℕ)
      → r ≢ column
      → row_at (swap_rows rows pivot column) r ≡ row_at rows (origin column pivot r)
  unfolding swap_rows
  swapped_other r ne =
      get_or-set_ne (set rows pivot (row_at rows column)) column r _ _ (λ e. ne (sym e))
      ∙ elim (ℕ_discrete r pivot) [
        | yes e ↦
            let test : (r == pivot) ≡ true = ground arith in
            rw (test, e) (get_or-set_self rows pivot _ _ in_pivot)
        | no np ↦
            let test : (r == pivot) ≡ false = ground arith in
            rw test (get_or-set_ne rows pivot r _ _ (λ e. np (sym e)))
      ]

  abbrev scaled_row : Equation
  scaled_row = normalise column (row_at rows pivot)

  abbrev moved_rows : List Equation
  moved_rows = set (swap_rows rows pivot column) column scaled_row

  length-moved : length moved_rows ≡ length rows
  unfolding swap_rows
  length-moved =
      length-set (swap_rows rows pivot column) column scaled_row
      ∙ length-set (set rows pivot (row_at rows column)) column (row_at rows pivot)
      ∙ length-set rows pivot (row_at rows column)

  after_pivot :
      (r : ℕ)
      → r < length rows
      → row_at (apply_pivot vector column pivot rows) r
        ≡ clear_row vector column scaled_row r (row_at moved_rows r)
  unfolding apply_pivot
  after_pivot r h =
      let z : 0 + r ≡ r = omega arith in
      rw swapped_column (
        row_at-clear vector column scaled_row 0 moved_rows r (omega (arith, length-moved))
        ∙ ap (λ t. clear_row vector column scaled_row t (row_at moved_rows r)) z)

  -- The pivot's row ends in its column, divided by the pivot.
  pub pivot_row : row_at (apply_pivot vector column pivot rows) column ≡ scaled_row
  unfolding clear_row swap_rows
  pivot_row =
      let test : (column == column || byte_at scaled_row.0 column == 0) ≡ true = ground arith in
      after_pivot column in_column
      ∙ ap (clear_row vector column scaled_row column) (
          get_or-set_self (swap_rows rows pivot column) column scaled_row ([], [])
            (omega (
              arith,
              length-set (set rows pivot (row_at rows column)) column (row_at rows pivot),
              length-set rows pivot (row_at rows column),
            )))
      ∙ rw test refl

  -- Any other row loses its entry in the column.
  pub other_row :
      (r : ℕ)
      → r < length rows
      → r ≢ column
      → row_at (apply_pivot vector column pivot rows) r
        ≡ clear_row vector column scaled_row r (row_at rows (origin column pivot r))
  other_row r h ne =
      after_pivot r h
      ∙ ap (clear_row vector column scaled_row r) (
          get_or-set_ne (swap_rows rows pivot column) column r scaled_row ([], []) (λ e. ne (sym e))
          ∙ swapped_other r ne)
