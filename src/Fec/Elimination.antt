-- ===== src/Fec/Elimination.antt =====
-- src/fec.cpp: the elimination in `FecDecoder::try_recover`. An equation is a row of `matrix` with
-- the entry of `syndrome` at the same index: every step of the code moves the two together.
use norr.Prelude.{
  ℕ, zero, suc, ◌+◌, ◌-◌, List, [], ◌∷◌, map, ◌||◌, ◌==◌, if◌then◌else◌, Option, none, some, length,
  get_or, set,
}
use norr.Prelude.Bytes.{byte_at}
use norr.Fec.Field.{product, inverse}
use norr.Fec.Vector.{add_products, multiply_add, scale}

abbrev pub Equation : Type 0
Equation = List ℕ × List ℕ

abbrev pub row_at : List Equation → ℕ → Equation
row_at rows r = get_or rows r ([], [])

abbrev pub entry_at : List Equation → ℕ → ℕ → ℕ
entry_at rows r column = byte_at (row_at rows r).0 column

-- `while (pivot < count && matrix[pivot][column] == 0) ++pivot;`
unfoldable pub find_pivot : ℕ → ℕ → ℕ → List Equation → ℕ
find_pivot zero pivot column rows = pivot
find_pivot (suc left) pivot column rows =
    if entry_at rows pivot column == 0 then find_pivot left (pivot + 1) column rows else pivot

unfoldable pub swap_rows : List Equation → ℕ → ℕ → List Equation
swap_rows rows a b = set (set rows a (row_at rows b)) b (row_at rows a)

-- The pivot's row, divided by the pivot.
unfoldable pub normalise : ℕ → Equation → Equation
normalise column (m, s) =
    let factor = inverse (byte_at m column) in
    (map (λ value. product value factor) m, scale s factor)

-- Another row, less the pivot's as often as clears its entry in the column.
unfoldable pub clear_row : ℕ → ℕ → Equation → ℕ → Equation → Equation
clear_row vector column pivot r (m, s) =
    let coefficient = byte_at m column in
    if r == column || coefficient == 0
    then (m, s)
    else (add_products coefficient m pivot.0, multiply_add vector s pivot.1 coefficient)

unfoldable pub clear : ℕ → ℕ → Equation → ℕ → List Equation → List Equation
clear vector column pivot r [] = []
clear vector column pivot r (e ∷ rows) =
    clear_row vector column pivot r e ∷ clear vector column pivot (r + 1) rows

-- The round of a column once its pivot is found.
unfoldable pub apply_pivot : ℕ → ℕ → ℕ → List Equation → List Equation
apply_pivot vector column pivot rows =
    let swapped = swap_rows rows pivot column in
    let scaled = normalise column (row_at swapped column) in
    clear vector column scaled 0 (set swapped column scaled)

unfoldable pub eliminate : ℕ → ℕ → List Equation → Option (List Equation)
eliminate vector column rows =
    let pivot = find_pivot (length rows - column) column column rows in
    if pivot == length rows then none else some (apply_pivot vector column pivot rows)

-- The columns left, from `column` on.
unfoldable pub solve : ℕ → ℕ → ℕ → List Equation → Option (List Equation)
solve vector zero column rows = some rows
solve vector (suc left) column rows = elim (eliminate vector column rows) [
  | none ↦ none
  | some next ↦ solve vector left (column + 1) next
]
