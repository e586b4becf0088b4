-- ===== src/Fec/Columns.antt =====
-- src/fec.cpp: the rows and columns of the Cauchy matrix that `try_recover` picks are independent.
use norr.Prelude.{
  ℕ, zero, suc, ◌+◌, ◌≤◌, ◌<◌, bit_xor, ◌≡◌, refl, sym, ap, ap₂, ◌∙◌, ◌≢◌, List, [], ◌∷◌, map,
  length, get_or, All, arith,
}
use norr.Prelude.Bits.{bit_xor-lt}
use norr.Prelude.Bytes.{byte_at, u8}
use norr.Fec.Field.{product, cauchy}
use norr.Fec.Cauchy.{entry}
use norr.Fec.Independence.{
  Column, sum, AreBytes, Misses, AreApart, AreRows, IsZeroIn, AreZero, independent,
}
use norr.Fec.Dot.{AreSmall, dot}
use norr.Fec.Missing.{Rising, sum_range, sum_range-dot, sum_range_shift}

-- An entry of the matrix is one over the sum of two distinct nodes.
cauchy-entry : (r c : ℕ) → r < 16 → c < 64 → cauchy r c ≡ entry (64 + r) c
unfolding cauchy entry
cauchy-entry r c p q =
    let x : u8 (64 + r) ≡ 64 + r = omega arith in
    let y : u8 c ≡ c = omega arith in
    let small : bit_xor (64 + r) c < 256 = bit_xor-lt 8 (64 + r) c (omega arith) (omega arith) in
    let z : u8 (bit_xor (64 + r) c) ≡ bit_xor (64 + r) c = omega arith in rw (x, y, z) refl

-- Columns at the given nodes, weighing the unknowns in turn.
unfoldable pub columns : List ℕ → (ℕ → ℕ) → List Column
columns [] w = []
columns (m ∷ ms) w = (m, w 0) ∷ columns ms (λ c. w (suc c))

length-columns : (ms : List ℕ) (w : ℕ → ℕ) → length (columns ms w) ≡ length ms
unfolding columns
length-columns [] w = refl
length-columns (m ∷ ms) w = ap suc (length-columns ms (λ c. w (suc c)))

columns-AreBytes :
    (lo : ℕ) (ms : List ℕ) (w : ℕ → ℕ) → Rising lo 64 ms → AreSmall w → AreBytes (columns ms w)
unfolding columns
columns-AreBytes lo [] w r h = tt
columns-AreBytes lo (m ∷ ms) w r h =
    ((omega arith, h 0), columns-AreBytes (m + 1) ms (λ c. w (suc c)) r.2 (λ c. h (suc c)))

columns-Misses :
    (x lo : ℕ) (ms : List ℕ) (w : ℕ → ℕ) → x < lo → Rising lo 64 ms → Misses x (columns ms w)
unfolding columns
columns-Misses x lo [] w h r = tt
columns-Misses x lo (m ∷ ms) w h r =
    (λ e. absurd (omega arith), columns-Misses x (m + 1) ms (λ c. w (suc c)) (omega arith) r.2)

columns-Misses_above :
    (x lo : ℕ) (ms : List ℕ) (w : ℕ → ℕ) → 64 ≤ x → Rising lo 64 ms → Misses x (columns ms w)
unfolding columns
columns-Misses_above x lo [] w h r = tt
columns-Misses_above x lo (m ∷ ms) w h r =
    (λ e. absurd (omega arith), columns-Misses_above x (m + 1) ms (λ c. w (suc c)) h r.2)

columns-AreApart : (lo : ℕ) (ms : List ℕ) (w : ℕ → ℕ) → Rising lo 64 ms → AreApart (columns ms w)
unfolding columns
columns-AreApart lo [] w r = tt
columns-AreApart lo (m ∷ ms) w r = (
  columns-Misses m (m + 1) ms (λ c. w (suc c)) (omega arith) r.2,
  columns-AreApart (m + 1) ms (λ c. w (suc c)) r.2,
)

nodes : List ℕ → List ℕ
nodes [] = []
nodes (r ∷ rs) = (64 + r) ∷ nodes rs

length-nodes : (rs : List ℕ) → length (nodes rs) ≡ length rs
unfolding nodes
length-nodes [] = refl
length-nodes (r ∷ rs) = ap suc (length-nodes rs)

nodes_apart :
    (x lo : ℕ) (rs : List ℕ) → x < 64 + lo → Rising lo 16 rs → All (λ (z : ℕ). z ≢ x) (nodes rs)
unfolding nodes
nodes_apart x lo [] h r = tt
nodes_apart x lo (m ∷ rs) h r =
    (λ e. absurd (omega arith), nodes_apart x (m + 1) rs (omega arith) r.2)

nodes-AreRows :
    (lo lo' : ℕ) (rs ms : List ℕ) (w : ℕ → ℕ)
    → Rising lo 16 rs
    → Rising lo' 64 ms
    → AreRows (columns ms w) (nodes rs)
unfolding nodes
nodes-AreRows lo lo' [] ms w r q = tt
nodes-AreRows lo lo' (x ∷ rs) ms w r q = (
  omega arith,
  columns-Misses_above (64 + x) lo' ms w (omega arith) q,
  nodes_apart (64 + x) (x + 1) rs (omega arith) r.2,
  nodes-AreRows (x + 1) lo' rs ms w r.2 q,
)

abbrev pub row_entries : ℕ → List ℕ → List ℕ
row_entries r ms = map (λ (c : ℕ). cauchy r c) ms

pub row_entries_at :
    (r : ℕ) (ms : List ℕ) (i : ℕ)
    → i < length ms
    → byte_at (row_entries r ms) i ≡ cauchy r (get_or ms i 0)
row_entries_at r [] i h = absurd (omega arith)
row_entries_at r (m ∷ ms) zero h = refl
row_entries_at r (m ∷ ms) (suc i) h = row_entries_at r ms i (omega arith)

sum-range :
    (r lo : ℕ) (ms : List ℕ) (w : ℕ → ℕ)
    → r < 16
    → Rising lo 64 ms
    → sum (64 + r) (columns ms w)
      ≡ sum_range (λ i. product (byte_at (row_entries r ms) i) (w i)) (length ms) 0
unfolding sum columns sum_range
sum-range r lo [] w p q = refl
sum-range r lo (m ∷ ms) w p q =
    ap₂ bit_xor (ap (λ t. product t (w 0)) (sym (cauchy-entry r m p q.1))) (
      sum-range r (m + 1) ms (λ c. w (suc c)) p q.2
      ∙ sym
          (sum_range_shift (λ i. product (byte_at (row_entries r (m ∷ ms)) i) (w i)) (length ms) 0))

sum-dot :
    (r lo : ℕ) (ms : List ℕ) (w : ℕ → ℕ)
    → r < 16
    → Rising lo 64 ms
    → sum (64 + r) (columns ms w) ≡ dot (length ms) (byte_at (row_entries r ms)) w
sum-dot r lo ms w p q =
    sum-range r lo ms w p q ∙ sum_range-dot (length ms) (byte_at (row_entries r ms)) w

zero_rows :
    (lo lo' : ℕ) (rs ms : List ℕ) (w : ℕ → ℕ)
    → Rising lo 16 rs
    → Rising lo' 64 ms
    → ((i : ℕ) → i < length rs → dot (length ms) (byte_at (row_entries (get_or rs i 0) ms)) w ≡ 0)
    → All (IsZeroIn (columns ms w)) (nodes rs)
unfolding nodes
zero_rows lo lo' [] ms w r q z = tt
zero_rows lo lo' (x ∷ rs) ms w r q z = (
  sum-dot x lo' ms w r.1 q ∙ z 0 (omega arith),
  zero_rows (x + 1) lo' rs ms w r.2 q (λ i h. z (suc i) (omega arith)),
)

zero_weights :
    (ms : List ℕ) (w : ℕ → ℕ) → AreZero (columns ms w) → (c : ℕ) → c < length ms → w c ≡ 0
unfolding columns
zero_weights [] w z c h = absurd (omega arith)
zero_weights (m ∷ ms) w z zero h = z.0
zero_weights (m ∷ ms) w z (suc c) h = zero_weights ms (λ i. w (suc i)) z.1 c (omega arith)

-- Weights that bring every picked row to 0 are 0.
pub rows_independent :
    (rs ms : List ℕ) (w : ℕ → ℕ)
    → length rs ≡ length ms
    → Rising 0 16 rs
    → Rising 0 64 ms
    → AreSmall w
    → ((i : ℕ) → i < length rs → dot (length ms) (byte_at (row_entries (get_or rs i 0) ms)) w ≡ 0)
    → (c : ℕ) → c < length ms
    → w c ≡ 0
rows_independent rs ms w l r q h z = zero_weights ms w (
    independent (columns ms w) (nodes rs) (length-nodes rs ∙ l ∙ sym (length-columns ms w))
      (columns-AreBytes 0 ms w q h) (columns-AreApart 0 ms w q) (nodes-AreRows 0 0 rs ms w r q)
      (zero_rows 0 0 rs ms w r q z))
