-- ===== src/Fec/Independence.antt =====
-- src/fec.cpp: a combination of Cauchy columns that is 0 in as many rows as it has columns is 0.
use norr.Prelude.{
  ℕ, suc, bit_xor, ◌≡◌, refl, sym, ap, ap₂, ◌∙◌, ◌≢◌, List, [], ◌∷◌, length, All, arith,
}
use norr.Prelude.Bytes.{IsByte}
use norr.Prelude.Xor.{bit_xor_self, bit_xor_swap, eq_of_bit_xor}
use norr.Fec.Field.{product}
use norr.Fec.FieldLaws.{product_assoc, product-lt, product-zero, one-product, eq-zero_of_product}
use norr.Fec.Cauchy.{xor-IsByte, product-xor_right, entry, entry_lem, column}

-- A column: its node, and the unknown that it weighs.
abbrev pub Column : Type 0
Column = ℕ × ℕ

unfoldable pub sum : ℕ → List Column → ℕ
sum x [] = 0
sum x ((y, v) ∷ cs) = bit_xor (product (entry x y) v) (sum x cs)

abbrev pub AreBytes : List Column → Type 0
AreBytes cs = All (λ (c : Column). IsByte c.0 × IsByte c.1) cs

-- The node differs from those of the columns.
abbrev pub Misses : ℕ → List Column → Type 0
Misses x cs = All (λ (c : Column). x ≢ c.0) cs

abbrev pub AreApart : List Column → Type 0
AreApart [] = Unit
AreApart (c ∷ cs) = Misses c.0 cs × AreApart cs

-- The rows' nodes are bytes, differ from each other and from those of the columns.
abbrev pub AreRows : List Column → List ℕ → Type 0
AreRows cs [] = Unit
AreRows cs (x ∷ xs) = IsByte x × Misses x cs × All (λ (z : ℕ). z ≢ x) xs × AreRows cs xs

pub sum-IsByte :
    (x : ℕ) (cs : List Column) → IsByte x → AreBytes cs → Misses x cs → IsByte (sum x cs)
unfolding sum
sum-IsByte x [] h b m = omega arith
sum-IsByte x ((y, v) ∷ cs) h b m =
    xor-IsByte _ _ (product-lt (entry x y) v (entry_lem x y h b.0.0 m.0).1 b.0.1)
      (sum-IsByte x cs h b.1 m.1)

-- The columns after one row and one column are eliminated.
unfoldable pub reduce : ℕ → ℕ → List Column → List Column
reduce x0 y0 [] = []
reduce x0 y0 ((y, v) ∷ cs) = (y, product (product (bit_xor y y0) (entry x0 y)) v) ∷ reduce x0 y0 cs

length-reduce : (x0 y0 : ℕ) (cs : List Column) → length (reduce x0 y0 cs) ≡ length cs
unfolding reduce
length-reduce x0 y0 [] = refl
length-reduce x0 y0 (c ∷ cs) = ap suc (length-reduce x0 y0 cs)

reduce-Misses : (x x0 y0 : ℕ) (cs : List Column) → Misses x cs → Misses x (reduce x0 y0 cs)
unfolding reduce
reduce-Misses x x0 y0 [] m = tt
reduce-Misses x x0 y0 (c ∷ cs) m = (m.0, reduce-Misses x x0 y0 cs m.1)

reduce-AreApart : (x0 y0 : ℕ) (cs : List Column) → AreApart cs → AreApart (reduce x0 y0 cs)
unfolding reduce
reduce-AreApart x0 y0 [] h = tt
reduce-AreApart x0 y0 (c ∷ cs) h = (reduce-Misses c.0 x0 y0 cs h.0, reduce-AreApart x0 y0 cs h.1)

reduce-AreBytes :
    (x0 y0 : ℕ) (cs : List Column)
    → IsByte x0
    → IsByte y0
    → AreBytes cs
    → Misses x0 cs
    → AreBytes (reduce x0 y0 cs)
unfolding reduce
reduce-AreBytes x0 y0 [] p q h m = tt
reduce-AreBytes x0 y0 ((y, v) ∷ cs) p q h m = (
  (
    h.0.0,
    product-lt _ v
        (product-lt (bit_xor y y0) (entry x0 y) (xor-IsByte y y0 h.0.0 q)
          (entry_lem x0 y p h.0.0 m.0).1)
        h.0.1,
  ),
  reduce-AreBytes x0 y0 cs p q h.1 m.1,
)

reduce-AreRows :
    (x0 y0 : ℕ) (cs : List Column) (c : Column) (xs : List ℕ)
    → AreRows (c ∷ cs) xs
    → AreRows (reduce x0 y0 cs) xs
reduce-AreRows x0 y0 cs c [] h = tt
reduce-AreRows x0 y0 cs c (x ∷ xs) (b, m, d, r) =
    (b, reduce-Misses x x0 y0 cs m.1, d, reduce-AreRows x0 y0 cs c xs r)

-- Two rows, each times its distance to y0, add up to the reduced row.
sum-reduce :
    (x x0 y0 : ℕ) (cs : List Column)
    → IsByte x
    → IsByte x0
    → IsByte y0
    → AreBytes cs
    → Misses x cs
    → Misses x0 cs
    → bit_xor (product (bit_xor x y0) (sum x cs)) (product (bit_xor x0 y0) (sum x0 cs))
      ≡ product (bit_xor x x0) (sum x (reduce x0 y0 cs))
unfolding sum reduce
sum-reduce x x0 y0 [] bx bx0 by0 h m m0 =
    ap₂ bit_xor (product-zero (bit_xor x y0)) (product-zero (bit_xor x0 y0))
    ∙ bit_xor_self 0
    ∙ sym (product-zero (bit_xor x x0))
sum-reduce x x0 y0 ((y, v) ∷ cs) bx bx0 by0 h m m0 =
    let (ey, e_lt) = entry_lem x y bx h.0.0 m.0 in
    let (ey0, e0_lt) = entry_lem x0 y bx0 h.0.0 m0.0 in
    let v' : ℕ = product (product (bit_xor y y0) (entry x0 y)) v in
    let v'_lt : IsByte v' =
      product-lt _ v (product-lt (bit_xor y y0) (entry x0 y) (xor-IsByte y y0 h.0.0 by0) e0_lt)
        h.0.1 in
    ap₂ bit_xor
      (product-xor_right (bit_xor x y0) (product (entry x y) v) (sum x cs) (xor-IsByte x y0 bx by0)
        (product-lt (entry x y) v e_lt h.0.1) (sum-IsByte x cs bx h.1 m.1))
      (product-xor_right (bit_xor x0 y0) (product (entry x0 y) v) (sum x0 cs)
        (xor-IsByte x0 y0 bx0 by0) (product-lt (entry x0 y) v e0_lt h.0.1)
        (sum-IsByte x0 cs bx0 h.1 m0.1))
    ∙ bit_xor_swap _ _ _ _
    ∙ ap₂ bit_xor (column x x0 y y0 bx bx0 h.0.0 by0 m.0 m0.0 v h.0.1)
        (sum-reduce x x0 y0 cs bx bx0 by0 h.1 m.1 m0.1)
    ∙ sym (
        product-xor_right (bit_xor x x0) (product (entry x y) v') (sum x (reduce x0 y0 cs))
          (xor-IsByte x x0 bx bx0) (product-lt (entry x y) v' e_lt v'_lt)
          (sum-IsByte x (reduce x0 y0 cs) bx (reduce-AreBytes x0 y0 cs bx0 by0 h.1 m0.1)
            (reduce-Misses x x0 y0 cs m.1)))

-- In a row whose sum is 0 the other columns give back the first one's unknown.
others :
    (x y0 v0 : ℕ) (cs : List Column)
    → IsByte x
    → IsByte y0
    → IsByte v0
    → x ≢ y0
    → sum x ((y0, v0) ∷ cs) ≡ 0
    → product (bit_xor x y0) (sum x cs) ≡ v0
unfolding sum
others x y0 v0 cs bx by0 bv ne h =
    let (ey, e_lt) = entry_lem x y0 bx by0 ne in
    ap (product (bit_xor x y0)) (sym (eq_of_bit_xor _ _ h))
    ∙ sym (product_assoc (bit_xor x y0) (entry x y0) v0 (xor-IsByte x y0 bx by0) e_lt bv)
    ∙ ap (λ t. product t v0) ey
    ∙ one-product v0 bv

abbrev pub IsZeroIn : List Column → ℕ → Type 0
IsZeroIn cs x = sum x cs ≡ 0

-- A second row that is 0 stays so after the reduction by the first.
reduced_row :
    (x x0 y0 v0 : ℕ) (cs : List Column)
    → IsByte x
    → IsByte x0
    → x ≢ x0
    → AreBytes ((y0, v0) ∷ cs)
    → Misses x ((y0, v0) ∷ cs)
    → Misses x0 ((y0, v0) ∷ cs)
    → sum x ((y0, v0) ∷ cs) ≡ 0
    → sum x0 ((y0, v0) ∷ cs) ≡ 0
    → sum x (reduce x0 y0 cs) ≡ 0
reduced_row x x0 y0 v0 cs bx bx0 ne h m m0 z z0 =
    eq-zero_of_product (bit_xor x x0) (sum x (reduce x0 y0 cs)) (λ e. ne (eq_of_bit_xor x x0 e))
      (xor-IsByte x x0 bx bx0)
      (sum-IsByte x (reduce x0 y0 cs) bx (reduce-AreBytes x0 y0 cs bx0 h.0.0 h.1 m0.1)
        (reduce-Misses x x0 y0 cs m.1))
      (sym (sum-reduce x x0 y0 cs bx bx0 h.0.0 h.1 m.1 m0.1)
        ∙ ap₂ bit_xor (others x y0 v0 cs bx h.0.0 h.0.1 m.0 z)
            (others x0 y0 v0 cs bx0 h.0.0 h.0.1 m0.0 z0)
        ∙ bit_xor_self v0)

reduced_rows :
    (x0 y0 v0 : ℕ) (cs : List Column) (xs : List ℕ)
    → IsByte x0
    → AreBytes ((y0, v0) ∷ cs)
    → Misses x0 ((y0, v0) ∷ cs)
    → All (λ (z : ℕ). z ≢ x0) xs
    → AreRows ((y0, v0) ∷ cs) xs
    → sum x0 ((y0, v0) ∷ cs) ≡ 0
    → All (IsZeroIn ((y0, v0) ∷ cs)) xs
    → All (IsZeroIn (reduce x0 y0 cs)) xs
reduced_rows x0 y0 v0 cs [] bx0 h m0 d r z0 z = tt
reduced_rows x0 y0 v0 cs (x ∷ xs) bx0 h m0 d (bx, m, d', r) z0 z = (
  reduced_row x x0 y0 v0 cs bx bx0 d.0 h m m0 z.0 z0,
  reduced_rows x0 y0 v0 cs xs bx0 h m0 d.1 r z0 z.1,
)

abbrev pub AreZero : List Column → Type 0
AreZero cs = All (λ (c : Column). c.1 ≡ 0) cs

unreduce :
    (x0 y0 : ℕ) (cs : List Column)
    → IsByte x0
    → IsByte y0
    → AreBytes cs
    → Misses x0 cs
    → Misses y0 cs
    → AreZero (reduce x0 y0 cs)
    → AreZero cs
unfolding reduce
unreduce x0 y0 [] bx by h m m' z = tt
unreduce x0 y0 ((y, v) ∷ cs) bx by h m m' z =
    let (ey, e_lt) = entry_lem x0 y bx h.0.0 m.0 in
    let d_lt : IsByte (bit_xor y y0) = xor-IsByte y y0 h.0.0 by in
    let inner : product (entry x0 y) v ≡ 0 =
      eq-zero_of_product (bit_xor y y0) _ (λ e. m'.0 (sym (eq_of_bit_xor y y0 e))) d_lt
        (product-lt (entry x0 y) v e_lt h.0.1)
        (sym (product_assoc (bit_xor y y0) (entry x0 y) v d_lt e_lt h.0.1) ∙ z.0) in
    let scaled =
      sym (product_assoc (bit_xor x0 y) (entry x0 y) v (xor-IsByte x0 y bx h.0.0) e_lt h.0.1)
      ∙ ap (λ t. product t v) ey
      ∙ one-product v h.0.1 in
    (
      sym scaled ∙ ap (product (bit_xor x0 y)) inner ∙ product-zero (bit_xor x0 y),
      unreduce x0 y0 cs bx by h.1 m.1 m'.1 z.1,
    )

sum_of_zeros : (x : ℕ) (cs : List Column) → AreZero cs → sum x cs ≡ 0
unfolding sum
sum_of_zeros x [] z = refl
sum_of_zeros x ((y, v) ∷ cs) z =
    ap₂ bit_xor (ap (product (entry x y)) z.0 ∙ product-zero (entry x y)) (sum_of_zeros x cs z.1)
    ∙ bit_xor_self 0

pub independent :
    (cs : List Column) (xs : List ℕ)
    → length xs ≡ length cs
    → AreBytes cs
    → AreApart cs
    → AreRows cs xs
    → All (IsZeroIn cs) xs
    → AreZero cs
independent [] xs l h a r z = tt
independent (c ∷ cs) [] l h a r z = absurd (omega arith)
independent ((y0, v0) ∷ cs) (x0 ∷ xs) l h a (bx0, m0, d, r) z =
    let smaller =
      independent (reduce x0 y0 cs) xs (omega (arith, length-reduce x0 y0 cs))
        (reduce-AreBytes x0 y0 cs bx0 h.0.0 h.1 m0.1) (reduce-AreApart x0 y0 cs a.1)
        (reduce-AreRows x0 y0 cs (y0, v0) xs r)
        (reduced_rows x0 y0 v0 cs xs bx0 h m0 d r z.0 z.1) in
    let rest = unreduce x0 y0 cs bx0 h.0.0 h.1 m0.1 a.0 smaller in
    (
      sym (others x0 y0 v0 cs bx0 h.0.0 h.0.1 m0.0 z.0)
          ∙ ap (product (bit_xor x0 y0)) (sum_of_zeros x0 cs rest)
          ∙ product-zero (bit_xor x0 y0),
      rest,
    )
