-- ===== src/Fec/Cauchy.antt =====
-- src/fec.cpp: the rows of the Cauchy matrix are independent, so every square part of it can be
-- solved. A sum over columns is a list of nodes, each with the unknown that it weighs.
use norr.Prelude.{ℕ, bit_xor, ◌≡◌, sym, ap, ap₂, ◌∙◌, ◌≢◌}
use norr.Prelude.Bits.{bit_xor-lt}
use norr.Prelude.Bytes.{IsByte}
use norr.Prelude.Xor.{
  bit_xor_comm, zero-bit_xor, bit_xor_swap, bit_xor_cancel, bit_xor_assoc, eq_of_bit_xor,
}
use norr.Fec.Field.{product, inverse}
use norr.Fec.FieldLaws.{
  product_comm, product_assoc, product-lt, product-xor_left, one-product, inverse_lem,
}

pub xor-IsByte : (a b : ℕ) → IsByte a → IsByte b → IsByte (bit_xor a b)
xor-IsByte a b p q = bit_xor-lt 8 a b p q

pub product-xor :
    (a b c : ℕ)
    → IsByte a
    → IsByte b
    → IsByte c
    → product (bit_xor a b) c ≡ bit_xor (product a c) (product b c)
product-xor a b c p q r = product-xor_left a b c p q r (xor-IsByte a b p q)

pub product-xor_right :
    (a b c : ℕ)
    → IsByte a
    → IsByte b
    → IsByte c
    → product a (bit_xor b c) ≡ bit_xor (product a b) (product a c)
product-xor_right a b c p q r =
    product_comm a (bit_xor b c)
    ∙ product-xor b c a q r p
    ∙ ap₂ bit_xor (product_comm b a) (product_comm c a)

pub product_left_comm :
    (a b c : ℕ) → IsByte a → IsByte b → IsByte c → product a (product b c) ≡ product b (product a c)
product_left_comm a b c p q r =
    sym (product_assoc a b c p q r)
    ∙ ap (λ t. product t c) (product_comm a b)
    ∙ product_assoc b a c q p r

-- `1 / (x + y)`
unfoldable pub entry : ℕ → ℕ → ℕ
entry x y = inverse (bit_xor x y)

pub entry_lem :
    (x y : ℕ)
    → IsByte x
    → IsByte y
    → x ≢ y
    → (product (bit_xor x y) (entry x y) ≡ 1) × IsByte (entry x y)
unfolding entry
entry_lem x y p q ne =
    inverse_lem (bit_xor x y) (λ e. ne (eq_of_bit_xor x y e)) (xor-IsByte x y p q)

-- x + z through y.
through : (x y z : ℕ) → bit_xor x z ≡ bit_xor (bit_xor x y) (bit_xor y z)
through x y z = ap (λ t. bit_xor t z) (sym (bit_xor_cancel x y)) ∙ bit_xor_assoc (bit_xor x y) y z

module _ (x x0 y y0 : ℕ) (bx : IsByte x) (bx0 : IsByte x0) (by : IsByte y) (by0 : IsByte y0)
    (ne : x ≢ y) (ne0 : x0 ≢ y) where
  abbrev e : ℕ
  e = entry x y

  abbrev e0 : ℕ
  e0 = entry x0 y

  abbrev d : ℕ
  d = bit_xor y y0

  d_lt : IsByte d
  d_lt = xor-IsByte y y0 by by0

  e_lt : IsByte e
  e_lt = (entry_lem x y bx by ne).1

  e0_lt : IsByte e0
  e0_lt = (entry_lem x0 y bx0 by ne0).1

  -- (x + y0) / (x + y) = 1 + (y + y0) / (x + y)
  shifted : product (bit_xor x y0) e ≡ bit_xor 1 (product d e)
  shifted =
      ap (λ t. product t e) (through x y y0)
      ∙ product-xor (bit_xor x y) d e (xor-IsByte x y bx by) d_lt e_lt
      ∙ ap (λ t. bit_xor t (product d e)) (entry_lem x y bx by ne).0

  shifted0 : product (bit_xor x0 y0) e0 ≡ bit_xor 1 (product d e0)
  shifted0 =
      ap (λ t. product t e0) (through x0 y y0)
      ∙ product-xor (bit_xor x0 y) d e0 (xor-IsByte x0 y bx0 by) d_lt e0_lt
      ∙ ap (λ t. bit_xor t (product d e0)) (entry_lem x0 y bx0 by ne0).0

  -- 1 / (x + y) + 1 / (x0 + y) = (x + x0) / ((x + y) (x0 + y))
  difference : bit_xor e e0 ≡ product (bit_xor x x0) (product e e0)
  difference =
      bit_xor_comm e e0
      ∙ ap₂ bit_xor
          (sym (
            sym (product_assoc (bit_xor x y) e e0 (xor-IsByte x y bx by) e_lt e0_lt)
            ∙ ap (λ t. product t e0) (entry_lem x y bx by ne).0
            ∙ one-product e0 e0_lt))
          (sym (
            ap (product (bit_xor x0 y)) (product_comm e e0)
            ∙ sym (product_assoc (bit_xor x0 y) e0 e (xor-IsByte x0 y bx0 by) e0_lt e_lt)
            ∙ ap (λ t. product t e) (entry_lem x0 y bx0 by ne0).0
            ∙ one-product e e_lt))
      ∙ sym (
          product-xor (bit_xor x y) (bit_xor x0 y) (product e e0) (xor-IsByte x y bx by)
            (xor-IsByte x0 y bx0 by) (product-lt e e0 e_lt e0_lt))
      ∙ ap (λ t. product t (product e e0)) paths
    where
      paths : bit_xor (bit_xor x y) (bit_xor x0 y) ≡ bit_xor x x0
      paths = ap (bit_xor (bit_xor x y)) (bit_xor_comm x0 y) ∙ sym (through x y x0)

  combined :
      bit_xor (product (bit_xor x y0) e) (product (bit_xor x0 y0) e0)
      ≡ product d (product (bit_xor x x0) (product e e0))
  combined =
      ap₂ bit_xor shifted shifted0
      ∙ bit_xor_swap 1 (product d e) 1 (product d e0)
      ∙ zero-bit_xor (bit_xor (product d e) (product d e0))
      ∙ sym (product-xor_right d e e0 d_lt e_lt e0_lt)
      ∙ ap (product d) difference

  -- The terms of column y in two rows, each times its row's distance to y0.
  pub column :
      (v : ℕ)
      → IsByte v
      → bit_xor (product (bit_xor x y0) (product e v)) (product (bit_xor x0 y0) (product e0 v))
        ≡ product (bit_xor x x0) (product e (product (product d e0) v))
  column v bv =
      let p : ℕ = bit_xor x x0 in
      let p_lt : IsByte p = xor-IsByte x x0 bx bx0 in
      let w_lt : IsByte (product e0 v) = product-lt e0 v e0_lt bv in
      let g_lt : IsByte (product e e0) = product-lt e e0 e_lt e0_lt in
      let l_lt : IsByte (bit_xor x y0) = xor-IsByte x y0 bx by0 in
      let l0_lt : IsByte (bit_xor x0 y0) = xor-IsByte x0 y0 bx0 by0 in
      sym (
        ap₂ bit_xor (product_assoc (bit_xor x y0) e v l_lt e_lt bv)
          (product_assoc (bit_xor x0 y0) e0 v l0_lt e0_lt bv))
      ∙ sym (
          product-xor (product (bit_xor x y0) e) (product (bit_xor x0 y0) e0) v
            (product-lt (bit_xor x y0) e l_lt e_lt) (product-lt (bit_xor x0 y0) e0 l0_lt e0_lt) bv)
      ∙ ap (λ t. product t v) combined
      ∙ product_assoc d (product p (product e e0)) v d_lt (product-lt p _ p_lt g_lt) bv
      ∙ ap (product d) (
          product_assoc p (product e e0) v p_lt g_lt bv
          ∙ ap (product p) (product_assoc e e0 v e_lt e0_lt bv))
      ∙ product_left_comm d p (product e (product e0 v)) d_lt p_lt
          (product-lt e (product e0 v) e_lt w_lt)
      ∙ ap (product p) (
          product_left_comm d e (product e0 v) d_lt e_lt w_lt
          ∙ ap (product e) (sym (product_assoc d e0 v d_lt e0_lt bv)))
