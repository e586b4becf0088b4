-- ===== src/Fec/Missing.antt =====
-- src/fec.cpp: the symbols that are missing and those that are there, and sums over each.
use norr.Prelude.{
  ℕ, zero, suc, ◌+◌, ◌≤◌, ◌<◌, bit_xor, ◌≡◌, refl, sym, ap, ap₂, subst, ◌∙◌, ◌⊎◌, inl, inr, List,
  [], ◌∷◌, Bool, true, false, not, Bool-cases, length, get_or, take, All, arith,
}
use norr.Prelude.Bytes.{IsByte, byte_at}
use norr.Prelude.Xor.{bit_xor_self, bit_xor-zero, bit_xor_assoc, bit_xor_comm}
use norr.Fec.Field.{product, cauchy}
use norr.Fec.Vector.{
  multiply_add-add_products, length-add_products, add_products-IsByte, add_products,
}
use norr.Fec.Dot.{dot}
use norr.Fec.Decoder.{is_empty, indices, subtract}
use norr.Fec.Parity.{row_of, all_bytes, cauchy-IsByte}

-- Increasing numbers from `lo` on, below `hi`.
abbrev pub Rising : ℕ → ℕ → List ℕ → Type 0
Rising lo hi [] = Unit
Rising lo hi (m ∷ ms) = (lo ≤ m) × (m < hi) × Rising (m + 1) hi ms

Rising-lower : (lo lo' hi : ℕ) (ms : List ℕ) → lo ≤ lo' → Rising lo' hi ms → Rising lo hi ms
Rising-lower lo lo' hi [] h r = tt
Rising-lower lo lo' hi (m ∷ ms) h r = (omega arith, r.1, r.2)

pub take-Rising : (n lo hi : ℕ) (ms : List ℕ) → Rising lo hi ms → Rising lo hi (take n ms)
take-Rising zero lo hi ms r = tt
take-Rising (suc n) lo hi [] r = tt
take-Rising (suc n) lo hi (m ∷ ms) r = (r.0, r.1, take-Rising n (m + 1) hi ms r.2)

pub Rising-below : (lo hi : ℕ) (ms : List ℕ) → Rising lo hi ms → All (λ (m : ℕ). m < hi) ms
Rising-below lo hi [] r = tt
Rising-below lo hi (m ∷ ms) r = (r.1, Rising-below (m + 1) hi ms r.2)

indices_step_in :
    (missing : Bool) (left index : ℕ) (slots : List (List ℕ))
    → is_empty (row_of slots index) ≡ missing
    → indices missing (suc left) index slots ≡ index ∷ indices missing left (index + 1) slots
unfolding indices
indices_step_in true left index slots e = rw e refl
indices_step_in false left index slots e = rw e refl

indices_step_out :
    (missing : Bool) (left index : ℕ) (slots : List (List ℕ))
    → is_empty (row_of slots index) ≡ not missing
    → indices missing (suc left) index slots ≡ indices missing left (index + 1) slots
unfolding indices
indices_step_out true left index slots e = rw e refl
indices_step_out false left index slots e = rw e refl

abbrev pub HasState : Bool → List (List ℕ) → ℕ → Type 0
HasState missing slots m = is_empty (row_of slots m) ≡ missing

pub indices_lem :
    (missing : Bool) (left index : ℕ) (slots : List (List ℕ))
    → Rising index (index + left) (indices missing left index slots)
      × All (HasState missing slots) (indices missing left index slots)
unfolding indices
indices_lem missing zero index slots = (tt, tt)
indices_lem missing (suc left) index slots =
    let more : index + 1 + left ≡ index + suc left = omega arith in
    let (rising, states) = indices_lem missing left (index + 1) slots in
    let rising' : Rising (index + 1) (index + suc left) (indices missing left (index + 1) slots) =
      subst (λ t. Rising (index + 1) t (indices missing left (index + 1) slots)) more rising in
    elim (same missing (is_empty (row_of slots index))) [
      | inl e ↦
          subst (λ t. Rising index (index + suc left) t × All (HasState missing slots) t)
            (sym (indices_step_in missing left index slots e))
            ((omega arith, omega arith, rising'), (e, states))
      | inr e ↦
          subst (λ t. Rising index (index + suc left) t × All (HasState missing slots) t)
            (sym (indices_step_out missing left index slots e))
            (Rising-lower index (index + 1) (index + suc left) _ (omega arith) rising', states)
    ]
  where
    same : (b c : Bool) → (c ≡ b) ⊎ (c ≡ not b)
    same true true = inl refl
    same true false = inr refl
    same false true = inr refl
    same false false = inl refl

-- The sum of a function over some indices, and over all of a range.
unfoldable pub sum_over : (ℕ → ℕ) → List ℕ → ℕ
sum_over f [] = 0
sum_over f (m ∷ ms) = bit_xor (f m) (sum_over f ms)

unfoldable pub sum_range : (ℕ → ℕ) → ℕ → ℕ → ℕ
sum_range f zero index = 0
sum_range f (suc left) index = bit_xor (f index) (sum_range f left (index + 1))

pub sum_over_cong :
    (f g : ℕ → ℕ) (ms : List ℕ) → All (λ (m : ℕ). f m ≡ g m) ms → sum_over f ms ≡ sum_over g ms
unfolding sum_over
sum_over_cong f g [] h = refl
sum_over_cong f g (m ∷ ms) h = ap₂ bit_xor h.0 (sum_over_cong f g ms h.1)

pub sum_range_cong :
    (f g : ℕ → ℕ) (n index : ℕ) → ((m : ℕ) → f m ≡ g m) → sum_range f n index ≡ sum_range g n index
unfolding sum_range
sum_range_cong f g zero index h = refl
sum_range_cong f g (suc n) index h = ap₂ bit_xor (h index) (sum_range_cong f g n (index + 1) h)

sum_range_last :
    (f : ℕ → ℕ) (n index : ℕ)
    → sum_range f (suc n) index ≡ bit_xor (sum_range f n index) (f (index + n))
unfolding sum_range
sum_range_last f zero index =
    let e : index ≡ index + 0 = omega arith in
    bit_xor_comm (f index) 0 ∙ ap (λ t. bit_xor 0 (f t)) e
sum_range_last f (suc n) index =
    let e : index + 1 + n ≡ index + suc n = omega arith in
    ap (bit_xor (f index))
      (sum_range_last f n (index + 1) ∙ ap (λ t. bit_xor (sum_range f n (index + 1)) (f t)) e)
    ∙ sym (bit_xor_assoc (f index) (sum_range f n (index + 1)) (f (index + suc n)))

pub sum_range-dot : (n : ℕ) (a b : ℕ → ℕ) → sum_range (λ c. product (a c) (b c)) n 0 ≡ dot n a b
unfolding dot
sum_range-dot zero a b = unfold sum_range in refl
sum_range-dot (suc n) a b =
    let e : 0 + n ≡ n = omega arith in
    sum_range_last (λ c. product (a c) (b c)) n 0
    ∙ ap₂ bit_xor (sum_range-dot n a b) (ap (λ t. product (a t) (b t)) e)

pub sum_range_shift :
    (f : ℕ → ℕ) (n index : ℕ) → sum_range f n (suc index) ≡ sum_range (λ i. f (suc i)) n index
unfolding sum_range
sum_range_shift f zero index = refl
sum_range_shift f (suc n) index =
    let e : suc index + 1 ≡ suc (index + 1) = omega arith in
    ap (bit_xor (f (suc index))) (ap (sum_range f n) e ∙ sum_range_shift f n (index + 1))

pub sum_over-range :
    (f : ℕ → ℕ) (ms : List ℕ) → sum_over f ms ≡ sum_range (λ i. f (get_or ms i 0)) (length ms) 0
unfolding sum_over sum_range
sum_over-range f [] = refl
sum_over-range f (m ∷ ms) =
    ap (bit_xor (f m))
      (sum_over-range f ms ∙ sym (sum_range_shift (λ i. f (get_or (m ∷ ms) i 0)) (length ms) 0))

-- A range splits into the indices that are missing and those that are there.
pub sum_split :
    (f : ℕ → ℕ) (left index : ℕ) (slots : List (List ℕ))
    → sum_range f left index
      ≡ bit_xor
          (sum_over f (indices true left index slots))
          (sum_over f (indices false left index slots))
unfolding sum_range sum_over indices
sum_split f zero index slots = sym (bit_xor_self 0)
sum_split f (suc left) index slots = elim (Bool-cases (is_empty (row_of slots index))) [
  | inl e ↦
      ap (bit_xor (f index)) (sum_split f left (index + 1) slots)
      ∙ sym (bit_xor_assoc (f index) _ _)
      ∙ ap₂ (λ s t. bit_xor (sum_over f s) (sum_over f t))
          (sym (indices_step_in true left index slots e))
          (sym (indices_step_out false left index slots e))
  | inr e ↦
      bit_xor_comm (f index) _
      ∙ ap (λ t. bit_xor t (f index)) (sum_split f left (index + 1) slots)
      ∙ bit_xor_assoc _ _ (f index)
      ∙ ap (bit_xor _) (bit_xor_comm _ (f index))
      ∙ ap₂ (λ s t. bit_xor (sum_over f s) (sum_over f t))
          (sym (indices_step_out true left index slots e))
          (sym (indices_step_in false left index slots e))
]

-- What the packets that are there take away from a parity symbol.
pub subtract_lem :
    (vector row width left index : ℕ) (slots : List (List ℕ)) (syndrome : List ℕ)
    → length syndrome ≡ width
    → All IsByte syndrome
    → ((c : ℕ) → (length (row_of slots c) ≤ width) × All IsByte (row_of slots c))
    → let rest = subtract vector row left index slots syndrome in
      (length rest ≡ width)
      × All IsByte rest
      × ((j : ℕ)
          → byte_at rest j
            ≡ bit_xor (byte_at syndrome j) (
                sum_over
                  (λ c. product (cauchy row c) (byte_at (row_of slots c) j))
                  (indices false left index slots)))
unfolding subtract
subtract_lem vector row width zero index slots syndrome l b fits =
    (l, b, λ j. unfold indices sum_over in sym (bit_xor-zero (byte_at syndrome j)))
subtract_lem vector row width (suc left) index slots syndrome l b fits =
    elim (Bool-cases (is_empty (row_of slots index))) [
      | inl e ↦
          let (l', b', sums) =
            subtract_lem vector row width left (index + 1) slots syndrome l b fits in
          rw e (
            l',
            b',
            λ j.
                sums j
                ∙ ap (λ t. bit_xor (byte_at syndrome j) (sum_over (at j) t))
                    (sym (indices_step_out false left index slots e)),
          )
      | inr e ↦
          let s : List ℕ = row_of slots index in
          let k : ℕ = cauchy row index in
          let (l', b', sums) =
            subtract_lem vector row width left (index + 1) slots (add_products k syndrome s)
              (length-add_products k syndrome s ∙ l)
              (add_products-IsByte k syndrome s (cauchy-IsByte row index) b (fits index).1) fits in
          rw
            (
              e,
              multiply_add-add_products vector syndrome s k (fits index).1
                  (cauchy-IsByte row index),
            )
            (
              l',
              b',
              λ j.
                  sums j
                  ∙ ap (λ t. bit_xor t (sum_over (at j) (indices false left (index + 1) slots)))
                      (all_bytes k syndrome s j (omega (arith, l, (fits index).0)))
                  ∙ bit_xor_assoc (byte_at syndrome j) (at j index)
                      (sum_over (at j) (indices false left (index + 1) slots))
                  ∙ ap (bit_xor (byte_at syndrome j)) (
                      unfold sum_over in
                      ap (sum_over (at j)) (sym (indices_step_in false left index slots e))),
            )
    ]
  where
    at : ℕ → ℕ → ℕ
    at j c = product (cauchy row c) (byte_at (row_of slots c) j)
