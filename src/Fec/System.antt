-- ===== src/Fec/System.antt =====
-- src/fec.cpp: the equations that `try_recover` sets up, and what their elimination leaves.
use norr.Prelude.{
  ℕ, zero, suc, ◌+◌, ◌≤◌, ◌<◌, bit_xor, ◌≡◌, refl, sym, ap, ap₂, subst, ◌∙◌, ◌⊎◌, inl, inr, List,
  [], ◌∷◌, map, true, false, some, length, get_or, All, All-get_or, arith,
}
use norr.Prelude.Bytes.{IsByte, byte_at}
use norr.Prelude.Xor.{bit_xor_cancel}
use norr.Fec.Field.{product, cauchy}
use norr.Fec.Elimination.{Equation, row_at, solve}
use norr.Fec.Dot.{AreSmall, dot, dot_cong}
use norr.Fec.Rounds.{IsEquation}
use norr.Fec.Solution.{IsSystem, value}
use norr.Fec.Solved.{IsIndependent, solve_lem}
use norr.Fec.Decoder.{Block, is_empty, indices, subtract, equation_of}
use norr.Fec.Parity.{IsParity, Fits, column, row_of, cauchy-IsByte}
use norr.Fec.Missing.{
  Rising, HasState, indices_lem, sum_over, sum_over_cong, sum_range, sum_range-dot, sum_over-range,
  sum_split, subtract_lem,
}
use norr.Fec.Columns.{row_entries, row_entries_at, rows_independent}

-- A block that is receiving these symbols: what a slot holds is the symbol of its index, and what a
-- parity row holds is the sender's row.
pub record IsReceiving (n width : ℕ) (symbols : List (List ℕ)) (block : Block) : Type 0 where
  pub data_counted : block.data_count ≡ length symbols
  pub data_le : length symbols ≤ 64
  pub parity_counted : block.parity_count ≡ n
  pub parity_le : n ≤ 16
  pub fits : All (Fits width) symbols
  pub slot_count : length block.slots ≡ length symbols
  pub slot : (c : ℕ) → (row_of block.slots c ≡ []) ⊎ (row_of block.slots c ≡ row_of symbols c)
  pub row :
      (r : ℕ)
      → r < n
      → (row_of block.parity r ≡ []) ⊎ IsParity width r symbols (row_of block.parity r)

filled_slot : (s : List ℕ) → s ≡ [] → is_empty s ≡ false → ⊥
filled_slot [] e h = cc
filled_slot (b ∷ s) e h = cc

module _ (vector n width : ℕ) (symbols : List (List ℕ)) (block : Block)
    (receiving : IsReceiving n width symbols block) where
  abbrev pub missing : List ℕ
  missing = indices true block.data_count 0 block.slots

  abbrev present : List ℕ
  present = indices false block.data_count 0 block.slots

  pub symbol_fits : (c : ℕ) → Fits width (row_of symbols c)
  symbol_fits c = All-get_or (Fits width) symbols c [] receiving.fits (omega arith, tt)

  pub slot_fits : (c : ℕ) → Fits width (row_of block.slots c)
  slot_fits c = elim (receiving.slot c) [
    | inl e ↦ subst (Fits width) (sym e) (omega arith, tt)
    | inr e ↦ subst (Fits width) (sym e) (symbol_fits c)
  ]

  pub missing-Rising : Rising 0 64 missing
  missing-Rising =
      widen_bound 0 (0 + block.data_count) missing
        (omega (arith, receiving.data_counted, receiving.data_le))
        (indices_lem true block.data_count 0 block.slots).0
    where
      widen_bound : (lo hi : ℕ) (ms : List ℕ) → hi ≤ 64 → Rising lo hi ms → Rising lo 64 ms
      widen_bound lo hi [] h r = tt
      widen_bound lo hi (m ∷ ms) h r = (r.0, omega arith, widen_bound (m + 1) hi ms h r.2)

  -- The unknowns: byte j of each missing symbol.
  abbrev pub unknowns : ℕ → ℕ → ℕ
  unknowns j i = byte_at (row_of symbols (get_or missing i 0)) j

  pub unknowns-AreSmall : (j : ℕ) → AreSmall (unknowns j)
  unknowns-AreSmall j i =
      All-get_or IsByte (row_of symbols (get_or missing i 0)) j 0
        (symbol_fits (get_or missing i 0)).1 (omega arith)

  module _ (r : ℕ) (parity : IsParity width r symbols (row_of block.parity r)) where
    abbrev share : ℕ → ℕ → ℕ
    share j c = product (cauchy r c) (column symbols j c)

    abbrev slot_share : ℕ → ℕ → ℕ
    slot_share j c = product (cauchy r c) (byte_at (row_of block.slots c) j)

    -- The slots that are filled hold the symbols.
    shares_agree : (j : ℕ) → sum_over (slot_share j) present ≡ sum_over (share j) present
    shares_agree j =
        sum_over_cong (slot_share j) (share j) present
          (agree present (indices_lem false block.data_count 0 block.slots).1)
      where
        filled : (c : ℕ) → HasState false block.slots c → slot_share j c ≡ share j c
        filled c h = elim (receiving.slot c) [
          | inl e ↦ absurd (filled_slot (row_of block.slots c) e h)
          | inr e ↦ ap (λ t. product (cauchy r c) (byte_at t j)) e
        ]

        agree :
            (cs : List ℕ)
            → All (HasState false block.slots) cs
            → All (λ (c : ℕ). slot_share j c ≡ share j c) cs
        agree [] h = tt
        agree (c ∷ cs) h = (filled c h.0, agree cs h.1)

    syndrome :
        let rest = subtract vector r block.data_count 0 block.slots (row_of block.parity r) in
        (length rest ≡ width)
        × All IsByte rest
        × ((j : ℕ)
            → byte_at rest j
              ≡ bit_xor (byte_at (row_of block.parity r) j) (sum_over (slot_share j) present))
    syndrome =
        subtract_lem vector r width block.data_count 0 block.slots (row_of block.parity r)
          parity.wide parity.bytes slot_fits

    -- Byte j of a parity row is the shares of the missing symbols and of those that are there.
    row_sum :
        (j : ℕ)
        → byte_at (row_of block.parity r) j
          ≡ bit_xor (sum_over (share j) missing) (sum_over (share j) present)
    row_sum j =
        parity.sums j
        ∙ sym (sum_range-dot (length symbols) (λ c. cauchy r c) (column symbols j))
        ∙ ap (λ t. sum_range (share j) t 0) (sym receiving.data_counted)
        ∙ sum_split (share j) block.data_count 0 block.slots

    pub equation_lem :
        IsEquation (length missing) width (equation_of vector block missing r)
        × ((j : ℕ)
            → value (length missing) (equation_of vector block missing r) (unknowns j)
              ≡ byte_at (equation_of vector block missing r).1 j)
    unfolding equation_of
    equation_lem =
        let (wide, bytes, sums) = syndrome in
        (
          record {
            columns = length-entries missing;
            bytes = entries-IsByte missing;
            wide = wide;
            sums = bytes;
          },
          λ j.
              dot_cong (length missing) (byte_at (row_entries r missing))
                (λ i. cauchy r (get_or missing i 0)) (unknowns j)
                (λ i h. row_entries_at r missing i h)
              ∙ sym
                  (sum_range-dot (length missing) (λ i. cauchy r (get_or missing i 0)) (unknowns j))
              ∙ sym (sum_over-range (share j) missing)
              ∙ sym (
                  sums j
                  ∙ ap₂ bit_xor (row_sum j) (shares_agree j)
                  ∙ bit_xor_cancel (sum_over (share j) missing) (sum_over (share j) present)),
        )
      where
        length-entries : (cs : List ℕ) → length (row_entries r cs) ≡ length cs
        length-entries [] = refl
        length-entries (c ∷ cs) = ap suc (length-entries cs)

        entries-IsByte : (cs : List ℕ) → All IsByte (row_entries r cs)
        entries-IsByte [] = tt
        entries-IsByte (c ∷ cs) = (cauchy-IsByte r c, entries-IsByte cs)

    row_value :
        (w : ℕ → ℕ)
        → value (length missing) (equation_of vector block missing r) w
          ≡ dot (length missing) (byte_at (row_entries r missing)) w
    unfolding equation_of
    row_value w = refl

  -- The rows that are there hold parity.
  module _ (rows : List ℕ) (rising : Rising 0 block.parity_count rows)
      (there : All (HasState false block.parity) rows) (enough : length rows ≡ length missing) where
    abbrev pub equations : List Equation
    equations = map (equation_of vector block missing) rows

    pub there_at :
        (i : ℕ)
        → i < length rows
        → IsParity width (get_or rows i 0) symbols (row_of block.parity (get_or rows i 0))
    there_at i h =
        let (below, filled) = at_index 0 rows rising there i h in
        elim (receiving.row (get_or rows i 0) (omega (arith, receiving.parity_counted))) [
          | inl e ↦ absurd (filled_slot (row_of block.parity (get_or rows i 0)) e filled)
          | inr p ↦ p
        ]
      where
        at_index :
            (lo : ℕ) (rs : List ℕ)
            → Rising lo block.parity_count rs
            → All (HasState false block.parity) rs
            → (i : ℕ) → i < length rs
            → (get_or rs i 0 < block.parity_count) × HasState false block.parity (get_or rs i 0)
        at_index lo [] r s i h = absurd (omega arith)
        at_index lo (x ∷ rs) r s zero h = (r.1, s.0)
        at_index lo (x ∷ rs) r s (suc i) h = at_index (x + 1) rs r.2 s.1 i (omega arith)

    length-equations :
        (rs : List ℕ) → length (map (equation_of vector block missing) rs) ≡ length rs
    length-equations [] = refl
    length-equations (r ∷ rs) = ap suc (length-equations rs)

    equation_at :
        (rs : List ℕ) (i : ℕ)
        → i < length rs
        → row_at (map (equation_of vector block missing) rs) i
          ≡ equation_of vector block missing (get_or rs i 0)
    equation_at [] i h = absurd (omega arith)
    equation_at (r ∷ rs) zero h = refl
    equation_at (r ∷ rs) (suc i) h = equation_at rs i (omega arith)

    equations-IsSystem : IsSystem (length missing) width equations
    equations-IsSystem = record {
      count = length-equations rows ∙ enough;
      each = λ i h.
          let h' : i < length rows = omega (arith, enough) in
          subst (IsEquation (length missing) width) (sym (equation_at rows i h'))
            (equation_lem (get_or rows i 0) (there_at i h')).0;
    }

    equations-IsIndependent : IsIndependent (length missing) equations
    equations-IsIndependent w hw zeros c h =
        rows_independent rows missing w enough (below 0 rows rising) missing-Rising hw
          (λ i hi.
            sym (row_value (get_or rows i 0) (there_at i hi) w)
            ∙ ap (λ (t : Equation). value (length missing) t w) (sym (equation_at rows i hi))
            ∙ zeros i (omega (arith, enough)))
          c h
      where
        below : (lo : ℕ) (rs : List ℕ) → Rising lo block.parity_count rs → Rising lo 16 rs
        below lo [] r = tt
        below lo (x ∷ rs) r = (
          r.0,
          omega (arith, receiving.parity_counted, receiving.parity_le),
          below (x + 1) rs r.2,
        )

    -- The elimination ends with the missing symbols, filled up to the width.
    pub solve-equations :
        (final : List Equation) × (solve vector (length missing) 0 equations ≡ some final)
        × (length final ≡ length missing)
        × ((i : ℕ) → i < length missing → length (row_at final i).1 ≡ width)
        × ((i j : ℕ) → i < length missing → j < width → byte_at (row_at final i).1 j ≡ unknowns j i)
    solve-equations =
        let (final, run, (whole, read)) =
          solve_lem vector (length missing) width (length missing) 0 equations (omega arith)
            equations-IsSystem (λ r c h k. absurd (omega arith)) equations-IsIndependent in
        (
          final,
          run,
          whole.count,
          λ i h. (whole.each i h).wide,
          λ i j h k.
              read (unknowns j) j (unknowns-AreSmall j) k
                (λ r hr.
                  let hr' : r < length rows = omega (arith, enough) in
                  ap (λ (t : Equation). value (length missing) t (unknowns j))
                    (equation_at rows r hr')
                  ∙ (equation_lem (get_or rows r 0) (there_at r hr')).1 j
                  ∙ ap (λ (t : Equation). byte_at t.1 j) (sym (equation_at rows r hr')))
                i h,
        )
