-- ===== src/Fec/Emission.antt =====
-- src/fec.cpp: the parity symbols that `FecEncoder::emit` builds can be read by a receiver.
use norr.Prelude.{
  ℕ, zero, suc, ◌+◌, ◌-◌, ◌^◌, ◌≤◌, ◌<◌, ◌≡◌, sym, ap, ◌∙◌, List, [], ◌∷◌, ◌++◌, true, length,
  replicate, length-replicate, drop-replicate, take, drop, some, arith,
}
use norr.Prelude.Bytes.{u8, u16}
use norr.Fec.Header.{FecSymbolHeader, serialize_fec_header, parse_fec_header}
use norr.Fec.Symbols.{
  spell, IsValid, serialize_fec_header_lem, parse_fec_header-serialize_fec_header,
}
use norr.Fec.Encoder.{FecPlan, FecEncoder, Lane, emit_rows, emit}
use norr.Fec.Parity.{row_of}

-- The header that the symbol of a row carries.
abbrev pub header_of : FecPlan → Lane → ℕ → FecSymbolHeader
header_of plan lane r = record {
  block_id = lane.block_id;
  index = u8 r;
  block_size = u8 lane.index;
  parity_count = u8 plan.parity;
  parity = true;
  original_length = u16 lane.width;
}

-- The symbol that is built for a row.
abbrev built : FecSymbolHeader → ℕ → List ℕ → List ℕ
built header width row =
    let symbol = (serialize_fec_header header (replicate (11 + width) 0)).1 in
    take 11 symbol ++ (row ++ drop (11 + length row) symbol)

emit_rows_at :
    (plan : FecPlan) (lane : Lane) (first left : ℕ) (parity : List (List ℕ)) (r : ℕ)
    → r < left
    → r < length parity
    → row_of (emit_rows plan lane first left parity) r
      ≡ built (header_of plan lane (first + r)) lane.width (row_of parity r)
unfolding emit_rows
emit_rows_at plan lane first zero parity r h k = absurd (omega arith)
emit_rows_at plan lane first (suc left) [] r h k = absurd (omega arith)
emit_rows_at plan lane first (suc left) (p ∷ parity) zero h k =
    let e : first ≡ first + 0 = omega arith in
    ap (λ t. built (header_of plan lane t) lane.width p) e
emit_rows_at plan lane first (suc left) (p ∷ parity) (suc r) h k =
    let e : first + 1 + r ≡ first + suc r = omega arith in
    emit_rows_at plan lane (first + 1) left parity r (omega arith) (omega arith)
    ∙ ap (λ t. built (header_of plan lane t) lane.width (row_of parity r)) e

-- After the header come the row and the zeros that are left of the buffer.
abbrev pub filled : ℕ → List ℕ → List ℕ
filled width row = row ++ replicate (width - length row) 0

built-spell :
    (h : FecSymbolHeader) (width : ℕ) (row : List ℕ)
    → built h width row ≡ spell h (filled width row)
built-spell h width row =
    let out : List ℕ = replicate (11 + width) 0 in
    let room : length out ≡ 11 + width = length-replicate {A = ℕ} (11 + width) 0 in
    let past : 11 + length row
        ≡ suc (suc (suc (suc (suc (suc (suc (suc (suc (suc (suc (length row))))))))))) =
      omega arith in
    let all : 11 + width - 11 - length row ≡ width - length row = omega arith in
    ap (λ t. take 11 t.1 ++ (row ++ drop (11 + length row) t.1))
      (serialize_fec_header_lem h out (omega (arith, room)))
    ∙ ap (λ t. spell h (row ++ drop t (spell h (drop 11 out)))) past
    ∙ ap (λ t. spell h (row ++ drop (length row) t)) (drop-replicate 11 (11 + width) 0)
    ∙ ap (λ t. spell h (row ++ t)) (drop-replicate (length row) (11 + width - 11) 0)
    ∙ ap (λ t. spell h (row ++ replicate t 0)) all

-- The header of a symbol, and what follows it.
readable :
    (h : FecSymbolHeader) (width : ℕ) (row : List ℕ)
    → IsValid h
    → (parse_fec_header (built h width row) ≡ some h)
      × (drop 11 (built h width row) ≡ filled width row)
readable h width row v =
    let out : List ℕ = replicate 11 0 ++ filled width row in
    let again : spell h (filled width row) ≡ (serialize_fec_header h out).1 =
      sym (ap (λ t. t.1) (serialize_fec_header_lem h out (omega arith))) in
    (
      ap parse_fec_header (built-spell h width row ∙ again)
          ∙ parse_fec_header-serialize_fec_header h out v (omega arith),
      ap (drop 11) (built-spell h width row),
    )

-- For a block of 1 to 64 packets, each of the symbols emitted is read by a receiver as a header with
-- the block's number and size, the symbol's row and the plan's number of rows, and the bytes after
-- the header are the lane's parity row, with zeros up to the lane's width where it is shorter.
pub emit-Readable :
    (encoder : FecEncoder) (i : ℕ) (lane : Lane) (rows r : ℕ)
    → lane.block_id < 2 ^ 32
    → 0 < lane.index
    → lane.index ≤ 64
    → encoder.plan.parity ≤ 16
    → rows ≤ encoder.plan.parity
    → length lane.parity ≡ encoder.plan.parity
    → r < rows
    → let symbol = row_of (emit encoder i lane rows).1 r in
      (parse_fec_header symbol
        ≡ some (record {
          block_id = lane.block_id;
          index = r;
          block_size = lane.index;
          parity_count = encoder.plan.parity;
          parity = true;
          original_length = u16 lane.width;
        }))
      × (drop 11 symbol ≡ filled lane.width (row_of lane.parity r))
unfolding emit
emit-Readable encoder i lane rows r id pos size most fits count h =
    let plan : FecPlan = encoder.plan in
    let zero_first : 0 + r ≡ r = omega arith in
    let made =
      emit_rows_at plan lane 0 rows lane.parity r h (omega arith)
      ∙ ap (λ t. built (header_of plan lane t) lane.width (row_of lane.parity r)) zero_first in
    let small : (u8 r ≡ r) × (u8 lane.index ≡ lane.index) × (u8 plan.parity ≡ plan.parity) =
      omega arith in
    let valid : IsValid (header_of plan lane r) = record {
      id_fits = id;
      block_size_pos = omega arith;
      block_size_le = omega arith;
      parity_count_pos = omega arith;
      parity_count_le = omega arith;
      index_lt = omega arith;
      length_fits = omega arith;
    } in
    let (parsed, rest) = readable (header_of plan lane r) lane.width (row_of lane.parity r) valid in
    (ap parse_fec_header made ∙ parsed ∙ ground (arith, small), ap (drop 11) made ∙ rest)
