-- ===== src/Fec/Encoder.antt =====
-- src/fec.cpp, include/norr/fec.hpp: `FecEncoder`, which adds parity symbols to the packets sent.
-- `plan.loss` is a scaled number, of which the code asks whether it is above 0; `parity_needed`,
-- which works it out in floating point, is a parameter. The scratch buffers `symbol_` and `output_`
-- are the values that the calls build and return.
use norr.Prelude.{
  ℕ, zero, suc, ◌+◌, ◌-◌, ◌/◌, ◌%◌, ◌^◌, min, max, Bool, true, false, not, ◌&&◌, ◌||◌, List, [],
  ◌∷◌, ◌++◌, map, ltb, leb, ◌==◌, if◌then◌else◌, length, get_or, set, take, drop, replicate,
}
use norr.Prelude.Bytes.{u8, u16, u32, u64}
use norr.Fec.Header.{
  FecSymbolHeader, maximum_fec_data, maximum_fec_parity, fec_header_size, serialize_fec_header,
}
use norr.Fec.Field.{cauchy}
use norr.Fec.Vector.{multiply_add}

abbrev pub maximum_fec_lanes : ℕ
maximum_fec_lanes = 4

abbrev pub fec_length_prefix : ℕ
fec_length_prefix = 2

pub data FecMode : Type 0 where
  off light moderate aggressive automatic : FecMode

unfoldable pub block_size_for : FecMode → ℕ
block_size_for FecMode.light = 16
block_size_for FecMode.moderate = 10
block_size_for FecMode.aggressive = 8
block_size_for _ = 0

unfoldable pub parity_count_for : FecMode → ℕ
parity_count_for FecMode.light = 2
parity_count_for FecMode.moderate = 3
parity_count_for FecMode.aggressive = 4
parity_count_for _ = 0

pub record FecPlan : Type 0 where
  pub data_count : ℕ
  pub parity : ℕ
  pub lanes : ℕ
  pub loss : ℕ

abbrev pub no_plan : FecPlan
no_plan = record { data_count = 0; parity = 0; lanes = 1; loss = 0 }

abbrev pub active : FecPlan → Bool
active plan = ltb 0 plan.data_count && ltb 0 plan.parity

unfoldable pub plan_for_mode : FecMode → FecPlan
unfolding block_size_for parity_count_for
plan_for_mode mode = record {
  data_count = block_size_for mode;
  parity = parity_count_for mode;
  lanes = 1;
  loss = 0;
}

pub record Lane : Type 0 where
  pub block_id : ℕ
  pub index : ℕ
  pub width : ℕ
  pub parity : List (List ℕ)

abbrev pub no_lane : Lane
no_lane = record { block_id = 0; index = 0; width = 0; parity = [] }

pub record FecEncoder : Type 0 where
  pub plan : FecPlan
  pub lanes : List Lane
  pub cursor : ℕ
  pub next_block : ℕ
  pub blocks_encoded : ℕ
  pub parity_sent : ℕ

abbrev pub lane_at : FecEncoder → ℕ → Lane
lane_at encoder i = get_or encoder.lanes i no_lane

-- Each lane starts an empty block with the next number.
unfoldable pub restart_lanes : ℕ → ℕ → List Lane → List Lane × ℕ
restart_lanes parity next [] = ([], next)
restart_lanes parity next (lane ∷ lanes) =
    let lane' : Lane = record {
      block_id = next;
      index = 0;
      width = 0;
      parity = replicate parity [];
    } in
    let rest = restart_lanes parity (u32 (next + 1)) lanes in (lane' ∷ rest.0, rest.1)

unfoldable pub configure : FecEncoder → FecPlan → FecEncoder
unfolding restart_lanes
configure encoder plan =
    let bounded : FecPlan = record plan {
      data_count = min plan.data_count maximum_fec_data;
      parity = min plan.parity maximum_fec_parity;
      lanes = min (max plan.lanes 1) maximum_fec_lanes;
    } in
    let chosen = if active bounded then bounded else no_plan in
    let (lanes, next) = restart_lanes chosen.parity encoder.next_block encoder.lanes in
    record encoder { plan = chosen; cursor = 0; lanes = lanes; next_block = next }

unfoldable pub new_encoder : FecPlan → FecEncoder
unfolding configure
new_encoder plan =
    configure
      (record {
        plan = no_plan;
        lanes = replicate maximum_fec_lanes no_lane;
        cursor = 0;
        next_block = 0;
        blocks_encoded = 0;
        parity_sent = 0;
      })
      plan

-- Lanes with no packet yet take numbers from the given one on.
unfoldable pub renumber : ℕ → List Lane → List Lane × ℕ
renumber next [] = ([], next)
renumber next (lane ∷ lanes) =
    let fresh = lane.index == 0 in
    let rest = renumber (if fresh then u32 (next + 1) else next) lanes in
    ((if fresh then record lane { block_id = next } else lane) ∷ rest.0, rest.1)

unfoldable pub resume_at : FecEncoder → ℕ → FecEncoder
unfolding renumber
resume_at encoder block_id =
    let (lanes, next) = renumber block_id encoder.lanes in
    record encoder { lanes = lanes; next_block = next }

unfoldable pub pending_in : ℕ → List Lane → ℕ
pending_in zero lanes = 0
pending_in (suc left) [] = 0
pending_in (suc left) (lane ∷ lanes) = lane.index + pending_in left lanes

unfoldable pub pending : FecEncoder → ℕ
unfolding pending_in
pending encoder = pending_in encoder.plan.lanes encoder.lanes

unfoldable pub next_header : FecEncoder → ℕ → FecSymbolHeader
next_header encoder sealed_length =
    let lane = lane_at encoder encoder.cursor in
    record {
      block_id = lane.block_id;
      index = u8 lane.index;
      block_size = u8 encoder.plan.data_count;
      parity_count = u8 encoder.plan.parity;
      parity = false;
      original_length = u16 sealed_length;
    }

-- `vector.resize(size, 0)`
unfoldable pub resize : ℕ → List ℕ → List ℕ
resize size row = take size row ++ replicate (size - length row) 0

-- The symbol of a packet: its length, and its bytes.
unfoldable pub symbol_of : List ℕ → List ℕ
symbol_of packet = u8 (length packet / 2 ^ 8) ∷ u8 (length packet) ∷ packet

-- `lane.parity[row] += cauchy(row, index) * symbol` for each row from the given one on.
unfoldable pub add_parity : ℕ → ℕ → ℕ → List ℕ → List (List ℕ) → List (List ℕ)
add_parity vector row index symbol [] = []
add_parity vector row index symbol (p ∷ parity) =
    multiply_add vector p symbol (cauchy row index)
    ∷ add_parity vector (row + 1) index symbol parity

unfoldable pub widen : ℕ → Lane → Lane
unfolding resize
widen length lane =
    if ltb lane.width length
    then record lane { width = length; parity = map (resize length) lane.parity }
    else lane

-- The lane after a packet.
unfoldable pub take_packet : ℕ → List ℕ → Lane → Lane
unfolding widen symbol_of add_parity
take_packet vector packet lane =
    let wide = widen (fec_length_prefix + length packet) lane in
    record wide {
      parity = add_parity vector 0 wide.index (symbol_of packet) wide.parity;
      index = wide.index + 1;
    }

-- The symbols of a lane's first rows, from the given row on. A symbol has room for a header and the
-- lane's width, and the row is copied to it after the header.
unfoldable pub emit_rows : FecPlan → Lane → ℕ → ℕ → List (List ℕ) → List (List ℕ)
emit_rows plan lane row zero parity = []
emit_rows plan lane row (suc left) [] = []
emit_rows plan lane row (suc left) (p ∷ parity) =
    let header : FecSymbolHeader = record {
      block_id = lane.block_id;
      index = u8 row;
      block_size = u8 lane.index;
      parity_count = u8 plan.parity;
      parity = true;
      original_length = u16 lane.width;
    } in
    let symbol = (serialize_fec_header header (replicate (fec_header_size + lane.width) 0)).1 in
    (take fec_header_size symbol ++ (p ++ drop (fec_header_size + length p) symbol))
    ∷ emit_rows plan lane (row + 1) left parity

unfoldable pub emit : FecEncoder → ℕ → Lane → ℕ → FecEncoder × List (List ℕ)
unfolding emit_rows
emit encoder i lane rows =
    let fresh : Lane = record {
      block_id = encoder.next_block;
      index = 0;
      width = 0;
      parity = map (λ (row : List ℕ). []) lane.parity;
    } in
    (
      record encoder {
        lanes = set encoder.lanes i fresh;
        next_block = u32 (encoder.next_block + 1);
        blocks_encoded = u64 (encoder.blocks_encoded + 1);
        parity_sent = u64 (encoder.parity_sent + rows);
      },
      emit_rows encoder.plan lane 0 rows lane.parity,
    )

unfoldable pub add : ℕ → FecEncoder → List ℕ → FecEncoder × List (List ℕ)
unfolding take_packet emit
add vector encoder packet =
    if not (active encoder.plan) || ltb 0xFFFF (length packet)
    then (encoder, [])
    else let i = encoder.cursor in
      let lane = take_packet vector packet (lane_at encoder i) in
      let moved : FecEncoder = record encoder {
        cursor = (i + 1) % encoder.plan.lanes;
        lanes = set encoder.lanes i lane;
      } in
      if leb encoder.plan.data_count lane.index
      then emit moved i lane encoder.plan.parity
      else (moved, [])

module _ (parity_needed : ℕ → ℕ → ℕ → ℕ) where
  unfoldable pub flush_lanes : ℕ → ℕ → FecEncoder → FecEncoder × List (List ℕ)
  unfolding emit
  flush_lanes zero i encoder = (encoder, [])
  flush_lanes (suc left) i encoder =
      let lane = lane_at encoder i in
      let plan = encoder.plan in
      let rows =
        if ltb 0 plan.loss then parity_needed lane.index plan.loss plan.parity else plan.parity in
      let (next, symbols) = if lane.index == 0 then (encoder, []) else emit encoder i lane rows in
      let rest = flush_lanes left (i + 1) next in (rest.0, symbols ++ rest.1)

  unfoldable pub flush : FecEncoder → FecEncoder × List (List ℕ)
  unfolding flush_lanes
  flush encoder =
      if not (active encoder.plan)
      then (encoder, [])
      else let (flushed, symbols) = flush_lanes encoder.plan.lanes 0 encoder in
        (record flushed { cursor = 0 }, symbols)
