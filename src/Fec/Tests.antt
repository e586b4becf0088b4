-- ===== src/Fec/Tests.antt =====
-- A block of two packets and one parity symbol, of which the first packet is lost.
use norr.Prelude.{
  ℕ, suc, zero, ◌≡◌, ◌⊎◌, refl, List, [], ◌∷◌, inl, inr, true, false, some, length, replicate, drop,
  map, arith, length-replicate, get_or-replicate,
}
use norr.Fec.Header.{FecSymbolHeader, parse_fec_header, serialize_fec_header}
use norr.Fec.Symbols.{IsValid, serialize_fec_header-parse_fec_header}
use norr.Fec.Field.{cauchy, inverse, exp_table, log, log_table, product}
use norr.Fec.Vector.{
  multiply_add, multiply_add-vector, add_vector, vector_end, add_products, add_bytes, scale,
}
use norr.Fec.Elimination.{
  solve, eliminate, find_pivot, apply_pivot, swap_rows, normalise, clear, clear_row,
}
use norr.Fec.Encoder.{FecPlan, FecEncoder, Lane, new_encoder, add, emit, take_packet, symbol_of}
use norr.Fec.Decoder.{
  Block, FecDecoder, indices, receive, receive_symbol, recently_finished, find_or_create,
  find_block, receive_data, receive_parity,
}
use norr.Fec.Parity.{row_of}
use norr.Fec.Delivery.{IsPartOf, Delivered, sent_lane, take_packets, settle-Delivered}
use norr.Fec.Open.{IsOpen}
use norr.Fec.Lookup.{IsSent}
use norr.Fec.Receipt.{carried_by, Received, receive-Received}
use norr.Fec.Emission.{emit-Readable}

abbrev packets : List (List ℕ)
packets = (1 ∷ []) ∷ (2 ∷ 3 ∷ []) ∷ []

abbrev lane : Lane
lane = sent_lane 32 7 1 packets

abbrev plan : FecPlan
plan = record { data_count = 2; parity = 1; lanes = 1; loss = 0 }

abbrev empty_decoder : FecDecoder
empty_decoder = record {
  blocks = [];
  finished = [];
  symbols_received = 0;
  recovered = 0;
  unrecoverable = 0;
  expired = 0;
}

abbrev half_block : Block
half_block = record {
  id = 7;
  data_count = 2;
  parity_count = length lane.parity;
  data_received = 1;
  slots = [] ∷ symbol_of (2 ∷ 3 ∷ []) ∷ [];
  parity = lane.parity;
  created = 0;
}

-- The packets through the encoder, and the parity symbol and the second packet through the decoder.
abbrev sent : FecEncoder × List (List ℕ)
sent = add 0 (add 0 (new_encoder plan) (1 ∷ [])).0 (2 ∷ 3 ∷ [])

sent_one : length sent.1 ≡ 1
unfolding add new_encoder
sent_one = refl

abbrev data_header : FecSymbolHeader
data_header = record {
  block_id = 0;
  index = 1;
  block_size = 2;
  parity_count = 1;
  parity = false;
  original_length = 2;
}

abbrev parity_header : FecSymbolHeader
parity_header = record {
  block_id = 0;
  index = 0;
  block_size = 2;
  parity_count = 1;
  parity = true;
  original_length = 4;
}

header_read : parse_fec_header (row_of sent.1 0) ≡ some parity_header
unfolding add new_encoder parse_fec_header serialize_fec_header multiply_add cauchy inverse
    exp_table log log_table add_vector vector_end add_products add_bytes
header_read = refl

recovered_one :
    (receive 0
      (receive 0 empty_decoder data_header (2 ∷ 3 ∷ []) 10).0
      parity_header
      (drop 11 (row_of sent.1 0))
      20).1
    ≡ (1 ∷ []) ∷ []
unfolding add new_encoder receive serialize_fec_header multiply_add cauchy inverse exp_table log
    log_table add_vector vector_end add_products add_bytes solve eliminate find_pivot apply_pivot
    swap_rows normalise clear clear_row scale product recently_finished receive_symbol
    find_or_create receive_data receive_parity
recovered_one = refl

half_block-IsPartOf : IsPartOf packets lane half_block
unfolding indices symbol_of
half_block-IsPartOf = record {
  data_counted = refl;
  parity_counted = refl;
  slot_count = refl;
  slot = at_slot;
  row = λ r. inr refl;
  received_counted = refl;
}
  where
    at_slot :
        (c : ℕ)
        → (row_of half_block.slots c ≡ [])
          ⊎ (row_of half_block.slots c ≡ row_of (map symbol_of packets) c)
    at_slot zero = inl refl
    at_slot (suc zero) = inr refl
    at_slot (suc (suc c)) = inl refl

settle-Delivered_example : Delivered 0 packets empty_decoder half_block
settle-Delivered_example =
    settle-Delivered 32 0 7 1 packets empty_decoder half_block (omega arith) (omega arith)
      (omega arith) half_block-IsPartOf

-- A block of a plan of three packets, flushed with two of them: the receiver holds the second packet
-- when the parity symbol tells it the size.
abbrev flushed_block : Block
flushed_block = record {
  id = 7;
  data_count = 3;
  parity_count = length lane.parity;
  data_received = 1;
  slots = [] ∷ symbol_of (2 ∷ 3 ∷ []) ∷ [] ∷ [];
  parity = replicate (length lane.parity) [];
  created = 0;
}

abbrev flushed_decoder : FecDecoder
flushed_decoder = record empty_decoder { blocks = flushed_block ∷ [] }

abbrev late_header : FecSymbolHeader
late_header = record {
  block_id = 7;
  index = 0;
  block_size = 2;
  parity_count = length lane.parity;
  parity = true;
  original_length = 4;
}

flushed_block-IsOpen : IsOpen 3 packets lane flushed_block
unfolding indices symbol_of
flushed_block-IsOpen = record {
  sized = inr (refl, λ r. get_or-replicate {A = List ℕ} (length lane.parity) r []);
  parity_counted = refl;
  row_count = length-replicate {A = List ℕ} (length lane.parity) [];
  slot_count = refl;
  slot = at_slot;
  row = λ r. inl (get_or-replicate {A = List ℕ} (length lane.parity) r []);
  received_counted = refl;
}
  where
    at_slot :
        (c : ℕ)
        → (row_of flushed_block.slots c ≡ [])
          ⊎ (row_of flushed_block.slots c ≡ row_of (map symbol_of packets) c)
    at_slot zero = inl refl
    at_slot (suc zero) = inr refl
    at_slot (suc (suc zero)) = inl refl
    at_slot (suc (suc (suc c))) = inl refl

one_row : length lane.parity ≡ 1
unfolding take_packets take_packet
one_row = refl

late_header-IsSent : IsSent 3 packets lane late_header
late_header-IsSent = record { rows = refl; kind = inr (refl, refl, omega (arith, one_row)) }

known : find_block late_header.block_id flushed_decoder.blocks ≡ some flushed_block
unfolding find_block
known = refl

receive-Received_example :
    Received 0 3 packets lane late_header flushed_decoder 20
      (receive 0 flushed_decoder late_header (carried_by true 0 packets lane) 20)
receive-Received_example =
    receive-Received 32 0 7 1 3 packets flushed_decoder late_header 20 (omega arith) (omega arith)
      (omega arith) (omega arith) late_header-IsSent
      (inr (flushed_block, (known, flushed_block-IsOpen)))

-- The same with the encoder's parity symbol, from a receiver that knew nothing of the block.
recovered_flushed :
    (receive 0
      (receive 0 empty_decoder (record data_header { block_size = 3 }) (2 ∷ 3 ∷ []) 10).0
      parity_header
      (drop 11 (row_of sent.1 0))
      20).1
    ≡ (1 ∷ []) ∷ []
unfolding add new_encoder receive serialize_fec_header multiply_add cauchy inverse exp_table log
    log_table add_vector vector_end add_products add_bytes solve eliminate find_pivot apply_pivot
    swap_rows normalise clear clear_row scale product recently_finished receive_symbol
    find_or_create receive_data receive_parity
recovered_flushed = refl

abbrev ready_encoder : FecEncoder
ready_encoder = record {
  plan = plan;
  lanes = [];
  cursor = 0;
  next_block = 8;
  blocks_encoded = 0;
  parity_sent = 0;
}

abbrev ready_lane : Lane
ready_lane = record { block_id = 7; index = 2; width = 4; parity = (9 ∷ 8 ∷ 7 ∷ 6 ∷ []) ∷ [] }

abbrev ready_header : FecSymbolHeader
ready_header = record {
  block_id = 7;
  index = 0;
  block_size = 2;
  parity_count = 1;
  parity = true;
  original_length = 4;
}

emit-Readable_example :
    (parse_fec_header (row_of (emit ready_encoder 0 ready_lane 1).1 0) ≡ some ready_header)
    × (drop 11 (row_of (emit ready_encoder 0 ready_lane 1).1 0) ≡ 9 ∷ 8 ∷ 7 ∷ 6 ∷ [])
emit-Readable_example =
    emit-Readable ready_encoder 0 ready_lane 1 0 (omega arith) (omega arith) (omega arith)
      (omega arith) (omega arith) refl (omega arith)

abbrev wire_bytes : List ℕ
wire_bytes = 22 ∷ 0 ∷ 0 ∷ 0 ∷ 7 ∷ 0 ∷ 2 ∷ 1 ∷ 1 ∷ 0 ∷ 4 ∷ 9 ∷ []

wire_bytes_read : parse_fec_header wire_bytes ≡ some ready_header
unfolding parse_fec_header
wire_bytes_read = refl

serialize_fec_header-parse_fec_header_example :
    IsValid ready_header
    × (serialize_fec_header ready_header (replicate 12 255)
        ≡ (11, 22 ∷ 0 ∷ 0 ∷ 0 ∷ 7 ∷ 0 ∷ 2 ∷ 1 ∷ 1 ∷ 0 ∷ 4 ∷ 255 ∷ []))
serialize_fec_header-parse_fec_header_example =
    serialize_fec_header-parse_fec_header wire_bytes (replicate 12 255) ready_header (omega arith)
      (omega arith) wire_bytes_read

multiply_add-vector_example :
    multiply_add 2 (1 ∷ 2 ∷ 3 ∷ []) (16 ∷ 17 ∷ 18 ∷ []) 7
    ≡ multiply_add 0 (1 ∷ 2 ∷ 3 ∷ []) (16 ∷ 17 ∷ 18 ∷ []) 7
multiply_add-vector_example =
    multiply_add-vector 2 (1 ∷ 2 ∷ 3 ∷ []) (16 ∷ 17 ∷ 18 ∷ []) 7 (omega arith) (omega arith)
