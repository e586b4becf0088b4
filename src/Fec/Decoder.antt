-- ===== src/Fec/Decoder.antt =====
-- src/fec.cpp, include/norr/fec.hpp: `FecDecoder`, which recovers lost packets from parity symbols.
-- Left out is `spare_`, a store of emptied buffers kept for their capacity.
use norr.Prelude.{
  ℕ, zero, suc, ◌+◌, ◌-◌, ◌*◌, ◌^◌, bit_or, Bool, true, false, not, ◌&&◌, ◌||◌, List, [], ◌∷◌, ◌++◌,
  map, ltb, leb, ◌==◌, if◌then◌else◌, Option, none, some, length, get_or, set, take, drop,
  replicate,
}
use norr.Prelude.Bytes.{byte_at, sub64, u64}
use norr.Qos.{Instant}
use norr.Fec.Header.{FecSymbolHeader, maximum_fec_parity}
use norr.Fec.Field.{cauchy}
use norr.Fec.Vector.{multiply_add}
use norr.Fec.Elimination.{Equation, solve}
use norr.Fec.Encoder.{fec_length_prefix, symbol_of}

abbrev pub maximum_outstanding_blocks : ℕ
maximum_outstanding_blocks = 128

-- 250 ms, in nanoseconds.
abbrev pub fec_recovery_deadline : ℕ
fec_recovery_deadline = 250000000

pub record Block : Type 0 where
  pub id : ℕ
  pub data_count : ℕ
  pub parity_count : ℕ
  pub data_received : ℕ
  pub slots : List (List ℕ)
  pub parity : List (List ℕ)
  pub created : Instant

pub record FecDecoder : Type 0 where
  pub blocks : List Block
  pub finished : List ℕ
  pub symbols_received : ℕ
  pub recovered : ℕ
  pub unrecoverable : ℕ
  pub expired : ℕ

abbrev pub is_empty : List ℕ → Bool
is_empty [] = true
is_empty (b ∷ bytes) = false

unfoldable pub contains : List ℕ → ℕ → Bool
contains [] id = false
contains (f ∷ finished) id = f == id || contains finished id

unfoldable pub recently_finished : FecDecoder → ℕ → Bool
unfolding contains
recently_finished decoder id = contains decoder.finished id

-- `while (finished_.size() > kMaximumOutstandingBlocks * 2) finished_.pop_front();`
unfoldable pub trim_finished : List ℕ → List ℕ
trim_finished finished = drop (length finished - maximum_outstanding_blocks * 2) finished

unfoldable pub erase_block : ℕ → List Block → List Block
erase_block id [] = []
erase_block id (b ∷ blocks) =
    let rest = erase_block id blocks in if b.id == id then rest else b ∷ rest

unfoldable pub finish : FecDecoder → ℕ → FecDecoder
unfolding erase_block trim_finished
finish decoder id = record decoder {
  blocks = erase_block id decoder.blocks;
  finished = trim_finished (decoder.finished ++ id ∷ []);
}

unfoldable pub find_block : ℕ → List Block → Option Block
find_block id [] = none
find_block id (b ∷ blocks) = if b.id == id then some b else find_block id blocks

-- The block is changed in place.
unfoldable pub store_block : Block → List Block → List Block
store_block block [] = []
store_block block (b ∷ blocks) =
    if b.id == block.id then block ∷ blocks else b ∷ store_block block blocks

unfoldable pub find_or_create : FecDecoder → FecSymbolHeader → Instant → FecDecoder × Block
unfolding find_block
find_or_create decoder header now = elim (find_block header.block_id decoder.blocks) [
  | some block ↦ (decoder, block)
  | none ↦
      let full = leb maximum_outstanding_blocks (length decoder.blocks) in
      let kept = if full then drop 1 decoder.blocks else decoder.blocks in
      let lost = if full then u64 (decoder.unrecoverable + 1) else decoder.unrecoverable in
      let block : Block = record {
        id = header.block_id;
        data_count = header.block_size;
        parity_count = header.parity_count;
        data_received = 0;
        slots = replicate header.block_size [];
        parity = replicate header.parity_count [];
        created = now;
      } in
      (record decoder { blocks = kept ++ block ∷ []; unrecoverable = lost }, block)
]

-- `data_received` less the packets in the slots from `index` on.
unfoldable pub drop_received : List (List ℕ) → ℕ → ℕ
drop_received [] received = received
drop_received (slot ∷ slots) received =
    drop_received slots (if is_empty slot then received else sub64 received 1)

-- A parity symbol of a block that was flushed early tells its size.
unfoldable pub shrink : ℕ → Block → Block
unfolding drop_received
shrink size block =
    if ltb size block.data_count
    then record block {
      data_received =
          drop_received (drop size (take block.data_count block.slots)) block.data_received;
      data_count = size;
      slots = take size block.slots;
    }
    else block

-- The indices below `count` of the symbols that are missing, or there.
unfoldable pub indices : Bool → ℕ → ℕ → List (List ℕ) → List ℕ
indices missing zero index slots = []
indices missing (suc left) index slots =
    let rest = indices missing left (index + 1) slots in
    let empty = is_empty (get_or slots index []) in
    if (if missing then empty else not empty) then index ∷ rest else rest

unfoldable pub all_width : ℕ → List (List ℕ) → List ℕ → Bool
all_width width parity [] = true
all_width width parity (row ∷ rows) =
    length (get_or parity row []) == width && all_width width parity rows

unfoldable pub fits : ℕ → List (List ℕ) → Bool
fits width [] = true
fits width (symbol ∷ slots) = leb (length symbol) width && fits width slots

-- A parity symbol, less what the packets that are there added to it.
unfoldable pub subtract : ℕ → ℕ → ℕ → ℕ → List (List ℕ) → List ℕ → List ℕ
subtract vector row zero index slots syndrome = syndrome
subtract vector row (suc left) index slots syndrome =
    let symbol = get_or slots index [] in
    subtract vector row left (index + 1) slots
      (if is_empty symbol then syndrome else multiply_add vector syndrome symbol (cauchy row index))

unfoldable pub equation_of : ℕ → Block → List ℕ → ℕ → Equation
unfolding subtract
equation_of vector block missing row = (
  map (λ (column : ℕ). cauchy row column) missing,
  subtract vector row block.data_count 0 block.slots (get_or block.parity row []),
)

-- The packets in the solved symbols, and the counts of those that are and are not packets.
unfoldable pub unpack : List Equation → FecDecoder → FecDecoder × List (List ℕ)
unpack [] decoder = (decoder, [])
unpack ((m, symbol) ∷ rows) decoder =
    let length' = bit_or (byte_at symbol 0 * 2 ^ 8) (byte_at symbol 1) in
    let short = ltb (length symbol) fec_length_prefix in
    let wrong = length' == 0 || ltb (length symbol) (fec_length_prefix + length') in
    let next : FecDecoder =
      if short
      then decoder
      else if wrong
      then record decoder { unrecoverable = u64 (decoder.unrecoverable + 1) }
      else record decoder { recovered = u64 (decoder.recovered + 1) } in
    let rest = unpack rows next in
    (
      rest.0,
      if short || wrong then rest.1 else take length' (drop fec_length_prefix symbol) ∷ rest.1,
    )

unfoldable pub try_recover : ℕ → FecDecoder → Block → FecDecoder × List (List ℕ)
unfolding indices all_width fits equation_of unpack finish
try_recover vector decoder block =
    let missing = indices true block.data_count 0 block.slots in
    let present = indices false block.parity_count 0 block.parity in
    if length missing == 0 || ltb (length present) (length missing)
    then (decoder, [])
    else let rows = take (length missing) present in
      let width = length (get_or block.parity (get_or rows 0 0) []) in
      if not (all_width width block.parity rows)
        || not (fits width block.slots)
        || ltb maximum_fec_parity (length missing)
      then (decoder, [])
      else elim (solve vector (length missing) 0 (map (equation_of vector block missing) rows)) [
        | none ↦ (decoder, [])
        | some solved ↦
            let (next, packets) = unpack solved decoder in (finish next block.id, packets)
      ]

-- After a symbol is stored: the block is whole, or what is missing is recovered if it can be.
unfoldable pub settle : ℕ → FecDecoder → Block → FecDecoder × List (List ℕ)
unfolding store_block finish try_recover
settle vector decoder block =
    let stored : FecDecoder = record decoder { blocks = store_block block decoder.blocks } in
    if block.data_received == block.data_count
    then (finish stored block.id, [])
    else try_recover vector stored block

unfoldable pub receive_parity :
    ℕ → FecDecoder → FecSymbolHeader → List ℕ → Block → FecDecoder × List (List ℕ)
unfolding shrink store_block settle
receive_parity vector decoder header payload block =
    let sized = shrink header.block_size block in
    if not (is_empty (get_or sized.parity header.index []))
    then (record decoder { blocks = store_block sized decoder.blocks }, [])
    else settle vector decoder (record sized { parity = set sized.parity header.index payload })

unfoldable pub receive_data :
    ℕ → FecDecoder → FecSymbolHeader → List ℕ → Block → FecDecoder × List (List ℕ)
unfolding settle
receive_data vector decoder header payload block =
    if leb block.data_count header.index || not (is_empty (get_or block.slots header.index []))
    then (decoder, [])
    else settle vector decoder (record block {
      slots = set block.slots header.index (symbol_of payload);
      data_received = block.data_received + 1;
    })

-- The symbol's share of `receive`, once its block is at hand.
unfoldable pub receive_symbol :
    ℕ → FecDecoder → FecSymbolHeader → List ℕ → Block → FecDecoder × List (List ℕ)
receive_symbol vector decoder header payload block =
    if not (block.parity_count == header.parity_count)
    then (decoder, [])
    else if header.parity
    then receive_parity vector decoder header payload block
    else receive_data vector decoder header payload block

unfoldable pub receive :
    ℕ → FecDecoder → FecSymbolHeader → List ℕ → Instant → FecDecoder × List (List ℕ)
receive vector decoder header payload now =
    let counted : FecDecoder = record decoder {
      symbols_received = u64 (decoder.symbols_received + 1);
    } in
    if recently_finished counted header.block_id
    then (counted, [])
    else let (found, block) = find_or_create counted header now in
      receive_symbol vector found header payload block

-- The blocks at the front that have waited too long, and those that stay.
unfoldable pub split_expired : List Block → Instant → List ℕ × List Block
split_expired [] now = ([], [])
split_expired (b ∷ blocks) now =
    let rest = split_expired blocks now in
    if leb (b.created + fec_recovery_deadline) now
    then (b.id ∷ rest.0, rest.1)
    else ([], b ∷ blocks)

unfoldable pub expire : FecDecoder → Instant → FecDecoder × ℕ
unfolding split_expired trim_finished
expire decoder now =
    let (ids, kept) = split_expired decoder.blocks now in
    (
      record decoder {
        blocks = kept;
        finished = trim_finished (decoder.finished ++ ids);
        expired = u64 (decoder.expired + length ids);
      },
      length ids,
    )
