-- ===== src/Fec/Delivery.antt =====
-- src/fec.cpp: sender and receiver together. A lane takes the packets of a block; a receiver that
-- holds any part of its symbols gives back what is lost as soon as the parity suffices.
use norr.Prelude.{
  ℕ, ◌+◌, ◌≤◌, ◌<◌, ◌≡◌, refl, sym, subst, ◌∙◌, ◌⊎◌, inl, inr, List, [], ◌∷◌, ◌++◌, map, true,
  false, ◌||◌, ltb, ◌==◌, length, replicate, All, length-replicate, get_or-replicate, arith,
}
use norr.Prelude.Bytes.{u64}
use mathlib.Core.List.{append_assoc, append-nil}
use native.Mathlib.Decide.{dec_lt, ℕ_discrete}
use norr.Fec.Encoder.{Lane, symbol_of, take_packet}
use norr.Fec.Decoder.{Block, FecDecoder, store_block, finish, try_recover, settle}
use norr.Fec.Dot.{dot}
use norr.Fec.Parity.{Holds, IsParity, row_of, length-map, take_packet-Holds}
use norr.Fec.System.{IsReceiving}
use norr.Fec.Recovery.{IsCarried, lost, arrived, recover}

-- The lane after the packets, each by `FecEncoder::add`.
unfoldable pub take_packets : ℕ → List (List ℕ) → Lane → Lane
take_packets vector [] lane = lane
take_packets vector (p ∷ packets) lane = take_packets vector packets (take_packet vector p lane)

-- A lane at the start of a block.
abbrev pub fresh_lane : ℕ → ℕ → Lane
fresh_lane id n = record { block_id = id; index = 0; width = 0; parity = replicate n [] }

fresh_lane-Holds : (id n : ℕ) → Holds n [] (fresh_lane id n)
unfolding dot
fresh_lane-Holds id n = record {
  count = refl;
  rows = length-replicate {A = List ℕ} n [];
  fits = tt;
  each = λ r h.
      subst (IsParity 0 r []) (sym (get_or-replicate {A = List ℕ} n r []))
        (record { wide = refl; bytes = tt; sums = λ j. refl });
}

take_packets-Holds :
    (vector n : ℕ) (before : List (List ℕ)) (packets : List (List ℕ)) (lane : Lane)
    → All IsCarried packets
    → Holds n before lane
    → Holds n (before ++ map symbol_of packets) (take_packets vector packets lane)
unfolding take_packets
take_packets-Holds vector n before [] lane carried holds =
    subst (λ t. Holds n t lane) (sym (append-nil before)) holds
take_packets-Holds vector n before (p ∷ packets) lane carried holds =
    subst (λ t. Holds n t (take_packets vector packets (take_packet vector p lane)))
      (append_assoc before (symbol_of p ∷ []) (map symbol_of packets))
      (take_packets-Holds vector n (before ++ symbol_of p ∷ []) packets (take_packet vector p lane)
        carried.1 (take_packet-Holds vector n before p lane carried.0.2 holds))

-- What the sender keeps of a block: its packets, and the lane that took them.
abbrev pub sent_lane : ℕ → ℕ → ℕ → List (List ℕ) → Lane
sent_lane vector id n packets = take_packets vector packets (fresh_lane id n)

-- The receiver's block holds some of the block's symbols, each in its place, and counts the packets.
pub record IsPartOf (packets : List (List ℕ)) (lane : Lane) (block : Block) : Type 0 where
  pub data_counted : block.data_count ≡ length packets
  pub parity_counted : block.parity_count ≡ length lane.parity
  pub slot_count : length block.slots ≡ length packets
  pub slot :
      (c : ℕ)
      → (row_of block.slots c ≡ []) ⊎ (row_of block.slots c ≡ row_of (map symbol_of packets) c)
  pub row : (r : ℕ) → (row_of block.parity r ≡ []) ⊎ (row_of block.parity r ≡ row_of lane.parity r)
  pub received_counted : block.data_received + length (lost block) ≡ block.data_count

module _ (sender id n : ℕ) (packets : List (List ℕ)) (block : Block) (size_le : length packets ≤ 64)
    (parity_le : n ≤ 16) (carried : All IsCarried packets)
    (part : IsPartOf packets (sent_lane sender id n packets) block) where
  holds : Holds n (map symbol_of packets) (sent_lane sender id n packets)
  holds = take_packets-Holds sender n [] packets (fresh_lane id n) carried (fresh_lane-Holds id n)

  receiving : IsReceiving n (sent_lane sender id n packets).width (map symbol_of packets) block
  receiving = record {
    data_counted = part.data_counted ∙ sym (length-map symbol_of packets);
    data_le = omega (arith, length-map symbol_of packets);
    parity_counted = part.parity_counted ∙ holds.rows;
    parity_le = parity_le;
    fits = holds.fits;
    slot_count = part.slot_count ∙ sym (length-map symbol_of packets);
    slot = part.slot;
    row = λ r h. elim (part.row r) [
      | inl e ↦ inl e
      | inr e ↦ inr (
          subst (IsParity (sent_lane sender id n packets).width r (map symbol_of packets)) (sym e)
            (holds.each r h))
    ];
  }

-- The receiver's state with the block as it is now.
abbrev pub stored : FecDecoder → Block → FecDecoder
stored decoder block = record decoder { blocks = store_block block decoder.blocks }

pub too_few :
    (vector : ℕ) (decoder : FecDecoder) (block : Block)
    → length (arrived block) < length (lost block)
    → try_recover vector decoder block ≡ (decoder, [])
unfolding try_recover
too_few vector decoder block h =
    let test : (length (lost block) == 0 || ltb (length (arrived block)) (length (lost block)))
        ≡ true =
      ground arith in
    rw test refl

settle_whole :
    (vector : ℕ) (decoder : FecDecoder) (block : Block)
    → block.data_received ≡ block.data_count
    → settle vector decoder block ≡ (finish (stored decoder block) block.id, [])
unfolding settle
settle_whole vector decoder block h =
    let test : (block.data_received == block.data_count) ≡ true = ground arith in rw test refl

pub settle_part :
    (vector : ℕ) (decoder : FecDecoder) (block : Block)
    → block.data_received < block.data_count
    → settle vector decoder block ≡ try_recover vector (stored decoder block) block
unfolding settle
settle_part vector decoder block h =
    let test : (block.data_received == block.data_count) ≡ false = ground arith in rw test refl

-- What settling a block of these packets comes to.
abbrev pub Delivered : ℕ → List (List ℕ) → FecDecoder → Block → Type 0
Delivered receiver packets decoder block =
    ((length (lost block) ≡ 0)
      × (settle receiver decoder block ≡ (finish (stored decoder block) block.id, [])))
    ⊎ (((0 < length (lost block))
          × (length (lost block) ≤ length (arrived block))
          × (settle receiver decoder block ≡ (
            finish
                (record (stored decoder block) {
                  recovered = u64 (decoder.recovered + length (lost block));
                })
                block.id,
            map (λ (c : ℕ). row_of packets c) (lost block),
          )))
        ⊎ ((length (arrived block) < length (lost block))
            × (settle receiver decoder block ≡ (stored decoder block, []))))

-- When a block that holds a part of what was sent is settled: either no packet is lost, and the
-- block is finished; or at least as many parity symbols have arrived as packets are lost, and
-- exactly the lost packets are returned, in their order, they are counted and the block is finished;
-- or fewer have arrived, and the block waits. The packets are 1 to 65,535 bytes long and at most 64,
-- the parity rows at most 16.
pub settle-Delivered :
    (sender receiver id n : ℕ) (packets : List (List ℕ)) (decoder : FecDecoder) (block : Block)
    → length packets ≤ 64
    → n ≤ 16
    → All IsCarried packets
    → IsPartOf packets (sent_lane sender id n packets) block
    → Delivered receiver packets decoder block
settle-Delivered sender receiver id n packets decoder block size_le parity_le carried part =
    elim (ℕ_discrete (length (lost block)) 0) [
      | yes e ↦ inl (e, settle_whole receiver decoder block (omega (arith, part.received_counted)))
      | no ne ↦ elim (dec_lt (length (arrived block)) (length (lost block))) [
        | yes few ↦ inr (
            inr (
              few,
              settle_part receiver decoder block (omega (arith, part.received_counted))
                  ∙ too_few receiver (stored decoder block) block few,
            ))
        | no enough ↦ inr (
            inl (
              omega arith,
              omega arith,
              settle_part receiver decoder block (omega (arith, part.received_counted))
                  ∙ recover receiver n (sent_lane sender id n packets).width packets block
                      (stored decoder block)
                      (receiving sender id n packets block size_le parity_le carried part) carried
                      (omega arith) (omega arith),
            ))
      ]
    ]
