-- ===== src/Fec/Steps.antt =====
-- src/fec.cpp: what a symbol does to its block, for a data symbol and for a parity symbol, also when
-- the block was flushed early.
use native.Mathlib.Decide.{dec_lt}
use norr.Prelude.{
  ℕ, ◌≤◌, ◌<◌, ◌≡◌, refl, sym, ap, subst, ◌∙◌, ◌⊎◌, inl, inr, Bool, true, false, List, [], map,
  Bool-cases, if◌then◌else◌, length, All, get_or-set_self, arith, some,
}
use norr.Fec.Header.{FecSymbolHeader}
use norr.Fec.Encoder.{Lane, symbol_of}
use norr.Fec.Decoder.{
  Block, FecDecoder, is_empty, find_block, shrink, settle, receive_parity, receive_data,
}
use norr.Fec.Parity.{row_of, row_of-map, length-map}
use norr.Fec.Recovery.{IsCarried, lost, arrived}
use norr.Fec.Delivery.{sent_lane, stored, too_few, settle_part, Delivered, settle-Delivered}
use norr.Fec.Open.{
  beyond, IsOpen, IsOpen-IsPartOf, shrink-IsOpen, shrink-Keeps, shrink-id, shrink-parity,
}
use norr.Fec.Arrival.{
  with_packet, with_parity, with_packet-IsOpen, with_parity-IsOpen, Keeps, set-Keeps,
}
use norr.Fec.Lookup.{find_block-store_block, store_block_same}
use norr.Fec.Branches.{data_repeated, data_new, parity_cases, none_arrived, some_lost}

-- The place of a symbol: a parity row's, or a packet's.
abbrev pub place_of : Bool → ℕ → List (List ℕ) → List (List ℕ) → List ℕ
place_of parity i slots rows = if parity then row_of rows i else row_of slots i

-- The block after a symbol: the symbol stands in its place, what was there is there still, and it is
-- a part of what was sent, of the size that was sent if the symbol was a parity symbol.
pub record IsAfter (plan : ℕ) (packets : List (List ℕ)) (lane : Lane) (parity : Bool) (i : ℕ)
    (before after : Block) : Type 0 where
  pub same_id : after.id ≡ before.id
  pub still_open : IsOpen plan packets lane after
  pub told : (parity ≡ false) ⊎ (after.data_count ≡ length packets)
  pub in_place :
      place_of parity i after.slots after.parity
      ≡ place_of parity i (map symbol_of packets) lane.parity
  pub slots_kept : Keeps before.slots after.slots
  pub parity_kept : Keeps before.parity after.parity

-- A symbol that is new: the block is settled, or its size is not known and it waits.
abbrev pub Settled :
    ℕ → ℕ → List (List ℕ) → FecDecoder → Block → FecDecoder × List (List ℕ) → Type 0
Settled vector plan packets d next result =
    ((next.data_count ≡ length packets)
      × (result ≡ settle vector d next)
      × Delivered vector packets d next)
    ⊎ ((next.data_count ≡ plan)
        × (length packets < plan)
        × (length (arrived next) ≡ 0)
        × (result ≡ (stored d next, [])))

-- What a symbol does to the block that it belongs to, and with it to the receiver.
abbrev pub Step :
    ℕ
    → ℕ
    → List (List ℕ)
    → Lane
    → Bool
    → ℕ
    → FecDecoder
    → Block
    → FecDecoder × List (List ℕ)
    → Type 0
Step vector plan packets lane parity i d b result =
    (next : Block) × (IsAfter plan packets lane parity i b next
      × (find_block b.id (stored d next).blocks ≡ some next)
      × (((is_empty (place_of parity i b.slots b.parity) ≡ false) × (result ≡ (stored d next, [])))
          ⊎ ((is_empty (place_of parity i b.slots b.parity) ≡ true)
              × Settled vector plan packets d next result)))

-- A choice that is not empty.
pub chosen : (s t : List ℕ) → is_empty s ≡ false → (s ≡ []) ⊎ (s ≡ t) → s ≡ t
chosen s t full (inl e) = let empty : is_empty s ≡ true = ap is_empty e in ground arith
chosen s t full (inr e) = e

pub at_hand :
    (d : FecDecoder) (b next : Block)
    → find_block b.id d.blocks ≡ some b
    → next.id ≡ b.id
    → find_block b.id (stored d next).blocks ≡ some next
at_hand d b next found e =
    ap (λ (k : ℕ). find_block k (stored d next).blocks) (sym e)
    ∙ find_block-store_block d.blocks b next (ap (λ (k : ℕ). find_block k d.blocks) e ∙ found)

module _ (sender vector id n plan : ℕ) (packets : List (List ℕ)) (most : length packets ≤ plan)
    (plan_le : plan ≤ 64) (parity_le : n ≤ 16) (carried : All IsCarried packets) where
  -- A block of the plan's size waits for parity.
  waiting :
      (d : FecDecoder) (next : Block)
      → IsOpen plan packets (sent_lane sender id n packets) next
      → next.data_count ≡ plan
      → length packets < plan
      → length (arrived next) ≡ 0
      → settle vector d next ≡ (stored d next, [])
  waiting d next o size less none' =
      let gone : 0 < length (lost next) =
        some_lost next.data_count 0 (length packets) next.slots (omega arith) (omega arith)
          (elim (o.slot (length packets)) [
            | inl e ↦ e
            | inr e ↦
                e
                ∙ beyond (map symbol_of packets) (length packets)
                    (omega (arith, length-map symbol_of packets))
          ]) in
      settle_part vector d next (omega (arith, o.received_counted, gone))
      ∙ too_few vector (stored d next) next (omega arith)

  settled :
      (d : FecDecoder) (next : Block)
      → IsOpen plan packets (sent_lane sender id n packets) next
      → Settled vector plan packets d next (settle vector d next)
  settled d next o =
      let whole : next.data_count ≡ length packets
          → Settled vector plan packets d next (settle vector d next) =
        λ e. inl (
          e,
          refl,
          settle-Delivered sender vector id n packets d next (omega arith) parity_le carried
              (IsOpen-IsPartOf plan packets (sent_lane sender id n packets) next o e),
        ) in
      elim o.sized [
        | inl e ↦ whole e
        | inr e ↦ elim (dec_lt (length packets) plan) [
          | no more ↦ whole (omega (arith, e.0, more, most))
          | yes less ↦
              let none' : length (arrived next) ≡ 0 =
                ap (λ t. length t) (none_arrived next.parity_count 0 next.parity e.1) in
              inr (e.0, less, none', waiting d next o e.0 less none')
        ]
      ]

  module _ (header : FecSymbolHeader) (d : FecDecoder) (b : Block)
      (o : IsOpen plan packets (sent_lane sender id n packets) b)
      (found : find_block b.id d.blocks ≡ some b) where
    room : header.index < length packets → header.index < b.data_count
    room h = elim o.sized [ inl e ↦ omega (arith, e, h) | inr e ↦ omega (arith, e.0, h, most) ]

    pub receive_data-Step :
        header.index < length packets
        → Step vector plan packets
            (sent_lane sender id n packets)
            false
            header.index
            d
            b
            (receive_data vector d header (row_of packets header.index) b)
    receive_data-Step h = elim (Bool-cases (is_empty (row_of b.slots header.index))) [
      | inr full ↦ (
        b,
        (
          record {
            same_id = refl;
            still_open = o;
            told = inl refl;
            in_place = chosen _ _ full (o.slot header.index);
            slots_kept = λ c. inr refl;
            parity_kept = λ c. inr refl;
          },
          at_hand d b b found refl,
          inl (
            full,
            data_repeated vector d header (row_of packets header.index) b (room h) full
                ∙ ap (λ (t : List Block). (record d { blocks = t }, []))
                    (sym (store_block_same d.blocks b found)),
          ),
        ),
      )
      | inl empty ↦
          let next : Block = with_packet b header.index (row_of packets header.index) in
          let open' =
            with_packet-IsOpen plan packets (sent_lane sender id n packets) b o header.index h
              (room h) empty in
          (
            next,
            (
              record {
                same_id = refl;
                still_open = open';
                told = inl refl;
                in_place =
                    get_or-set_self b.slots header.index (symbol_of (row_of packets header.index))
                      [] (omega (arith, room h, o.slot_count))
                    ∙ sym (row_of-map symbol_of packets header.index h);
                slots_kept = set-Keeps b.slots header.index _ empty;
                parity_kept = λ c. inr refl;
              },
              at_hand d b next found refl,
              inr (
                empty,
                subst (Settled vector plan packets d next)
                    (sym (data_new vector d header (row_of packets header.index) b (room h) empty))
                    (settled d next open'),
              ),
            ),
          )
    ]

    -- The block with the size that a parity symbol tells.
    abbrev sized : Block
    sized = shrink header.block_size b

    sized-IsOpen :
        header.block_size ≡ length packets
        → IsOpen plan packets (sent_lane sender id n packets) sized
          × (sized.data_count ≡ length packets)
    sized-IsOpen size =
        subst
          (λ (k : ℕ).
            IsOpen plan packets (sent_lane sender id n packets) (shrink k b)
            × ((shrink k b).data_count ≡ length packets))
          (sym size) (shrink-IsOpen plan packets (sent_lane sender id n packets) b o most)

    sized-Keeps : header.block_size ≡ length packets → Keeps b.slots sized.slots
    sized-Keeps size c =
        subst
          (λ (k : ℕ). (row_of b.slots c ≡ []) ⊎ (row_of (shrink k b).slots c ≡ row_of b.slots c))
          (sym size) (shrink-Keeps plan packets (sent_lane sender id n packets) b o c)

    sized_row : row_of sized.parity header.index ≡ row_of b.parity header.index
    sized_row =
        ap (λ (p : List (List ℕ)). row_of p header.index) (shrink-parity header.block_size b)

    abbrev row : List ℕ
    row = row_of (sent_lane sender id n packets).parity header.index

    parity_repeated :
        header.block_size ≡ length packets
        → is_empty (row_of b.parity header.index) ≡ false
        → Step vector plan packets
            (sent_lane sender id n packets)
            true
            header.index
            d
            b
            (receive_parity vector d header row b)
    parity_repeated size full = (
      sized,
      (
        record {
          same_id = shrink-id header.block_size b;
          still_open = (sized-IsOpen size).0;
          told = inr ((sized-IsOpen size).1);
          in_place = sized_row ∙ chosen _ _ full (o.row header.index);
          slots_kept = sized-Keeps size;
          parity_kept =
              λ c. inr (ap (λ (p : List (List ℕ)). row_of p c) (shrink-parity header.block_size b));
        },
        at_hand d b sized found (shrink-id header.block_size b),
        inl (full, parity_cases vector d header row b false (ap is_empty sized_row ∙ full)),
      ),
    )

    parity_new :
        header.block_size ≡ length packets
        → header.index < length (sent_lane sender id n packets).parity
        → is_empty (row_of b.parity header.index) ≡ true
        → Step vector plan packets
            (sent_lane sender id n packets)
            true
            header.index
            d
            b
            (receive_parity vector d header row b)
    parity_new size h empty =
        let open' = sized-IsOpen size in
        let vacant : is_empty (row_of sized.parity header.index) ≡ true =
          ap is_empty sized_row ∙ empty in
        let next : Block = with_parity sized header.index row in
        let after =
          with_parity-IsOpen plan packets (sent_lane sender id n packets) sized open'.0 header.index
            h open'.1 in
        (
          next,
          (
            record {
              same_id = shrink-id header.block_size b;
              still_open = after;
              told = inr open'.1;
              in_place =
                  get_or-set_self sized.parity header.index row []
                    (omega (arith, h, open'.0.row_count));
              slots_kept = sized-Keeps size;
              parity_kept =
                  subst (λ (p : List (List ℕ)). Keeps p next.parity)
                    (shrink-parity header.block_size b)
                    (set-Keeps sized.parity header.index row vacant);
            },
            at_hand d b next found (shrink-id header.block_size b),
            inr (
              empty,
              subst (Settled vector plan packets d next)
                  (sym (parity_cases vector d header row b true vacant)) (settled d next after),
            ),
          ),
        )

    pub receive_parity-Step :
        header.block_size ≡ length packets
        → header.index < length (sent_lane sender id n packets).parity
        → Step vector plan packets (sent_lane sender id n packets) true header.index d b (
            receive_parity vector d header
              (row_of (sent_lane sender id n packets).parity header.index)
              b)
    receive_parity-Step size h = elim (Bool-cases (is_empty (row_of b.parity header.index))) [
      | inl empty ↦ parity_new size h empty
      | inr full ↦ parity_repeated size full
    ]
