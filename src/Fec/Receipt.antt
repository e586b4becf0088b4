-- ===== src/Fec/Receipt.antt =====
-- src/fec.cpp: `FecDecoder::receive` on a symbol of a block, whether it is the first of the block or
-- a later one, and whether the block is full or was flushed early.
use norr.Prelude.{
  ℕ, ◌≤◌, ◌≡◌, sym, ap, subst, ◌∙◌, ◌⊎◌, inl, inr, Bool, true, false, List, [], Bool-cases, length,
  All, some,
}
use norr.Qos.{Instant}
use norr.Fec.Header.{FecSymbolHeader}
use norr.Fec.Encoder.{Lane}
use norr.Fec.Decoder.{Block, FecDecoder, recently_finished, find_block, find_or_create, receive}
use norr.Fec.Parity.{row_of}
use norr.Fec.Recovery.{IsCarried}
use norr.Fec.Delivery.{sent_lane}
use norr.Fec.Open.{IsOpen}
use norr.Fec.Arrival.{counted}
use norr.Fec.Lookup.{IsSent, Knows, find_block-id, find_or_create-found, find_or_create-IsOpen}
use norr.Fec.Branches.{receive_finished, receive_open, receive_kind}
use norr.Fec.Steps.{place_of, Step, receive_data-Step, receive_parity-Step}

-- What a symbol of these packets carries: a packet, or a parity row.
abbrev pub carried_by : Bool → ℕ → List (List ℕ) → Lane → List ℕ
carried_by parity i packets lane = place_of parity i packets lane.parity

-- What `receive` does with a symbol that arrives.
abbrev pub Received :
    ℕ
    → ℕ
    → List (List ℕ)
    → Lane
    → FecSymbolHeader
    → FecDecoder
    → Instant
    → FecDecoder × List (List ℕ)
    → Type 0
Received vector plan packets lane header decoder now result =
    ((recently_finished (counted decoder) header.block_id ≡ true)
      × (result ≡ (counted decoder, [])))
    ⊎ ((recently_finished (counted decoder) header.block_id ≡ false)
        × Step vector plan packets lane header.parity header.index
            (find_or_create (counted decoder) header now).0
            (find_or_create (counted decoder) header now).1 result)

-- A symbol of a block of at most `plan` packets, which a sender flushed with them, arrives at a
-- receiver that knows nothing of the block or holds a part of it. If the block is recently finished,
-- the receiver only counts the symbol. Otherwise, with the block as found or created, the receiver's
-- list has in its place a block that holds the symbol where it belongs and all that was there, and
-- is a part of what was sent, of the true size if the symbol is a parity symbol. If the symbol had
-- been there, nothing else happens. If it is new and the block has the true size, the block is
-- settled: it is finished when no packet is lost; exactly the lost packets are returned, in their
-- order, when as many parity symbols have arrived; else it waits. If it is new and the block has the
-- plan's larger size, no parity symbol has arrived and the block waits. The packets are 1 to 65,535
-- bytes long, the plan at most 64 packets and 16 parity symbols.
pub receive-Received :
    (sender vector id n plan : ℕ) (packets : List (List ℕ)) (decoder : FecDecoder)
    (header : FecSymbolHeader) (now : Instant)
    → length packets ≤ plan
    → plan ≤ 64
    → n ≤ 16
    → All IsCarried packets
    → IsSent plan packets (sent_lane sender id n packets) header
    → Knows plan packets (sent_lane sender id n packets) header decoder
    → Received vector plan packets (sent_lane sender id n packets) header decoder now (
        receive vector decoder header
          (carried_by header.parity header.index packets (sent_lane sender id n packets))
          now)
receive-Received sender vector id n plan packets decoder header now most plan_le parity_le carried
      sent knows =
    let lane : Lane = sent_lane sender id n packets in
    let d : FecDecoder = (find_or_create (counted decoder) header now).0 in
    let b : Block = (find_or_create (counted decoder) header now).1 in
    let o : IsOpen plan packets lane b =
      find_or_create-IsOpen plan packets lane header (counted decoder) now sent knows in
    let there : find_block header.block_id d.blocks ≡ some b =
      find_or_create-found (counted decoder) header now in
    let found : find_block b.id d.blocks ≡ some b =
      ap (λ (k : ℕ). find_block k d.blocks) (find_block-id header.block_id d.blocks b there)
      ∙ there in
    let rows : b.parity_count ≡ header.parity_count = o.parity_counted ∙ sym sent.rows in
    elim (Bool-cases (recently_finished (counted decoder) header.block_id)) [
      | inl e ↦ inl (e, receive_finished vector decoder header _ now e)
      | inr e ↦ inr (
        e,
        elim sent.kind [
          | inl (kind, size, at) ↦
              subst
                (λ (t : Bool).
                  Step vector plan packets lane t header.index d b
                    (receive vector decoder header (carried_by t header.index packets lane) now))
                (sym kind)
                (subst (Step vector plan packets lane false header.index d b)
                  (sym (
                    receive_open vector decoder header (row_of packets header.index) now e
                    ∙ receive_kind vector d header (row_of packets header.index) b false rows kind))
                  (receive_data-Step sender vector id n plan packets most plan_le parity_le carried
                    header d b o found at))
          | inr (kind, size, at) ↦
              subst
                (λ (t : Bool).
                  Step vector plan packets lane t header.index d b
                    (receive vector decoder header (carried_by t header.index packets lane) now))
                (sym kind)
                (subst (Step vector plan packets lane true header.index d b)
                  (sym (
                    receive_open vector decoder header (row_of lane.parity header.index) now e
                    ∙ receive_kind vector d header (row_of lane.parity header.index) b true rows
                        kind))
                  (receive_parity-Step sender vector id n plan packets most plan_le parity_le
                    carried header d b o found size at))
        ],
      )
    ]
