-- ===== src/Fec/Open.antt =====
-- src/fec.cpp: the block that a receiver keeps of a block that may have been flushed early. Until a
-- parity symbol tells the number of its packets, it has as many slots as the sender's plan.
use native.Mathlib.Decide.{dec_lt}
use norr.Prelude.{
  ℕ, zero, suc, ◌+◌, ◌-◌, ◌≤◌, ◌<◌, ◌≡◌, refl, sym, ap, ◌∙◌, ◌⊎◌, inl, inr, List, [], ◌∷◌, map,
  true, if◌then◌else◌, Bool-cases, length, take, drop, length-take, length-drop, get_or-take, arith,
  subst, lt→ltb, le→ltb,
}
use norr.Fec.Encoder.{Lane, symbol_of}
use norr.Fec.Decoder.{Block, is_empty, indices, drop_received, shrink}
use norr.Fec.Parity.{row_of, length-map}
use norr.Fec.Recovery.{lost}
use norr.Fec.Delivery.{IsPartOf}

-- What a receiver may hold of a block of these packets, of a plan of up to `plan` packets to a block:
-- some of the symbols, each in its place, and the count of the packets.
pub record IsOpen (plan : ℕ) (packets : List (List ℕ)) (lane : Lane) (block : Block) : Type 0 where
  pub sized :
      (block.data_count ≡ length packets)
      ⊎ ((block.data_count ≡ plan) × ((r : ℕ) → row_of block.parity r ≡ []))
  pub parity_counted : block.parity_count ≡ length lane.parity
  pub row_count : length block.parity ≡ length lane.parity
  pub slot_count : length block.slots ≡ block.data_count
  pub slot :
      (c : ℕ)
      → (row_of block.slots c ≡ []) ⊎ (row_of block.slots c ≡ row_of (map symbol_of packets) c)
  pub row : (r : ℕ) → (row_of block.parity r ≡ []) ⊎ (row_of block.parity r ≡ row_of lane.parity r)
  pub received_counted : block.data_received + length (lost block) ≡ block.data_count

pub IsOpen-IsPartOf :
    (plan : ℕ) (packets : List (List ℕ)) (lane : Lane) (block : Block)
    → IsOpen plan packets lane block
    → block.data_count ≡ length packets
    → IsPartOf packets lane block
IsOpen-IsPartOf plan packets lane block o size = record {
  data_counted = size;
  parity_counted = o.parity_counted;
  slot_count = o.slot_count ∙ size;
  slot = o.slot;
  row = o.row;
  received_counted = o.received_counted;
}

-- The slots before a cut are as they were.
indices-take :
    (left index k : ℕ) (slots : List (List ℕ))
    → index + left ≤ k
    → indices true left index (take k slots) ≡ indices true left index slots
unfolding indices
indices-take zero index k slots h = refl
indices-take (suc left) index k slots h =
    let same : row_of (take k slots) index ≡ row_of slots index =
      get_or-take k slots index [] (omega arith) in
    rw (same, indices-take left (index + 1) k slots (omega arith)) refl

pub indices_empty :
    (left index : ℕ) (slots : List (List ℕ))
    → ((c : ℕ) → index ≤ c → row_of slots c ≡ [])
    → length (indices true left index slots) ≡ left
unfolding indices
indices_empty zero index slots h = refl
indices_empty (suc left) index slots h =
    rw (h index (omega arith))
      (ap suc (indices_empty left (index + 1) slots (λ c p. h c (omega arith))))

-- Slots that are all empty add to what is lost.
indices_more :
    (left more total index : ℕ) (slots : List (List ℕ))
    → total ≡ left + more
    → ((c : ℕ) → index + left ≤ c → row_of slots c ≡ [])
    → length (indices true total index slots) ≡ length (indices true left index slots) + more
unfolding indices
indices_more zero more total index slots e h =
    indices_empty total index slots (λ c p. h c (omega arith)) ∙ omega arith
indices_more (suc left) more zero index slots e h = absurd (omega arith)
indices_more (suc left) more (suc total) index slots e h =
    let rest =
      indices_more left more total (index + 1) slots (omega arith) (λ c p. h c (omega arith)) in
    elim (Bool-cases (is_empty (row_of slots index))) [
      | inl q ↦ rw q (omega (arith, rest))
      | inr q ↦ rw q rest
    ]

drop_received_empty :
    (slots : List (List ℕ)) (received : ℕ)
    → ((c : ℕ) → c < length slots → row_of slots c ≡ [])
    → drop_received slots received ≡ received
unfolding drop_received
drop_received_empty [] received h = refl
drop_received_empty (s ∷ slots) received h =
    let empty : is_empty s ≡ true = ap is_empty (h 0 (omega arith)) in
    rw empty (drop_received_empty slots received (λ c p. h (suc c) (omega arith)))

pub beyond : (ss : List (List ℕ)) (c : ℕ) → length ss ≤ c → row_of ss c ≡ []
beyond [] c h = refl
beyond (s ∷ ss) zero h = absurd (omega arith)
beyond (s ∷ ss) (suc c) h = beyond ss c (omega arith)

row_of-drop : (n c : ℕ) (ss : List (List ℕ)) → row_of (drop n ss) c ≡ row_of ss (n + c)
row_of-drop zero c ss = let e : c ≡ 0 + c = omega arith in ap (row_of ss) e
row_of-drop (suc n) c [] = refl
row_of-drop (suc n) c (s ∷ ss) =
    let e : suc (n + c) ≡ suc n + c = omega arith in row_of-drop n c ss ∙ ap (row_of (s ∷ ss)) e

-- A block of the plan's size, cut to the packets that were sent.
abbrev cut_to : ℕ → Block → Block
cut_to size block = record block {
  data_received = drop_received (drop size (take block.data_count block.slots)) block.data_received;
  data_count = size;
  slots = take size block.slots;
}

shrink_cut :
    (size : ℕ) (block : Block) → size < block.data_count → shrink size block ≡ cut_to size block
unfolding shrink
shrink_cut size block h =
    ap (λ t. if t then cut_to size block else block) (lt→ltb size block.data_count h)

shrink_kept : (size : ℕ) (block : Block) → block.data_count ≤ size → shrink size block ≡ block
unfolding shrink
shrink_kept size block h =
    ap (λ t. if t then cut_to size block else block) (le→ltb size block.data_count h)

module _ (plan : ℕ) (packets : List (List ℕ)) (lane : Lane) (block : Block)
    (o : IsOpen plan packets lane block) where
  -- No packet stands past those that were sent.
  past : (c : ℕ) → length packets ≤ c → row_of block.slots c ≡ []
  past c h = elim (o.slot c) [
    | inl e ↦ e
    | inr e ↦ e ∙ beyond (map symbol_of packets) c (omega (arith, length-map symbol_of packets))
  ]

  slot_taken :
      (c : ℕ)
      → (row_of (take (length packets) block.slots) c ≡ [])
        ⊎ (row_of (take (length packets) block.slots) c ≡ row_of (map symbol_of packets) c)
  slot_taken c = elim (dec_lt c (length packets)) [
    | yes p ↦ rw (get_or-take (length packets) block.slots c [] p) (o.slot c)
    | no p ↦ inl (
        beyond (take (length packets) block.slots) c
          (omega (arith, length-take (length packets) block.slots)))
  ]

  received_kept :
      length packets < block.data_count
      → drop_received
          (drop (length packets) (take block.data_count block.slots))
          block.data_received
        ≡ block.data_received
  received_kept less = drop_received_empty _ block.data_received (λ c p.
      let within : length packets + c < block.data_count = omega (
        arith,
        p,
        length-drop (length packets) (take block.data_count block.slots),
        length-take block.data_count block.slots,
      ) in
      row_of-drop (length packets) c (take block.data_count block.slots)
      ∙ get_or-take block.data_count block.slots (length packets + c) [] within
      ∙ past (length packets + c) (omega arith))

  cut-IsOpen :
      length packets < block.data_count → IsOpen plan packets lane (cut_to (length packets) block)
  cut-IsOpen less = record {
    sized = inl refl;
    parity_counted = o.parity_counted;
    row_count = o.row_count;
    slot_count = length-take (length packets) block.slots ∙ omega (arith, o.slot_count, less);
    slot = slot_taken;
    row = o.row;
    received_counted = omega (
      arith,
      received_kept less,
      ap (λ t. length t)
          (indices-take (length packets) 0 (length packets) block.slots (omega arith)),
      indices_more (length packets) (block.data_count - length packets) block.data_count 0
          block.slots (omega (arith, less)) (λ c p. past c (omega (arith, p))),
      o.received_counted,
    );
  }

  count_cases : (block.data_count ≡ length packets) ⊎ (block.data_count ≡ plan)
  count_cases = elim o.sized [ inl e ↦ inl e | inr e ↦ inr e.0 ]

  -- The size that a parity symbol tells.
  pub shrink-IsOpen :
      length packets ≤ plan
      → IsOpen plan packets lane (shrink (length packets) block)
        × ((shrink (length packets) block).data_count ≡ length packets)
  shrink-IsOpen most = elim (dec_lt (length packets) block.data_count) [
    | yes less ↦
        subst (λ (b : Block). IsOpen plan packets lane b × (b.data_count ≡ length packets))
          (sym (shrink_cut (length packets) block less)) (cut-IsOpen less, refl)
    | no more ↦
        subst (λ (b : Block). IsOpen plan packets lane b × (b.data_count ≡ length packets))
          (sym (shrink_kept (length packets) block (omega (arith, more))))
          (o, elim count_cases [ inl e ↦ e | inr e ↦ omega (arith, e, most, more) ])
  ]

  -- A shrink drops no packet.
  pub shrink-Keeps :
      (c : ℕ)
      → (row_of block.slots c ≡ [])
        ⊎ (row_of (shrink (length packets) block).slots c ≡ row_of block.slots c)
  shrink-Keeps c = elim (dec_lt (length packets) block.data_count) [
    | no more ↦ inr (
        ap (λ (b : Block). row_of b.slots c)
          (shrink_kept (length packets) block (omega (arith, more))))
    | yes less ↦ elim (dec_lt c (length packets)) [
      | no far ↦ inl (past c (omega (arith, far)))
      | yes p ↦ inr (
          ap (λ (b : Block). row_of b.slots c) (shrink_cut (length packets) block less)
          ∙ get_or-take (length packets) block.slots c [] p)
    ]
  ]

pub shrink-id : (size : ℕ) (block : Block) → (shrink size block).id ≡ block.id
unfolding shrink
shrink-id size block = ground arith

pub shrink-parity : (size : ℕ) (block : Block) → (shrink size block).parity ≡ block.parity
unfolding shrink
shrink-parity size block = ground arith
