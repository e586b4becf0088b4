-- ===== src/Fec/Arrival.antt =====
-- src/fec.cpp: a symbol that is put in its place in a block.
use norr.Prelude.{
  ℕ, zero, suc, ◌+◌, ◌≤◌, ◌<◌, ◌≡◌, refl, sym, ap, ◌∙◌, ◌⊎◌, inl, inr, List, [], ◌∷◌, map, true,
  false, Bool-cases, length, set, length-set, get_or-set_self, get_or-set_ne, arith,
}
use native.Mathlib.Decide.{ℕ_discrete}
use norr.Prelude.Bytes.{u64}
use norr.Fec.Encoder.{Lane, symbol_of}
use norr.Fec.Decoder.{Block, FecDecoder, is_empty, indices}
use norr.Fec.Parity.{row_of, row_of-map}
use norr.Fec.Open.{IsOpen}

-- A slot before the range does not matter to it.
indices_outside :
    (left index i : ℕ) (slots : List (List ℕ)) (s : List ℕ)
    → i < index
    → indices true left index (set slots i s) ≡ indices true left index slots
unfolding indices
indices_outside zero index i slots s h = refl
indices_outside (suc left) index i slots s h =
    let same : row_of (set slots i s) index ≡ row_of slots index =
      get_or-set_ne slots i index s [] (λ e. absurd (omega arith)) in
    rw (same, indices_outside left (index + 1) i slots s (omega arith)) refl

-- A slot that is filled is one less that is lost.
lost_once_less :
    (left index i : ℕ) (slots : List (List ℕ)) (s : List ℕ)
    → is_empty s ≡ false
    → is_empty (row_of slots i) ≡ true
    → i < length slots
    → index ≤ i
    → i < index + left
    → suc (length (indices true left index (set slots i s)))
      ≡ length (indices true left index slots)
unfolding indices
lost_once_less zero index i slots s full empty room lo hi = absurd (omega arith)
lost_once_less (suc left) index i slots s full empty room lo hi = elim (ℕ_discrete i index) [
  | yes e ↦
      let filled : is_empty (row_of (set slots index s) index) ≡ false =
        ap is_empty (get_or-set_self slots index s [] (omega arith)) ∙ full in
      let was : is_empty (row_of slots index) ≡ true =
        ap (λ t. is_empty (row_of slots t)) (sym e) ∙ empty in
      rw e (
        rw (filled, was)
          (ap (λ t. suc (length t)) (indices_outside left (index + 1) index slots s (omega arith))))
  | no ne ↦
      let same : row_of (set slots i s) index ≡ row_of slots index =
        get_or-set_ne slots i index s [] ne in
      let rest =
        lost_once_less left (index + 1) i slots s full empty room (omega arith) (omega arith) in
      rw same (elim (Bool-cases (is_empty (row_of slots index))) [
        | inl e ↦ rw e (ap suc rest)
        | inr e ↦ rw e rest
      ])
]

-- A set of one more slot, as a choice at each index.
set_choice :
    (slots full : List (List ℕ)) (i : ℕ) (s : List ℕ)
    → i < length slots
    → s ≡ row_of full i
    → ((c : ℕ) → (row_of slots c ≡ []) ⊎ (row_of slots c ≡ row_of full c))
    → (c : ℕ) → (row_of (set slots i s) c ≡ []) ⊎ (row_of (set slots i s) c ≡ row_of full c)
set_choice slots full i s room e slot c = elim (ℕ_discrete i c) [
  | yes p ↦ rw (← p) (inr (get_or-set_self slots i s [] room ∙ e))
  | no ne ↦ rw (get_or-set_ne slots i c s [] ne) (slot c)
]

-- The block with a packet, or a parity row, put in.
abbrev pub with_packet : Block → ℕ → List ℕ → Block
with_packet block i packet = record block {
  slots = set block.slots i (symbol_of packet);
  data_received = block.data_received + 1;
}

abbrev pub with_parity : Block → ℕ → List ℕ → Block
with_parity block r row = record block { parity = set block.parity r row }

abbrev pub counted : FecDecoder → FecDecoder
counted decoder = record decoder { symbols_received = u64 (decoder.symbols_received + 1) }

-- A packet, or a row, in a slot that was empty: the block is open still.
module _ (plan : ℕ) (packets : List (List ℕ)) (lane : Lane) (block : Block)
    (o : IsOpen plan packets lane block) (i : ℕ) where
  pub with_packet-IsOpen :
      i < length packets
      → i < block.data_count
      → is_empty (row_of block.slots i) ≡ true
      → IsOpen plan packets lane (with_packet block i (row_of packets i))
  unfolding symbol_of
  with_packet-IsOpen h room empty = record {
    sized = o.sized;
    parity_counted = o.parity_counted;
    row_count = o.row_count;
    slot_count = length-set block.slots i (symbol_of (row_of packets i)) ∙ o.slot_count;
    slot =
        set_choice block.slots (map symbol_of packets) i (symbol_of (row_of packets i))
          (omega (arith, o.slot_count)) (sym (row_of-map symbol_of packets i h)) o.slot;
    row = o.row;
    received_counted = omega (
      arith,
      o.received_counted,
      lost_once_less block.data_count 0 i block.slots (symbol_of (row_of packets i)) refl empty
          (omega (arith, o.slot_count)) (omega arith) (omega arith),
    );
  }

  pub with_parity-IsOpen :
      i < length lane.parity
      → block.data_count ≡ length packets
      → IsOpen plan packets lane (with_parity block i (row_of lane.parity i))
  with_parity-IsOpen h size = record {
    sized = inl size;
    parity_counted = o.parity_counted;
    row_count = length-set block.parity i (row_of lane.parity i) ∙ o.row_count;
    slot_count = o.slot_count;
    slot = o.slot;
    row =
        set_choice block.parity lane.parity i (row_of lane.parity i) (omega (arith, o.row_count))
          refl o.row;
    received_counted = o.received_counted;
  }

-- What was there is there still.
abbrev pub Keeps : List (List ℕ) → List (List ℕ) → Type 0
Keeps before after = (c : ℕ) → (row_of before c ≡ []) ⊎ (row_of after c ≡ row_of before c)

empty_lem : (s : List ℕ) → is_empty s ≡ true → s ≡ []
empty_lem [] h = refl
empty_lem (b ∷ s) h = cc

pub set-Keeps :
    (slots : List (List ℕ)) (i : ℕ) (s : List ℕ)
    → is_empty (row_of slots i) ≡ true
    → Keeps slots (set slots i s)
set-Keeps slots i s empty c = elim (ℕ_discrete i c) [
  | yes e ↦ inl (ap (row_of slots) (sym e) ∙ empty_lem (row_of slots i) empty)
  | no ne ↦ inr (get_or-set_ne slots i c s [] ne)
]

pub Keeps-trans : (a b c : List (List ℕ)) → Keeps a b → Keeps b c → Keeps a c
Keeps-trans a b c p q i = elim (p i) [
  | inl e ↦ inl e
  | inr e ↦ elim (q i) [ inl f ↦ inl (sym e ∙ f) | inr f ↦ inr (f ∙ e) ]
]
