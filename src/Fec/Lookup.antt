-- ===== src/Fec/Lookup.antt =====
-- src/fec.cpp: the block that `FecDecoder::receive` works on is in the list of blocks.
use norr.Prelude.{
  ℕ, ◌<◌, ◌≡◌, ◌≢◌, refl, sym, ap, ◌∙◌, ◌⊎◌, inl, inr, Bool, true, false, List, [], ◌∷◌, ◌++◌, ◌==◌,
  ==_iff, ==_refl, if◌then◌else◌, Bool-cases, Option, none, some, Option-cases, leb, length, drop,
  replicate, length-replicate, get_or-replicate, arith,
}
use norr.Qos.{Instant}
use norr.Fec.Header.{FecSymbolHeader}
use norr.Fec.Encoder.{Lane}
use norr.Fec.Decoder.{Block, FecDecoder, find_block, store_block, find_or_create}
use norr.Fec.Open.{IsOpen, indices_empty}

find_block-cons :
    (id : ℕ) (b : Block) (blocks : List Block) (t : Bool)
    → (b.id == id) ≡ t
    → find_block id (b ∷ blocks) ≡ (if t then some b else find_block id blocks)
unfolding find_block
find_block-cons id b blocks t e = ap (λ s. if s then some b else find_block id blocks) e

store_block-cons :
    (n b : Block) (blocks : List Block) (t : Bool)
    → (b.id == n.id) ≡ t
    → store_block n (b ∷ blocks) ≡ (if t then n ∷ blocks else b ∷ store_block n blocks)
unfolding store_block
store_block-cons n b blocks t e = ap (λ s. if s then n ∷ blocks else b ∷ store_block n blocks) e

some_of : {a b : Block} → ◌≡◌ {A = Option Block} (some a) (some b) → a ≡ b
some_of e = cc

pub find_block-id :
    (id : ℕ) (blocks : List Block) (b : Block) → find_block id blocks ≡ some b → b.id ≡ id
unfolding find_block
find_block-id id [] b e = ground arith
find_block-id id (x ∷ blocks) b e = elim (Bool-cases (x.id == id)) [
  | inl p ↦
      ap (λ (t : Block). t.id) (sym (some_of (sym (find_block-cons id x blocks true p) ∙ e)))
      ∙ (==_iff x.id id).0 p
  | inr p ↦ find_block-id id blocks b (sym (find_block-cons id x blocks false p) ∙ e)
]

-- A block that replaces one of its number is found in its place.
pub find_block-store_block :
    (blocks : List Block) (b n : Block)
    → find_block n.id blocks ≡ some b
    → find_block n.id (store_block n blocks) ≡ some n
unfolding find_block
find_block-store_block [] b n e = ground arith
find_block-store_block (x ∷ blocks) b n e = elim (Bool-cases (x.id == n.id)) [
  | inl p ↦
      ap (find_block n.id) (store_block-cons n x blocks true p)
      ∙ find_block-cons n.id n blocks true (==_refl n.id)
  | inr p ↦
      ap (find_block n.id) (store_block-cons n x blocks false p)
      ∙ find_block-cons n.id x (store_block n blocks) false p
      ∙ find_block-store_block blocks b n (sym (find_block-cons n.id x blocks false p) ∙ e)
]

-- A block that replaces itself changes nothing.
pub store_block_same :
    (blocks : List Block) (b : Block)
    → find_block b.id blocks ≡ some b
    → store_block b blocks ≡ blocks
unfolding store_block
store_block_same [] b e = refl
store_block_same (x ∷ blocks) b e = elim (Bool-cases (x.id == b.id)) [
  | inl p ↦
      store_block-cons b x blocks true p
      ∙ ap (λ t. t ∷ blocks) (sym (some_of (sym (find_block-cons b.id x blocks true p) ∙ e)))
  | inr p ↦
      store_block-cons b x blocks false p
      ∙ ap (λ t. x ∷ t)
          (store_block_same blocks b (sym (find_block-cons b.id x blocks false p) ∙ e))
]

taken :
    (id : ℕ) (x : Block) (blocks : List Block)
    → (x.id == id) ≡ true
    → find_block id (x ∷ blocks) ≢ none
taken id x blocks q e =
    let clash : ◌≡◌ {A = Option Block} (some x) none =
      sym (find_block-cons id x blocks true q) ∙ e in
    ground arith

find_block-append :
    (id : ℕ) (blocks : List Block) (b : Block)
    → find_block id blocks ≡ none
    → b.id ≡ id
    → find_block id (blocks ++ b ∷ []) ≡ some b
find_block-append id [] b e p = find_block-cons id b [] true ((==_iff b.id id).1 p)
find_block-append id (x ∷ blocks) b e p = elim (Bool-cases (x.id == id)) [
  | inl q ↦ absurd (taken id x blocks q e)
  | inr q ↦
      find_block-cons id x (blocks ++ b ∷ []) false q
      ∙ find_block-append id blocks b (sym (find_block-cons id x blocks false q) ∙ e) p
]

find_block-drop :
    (id : ℕ) (blocks : List Block)
    → find_block id blocks ≡ none
    → find_block id (drop 1 blocks) ≡ none
find_block-drop id [] e = e
find_block-drop id (x ∷ blocks) e = elim (Bool-cases (x.id == id)) [
  | inl q ↦ absurd (taken id x blocks q e)
  | inr q ↦ sym (find_block-cons id x blocks false q) ∙ e
]

-- A block as it is created for a symbol.
abbrev pub created : FecSymbolHeader → Instant → Block
created header now = record {
  id = header.block_id;
  data_count = header.block_size;
  parity_count = header.parity_count;
  data_received = 0;
  slots = replicate header.block_size [];
  parity = replicate header.parity_count [];
  created = now;
}

pub find_or_create_known :
    (decoder : FecDecoder) (header : FecSymbolHeader) (now : Instant) (block : Block)
    → find_block header.block_id decoder.blocks ≡ some block
    → find_or_create decoder header now ≡ (decoder, block)
unfolding find_or_create
find_or_create_known decoder header now block found = rw (found, find_or_create) refl

kept_blocks : FecDecoder → List Block
kept_blocks decoder =
    if leb 128 (length decoder.blocks) then drop 1 decoder.blocks else decoder.blocks

find_or_create_new :
    (decoder : FecDecoder) (header : FecSymbolHeader) (now : Instant)
    → find_block header.block_id decoder.blocks ≡ none
    → ((find_or_create decoder header now).1 ≡ created header now)
      × ((find_or_create decoder header now).0.blocks
          ≡ kept_blocks decoder ++ created header now ∷ [])
unfolding find_or_create kept_blocks
find_or_create_new decoder header now missing = rw (missing, find_or_create) (refl, refl)

kept-missing :
    (decoder : FecDecoder) (id : ℕ)
    → find_block id decoder.blocks ≡ none
    → find_block id (kept_blocks decoder) ≡ none
unfolding kept_blocks
kept-missing decoder id missing = elim (Bool-cases (leb 128 (length decoder.blocks))) [
  | inl e ↦ rw e (find_block-drop id decoder.blocks missing)
  | inr e ↦ rw e missing
]

-- The block that is worked on stands in the list under the symbol's number.
pub find_or_create-found :
    (decoder : FecDecoder) (header : FecSymbolHeader) (now : Instant)
    → find_block header.block_id (find_or_create decoder header now).0.blocks
      ≡ some (find_or_create decoder header now).1
find_or_create-found decoder header now =
    elim (Option-cases (find_block header.block_id decoder.blocks)) [
      | inl missing ↦
          let new = find_or_create_new decoder header now missing in
          ap (find_block header.block_id) new.1
          ∙ find_block-append header.block_id (kept_blocks decoder) (created header now)
              (kept-missing decoder header.block_id missing) refl
          ∙ ap (λ (b : Block). some b) (sym new.0)
      | inr found ↦
          let known = find_or_create_known decoder header now found.0 found.1 in
          ap (λ (r : FecDecoder × Block). find_block header.block_id r.0.blocks) known
          ∙ found.1
          ∙ ap (λ (r : FecDecoder × Block). some r.1) (sym known)
    ]

-- A symbol as the sender of these packets makes it: data symbols tell the plan's number of packets,
-- parity symbols the number that the block had when it was flushed.
pub record IsSent (plan : ℕ) (packets : List (List ℕ)) (lane : Lane) (header : FecSymbolHeader)
    : Type 0 where
  pub rows : header.parity_count ≡ length lane.parity
  pub kind :
      ((header.parity ≡ false) × (header.block_size ≡ plan) × (header.index < length packets))
      ⊎ ((header.parity ≡ true)
          × (header.block_size ≡ length packets)
          × (header.index < length lane.parity))

created-IsOpen :
    (plan : ℕ) (packets : List (List ℕ)) (lane : Lane) (header : FecSymbolHeader) (now : Instant)
    → IsSent plan packets lane header
    → IsOpen plan packets lane (created header now)
created-IsOpen plan packets lane header now sent = record {
  sized = elim sent.kind [
    | inl (e, size, at) ↦ inr (size, λ r. get_or-replicate {A = List ℕ} header.parity_count r [])
    | inr (e, size, at) ↦ inl size
  ];
  parity_counted = sent.rows;
  row_count = length-replicate {A = List ℕ} header.parity_count [] ∙ sent.rows;
  slot_count = length-replicate {A = List ℕ} header.block_size [];
  slot = λ c. inl (get_or-replicate {A = List ℕ} header.block_size c []);
  row = λ r. inl (get_or-replicate {A = List ℕ} header.parity_count r []);
  received_counted = omega (
    arith,
    indices_empty header.block_size 0 (replicate header.block_size [])
        (λ c p. get_or-replicate {A = List ℕ} header.block_size c []),
  );
}

-- A receiver knows nothing of a symbol's block, or holds a part of what was sent.
abbrev pub Knows : ℕ → List (List ℕ) → Lane → FecSymbolHeader → FecDecoder → Type 0
Knows plan packets lane header decoder =
    (find_block header.block_id decoder.blocks ≡ none)
    ⊎ ((block : Block) × ((find_block header.block_id decoder.blocks ≡ some block)
          × IsOpen plan packets lane block))

pub find_or_create-IsOpen :
    (plan : ℕ) (packets : List (List ℕ)) (lane : Lane) (header : FecSymbolHeader)
    (decoder : FecDecoder) (now : Instant)
    → IsSent plan packets lane header
    → Knows plan packets lane header decoder
    → IsOpen plan packets lane (find_or_create decoder header now).1
find_or_create-IsOpen plan packets lane header decoder now sent (inl missing) =
    rw ((find_or_create_new decoder header now missing).0)
      (created-IsOpen plan packets lane header now sent)
find_or_create-IsOpen plan packets lane header decoder now sent (inr (block, (found, open'))) =
    rw (find_or_create_known decoder header now block found) open'
