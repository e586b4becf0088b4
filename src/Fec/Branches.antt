-- ===== src/Fec/Branches.antt =====
-- src/fec.cpp: the branches of `FecDecoder::receive`, and what is lost and has arrived of a block.
use norr.Prelude.{
  ℕ, zero, suc, ◌+◌, ◌≤◌, ◌<◌, ◌≡◌, ◌≢◌, refl, ap, ◌∙◌, inl, inr, Bool, true, false, not, ◌||◌,
  List, [], Bool-cases, if◌then◌else◌, leb, ◌==◌, length, ==_refl, arith,
}
use norr.Qos.{Instant}
use norr.Fec.Header.{FecSymbolHeader}
use norr.Fec.Decoder.{
  Block, FecDecoder, is_empty, indices, recently_finished, find_or_create, shrink, settle,
  receive_parity, receive_data, receive_symbol, receive,
}
use norr.Fec.Parity.{row_of}
use norr.Fec.Delivery.{stored}
use norr.Fec.Arrival.{with_packet, with_parity, counted}

pub receive_finished :
    (vector : ℕ) (decoder : FecDecoder) (header : FecSymbolHeader) (payload : List ℕ)
    (now : Instant)
    → recently_finished (counted decoder) header.block_id ≡ true
    → receive vector decoder header payload now ≡ (counted decoder, [])
unfolding receive
receive_finished vector decoder header payload now e = rw e refl

pub receive_open :
    (vector : ℕ) (decoder : FecDecoder) (header : FecSymbolHeader) (payload : List ℕ)
    (now : Instant)
    → recently_finished (counted decoder) header.block_id ≡ false
    → receive vector decoder header payload now
      ≡ receive_symbol vector
          (find_or_create (counted decoder) header now).0
          header
          payload
          (find_or_create (counted decoder) header now).1
unfolding receive
receive_open vector decoder header payload now e = rw e refl

pub receive_kind :
    (vector : ℕ) (decoder : FecDecoder) (header : FecSymbolHeader) (payload : List ℕ) (b : Block)
    (t : Bool)
    → b.parity_count ≡ header.parity_count
    → header.parity ≡ t
    → receive_symbol vector decoder header payload b ≡ (
        if t
        then receive_parity vector decoder header payload b
        else receive_data vector decoder header payload b)
unfolding receive_symbol
receive_kind vector decoder header payload b t rows kind =
    let same : not (b.parity_count == header.parity_count) ≡ false =
      ap (λ k. not (k == header.parity_count)) rows ∙ ap not (==_refl header.parity_count) in
    rw (same, kind) refl

pub data_repeated :
    (vector : ℕ) (decoder : FecDecoder) (header : FecSymbolHeader) (payload : List ℕ) (b : Block)
    → header.index < b.data_count
    → is_empty (row_of b.slots header.index) ≡ false
    → receive_data vector decoder header payload b ≡ (decoder, [])
unfolding receive_data
data_repeated vector decoder header payload b h full =
    let test : (leb b.data_count header.index || not (is_empty (row_of b.slots header.index)))
        ≡ true =
      ground arith in
    rw test refl

pub data_new :
    (vector : ℕ) (decoder : FecDecoder) (header : FecSymbolHeader) (payload : List ℕ) (b : Block)
    → header.index < b.data_count
    → is_empty (row_of b.slots header.index) ≡ true
    → receive_data vector decoder header payload b
      ≡ settle vector decoder (with_packet b header.index payload)
unfolding receive_data
data_new vector decoder header payload b h empty =
    let test : (leb b.data_count header.index || not (is_empty (row_of b.slots header.index)))
        ≡ false =
      ground arith in
    rw test refl

pub parity_cases :
    (vector : ℕ) (decoder : FecDecoder) (header : FecSymbolHeader) (payload : List ℕ) (b : Block)
    (t : Bool)
    → is_empty (row_of (shrink header.block_size b).parity header.index) ≡ t
    → receive_parity vector decoder header payload b ≡ (
        if not t
        then (stored decoder (shrink header.block_size b), [])
        else settle vector decoder (with_parity (shrink header.block_size b) header.index payload))
unfolding receive_parity
parity_cases vector decoder header payload b t e = rw e refl

pub none_arrived :
    (left index : ℕ) (parity : List (List ℕ))
    → ((r : ℕ) → row_of parity r ≡ [])
    → indices false left index parity ≡ []
unfolding indices
none_arrived zero index parity h = refl
none_arrived (suc left) index parity h = rw (h index) (none_arrived left (index + 1) parity h)

pub some_lost :
    (left index i : ℕ) (slots : List (List ℕ))
    → index ≤ i
    → i < index + left
    → row_of slots i ≡ []
    → 0 < length (indices true left index slots)
unfolding indices
some_lost zero index i slots lo hi e = absurd (omega arith)
some_lost (suc left) index i slots lo hi e = elim (Bool-cases (is_empty (row_of slots index))) [
  | inl q ↦ rw q (omega arith)
  | inr q ↦
      let later : index ≢ i = λ p.
        let empty : is_empty (row_of slots index) ≡ true =
          ap (λ t. is_empty (row_of slots t)) p ∙ ap is_empty e in
        ground arith in
      rw q (some_lost left (index + 1) i slots (omega (arith, later)) (omega arith) e)
]
