-- ===== src/Fec/Recovery.antt =====
-- src/fec.cpp: `try_recover` gives back the lost packets.
use norr.Prelude.{
  ℕ, zero, suc, ◌+◌, ◌*◌, ◌/◌, ◌^◌, ◌≤◌, ◌<◌, bit_or, ◌≡◌, refl, sym, ap, subst, ◌∙◌, List, [], ◌∷◌,
  map, true, false, not, ◌||◌, ltb, ◌==◌, length, get_or, take, drop, All, All-take, length-take,
  length-drop, get_or-take, arith,
}
use norr.Prelude.Bits.{bit_or_sum}
use norr.Prelude.Bytes.{IsByte, byte_at, u8, u64}
use norr.Prelude.Fields.{byte_ext}
use norr.Fec.Elimination.{Equation, row_at}
use norr.Fec.Encoder.{symbol_of}
use norr.Fec.Decoder.{Block, FecDecoder, indices, all_width, fits, unpack, finish, try_recover}
use norr.Fec.Parity.{row_of, row_of-map, length-map}
use norr.Fec.Missing.{Rising, HasState, indices_lem, take-Rising}
use norr.Fec.System.{IsReceiving, symbol_fits, slot_fits, there_at, solve-equations}

-- A packet that a symbol can carry and a receiver can tell from a wrong one.
abbrev pub IsCarried : List ℕ → Type 0
IsCarried packet = (0 < length packet) × (length packet ≤ 0xFFFF) × All IsByte packet

-- A symbol of a packet, filled up to the width.
pub record IsPadded (width : ℕ) (packet symbol : List ℕ) : Type 0 where
  pub wide : length symbol ≡ width
  pub room : 2 + length packet ≤ width
  pub carried : IsCarried packet
  pub same : (j : ℕ) → j < width → byte_at symbol j ≡ byte_at (symbol_of packet) j

get_or-drop : (n : ℕ) (bytes : List ℕ) (j : ℕ) → byte_at (drop n bytes) j ≡ byte_at bytes (n + j)
get_or-drop zero bytes j = let e : j ≡ 0 + j = omega arith in ap (byte_at bytes) e
get_or-drop (suc n) [] j = refl
get_or-drop (suc n) (b ∷ bytes) j =
    let e : suc n + j ≡ suc (n + j) = omega arith in
    get_or-drop n bytes j ∙ ap (byte_at (b ∷ bytes)) (sym e)

All_at {ℓ} :
    (P : List ℕ → Type ℓ) (xs : List (List ℕ)) (i : ℕ) → All P xs → i < length xs → P (row_of xs i)
All_at P [] i h p = absurd (omega arith)
All_at P (x ∷ xs) zero h p = h.0
All_at P (x ∷ xs) (suc i) h p = All_at P xs i h.1 (omega arith)

module _ (width : ℕ) (packet symbol : List ℕ) (padded : IsPadded width packet symbol) where
  length_field : bit_or (byte_at symbol 0 * 2 ^ 8) (byte_at symbol 1) ≡ length packet
  unfolding symbol_of
  length_field =
      let hi : byte_at symbol 0 ≡ u8 (length packet / 2 ^ 8) =
        padded.same 0 (omega (arith, padded.room)) in
      let lo : byte_at symbol 1 ≡ u8 (length packet) = padded.same 1 (omega (arith, padded.room)) in
      rw (hi, lo)
        (bit_or_sum 8 (u8 (length packet / 2 ^ 8)) (u8 (length packet)) (omega arith)
          ∙ omega (arith, padded.carried.1))

  body : take (length packet) (drop 2 symbol) ≡ packet
  unfolding symbol_of
  body =
      byte_ext _ packet
        (length-take (length packet) (drop 2 symbol)
          ∙ omega (arith, length-drop 2 symbol, padded.wide, padded.room))
        (λ j h.
          let j_lt : j < length packet =
            omega (arith, length-take (length packet) (drop 2 symbol)) in
          let shift : 2 + j ≡ suc (suc j) = omega arith in
          get_or-take (length packet) (drop 2 symbol) j 0 j_lt
          ∙ get_or-drop 2 symbol j
          ∙ padded.same (2 + j) (omega (arith, padded.room))
          ∙ ap (byte_at (symbol_of packet)) shift)

  pub unpack-padded :
      (m : List ℕ) (rows : List Equation) (d d' : FecDecoder) (rest : List (List ℕ))
      → unpack rows (record d { recovered = u64 (d.recovered + 1) }) ≡ (d', rest)
      → unpack ((m, symbol) ∷ rows) d ≡ (d', packet ∷ rest)
  unfolding unpack
  unpack-padded m rows d d' rest e =
      let short : ltb (length symbol) 2 ≡ false = ground (arith, padded.wide, padded.room) in
      let wrong : (length packet == 0 || ltb (length symbol) (2 + length packet)) ≡ false =
        ground (arith, padded.wide, padded.room, padded.carried.0) in
      rw (length_field, short, wrong, e) (ap (λ t. (d', t ∷ rest)) body)

abbrev AllPadded : ℕ → List (List ℕ) → List Equation → Type 0
AllPadded width [] [] = Unit
AllPadded width [] (e ∷ rows) = ⊥
AllPadded width (p ∷ packets) [] = ⊥
AllPadded width (p ∷ packets) (e ∷ rows) = IsPadded width p e.1 × AllPadded width packets rows

-- A counter of 64 bits after it goes up n times.
abbrev counts : ℕ → ℕ → ℕ
counts zero from = from
counts (suc n) from = counts n (u64 (from + 1))

counts-u64 : (n from : ℕ) → 0 < n → counts n from ≡ u64 (from + n)
counts-u64 zero from h = absurd (omega arith)
counts-u64 (suc zero) from h = refl
counts-u64 (suc (suc n)) from h =
    let rest : counts (suc n) (u64 (from + 1)) ≡ u64 (u64 (from + 1) + suc n) =
      counts-u64 (suc n) (u64 (from + 1)) (omega arith) in
    let sum : u64 (u64 (from + 1) + suc n) ≡ u64 (from + suc (suc n)) = omega arith in rest ∙ sum

unpack_lem :
    (width : ℕ) (packets : List (List ℕ)) (rows : List Equation) (d : FecDecoder)
    → AllPadded width packets rows
    → unpack rows d ≡ (record d { recovered = counts (length packets) d.recovered }, packets)
unpack_lem width [] [] d h = unfold unpack in refl
unpack_lem width [] (e ∷ rows) d h = absurd h
unpack_lem width (p ∷ packets) [] d h = absurd h
unpack_lem width (p ∷ packets) ((m, s) ∷ rows) d h =
    unpack-padded width p s h.0 m rows d _ _
      (unpack_lem width packets rows (record d { recovered = u64 (d.recovered + 1) }) h.1)

fits_lem :
    (width : ℕ) (slots : List (List ℕ))
    → ((c : ℕ) → length (row_of slots c) ≤ width)
    → fits width slots ≡ true
unfolding fits
fits_lem width [] h = refl
fits_lem width (s ∷ slots) h = ground (arith, h 0, fits_lem width slots (λ c. h (suc c)))

all_width_lem :
    (width : ℕ) (parity : List (List ℕ)) (rows : List ℕ)
    → ((i : ℕ) → i < length rows → length (row_of parity (get_or rows i 0)) ≡ width)
    → all_width width parity rows ≡ true
unfolding all_width
all_width_lem width parity [] h = refl
all_width_lem width parity (r ∷ rows) h =
    ground
      (arith, h 0 (omega arith), all_width_lem width parity rows (λ i p. h (suc i) (omega arith)))

Rising-length : (lo hi : ℕ) (ms : List ℕ) → lo ≤ hi → Rising lo hi ms → lo + length ms ≤ hi
Rising-length lo hi [] h r = omega arith
Rising-length lo hi (m ∷ ms) h r = omega (arith, Rising-length (m + 1) hi ms (omega arith) r.2)

abbrev pub lost : Block → List ℕ
lost block = indices true block.data_count 0 block.slots

abbrev pub arrived : Block → List ℕ
arrived block = indices false block.parity_count 0 block.parity

AllPadded-at :
    (width : ℕ) (packets : List (List ℕ)) (ms : List ℕ) (rows : List Equation)
    → length rows ≡ length ms
    → ((i : ℕ) → i < length ms → IsPadded width (row_of packets (get_or ms i 0)) (row_at rows i).1)
    → AllPadded width (map (λ (c : ℕ). row_of packets c) ms) rows
AllPadded-at width packets [] [] l h = tt
AllPadded-at width packets [] (e ∷ rows) l h = absurd (omega arith)
AllPadded-at width packets (m ∷ ms) [] l h = absurd (omega arith)
AllPadded-at width packets (m ∷ ms) (e ∷ rows) l h = (
  h 0 (omega arith),
  AllPadded-at width packets ms rows (omega arith) (λ i p. h (suc i) (omega arith)),
)

length-picked :
    (packets : List (List ℕ)) (ms : List ℕ)
    → length (map (λ (c : ℕ). row_of packets c) ms) ≡ length ms
length-picked packets [] = refl
length-picked packets (m ∷ ms) = ap suc (length-picked packets ms)

module _ (vector n width : ℕ) (packets : List (List ℕ)) (block : Block) (decoder : FecDecoder)
    (receiving : IsReceiving n width (map symbol_of packets) block)
    (carried : All IsCarried packets) where
  abbrev symbols : List (List ℕ)
  symbols = map symbol_of packets

  lost_lt : (i : ℕ) → i < length (lost block) → get_or (lost block) i 0 < length packets
  lost_lt i h = omega (
    arith,
    at_index 0 (lost block) (indices_lem true block.data_count 0 block.slots).0 i h,
    receiving.data_counted,
    length-map symbol_of packets,
  )
    where
      at_index :
          (lo : ℕ) (ms : List ℕ)
          → Rising lo (0 + block.data_count) ms
          → (i : ℕ) → i < length ms
          → get_or ms i 0 < 0 + block.data_count
      at_index lo [] r i h = absurd (omega arith)
      at_index lo (m ∷ ms) r zero h = r.1
      at_index lo (m ∷ ms) r (suc i) h = at_index (m + 1) ms r.2 i (omega arith)

  solved_IsPadded :
      (final : List Equation)
      → ((i : ℕ) → i < length (lost block) → length (row_at final i).1 ≡ width)
      → ((i j : ℕ)
          → i < length (lost block)
          → j < width
          → byte_at (row_at final i).1 j ≡ byte_at (row_of symbols (get_or (lost block) i 0)) j)
      → (i : ℕ) → i < length (lost block)
      → IsPadded width (row_of packets (get_or (lost block) i 0)) (row_at final i).1
  unfolding symbol_of
  solved_IsPadded final wide read i h =
      let c : ℕ = get_or (lost block) i 0 in
      let picked : row_of symbols c ≡ symbol_of (row_of packets c) =
        row_of-map symbol_of packets c (lost_lt i h) in
      let fit = symbol_fits vector n width symbols block receiving c in
      record {
        wide = wide i h;
        room = omega (arith, fit.0, ap length picked);
        carried = All_at IsCarried packets c carried (lost_lt i h);
        same = λ j p. read i j h p ∙ ap (λ t. byte_at t j) picked;
      }

  module _ (some_lost : 0 < length (lost block))
      (enough : length (lost block) ≤ length (arrived block)) where
    abbrev rows : List ℕ
    rows = take (length (lost block)) (arrived block)

    rows-Rising : Rising 0 block.parity_count rows
    rows-Rising =
        let e : 0 + block.parity_count ≡ block.parity_count = omega arith in
        subst (λ t. Rising 0 t rows) e
          (take-Rising (length (lost block)) 0 (0 + block.parity_count) (arrived block)
            (indices_lem false block.parity_count 0 block.parity).0)

    rows_there : All (HasState false block.parity) rows
    rows_there =
        All-take (HasState false block.parity) (length (lost block)) (arrived block)
          (indices_lem false block.parity_count 0 block.parity).1

    length-rows : length rows ≡ length (lost block)
    length-rows = omega (arith, length-take (length (lost block)) (arrived block))

    row_wide : (i : ℕ) → i < length rows → length (row_of block.parity (get_or rows i 0)) ≡ width
    row_wide i h =
        (there_at vector n width symbols block receiving rows rows-Rising rows_there length-rows i
          h).wide

    pub recover : try_recover vector decoder block ≡ (
      finish
          (record decoder { recovered = u64 (decoder.recovered + length (lost block)) })
          block.id,
      map (λ (c : ℕ). row_of packets c) (lost block),
    )
    unfolding try_recover
    recover =
        let (final, run, count, wide, read) =
          solve-equations vector n width symbols block receiving rows rows-Rising rows_there
            length-rows in
        let first : length (row_of block.parity (get_or rows 0 0)) ≡ width =
          row_wide 0 (omega (arith, length-rows)) in
        let tests : ((length (lost block) == 0
              || ltb (length (arrived block)) (length (lost block)))
            ≡ false) =
          ground arith in
        let widths : (not (all_width width block.parity rows)
              || not (fits width block.slots)
              || ltb 16 (length (lost block)))
            ≡ false =
          ground (
            arith,
            all_width_lem width block.parity rows row_wide,
            fits_lem width block.slots
                (λ c. (slot_fits vector n width symbols block receiving c).0),
            Rising-length 0 block.parity_count rows (omega arith) rows-Rising,
            length-rows,
            receiving.parity_counted,
            receiving.parity_le,
          ) in
        let opened =
          unpack_lem width (map (λ (c : ℕ). row_of packets c) (lost block)) final decoder (
            AllPadded-at width packets (lost block) final count
              (solved_IsPadded final wide read)) in
        rw (tests, first, widths, run, opened)
          (ap
            (λ t. (
              finish (record decoder { recovered = t }) block.id,
              map (λ (c : ℕ). row_of packets c) (lost block),
            ))
            (ap (λ t. counts t decoder.recovered) (length-picked packets (lost block))
              ∙ counts-u64 (length (lost block)) decoder.recovered some_lost))
