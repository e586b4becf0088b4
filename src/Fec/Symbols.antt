-- ===== src/Fec/Symbols.antt =====
-- src/fec.cpp: reading a symbol's header gives back what was written, and writing what was read gives back
-- its bytes.
use norr.Prelude.{
  ℕ, ◌+◌, ◌*◌, ◌/◌, ◌^◌, ◌≤◌, ◌<◌, bit_and, bit_or, ◌≡◌, refl, sym, ap, ◌∙◌, true, not, ◌||◌, ◌==◌,
  if◌then◌else◌, List, ◌∷◌, some, length, take, drop, ◌++◌, All, All-get_or, arith, Bool-cases, inl,
  inr,
}
use norr.Prelude.Bits.{bit_or_sum}
use norr.Prelude.Bytes.{IsByte, byte_at, u8, u16}
use norr.Fec.FieldLaws.{holds_for, holds_for-at}
use norr.Fec.Header.{FecSymbolHeader, read_u32, serialize_fec_header, parse_fec_header, fec_tag}

-- A header that fits its fields, of a block of at most 64 packets and 16 parity symbols.
pub record IsValid (h : FecSymbolHeader) : Type 0 where
  pub id_fits : h.block_id < 2 ^ 32
  pub block_size_pos : 0 < h.block_size
  pub block_size_le : h.block_size ≤ 64
  pub parity_count_pos : 0 < h.parity_count
  pub parity_count_le : h.parity_count ≤ 16
  pub index_lt : h.index < (if h.parity then h.parity_count else h.block_size)
  pub length_fits : h.original_length < 2 ^ 16

abbrev word32 : ℕ → ℕ → ℕ → ℕ → ℕ
word32 a b c d = ((a * 256 + b) * 256 + c) * 256 + d

or_word32 :
    (a b c d : ℕ)
    → IsByte b
    → IsByte c
    → IsByte d
    → bit_or (bit_or (bit_or (a * 2 ^ 24) (b * 2 ^ 16)) (c * 2 ^ 8)) d ≡ word32 a b c d
or_word32 a b c d hb hc hd =
    let first : bit_or (a * 2 ^ 24) (b * 2 ^ 16) ≡ (a * 256 + b) * 2 ^ 16 =
      bit_or_sum 24 a (b * 2 ^ 16) (omega arith) ∙ omega arith in
    let second : bit_or ((a * 256 + b) * 2 ^ 16) (c * 2 ^ 8) ≡ ((a * 256 + b) * 256 + c) * 2 ^ 8 =
      bit_or_sum 16 (a * 256 + b) (c * 2 ^ 8) (omega arith) ∙ omega arith in
    rw (first, second) (bit_or_sum 8 ((a * 256 + b) * 256 + c) d hd)

or_word16 : (a b : ℕ) → IsByte a → IsByte b → u16 (bit_or (a * 2 ^ 8) b) ≡ a * 256 + b
or_word16 a b ha hb = ap u16 (bit_or_sum 8 a b hb) ∙ omega arith

abbrev flag_of : ℕ → ℕ
flag_of f = if not (bit_and f 1 == 0) then 1 else 0

flag_table : holds_for 256 (λ f. not (bit_and f 0xFFFFFFFE == 0) || f == flag_of f) ≡ true
unfolding holds_for
flag_table = refl

flags_lem : (f : ℕ) → IsByte f → (bit_and f 0xFFFFFFFE == 0) ≡ true → f ≡ flag_of f
flags_lem f h e = ground (
  arith,
  holds_for-at 256 (λ g. not (bit_and g 0xFFFFFFFE == 0) || g == flag_of g) f flag_table h,
)

-- The eleven bytes of a header.
abbrev pub spell : FecSymbolHeader → List ℕ → List ℕ
spell h rest =
    fec_tag
    ∷ u8 (h.block_id / 2 ^ 24)
    ∷ u8 (h.block_id / 2 ^ 16)
    ∷ u8 (h.block_id / 2 ^ 8)
    ∷ u8 h.block_id
    ∷ u8 h.index
    ∷ u8 h.block_size
    ∷ u8 h.parity_count
    ∷ (if h.parity then 1 else 0)
    ∷ u8 (h.original_length / 2 ^ 8)
    ∷ u8 h.original_length
    ∷ rest

-- What is written, whatever stood in the buffer.
pub serialize_fec_header_lem :
    (h : FecSymbolHeader) (out : List ℕ)
    → 11 ≤ length out
    → serialize_fec_header h out ≡ (11, spell h (drop 11 out))
unfolding serialize_fec_header
serialize_fec_header_lem h (_ ∷ _ ∷ _ ∷ _ ∷ _ ∷ _ ∷ _ ∷ _ ∷ _ ∷ _ ∷ _ ∷ rest) enough = ground arith
serialize_fec_header_lem h out enough = absurd (omega arith)

read_spell :
    (h : FecSymbolHeader) (rest : List ℕ)
    → IsValid h
    → (read_u32 (spell h rest) 1 ≡ h.block_id)
      × (u16 (bit_or (u8 (h.original_length / 2 ^ 8) * 2 ^ 8) (u8 h.original_length))
          ≡ h.original_length)
unfolding read_u32
read_spell h rest v =
    let id : ℕ = h.block_id in
    let n : ℕ = h.original_length in
    (
      or_word32 (u8 (id / 2 ^ 24)) (u8 (id / 2 ^ 16)) (u8 (id / 2 ^ 8)) (u8 id) (omega arith)
            (omega arith) (omega arith)
          ∙ omega arith,
      or_word16 (u8 (n / 2 ^ 8)) (u8 n) (omega arith) (omega arith) ∙ omega arith,
    )

-- The tests of `parse_fec_header` on eleven bytes, and what it takes from them.
abbrev Spelled : List ℕ → FecSymbolHeader → Type 0
Spelled bytes h =
    (byte_at bytes 0 ≡ fec_tag)
    × (read_u32 bytes 1 ≡ h.block_id)
    × (byte_at bytes 5 ≡ h.index)
    × (byte_at bytes 6 ≡ h.block_size)
    × (byte_at bytes 7 ≡ h.parity_count)
    × (byte_at bytes 8 ≡ (if h.parity then 1 else 0))
    × (u16 (bit_or (byte_at bytes 9 * 2 ^ 8) (byte_at bytes 10)) ≡ h.original_length)

abbrev Sized : FecSymbolHeader → Type 0
Sized h =
    (0 < h.block_size)
    × (h.block_size ≤ 64)
    × (0 < h.parity_count)
    × (h.parity_count ≤ 16)
    × (h.index < (if h.parity then h.parity_count else h.block_size))

parse_Spelled :
    (bytes : List ℕ) (h : FecSymbolHeader)
    → 11 ≤ length bytes
    → Spelled bytes h
    → Sized h
    → parse_fec_header bytes ≡ some h
unfolding parse_fec_header
parse_Spelled bytes h enough (tag, id, index, size, count, flag, long) s =
    elim (Bool-cases h.parity) [ inl p ↦ ground arith | inr p ↦ ground arith ]

Spelled-of_parse :
    (bytes : List ℕ) (h : FecSymbolHeader)
    → All IsByte bytes
    → parse_fec_header bytes ≡ some h
    → (11 ≤ length bytes) × Spelled bytes h × Sized h
unfolding parse_fec_header
Spelled-of_parse bytes h b e =
    ground (arith, flags_lem (byte_at bytes 8) (All-get_or IsByte bytes 8 0 b (omega arith)))

index_small : (h : FecSymbolHeader) → IsValid h → h.index < 256
index_small h v = ground arith

valid :
    (bytes : List ℕ) (h : FecSymbolHeader)
    → All IsByte bytes
    → Spelled bytes h
    → Sized h
    → IsValid h
unfolding read_u32
valid bytes h b (tag, id, index, size, count, flag, long) (s0, s1, p0, p1, i) =
    let at = λ (j : ℕ). All-get_or IsByte bytes j 0 b (omega arith) in
    let word =
      or_word32 (byte_at bytes 1) (byte_at bytes 2) (byte_at bytes 3) (byte_at bytes 4) (at 2)
        (at 3) (at 4) in
    record {
      id_fits = omega (arith, at 1, at 2, at 3, at 4);
      block_size_pos = s0;
      block_size_le = s1;
      parity_count_pos = p0;
      parity_count_le = p1;
      index_lt = i;
      length_fits = omega arith;
    }

respell :
    (bytes : List ℕ) (h : FecSymbolHeader)
    → All IsByte bytes
    → 11 ≤ length bytes
    → Spelled bytes h
    → Sized h
    → spell h (drop 11 bytes) ≡ bytes
unfolding read_u32
respell (a ∷ b ∷ c ∷ d ∷ e ∷ f ∷ g ∷ i ∷ j ∷ k ∷ l ∷ rest) h bs enough
      (tag, id, index, size, count, flag, long) s =
    let word : word32 b c d e ≡ h.block_id =
      sym (or_word32 b c d e (omega arith) (omega arith) (omega arith)) ∙ id in
    let half : k * 256 + l ≡ h.original_length =
      sym (or_word16 k l (omega arith) (omega arith)) ∙ long in
    let d1 : u8 (h.block_id / 2 ^ 24) ≡ b = omega arith in
    let d2 : u8 (h.block_id / 2 ^ 16) ≡ c = omega arith in
    let d3 : u8 (h.block_id / 2 ^ 8) ≡ d = omega arith in
    let d4 : u8 h.block_id ≡ e = omega arith in
    let d9 : u8 (h.original_length / 2 ^ 8) ≡ k = omega arith in
    let d10 : u8 h.original_length ≡ l = omega arith in
    let d5 : u8 h.index ≡ f = omega arith in
    let d6 : u8 h.block_size ≡ g = omega arith in let d7 : u8 h.parity_count ≡ i = omega arith in cc
respell bytes h bs enough sp s = absurd (omega arith)

-- A header that fits its fields is read back from the buffer it was written to, whatever stood
-- there before and whatever follows the header.
pub parse_fec_header-serialize_fec_header :
    (h : FecSymbolHeader) (out : List ℕ)
    → IsValid h
    → 11 ≤ length out
    → parse_fec_header (serialize_fec_header h out).1 ≡ some h
parse_fec_header-serialize_fec_header h out v enough =
    let (id, long) = read_spell h (drop 11 out) v in
    ap (λ t. parse_fec_header t.1) (serialize_fec_header_lem h out enough)
    ∙ parse_Spelled (spell h (drop 11 out)) h (omega arith)
        (
          refl,
          id,
          small8 h.index (index_small h v),
          small8 h.block_size (omega arith),
          small8 h.parity_count (omega arith),
          refl,
          long,
        )
        (ground arith)
  where
    small8 : (n : ℕ) → n < 256 → u8 n ≡ n
    small8 n p = omega arith

respelled :
    (bytes out : List ℕ) (h : FecSymbolHeader)
    → spell h (drop 11 bytes) ≡ bytes
    → spell h (drop 11 out) ≡ take 11 bytes ++ drop 11 out
respelled bytes out h e = ap (λ t. take 11 t ++ drop 11 out) e

-- A header that is read fits its fields, and writing it to any buffer with room for it puts the
-- eleven bytes there that it was read from, and leaves what follows them.
pub serialize_fec_header-parse_fec_header :
    (bytes out : List ℕ) (h : FecSymbolHeader)
    → All IsByte bytes
    → 11 ≤ length out
    → parse_fec_header bytes ≡ some h
    → IsValid h × (serialize_fec_header h out ≡ (11, take 11 bytes ++ drop 11 out))
serialize_fec_header-parse_fec_header bytes out h b room e =
    let (enough, spelled, sized) = Spelled-of_parse bytes h b e in
    (
      valid bytes h b spelled sized,
      serialize_fec_header_lem h out room
          ∙ ap (λ t. (11, t)) (respelled bytes out h (respell bytes h b enough spelled sized)),
    )
