-- ===== src/Blake2s/Conformance.antt =====
-- src/blake2s.cpp: the digest is the one of RFC 7693.
use norr.Prelude.{
  ℕ, zero, suc, ◌+◌, ◌-◌, ◌*◌, ◌^◌, ◌≤◌, ◌<◌, ◌≡◌, ◌⊎◌, inl, inr, refl, sym, ap, subst, ◌∙◌, bit_or,
  bit_xor, Bool, true, false, List, [], ◌∷◌, ◌++◌, arith, ◌==◌, ==_iff, ltb, if◌then◌else◌, length,
  set, take, drop, replicate, min, All, take-all, take-append-drop, drop-replicate, length-take,
  length-drop, Bool-cases, ltb→lt, All-append, All-replicate,
}
use norr.Prelude.Bits.{bit_xor-lt}
use norr.Prelude.Bytes.{IsByte, byte_at, u64}
use norr.Fec.FieldLaws.{holds_for, holds_for-at}
use norr.Blake2s.Hash.{
  compressed, maximum_key_size, copy_to, key_block, fresh, start, update, store_words, finish,
}
use norr.Blake2s.Rfc.{f, put, iv, first_state, after_blocks, data_of, cut, output, blake2s}
use norr.Blake2s.Blocks.{IsBlock, joined, chained, keyed_message, copy_to_after, finish-chained}
use norr.Blake2s.Compression.{IsState, compressed-f}

-- Every byte that is read of a list of bytes is one.
reads : (bytes : List ℕ) → All IsByte bytes → (j : ℕ) → IsByte (byte_at bytes j)
reads [] h j = omega arith
reads (b ∷ bytes) h zero = h.0
reads (b ∷ bytes) h (suc j) = reads bytes h.1 j

u64_next : (t n : ℕ) → u64 (u64 t + n) ≡ u64 (t + n)
u64_next t n = omega arith

chained-after_blocks :
    (blocks : List (List ℕ)) (last h : List ℕ) (t : ℕ)
    → IsState h
    → All (All IsByte) blocks
    → All IsByte last
    → (chained blocks last h (u64 t) ≡ after_blocks blocks last h t)
      × IsState (after_blocks blocks last h t)
unfolding chained after_blocks
chained-after_blocks [] last h t state all bytes =
    let block : List ℕ = last ++ replicate (64 - length last) 0 in
    let run = compressed-f true h block (t + length last) state (
      reads block (
        All-append IsByte last _ bytes
          (All-replicate IsByte (64 - length last) 0 (omega arith)))) in
    (ap (compressed true h block) (u64_next t (length last)) ∙ run.0, run.1)
chained-after_blocks (block ∷ blocks) last h t state all bytes =
    let run = compressed-f false h block (t + 64) state (reads block all.0) in
    let rest =
      chained-after_blocks blocks last (f h block (t + 64) false) (t + 64) run.1 all.1 bytes in
    (
      ap (λ n. chained blocks last (compressed false h block n) n) (u64_next t 64)
          ∙ ap (λ s. chained blocks last s (u64 (t + 64))) run.0
          ∙ rest.0,
      rest.1,
    )

-- The parameter block, for every size of digest and key.
abbrev parameters_test : ℕ → ℕ → Bool
parameters_test n k =
    bit_xor 0x6A09E667 (bit_or (bit_or 0x01010000 (k * 2 ^ 8)) n)
    == bit_xor (bit_xor (bit_xor 0x6A09E667 0x01010000) (k * 2 ^ 8)) n

parameters : holds_for 33 (λ n. holds_for 33 (λ k. parameters_test n k)) ≡ true
unfolding holds_for
parameters = refl

fresh-first_state : (n k : ℕ) → 1 ≤ n → n ≤ 32 → k ≤ 32 → (fresh n k).state ≡ first_state n k
unfolding fresh first_state put
fresh-first_state n k low high room =
    let clamped : (if ltb n 1 then 1 else if ltb 32 n then 32 else n) ≡ n = ground arith in
    let rows =
      holds_for-at 33 (λ m. holds_for 33 (λ k. parameters_test m k)) n parameters (omega arith) in
    let test = holds_for-at 33 (λ k. parameters_test n k) k rows (omega arith) in
    ap (λ x. set iv 0 x)
      (ap (λ s. bit_xor 0x6A09E667 (bit_or (bit_or 0x01010000 (k * 2 ^ 8)) s)) clamped
        ∙ (==_iff _ _).0 test)

first_state-IsState : (n k : ℕ) → n ≤ 32 → k ≤ 32 → IsState (first_state n k)
unfolding first_state put
first_state-IsState n k high room =
    let first : bit_xor (bit_xor 1795745383 (k * 2 ^ 8)) n < 2 ^ 32 =
      bit_xor-lt 32 _ n (bit_xor-lt 32 1795745383 (k * 2 ^ 8) (omega arith) (omega arith))
        (omega arith) in
    record { eight = refl; fits = (first, omega arith) }

store_words-output : (h : List ℕ) → length h ≡ 8 → store_words 8 0 h ≡ output 8 h
unfolding store_words output
store_words-output (a ∷ b ∷ c ∷ d ∷ e ∷ p ∷ g ∷ k ∷ []) eight = refl
store_words-output h eight = absurd (omega arith)

copy_to-front :
    (bytes buffer : List ℕ)
    → length bytes ≤ length buffer
    → copy_to buffer 0 bytes ≡ bytes ++ drop (length bytes) buffer
unfolding copy_to
copy_to-front [] buffer h = refl
copy_to-front (b ∷ bytes) [] h = absurd (omega arith)
copy_to-front (b ∷ bytes) (x ∷ buffer) h =
    copy_to_after bytes buffer b 0 ∙ ap (λ l. b ∷ l) (copy_to-front bytes buffer (omega (arith, h)))

key_block-filled :
    (key : List ℕ)
    → length key ≤ 32
    → key_block (take (min (length key) 32) key) ≡ key ++ replicate (64 - length key) 0
unfolding key_block
key_block-filled key h =
    ap (copy_to (replicate 64 0) 0) (take-all (min (length key) 32) key (omega (arith, h)))
    ∙ copy_to-front key (replicate 64 0) (omega (arith, h))
    ∙ ap (λ l. key ++ l) (drop-replicate (length key) 64 0)

keyed_message-data_of :
    (key message : List ℕ) → length key ≤ 32 → keyed_message key message ≡ data_of key message
keyed_message-data_of [] message h = refl
keyed_message-data_of (k ∷ key) message h =
    let some' : ltb 0 (min (length (k ∷ key)) 32) ≡ true = ground arith in
    ap
      (λ b.
        if b then key_block (take (min (length (k ∷ key)) 32) (k ∷ key)) ++ message else message)
      some'
    ∙ ap (λ l. l ++ message) (key_block-filled (k ∷ key) h)

All-parts : (xs ys : List ℕ) → All IsByte (xs ++ ys) → All IsByte xs × All IsByte ys
All-parts [] ys h = (tt, h)
All-parts (x ∷ xs) ys h = let rest = All-parts xs ys h.1 in ((h.0, rest.0), rest.1)

joined-All :
    (blocks : List (List ℕ)) (last : List ℕ)
    → All IsByte (joined blocks last)
    → All (All IsByte) blocks × All IsByte last
unfolding joined
joined-All [] last h = (tt, h)
joined-All (block ∷ blocks) last h =
    let here = All-parts block (joined blocks last) h in
    let rest = joined-All blocks last here.1 in ((here.0, rest.0), rest.1)

data_of-All :
    (key message : List ℕ) → All IsByte key → All IsByte message → All IsByte (data_of key message)
data_of-All [] message k m = m
data_of-All (b ∷ key) message k m =
    All-append IsByte ((b ∷ key) ++ replicate (64 - length (b ∷ key)) 0) message
      (All-append IsByte (b ∷ key) (replicate (64 - length (b ∷ key)) 0) k
        (All-replicate IsByte (64 - length (b ∷ key)) 0 (omega arith)))
      m

-- What a cut of data into blocks comes to.
abbrev IsCut : List ℕ → List (List ℕ) × List ℕ → Type 0
IsCut data' c =
    (data' ≡ joined c.0 c.1)
    × All IsBlock c.0
    × (length c.1 ≤ 64)
    × ((1 ≤ length c.1) ⊎ ((c.0 ≡ []) × (length data' ≡ 0)))

cut_more :
    (fuel : ℕ) (data' : List ℕ)
    → ltb 64 (length data') ≡ true
    → cut (suc fuel) data'
      ≡ (take 64 data' ∷ (cut fuel (drop 64 data')).0, (cut fuel (drop 64 data')).1)
unfolding cut
cut_more fuel data' p =
    ap
      (λ b.
        if b
        then (take 64 data' ∷ (cut fuel (drop 64 data')).0, (cut fuel (drop 64 data')).1)
        else ([], data'))
      p

cut_end :
    (fuel : ℕ) (data' : List ℕ) → ltb 64 (length data') ≡ false → cut (suc fuel) data' ≡ ([], data')
unfolding cut
cut_end fuel data' p =
    ap
      (λ b.
        if b
        then (take 64 data' ∷ (cut fuel (drop 64 data')).0, (cut fuel (drop 64 data')).1)
        else ([], data'))
      p

whole-IsCut : (data' : List ℕ) → length data' ≤ 64 → IsCut data' ([], data')
unfolding joined
whole-IsCut [] h = (refl, tt, h, inr (refl, refl))
whole-IsCut (b ∷ data') h = (refl, tt, h, inl (omega arith))

cons-IsCut :
    (data' : List ℕ) (c : List (List ℕ) × List ℕ)
    → 64 < length data'
    → IsCut (drop 64 data') c
    → IsCut data' (take 64 data' ∷ c.0, c.1)
unfolding joined
cons-IsCut data' c more (whole, full, small, ending) = (
  sym (take-append-drop 64 data') ∙ ap (λ l. take 64 data' ++ l) whole,
  (length-take 64 data' ∙ omega (arith, more), full),
  small,
  elim ending [
    | inl some' ↦ inl some'
    | inr nothing ↦ absurd (omega (arith, length-drop 64 data', nothing.1, more))
  ],
)

cut-IsCut : (fuel : ℕ) (data' : List ℕ) → length data' ≤ fuel → IsCut data' (cut fuel data')
unfolding cut
cut-IsCut zero data' h = whole-IsCut data' (omega (arith, h))
cut-IsCut (suc fuel) data' h = elim (Bool-cases (ltb 64 (length data'))) [
  | inl p ↦
      let more = ltb→lt 64 (length data') p in
      subst (IsCut data') (sym (cut_more fuel data' p)) (
        cons-IsCut data' (cut fuel (drop 64 data')) more
          (cut-IsCut fuel (drop 64 data') (omega (arith, length-drop 64 data', more, h))))
  | inr p ↦ subst (IsCut data') (sym (cut_end fuel data' p)) (whole-IsCut data' (ground arith))
]

-- A digest of 1 to 32 bytes, of any bytes under a key of at most 32, or none, is the one that RFC 7693
-- defines.
pub finish-blake2s :
    (n : ℕ) (key message : List ℕ)
    → 1 ≤ n
    → n ≤ 32
    → length key ≤ 32
    → All IsByte key
    → All IsByte message
    → (finish (update (start n key) message) n).0 ≡ blake2s n key message
unfolding blake2s
finish-blake2s n key message low high short key_bytes message_bytes =
    let data' : List ℕ = data_of key message in
    let c = cut (length data') data' in
    let (whole, full, small, ending) = cut-IsCut (length data') data' (omega arith) in
    let kk : min (length key) maximum_key_size ≡ length key = omega (arith, short) in
    let bytes =
      joined-All c.0 c.1
        (subst (All IsByte) whole (data_of-All key message key_bytes message_bytes)) in
    let run =
      chained-after_blocks c.0 c.1 (first_state n (length key)) 0
        (first_state-IsState n (length key) high short) bytes.0 bytes.1 in
    finish-chained n key message c.1 c.0 low high (keyed_message-data_of key message short ∙ whole)
      full small (elim ending [ inl some' ↦ inl some' | inr nothing ↦ inr nothing.0 ])
    ∙ ap (λ k. take n (store_words 8 0 (chained c.0 c.1 (fresh n k).state 0))) kk
    ∙ ap (λ h. take n (store_words 8 0 (chained c.0 c.1 h 0)))
        (fresh-first_state n (length key) low high short)
    ∙ ap (λ h. take n (store_words 8 0 h)) run.0
    ∙ ap (take n) (store_words-output _ run.1.eight)
