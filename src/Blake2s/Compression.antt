-- ===== src/Blake2s/Compression.antt =====
-- src/blake2s.cpp: `Blake2s::compress` is the function F of RFC 7693.
use norr.Prelude.{
  ℕ, zero, suc, ◌+◌, ◌-◌, ◌*◌, ◌/◌, ◌%◌, ◌^◌, ◌<◌, ◌≡◌, refl, sym, ap, ap₂, if◌then◌else◌, subst,
  ◌∙◌, bit_xor, Bool, true, false, List, [], ◌∷◌, ◌++◌, arith, ◌&&◌, ◌==◌, ==_iff, length, get_or,
  set, All, All-append, All-get_or, length-append,
}
use norr.Prelude.Bits.{bit_xor-lt}
use norr.Prelude.Xor.{bit_xor_assoc}
use norr.Prelude.Bytes.{IsByte, byte_at, u32, u64}
use norr.Fec.FieldLaws.{holds_for, holds_for-at}
use norr.Blake2s.Hash.{
  sigma, load_words, load_le32, mix_round, mix_rounds, fold_words, work_words, compressed,
}
use norr.Blake2s.Rfc.{
  Words, little_word, iv, place, put, round_of, rounds_from, first_words, along, f,
}
use norr.Blake2s.Words.{Holds, set-Holds, mix-g, load_le32-little_word}

-- A row of `sigma` is a round's places.
abbrev IsRound : List ℕ → ℕ → Type 0
IsRound s r = (i : ℕ) → i < 16 → get_or s i 0 ≡ place r i

abbrev AreRounds : List (List ℕ) → ℕ → Type 0
AreRounds [] r = Unit {0}
AreRounds (s ∷ rows) r = IsRound s r × AreRounds rows (r + 1)

abbrev row_test : List ℕ → ℕ → Bool
row_test s r = holds_for 16 (λ i. get_or s i 0 == place r i)

row-IsRound : (s : List ℕ) (r : ℕ) → row_test s r ≡ true → IsRound s r
row-IsRound s r e i h =
    (==_iff (get_or s i 0) (place r i)).0 (holds_for-at 16 (λ j. get_or s j 0 == place r j) i e h)

rows_test : List (List ℕ) → ℕ → Bool
rows_test [] r = true
rows_test (s ∷ rows) r = row_test s r && rows_test rows (r + 1)

and_true : (p q : Bool) → (p && q) ≡ true → (p ≡ true) × (q ≡ true)
and_true p q e = ground arith

rows-AreRounds : (rows : List (List ℕ)) (r : ℕ) → rows_test rows r ≡ true → AreRounds rows r
unfolding rows_test
rows-AreRounds [] r e = tt
rows-AreRounds (s ∷ rows) r e =
    let both = and_true (row_test s r) (rows_test rows (r + 1)) e in
    (row-IsRound s r both.0, rows-AreRounds rows (r + 1) both.1)

sigma-AreRounds : AreRounds sigma 0
unfolding rows_test holds_for place
sigma-AreRounds = rows-AreRounds sigma 0 refl

place-lt : (r i : ℕ) → place r i < 16
unfolding place
place-lt r i = omega arith

-- The words of the message that the code has loaded.
abbrev Loads : List ℕ → Words → Type 0
Loads message m = (i : ℕ) → i < 16 → get_or message i 0 ≡ m i

module _ (s message : List ℕ) (m : Words) (r : ℕ) (row : IsRound s r)
    (loads : Loads message m) where
  loaded : (i : ℕ) → i < 16 → get_or message (get_or s i 0) 0 ≡ m (place r i)
  loaded i h = ap (λ k. get_or message k 0) (row i h) ∙ loads (place r i) (place-lt r i)

  mix_round-round_of :
      (v : List ℕ) (w : Words) → Holds v w → Holds (mix_round s message v) (round_of r m w)
  unfolding mix_round round_of
  mix_round-round_of v w h =
      let h0 =
        mix-g v w 0 4 8 12 _ _ _ _ h (omega arith) (omega arith) (omega arith) (omega arith)
          (loaded 0 (omega arith)) (loaded 1 (omega arith)) in
      let h1 =
        mix-g _ _ 1 5 9 13 _ _ _ _ h0 (omega arith) (omega arith) (omega arith) (omega arith)
          (loaded 2 (omega arith)) (loaded 3 (omega arith)) in
      let h2 =
        mix-g _ _ 2 6 10 14 _ _ _ _ h1 (omega arith) (omega arith) (omega arith) (omega arith)
          (loaded 4 (omega arith)) (loaded 5 (omega arith)) in
      let h3 =
        mix-g _ _ 3 7 11 15 _ _ _ _ h2 (omega arith) (omega arith) (omega arith) (omega arith)
          (loaded 6 (omega arith)) (loaded 7 (omega arith)) in
      let h4 =
        mix-g _ _ 0 5 10 15 _ _ _ _ h3 (omega arith) (omega arith) (omega arith) (omega arith)
          (loaded 8 (omega arith)) (loaded 9 (omega arith)) in
      let h5 =
        mix-g _ _ 1 6 11 12 _ _ _ _ h4 (omega arith) (omega arith) (omega arith) (omega arith)
          (loaded 10 (omega arith)) (loaded 11 (omega arith)) in
      let h6 =
        mix-g _ _ 2 7 8 13 _ _ _ _ h5 (omega arith) (omega arith) (omega arith) (omega arith)
          (loaded 12 (omega arith)) (loaded 13 (omega arith)) in
      mix-g _ _ 3 4 9 14 _ _ _ _ h6 (omega arith) (omega arith) (omega arith) (omega arith)
        (loaded 14 (omega arith)) (loaded 15 (omega arith))

mix_rounds-rounds_from :
    (rows : List (List ℕ)) (r : ℕ) (message : List ℕ) (m : Words) (v : List ℕ) (w : Words)
    → AreRounds rows r
    → Loads message m
    → Holds v w
    → Holds (mix_rounds rows message v) (rounds_from (length rows) r m w)
unfolding mix_rounds rounds_from
mix_rounds-rounds_from [] r message m v w rows loads h = h
mix_rounds-rounds_from (s ∷ rest) r message m v w rows loads h =
    mix_rounds-rounds_from rest (r + 1) message m (mix_round s message v) (round_of r m w) rows.1
      loads (mix_round-round_of s message m r rows.0 loads v w h)

load_words-at :
    (n k i : ℕ) (buffer : List ℕ)
    → i < n
    → get_or (load_words n k buffer) i 0 ≡ load_le32 buffer ((k + i) * 4)
unfolding load_words
load_words-at zero k i buffer h = absurd (omega arith)
load_words-at (suc n) k zero buffer h =
    let e : k * 4 ≡ (k + 0) * 4 = omega arith in ap (load_le32 buffer) e
load_words-at (suc n) k (suc i) buffer h =
    let e : (k + 1 + i) * 4 ≡ (k + suc i) * 4 = omega arith in
    load_words-at n (k + 1) i buffer (omega arith) ∙ ap (load_le32 buffer) e

load_words-Loads :
    (buffer : List ℕ)
    → ((j : ℕ) → IsByte (byte_at buffer j))
    → Loads (load_words 16 0 buffer) (little_word buffer)
load_words-Loads buffer small i h =
    let e : (0 + i) * 4 ≡ i * 4 = omega arith in
    load_words-at 16 0 i buffer h ∙ ap (load_le32 buffer) e ∙ load_le32-little_word buffer i small

-- A state of eight words.
pub record IsState (h : List ℕ) : Type 0 where
  pub eight : length h ≡ 8
  pub fits : All (λ (x : ℕ). x < 2 ^ 32) h

abbrev Fits : ℕ → Type 0
Fits x = x < 2 ^ 32

-- The words before the rounds.
module _ (h : List ℕ) (state : IsState h) (t : ℕ) where
  start-Holds : Holds (h ++ iv) (λ i. get_or (h ++ iv) i 0)
  start-Holds = record {
    count = length-append h iv ∙ ap (λ n. n + 8) state.eight;
    each = λ i p. refl;
    small = λ i p.
        All-get_or Fits (h ++ iv) i 0 (All-append Fits h iv state.fits (omega arith)) (omega arith);
  }

-- A word that is combined with a number.
set-xor :
    (v : List ℕ) (w : Words) (i x x' : ℕ)
    → Holds v w
    → i < 16
    → x ≡ x'
    → x' < 2 ^ 32
    → Holds (set v i (bit_xor (get_or v i 0) x)) (put w i (bit_xor (w i) x'))
set-xor v w i x x' h at e small =
    subst (λ t. Holds (set v i t) (put w i (bit_xor (w i) x')))
      (ap₂ bit_xor (sym (h.each i at)) (sym e))
      (set-Holds v w i (bit_xor (w i) x') h at (bit_xor-lt 32 (w i) x' (h.small i at) small))

iv_at : (h : List ℕ) → length h ≡ 8 → get_or (h ++ iv) 14 0 ≡ 0x1F83D9AB
iv_at (_ ∷ _ ∷ _ ∷ _ ∷ _ ∷ _ ∷ _ ∷ _ ∷ []) e = refl
iv_at h e = absurd (omega arith)

-- The last block's word is turned over.
set-complement :
    (v : List ℕ) (w : Words)
    → Holds v w
    → w 14 ≡ 0x1F83D9AB
    → Holds (set v 14 (2 ^ 32 - 1 - get_or v 14 0)) (put w 14 (bit_xor (w 14) 0xFFFFFFFF))
set-complement v w h e =
    let at = h.each 14 (omega arith) ∙ e in
    let turned : 2 ^ 32 - 1 - get_or v 14 0 ≡ bit_xor (w 14) 0xFFFFFFFF =
      ap (λ t. 2 ^ 32 - 1 - t) at ∙ sym (ap (λ t. bit_xor t 0xFFFFFFFF) e) in
    subst (λ t. Holds (set v 14 t) (put w 14 (bit_xor (w 14) 0xFFFFFFFF))) (sym turned)
      (set-Holds v w 14 _ h (omega arith)
        (bit_xor-lt 32 (w 14) 0xFFFFFFFF (h.small 14 (omega arith)) (omega arith)))

work_words-first_words :
    (last : Bool) (h : List ℕ) (t : ℕ)
    → IsState h
    → Holds (work_words last h (u64 t)) (first_words h t last)
unfolding work_words first_words put
work_words-first_words last h t state =
    let low : u32 (u64 t) ≡ t % 2 ^ 32 = omega arith in
    let high : u32 (u64 t / 2 ^ 32) ≡ t / 2 ^ 32 % 2 ^ 32 = omega arith in
    let h1 = set-xor _ _ 12 _ _ (start-Holds h state t) (omega arith) low (omega arith) in
    let h2 = set-xor _ _ 13 _ _ h1 (omega arith) high (omega arith) in
    by_last last _ _ h2 (iv_at h state.eight)
  where
    by_last :
        (last : Bool) (v : List ℕ) (w : Words)
        → Holds v w
        → w 14 ≡ 0x1F83D9AB
        → Holds
            (if last then set v 14 (2 ^ 32 - 1 - get_or v 14 0) else v)
            (if last then put w 14 (bit_xor (w 14) 0xFFFFFFFF) else w)
    by_last true v w holds e = set-complement v w holds e
    by_last false v w holds e = holds

-- The words of the state with both halves of the work words.
folded :
    (v : List ℕ) (w : Words) (x i : ℕ)
    → Holds v w
    → i < 8
    → bit_xor x (bit_xor (get_or v i 0) (get_or v (i + 8) 0))
      ≡ bit_xor (bit_xor x (w i)) (w (i + 8))
folded v w x i h at =
    ap₂ (λ p q. bit_xor x (bit_xor p q)) (h.each i (omega arith)) (h.each (i + 8) (omega arith))
    ∙ sym (bit_xor_assoc x (w i) (w (i + 8)))

fold_words-along :
    (h v : List ℕ) (w : Words)
    → length h ≡ 8
    → Holds v w
    → fold_words 8 0 v h ≡ along 8 0 (λ i. bit_xor (bit_xor (get_or h i 0) (w i)) (w (i + 8)))
unfolding fold_words
fold_words-along (a ∷ b ∷ c ∷ d ∷ e ∷ f' ∷ g' ∷ k ∷ []) v w eight holds =
    let at = λ (x i : ℕ) (p : i < 8). folded v w x i holds p in
    ap₂ (λ x l. x ∷ l) (at a 0 (omega arith))
      (ap₂ (λ x l. x ∷ l) (at b 1 (omega arith))
        (ap₂ (λ x l. x ∷ l) (at c 2 (omega arith))
          (ap₂ (λ x l. x ∷ l) (at d 3 (omega arith))
            (ap₂ (λ x l. x ∷ l) (at e 4 (omega arith))
              (ap₂ (λ x l. x ∷ l) (at f' 5 (omega arith))
                (ap₂ (λ x l. x ∷ l) (at g' 6 (omega arith))
                  (ap (λ x. x ∷ []) (at k 7 (omega arith)))))))))
fold_words-along h v w eight holds = absurd (omega arith)

along-All :
    (P : ℕ → Type 0) (n i : ℕ) (w : Words) → ((j : ℕ) → j < i + n → P (w j)) → All P (along n i w)
along-All P zero i w h = tt
along-All P (suc n) i w h = (h i (omega arith), along-All P n (i + 1) w (λ j p. h j (omega arith)))

-- The code's compression of a state and a block is F, and gives a state again.
pub compressed-f :
    (last : Bool) (h block : List ℕ) (t : ℕ)
    → IsState h
    → ((j : ℕ) → IsByte (byte_at block j))
    → (compressed last h block (u64 t) ≡ f h block t last) × IsState (f h block t last)
unfolding compressed f
compressed-f last h block t state bytes =
    let w = rounds_from 10 0 (little_word block) (first_words h t last) in
    let holds =
      mix_rounds-rounds_from sigma 0 (load_words 16 0 block) (little_word block)
        (work_words last h (u64 t)) (first_words h t last) sigma-AreRounds
        (load_words-Loads block bytes) (work_words-first_words last h t state) in
    (
      fold_words-along h _ w state.eight holds,
      record {
        eight = refl;
        fits =
            along-All Fits 8 0 (λ i. bit_xor (bit_xor (get_or h i 0) (w i)) (w (i + 8)))
              (λ j p.
                bit_xor-lt 32 (bit_xor (get_or h j 0) (w j)) (w (j + 8))
                  (bit_xor-lt 32 (get_or h j 0) (w j)
                    (All-get_or Fits h j 0 state.fits (omega arith)) (holds.small j (omega arith)))
                  (holds.small (j + 8) (omega arith)));
      },
    )
