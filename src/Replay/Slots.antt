-- ===== src/Replay/Slots.antt =====
-- One bit of the window: where a counter's bit lies, and what `set` and a clearing round do to it.
use native.Mathlib.Decide.{ℕ_discrete}
use norr.Prelude.{
  ℕ, ◌%◌, ◌^◌, ◌<◌, ◌≡◌, sym, ap, ◌∙◌, ◌≢◌, List, ◌==◌, arith, length, get_or, set, All, length-set,
  All-set, All-get_or, get_or-set_self, get_or-set_ne,
}
use norr.Prelude.Bits.{
  bit, bit_not, bit-lt, bit-bit_or, bit-bit_and, bit-bit_not, bit-two-pow_self, bit-two-pow_ne,
  bit_and-two-pow, bit_or-lt, bit_and-lt, two-pow-lt, two-pow-pos,
}
use norr.Replay.{word_count, window_size, word_of, bit_of, test, mark, unmark}

abbrev pub IsWord : ℕ → Type 0
IsWord x = x < 2 ^ 64

-- The array has its 128 words.
pub record Words (seen : List ℕ) : Type 0 where
  pub full : length seen ≡ word_count
  pub words : All IsWord seen

-- The counter's place in the window; counters a window apart share it.
abbrev pub slot : ℕ → ℕ
slot counter = counter % window_size

abbrev pub word_at : List ℕ → ℕ → ℕ
word_at seen counter = get_or seen (word_of counter) 0

abbrev pub seen_bit : List ℕ → ℕ → ℕ
seen_bit seen counter = bit (word_at seen counter) (counter % 64)

module _ (seen : List ℕ) (v : Words seen) where
  pub word_at-lt : (c : ℕ) → word_at seen c < 2 ^ 64
  word_at-lt c = All-get_or IsWord seen (word_of c) 0 v.words (omega arith)

  bit_of-lt : (c : ℕ) → bit_of c < 2 ^ 64
  bit_of-lt c = two-pow-lt 64 (c % 64) (omega arith)

  pub set-Words : (c x : ℕ) → x < 2 ^ 64 → Words (set seen (word_of c) x)
  set-Words c x h = record {
    full = length-set seen (word_of c) x ∙ v.full;
    words = All-set IsWord seen (word_of c) x v.words h;
  }

  pub mark-Words : (c : ℕ) → Words (mark seen c)
  unfolding mark
  mark-Words c = set-Words c _ (bit_or-lt 64 _ _ (word_at-lt c) (bit_of-lt c))

  pub unmark-Words : (c : ℕ) → Words (unmark seen c)
  unfolding unmark
  unmark-Words c = set-Words c _ (bit_and-lt 64 _ _ (word_at-lt c))

  -- Reading a word after a write to the word of `c`.
  written : (c d x : ℕ) → word_of c ≡ word_of d → word_at (set seen (word_of c) x) d ≡ x
  written c d x e =
      ap (λ i. get_or (set seen (word_of c) x) i 0) (sym e)
      ∙ get_or-set_self seen (word_of c) x 0 (omega (arith, v.full))

  kept : (c d x : ℕ) → word_of c ≢ word_of d → word_at (set seen (word_of c) x) d ≡ word_at seen d
  kept c d x ne = get_or-set_ne seen (word_of c) (word_of d) x 0 ne

  same_word : (c d : ℕ) → word_of c ≡ word_of d → word_at seen c ≡ word_at seen d
  same_word c d e = ap (λ i. get_or seen i 0) e

  same_slot : (c d : ℕ) → slot c ≡ slot d → (word_of c ≡ word_of d) × (c % 64 ≡ d % 64)
  same_slot c d e = omega arith

  -- `set` turns on the bit of the counter's slot and no other.
  pub seen_bit-mark_self : (c d : ℕ) → slot c ≡ slot d → seen_bit (mark seen c) d ≡ 1
  unfolding mark
  seen_bit-mark_self c d e =
      let (w, b) = same_slot c d e in
      ap (λ t. bit t (d % 64)) (written c d _ w)
      ∙ omega (
        arith,
        bit-bit_or (word_at seen c) (bit_of c) (d % 64),
        bit-lt (word_at seen c) (d % 64),
        ap (bit (bit_of c)) b,
        bit-two-pow_self (c % 64),
      )

  pub seen_bit-mark_ne : (c d : ℕ) → slot c ≢ slot d → seen_bit (mark seen c) d ≡ seen_bit seen d
  unfolding mark
  seen_bit-mark_ne c d ne = elim (ℕ_discrete (word_of c) (word_of d)) [
    | no other ↦ ap (λ t. bit t (d % 64)) (kept c d _ other)
    | yes w ↦
        ap (λ t. bit t (d % 64)) (written c d _ w)
        ∙ omega (
          arith,
          bit-bit_or (word_at seen c) (bit_of c) (d % 64),
          bit-two-pow_ne (c % 64) (d % 64) (λ b. ne (omega arith)),
          ap (λ t. bit t (d % 64)) (same_word c d w),
        )
  ]

  -- A clearing round turns it off.
  pub seen_bit-unmark_self : (c d : ℕ) → slot c ≡ slot d → seen_bit (unmark seen c) d ≡ 0
  unfolding unmark
  seen_bit-unmark_self c d e =
      let (w, b) = same_slot c d e in
      ap (λ t. bit t (d % 64)) (written c d _ w)
      ∙ omega (
        arith,
        bit-bit_and (word_at seen c) (bit_not 64 (bit_of c)) (d % 64),
        bit-bit_not 64 (bit_of c) (d % 64) (bit_of-lt c) (omega arith),
        ap (bit (bit_of c)) b,
        bit-two-pow_self (c % 64),
      )

  pub seen_bit-unmark_ne :
      (c d : ℕ) → slot c ≢ slot d → seen_bit (unmark seen c) d ≡ seen_bit seen d
  unfolding unmark
  seen_bit-unmark_ne c d ne = elim (ℕ_discrete (word_of c) (word_of d)) [
    | no other ↦ ap (λ t. bit t (d % 64)) (kept c d _ other)
    | yes w ↦
        ap (λ t. bit t (d % 64)) (written c d _ w)
        ∙ omega (
          arith,
          bit-bit_and (word_at seen c) (bit_not 64 (bit_of c)) (d % 64),
          bit-bit_not 64 (bit_of c) (d % 64) (bit_of-lt c) (omega arith),
          bit-two-pow_ne (c % 64) (d % 64) (λ b. ne (omega arith)),
          ap (λ t. bit t (d % 64)) (same_word c d w),
          bit-lt (word_at seen c) (d % 64),
        )
  ]

-- `test` reads the bit.
pub test-seen_bit : (seen : List ℕ) (c : ℕ) → test seen c ≡ (seen_bit seen c == 1)
unfolding test
test-seen_bit seen c = ground (
  arith,
  bit_and-two-pow (word_at seen c) (c % 64),
  bit-lt (word_at seen c) (c % 64),
  two-pow-pos (c % 64),
)
