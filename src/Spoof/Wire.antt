-- ===== src/Spoof/Wire.antt =====
-- src/spoof_feedback.cpp: receipts on the wire, encoded and decoded.
use norr.Prelude.{
  ℕ, zero, suc, ◌+◌, ◌*◌, ◌/◌, ◌^◌, ◌≤◌, ◌<◌, min, ◌≡◌, refl, sym, ap, ap₂, subst, ◌∙◌, List, [],
  ◌∷◌, ◌++◌, length, length-append, length-take, set, take, drop, drop-append, replicate,
  length-replicate, All, All-take, take-all, arith,
}
use mathlib.Core.List.{append_assoc}
use native.Mathlib.Decide.{dec_lt}
use native.Mathlib.Nat.{mod-eq_of_lt}
use norr.Prelude.Bytes.{u8, read_be, write_be, read_be-write_be, span}
use norr.Spoof.Receipts.{
  push_word, push_words, read_words, encode_source_receipt, decode_source_receipt,
  encode_spoof_receipt, decode_spoof_receipt,
}

take-min : (xs : List ℕ) (n : ℕ) → take (min (length xs) n) xs ≡ take n xs
take-min xs n = elim (dec_lt n (length xs)) [
  | yes p ↦ let e : min (length xs) n ≡ n = omega arith in ap (λ t. take t xs) e
  | no p ↦ take-all (min (length xs) n) xs (omega arith) ∙ sym (take-all n xs (omega arith))
]

set_here :
    (before after : List ℕ) (x v : ℕ)
    → set (before ++ x ∷ after) (length before) v ≡ before ++ v ∷ after
set_here [] after x v = refl
set_here (b ∷ before) after x v = ap (◌∷◌ b) (set_here before after x v)

write_be-push_word :
    (n : ℕ) (before rest : List ℕ) (v : ℕ)
    → write_be n (before ++ (replicate n 0 ++ rest)) (length before) v
      ≡ before ++ (push_word n v ++ rest)
unfolding write_be push_word
write_be-push_word zero before rest v = refl
write_be-push_word (suc n) before rest v =
    let b : ℕ = u8 (v / 2 ^ (n * 8)) in
    let one : length before + 1 ≡ length (before ++ b ∷ []) =
      sym (length-append before (b ∷ []) ∙ omega arith) in
    ap (λ t. write_be n t (length before + 1) v)
      (set_here before (replicate n 0 ++ rest) 0 b
        ∙ sym (append_assoc before (b ∷ []) (replicate n 0 ++ rest)))
    ∙ ap (λ t. write_be n ((before ++ b ∷ []) ++ (replicate n 0 ++ rest)) t v) one
    ∙ write_be-push_word n (before ++ b ∷ []) rest v
    ∙ append_assoc before (b ∷ []) (push_word n v ++ rest)

length-push_word : (n v : ℕ) → length (push_word n v) ≡ n
unfolding push_word
length-push_word zero v = refl
length-push_word (suc n) v = ap suc (length-push_word n v)

-- The first word of a body.
first_word :
    (w n v : ℕ) (rest : List ℕ)
    → span n ≤ 2 ^ w
    → v < span n
    → read_be w n (push_word n v ++ rest) 0 0 ≡ v
first_word w n v rest fits small =
    ap (λ t. read_be w n t 0 0) (sym (write_be-push_word n [] rest v))
    ∙ read_be-write_be w n (replicate n 0 ++ rest) 0 v 0
        (omega (arith, length-append (replicate n 0) rest, length-replicate {A = ℕ} n 0))
        (omega arith)
    ∙ omega (arith, mod-eq_of_lt small)

rest_of_body : (n v : ℕ) (rest : List ℕ) → drop n (push_word n v ++ rest) ≡ rest
rest_of_body n v rest =
    subst (λ t. drop t (push_word n v ++ rest) ≡ rest) (length-push_word n v)
      (drop-append (push_word n v) rest)

abbrev Words : ℕ → List ℕ → Type 0
Words n words = All (λ (v : ℕ). v < span n) words

read_words-push_words :
    (w n : ℕ) (words : List ℕ)
    → span n ≤ 2 ^ w
    → Words n words
    → read_words w n (length words) (push_words n words) ≡ words
unfolding read_words push_words
read_words-push_words w n [] fits h = refl
read_words-push_words w n (v ∷ words) fits h =
    ap₂ ◌∷◌ (first_word w n v (push_words n words) fits h.0) (
      ap (read_words w n (length words)) (rest_of_body n v (push_words n words))
      ∙ read_words-push_words w n words fits h.1)

length-push_words : (n : ℕ) (words : List ℕ) → length (push_words n words) ≡ length words * n
unfolding push_words
length-push_words n [] = omega arith
length-push_words n (v ∷ words) = omega (
  arith,
  length-append (push_word n v) (push_words n words),
  length-push_word n v,
  length-push_words n words,
)

-- A receipt of source addresses decodes to the first 1,024 of them.
pub decode_source_receipt-encode_source_receipt :
    (sources_be : List ℕ)
    → All (λ (v : ℕ). v < 2 ^ 32) sources_be
    → decode_source_receipt (encode_source_receipt sources_be) ≡ take 1024 sources_be
unfolding decode_source_receipt encode_source_receipt
decode_source_receipt-encode_source_receipt sources_be h =
    let sent : List ℕ = take (min (length sources_be) 1024) sources_be in
    let all : sent ≡ take 1024 sources_be = take-min sources_be 1024 in
    let count : min (length (push_words 4 sent) / 4) 1024 ≡ length sent =
      omega
        (arith, length-push_words 4 sent, length-take (min (length sources_be) 1024) sources_be) in
    ap (λ t. read_words 32 4 t (push_words 4 sent)) count
    ∙ read_words-push_words 32 4 sent (omega arith)
        (All-take (λ (v : ℕ). v < 2 ^ 32) (min (length sources_be) 1024) sources_be h)
    ∙ all

-- So does a receipt of bitmap words, to the first 16 of them.
pub decode_spoof_receipt-encode_spoof_receipt :
    (bitmap : List ℕ)
    → All (λ (v : ℕ). v < 2 ^ 64) bitmap
    → decode_spoof_receipt (encode_spoof_receipt bitmap) ≡ take 16 bitmap
unfolding decode_spoof_receipt encode_spoof_receipt
decode_spoof_receipt-encode_spoof_receipt bitmap h =
    let sent : List ℕ = take (min (length bitmap) 16) bitmap in
    let count : min (length (push_words 8 sent) / 8) 16 ≡ length sent =
      omega (arith, length-push_words 8 sent, length-take (min (length bitmap) 16) bitmap) in
    ap (λ t. read_words 64 8 t (push_words 8 sent)) count
    ∙ read_words-push_words 64 8 sent (omega arith)
        (All-take (λ (v : ℕ). v < 2 ^ 64) (min (length bitmap) 16) bitmap h)
    ∙ take-min bitmap 16
