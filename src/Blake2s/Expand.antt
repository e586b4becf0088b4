-- ===== src/Blake2s/Expand.antt =====
-- src/blake2s.cpp: `hkdf_expand` gives the bytes of RFC 5869.
use norr.Prelude.{
  ℕ, zero, suc, ◌+◌, ◌-◌, ◌*◌, ◌≤◌, min, ◌≡◌, refl, sym, ap, ap₂, ◌∙◌, false, inl, inr, List, [],
  ◌∷◌, ◌++◌, map, bit_xor, arith, none, some, ltb, if◌then◌else◌, Bool-cases, ltb→lt, lt→ltb,
  le→ltb, take-nil, length, take, replicate, length-take,
}
use mathlib.Core.List.{append-nil}
use norr.Prelude.Bytes.{u8}
use norr.Blake2s.Hash.{
  Blake2s, block_size, maximum_digest_size, update, start, finish, fresh, store_words,
}
use norr.Blake2s.Hmac.{
  expand_key, padded_key, update_all, padded_hash, hmac_blake2s, hkdf_loop, hkdf_expand,
}
use norr.Blake2s.Streaming.{
  absorb_all, update-append, update-room, update-finished, update_running, absorb_all-digest_size,
}
use norr.Blake2s.Blocks.{final_words, joined, finish_words}

-- RFC 5869, section 2.3: each block is the code of the one before it, the info and its number.
unfoldable pub expanded : ℕ → List ℕ → List ℕ → List ℕ → ℕ → List ℕ
expanded zero key info previous counter = []
expanded (suc n) key info previous counter =
    let next = hmac_blake2s key (previous ++ (info ++ counter ∷ [])) in
    next ++ expanded n key info next (counter + 1)

-- A hash that is open for more bytes, with a digest of 32.
record Open (s : Blake2s) : Type 0 where
  room : s.buffered ≤ block_size
  going : s.finished ≡ false
  sized : s.digest_size ≡ maximum_digest_size

Open-start : Open (start maximum_digest_size [])
unfolding start fresh
Open-start = record { room = omega arith; going = refl; sized = refl }

Open-update : (s : Blake2s) (input : List ℕ) → Open s → Open (update s input)
Open-update s input o = record {
  room = update-room s input o.room;
  going = update-finished s input o.room o.going;
  sized =
      ap (λ (t : Blake2s). t.digest_size) (update_running s input o.room o.going)
      ∙ absorb_all-digest_size input s
      ∙ o.sized;
}

update_nothing : (s : Blake2s) → Open s → update s [] ≡ s
unfolding absorb_all
update_nothing s o = update_running s [] o.room o.going

update_all-joined :
    (parts : List (List ℕ)) (s : Blake2s) → Open s → update_all s parts ≡ update s (joined parts [])
unfolding update_all joined
update_all-joined [] s o = sym (update_nothing s o)
update_all-joined (part ∷ parts) s o =
    update_all-joined parts (update s part) (Open-update s part o)
    ∙ update-append s part (joined parts []) o.room

-- It does not matter into how many parts the message is cut.
padded_hash-joined :
    (padded : List ℕ) (pad : ℕ) (parts : List (List ℕ)) (message : List ℕ)
    → joined parts [] ≡ joined (message ∷ []) []
    → padded_hash padded pad parts ≡ padded_hash padded pad (message ∷ [])
unfolding padded_hash
padded_hash-joined padded pad parts message e =
    let s = update (start maximum_digest_size []) (map (λ b. bit_xor b pad) padded) in
    let o =
      Open-update (start maximum_digest_size []) (map (λ b. bit_xor b pad) padded) Open-start in
    ap (λ t. (finish t maximum_digest_size).0)
      (update_all-joined parts s o ∙ ap (update s) e ∙ sym (update_all-joined (message ∷ []) s o))

length-store_words : (state : List ℕ) → length (store_words 8 0 state) ≡ 32
unfolding store_words
length-store_words state = refl

length-finish : (s : Blake2s) → Open s → length (finish s maximum_digest_size).0 ≡ 32
length-finish s o =
    let words = store_words 8 0 (final_words s) in
    ap (λ t. length t) (finish_words s maximum_digest_size o.going)
    ∙ omega (
      arith,
      length-take (min maximum_digest_size s.digest_size) words,
      o.sized,
      length-store_words (final_words s),
    )

length-hmac_blake2s : (key message : List ℕ) → length (hmac_blake2s key message) ≡ 32
unfolding hmac_blake2s padded_hash
length-hmac_blake2s key message =
    let padded = padded_key key in
    let s = update (start maximum_digest_size []) (map (λ b. bit_xor b 0x5C) padded) in
    let o =
      Open-update (start maximum_digest_size []) (map (λ b. bit_xor b 0x5C) padded) Open-start in
    let inner = padded_hash padded 0x36 (message ∷ []) in
    ap (λ t. length (finish t maximum_digest_size).0) (update_all-joined (inner ∷ []) s o)
    ∙ length-finish (update s (joined (inner ∷ []) [])) (Open-update s (joined (inner ∷ []) []) o)

take-over :
    (n : ℕ) (t r : List ℕ)
    → take n (t ++ r) ≡ take (min (length t) n) t ++ take (n - min (length t) n) r
take-over n [] r =
    let e : n ≡ n - min (length {A = ℕ} []) n = omega arith in
    ap (λ k. take k r) e
    ∙ ap (λ l. l ++ take (n - min (length {A = ℕ} []) n) r)
        (sym (take-nil (min (length {A = ℕ} []) n)))
take-over zero (x ∷ t) r =
    let short : min (suc (length t)) 0 ≡ 0 = omega arith in
    let none' : 0 - min (suc (length t)) 0 ≡ 0 = omega arith in
    sym (ap₂ (λ a b. take a (x ∷ t) ++ take b r) short none')
take-over (suc n) (x ∷ t) r =
    let short : min (suc (length t)) (suc n) ≡ suc (min (length t) n) = omega arith in
    let left : suc n - min (suc (length t)) (suc n) ≡ n - min (length t) n = omega arith in
    ap (λ l. x ∷ l) (take-over n t r) ∙ sym (ap₂ (λ a b. take a (x ∷ t) ++ take b r) short left)

-- The counters of the code and the RFC, and the blocks that they are hashed with, agree as long as
-- more bytes are wanted.
data Agrees (wanted counter number : ℕ) (previous block : List ℕ) : Type 0 where
  done : wanted ≡ 0 → Agrees wanted counter number previous block
  first :
      counter ≡ 1
      → number ≡ 1
      → block ≡ []
      → number * 32 + wanted ≤ 8192
      → Agrees wanted counter number previous block
  later :
      counter ≡ number
      → 2 ≤ number
      → block ≡ previous
      → number * 32 + wanted ≤ 8192
      → Agrees wanted counter number previous block

-- What the code hashes in a round is what the RFC hashes.
parts_of :
    (wanted counter number : ℕ) (previous block info : List ℕ)
    → 1 ≤ wanted
    → Agrees wanted counter number previous block
    → joined
        (if ltb 1 counter
          then previous ∷ info ∷ (counter ∷ []) ∷ []
          else info ∷ (counter ∷ []) ∷ [])
        []
      ≡ joined ((block ++ (info ++ number ∷ [])) ∷ []) []
unfolding joined
parts_of wanted counter number previous block info some' (done e) = absurd (omega arith)
parts_of wanted counter number previous block info some' (first c n e h) =
    ap
      (λ b.
        joined (if b then previous ∷ info ∷ (counter ∷ []) ∷ [] else info ∷ (counter ∷ []) ∷ []) [])
      (le→ltb 1 counter (omega (arith, c)))
    ∙ ap (λ k. info ++ (k ∷ [])) (c ∙ sym n)
    ∙ ap (λ l. l ++ (info ++ (number ∷ []))) (sym e)
    ∙ sym (append-nil _)
parts_of wanted counter number previous block info some' (later c n e h) =
    ap
      (λ b.
        joined (if b then previous ∷ info ∷ (counter ∷ []) ∷ [] else info ∷ (counter ∷ []) ∷ []) [])
      (lt→ltb 1 counter (omega (arith, c, n)))
    ∙ ap₂ (λ l k. l ++ (info ++ (k ∷ []))) (sym e) c
    ∙ sym (append-nil _)

agrees_next :
    (wanted counter number : ℕ) (previous block next : List ℕ)
    → Agrees (suc wanted) counter number previous block
    → Agrees (suc wanted - min 32 (suc wanted)) (u8 (counter + 1)) (number + 1) next next
agrees_next wanted counter number previous block next (done e) = absurd (omega (arith, e))
agrees_next wanted counter number previous block next (first c n e h) =
    elim (Bool-cases (ltb 32 (suc wanted))) [
      | inl p ↦
          let more = ltb→lt 32 (suc wanted) p in
          later (omega (arith, c, n)) (omega arith) refl (omega (arith, h, more))
      | inr p ↦ done (ground arith)
    ]
agrees_next wanted counter number previous block next (later c n e h) =
    elim (Bool-cases (ltb 32 (suc wanted))) [
      | inl p ↦
          let more = ltb→lt 32 (suc wanted) p in
          later (omega (arith, c, h, more)) (omega (arith, n)) refl (omega (arith, h, more))
      | inr p ↦ done (ground arith)
    ]

expand_key-padded_key : (key : List ℕ) → expand_key key ≡ padded_key key
unfolding expand_key padded_key
expand_key-padded_key key = refl

-- A round's two hashes are the code of its message, in however many parts that comes.
hmac_of_parts :
    (key message : List ℕ) (parts : List (List ℕ))
    → joined parts [] ≡ joined (message ∷ []) []
    → padded_hash (expand_key key) 0x5C (padded_hash (expand_key key) 0x36 parts ∷ [])
      ≡ hmac_blake2s key message
unfolding hmac_blake2s
hmac_of_parts key message parts e =
    ap (λ p. padded_hash p 0x5C (padded_hash p 0x36 parts ∷ [])) (expand_key-padded_key key)
    ∙ ap (λ inner. padded_hash (padded_key key) 0x5C (inner ∷ []))
        (padded_hash-joined (padded_key key) 0x36 parts message e)

hkdf_loop-none :
    (fuel counter : ℕ) (key info previous : List ℕ)
    → hkdf_loop fuel key info 0 previous counter ≡ []
unfolding hkdf_loop
hkdf_loop-none zero counter key info previous = refl
hkdf_loop-none (suc fuel) counter key info previous = refl

hkdf_loop-expanded :
    (fuel wanted n counter number : ℕ) (key info previous block : List ℕ)
    → wanted ≤ fuel
    → wanted ≤ n * 32
    → Agrees wanted counter number previous block
    → hkdf_loop fuel key info wanted previous counter
      ≡ take wanted (expanded n key info block number)
unfolding hkdf_loop expanded
hkdf_loop-expanded fuel zero n counter number key info previous block fits blocks h =
    hkdf_loop-none fuel counter key info previous
hkdf_loop-expanded zero (suc wanted) n counter number key info previous block fits blocks h =
    absurd (omega arith)
hkdf_loop-expanded (suc fuel) (suc wanted) zero counter number key info previous block fits blocks
      h =
    absurd (omega arith)
hkdf_loop-expanded (suc fuel) (suc wanted) (suc n) counter number key info previous block fits
      blocks h =
    let next = hmac_blake2s key (block ++ (info ++ number ∷ [])) in
    let rest = expanded n key info next (number + 1) in
    let same =
      hmac_of_parts key (block ++ (info ++ number ∷ [])) _
        (parts_of (suc wanted) counter number previous block info (omega arith) h) in
    let count = min 32 (suc wanted) in
    ap (λ m. take count m ++ hkdf_loop fuel key info (suc wanted - count) m (u8 (counter + 1))) same
    ∙ ap (λ l. take count next ++ l)
        (hkdf_loop-expanded fuel (suc wanted - count) n (u8 (counter + 1)) (number + 1) key info
          next next (omega arith) (omega arith)
          (agrees_next wanted counter number previous block next h))
    ∙ ap (λ m. take (min m (suc wanted)) next ++ take (suc wanted - min m (suc wanted)) rest)
        (sym (length-hmac_blake2s key (block ++ (info ++ number ∷ []))))
    ∙ sym (take-over (suc wanted) next rest)

-- What is expanded is the output of RFC 5869, cut to the size that is asked for, and more than 255
-- digests are refused; n is any number of blocks that is enough for that size.
pub hkdf_expand-expanded :
    (key info : List ℕ) (room n : ℕ)
    → room ≤ n * 32
    → hkdf_expand key info room
      ≡ (if ltb (255 * 32) room then none else some (take room (expanded n key info [] 1)))
unfolding hkdf_expand
hkdf_expand-expanded key info room n enough = elim (Bool-cases (ltb (255 * 32) room)) [
  | inl e ↦ rw e refl
  | inr e ↦
      let within : room ≤ 255 * 32 = ground arith in
      let loops =
        hkdf_loop-expanded room room n 1 1 key info (replicate maximum_digest_size 0) []
          (omega arith) enough (first refl refl refl (omega (arith, within))) in
      rw e (ap (λ l. some l) loops)
]
