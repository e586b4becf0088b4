-- ===== src/Blake2s/Blocks.antt =====
-- src/blake2s.cpp: the hash is a chain of compressions over the blocks of the key and the message.
use norr.Prelude.{
  ℕ, suc, ◌+◌, ◌-◌, ◌≤◌, ◌≡◌, ◌⊎◌, refl, sym, ap, ◌∙◌, true, false, inl, inr, List, [], ◌∷◌, ◌++◌,
  arith, Bool, ltb, if◌then◌else◌, length, set, take, replicate, All, length-append, length-set,
  take-all, min,
}
use norr.Prelude.Bytes.{u64}
use norr.Blake2s.Hash.{
  Blake2s, block_size, maximum_digest_size, maximum_key_size, compressed, compress, copy_to, flush,
  update, fresh, key_block, start, store_words, completed, finish,
}
use norr.Blake2s.Streaming.{
  absorb_all, absorb_all-finished, absorb_all-digest_size, absorb_all-append, absorb_all-chunk,
  absorb_all-flush, update-append, update_running,
}

-- The blocks one after another.
unfoldable pub joined : List (List ℕ) → List ℕ → List ℕ
joined [] last = last
joined (block ∷ blocks) last = block ++ joined blocks last

-- The state's words after full blocks and a last one, which zeros fill up; the counter says how many
-- bytes were taken.
unfoldable pub chained : List (List ℕ) → List ℕ → List ℕ → ℕ → List ℕ
chained [] last state counter =
    compressed true state (last ++ replicate (block_size - length last) 0)
      (u64 (counter + length last))
chained (block ∷ blocks) last state counter =
    let next = u64 (counter + block_size) in
    chained blocks last (compressed false state block next) next

length-copy_to : (bytes buffer : List ℕ) (o : ℕ) → length (copy_to buffer o bytes) ≡ length buffer
unfolding copy_to
length-copy_to [] buffer o = refl
length-copy_to (b ∷ bytes) buffer o =
    length-copy_to bytes (set buffer o b) (o + 1) ∙ length-set buffer o b

-- Past its first byte, a buffer is copied to like one that lacks it.
pub copy_to_after :
    (bytes buffer : List ℕ) (x o : ℕ)
    → copy_to (x ∷ buffer) (suc o) bytes ≡ x ∷ copy_to buffer o bytes
unfolding copy_to
copy_to_after [] buffer x o = refl
copy_to_after (b ∷ bytes) buffer x o =
    ap (λ n. copy_to (x ∷ set buffer o b) n bytes) (omega arith)
    ∙ copy_to_after bytes (set buffer o b) x (o + 1)

-- What is copied to the front of a buffer stands there.
take-copy_to :
    (bytes buffer : List ℕ)
    → length bytes ≤ length buffer
    → take (length bytes) (copy_to buffer 0 bytes) ≡ bytes
unfolding copy_to
take-copy_to [] buffer h = refl
take-copy_to (b ∷ bytes) [] h = absurd (omega arith)
take-copy_to (b ∷ bytes) (x ∷ buffer) h =
    ap (take (suc (length bytes))) (copy_to_after bytes buffer b 0)
    ∙ ap (λ l. b ∷ l) (take-copy_to bytes buffer (omega (arith, h)))

-- A state with nothing in its buffer.
abbrev waiting : List ℕ → ℕ → List ℕ → ℕ → Blake2s
waiting state counter buffer size = record {
  state = state;
  buffer = buffer;
  buffered = 0;
  counter = counter;
  digest_size = size;
  finished = false;
}

-- The words that `finish` leaves.
abbrev pub final_words : Blake2s → List ℕ
final_words s =
    compressed true s.state (take s.buffered s.buffer ++ replicate (block_size - s.buffered) 0)
      (u64 (s.counter + s.buffered))

module _ (buffer : List ℕ) (whole : length buffer ≡ block_size) (state : List ℕ) (counter size : ℕ)
    (block : List ℕ) where
  absorb_all-waiting :
      length block ≤ block_size
      → absorb_all block (waiting state counter buffer size)
        ≡ record (waiting state counter (copy_to buffer 0 block) size) { buffered = length block }
  absorb_all-waiting small =
      absorb_all-chunk block (waiting state counter buffer size) (omega arith)
      ∙ ap (λ n. record (waiting state counter (copy_to buffer 0 block) size) { buffered = n })
          (omega arith)

  last_words :
      length block ≤ block_size
      → final_words (absorb_all block (waiting state counter buffer size))
        ≡ chained [] block state counter
  unfolding chained
  last_words small =
      ap final_words (absorb_all-waiting small)
      ∙ ap
          (λ l.
            compressed true state (l ++ replicate (block_size - length block) 0)
              (u64 (counter + length block)))
          (take-copy_to block buffer (omega (arith, whole)))

  copied : length block ≡ block_size → copy_to buffer 0 block ≡ block
  copied full =
      sym (
        take-all (length block) (copy_to buffer 0 block)
          (omega (arith, length-copy_to block buffer 0)))
      ∙ take-copy_to block buffer (omega arith)

  absorb_all-block :
      (rest : List ℕ)
      → length block ≡ block_size
      → 1 ≤ length rest
      → absorb_all (block ++ rest) (waiting state counter buffer size)
        ≡ absorb_all rest (
            waiting
              (compressed false state block (u64 (counter + block_size)))
              (u64 (counter + block_size))
              block
              size)
  unfolding flush compress
  absorb_all-block [] full some' = absurd (omega arith)
  absorb_all-block (b ∷ rest) full some' =
      absorb_all-append block (b ∷ rest) (waiting state counter buffer size)
      ∙ ap (absorb_all (b ∷ rest)) (
          absorb_all-waiting (omega arith)
          ∙ ap (λ l. record (waiting state counter l size) { buffered = length block })
              (copied full)
          ∙ ap (λ n. record (waiting state counter block size) { buffered = n }) full)
      ∙ sym (
          absorb_all-flush b rest
            (record (waiting state counter block size) { buffered = block_size }) (omega arith))

abbrev pub IsBlock : List ℕ → Type 0
IsBlock block = length block ≡ block_size

joined_some :
    (blocks : List (List ℕ)) (last : List ℕ) → 1 ≤ length last → 1 ≤ length (joined blocks last)
unfolding joined
joined_some [] last h = h
joined_some (block ∷ blocks) last h =
    omega (arith, length-append block (joined blocks last), joined_some blocks last h)

words_chained :
    (blocks : List (List ℕ)) (last state buffer : List ℕ) (counter size : ℕ)
    → length buffer ≡ block_size
    → All IsBlock blocks
    → length last ≤ block_size
    → 1 ≤ length last
    → final_words (absorb_all (joined blocks last) (waiting state counter buffer size))
      ≡ chained blocks last state counter
unfolding joined chained
words_chained [] last state buffer counter size whole full small some' =
    last_words buffer whole state counter size last small
words_chained (block ∷ blocks) last state buffer counter size whole full small some' =
    ap final_words (
      absorb_all-block buffer whole state counter size block (joined blocks last) full.0
        (joined_some blocks last some'))
    ∙ words_chained blocks last _ block (u64 (counter + block_size)) size full.0 full.1 small some'

-- What is hashed: a key's block comes before the message.
abbrev pub keyed_message : List ℕ → List ℕ → List ℕ
keyed_message key message =
    let key_length = min (length key) maximum_key_size in
    if ltb 0 key_length then key_block (take key_length key) ++ message else message

keyed :
    (f : Bool) (s : Blake2s) (block message : List ℕ)
    → s.buffered ≤ block_size
    → s.finished ≡ false
    → update (if f then update s block else s) message
      ≡ absorb_all (if f then block ++ message else message) s
keyed true s block message h e =
    update-append s block message h ∙ update_running s (block ++ message) h e
keyed false s block message h e = update_running s message h e

update-start :
    (n : ℕ) (key message : List ℕ)
    → update (start n key) message
      ≡ absorb_all (keyed_message key message) (fresh n (min (length key) maximum_key_size))
unfolding start fresh
update-start n key message =
    let key_length = min (length key) maximum_key_size in
    keyed (ltb 0 key_length) (fresh n key_length) (key_block (take key_length key)) message
      (omega arith) refl

completed_words : (s : Blake2s) → (completed s).state ≡ final_words s
unfolding completed compress
completed_words s = refl

fresh_open : (n key_length : ℕ) → (fresh n key_length).finished ≡ false
unfolding fresh
fresh_open n key_length = refl

fresh_size :
    (n key_length : ℕ) → 1 ≤ n → n ≤ maximum_digest_size → (fresh n key_length).digest_size ≡ n
unfolding fresh
fresh_size n key_length low high = ground arith

pub finish_words :
    (s : Blake2s) (room : ℕ)
    → s.finished ≡ false
    → (finish s room).0 ≡ take (min room s.digest_size) (store_words 8 0 (final_words s))
unfolding finish
finish_words s room e =
    ap (λ (r : List ℕ × Blake2s). r.0)
      (ap
        (λ (f : Bool).
          if f
          then ([], s)
          else (take (min room s.digest_size) (store_words 8 0 (completed s).state), completed s))
        e)
    ∙ ap (λ words. take (min room s.digest_size) (store_words 8 0 words)) (completed_words s)

fresh_words :
    (n key_length : ℕ) (blocks : List (List ℕ)) (last : List ℕ)
    → All IsBlock blocks
    → length last ≤ block_size
    → (1 ≤ length last) ⊎ (blocks ≡ [])
    → final_words (absorb_all (joined blocks last) (fresh n key_length))
      ≡ chained blocks last (fresh n key_length).state 0
unfolding fresh joined
fresh_words n key_length [] last full small ending =
    last_words (replicate block_size 0) refl (fresh n key_length).state 0
      (fresh n key_length).digest_size last small
fresh_words n key_length (block ∷ blocks) last full small (inl some') =
    words_chained (block ∷ blocks) last (fresh n key_length).state (replicate block_size 0) 0
      (fresh n key_length).digest_size refl full small some'
fresh_words n key_length (block ∷ blocks) last full small (inr e) =
    absurd (omega (arith, ap length e))

-- The digest of a message under a key, by blocks: of those into which the key's block and the
-- message are cut, all but the last are full, and the last is empty only when there is no other.
pub finish-chained :
    (n : ℕ) (key message last : List ℕ) (blocks : List (List ℕ))
    → 1 ≤ n
    → n ≤ maximum_digest_size
    → keyed_message key message ≡ joined blocks last
    → All IsBlock blocks
    → length last ≤ block_size
    → (1 ≤ length last) ⊎ (blocks ≡ [])
    → (finish (update (start n key) message) n).0
      ≡ take n (
          store_words 8 0
            (chained blocks last (fresh n (min (length key) maximum_key_size)).state 0))
finish-chained n key message last blocks low high cut full small ending =
    let f = fresh n (min (length key) maximum_key_size) in
    let hashed = absorb_all (keyed_message key message) f in
    let open' : f.finished ≡ false = fresh_open n (min (length key) maximum_key_size) in
    ap (λ t. (finish t n).0) (update-start n key message)
    ∙ finish_words hashed n (absorb_all-finished (keyed_message key message) f ∙ open')
    ∙ ap (λ size. take (min n size) (store_words 8 0 (final_words hashed)))
        (absorb_all-digest_size (keyed_message key message) f
          ∙ fresh_size n (min (length key) maximum_key_size) low high)
    ∙ ap (λ count. take count (store_words 8 0 (final_words hashed))) (omega arith)
    ∙ ap (λ words. take n (store_words 8 0 words))
        (ap (λ m. final_words (absorb_all m f)) cut
          ∙ fresh_words n (min (length key) maximum_key_size) blocks last full small ending)
