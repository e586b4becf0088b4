-- ===== src/Blake2s/Hash.antt =====
-- src/blake2s.cpp, include/norr/blake2s.hpp: `Blake2s`. A word of 32 bits is a number below 2^32.
use norr.Prelude.{
  ℕ, zero, suc, ◌+◌, ◌-◌, ◌*◌, ◌/◌, ◌^◌, bit_or, bit_xor, min, Bool, true, false, List, [], ◌∷◌,
  ◌++◌, ltb, ◌==◌, if◌then◌else◌, length, get_or, set, take, drop, replicate,
}
use norr.Prelude.Bytes.{u8, u32, u64, byte_at}

abbrev pub block_size : ℕ
block_size = 64

abbrev pub maximum_digest_size : ℕ
maximum_digest_size = 32

abbrev pub maximum_key_size : ℕ
maximum_key_size = 32

abbrev pub initialisation_vector : List ℕ
initialisation_vector =
    0x6A09E667 ∷ 0xBB67AE85 ∷ 0x3C6EF372 ∷ 0xA54FF53A ∷ 0x510E527F ∷ 0x9B05688C ∷ 0x1F83D9AB
    ∷ 0x5BE0CD19 ∷ []

abbrev pub sigma : List (List ℕ)
sigma =
    (0 ∷ 1 ∷ 2 ∷ 3 ∷ 4 ∷ 5 ∷ 6 ∷ 7 ∷ 8 ∷ 9 ∷ 10 ∷ 11 ∷ 12 ∷ 13 ∷ 14 ∷ 15 ∷ [])
    ∷ (14 ∷ 10 ∷ 4 ∷ 8 ∷ 9 ∷ 15 ∷ 13 ∷ 6 ∷ 1 ∷ 12 ∷ 0 ∷ 2 ∷ 11 ∷ 7 ∷ 5 ∷ 3 ∷ [])
    ∷ (11 ∷ 8 ∷ 12 ∷ 0 ∷ 5 ∷ 2 ∷ 15 ∷ 13 ∷ 10 ∷ 14 ∷ 3 ∷ 6 ∷ 7 ∷ 1 ∷ 9 ∷ 4 ∷ [])
    ∷ (7 ∷ 9 ∷ 3 ∷ 1 ∷ 13 ∷ 12 ∷ 11 ∷ 14 ∷ 2 ∷ 6 ∷ 5 ∷ 10 ∷ 4 ∷ 0 ∷ 15 ∷ 8 ∷ [])
    ∷ (9 ∷ 0 ∷ 5 ∷ 7 ∷ 2 ∷ 4 ∷ 10 ∷ 15 ∷ 14 ∷ 1 ∷ 11 ∷ 12 ∷ 6 ∷ 8 ∷ 3 ∷ 13 ∷ [])
    ∷ (2 ∷ 12 ∷ 6 ∷ 10 ∷ 0 ∷ 11 ∷ 8 ∷ 3 ∷ 4 ∷ 13 ∷ 7 ∷ 5 ∷ 15 ∷ 14 ∷ 1 ∷ 9 ∷ [])
    ∷ (12 ∷ 5 ∷ 1 ∷ 15 ∷ 14 ∷ 13 ∷ 4 ∷ 10 ∷ 0 ∷ 7 ∷ 6 ∷ 3 ∷ 9 ∷ 2 ∷ 8 ∷ 11 ∷ [])
    ∷ (13 ∷ 11 ∷ 7 ∷ 14 ∷ 12 ∷ 1 ∷ 3 ∷ 9 ∷ 5 ∷ 0 ∷ 15 ∷ 4 ∷ 8 ∷ 6 ∷ 2 ∷ 10 ∷ [])
    ∷ (6 ∷ 15 ∷ 14 ∷ 9 ∷ 11 ∷ 3 ∷ 0 ∷ 8 ∷ 12 ∷ 2 ∷ 13 ∷ 7 ∷ 1 ∷ 4 ∷ 10 ∷ 5 ∷ [])
    ∷ (10 ∷ 2 ∷ 8 ∷ 4 ∷ 7 ∷ 6 ∷ 1 ∷ 5 ∷ 15 ∷ 11 ∷ 9 ∷ 14 ∷ 3 ∷ 12 ∷ 13 ∷ 0 ∷ [])
    ∷ []

pub record Blake2s : Type 0 where
  pub state : List ℕ
  pub buffer : List ℕ
  pub buffered : ℕ
  pub counter : ℕ
  pub digest_size : ℕ
  pub finished : Bool

unfoldable pub rotate_right : ℕ → ℕ → ℕ
rotate_right value bits = bit_or (value / 2 ^ bits) (u32 (value * 2 ^ (32 - bits)))

unfoldable pub load_le32 : List ℕ → ℕ → ℕ
load_le32 bytes offset =
    bit_or
      (bit_or (bit_or (byte_at bytes offset) (byte_at bytes (offset + 1) * 2 ^ 8))
        (byte_at bytes (offset + 2) * 2 ^ 16))
      (byte_at bytes (offset + 3) * 2 ^ 24)

-- The four bytes that `store_le32` writes.
abbrev pub store_le32 : ℕ → List ℕ
store_le32 value = u8 value ∷ u8 (value / 2 ^ 8) ∷ u8 (value / 2 ^ 16) ∷ u8 (value / 2 ^ 24) ∷ []

abbrev word : List ℕ → ℕ → ℕ
word v index = get_or v index 0

unfoldable pub mix : List ℕ → ℕ → ℕ → ℕ → ℕ → ℕ → ℕ → List ℕ
unfolding rotate_right
mix v a b c d x y =
    let a1 = u32 (word v a + word v b + x) in
    let d1 = rotate_right (bit_xor (word v d) a1) 16 in
    let c1 = u32 (word v c + d1) in
    let b1 = rotate_right (bit_xor (word v b) c1) 12 in
    let a2 = u32 (a1 + b1 + y) in
    let d2 = rotate_right (bit_xor d1 a2) 8 in
    let c2 = u32 (c1 + d2) in
    let b2 = rotate_right (bit_xor b1 c2) 7 in set (set (set (set v a a2) d d2) c c2) b b2

-- A round, by the row `s` of `sigma`.
unfoldable pub mix_round : List ℕ → List ℕ → List ℕ → List ℕ
unfolding mix
mix_round s message v =
    let m : ℕ → ℕ = λ index. word message (word s index) in
    let v0 = mix v 0 4 8 12 (m 0) (m 1) in
    let v1 = mix v0 1 5 9 13 (m 2) (m 3) in
    let v2 = mix v1 2 6 10 14 (m 4) (m 5) in
    let v3 = mix v2 3 7 11 15 (m 6) (m 7) in
    let v4 = mix v3 0 5 10 15 (m 8) (m 9) in
    let v5 = mix v4 1 6 11 12 (m 10) (m 11) in
    let v6 = mix v5 2 7 8 13 (m 12) (m 13) in mix v6 3 4 9 14 (m 14) (m 15)

unfoldable pub mix_rounds : List (List ℕ) → List ℕ → List ℕ → List ℕ
mix_rounds [] message v = v
mix_rounds (s ∷ rounds) message v = mix_rounds rounds message (mix_round s message v)

-- `message[index] = load_le32(buffer + index * 4)`
unfoldable pub load_words : ℕ → ℕ → List ℕ → List ℕ
load_words zero index buffer = []
load_words (suc left) index buffer =
    load_le32 buffer (index * 4) ∷ load_words left (index + 1) buffer

-- `state[index] ^= v[index] ^ v[index + 8]`
unfoldable pub fold_words : ℕ → ℕ → List ℕ → List ℕ → List ℕ
fold_words zero index v state = state
fold_words (suc left) index v state =
    fold_words left (index + 1) v
      (set state index (bit_xor (word state index) (bit_xor (word v index) (word v (index + 8)))))

-- The words `v` before the first round.
unfoldable pub work_words : Bool → List ℕ → ℕ → List ℕ
work_words last state counter =
    let v = state ++ initialisation_vector in
    let v1 = set v 12 (bit_xor (word v 12) (u32 counter)) in
    let v2 = set v1 13 (bit_xor (word v1 13) (u32 (counter / 2 ^ 32))) in
    if last then set v2 14 (2 ^ 32 - 1 - word v2 14) else v2

-- `compress` of the state's words, the buffer and the counter.
unfoldable pub compressed : Bool → List ℕ → List ℕ → ℕ → List ℕ
unfolding fold_words mix_rounds mix_round load_words load_le32 work_words
compressed last state buffer counter =
    fold_words 8 0 (mix_rounds sigma (load_words 16 0 buffer) (work_words last state counter)) state

unfoldable pub compress : Bool → Blake2s → Blake2s
unfolding compressed
compress last s = record s { state = compressed last s.state s.buffer s.counter }

-- `std::copy` of bytes into a buffer, from an offset on.
unfoldable pub copy_to : List ℕ → ℕ → List ℕ → List ℕ
copy_to buffer offset [] = buffer
copy_to buffer offset (b ∷ bytes) = copy_to (set buffer offset b) (offset + 1) bytes

-- A full buffer is compressed.
unfoldable pub flush : Blake2s → Blake2s
unfolding compress
flush s =
    if s.buffered == block_size
    then record (compress false (record s { counter = u64 (s.counter + block_size) })) {
      buffered = 0;
    }
    else s

-- What is left of the input after a round goes to the next; every round takes a byte, so as many
-- rounds as the input has bytes are enough.
unfoldable pub update_loop : ℕ → List ℕ → Blake2s → Blake2s
unfolding flush copy_to
update_loop zero input s = s
update_loop (suc fuel) [] s = s
update_loop (suc fuel) (b ∷ input) s =
    let flushed = flush s in
    let room = block_size - flushed.buffered in
    let count = min room (length (b ∷ input)) in
    update_loop fuel (drop count (b ∷ input)) (record flushed {
      buffer = copy_to flushed.buffer flushed.buffered (take count (b ∷ input));
      buffered = flushed.buffered + count;
    })

unfoldable pub update : Blake2s → List ℕ → Blake2s
unfolding update_loop
update s input = if s.finished then s else update_loop (length input) input s

-- The words and the sizes that the constructor sets.
unfoldable pub fresh : ℕ → ℕ → Blake2s
fresh digest_size key_length =
    let size =
      if ltb digest_size 1
      then 1
      else if ltb maximum_digest_size digest_size
      then maximum_digest_size
      else digest_size in
    record {
      state = set initialisation_vector 0 (
          bit_xor (word initialisation_vector 0)
            (bit_or (bit_or 0x01010000 (key_length * 2 ^ 8)) size));
      buffer = replicate block_size 0;
      buffered = 0;
      counter = 0;
      digest_size = size;
      finished = false;
    }

-- A key fills the first block.
unfoldable pub key_block : List ℕ → List ℕ
unfolding copy_to
key_block key = copy_to (replicate block_size 0) 0 key

-- The constructor.
unfoldable pub start : ℕ → List ℕ → Blake2s
unfolding fresh key_block update
start digest_size key =
    let key_length = min (length key) maximum_key_size in
    if ltb 0 key_length
    then update (fresh digest_size key_length) (key_block (take key_length key))
    else fresh digest_size key_length

-- The bytes of `state`, from the word at `index` on.
unfoldable pub store_words : ℕ → ℕ → List ℕ → List ℕ
store_words zero index state = []
store_words (suc left) index state =
    store_le32 (word state index) ++ store_words left (index + 1) state

-- The state after `finish`: zeros fill the buffer up, and it is compressed as the last block.
unfoldable pub completed : Blake2s → Blake2s
unfolding compress
completed s = compress true (record s {
  finished = true;
  counter = u64 (s.counter + s.buffered);
  buffer = take s.buffered s.buffer ++ replicate (block_size - s.buffered) 0;
})

-- `finish` into a buffer of `room` bytes: the bytes it writes, and the state after it.
unfoldable pub finish : Blake2s → ℕ → List ℕ × Blake2s
unfolding completed store_words
finish s room =
    if s.finished
    then ([], s)
    else (take (min room s.digest_size) (store_words 8 0 (completed s).state), completed s)

unfoldable pub hash : List ℕ → List ℕ → List ℕ
unfolding finish update start
hash input key = (finish (update (start maximum_digest_size key) input) maximum_digest_size).0
