-- ===== src/Blake2s/Rfc.antt =====
-- RFC 7693, sections 2 and 3, at the parameters of BLAKE2s. Words are indexed from 0, and a word of 32
-- bits is a number below 2^32.
use norr.Prelude.{
  ℕ, zero, suc, ◌+◌, ◌-◌, ◌*◌, ◌/◌, ◌%◌, ◌^◌, bit_xor, Bool, true, false, List, [], ◌∷◌, ◌++◌, ◌==◌,
  if◌then◌else◌, length, get_or, take, drop, replicate, ltb,
}

abbrev pub Words : Type 0
Words = ℕ → ℕ

-- Section 2.3: a word with its bits moved to the right, those that leave coming in on the left.
unfoldable pub rotr : ℕ → ℕ → ℕ
rotr x n = x / 2 ^ n + x % 2 ^ n * 2 ^ (32 - n)

-- Section 2.4: the words of little-endian bytes, and the bytes of a word.
unfoldable pub little_word : List ℕ → Words
little_word bytes i =
    get_or bytes (i * 4) 0
    + 256 * get_or bytes (i * 4 + 1) 0
    + 65536 * get_or bytes (i * 4 + 2) 0
    + 16777216 * get_or bytes (i * 4 + 3) 0

abbrev pub bytes_of : ℕ → List ℕ
bytes_of x = x % 256 ∷ x / 256 % 256 ∷ x / 65536 % 256 ∷ x / 16777216 % 256 ∷ []

-- Section 2.6.
abbrev pub iv : List ℕ
iv =
    0x6A09E667 ∷ 0xBB67AE85 ∷ 0x3C6EF372 ∷ 0xA54FF53A ∷ 0x510E527F ∷ 0x9B05688C ∷ 0x1F83D9AB
    ∷ 0x5BE0CD19 ∷ []

-- Section 2.7: the message word that stands at each place of a round, a hexadecimal digit for each.
abbrev pub permutations : List ℕ
permutations =
    0x0123456789ABCDEF ∷ 0xEA489FD61C02B753 ∷ 0xB8C052FDAE367194 ∷ 0x7931DCBE265A40F8
    ∷ 0x905724AFE1BC683D ∷ 0x2C6A0B834D75FE19 ∷ 0xC51FED4A0763928B ∷ 0xDB7EC13950F4862A
    ∷ 0x6FE9B308C2D714A5 ∷ 0xA2847615FB9E3CD0 ∷ []

unfoldable pub place : ℕ → ℕ → ℕ
place round i = get_or permutations round 0 / 16 ^ (15 - i) % 16

unfoldable pub put : Words → ℕ → ℕ → Words
put v i x j = if j == i then x else v j

-- Section 3.1: the mixing function G.
unfoldable pub g : Words → ℕ → ℕ → ℕ → ℕ → ℕ → ℕ → Words
g v a b c d x y =
    let a1 = (v a + v b + x) % 2 ^ 32 in
    let d1 = rotr (bit_xor (v d) a1) 16 in
    let c1 = (v c + d1) % 2 ^ 32 in
    let b1 = rotr (bit_xor (v b) c1) 12 in
    let a2 = (a1 + b1 + y) % 2 ^ 32 in
    let d2 = rotr (bit_xor d1 a2) 8 in
    let c2 = (c1 + d2) % 2 ^ 32 in
    let b2 = rotr (bit_xor b1 c2) 7 in put (put (put (put v a a2) d d2) c c2) b b2

-- A round: columns, then diagonals.
unfoldable pub round_of : ℕ → Words → Words → Words
unfolding g
round_of r m v =
    let v0 = g v 0 4 8 12 (m (place r 0)) (m (place r 1)) in
    let v1 = g v0 1 5 9 13 (m (place r 2)) (m (place r 3)) in
    let v2 = g v1 2 6 10 14 (m (place r 4)) (m (place r 5)) in
    let v3 = g v2 3 7 11 15 (m (place r 6)) (m (place r 7)) in
    let v4 = g v3 0 5 10 15 (m (place r 8)) (m (place r 9)) in
    let v5 = g v4 1 6 11 12 (m (place r 10)) (m (place r 11)) in
    let v6 = g v5 2 7 8 13 (m (place r 12)) (m (place r 13)) in
    g v6 3 4 9 14 (m (place r 14)) (m (place r 15))

unfoldable pub rounds_from : ℕ → ℕ → Words → Words → Words
rounds_from zero r m v = v
rounds_from (suc left) r m v = rounds_from left (r + 1) m (round_of r m v)

-- Section 3.2: the words before the rounds; `t` is the number of bytes so far.
unfoldable pub first_words : List ℕ → ℕ → Bool → Words
unfolding put
first_words h t last =
    let v : Words = λ i. get_or (h ++ iv) i 0 in
    let v1 = put v 12 (bit_xor (v 12) (t % 2 ^ 32)) in
    let v2 = put v1 13 (bit_xor (v1 13) (t / 2 ^ 32 % 2 ^ 32)) in
    if last then put v2 14 (bit_xor (v2 14) 0xFFFFFFFF) else v2

abbrev pub along : ℕ → ℕ → Words → List ℕ
along zero i f = []
along (suc left) i f = f i ∷ along left (i + 1) f

-- The compression function F.
unfoldable pub f : List ℕ → List ℕ → ℕ → Bool → List ℕ
unfolding rounds_from round_of first_words
f h block t last =
    let v = rounds_from 10 0 (little_word block) (first_words h t last) in
    along 8 0 (λ i. bit_xor (bit_xor (get_or h i 0) (v i)) (v (i + 8)))

-- Section 3.3: the state at the start, for a digest of nn bytes and a key of kk bytes.
unfoldable pub first_state : ℕ → ℕ → List ℕ
first_state nn kk = along 8 0 (
    put (λ i. get_or iv i 0) 0
      (bit_xor (bit_xor (bit_xor (get_or iv 0 0) 0x01010000) (kk * 2 ^ 8)) nn))

-- The state after the full blocks and the last one, which zeros fill up.
unfoldable pub after_blocks : List (List ℕ) → List ℕ → List ℕ → ℕ → List ℕ
unfolding f
after_blocks [] last h t = f h (last ++ replicate (64 - length last) 0) (t + length last) true
after_blocks (block ∷ blocks) last h t =
    after_blocks blocks last (f h block (t + 64) false) (t + 64)

-- The key's block, filled up with zeros, comes before the input.
abbrev pub data_of : List ℕ → List ℕ → List ℕ
data_of [] input = input
data_of (k ∷ key) input = ((k ∷ key) ++ replicate (64 - length (k ∷ key)) 0) ++ input

-- Data in full blocks and a last one, which is empty only when there are no data; as many cuts as
-- there are bytes are enough.
unfoldable pub cut : ℕ → List ℕ → List (List ℕ) × List ℕ
cut zero data' = ([], data')
cut (suc left) data' =
    let rest = cut left (drop 64 data') in
    if ltb 64 (length data') then (take 64 data' ∷ rest.0, rest.1) else ([], data')

unfoldable pub output : ℕ → List ℕ → List ℕ
output zero h = []
output (suc left) [] = []
output (suc left) (x ∷ h) = bytes_of x ++ output left h

-- The digest of nn bytes of an input, under a key or none.
unfoldable pub blake2s : ℕ → List ℕ → List ℕ → List ℕ
unfolding first_state after_blocks output cut
blake2s nn key input =
    let blocks = cut (length (data_of key input)) (data_of key input) in
    take nn (output 8 (after_blocks blocks.0 blocks.1 (first_state nn (length key)) 0))
