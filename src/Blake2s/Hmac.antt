-- ===== src/Blake2s/Hmac.antt =====
-- src/blake2s.cpp: `hmac_blake2s`, `hkdf_extract` and `hkdf_expand`.
use norr.Prelude.{
  ℕ, zero, suc, ◌+◌, ◌-◌, ◌*◌, bit_xor, min, List, [], ◌∷◌, ◌++◌, Option, none, some, ltb,
  if◌then◌else◌, length, take, replicate, map,
}
use norr.Prelude.Bytes.{u8}
use norr.Blake2s.Hash.{
  Blake2s, block_size, maximum_digest_size, copy_to, update, start, finish, hash,
}

unfoldable pub padded_key : List ℕ → List ℕ
unfolding hash copy_to
padded_key key =
    copy_to (replicate block_size 0) 0 (if ltb block_size (length key) then hash key [] else key)

-- `hkdf_expand` pads its key by the same statements, written out again in each round.
unfoldable pub expand_key : List ℕ → List ℕ
unfolding hash copy_to
expand_key key =
    copy_to (replicate block_size 0) 0 (if ltb block_size (length key) then hash key [] else key)

-- Several calls of `update`.
unfoldable pub update_all : Blake2s → List (List ℕ) → Blake2s
unfolding update
update_all s [] = s
update_all s (part ∷ parts) = update_all (update s part) parts

-- The digest of a pad and what follows it.
unfoldable pub padded_hash : List ℕ → ℕ → List (List ℕ) → List ℕ
unfolding update start update_all finish
padded_hash padded pad parts =
    let first = update (start maximum_digest_size []) (map (λ b. bit_xor b pad) padded) in
    (finish (update_all first parts) maximum_digest_size).0

unfoldable pub hmac_blake2s : List ℕ → List ℕ → List ℕ
unfolding padded_key padded_hash
hmac_blake2s key message =
    let padded = padded_key key in
    padded_hash padded 0x5C (padded_hash padded 0x36 (message ∷ []) ∷ [])

unfoldable pub hkdf_extract : List ℕ → List ℕ → List ℕ
hkdf_extract salt input = hmac_blake2s salt input

-- The rounds of `hkdf_expand`: the bytes still wanted, `previous` and `counter`. A round gives 32
-- bytes or the rest, so as many rounds as there are bytes are enough.
unfoldable pub hkdf_loop : ℕ → List ℕ → List ℕ → ℕ → List ℕ → ℕ → List ℕ
unfolding expand_key padded_hash
hkdf_loop zero key info wanted previous counter = []
hkdf_loop (suc fuel) key info zero previous counter = []
hkdf_loop (suc fuel) key info (suc wanted) previous counter =
    let padded = expand_key key in
    let tail = info ∷ (counter ∷ []) ∷ [] in
    let inner = padded_hash padded 0x36 (if ltb 1 counter then previous ∷ tail else tail) in
    let next = padded_hash padded 0x5C (inner ∷ []) in
    let count = min maximum_digest_size (suc wanted) in
    take count next ++ hkdf_loop fuel key info (suc wanted - count) next (u8 (counter + 1))

-- `none` when the code returns false, more than 255 digests being asked for.
unfoldable pub hkdf_expand : List ℕ → List ℕ → ℕ → Option (List ℕ)
unfolding hkdf_loop
hkdf_expand key info room =
    if ltb (255 * maximum_digest_size) room
    then none
    else some (hkdf_loop room key info room (replicate maximum_digest_size 0) 1)
