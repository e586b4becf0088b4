-- ===== src/Spoof/Receipts.antt =====
-- src/spoof_feedback.cpp: the receipts that a peer sends of the sources it has seen.
-- A position in a payload stands for the bytes from there on.
use norr.Prelude.{
  ℕ, zero, suc, ◌+◌, ◌*◌, ◌/◌, ◌%◌, ◌^◌, min, bit_and, bit_or, Bool, false, not, ◌||◌, List, [],
  ◌∷◌, ◌++◌, leb, ◌==◌, if◌then◌else◌, length, get_or, set, take, drop, replicate,
}
use norr.Prelude.Bytes.{u8, read_be}
use norr.Spoof.Pool.{SpoofPool, source}

abbrev pub spoof_receipt : ℕ
spoof_receipt = 4

abbrev pub spoof_receipt_max_words : ℕ
spoof_receipt_max_words = 16

-- The bitmap with the bit of a received index set.
unfoldable pub mark : ℕ → List ℕ → ℕ → List ℕ
mark pool_size bitmap index =
    if leb pool_size index
    then bitmap
    else set bitmap (index / 64) (bit_or (get_or bitmap (index / 64) 0) (2 ^ (index % 64)))

unfoldable pub mark_all : ℕ → List ℕ → List ℕ → List ℕ
mark_all pool_size [] bitmap = bitmap
mark_all pool_size (index ∷ received) bitmap =
    mark_all pool_size received (mark pool_size bitmap index)

unfoldable pub make_receipt_bitmap : List ℕ → ℕ → List ℕ
make_receipt_bitmap received pool_size =
    mark_all pool_size received (replicate ((pool_size + 63) / 64) 0)

unfoldable pub receipt_bit : List ℕ → ℕ → Bool
receipt_bit bitmap index =
    let word = index / 64 in
    if leb (length bitmap) word
    then false
    else not (bit_and (get_or bitmap word 0 / 2 ^ (index % 64)) 1 == 0)

-- The bytes of a word, most significant first.
unfoldable pub push_word : ℕ → ℕ → List ℕ
push_word zero value = []
push_word (suc left) value = u8 (value / 2 ^ (left * 8)) ∷ push_word left value

unfoldable pub push_words : ℕ → List ℕ → List ℕ
unfolding push_word
push_words bytes [] = []
push_words bytes (w ∷ words) = push_word bytes w ++ push_words bytes words

unfoldable pub read_words : ℕ → ℕ → ℕ → List ℕ → List ℕ
read_words width bytes zero body = []
read_words width bytes (suc left) body =
    read_be width bytes body 0 0 ∷ read_words width bytes left (drop bytes body)

unfoldable pub encode_spoof_receipt : List ℕ → List ℕ
unfolding push_words
encode_spoof_receipt bitmap =
    spoof_receipt ∷ push_words 8 (take (min (length bitmap) spoof_receipt_max_words) bitmap)

unfoldable pub decode_spoof_receipt : List ℕ → List ℕ
unfolding read_words
decode_spoof_receipt [] = []
decode_spoof_receipt (tag ∷ body) =
    if not (tag == spoof_receipt)
    then []
    else read_words 64 8 (min (length body / 8) spoof_receipt_max_words) body

unfoldable pub encode_source_receipt : List ℕ → List ℕ
unfolding push_words
encode_source_receipt sources_be =
    spoof_receipt
    ∷ push_words 4 (take (min (length sources_be) (spoof_receipt_max_words * 64)) sources_be)

unfoldable pub decode_source_receipt : List ℕ → List ℕ
unfolding read_words
decode_source_receipt [] = []
decode_source_receipt (tag ∷ body) =
    if not (tag == spoof_receipt)
    then []
    else read_words 32 4 (min (length body / 4) (spoof_receipt_max_words * 64)) body

unfoldable pub seen : List ℕ → ℕ → Bool
seen [] source_be = false
seen (s ∷ sources) source_be = s == source_be || seen sources source_be

-- `SpoofReceiptTracker::observe` and `drain_receipt`, on the list `seen_`.
unfoldable pub observe : List ℕ → ℕ → List ℕ
unfolding seen
observe sources source_be =
    if source_be == 0
      || leb (spoof_receipt_max_words * 64) (length sources)
      || seen sources source_be
    then sources
    else sources ++ source_be ∷ []

unfoldable pub drain_receipt : List ℕ → List ℕ × List ℕ
drain_receipt sources = ([], encode_source_receipt sources)

-- The first index, of those left, whose source is the address.
unfoldable pub index_of : SpoofPool → ℕ → ℕ → ℕ → List ℕ
index_of pool ip index zero = []
index_of pool ip index (suc left) =
    let rest = index_of pool ip (index + 1) left in
    if source pool index == ip then index ∷ [] else rest

unfoldable pub indices_of : SpoofPool → List ℕ → List ℕ
unfolding index_of
indices_of pool [] = []
indices_of pool (ip ∷ sources) = index_of pool ip 0 (length pool.entries) ++ indices_of pool sources

unfoldable pub receipt_bitmap_for_pool : List ℕ → SpoofPool → List ℕ
unfolding indices_of
receipt_bitmap_for_pool sources_be pool =
    make_receipt_bitmap (indices_of pool sources_be) (length pool.entries)
