-- ===== src/AddressText.antt =====
-- src/address.cpp: addresses and prefixes as text. A character is its number.
pub mod Decimal
pub mod RoundTrip
pub mod Tests
use norr.Prelude.{
  ℕ, zero, suc, ◌+◌, ◌-◌, ◌*◌, ◌/◌, ◌%◌, ◌^◌, bit_and, Bool, true, false, not, ◌&&◌, ◌||◌, List, [],
  ◌∷◌, ◌++◌, ltb, leb, ◌==◌, if◌then◌else◌, length, set, take, drop, replicate, Option, none, some,
  Result, ok, err, fail_if, ◌>>=◌, ◌>>◌,
}
use norr.Prelude.Bytes.{byte_at, u8}
use norr.Wire.{Error, malformed_packet}
use norr.Address.{Address, ipv4, ipv6, Prefix, from_bytes, create, maximum_prefix_length}

-- The value of a character in `std::from_chars`, in base 10 or 16.
unfoldable pub digit_value : ℕ → ℕ → Option ℕ
digit_value base c =
    let value =
      if leb 48 c && leb c 57
      then c - 48
      else if leb 97 c && leb c 102
      then c - 87
      else if leb 65 c && leb c 70
      then c - 55
      else base in
    if ltb value base then some value else none

-- `std::from_chars` over a whole text: none where it stops at another character. The callers bound
-- the length so that the value fits.
unfoldable pub from_chars : ℕ → List ℕ → ℕ → Option ℕ
from_chars base [] value = some value
from_chars base (c ∷ cs) value = elim (digit_value base c) [
  | none ↦ none
  | some digit ↦ from_chars base cs (value * base + digit)
]

abbrev pub or_malformed : Option ℕ → Result Error ℕ
or_malformed none = err malformed_packet
or_malformed (some value) = ok value

unfoldable pub parse_decimal : List ℕ → ℕ → Result Error ℕ
parse_decimal text maximum = do
  fail_if (length text == 0 || ltb 3 (length text)) malformed_packet
  fail_if (ltb 1 (length text) && byte_at text 0 == 48) malformed_packet
  value ← or_malformed (from_chars 10 text 0)
  fail_if (ltb maximum value) malformed_packet
  ok value

-- The text before the first separator, and what follows it, if there is one.
unfoldable pub split_at : ℕ → List ℕ → List ℕ × Option (List ℕ)
split_at sep [] = ([], none)
split_at sep (c ∷ cs) =
    let rest = split_at sep cs in if c == sep then ([], some cs) else (c ∷ rest.0, rest.1)

-- The loop of `parse_ipv4`, with `left` octets to go.
unfoldable pub ipv4_loop : ℕ → ℕ → List ℕ → List ℕ → Result Error (List ℕ)
ipv4_loop zero index text octets = err malformed_packet
ipv4_loop (suc left) index text octets = do
  let (field, rest) = split_at 46 text
  value ← parse_decimal field 255
  elim rest [
    | none ↦ if left == 0 then ok (set octets index value) else err malformed_packet
    | some more ↦ ipv4_loop left (index + 1) more (set octets index value)
  ]

unfoldable pub parse_ipv4 : List ℕ → Result Error Address
parse_ipv4 text = do octets ← ipv4_loop 4 0 text (replicate 16 0); ok (from_bytes ipv4 octets)

unfoldable pub parse_hextet : List ℕ → Result Error ℕ
parse_hextet text = do
  fail_if (length text == 0 || ltb 4 (length text)) malformed_packet
  or_malformed (from_chars 16 text 0)

-- The text before the first "::" and after it, if there is one.
unfoldable pub split_compression : List ℕ → List ℕ × Option (List ℕ)
split_compression [] = ([], none)
split_compression (c ∷ cs) =
    let rest = split_compression cs in
    if c == 58 && byte_at cs 0 == 58 then ([], some (drop 1 cs)) else (c ∷ rest.0, rest.1)

-- The loop of `split`, on fuel; every round but the last passes a colon.
unfoldable pub hextet_loop : ℕ → List ℕ → List ℕ → Result Error (List ℕ)
hextet_loop zero text out = err malformed_packet
hextet_loop (suc fuel) text out = do
  let (field, rest) = split_at 58 text
  fail_if (length out == 8) malformed_packet
  value ← parse_hextet field
  elim rest [
    | none ↦ ok (out ++ (value ∷ []))
    | some more ↦ hextet_loop fuel more (out ++ (value ∷ []))
  ]

unfoldable pub split_hextets : List ℕ → Result Error (List ℕ)
split_hextets [] = ok []
split_hextets (c ∷ cs) = hextet_loop (length (c ∷ cs) + 1) (c ∷ cs) []

unfoldable pub octets_of : List ℕ → List ℕ
octets_of [] = []
octets_of (h ∷ hs) = u8 (h / 2 ^ 8) ∷ bit_and h 0xff ∷ octets_of hs

-- Whether a second "::" begins behind the first character of the one found.
abbrev pub compressed_again : List ℕ → Bool
compressed_again tail_text = elim (split_compression (58 ∷ tail_text)).1 [
  | none ↦ false
  | some more ↦ true
]

unfoldable pub parse_ipv6 : List ℕ → Result Error Address
parse_ipv6 text =
    let (head_text, compression) = split_compression text in
    elim compression [
      | none ↦ do
        head ← split_hextets head_text
        fail_if (not (length head == 8)) malformed_packet
        ok (from_bytes ipv6 (octets_of head))
      | some tail_text ↦ do
        fail_if (compressed_again tail_text) malformed_packet
        head ← split_hextets head_text
        tail ← split_hextets tail_text
        fail_if (leb 8 (length head + length tail)) malformed_packet
        ok (
            from_bytes ipv6
              (octets_of (head ++ (replicate (8 - length head - length tail) 0 ++ tail))))
    ]

unfoldable pub has_colon : List ℕ → Bool
has_colon [] = false
has_colon (c ∷ cs) = c == 58 || has_colon cs

unfoldable pub parse_address : List ℕ → Result Error Address
parse_address text =
    if length text == 0
    then err malformed_packet
    else if has_colon text
    then parse_ipv6 text
    else parse_ipv4 text

unfoldable pub parse_prefix : List ℕ → Result Error Prefix
parse_prefix text =
    let (address_text, rest) = split_at 47 text in
    elim rest [
      | none ↦ err malformed_packet
      | some length_text ↦ do
        address ← parse_address address_text
        fail_if (length length_text == 0 || ltb 3 (length length_text)) malformed_packet
        fail_if (ltb 1 (length length_text) && byte_at length_text 0 == 48) malformed_packet
        value ← or_malformed (from_chars 10 length_text 0)
        fail_if (ltb (maximum_prefix_length address.family) value) malformed_packet
        create address (u8 value)
    ]

-- `append_decimal`, of a number below 1000: `std::to_chars`.
unfoldable pub decimal : ℕ → List ℕ
decimal value =
    if ltb value 10
    then (48 + value) ∷ []
    else if ltb value 100
    then (48 + value / 10) ∷ (48 + value % 10) ∷ []
    else (48 + value / 100) ∷ (48 + value / 10 % 10) ∷ (48 + value % 10) ∷ []

abbrev pub hex_digit : ℕ → ℕ
hex_digit n = if ltb n 10 then 48 + n else 87 + n

-- The loop of `to_string` over the hextets, with `left` to go.
unfoldable pub hextets_text : ℕ → ℕ → List ℕ → List ℕ
hextets_text zero index octets = []
hextets_text (suc left) index octets =
    let high = byte_at octets (index * 2) in
    let low = byte_at octets (index * 2 + 1) in
    let digits =
      hex_digit (high / 2 ^ 4)
      ∷ hex_digit (bit_and high 0x0f)
      ∷ hex_digit (low / 2 ^ 4)
      ∷ hex_digit (bit_and low 0x0f)
      ∷ hextets_text left (index + 1) octets in
    if index == 0 then digits else 58 ∷ digits

unfoldable pub to_string : Address → List ℕ
to_string a = elim a.family [
  | ipv4 ↦
      decimal (byte_at a.octets 0)
      ++ (46 ∷ decimal (byte_at a.octets 1)
          ++ (46 ∷ decimal (byte_at a.octets 2) ++ (46 ∷ decimal (byte_at a.octets 3))))
  | ipv6 ↦ hextets_text 8 0 a.octets
]

unfoldable pub prefix_to_string : Prefix → List ℕ
prefix_to_string p = to_string p.address ++ (47 ∷ decimal p.length)
