-- ===== src/AddressText/Tests.antt =====
-- Texts and their addresses.
use norr.Prelude.{◌≡◌, refl, [], ◌∷◌, ◌++◌, arith, ok, err, replicate}
use norr.Wire.{malformed_packet}
use norr.Address.{ipv6, from_bytes}
use norr.AddressText.{
  digit_value, from_chars, parse_decimal, split_at, ipv4_loop, parse_ipv4, parse_ipv6,
  split_compression, split_hextets, hextet_loop, parse_hextet, octets_of, has_colon, parse_address,
  to_string,
}
use norr.AddressText.RoundTrip.{ipv4_address, parse_address-to_string}

-- "::1"
parse_loopback :
    parse_address (58 ∷ 58 ∷ 49 ∷ []) ≡ ok (from_bytes ipv6 (replicate 15 0 ++ (1 ∷ [])))
unfolding parse_address has_colon parse_ipv6 split_compression split_hextets hextet_loop split_at
    parse_hextet from_chars digit_value octets_of from_bytes
parse_loopback = refl

-- "01.2.3.4"
parse_leading_zero :
    parse_address (48 ∷ 49 ∷ 46 ∷ 50 ∷ 46 ∷ 51 ∷ 46 ∷ 52 ∷ []) ≡ err malformed_packet
unfolding parse_address has_colon parse_ipv4 ipv4_loop split_at parse_decimal
parse_leading_zero = refl

parse_address-to_string_example :
    parse_address (to_string (ipv4_address 10 0 200 7)) ≡ ok (ipv4_address 10 0 200 7)
parse_address-to_string_example =
    parse_address-to_string 10 0 200 7 (omega arith) (omega arith) (omega arith) (omega arith)
