-- ===== src/AddressText/RoundTrip.antt =====
-- An IPv4 address is read back from its text.
use norr.Prelude.{
  ℕ, suc, ◌+◌, ◌<◌, ◌≡◌, refl, sym, ap, ◌∙◌, false, List, [], ◌∷◌, ◌++◌, arith, set, replicate, ok,
}
use mathlib.Core.List.{append-nil}
use norr.Address.{Address, ipv4, from_bytes}
use norr.AddressText.{ipv4_loop, parse_ipv4, parse_address, has_colon, decimal, to_string}
use norr.AddressText.Decimal.{
  parse_decimal-decimal, split_at-decimal, split_at-decimal_dot, has_colon-decimal, length-decimal,
}

module _ (index v : ℕ) (h : v < 256) (octets : List ℕ) where
  last_octet : ipv4_loop 1 index (decimal v) octets ≡ ok (set octets index v)
  unfolding ipv4_loop
  last_octet = rw (ipv4_loop, split_at-decimal v h, parse_decimal-decimal v h) refl

  next_octet :
      (left : ℕ) (rest : List ℕ)
      → ipv4_loop (suc left) index (decimal v ++ (46 ∷ rest)) octets
        ≡ ipv4_loop left (index + 1) rest (set octets index v)
  unfolding ipv4_loop
  next_octet left rest =
      rw (ipv4_loop, split_at-decimal_dot v h rest, parse_decimal-decimal v h) refl

abbrev pub ipv4_address : ℕ → ℕ → ℕ → ℕ → Address
ipv4_address w x y z = from_bytes ipv4 (w ∷ x ∷ y ∷ z ∷ [])

abbrev dotted : ℕ → ℕ → ℕ → ℕ → List ℕ
dotted w x y z = decimal w ++ (46 ∷ decimal x ++ (46 ∷ decimal y ++ (46 ∷ decimal z)))

module _ (w x y z : ℕ) (hw : w < 256) (hx : x < 256) (hy : y < 256) (hz : z < 256) where
  text : to_string (ipv4_address w x y z) ≡ dotted w x y z
  unfolding to_string from_bytes
  text = refl

  looped : ipv4_loop 4 0 (dotted w x y z) (replicate 16 0) ≡ ok (w ∷ x ∷ y ∷ z ∷ replicate 12 0)
  looped =
      next_octet 0 w hw (replicate 16 0) 3 (decimal x ++ (46 ∷ decimal y ++ (46 ∷ decimal z)))
      ∙ next_octet 1 x hx (w ∷ replicate 15 0) 2 (decimal y ++ (46 ∷ decimal z))
      ∙ next_octet 2 y hy (w ∷ x ∷ replicate 14 0) 1 (decimal z)
      ∙ last_octet 3 z hz (w ∷ x ∷ y ∷ replicate 13 0)

  no_colon : has_colon (dotted w x y z) ≡ false
  unfolding has_colon
  no_colon =
      has_colon-decimal w hw (46 ∷ decimal x ++ (46 ∷ decimal y ++ (46 ∷ decimal z)))
      ∙ has_colon-decimal x hx (46 ∷ decimal y ++ (46 ∷ decimal z))
      ∙ has_colon-decimal y hy (46 ∷ decimal z)
      ∙ ap has_colon (sym (append-nil (decimal z)))
      ∙ has_colon-decimal z hz []

  parsed : parse_address (dotted w x y z) ≡ ok (ipv4_address w x y z)
  unfolding parse_address parse_ipv4 from_bytes
  parsed =
      let l = length-decimal w hw (46 ∷ decimal x ++ (46 ∷ decimal y ++ (46 ∷ decimal z))) in
      ground (arith, l, no_colon, looped)

  -- The text of an IPv4 address parses to the address.
  pub parse_address-to_string :
      parse_address (to_string (ipv4_address w x y z)) ≡ ok (ipv4_address w x y z)
  parse_address-to_string = ap parse_address text ∙ parsed
