-- ===== src/Address.antt =====
-- src/address.cpp, include/norr/address.hpp: addresses, and prefixes that match them.
-- An address keeps its 16 octets in both families; `bytes()` is the part that its family uses.
pub mod Digits
pub mod Matching
pub mod Created
pub mod Tests
use norr.Prelude.{
  ℕ, zero, suc, ◌+◌, ◌-◌, ◌*◌, ◌/◌, ◌%◌, ◌^◌, min, bit_and, Bool, true, false, not, ◌&&◌, List, [],
  ◌∷◌, ◌++◌, ltb, leb, ◌==◌, if◌then◌else◌, length, set, take, drop, replicate, Result, ok, err,
  fail_if, ◌>>=◌, ◌>>◌,
}
use norr.Prelude.Bits.{bit_not}
use norr.Prelude.Bytes.{byte_at, u8}
use norr.Wire.{Error, malformed_packet}

pub data AddressFamily : Type 0 where
  ipv4 ipv6 : AddressFamily

abbrev pub family_eq : AddressFamily → AddressFamily → Bool
family_eq ipv4 ipv4 = true
family_eq ipv4 ipv6 = false
family_eq ipv6 ipv4 = false
family_eq ipv6 ipv6 = true

abbrev pub address_length : AddressFamily → ℕ
address_length ipv4 = 4
address_length ipv6 = 16

abbrev pub maximum_prefix_length : AddressFamily → ℕ
maximum_prefix_length ipv4 = 32
maximum_prefix_length ipv6 = 128

pub record Address : Type 0 where
  pub family : AddressFamily
  pub octets : List ℕ

abbrev pub bytes : Address → List ℕ
bytes a = take (address_length a.family) a.octets

-- The octets beyond the given bytes stay zero.
unfoldable pub from_bytes : AddressFamily → List ℕ → Address
from_bytes family bytes = record {
  family = family;
  octets = take 16 bytes ++ replicate (16 - length (take 16 bytes)) 0;
}

-- `Address::bit`: bit 0 is the most significant.
unfoldable pub address_bit : Address → ℕ → Bool
address_bit a index =
    if leb (maximum_prefix_length a.family) index
    then false
    else not (bit_and (byte_at a.octets (index / 8) / 2 ^ (7 - index % 8)) 1 == 0)

pub record Prefix : Type 0 where
  pub address : Address
  pub length : ℕ

-- `for (index = length; index < address_length(family) * 8; ++index)`, with `left` rounds to go.
pub clear_host : ℕ → ℕ → List ℕ → List ℕ
clear_host zero index octets = octets
clear_host (suc left) index octets =
    let mask = u8 (bit_not 32 (2 ^ (7 - index % 8))) in
    clear_host left (index + 1) (set octets (index / 8) (bit_and (byte_at octets (index / 8)) mask))

unfoldable pub create : Address → ℕ → Result Error Prefix
create a length = do
  fail_if (ltb (maximum_prefix_length a.family) length) malformed_packet
  let octets = bytes a ++ replicate (16 - address_length a.family) 0
  let cleared = clear_host (address_length a.family * 8 - length) length octets
  ok (record { address = from_bytes a.family cleared; length = length })

-- The loop over the whole octets, from `index` on, with `left` rounds to go.
unfoldable pub same_octets : ℕ → ℕ → List ℕ → List ℕ → Bool
same_octets zero index candidate network = true
same_octets (suc left) index candidate network =
    let rest = same_octets left (index + 1) candidate network in
    if not (byte_at candidate index == byte_at network index) then false else rest

unfoldable pub contains : Prefix → Address → Bool
contains p a =
    if not (family_eq a.family p.address.family)
    then false
    else (let whole_octets = p.length / 8 in
        let remaining_bits = p.length % 8 in
        let candidate = bytes a in
        let network = bytes p.address in
        if not (same_octets whole_octets 0 candidate network)
        then false
        else if remaining_bits == 0
        then true
        else (let mask = u8 (0xff * 2 ^ (8 - remaining_bits)) in
            bit_and (byte_at candidate whole_octets) mask
            == bit_and (byte_at network whole_octets) mask))

-- `operator==` compares every member.
unfoldable pub octets_eq : List ℕ → List ℕ → Bool
octets_eq [] [] = true
octets_eq [] (y ∷ ys) = false
octets_eq (x ∷ xs) [] = false
octets_eq (x ∷ xs) (y ∷ ys) = x == y && octets_eq xs ys

unfoldable pub address_eq : Address → Address → Bool
address_eq a b = family_eq a.family b.family && octets_eq a.octets b.octets

unfoldable pub prefix_eq : Prefix → Prefix → Bool
prefix_eq p q = address_eq p.address q.address && p.length == q.length
