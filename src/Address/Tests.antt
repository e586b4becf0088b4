-- ===== src/Address/Tests.antt =====
-- Prefixes on concrete addresses, and the theorem at inputs that meet its hypotheses.
use norr.Prelude.{◌≡◌, ◌↔◌, refl, true, [], ◌∷◌, arith, ok}
use norr.Address.{
  Address, Prefix, ipv4, bytes, from_bytes, create, clear_host, contains, same_octets,
}
use norr.Prelude.Bits.{bit_not}
use norr.Address.Matching.{IsAddress, Agrees}
use norr.Address.Created.{contains-create_iff}

abbrev host : Address
host = record {
  family = ipv4;
  octets = 10 ∷ 1 ∷ 200 ∷ 9 ∷ 0 ∷ 0 ∷ 0 ∷ 0 ∷ 0 ∷ 0 ∷ 0 ∷ 0 ∷ 0 ∷ 0 ∷ 0 ∷ 0 ∷ [];
}

abbrev neighbour : Address
neighbour = record {
  family = ipv4;
  octets = 10 ∷ 1 ∷ 193 ∷ 77 ∷ 0 ∷ 0 ∷ 0 ∷ 0 ∷ 0 ∷ 0 ∷ 0 ∷ 0 ∷ 0 ∷ 0 ∷ 0 ∷ 0 ∷ [];
}

abbrev subnet : Prefix
subnet = record {
  address = record {
    family = ipv4;
    octets = 10 ∷ 1 ∷ 192 ∷ 0 ∷ 0 ∷ 0 ∷ 0 ∷ 0 ∷ 0 ∷ 0 ∷ 0 ∷ 0 ∷ 0 ∷ 0 ∷ 0 ∷ 0 ∷ [];
  };
  length = 20;
}

create-subnet : create host 20 ≡ ok subnet
unfolding create clear_host from_bytes bit_not
create-subnet = refl

subnet-contains : contains subnet neighbour ≡ true
unfolding contains same_octets
subnet-contains = refl

host-IsAddress : IsAddress host
host-IsAddress = record { sixteen = refl; octets = omega arith }

neighbour-IsAddress : IsAddress neighbour
neighbour-IsAddress = record { sixteen = refl; octets = omega arith }

contains-create_iff_example :
    (contains subnet neighbour ≡ true) ↔ ((ipv4 ≡ ipv4) × Agrees 20 (bytes neighbour) (bytes host))
contains-create_iff_example =
    contains-create_iff host neighbour 20 subnet host-IsAddress neighbour-IsAddress create-subnet
