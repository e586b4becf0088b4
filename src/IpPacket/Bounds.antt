-- ===== src/IpPacket/Bounds.antt =====
-- What a parsed IP packet says of the bytes it was read from.
use norr.Prelude.{
  ℕ, ◌+◌, ◌/◌, ◌^◌, ◌≤◌, ◌<◌, ◌≡◌, sym, ap, subst, ◌∙◌, List, [], ◌∷◌, arith, length, All, All-take,
  All-drop, some, ok,
}
use norr.Prelude.Bytes.{IsByte}
use norr.Wire.{read_u16}
use norr.Address.{AddressFamily, ipv4, ipv6, from_bytes}
use norr.Address.Matching.{IsAddress}
use norr.Address.Created.{from_bytes-IsAddress}
use norr.IpPacket.{
  IpPacketView, parse_ipv4, parse_ipv6, declared_ip_length, parse_ip_packet, subspan,
}

-- The view stands for exactly these bytes.
pub record Covers (bytes : List ℕ) (v : IpPacketView) : Type 0 where
  pub total : v.total_length ≡ length bytes
  pub least : 20 ≤ v.header_length
  pub header : v.header_length ≤ v.total_length
  pub declared : declared_ip_length bytes ≡ some v.total_length
  pub source_IsAddress : IsAddress v.source
  pub destination_IsAddress : IsAddress v.destination

subspan-All : (xs : List ℕ) (i n : ℕ) → All IsByte xs → All IsByte (subspan xs i n)
subspan-All xs i n h = All-take IsByte n _ (All-drop IsByte i xs h)

-- What one of the two parsers has found.
record Parsed (xs : List ℕ) (v : IpPacketView) (family : AddressFamily) (i n : ℕ) : Type 0 where
  total : v.total_length ≡ length xs
  least : 20 ≤ v.header_length
  header : v.header_length ≤ v.total_length
  source : v.source ≡ from_bytes family (subspan xs i n)
  destination : v.destination ≡ from_bytes family (subspan xs (i + n) n)

parse_ipv4-Parsed :
    (xs : List ℕ) (v : IpPacketView)
    → parse_ipv4 xs ≡ ok v
    → Parsed xs v ipv4 12 4 × (v.total_length ≡ read_u16 xs 2)
unfolding parse_ipv4
parse_ipv4-Parsed xs v e = ground arith

parse_ipv6-Parsed :
    (xs : List ℕ) (v : IpPacketView)
    → parse_ipv6 xs ≡ ok v
    → Parsed xs v ipv6 8 16 × ((v.total_length ≡ 40 + read_u16 xs 4) × (40 ≤ length xs))
unfolding parse_ipv6
parse_ipv6-Parsed xs v e = ground arith

data ByVersion (b : ℕ) (rest : List ℕ) (v : IpPacketView) : Type 0 where
  version4 : b / 2 ^ 4 ≡ 4 → parse_ipv4 (b ∷ rest) ≡ ok v → ByVersion b rest v
  version6 : b / 2 ^ 4 ≡ 6 → parse_ipv6 (b ∷ rest) ≡ ok v → ByVersion b rest v

by_version :
    (b : ℕ) (rest : List ℕ) (v : IpPacketView)
    → b < 256
    → parse_ip_packet (b ∷ rest) ≡ ok v
    → ByVersion b rest v
unfolding parse_ip_packet
by_version b rest v h e = ground arith

addresses :
    (xs : List ℕ) (v : IpPacketView) (f : AddressFamily) (i n : ℕ)
    → All IsByte xs
    → Parsed xs v f i n
    → IsAddress v.source × IsAddress v.destination
addresses xs v f i n h p = (
  subst IsAddress (sym p.source) (from_bytes-IsAddress f _ (subspan-All xs i n h)),
  subst IsAddress (sym p.destination) (from_bytes-IsAddress f _ (subspan-All xs (i + n) n h)),
)

declared_4 :
    (b : ℕ) (rest : List ℕ)
    → b / 2 ^ 4 ≡ 4
    → 20 ≤ length (b ∷ rest)
    → 20 ≤ read_u16 (b ∷ rest) 2
    → declared_ip_length (b ∷ rest) ≡ some (read_u16 (b ∷ rest) 2)
unfolding declared_ip_length
declared_4 b rest p q r = ground arith

declared_6 :
    (b : ℕ) (rest : List ℕ)
    → b / 2 ^ 4 ≡ 6
    → 40 ≤ length (b ∷ rest)
    → declared_ip_length (b ∷ rest) ≡ some (40 + read_u16 (b ∷ rest) 4)
unfolding declared_ip_length
declared_6 b rest p q = ground arith

-- A packet that parses is as long as its header says, its header lies within it, the length that
-- `declared_ip_length` reads for it is its length, and both of its addresses are well formed.
pub parse_ip_packet-Covers :
    (xs : List ℕ) (v : IpPacketView) → All IsByte xs → parse_ip_packet xs ≡ ok v → Covers xs v
parse_ip_packet-Covers [] v h e = unfold parse_ip_packet in ground arith
parse_ip_packet-Covers (b ∷ rest) v h e = elim (by_version b rest v h.0 e) [
  | version4 p q ↦
      let f = parse_ipv4-Parsed (b ∷ rest) v q in
      let t = f.0 in
      let a = addresses (b ∷ rest) v ipv4 12 4 h t in
      record {
        total = t.total;
        least = t.least;
        header = t.header;
        declared =
            declared_4 b rest p (omega (arith, t.total, t.least, t.header))
              (omega (arith, f.1, t.least, t.header))
            ∙ ap some (sym f.1);
        source_IsAddress = a.0;
        destination_IsAddress = a.1;
      }
  | version6 p q ↦
      let f = parse_ipv6-Parsed (b ∷ rest) v q in
      let t = f.0 in
      let a = addresses (b ∷ rest) v ipv6 8 16 h t in
      record {
        total = t.total;
        least = t.least;
        header = t.header;
        declared = declared_6 b rest p f.1.1 ∙ ap some (sym f.1.0);
        source_IsAddress = a.0;
        destination_IsAddress = a.1;
      }
]
