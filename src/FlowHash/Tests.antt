-- ===== src/FlowHash/Tests.antt =====
-- A datagram and its answer.
use norr.Prelude.{ℕ, ◌++◌, refl, List, [], ◌∷◌, arith, replicate}
use norr.Address.{Address, ipv4}
use norr.IpPacket.{IpPacketView}
use norr.FlowHash.Direction.{Answers}

abbrev host : ℕ → Address
host n = record { family = ipv4; octets = 10 ∷ 0 ∷ 0 ∷ n ∷ replicate 12 0 }

abbrev packet : Address → Address → IpPacketView
packet from to = record {
  family = ipv4;
  source = from;
  destination = to;
  protocol = 17;
  hop_limit = 64;
  header_length = 20;
  total_length = 28;
}

abbrev frame : List ℕ
frame = replicate 20 0 ++ (1 ∷ 2 ∷ 3 ∷ 4 ∷ 0 ∷ 8 ∷ 0 ∷ 0 ∷ [])

abbrev answer : List ℕ
answer = replicate 20 9 ++ (3 ∷ 4 ∷ 1 ∷ 2 ∷ 0 ∷ 8 ∷ 0 ∷ 0 ∷ [])

answer-Answers : Answers (packet (host 1) (host 2)) (packet (host 2) (host 1)) frame answer
answer-Answers = record {
  source = refl;
  destination = refl;
  protocol = refl;
  long = (omega arith, omega arith);
  port0 = refl;
  port1 = refl;
  port2 = refl;
  port3 = refl;
}
