-- ===== src/Address/Created.antt =====
-- The prefix that `create` makes of an address.
use norr.Prelude.{
  ℕ, ◌-◌, ◌*◌, ◌/◌, ◌%◌, ◌≤◌, ◌<◌, ◌≡◌, ◌↔◌, sym, ap, subst, ◌∙◌, true, List, ◌++◌, arith, length,
  take, replicate, All, get_or-take, get_or-append_left, length-take, length-append,
  length-replicate, All-take, All-append, All-replicate, ok, ok-injective,
}
use norr.Prelude.Bits.{bit}
use norr.Prelude.Bytes.{IsByte, byte_at}
use norr.Address.{
  AddressFamily, Address, Prefix, bytes, address_length, maximum_prefix_length, from_bytes,
  clear_host, create, contains,
}
use norr.Address.Digits.{octet_bit, clear_host-All, length-clear_host, octet_bit-clear_host_before}
use norr.Address.Matching.{IsAddress, Agrees, contains_iff}

-- `from_bytes` of at most 16 bytes.
pub from_bytes-IsAddress :
    (f : AddressFamily) (xs : List ℕ) → All IsByte xs → IsAddress (from_bytes f xs)
unfolding from_bytes
from_bytes-IsAddress f xs h =
    let t = length-take 16 xs in
    record {
      sixteen =
          length-append (take 16 xs) _
          ∙ omega (arith, t, length-replicate {A = ℕ} (16 - length (take 16 xs)) 0);
      octets =
          All-append IsByte (take 16 xs) _ (All-take IsByte 16 xs h)
            (All-replicate IsByte _ 0 (omega arith));
    }

byte_at-from_bytes :
    (f : AddressFamily) (xs : List ℕ) (j : ℕ)
    → j < 16
    → j < length xs
    → byte_at (from_bytes f xs).octets j ≡ byte_at xs j
unfolding from_bytes
byte_at-from_bytes f xs j p q =
    get_or-append_left (take 16 xs) _ j 0 (omega (arith, length-take 16 xs))
    ∙ get_or-take 16 xs j 0 p

module _ (a : Address) (n : ℕ) (v : IsAddress a) where
  octets : List ℕ
  octets = bytes a ++ replicate (16 - address_length a.family) 0

  network : List ℕ
  network = clear_host (address_length a.family * 8 - n) n octets

  made : Prefix
  made = record { address = from_bytes a.family network; length = n }

  create_lem : n ≤ maximum_prefix_length a.family → create a n ≡ ok made
  unfolding create made network octets
  create_lem h = ground arith

  length-octets : length octets ≡ 16
  unfolding octets
  length-octets =
      length-append (bytes a) (replicate (16 - address_length a.family) 0)
      ∙ ground (
        arith,
        length-take (address_length a.family) a.octets,
        length-replicate {A = ℕ} (16 - address_length a.family) 0,
        v.sixteen,
      )

  octets-All : All IsByte octets
  unfolding octets
  octets-All =
      All-append IsByte (bytes a) _ (All-take IsByte (address_length a.family) a.octets v.octets)
        (All-replicate IsByte _ 0 (omega arith))

  network-All : All IsByte network
  unfolding network
  network-All = clear_host-All _ n octets octets-All

  made-IsAddress : IsAddress made.address
  unfolding made
  made-IsAddress = from_bytes-IsAddress a.family network network-All

  length-bytes : length (bytes a) ≡ address_length a.family
  length-bytes = length-take (address_length a.family) a.octets ∙ ground (arith, v.sixteen)

  -- The leading digits of the network are the address's.
  kept : n ≤ maximum_prefix_length a.family → Agrees n (bytes made.address) (bytes a)
  unfolding made from_bytes
  kept h i p =
      let size : maximum_prefix_length a.family ≡ 8 * address_length a.family = ground arith in
      let small : address_length a.family ≤ 16 = ground arith in
      let inside : i / 8 < address_length a.family = omega arith in
      let total : length network ≡ 16 =
        unfold network in length-clear_host _ n octets ∙ length-octets in
      let cut : byte_at (bytes made.address) (i / 8) ≡ byte_at network (i / 8) =
        get_or-take (address_length a.family) (from_bytes a.family network).octets (i / 8) 0 inside
        ∙ byte_at-from_bytes a.family network (i / 8) (omega arith) (omega arith) in
      let same : octet_bit network i ≡ octet_bit octets i =
        unfold network in
        octet_bit-clear_host_before (address_length a.family * 8 - n) n octets i
          (omega (arith, length-octets)) p in
      let start : byte_at octets (i / 8) ≡ byte_at (bytes a) (i / 8) =
        unfold octets in get_or-append_left (bytes a) _ (i / 8) 0 (omega (arith, length-bytes)) in
      ap (λ t. bit t (7 - i % 8)) cut ∙ same ∙ ap (λ t. bit t (7 - i % 8)) start

  made_iff :
      (b : Address)
      → IsAddress b
      → (contains made b ≡ true) ↔ ((b.family ≡ a.family) × Agrees n (bytes b) (bytes made.address))
  unfolding made from_bytes
  made_iff b vb = contains_iff made b made-IsAddress vb

create-ok :
    (a : Address) (n : ℕ) (p : Prefix) → create a n ≡ ok p → n ≤ maximum_prefix_length a.family
unfolding create
create-ok a n p e = ground arith

-- The prefix that `create` makes of an address and a length matches exactly the addresses of that
-- family which have the same leading digits, as many as the length says.
pub contains-create_iff :
    (a b : Address) (n : ℕ) (p : Prefix)
    → IsAddress a
    → IsAddress b
    → create a n ≡ ok p
    → (contains p b ≡ true) ↔ ((b.family ≡ a.family) × Agrees n (bytes b) (bytes a))
contains-create_iff a b n p va vb e =
    let bound = create-ok a n p e in
    let same : p ≡ made a n va = ok-injective (sym e ∙ create_lem a n va bound) in
    let decision = made_iff a n va b vb in
    let keeps = kept a n va bound in
    (
      λ h.
          let d = decision.0 (subst (λ t. contains t b ≡ true) same h) in
          (d.0, λ i q. d.1 i q ∙ keeps i q),
      λ h.
          subst (λ t. contains t b ≡ true) (sym same)
            (decision.1 (h.0, λ i q. h.1 i q ∙ sym (keeps i q))),
    )
