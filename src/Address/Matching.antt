-- ===== src/Address/Matching.antt =====
-- A prefix matches the addresses that share its leading digits.
use native.Mathlib.Decide.{dec_lt}
use norr.Prelude.{
  ℕ, ◌+◌, ◌-◌, ◌*◌, ◌/◌, ◌%◌, ◌^◌, ◌≤◌, ◌<◌, ◌≡◌, ◌↔◌, sym, ap, ap₂, ◌∙◌, bit_and, ◌⊎◌, inl, inr,
  true, List, arith, length, All, length-take, All-take, All-get_or,
}
use norr.Prelude.Bits.{bit, bit_ext, bit-high}
use norr.Prelude.Bytes.{IsByte, byte_at, u8}
use norr.Address.{
  AddressFamily, Address, Prefix, bytes, address_length, family_eq, contains, same_octets,
}
use norr.Address.Digits.{octet_bit, same_octets_iff, masked_iff}

-- The 16 octets are bytes.
pub record IsAddress (a : Address) : Type 0 where
  pub sixteen : length a.octets ≡ 16
  pub octets : All IsByte a.octets

pub family_eq_iff : (f g : AddressFamily) → (family_eq f g ≡ true) ↔ (f ≡ g)
family_eq_iff f g = (ground arith, ground arith)

bytes_long : (a : Address) → IsAddress a → length (bytes a) ≡ address_length a.family
bytes_long a v = length-take (address_length a.family) a.octets ∙ ground (arith, v.sixteen)

-- The digits that the prefix and the address must share.
abbrev pub Agrees : ℕ → List ℕ → List ℕ → Type 0
Agrees n xs ys = (i : ℕ) → i < n → octet_bit xs i ≡ octet_bit ys i

-- Whole octets agree when their eight digits do.
octet_of_bits :
    (xs ys : List ℕ) (j : ℕ)
    → All IsByte xs
    → All IsByte ys
    → ((i : ℕ) → 8 * j ≤ i → i < 8 * j + 8 → octet_bit xs i ≡ octet_bit ys i)
    → byte_at xs j ≡ byte_at ys j
octet_of_bits xs ys j hx hy h = bit_ext _ _ digit
  where
    digit : (k : ℕ) → bit (byte_at xs j) k ≡ bit (byte_at ys j) k
    digit k = elim (dec_lt k 8) [
      | yes p ↦
          let e : (8 * j + (7 - k)) / 8 ≡ j = omega arith in
          let f : 7 - (8 * j + (7 - k)) % 8 ≡ k = omega arith in
          ap₂ (λ s t. bit (byte_at xs s) t) (sym e) (sym f)
          ∙ h (8 * j + (7 - k)) (omega arith) (omega arith)
          ∙ ap₂ (λ s t. bit (byte_at ys s) t) e f
      | no p ↦
          bit-high 8 _ k (All-get_or IsByte xs j 0 hx (omega arith)) (omega arith)
          ∙ sym (bit-high 8 _ k (All-get_or IsByte ys j 0 hy (omega arith)) (omega arith))
    ]

-- The comparison of whole octets and of one masked octet, as one on digits.
compared_iff :
    (n : ℕ) (xs ys : List ℕ)
    → All IsByte xs
    → All IsByte ys
    → ((same_octets (n / 8) 0 xs ys ≡ true)
        × ((m : ℕ)
            → m < n % 8
            → m < 8
            → bit (byte_at xs (n / 8)) (7 - m) ≡ bit (byte_at ys (n / 8)) (7 - m)))
      ↔ Agrees n xs ys
compared_iff n xs ys hx hy = (
  λ h i p. elim (dec_lt (i / 8) (n / 8)) [
    | yes q ↦
        ap (λ t. bit t (7 - i % 8))
          ((same_octets_iff (n / 8) 0 xs ys).0 h.0 (i / 8) (omega arith) (omega arith))
    | no q ↦
        let e : i / 8 ≡ n / 8 = omega arith in
        ap (λ t. bit (byte_at xs t) (7 - i % 8)) e
        ∙ h.1 (i % 8) (omega arith) (omega arith)
        ∙ ap (λ t. bit (byte_at ys t) (7 - i % 8)) (sym e)
  ],
  λ h. (
    (same_octets_iff (n / 8) 0 xs ys).1
        (λ j lo hi. octet_of_bits xs ys j hx hy (λ i p q. h i (omega arith))),
    λ m p q.
        let i : ℕ = 8 * (n / 8) + m in
        let e : i / 8 ≡ n / 8 = omega arith in
        let f : i % 8 ≡ m = omega arith in
        ap₂ (λ s t. bit (byte_at xs s) (7 - t)) (sym e) (sym f)
        ∙ h i (omega arith)
        ∙ ap₂ (λ s t. bit (byte_at ys s) (7 - t)) e f,
  ),
)

-- The tests of `contains` in one formula.
contains_tests :
    (p : Prefix) (a : Address)
    → (contains p a ≡ true) ↔ (
        (family_eq a.family p.address.family ≡ true)
        × (same_octets (p.length / 8) 0 (bytes a) (bytes p.address) ≡ true)
        × ((p.length % 8 ≡ 0)
            ⊎ (bit_and (byte_at (bytes a) (p.length / 8)) (u8 (0xff * 2 ^ (8 - p.length % 8)))
                ≡ bit_and
                    (byte_at (bytes p.address) (p.length / 8))
                    (u8 (0xff * 2 ^ (8 - p.length % 8))))))
unfolding contains
contains_tests p a = (ground arith, ground arith)

-- `contains` answers whether the families are the same and the leading digits agree.
pub contains_iff :
    (p : Prefix) (a : Address)
    → IsAddress p.address
    → IsAddress a
    → (contains p a ≡ true)
      ↔ ((a.family ≡ p.address.family) × Agrees p.length (bytes a) (bytes p.address))
contains_iff p a hp ha = (
  λ e.
      let (same, whole, part) = (contains_tests p a).0 e in
      (
        (family_eq_iff a.family p.address.family).0 same,
        digits.0 (
          whole,
          elim part [ inl none ↦ (λ m q _. absurd (omega arith)) | inr masked ↦ masks.0 masked ],
        ),
      ),
  λ h.
      let (whole, part) = digits.1 h.1 in
      (contains_tests p a).1
        ((family_eq_iff a.family p.address.family).1 h.0, whole, inr (masks.1 part)),
)
  where
    xs : List ℕ
    xs = bytes a

    ys : List ℕ
    ys = bytes p.address

    hx : All IsByte xs
    hx = All-take IsByte (address_length a.family) a.octets ha.octets

    hy : All IsByte ys
    hy = All-take IsByte (address_length p.address.family) p.address.octets hp.octets

    masks :
        (bit_and (byte_at xs (p.length / 8)) (u8 (0xff * 2 ^ (8 - p.length % 8)))
          ≡ bit_and (byte_at ys (p.length / 8)) (u8 (0xff * 2 ^ (8 - p.length % 8))))
        ↔ ((m : ℕ)
            → m < p.length % 8
            → m < 8
            → bit (byte_at xs (p.length / 8)) (7 - m) ≡ bit (byte_at ys (p.length / 8)) (7 - m))
    masks =
        masked_iff (p.length % 8) (byte_at xs (p.length / 8)) (byte_at ys (p.length / 8))
          (All-get_or IsByte xs (p.length / 8) 0 hx (omega arith))
          (All-get_or IsByte ys (p.length / 8) 0 hy (omega arith))

    digits :
        ((same_octets (p.length / 8) 0 xs ys ≡ true)
          × ((m : ℕ)
              → m < p.length % 8
              → m < 8
              → bit (byte_at xs (p.length / 8)) (7 - m) ≡ bit (byte_at ys (p.length / 8)) (7 - m)))
        ↔ Agrees p.length xs ys
    digits = compared_iff p.length xs ys hx hy
