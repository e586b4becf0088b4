-- ===== src/Address/Digits.antt =====
-- The binary digits of an address, most significant first, and what the loops do to them.
use native.Mathlib.Decide.{ℕ_discrete, dec_lt}
use norr.Prelude.{
  ℕ, zero, suc, ◌+◌, ◌-◌, ◌*◌, ◌/◌, ◌%◌, ◌^◌, ◌≤◌, ◌<◌, ◌≡◌, ◌↔◌, refl, sym, ap, ap₂, subst, ◌∙◌,
  ◌≢◌, min, bit_and, true, List, arith, length, set, All, length-set, All-set, All-get_or,
  get_or-set_self, get_or-set_ne,
}
use norr.Prelude.Bits.{
  bit, bit_not, bit-lt, bit-bit_and, bit-bit_not, bit-two-pow_self, bit-two-pow_ne, bit-mod,
  bit-high, bit_ext, bit_and-lt, two-pow-lt, two-pow-pos, bit-fields_low, bit-fields_high, bit-ones,
  zero-bit,
}
use norr.Prelude.Bytes.{IsByte, byte_at, u8}
use norr.Address.{clear_host, same_octets}

abbrev pub octet_bit : List ℕ → ℕ → ℕ
octet_bit octets i = bit (byte_at octets (i / 8)) (7 - i % 8)

clear_mask : ℕ → ℕ
clear_mask k = u8 (bit_not 32 (2 ^ k))

bit-clear_mask_self : (k : ℕ) → k < 8 → bit (clear_mask k) k ≡ 0
unfolding clear_mask
bit-clear_mask_self k p =
    bit-mod 8 (bit_not 32 (2 ^ k)) k p
    ∙ omega (
      arith,
      bit-bit_not 32 (2 ^ k) k (two-pow-lt 32 k (omega arith)) (omega arith),
      bit-two-pow_self k,
    )

bit-clear_mask_ne : (k m : ℕ) → k < 8 → m < 8 → k ≢ m → bit (clear_mask k) m ≡ 1
unfolding clear_mask
bit-clear_mask_ne k m p q ne =
    bit-mod 8 (bit_not 32 (2 ^ k)) m q
    ∙ omega (
      arith,
      bit-bit_not 32 (2 ^ k) m (two-pow-lt 32 k (omega arith)) (omega arith),
      bit-two-pow_ne k m ne,
    )

-- One round of the clearing loop.
abbrev cleared : List ℕ → ℕ → List ℕ
cleared octets j =
    set octets (j / 8) (bit_and (byte_at octets (j / 8)) (u8 (bit_not 32 (2 ^ (7 - j % 8)))))

octet_bit-cleared_self :
    (octets : List ℕ) (j : ℕ) → j / 8 < length octets → octet_bit (cleared octets j) j ≡ 0
unfolding clear_mask
octet_bit-cleared_self octets j room =
    let k : ℕ = 7 - j % 8 in
    ap (λ t. bit t k) (get_or-set_self octets (j / 8) _ 0 room)
    ∙ omega (
      arith,
      bit-bit_and (byte_at octets (j / 8)) (clear_mask k) k,
      bit-clear_mask_self k (omega arith),
    )

octet_bit-cleared_ne :
    (octets : List ℕ) (j i : ℕ)
    → j / 8 < length octets
    → j ≢ i
    → octet_bit (cleared octets j) i ≡ octet_bit octets i
unfolding clear_mask
octet_bit-cleared_ne octets j i room ne = elim (ℕ_discrete (j / 8) (i / 8)) [
  | no other ↦ ap (λ t. bit t (7 - i % 8)) (get_or-set_ne octets (j / 8) (i / 8) _ 0 other)
  | yes e ↦
      let k : ℕ = 7 - j % 8 in
      let m : ℕ = 7 - i % 8 in
      ap (λ t. byte_at_bit octets j t) (sym e)
      ∙ ap (λ t. bit t m) (get_or-set_self octets (j / 8) _ 0 room)
      ∙ omega (
        arith,
        bit-bit_and (byte_at octets (j / 8)) (clear_mask k) m,
        bit-clear_mask_ne k m (omega arith) (omega arith) (omega arith),
        bit-lt (byte_at octets (j / 8)) m,
        ap (λ t. bit (byte_at octets t) m) e,
      )
]
  where
    byte_at_bit : List ℕ → ℕ → ℕ → ℕ
    byte_at_bit os p t = bit (byte_at (cleared os p) t) (7 - i % 8)

-- The clearing loop keeps what stands before its range, and turns the range off.
pub length-clear_host :
    (left index : ℕ) (octets : List ℕ) → length (clear_host left index octets) ≡ length octets
unfolding clear_host
length-clear_host zero index octets = refl
length-clear_host (suc left) index octets =
    length-clear_host left (index + 1) (cleared octets index) ∙ length-set octets (index / 8) _

pub clear_host-All :
    (left index : ℕ) (octets : List ℕ)
    → All IsByte octets
    → All IsByte (clear_host left index octets)
unfolding clear_host
clear_host-All zero index octets h = h
clear_host-All (suc left) index octets h = clear_host-All left (index + 1) (cleared octets index) (
    All-set IsByte octets (index / 8) _ h
      (bit_and-lt 8 _ _ (All-get_or IsByte octets (index / 8) 0 h (omega arith))))

pub octet_bit-clear_host_before :
    (left index : ℕ) (octets : List ℕ) (i : ℕ)
    → index + left ≤ 8 * length octets
    → i < index
    → octet_bit (clear_host left index octets) i ≡ octet_bit octets i
unfolding clear_host
octet_bit-clear_host_before zero index octets i room lt = refl
octet_bit-clear_host_before (suc left) index octets i room lt =
    octet_bit-clear_host_before left (index + 1) (cleared octets index) i
      (omega (
        arith,
        length-set octets (index / 8)
            (bit_and (byte_at octets (index / 8)) (u8 (bit_not 32 (2 ^ (7 - index % 8))))),
      ))
      (omega arith)
    ∙ octet_bit-cleared_ne octets index i (omega arith) (omega arith)

pub octet_bit-clear_host_inside :
    (left index : ℕ) (octets : List ℕ) (i : ℕ)
    → index + left ≤ 8 * length octets
    → index ≤ i
    → i < index + left
    → octet_bit (clear_host left index octets) i ≡ 0
unfolding clear_host
octet_bit-clear_host_inside zero index octets i room lo hi = absurd (omega arith)
octet_bit-clear_host_inside (suc left) index octets i room lo hi =
    let room' : index + 1 + left ≤ 8 * length (cleared octets index) = omega (
      arith,
      length-set octets (index / 8)
          (bit_and (byte_at octets (index / 8)) (u8 (bit_not 32 (2 ^ (7 - index % 8))))),
    ) in
    elim (ℕ_discrete index i) [
      | yes e ↦
          octet_bit-clear_host_before left (index + 1) (cleared octets index) i room' (omega arith)
          ∙ ap (octet_bit (cleared octets index)) (sym e)
          ∙ octet_bit-cleared_self octets index (omega arith)
      | no ne ↦
          octet_bit-clear_host_inside left (index + 1) (cleared octets index) i room' (omega arith)
            (omega arith)
    ]

pub same_octets_iff :
    (left index : ℕ) (xs ys : List ℕ)
    → (same_octets left index xs ys ≡ true)
      ↔ ((j : ℕ) → index ≤ j → j < index + left → byte_at xs j ≡ byte_at ys j)
unfolding same_octets
same_octets_iff zero index xs ys = (λ e j lo hi. absurd (omega arith), λ h. refl)
same_octets_iff (suc left) index xs ys = (
  λ e j lo hi.
      let here : byte_at xs index ≡ byte_at ys index = ground arith in
      elim (ℕ_discrete index j) [
        | yes p ↦ subst (λ t. byte_at xs t ≡ byte_at ys t) p here
        | no ne ↦
            (same_octets_iff left (index + 1) xs ys).0 (ground arith) j (omega arith) (omega arith)
      ],
  λ h.
      let here : byte_at xs index ≡ byte_at ys index = h index (omega arith) (omega arith) in
      let rest =
        (same_octets_iff left (index + 1) xs ys).1 (λ j lo hi. h j (omega arith) (omega arith)) in
      ground (arith, rest),
)

-- The mask of the r leading digits of an octet.
abbrev lead_mask : ℕ → ℕ
lead_mask r = u8 (0xff * 2 ^ (8 - r))

bit-lead_mask_low : (r k : ℕ) → k < 8 - r → bit (lead_mask r) k ≡ 0
bit-lead_mask_low r k p =
    bit-mod 8 (0xff * 2 ^ (8 - r)) k (omega arith)
    ∙ ap (λ t. bit t k) (omega arith)
    ∙ bit-fields_low (8 - r) 0xff 0 k (two-pow-pos (8 - r)) p
    ∙ zero-bit k

bit-lead_mask_high : (r k : ℕ) → 8 - r ≤ k → k < 8 → bit (lead_mask r) k ≡ 1
bit-lead_mask_high r k lo hi =
    let padded : 0xff * 2 ^ (8 - r) ≡ 0xff * 2 ^ (8 - r) + 0 = omega arith in
    let place : k ≡ 8 - r + (k - (8 - r)) = omega arith in
    bit-mod 8 (0xff * 2 ^ (8 - r)) k hi
    ∙ ap₂ bit padded place
    ∙ bit-fields_high (8 - r) 0xff 0 (k - (8 - r)) (two-pow-pos (8 - r))
    ∙ bit-ones 8 (k - (8 - r)) (omega arith)

pub masked_iff :
    (r x y : ℕ)
    → x < 256
    → y < 256
    → (bit_and x (lead_mask r) ≡ bit_and y (lead_mask r))
      ↔ ((m : ℕ) → m < r → m < 8 → bit x (7 - m) ≡ bit y (7 - m))
masked_iff r x y hx hy = (
  λ e m p q.
      let k : ℕ = 7 - m in
      omega (
        arith,
        ap (λ t. bit t k) e,
        bit-bit_and x (lead_mask r) k,
        bit-bit_and y (lead_mask r) k,
        bit-lead_mask_high r k (omega arith) (omega arith),
        bit-lt x k,
        bit-lt y k,
      ),
  λ h. bit_ext _ _ (digit h),
)
  where
    digit :
        ((m : ℕ) → m < r → m < 8 → bit x (7 - m) ≡ bit y (7 - m))
        → (k : ℕ) → bit (bit_and x (lead_mask r)) k ≡ bit (bit_and y (lead_mask r)) k
    digit h k = bit-bit_and x (lead_mask r) k ∙ part ∙ sym (bit-bit_and y (lead_mask r) k)
      where
        part : min (bit x k) (bit (lead_mask r) k) ≡ min (bit y k) (bit (lead_mask r) k)
        part = elim (dec_lt k 8) [
          | no out ↦ omega (arith, bit-high 8 x k hx (omega arith), bit-high 8 y k hy (omega arith))
          | yes inside ↦ elim (dec_lt k (8 - r)) [
            | yes low ↦ omega (arith, bit-lead_mask_low r k low)
            | no high ↦
                let e : 7 - (7 - k) ≡ k = omega arith in
                omega (arith, h (7 - k) (omega arith) (omega arith), ap (bit x) e, ap (bit y) e)
          ]
        ]
