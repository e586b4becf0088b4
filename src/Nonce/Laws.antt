-- ===== src/Nonce/Laws.antt =====
-- No two packets of a key share a nonce.
use norr.Prelude.{
  ℕ, zero, suc, ◌+◌, ◌/◌, ◌^◌, ◌≤◌, ◌<◌, ◌≡◌, refl, sym, ap, ◌∙◌, true, List, [], ◌∷◌, arith, ok,
  err,
}
use norr.Prelude.Bytes.{byte_at, u8}
use norr.Nonce.{make_nonce, PacketCounter, next, uint64_max}

byte_of_nonce :
    (c : ℕ)
    → make_nonce c
      ≡ 0
        ∷ 0
        ∷ 0
        ∷ 0
        ∷ u8 c
        ∷ u8 (c / 2 ^ 8)
        ∷ u8 (c / 2 ^ 16)
        ∷ u8 (c / 2 ^ 24)
        ∷ u8 (c / 2 ^ 32)
        ∷ u8 (c / 2 ^ 40)
        ∷ u8 (c / 2 ^ 48)
        ∷ u8 (c / 2 ^ 56)
        ∷ []
unfolding make_nonce
byte_of_nonce c = ground arith

-- Different counters give different nonces.
pub make_nonce-injective : (c d : ℕ) → c < 2 ^ 64 → d < 2 ^ 64 → make_nonce c ≡ make_nonce d → c ≡ d
make_nonce-injective c d hc hd e =
    let same = λ (k : ℕ). ap (λ l. byte_at l k) (sym (byte_of_nonce c) ∙ e ∙ byte_of_nonce d) in
    let b0 : u8 c ≡ u8 d = same 4 in
    let b1 : u8 (c / 2 ^ 8) ≡ u8 (d / 2 ^ 8) = same 5 in
    let b2 : u8 (c / 2 ^ 16) ≡ u8 (d / 2 ^ 16) = same 6 in
    let b3 : u8 (c / 2 ^ 24) ≡ u8 (d / 2 ^ 24) = same 7 in
    let b4 : u8 (c / 2 ^ 32) ≡ u8 (d / 2 ^ 32) = same 8 in
    let b5 : u8 (c / 2 ^ 40) ≡ u8 (d / 2 ^ 40) = same 9 in
    let b6 : u8 (c / 2 ^ 48) ≡ u8 (d / 2 ^ 48) = same 10 in
    let b7 : u8 (c / 2 ^ 56) ≡ u8 (d / 2 ^ 56) = same 11 in omega arith

-- The counters that n calls hand out.
unfoldable pub draws : ℕ → PacketCounter → List ℕ
draws zero c = []
draws (suc n) c =
    let rest = draws n (next c).1 in elim (next c).0 [ ok value ↦ value ∷ rest | err e ↦ rest ]

abbrev pub Rising : ℕ → List ℕ → Type 0
Rising low [] = Unit {0}
Rising low (x ∷ xs) = (low ≤ x) × (x ≤ uint64_max) × Rising (x + 1) xs

none_left : (n low : ℕ) (c : PacketCounter) → c.exhausted ≡ true → Rising low (draws n c)
unfolding draws next
none_left zero low c e = tt
none_left (suc n) low c e = ground (arith, none_left n low c e)

-- However often it is called, the counter hands out each number once and in rising order, never
-- wraps past 2 ^ 64 - 1, and starts at the value it holds.
pub draws-Rising : (n : ℕ) (c : PacketCounter) → c.value ≤ uint64_max → Rising c.value (draws n c)
unfolding draws next
draws-Rising zero c h = tt
draws-Rising (suc n) c h = ground (
  arith,
  none_left n c.value c,
  none_left n (c.value + 1) (record c { exhausted = true }) refl,
  draws-Rising n (record c { value = c.value + 1 }),
)
