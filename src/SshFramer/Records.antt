-- ===== src/SshFramer/Records.antt =====
-- Records come out of a stream as they went in.
use norr.Prelude.{
  ℕ, zero, suc, ◌+◌, ◌-◌, ◌*◌, ◌/◌, ◌%◌, ◌^◌, ◌≤◌, ◌<◌, ◌≡◌, refl, ap, ◌∙◌, bit_and, bit_or, List,
  [], ◌∷◌, ◌++◌, arith, length, length-append, take, drop, take-append, ok,
}
use mathlib.Core.List.{append-nil, append_assoc}
use norr.Prelude.Bits.{bit_and_mask, bit_or_sum}
use norr.Prelude.Bytes.{byte_at, u8}
use norr.SshFramer.{pad_loop, put_u32, get_u32, padding_for, record_size, wrap, unwrap}

padding_for-bounds :
    (n : ℕ) → (4 ≤ padding_for n) × (padding_for n ≤ 11) × ((5 + n + padding_for n) % 8 ≡ 0)
unfolding padding_for
padding_for-bounds n = ground arith

length-pad_loop : (n s : ℕ) → length (pad_loop n s).0 ≡ n
unfolding pad_loop
length-pad_loop zero s = refl
length-pad_loop (suc n) s = ap suc (length-pad_loop n _)

abbrev digits : ℕ → List ℕ
digits v = v / 2 ^ 24 % 256 ∷ v / 2 ^ 16 % 256 ∷ v / 2 ^ 8 % 256 ∷ v % 256 ∷ []

put_u32-digits : (v : ℕ) → put_u32 v ≡ digits v
unfolding put_u32
put_u32-digits v =
    let a : bit_and (v / 2 ^ 24) 0xff ≡ v / 2 ^ 24 % 256 = bit_and_mask 8 (v / 2 ^ 24) in
    let b : bit_and (v / 2 ^ 16) 0xff ≡ v / 2 ^ 16 % 256 = bit_and_mask 8 (v / 2 ^ 16) in
    let c : bit_and (v / 2 ^ 8) 0xff ≡ v / 2 ^ 8 % 256 = bit_and_mask 8 (v / 2 ^ 8) in
    let d : bit_and v 0xff ≡ v % 256 = bit_and_mask 8 v in rw (a, b, c, d) refl

get_u32-digits : (v : ℕ) (rest : List ℕ) → v < 2 ^ 32 → get_u32 (digits v ++ rest) ≡ v
unfolding get_u32
get_u32-digits v rest h =
    let a : ℕ = v / 2 ^ 24 % 256 in
    let b : ℕ = v / 2 ^ 16 % 256 in
    let c : ℕ = v / 2 ^ 8 % 256 in
    let d : ℕ = v % 256 in
    let one : bit_or (a * 2 ^ 24) (b * 2 ^ 16) ≡ (a * 256 + b) * 2 ^ 16 =
      bit_or_sum 24 a (b * 2 ^ 16) (omega arith) ∙ omega arith in
    let two : bit_or ((a * 256 + b) * 2 ^ 16) (c * 2 ^ 8) ≡ ((a * 256 + b) * 256 + c) * 2 ^ 8 =
      bit_or_sum 16 (a * 256 + b) (c * 2 ^ 8) (omega arith) ∙ omega arith in
    let three : bit_or (((a * 256 + b) * 256 + c) * 2 ^ 8) d ≡ ((a * 256 + b) * 256 + c) * 256 + d =
      bit_or_sum 8 ((a * 256 + b) * 256 + c) d (omega arith) in
    ap (λ t. bit_or (bit_or t (c * 2 ^ 8)) d) one ∙ ap (λ t. bit_or t d) two ∙ three ∙ omega arith

module _ (p : List ℕ) (state : ℕ) where
  n : ℕ
  n = length p

  pads : List ℕ
  pads = (pad_loop (padding_for (length p)) state).0

  packet_length : ℕ
  packet_length = 1 + length p + padding_for (length p)

  framed : List ℕ → List ℕ
  framed rest = digits packet_length ++ (padding_for (length p) ∷ p ++ (pads ++ rest))

  wrap-framed :
      (room : ℕ)
      → length p ≤ 65535
      → record_size (length p) ≤ room
      → (wrap p room state).0 ≡ ok (framed [])
  unfolding wrap framed pads packet_length record_size
  wrap-framed room h k =
      let b = padding_for-bounds (length p) in
      let small : u8 (padding_for (length p)) ≡ padding_for (length p) = omega (arith, b.1) in
      let whole : put_u32 packet_length ++ (u8 (padding_for (length p)) ∷ p ++ pads)
          ≡ digits packet_length ++ (padding_for (length p) ∷ p ++ (pads ++ [])) =
        rw (put_u32-digits packet_length, small, append-nil pads) refl in
      ground (arith, whole)

  framed-append : (rest : List ℕ) → framed [] ++ rest ≡ framed rest
  unfolding framed
  framed-append rest =
      ap (λ t. digits packet_length ++ (padding_for (length p) ∷ t))
        (append_assoc p (pads ++ []) rest ∙ ap (λ t. p ++ t) (append_assoc pads [] rest))

  length-framed : (rest : List ℕ) → length (framed rest) ≡ 4 + packet_length + length rest
  unfolding framed pads packet_length
  length-framed rest = omega (
    arith,
    length-append p (pads ++ rest),
    length-append pads rest,
    length-pad_loop (padding_for (length p)) state,
  )

  field : (rest : List ℕ) → length p ≤ 65535 → get_u32 (framed rest) ≡ packet_length
  unfolding framed packet_length
  field rest h =
      get_u32-digits packet_length (padding_for (length p) ∷ p ++ (pads ++ rest))
        (omega (arith, padding_for-bounds (length p)))

  unwrap-framed :
      (rest : List ℕ) (room : ℕ)
      → length p ≤ 65535
      → length p ≤ room
      → unwrap (framed rest) room ≡ (ok p, 4 + packet_length)
  unfolding unwrap
  unwrap-framed rest room h k =
      let f = field rest h in
      let l = length-framed rest in
      let b = padding_for-bounds (length p) in
      let at4 : byte_at (framed rest) 4 ≡ padding_for (length p) = unfold framed in refl in
      let size : packet_length ≡ 1 + length p + padding_for (length p) =
        unfold packet_length in refl in
      let cut : packet_length - padding_for (length p) - 1 ≡ length p = omega (arith, size) in
      let body : take (length p) (drop 5 (framed rest)) ≡ p =
        unfold framed in take-append p (pads ++ rest) in
      let text : take (packet_length - padding_for (length p) - 1) (drop 5 (framed rest)) ≡ p =
        ap (λ t. take t (drop 5 (framed rest))) cut ∙ body in
      rw (f, at4) (ground (arith, l, b, size, text))

-- The record of a frame, at the head of a stream.
pub record Carried (p : List ℕ) (room state : ℕ) : Type 0 where
  pub bytes : List ℕ
  pub wrapped : (wrap p room state).0 ≡ ok bytes
  pub sized : length bytes ≡ record_size (length p)
  pub aligned : length bytes % 8 ≡ 0
  pub unwrapped :
      (rest : List ℕ) (space : ℕ)
      → length p ≤ space
      → unwrap (bytes ++ rest) space ≡ (ok p, record_size (length p))

-- Every frame of at most 65535 bytes is wrapped, in a record of a multiple of eight bytes, when the
-- buffer has the record's size; whatever follows the record in a stream, it unwraps to the frame and
-- consumes just the record.
pub wrap-Carried :
    (p : List ℕ) (room state : ℕ)
    → length p ≤ 65535
    → record_size (length p) ≤ room
    → Carried p room state
unfolding record_size packet_length
wrap-Carried p room state h k =
    let b = padding_for-bounds (length p) in
    let l = length-framed p state [] in
    record {
      bytes = framed p state [];
      wrapped = wrap-framed p state room h k;
      sized = l ∙ omega arith;
      aligned = omega (arith, l, b.2);
      unwrapped = λ rest space fits.
          ap (λ t. unwrap t space) (framed-append p state rest)
          ∙ unwrap-framed p state rest space h fits
          ∙ ap (λ t. (ok p, t)) (omega arith);
    }
