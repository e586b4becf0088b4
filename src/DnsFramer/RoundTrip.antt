-- ===== src/DnsFramer/RoundTrip.antt =====
-- What is wrapped in a DNS message is unwrapped from it.
use norr.Prelude.{
  ℕ, ◌+◌, ◌*◌, ◌/◌, ◌%◌, ◌^◌, ◌≤◌, ◌<◌, ◌≡◌, refl, ap, ◌∙◌, bit_and, bit_or, List, [], ◌∷◌, ◌++◌,
  arith, length, length-append, take-all, drop, some, ok,
}
use norr.Prelude.Bits.{bit_and_mask, bit_or_sum}
use norr.Prelude.Bytes.{u8, u16}
use norr.DnsFramer.{
  DnsRole, DnsFramer, configure, or_default, put_u16, get_u16, envelope_size, message, wrap,
  skip_labels, unwrap_answer, unwrap,
}
use norr.DnsFramer.Names.{Name, skip_labels-Name, encode_domain-Name}

put_u16-pair : (v : ℕ) → v < 2 ^ 16 → put_u16 v ≡ v / 256 ∷ v % 256 ∷ []
unfolding put_u16
put_u16-pair v h =
    let hi : u8 (v / 2 ^ 8) ≡ v / 256 = omega arith in
    let lo : bit_and v 0xff ≡ v % 256 = bit_and_mask 8 v in rw (hi, lo) refl

get_u16-pair : (v : ℕ) (rest : List ℕ) → v < 2 ^ 16 → get_u16 (v / 256 ∷ v % 256 ∷ rest) ≡ v
unfolding get_u16
get_u16-pair v rest h =
    let sum : bit_or (v / 256 * 2 ^ 8) (v % 256) ≡ v / 256 * 2 ^ 8 + v % 256 =
      bit_or_sum 8 (v / 256) (v % 256) (omega arith) in
    rw sum (omega arith)

-- The message behind its name.
abbrev answer : List ℕ → List ℕ
answer payload = put_u16 0x10 ++ (put_u16 1 ++ (put_u16 (u16 (length payload)) ++ payload))

behind_header :
    (f : DnsFramer) (payload : List ℕ) → drop 12 (message f payload) ≡ f.qname ++ answer payload
unfolding message put_u16
behind_header f payload = refl

length-message :
    (f : DnsFramer) (payload : List ℕ)
    → length (message f payload) ≡ envelope_size f + length payload
unfolding message put_u16 envelope_size
length-message f payload = omega (arith, length-append f.qname (answer payload))

unwrap_answer-answer :
    (payload : List ℕ) (room : ℕ)
    → length payload ≤ 65535
    → length payload ≤ room
    → unwrap_answer (answer payload) room ≡ ok payload
unfolding unwrap_answer put_u16
unwrap_answer-answer payload room h k =
    let n : ℕ = length payload in
    let field : get_u16 (put_u16 (u16 n) ++ payload) ≡ n =
      ap (λ t. get_u16 (put_u16 t ++ payload)) (omega arith)
      ∙ ap (λ t. get_u16 (t ++ payload)) (put_u16-pair n (omega arith))
      ∙ get_u16-pair n payload (omega arith) in
    rw field (ground (arith, take-all n payload (omega arith)))

unwrap-message :
    (f : DnsFramer) (payload : List ℕ) (room : ℕ)
    → Name f.qname
    → length payload ≤ 65535
    → length payload ≤ room
    → unwrap (message f payload) room ≡ ok payload
unfolding unwrap envelope_size
unwrap-message f payload room name h k =
    let l = length-message f payload in
    let skipped : skip_labels (length (message f payload)) (drop 12 (message f payload))
        ≡ some (answer payload) =
      ap (skip_labels (length (message f payload))) (behind_header f payload)
      ∙ skip_labels-Name (length (message f payload)) f.qname (answer payload) name
          (omega (arith, l)) in
    ground (arith, l, skipped, unwrap_answer-answer payload room h k)

-- What the message of a payload is to its receiver.
pub record Conveyed (f : DnsFramer) (payload : List ℕ) (room : ℕ) : Type 0 where
  pub bytes : List ℕ
  pub wrapped : (wrap payload room f).0 ≡ ok bytes
  pub sized : length bytes ≡ envelope_size f + length payload
  pub unwrapped : (space : ℕ) → length payload ≤ space → unwrap bytes space ≡ ok payload

-- A framer configured for any role and domain wraps every payload of at most 65535 bytes when the
-- buffer has room for it and the envelope, and the message unwraps to the payload.
pub wrap-Conveyed :
    (role : DnsRole) (domain payload : List ℕ) (old : DnsFramer) (room : ℕ)
    → length payload ≤ 65535
    → envelope_size (configure role domain old) + length payload ≤ room
    → Conveyed (configure role domain old) payload room
unfolding wrap configure envelope_size
wrap-Conveyed role domain payload old room h k =
    let f : DnsFramer = configure role domain old in
    let next : DnsFramer = record f { id = u16 (f.id + 1) } in
    record {
      bytes = message next payload;
      wrapped = ground arith;
      sized = length-message next payload;
      unwrapped = λ space fits.
          unwrap-message next payload space (encode_domain-Name (or_default domain)) h fits;
    }
