-- ===== src/DnsFramer.antt =====
-- src/dns_framer.cpp, include/norr/dns_framer.hpp: tunnel packets inside DNS messages.
-- A position in the message stands for the bytes from there on; a call that writes to a buffer of
-- `room` bytes gives the bytes it wrote. A character is its number.
pub mod Names
pub mod RoundTrip
pub mod Tests
use norr.Prelude.{
  ℕ, zero, suc, ◌+◌, ◌-◌, ◌*◌, ◌/◌, ◌^◌, bit_and, bit_or, Bool, ◌||◌, List, [], ◌∷◌, ◌++◌, ltb,
  ◌==◌, if◌then◌else◌, length, take, drop, Option, none, some, Result, ok, err,
}
use norr.Prelude.Bytes.{byte_at, u8, u16}

abbrev pub dns_header_size : ℕ
dns_header_size = 12

abbrev pub dns_question_trailer_size : ℕ
dns_question_trailer_size = 4

abbrev pub dns_payload_length_size : ℕ
dns_payload_length_size = 2

abbrev pub dns_label_max_size : ℕ
dns_label_max_size = 63

abbrev pub dns_type_txt : ℕ
dns_type_txt = 0x0010

abbrev pub dns_class_in : ℕ
dns_class_in = 0x0001

abbrev pub dns_flags_query : ℕ
dns_flags_query = 0x0100

abbrev pub dns_flags_response : ℕ
dns_flags_response = 0x8180

pub data DnsFramerError : Type 0 where
  payload_too_large buffer_too_small malformed : DnsFramerError

pub data DnsRole : Type 0 where
  client server : DnsRole

pub record DnsFramer : Type 0 where
  pub role : DnsRole
  pub qname : List ℕ
  pub id : ℕ

-- "t.example.com"
abbrev pub default_domain : List ℕ
default_domain = 116 ∷ 46 ∷ 101 ∷ 120 ∷ 97 ∷ 109 ∷ 112 ∷ 108 ∷ 101 ∷ 46 ∷ 99 ∷ 111 ∷ 109 ∷ []

abbrev pub dot : ℕ
dot = 46

-- The characters before the next dot, and what follows it, if there is a dot.
unfoldable pub split_dot : List ℕ → List ℕ × Option (List ℕ)
split_dot [] = ([], none)
split_dot (c ∷ cs) =
    let rest = split_dot cs in if c == dot then ([], some cs) else (c ∷ rest.0, rest.1)

abbrev pub put_label : List ℕ → List ℕ
put_label [] = []
put_label (c ∷ cs) = let label = take dns_label_max_size (c ∷ cs) in u8 (length label) ∷ label

-- The loop of `encode_domain`, on fuel; every round but the last passes a dot, so one round more than
-- the domain has characters is enough.
unfoldable pub encode_loop : ℕ → List ℕ → List ℕ
encode_loop zero domain = []
encode_loop (suc fuel) domain =
    let (label, rest) = split_dot domain in
    elim rest [ none ↦ put_label label | some more ↦ put_label label ++ encode_loop fuel more ]

unfoldable pub encode_domain : List ℕ → List ℕ
encode_domain domain = encode_loop (length domain + 1) domain ++ (0 ∷ [])

abbrev pub or_default : List ℕ → List ℕ
or_default [] = default_domain
or_default (c ∷ cs) = c ∷ cs

unfoldable pub configure : DnsRole → List ℕ → DnsFramer → DnsFramer
configure role domain f = record f { role = role; qname = encode_domain (or_default domain) }

unfoldable pub put_u16 : ℕ → List ℕ
put_u16 value = u8 (value / 2 ^ 8) ∷ bit_and value 0xff ∷ []

unfoldable pub get_u16 : List ℕ → ℕ
get_u16 b = u16 (bit_or (byte_at b 0 * 2 ^ 8) (byte_at b 1))

unfoldable pub envelope_size : DnsFramer → ℕ
envelope_size f =
    dns_header_size + length f.qname + dns_question_trailer_size + dns_payload_length_size

unfoldable pub max_payload : DnsFramer → ℕ → ℕ
max_payload f datagram_size =
    if ltb (envelope_size f) datagram_size then datagram_size - envelope_size f else 0

abbrev pub flags_of : DnsRole → ℕ
flags_of server = dns_flags_response
flags_of client = dns_flags_query

abbrev pub answers_of : DnsRole → ℕ
answers_of server = 1
answers_of client = 0

-- The stores of `wrap`, from the first byte of the message on.
unfoldable pub message : DnsFramer → List ℕ → List ℕ
message f payload =
    put_u16 f.id
    ++ (put_u16 (flags_of f.role)
        ++ (put_u16 1
            ++ (put_u16 (answers_of f.role)
                ++ (put_u16 0
                    ++ (put_u16 0
                        ++ (f.qname
                            ++ (put_u16 dns_type_txt
                                ++ (put_u16 dns_class_in
                                    ++ (put_u16 (u16 (length payload)) ++ payload)))))))))

unfoldable pub wrap : List ℕ → ℕ → DnsFramer → Result DnsFramerError (List ℕ) × DnsFramer
wrap payload room f =
    let next = record f { id = u16 (f.id + 1) } in
    if ltb 0xffff (length payload)
    then (err payload_too_large, f)
    else if ltb room (envelope_size f + length payload)
    then (err buffer_too_small, f)
    else (ok (message next payload), next)

-- The loop over the labels, on fuel: each round passes a byte, so the message's length is enough.
-- `none` stands for a label that is too long and for a name without an end.
unfoldable pub skip_labels : ℕ → List ℕ → Option (List ℕ)
skip_labels zero bytes = none
skip_labels (suc fuel) [] = none
skip_labels (suc fuel) (label ∷ bytes) =
    let rest = skip_labels fuel (drop label bytes) in
    if label == 0
    then some bytes
    else if ltb dns_label_max_size label || ltb (length bytes) label
    then none
    else rest

-- `unwrap` once the name is passed.
unfoldable pub unwrap_answer : List ℕ → ℕ → Result DnsFramerError (List ℕ)
unwrap_answer bytes room =
    let field = drop dns_question_trailer_size bytes in
    let payload = drop dns_payload_length_size field in
    let size = get_u16 field in
    if ltb (length bytes) (dns_question_trailer_size + dns_payload_length_size)
    then err malformed
    else if ltb (length payload) size
    then err malformed
    else if ltb room size
    then err buffer_too_small
    else ok (take size payload)

unfoldable pub unwrap : List ℕ → ℕ → Result DnsFramerError (List ℕ)
unwrap wire room =
    if ltb (length wire) dns_header_size
    then err malformed
    else elim (skip_labels (length wire) (drop dns_header_size wire)) [
      | none ↦ err malformed
      | some bytes ↦ unwrap_answer bytes room
    ]
