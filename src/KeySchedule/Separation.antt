-- ===== src/KeySchedule/Separation.antt =====
-- src/key_schedule.cpp: keys for different uses have different labels.
use mathlib.Core.List.{append_assoc}
use norr.Prelude.{
  ℕ, ◌<◌, ◌/◌, ◌^◌, ◌≡◌, refl, sym, ap, ap₂, ◌∙◌, List, [], ◌∷◌, ◌++◌, arith, length, length-append,
  drop, Result, ok, err, ok-injective, ◌>>=◌,
}
use norr.Prelude.Bytes.{u8, byte_at}
use norr.Wire.{Error}
use norr.KeySchedule.{
  KeyDirection, initiator_to_responder, responder_to_initiator, protocol_label, separator,
  direction_label, append_text, append_texts, with_generation, append_u32, make_key_label,
}

-- The label after its domain.
abbrev ending : KeyDirection → ℕ → List ℕ
ending direction generation =
    0x3A
    ∷ (direction_label direction
        ++ 0x3A
          ∷ u8 (generation / 2 ^ 24)
          ∷ u8 (generation / 2 ^ 16)
          ∷ u8 (generation / 2 ^ 8)
          ∷ u8 generation
          ∷ [])

abbrev spelled : List ℕ → KeyDirection → ℕ → List ℕ
spelled domain direction generation =
    protocol_label ++ (separator ++ (domain ++ ending direction generation))

append_text-ok : (bytes text out : List ℕ) → append_text bytes text ≡ ok out → out ≡ bytes ++ text
unfolding append_text
append_text-ok bytes text out e = ground arith

bind-ok :
    {A B : Type 0} (r : Result Error A) (f : A → Result Error B) (b : B)
    → (r >>= f) ≡ ok b
    → (a : A) × ((r ≡ ok a) × (f a ≡ ok b))
bind-ok (ok a) f b e = (a, (refl, e))
bind-ok (err x) f b e = ground arith

with_generation-ok :
    (bytes label : List ℕ) (generation : ℕ)
    → with_generation generation bytes ≡ ok label
    → label ≡ append_u32 bytes generation
unfolding with_generation
with_generation-ok bytes label generation e = ground arith

together : List (List ℕ) → List ℕ → List ℕ
together [] rest = rest
together (text ∷ texts) rest = text ++ together texts rest

append_texts-ok :
    (texts : List (List ℕ)) (bytes out rest : List ℕ)
    → append_texts bytes texts ≡ ok out
    → out ++ rest ≡ bytes ++ together texts rest
unfolding append_texts together
append_texts-ok [] bytes out rest e = ap (λ l. l ++ rest) (sym (ok-injective e))
append_texts-ok (text ∷ texts) bytes out rest e =
    let (a, (p, q)) = bind-ok (append_text bytes text) (λ b. append_texts b texts) out e in
    append_texts-ok texts a out rest q
    ∙ ap (λ l. l ++ together texts rest) (append_text-ok bytes text a p)
    ∙ append_assoc bytes text (together texts rest)

make_key_label-spelled :
    (domain : List ℕ) (direction : KeyDirection) (generation : ℕ) (label : List ℕ)
    → make_key_label domain direction generation ≡ ok label
    → label ≡ spelled domain direction generation
unfolding make_key_label append_u32 together
make_key_label-spelled [] direction generation label e = ground arith
make_key_label-spelled (c ∷ domain) direction generation label e =
    let texts : List (List ℕ) =
      protocol_label
      ∷ separator
      ∷ (c ∷ domain)
      ∷ separator
      ∷ direction_label direction
      ∷ separator
      ∷ [] in
    let (bytes, (p, q)) = bind-ok (append_texts [] texts) (with_generation generation) label e in
    with_generation-ok bytes label generation q ∙ append_texts-ok texts [] bytes _ p

length-ending :
    (direction : KeyDirection) (generation : ℕ) → length (ending direction generation) ≡ 9
length-ending initiator_to_responder generation = refl
length-ending responder_to_initiator generation = refl

append_cancel : (a b x y : List ℕ) → a ++ x ≡ b ++ y → length x ≡ length y → (a ≡ b) × (x ≡ y)
append_cancel [] [] x y e l = (refl, e)
append_cancel [] (c ∷ b) x y e l = absurd (omega (arith, ap (λ t. length t) e, length-append b y))
append_cancel (c ∷ a) [] x y e l = absurd (omega (arith, ap (λ t. length t) e, length-append a x))
append_cancel (c ∷ a) (d ∷ b) x y e l =
    let (same, rest) = append_cancel a b x y (ap (drop 1) e) l in
    (ap₂ (λ h t. h ∷ t) (ap (λ t. byte_at t 0) e) same, rest)

number_of_bytes :
    (g g' : ℕ)
    → g < 2 ^ 32
    → g' < 2 ^ 32
    → u8 (g / 2 ^ 24) ≡ u8 (g' / 2 ^ 24)
    → u8 (g / 2 ^ 16) ≡ u8 (g' / 2 ^ 16)
    → u8 (g / 2 ^ 8) ≡ u8 (g' / 2 ^ 8)
    → u8 g ≡ u8 g'
    → g ≡ g'
number_of_bytes g g' small small' a b c d = omega arith

number-injective :
    (d : KeyDirection) (g g' : ℕ) → g < 2 ^ 32 → g' < 2 ^ 32 → ending d g ≡ ending d g' → g ≡ g'
number-injective initiator_to_responder g g' small small' e =
    number_of_bytes g g' small small' (ap (λ t. byte_at t 5) e) (ap (λ t. byte_at t 6) e)
      (ap (λ t. byte_at t 7) e) (ap (λ t. byte_at t 8) e)
number-injective responder_to_initiator g g' small small' e =
    number_of_bytes g g' small small' (ap (λ t. byte_at t 5) e) (ap (λ t. byte_at t 6) e)
      (ap (λ t. byte_at t 7) e) (ap (λ t. byte_at t 8) e)

ending-injective :
    (d d' : KeyDirection) (g g' : ℕ)
    → g < 2 ^ 32
    → g' < 2 ^ 32
    → ending d g ≡ ending d' g'
    → (d ≡ d') × (g ≡ g')
ending-injective initiator_to_responder initiator_to_responder g g' small small' e =
    (refl, number-injective initiator_to_responder g g' small small' e)
ending-injective initiator_to_responder responder_to_initiator g g' small small' e =
    absurd (omega (arith, ap (λ t. byte_at t 1) e))
ending-injective responder_to_initiator initiator_to_responder g g' small small' e =
    absurd (omega (arith, ap (λ t. byte_at t 1) e))
ending-injective responder_to_initiator responder_to_initiator g g' small small' e =
    (refl, number-injective responder_to_initiator g g' small small' e)

-- Two keys of which the domain, the direction or the generation differ have different labels: what
-- a label was made from can be told from its bytes, even where a domain has the separator in it.
pub make_key_label-injective :
    (domain domain' : List ℕ) (direction direction' : KeyDirection) (generation generation' : ℕ)
    (label : List ℕ)
    → generation < 2 ^ 32
    → generation' < 2 ^ 32
    → make_key_label domain direction generation ≡ ok label
    → make_key_label domain' direction' generation' ≡ ok label
    → (domain ≡ domain') × ((direction ≡ direction') × (generation ≡ generation'))
make_key_label-injective domain domain' direction direction' generation generation' label small
      small' e e' =
    let same = ap (drop 8) (
      sym (make_key_label-spelled domain direction generation label e)
      ∙ make_key_label-spelled domain' direction' generation' label e') in
    let (domains, endings) =
      append_cancel domain domain' (ending direction generation) (ending direction' generation')
        same (length-ending direction generation ∙ sym (length-ending direction' generation')) in
    (domains, ending-injective direction direction' generation generation' small small' endings)
