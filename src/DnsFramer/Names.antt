-- ===== src/DnsFramer/Names.antt =====
-- Encoded names, and that `skip_labels` passes them.
use norr.Prelude.{
  ℕ, zero, suc, ◌+◌, ◌≤◌, ◌≡◌, refl, sym, ap, ◌∙◌, List, [], ◌∷◌, ◌++◌, arith, length,
  length-append, length-take, take, drop, drop-append, some, Option-cases, inl, inr, subst,
}
use mathlib.Core.List.{append_assoc}
use norr.Prelude.Bytes.{u8}
use norr.DnsFramer.{split_dot, put_label, encode_loop, encode_domain, skip_labels}

-- A name: labels of 1 to 63 bytes behind their lengths, and a zero.
pub data Name : List ℕ → Type 0 where
  done : Name (0 ∷ [])
  label :
      (n : ℕ) (text rest : List ℕ)
      → length text ≡ n
      → 1 ≤ n
      → n ≤ 63
      → Name rest
      → Name (n ∷ text ++ rest)

put_label-Name : (text rest : List ℕ) → Name rest → Name (put_label text ++ rest)
put_label-Name [] rest h = h
put_label-Name (c ∷ cs) rest h =
    label (u8 (length (take 63 (c ∷ cs)))) (take 63 (c ∷ cs)) rest
      (omega (arith, length-take 63 (c ∷ cs))) (omega (arith, length-take 63 (c ∷ cs)))
      (omega (arith, length-take 63 (c ∷ cs))) h

encode_loop-Name :
    (fuel : ℕ) (domain rest : List ℕ) → Name rest → Name (encode_loop fuel domain ++ rest)
unfolding encode_loop
encode_loop-Name zero domain rest h = h
encode_loop-Name (suc fuel) domain rest h = elim (Option-cases (split_dot domain).1) [
  | inl e ↦ rw (encode_loop, e) (put_label-Name (split_dot domain).0 rest h)
  | inr (more, e) ↦
      rw (encode_loop, e)
        (subst Name
          (sym (append_assoc (put_label (split_dot domain).0) (encode_loop fuel more) rest))
          (put_label-Name (split_dot domain).0 (encode_loop fuel more ++ rest)
            (encode_loop-Name fuel more rest h)))
]

-- `skip_labels` passes a name, with any fuel above its length.
pub skip_labels-Name :
    (fuel : ℕ) (name tail : List ℕ)
    → Name name
    → length name ≤ fuel
    → skip_labels fuel (name ++ tail) ≡ some tail
unfolding skip_labels
skip_labels-Name zero _ tail done h = ground arith
skip_labels-Name (suc fuel) _ tail done h = refl
skip_labels-Name zero _ tail (label n text rest e p q k) h = ground arith
skip_labels-Name (suc fuel) _ tail (label n text rest e p q k) h =
    let whole : text ++ rest ++ tail ≡ text ++ (rest ++ tail) = append_assoc text rest tail in
    let cut : drop n (text ++ rest ++ tail) ≡ rest ++ tail =
      ap (drop n) whole
      ∙ ap (λ m. drop m (text ++ (rest ++ tail))) (sym e)
      ∙ drop-append text (rest ++ tail) in
    let later : skip_labels fuel (drop n (text ++ rest ++ tail)) ≡ some tail =
      ap (skip_labels fuel) cut
      ∙ skip_labels-Name fuel rest tail k (omega (arith, length-append text rest)) in
    ground (arith, later, length-append (text ++ rest) tail, length-append text rest)

-- What `configure` stores is a name, whatever the domain is.
pub encode_domain-Name : (domain : List ℕ) → Name (encode_domain domain)
unfolding encode_domain
encode_domain-Name domain = encode_loop-Name (length domain + 1) domain (0 ∷ []) done
