-- ===== src/DnsFramer/Tests.antt =====
-- A message for a short domain.
use norr.Prelude.{ℕ, ◌≡◌, refl, List, [], ◌∷◌, arith, err}
use norr.DnsFramer.{
  DnsFramer, client, server, malformed, configure, encode_domain, encode_loop, split_dot,
  envelope_size, unwrap,
}
use norr.DnsFramer.RoundTrip.{Conveyed, wrap-Conveyed}

abbrev domain : List ℕ
domain = 97 ∷ 46 ∷ 98 ∷ 99 ∷ []

abbrev blank : DnsFramer
blank = record { role = client; qname = []; id = 0 }

encode_domain-domain : encode_domain domain ≡ 1 ∷ 97 ∷ 2 ∷ 98 ∷ 99 ∷ 0 ∷ []
unfolding encode_domain encode_loop split_dot
encode_domain-domain = refl

unwrap_short : unwrap (1 ∷ 2 ∷ []) 9 ≡ err malformed
unfolding unwrap
unwrap_short = refl

envelope_size-domain : envelope_size (configure server domain blank) ≡ 24
unfolding envelope_size configure encode_domain encode_loop split_dot
envelope_size-domain = refl

wrap-Conveyed_example : Conveyed (configure server domain blank) (7 ∷ 8 ∷ []) 40
wrap-Conveyed_example =
    wrap-Conveyed server domain (7 ∷ 8 ∷ []) blank 40 (omega arith)
      (omega (arith, envelope_size-domain))
