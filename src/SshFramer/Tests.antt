-- ===== src/SshFramer/Tests.antt =====
-- A frame of three bytes.
use norr.Prelude.{◌≡◌, refl, [], ◌∷◌, arith, err}
use norr.SshFramer.{padding_for, record_size, incomplete, get_u32, unwrap}
use norr.SshFramer.Records.{Carried, wrap-Carried}

record_size-three : record_size 3 ≡ 16
unfolding record_size padding_for
record_size-three = refl

unwrap_short : unwrap (0 ∷ 0 ∷ 0 ∷ 12 ∷ 8 ∷ 1 ∷ []) 9 ≡ (err incomplete, 0)
unfolding unwrap get_u32
unwrap_short = refl

wrap-Carried_example : Carried (1 ∷ 2 ∷ 3 ∷ []) 16 5
wrap-Carried_example =
    wrap-Carried (1 ∷ 2 ∷ 3 ∷ []) 16 5 (omega arith) (omega (arith, record_size-three))
