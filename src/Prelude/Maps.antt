-- ===== src/Prelude/Maps.antt =====
-- `std::unordered_map` as a list of keys and values, each key once; no caller depends on the order.
use Prim.Native.Nat.{ℕ, ◌+◌, ◌≤◌}
use mathlib.Core.Path.{◌≡◌, refl}
use mathlib.Core.Logic.{◌≢◌}
use mathlib.Core.Bool.{Bool, true, false}
use mathlib.Core.Option.{Option, none, some}
use mathlib.Core.List.{List, [], ◌∷◌}
use native.Mathlib.Omega.{arith}
use norr.Prelude.Tests.{◌==◌, if◌then◌else◌}
use norr.Prelude.Lists.{length}

module _ {V : Type 0} where
  unfoldable pub find : List (ℕ × V) → ℕ → Option V
  find [] k = none
  find (e ∷ es) k = if e.0 == k then some e.1 else find es k

  unfoldable pub has : List (ℕ × V) → ℕ → Bool
  has [] k = false
  has (e ∷ es) k = if e.0 == k then true else has es k

  unfoldable pub erase : ℕ → List (ℕ × V) → List (ℕ × V)
  erase k [] = []
  erase k (e ∷ es) = let rest = erase k es in if e.0 == k then rest else e ∷ rest

  abbrev pub put : ℕ → V → List (ℕ × V) → List (ℕ × V)
  put k v m = (k, v) ∷ erase k m

  pub find-erase_self : (k : ℕ) (m : List (ℕ × V)) → find (erase k m) k ≡ none
  unfolding find erase
  find-erase_self k [] = refl
  find-erase_self k (e ∷ es) = ground (arith, find-erase_self k es)

  pub find-erase_ne : (k l : ℕ) (m : List (ℕ × V)) → l ≢ k → find (erase k m) l ≡ find m l
  unfolding find erase
  find-erase_ne k l [] n = refl
  find-erase_ne k l (e ∷ es) n = ground (arith, find-erase_ne k l es n)

  pub find-put_self : (k : ℕ) (v : V) (m : List (ℕ × V)) → find (put k v m) k ≡ some v
  unfolding find
  find-put_self k v m = ground arith

  pub find-put_ne : (k l : ℕ) (v : V) (m : List (ℕ × V)) → l ≢ k → find (put k v m) l ≡ find m l
  unfolding find
  find-put_ne k l v m n = ground (arith, find-erase_ne k l m n)

  pub has-erase_ne : (k l : ℕ) (m : List (ℕ × V)) → l ≢ k → has (erase k m) l ≡ has m l
  unfolding has erase
  has-erase_ne k l [] n = refl
  has-erase_ne k l (e ∷ es) n = ground (arith, has-erase_ne k l es n)

  pub length-erase_le : (k : ℕ) (m : List (ℕ × V)) → length (erase k m) ≤ length m
  unfolding erase
  length-erase_le k [] = omega arith
  length-erase_le k (e ∷ es) = ground (arith, length-erase_le k es)

  pub length-erase_of_present :
      (k : ℕ) (m : List (ℕ × V)) → has m k ≡ true → length (erase k m) + 1 ≤ length m
  unfolding has erase
  length-erase_of_present k [] h = ground arith
  length-erase_of_present k (e ∷ es) h =
      ground (arith, length-erase_of_present k es, length-erase_le k es)

  pub has-erase_self : (k : ℕ) (m : List (ℕ × V)) → has (erase k m) k ≡ false
  unfolding has erase
  has-erase_self k [] = refl
  has-erase_self k (e ∷ es) = ground (arith, has-erase_self k es)

  pub has-find : (k : ℕ) (v : V) (m : List (ℕ × V)) → find m k ≡ some v → has m k ≡ true
  unfolding find has
  has-find k v [] h = ground arith
  has-find k v (e ∷ es) h = ground (arith, has-find k v es)
