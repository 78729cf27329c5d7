-- ===== src/Base/Maps.antt =====
-- Go maps with int keys as association lists: `m[k]`, `m[k] = v`, `delete(m, k)`.
use mathlib.Core.Path.{◌≡◌, refl}
use mathlib.Core.List.{List, [], ◌∷◌}
use mathlib.Core.Option.{Option, none, some}
use native.Mathlib.Omega.{arith}
use keypool_service.Base.Tests.{if◌then◌else◌}
use keypool_service.Base.Int.{ℤ, eq_ℤ, eq_ℤ_iff}

abbrev pub IntMap {ℓ} : Type ℓ → Type ℓ
IntMap V = List (ℤ × V)

module _ {ℓ} {V : Type ℓ} where
  unfoldable pub lookup : ℤ → IntMap V → Option V
  lookup k [] = none
  lookup k ((j, v) ∷ m) = if eq_ℤ j k then some v else lookup k m

  unfoldable pub insert : ℤ → V → IntMap V → IntMap V
  insert k v [] = (k, v) ∷ []
  insert k v ((j, w) ∷ m) = if eq_ℤ j k then (k, v) ∷ m else (j, w) ∷ insert k v m

  unfoldable pub erase : ℤ → IntMap V → IntMap V
  erase k [] = []
  erase k ((j, w) ∷ m) = if eq_ℤ j k then erase k m else (j, w) ∷ erase k m

  pub lookup-insert :
      (k j : ℤ) (v : V) (m : IntMap V)
      → lookup j (insert k v m) ≡ (if eq_ℤ k j then some v else lookup j m)
  unfolding lookup insert
  lookup-insert k j v [] = refl
  lookup-insert k j v ((i, w) ∷ m) =
      ground (arith, eq_ℤ_iff k j, eq_ℤ_iff i k, eq_ℤ_iff i j, lookup-insert k j v m)

  pub lookup-erase :
      (k j : ℤ) (m : IntMap V) → lookup j (erase k m) ≡ (if eq_ℤ k j then none else lookup j m)
  unfolding lookup erase
  lookup-erase k j [] = ground arith
  lookup-erase k j ((i, w) ∷ m) =
      ground (arith, eq_ℤ_iff k j, eq_ℤ_iff i k, eq_ℤ_iff i j, lookup-erase k j m)

-- `m[k]` where a missing key reads as the zero value.
abbrev pub lookup_or {ℓ} : {V : Type ℓ} → ℤ → IntMap V → V → V
lookup_or k m d = elim (lookup k m) [ some v ↦ v | none ↦ d ]
