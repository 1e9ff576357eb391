-- ===== src/Common/Dicts.antt =====
-- Go's `map[K]V` as an association list; a key that is absent reads as `none`.
use mathlib.Core.Path.{◌≡◌, refl}
use mathlib.Core.Bool.{true}
use mathlib.Core.Option.{Option, none, some}
use mathlib.Core.List.{List, [], ◌∷◌}
use native.Mathlib.Omega.{arith}
use clean_architect.Common.Tests.{Eq, ◌==◌, if◌then◌else◌}

abbrev pub Dict {ℓ κ} : Type ℓ → Type κ → Type (ℓ ⊔ κ)
Dict K V = List (K × V)

module _ {ℓ κ} {K : Type ℓ} {V : Type κ} ⦃e : Eq K⦄ where
  -- m[k] = v
  unfoldable pub insert : K → V → Dict K V → Dict K V
  insert key value [] = (key, value) ∷ []
  insert key value ((k, v) ∷ rest) =
      if k == key then (key, value) ∷ rest else (k, v) ∷ insert key value rest

  -- delete(m, k)
  unfoldable pub remove : K → Dict K V → Dict K V
  remove key [] = []
  remove key ((k, v) ∷ dict) =
      let rest = remove key dict in if k == key then rest else (k, v) ∷ rest

  unfoldable pub lookup : K → Dict K V → Option V
  lookup key [] = none
  lookup key ((k, v) ∷ rest) = if k == key then some v else lookup key rest

  pub lookup-remove :
      (key other : K) (dict : Dict K V)
      → lookup other (remove key dict) ≡ (if key == other then none else lookup other dict)
  unfolding lookup remove
  lookup-remove key other [] = ground arith
  lookup-remove key other ((k, v) ∷ dict) =
      ground (
        arith,
        lookup-remove key other dict,
        e.beq_iff k key,
        e.beq_iff k other,
        e.beq_iff key other,
      )

  pub lookup-insert :
      (key other : K) (value : V) (dict : Dict K V)
      → lookup other (insert key value dict)
        ≡ (if key == other then some value else lookup other dict)
  unfolding lookup insert
  lookup-insert key other value [] = refl
  lookup-insert key other value ((k, v) ∷ dict) = ground (
    arith,
    lookup-insert key other value dict,
    e.beq_iff k key,
    e.beq_iff k other,
    e.beq_iff key other,
  )

module _ {ℓ} {K : Type ℓ} ⦃e : Eq K⦄ where
  pub beq_refl : (k : K) → (k == k) ≡ true
  beq_refl k = (e.beq_iff k k).1 refl

pub ruleset dict_laws = (lookup-insert, lookup-remove, beq_refl)
