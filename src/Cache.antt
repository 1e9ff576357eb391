-- ===== src/Cache.antt =====
-- pkg/cache/cache.go: values encoded into bytes, over a driver.
pub mod InMemory
pub mod Lawful
pub mod Remote
use clean_architect.Common.Int.{ℤ}
use clean_architect.Errs.{GoError}
use clean_architect.Common.{ℕ, ◌⊎◌, inl, inr, nat_eq, Text, text_eq}

-- time.Duration in nanoseconds.
abbrev pub Duration : Type 0
Duration = ℤ

-- A fallible operation on a store: the error or the value, and the store that is left.
abbrev pub Action : Type 0 → Type 0 → Type 0
Action S A = S → (GoError ⊎ A) × S

-- The interface `Driver` over a store `S`. Each call is given the time at which it runs.
pub record Driver (S : Type 0) : Type 0 where
  pub set : ℕ → Text → Text → Duration → Action S (Unit {0})
  pub get : ℕ → Text → Action S Text
  pub delete : ℕ → Text → Action S (Unit {0})

-- encoding/gob is a parameter: `encode` and `decode` of one type of values.
pub record Codec (T : Type 0) : Type 0 where
  pub encode : T → GoError ⊎ Text
  pub decode : Text → GoError ⊎ T

module _ {S T : Type 0} (drv : Driver S) (gob : Codec T) where
  unfoldable pub set : ℕ → Text → T → Duration → Action S (Unit {0})
  set now key value ttl s = elim (gob.encode value) [
    | inl err ↦ (inl err, s)
    | inr bytes ↦ drv.set now key bytes ttl s
  ]

  abbrev decoded : Codec T → (GoError ⊎ Text) × S → (GoError ⊎ T) × S
  decoded c (inl err, s) = (inl err, s)
  decoded c (inr bytes, s) = (c.decode bytes, s)

  unfoldable pub get : ℕ → Text → Action S T
  get now key s = decoded gob (drv.get now key s)

unfoldable pub delete : {S : Type 0} → Driver S → ℕ → Text → Action S (Unit {0})
delete drv now key s = drv.delete now key s
