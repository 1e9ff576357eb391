-- ===== src/Cache/Lawful.antt =====
-- What a driver of the cache promises, whatever its store: the contract between pkg/cache and pkg/synq.
use clean_architect.Cache.{Duration, Driver}
use clean_architect.Cache.InMemory.{Store, set, delete, driver}
use clean_architect.Cache.InMemory.Laws.{
  view, answer, get-view, view-set, view-delete, view-get, is_over,
}
use clean_architect.Common.{
  ℕ, ◌≤◌, ◌≡◌, refl, ◌∙◌, ◌⊎◌, inl, inr, false, Option, none, some, Bool-cases, ◌==◌, nat_eq, Text,
  text_eq, beq_refl,
}

-- `view` is what a client can read under a key at a time. A value that is set may be gone at any time,
-- and nothing else is ever read under its key; time adds nothing.
pub record IsCache {S : Type 0} (drv : Driver S) : Type 0 where
  pub seen : ℕ → S → Text → Option Text
  pub get_seen : (now : ℕ) (k : Text) (s : S) → (drv.get now k s).0 ≡ answer (seen now s k)
  pub get_keeps :
      (now later : ℕ) (k j : Text) (s : S)
      → now ≤ later
      → seen later (drv.get now k s).1 j ≡ seen later s j
  pub set_done :
      (now : ℕ) (k content : Text) (ttl : Duration) (s : S)
      → (drv.set now k content ttl s).0 ≡ inr tt
  pub set_self :
      (now later : ℕ) (k content : Text) (ttl : Duration) (s : S)
      → (seen later (drv.set now k content ttl s).1 k ≡ none)
        ⊎ (seen later (drv.set now k content ttl s).1 k ≡ some content)
  pub set_other :
      (now later : ℕ) (k j content : Text) (ttl : Duration) (s : S)
      → (k == j) ≡ false
      → seen later (drv.set now k content ttl s).1 j ≡ seen later s j
  pub delete_done : (now : ℕ) (k : Text) (s : S) → (drv.delete now k s).0 ≡ inr tt
  pub delete_self : (now later : ℕ) (k : Text) (s : S) → seen later (drv.delete now k s).1 k ≡ none
  pub delete_other :
      (now later : ℕ) (k j : Text) (s : S)
      → (k == j) ≡ false
      → seen later (drv.delete now k s).1 j ≡ seen later s j

set_self_in_memory :
    (now later : ℕ) (k content : Text) (ttl : Duration) (s : Store)
    → (view later (set now k content ttl s).1 k ≡ none)
      ⊎ (view later (set now k content ttl s).1 k ≡ some content)
set_self_in_memory now later k content ttl s =
    rw (view-set now later k k content ttl s, beq_refl k)
      (elim (Bool-cases (is_over now later ttl)) [
        | inl e ↦ rw e (inl refl)
        | inr e ↦ rw e (inr refl)
      ])

-- The in-memory driver keeps the contract.
pub driver-IsCache : IsCache driver
unfolding set delete
driver-IsCache = record {
  seen = view;
  get_seen = get-view;
  get_keeps = view-get;
  set_done = λ now k content ttl s. refl;
  set_self = set_self_in_memory;
  set_other = λ now later k j content ttl s e. view-set now later k j content ttl s ∙ rw e refl;
  delete_done = λ now k s. refl;
  delete_self = λ now later k s. view-delete now later k k s ∙ rw (beq_refl k) refl;
  delete_other = λ now later k j s e. view-delete now later k j s ∙ rw e refl;
}
