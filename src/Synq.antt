-- ===== src/Synq.antt =====
-- pkg/synq: reads and writes of a database with a cache beside it.
pub mod Laws
pub mod Coherence
pub mod Refinement
use clean_architect.Cache.{Duration, Action, Driver, Codec}
use clean_architect.Errs.{GoError}
use clean_architect.Common.{ℕ, ◌⊎◌, inl, inr, List, [], ◌∷◌, ◌++◌, nat_eq, Text, text_eq}
use clean_architect.Cache

-- What an Async method leaves to a goroutine: its call of the cache, whose error is only logged.
pub data Task (T : Type 0) : Type 0 where
  set_task : Text → T → Duration → Task T
  delete_task : Text → Task T

-- The cache's store, the database's state, and the goroutines that have not run yet.
pub record World (S B T : Type 0) : Type 0 where
  pub store : S
  pub db : B
  pub pending : List (Task T)

-- A method: its error or value, and the world that it leaves.
abbrev pub Method : Type 0 → Type 0 → Type 0 → Type 0 → Type 0
Method S B T A = World S B T → (GoError ⊎ A) × World S B T

module _ {S B T : Type 0} (drv : Driver S) (gob : Codec T) where
  -- cr.cache.Set(…) with its error dropped
  abbrev fill : ℕ → Text → T → Duration → World S B T → World S B T
  fill now key value ttl w = record w { store = (Cache.set drv gob now key value ttl w.store).1 }

  abbrev fetched :
      (T → World S B T → World S B T)
      → (GoError ⊎ T) × B
      → World S B T
      → (GoError ⊎ T) × World S B T
  fetched after (inl err, b) w = (inl err, record w { db = b })
  fetched after (inr value, b) w = (inr value, after value (record w { db = b }))

  -- The part that Get and GetAsync share: `after` is what follows a successful `getFn`.
  abbrev read_through :
      (T → World S B T → World S B T)
      → Action B T
      → (GoError ⊎ T) × S
      → World S B T
      → (GoError ⊎ T) × World S B T
  read_through after get_fn (inr value, s) w = (inr value, record w { store = s })
  read_through after get_fn (inl missed, s) w = fetched after (get_fn w.db) (record w { store = s })

  -- Get
  unfoldable pub get : ℕ → Text → Action B T → Duration → Method S B T T
  get now key get_fn ttl w =
      read_through (λ value. fill now key value ttl) get_fn (Cache.get drv gob now key w.store) w

  -- GetAsync
  unfoldable pub get_async : ℕ → Text → Action B T → Duration → Method S B T T
  get_async now key get_fn ttl w =
      read_through (λ value w'. record w' { pending = w'.pending ++ (set_task key value ttl ∷ []) })
        get_fn (Cache.get drv gob now key w.store) w

  abbrev cached : (GoError ⊎ (Unit {0})) × S → World S B T → (GoError ⊎ (Unit {0})) × World S B T
  cached (r, s) w = (r, record w { store = s })

  -- The part that the writers share: `after` follows a successful call on the database.
  abbrev write_first :
      Method S B T (Unit {0}) → (GoError ⊎ (Unit {0})) × B → Method S B T (Unit {0})
  write_first after (inl err, b) w = (inl err, record w { db = b })
  write_first after (inr _, b) w = after (record w { db = b })

  -- Set
  unfoldable pub set : ℕ → Text → T → Action B (Unit {0}) → Duration → Method S B T (Unit {0})
  set now key value set_fn ttl w =
      write_first (λ w'. cached (Cache.set drv gob now key value ttl w'.store) w') (set_fn w.db) w

  -- SetAsync
  unfoldable pub set_async : Text → T → Action B (Unit {0}) → Duration → Method S B T (Unit {0})
  set_async key value set_fn ttl w =
      write_first
        (λ w'. (inr tt, record w' { pending = w'.pending ++ (set_task key value ttl ∷ []) }))
        (set_fn w.db) w

  -- Delete
  unfoldable pub delete : ℕ → Text → Action B (Unit {0}) → Method S B T (Unit {0})
  delete now key delete_fn w =
      write_first (λ w'. cached (Cache.delete drv now key w'.store) w') (delete_fn w.db) w

  -- DeleteAsync
  unfoldable pub delete_async : Text → Action B (Unit {0}) → Method S B T (Unit {0})
  delete_async key delete_fn w =
      write_first (λ w'. (inr tt, record w' { pending = w'.pending ++ (delete_task key ∷ []) }))
        (delete_fn w.db) w

module _ {S T : Type 0} (drv : Driver S) (gob : Codec T) where
  -- A goroutine that runs at `now`.
  unfoldable pub run_task : ℕ → Task T → S → S
  run_task now (set_task key value ttl) s = (Cache.set drv gob now key value ttl s).1
  run_task now (delete_task key) s = (Cache.delete drv now key s).1

  -- The goroutines run in the order in which they were started.
  unfoldable pub run_tasks : ℕ → List (Task T) → S → S
  unfolding run_task
  run_tasks now [] s = s
  run_tasks now (t ∷ ts) s = run_tasks now ts (run_task now t s)

module _ {S B T : Type 0} (drv : Driver S) (gob : Codec T) where
  unfoldable pub drain : ℕ → World S B T → World S B T
  unfolding run_tasks
  drain now w = record w { store = run_tasks drv gob now w.pending w.store; pending = [] }
