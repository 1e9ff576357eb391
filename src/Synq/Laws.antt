-- ===== src/Synq/Laws.antt =====
-- The database comes first, and the Async methods do in the end what the others do at once.
use clean_architect.Cache.{Duration, Action, Driver, Codec}
use clean_architect.Errs.{GoError}
use clean_architect.Synq.{World, get, get_async, set, set_async, delete, delete_async, drain}
use clean_architect.Common.{ℕ, ◌≡◌, ◌⊎◌, inl, inr, [], arith, nat_eq, Text, text_eq}
use clean_architect.Cache

module _ {S B T : Type 0} (drv : Driver S) (gob : Codec T) where
  -- The cache and the goroutines are as before.
  abbrev pub SameCache : World S B T → World S B T → Type 0
  SameCache w w' = (w'.store ≡ w.store) × (w'.pending ≡ w.pending)

  abbrev pub Fails : {A : Type 0} → World S B T → (GoError ⊎ A) × World S B T → GoError → Type 0
  Fails w (r, w') err = (r ≡ inl err) × SameCache w w'

  -- If the call on the database fails, each of the four writers returns its error and leaves the
  -- cache as it was, with no goroutine started.
  pub writers_fail :
      (now : ℕ) (key : Text) (value : T) (write : Action B (Unit {0})) (ttl : Duration)
      (w : World S B T) (err : GoError)
      → (write w.db).0 ≡ inl err
      → Fails w (set drv gob now key value write ttl w) err
        × Fails w (set_async drv gob key value write ttl w) err
        × Fails w (delete drv gob now key write w) err
        × Fails w (delete_async drv gob key write w) err
  unfolding set set_async delete delete_async
  writers_fail now key value write ttl w err h = ground arith

  -- Where no goroutine waits, running those that GetAsync starts leaves the world that Get leaves;
  -- the two return the same.
  pub drain-get_async :
      (now : ℕ) (key : Text) (get_fn : Action B T) (ttl : Duration) (w : World S B T)
      → w.pending ≡ []
      → (drain drv gob now (get_async drv gob now key get_fn ttl w).1
          ≡ (get drv gob now key get_fn ttl w).1)
        × ((get_async drv gob now key get_fn ttl w).0 ≡ (get drv gob now key get_fn ttl w).0)
  unfolding get get_async drain
  drain-get_async now key get_fn ttl w h = ground arith

  -- Where no goroutine waits, running those that SetAsync starts leaves the world that Set leaves,
  -- and those of DeleteAsync the world that Delete leaves. The results of the Async methods are
  -- those of the database, errors exactly where it failed, whatever the cache answers.
  pub drain-set_async :
      (now : ℕ) (key : Text) (value : T) (write : Action B (Unit {0})) (ttl : Duration)
      (w : World S B T)
      → w.pending ≡ []
      → (drain drv gob now (set_async drv gob key value write ttl w).1
          ≡ (set drv gob now key value write ttl w).1)
        × ((set_async drv gob key value write ttl w).0 ≡ (write w.db).0)
        × (drain drv gob now (delete_async drv gob key write w).1
            ≡ (delete drv gob now key write w).1)
        × ((delete_async drv gob key write w).0 ≡ (write w.db).0)
  unfolding set set_async delete delete_async drain
  drain-set_async now key value write ttl w h = ground arith

  -- The same of DeleteAsync alone, for which no value is needed.
  pub drain-delete_async :
      (now : ℕ) (key : Text) (write : Action B (Unit {0})) (w : World S B T)
      → w.pending ≡ []
      → (drain drv gob now (delete_async drv gob key write w).1
          ≡ (delete drv gob now key write w).1)
        × ((delete_async drv gob key write w).0 ≡ (write w.db).0)
  unfolding delete delete_async drain
  drain-delete_async now key write w h = ground arith

  -- A hit asks nothing of the database and starts no goroutine.
  pub get_hit :
      (now : ℕ) (key : Text) (get_fn : Action B T) (ttl : Duration) (w : World S B T) (value : T)
      → (Cache.get drv gob now key w.store).0 ≡ inr value
      → (get drv gob now key get_fn ttl w ≡ get_async drv gob now key get_fn ttl w)
        × ((get drv gob now key get_fn ttl w).0 ≡ inr value)
        × ((get drv gob now key get_fn ttl w).1.db ≡ w.db)
        × ((get drv gob now key get_fn ttl w).1.pending ≡ w.pending)
  unfolding get get_async
  get_hit now key get_fn ttl w value h = ground arith
