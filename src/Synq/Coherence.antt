-- ===== src/Synq/Coherence.antt =====
-- The methods over the in-memory driver: what a reader sees after a writer.
use clean_architect.Cache.{Duration, Action, Driver, Codec}
use clean_architect.Cache.InMemory.{Store, driver}
use clean_architect.Cache.InMemory.Laws.{is_over, get-set, get-delete}
use clean_architect.Errs.{GoError, sentinel, cache_missed}
use clean_architect.Synq.{World, get, get_async, set, delete, drain}
use clean_architect.Common.{
  ℕ, ◌≡◌, refl, ◌∙◌, inl, inr, false, [], arith, nat_eq, Text, text_eq, beq_refl,
}
use clean_architect.Cache
use clean_architect.Cache.InMemory

module _ {T : Type 0} (gob : Codec T) where
  -- A value that gob encodes, and decodes to itself.
  abbrev pub RoundTrips : T → Text → Type 0
  RoundTrips value bytes = (gob.encode value ≡ inr bytes) × (gob.decode bytes ≡ inr value)

  pub cache_get-set :
      (now later : ℕ) (key : Text) (value : T) (bytes : Text) (ttl : Duration) (s : Store)
      → RoundTrips value bytes
      → is_over now later ttl ≡ false
      → (Cache.get driver gob later key (Cache.set driver gob now key value ttl s).1).0 ≡ inr value
  unfolding Cache.get Cache.set
  cache_get-set now later key value bytes ttl s (e, d) h =
      let r : (InMemory.get later key (InMemory.set now key bytes ttl s).1).0 ≡ inr bytes =
        get-set now later key key bytes ttl s ∙ rw (beq_refl key, h) refl in
      ground (arith, r, e, d)

  cache_get-delete :
      (now later : ℕ) (key : Text) (s : Store)
      → (Cache.get driver gob later key (Cache.delete driver now key s).1).0
        ≡ inl (sentinel cache_missed)
  unfolding Cache.get Cache.delete
  cache_get-delete now later key s =
      let r : (InMemory.get later key (InMemory.delete now key s).1).0
          ≡ inl (sentinel cache_missed) =
        get-delete now later key key s ∙ rw (beq_refl key) refl in
      ground (arith, r)

module _ {B T : Type 0} (gob : Codec T) where
  -- After a successful Set a Get of the key, while the ttl runs, returns the value that was set, if
  -- gob gives it back, and does not ask the database.
  pub get-set_self :
      (now later : ℕ) (key : Text) (value : T) (bytes : Text) (write : Action B (Unit {0}))
      (read : Action B T) (ttl ttl' : Duration) (w : World Store B T)
      → RoundTrips gob value bytes
      → is_over now later ttl ≡ false
      → (write w.db).0 ≡ inr tt
      → ((get driver gob later key read ttl' (set driver gob now key value write ttl w).1).0
          ≡ inr value)
        × ((get driver gob later key read ttl' (set driver gob now key value write ttl w).1).1.db
            ≡ (write w.db).1)
  unfolding get set
  get-set_self now later key value bytes write read ttl ttl' w r h e =
      ground (arith, cache_get-set gob now later key value bytes ttl w.store r h)

  -- After a successful Delete a Get of the key returns what the database answers then, a value or an
  -- error.
  pub get-delete_self :
      (now later : ℕ) (key : Text) (write : Action B (Unit {0})) (read : Action B T)
      (ttl : Duration) (w : World Store B T)
      → (write w.db).0 ≡ inr tt
      → (get driver gob later key read ttl (delete driver gob now key write w).1).0
        ≡ (read (write w.db).1).0
  unfolding get delete
  get-delete_self now later key write read ttl w e =
      ground (arith, cache_get-delete gob now later key w.store)

  -- A goroutine of GetAsync that runs after a later Delete puts back what was deleted: if the read
  -- misses and the database answers `value`, and the deletion then succeeds, a Get while the ttl
  -- runs still returns `value`, whatever the database now holds.
  pub stale_fill :
      (now later : ℕ) (key : Text) (value : T) (bytes : Text) (write : Action B (Unit {0}))
      (read read' : Action B T) (ttl ttl' : Duration) (w : World Store B T) (err : GoError)
      → w.pending ≡ []
      → RoundTrips gob value bytes
      → is_over now later ttl ≡ false
      → (Cache.get driver gob now key w.store).0 ≡ inl err
      → (read w.db).0 ≡ inr value
      → (write (read w.db).1).0 ≡ inr tt
      → (get driver gob later key read' ttl' (
          drain driver gob now
            (delete driver gob now key write (get_async driver gob now key read ttl w).1).1)).0
        ≡ inr value
  unfolding get get_async delete drain
  stale_fill now later key value bytes write read read' ttl ttl' w err idle r h missed found gone =
      ground (
        arith,
        cache_get-set gob now later key value bytes ttl
            (Cache.delete driver now key (Cache.get driver gob now key w.store).1).1 r h,
      )
