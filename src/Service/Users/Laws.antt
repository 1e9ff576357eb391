-- ===== src/Service/Users/Laws.antt =====
-- What the user service reports, and what it leaves in the cache.
use clean_architect.Common.{
  if◌then◌else◌, Sum-cases, ◌≡◌, refl, ◌⊎◌, inl, inr, false, List, [], ◌∷◌, ◌++◌, arith, Bool-cases,
  nat_eq, Text, txt, text_eq,
}
use clean_architect.Cache.InMemory.{Store, driver}
use clean_architect.Cache.InMemory.Laws.{is_over}
use clean_architect.Domain.{Uuid, User, Time}
use clean_architect.Errs.{
  GoError, message, new, not_found_error, is_error, user_already_exists, user_not_found,
}
use clean_architect.Paginate.{Pagination}
use clean_architect.Service.Users.{
  translated, listed, Deps, minute, hour, create_error, lookup_error, created, create, get_by_email,
  get_by_id, delete, update, list,
}
use clean_architect.Synq.{World, set_task, get_async, set_async, drain}
use clean_architect.Synq.Coherence.{RoundTrips, cache_get-set}

module _ {S B : Type 0} (deps : Deps S B) where
  -- The two texts that a failed lookup, deletion, update or list can show.
  abbrev pub IsPublic : GoError → Type 0
  IsPublic e = (message e ≡ txt "user not found") ⊎ (message e ≡ txt "internal error")

  lookup_error-IsPublic : (err : GoError) → IsPublic (lookup_error deps err)
  unfolding lookup_error not_found_error new message
  lookup_error-IsPublic err = elim (Bool-cases (is_error err user_not_found)) [
    | inl e ↦ rw e (inl refl)
    | inr e ↦ rw e (inr refl)
  ]

  -- A result is a value, or an error that shows one of those texts.
  abbrev pub FailsPublicly : {A : Type 0} → GoError ⊎ A → Type 0
  FailsPublicly (inl e) = IsPublic e
  FailsPublicly (inr a) = Unit

  translated-FailsPublicly :
      {A W : Type 0} (p : (GoError ⊎ A) × W) → FailsPublicly (translated (lookup_error deps) p).0
  translated-FailsPublicly (inl err, w) = lookup_error-IsPublic err
  translated-FailsPublicly (inr a, w) = tt

  listed-FailsPublicly :
      (p : (GoError ⊎ List User) × Pagination × B) (w : World S B User)
      → FailsPublicly (listed deps p w).0
  unfolding new message
  listed-FailsPublicly (inl err, p, b) w = inr refl
  listed-FailsPublicly (inr us, p, b) w = tt

  -- Whatever the database answers, GetByEmail, GetByID, Delete, Update and List return a value or an
  -- error that shows either "user not found" or "internal error".
  pub errors-IsPublic :
      (now : Time) (email : Text) (id : Uuid) (user : User) (p : Pagination) (w : World S B User)
      → FailsPublicly (get_by_email deps now email w).0
        × FailsPublicly (get_by_id deps now id w).0
        × FailsPublicly (delete deps id w).0
        × FailsPublicly (update deps user w).0
        × FailsPublicly (list deps p w).0
  unfolding get_by_email get_by_id delete update list
  errors-IsPublic now email id user p w = (
    translated-FailsPublicly _,
    translated-FailsPublicly _,
    translated-FailsPublicly _,
    translated-FailsPublicly _,
    listed-FailsPublicly (deps.db.list p w.db) w,
  )

  create_error-message :
      (err : GoError)
      → message (create_error deps err)
        ≡ (if is_error err user_already_exists then message err else txt "internal error")
  unfolding create_error new message
  create_error-message err = elim (Bool-cases (is_error err user_already_exists)) [
    | inl e ↦ rw e refl
    | inr e ↦ rw e refl
  ]

  -- What Create does on each answer of the database: if the user is stored, that user is returned
  -- and a goroutine will cache it for an hour; if not, the translated error is returned, no goroutine
  -- is started, and the text is the database's own only if it says that the user exists.
  abbrev pub Creates : Uuid → Time → User → World S B User → GoError ⊎ Unit {0} → Type 0
  Creates id now user w (inr done) =
      ((create deps id now user w).0 ≡ inr (created id now user))
      × ((create deps id now user w).1.pending
          ≡ w.pending ++ (set_task (deps.uuid_string id) (created id now user) hour ∷ []))
  Creates id now user w (inl err) =
      ((create deps id now user w).0 ≡ inl (create_error deps err))
      × ((create deps id now user w).1.pending ≡ w.pending)
      × (message (create_error deps err)
          ≡ (if is_error err user_already_exists then message err else txt "internal error"))

  -- Create asks the database once, to store the user with the given id and time and the status
  -- `new`. If the database accepts it, that user is returned and a goroutine will cache it for an
  -- hour; if not, the translated error is returned, no goroutine is started, and the error shows
  -- "internal error" unless the database says that the user exists.
  pub create_lem :
      (id : Uuid) (now : Time) (user : User) (w : World S B User)
      → ((create deps id now user w).1.db ≡ (deps.db.create (created id now user) w.db).1)
        × Creates id now user w (deps.db.create (created id now user) w.db).0
  unfolding create set_async
  create_lem id now user w = (
    ground arith,
    elim (Sum-cases (deps.db.create (created id now user) w.db).0) [
      | inl (err, e) ↦ rw e (ground (arith, e), ground (arith, e), create_error-message err)
      | inr (done, e) ↦ rw e (ground (arith, e), ground (arith, e))
    ],
  )

module _ {B : Type 0} (deps : Deps Store B) (in_memory : deps.driver ≡ driver) where
  -- After a successful Update, once its goroutine has run, GetByID returns for the time to live the
  -- very user that was passed to Update, in-memory cache given: its status, role and time of
  -- creation are those of the argument, whatever the database holds.
  pub get_by_id-update_cached :
      (now later : Time) (user : User) (bytes : Text) (w : World Store B User)
      → w.pending ≡ []
      → RoundTrips deps.gob user bytes
      → is_over now later minute ≡ false
      → (deps.db.update user w.db).0 ≡ inr tt
      → (get_by_id deps later user.id (drain deps.driver deps.gob now (update deps user w).1)).0
        ≡ inr user
  unfolding get_by_id update get_async set_async drain
  get_by_id-update_cached now later user bytes w idle r h e = rw in_memory (
      ground (
        arith,
        cache_get-set deps.gob now later (deps.uuid_string user.id) user bytes minute w.store r h,
      ))
