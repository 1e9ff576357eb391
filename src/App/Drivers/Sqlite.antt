-- ===== src/App/Drivers/Sqlite.antt =====
-- cmd/app: the database of a scheduler over sqlite.
use clean_architect.Cache.{Action}
use clean_architect.Errs.{GoError}
use clean_architect.Config.{driver}
use clean_architect.Config.Settings.{
  DbSettings, scheduler_connection_string, scheduler_run_every, concurrency,
  event_connection_string, cache_connection_string,
}
use clean_architect.App.Dependencies.{
  OnceOf, opened, Libraries, Dependencies, State, once_do, get_db_and_do_migrate, open_db,
}
use clean_architect.App.Dependencies.Slots.{Extends, Leaves, get_db_and_do_migrate-Leaves}
use clean_architect.App.Drivers.{
  EventChoice, SchedulerChoice, DriverSettings, and_then, kept, cache_driver_of, event_driver_of,
  job_scheduler_driver, started_with, start_cache, sql_storage, start_events, start,
}
use clean_architect.App.Drivers.Shared.{
  KeepsCache, KeepsEvents, Leaves-kept, Stays-opened, cache_driver_of-Leaves,
  event_driver_of-Leaves,
}
use clean_architect.Common.{
  ◌≡◌, refl, ap, ◌⊎◌, inl, inr, true, false, [], ◌==◌, nat_eq, Text, txt, text_beq, text_eq,
}

once_do-opened :
    {C W : Type 0} (connect other : W → (GoError ⊎ C) × W) (slot : OnceOf C) (c : C) (w : W)
    → slot ≡ opened c
    → once_do connect slot w ≡ once_do other slot w
unfolding once_do
once_do-opened connect other slot c w e = rw e refl

is_other : {name : Text} → name ≡ txt "sqlite" → (name == txt "redis") ≡ false
unfolding text_beq
is_other e = rw e refl

is_one : {name : Text} → name ≡ txt "sqlite" → (name == txt "sqlite") ≡ true
unfolding text_beq
is_one e = rw e refl

module _ {R M N Ch Conn D W : Type 0} (lib : Libraries R M N Ch Conn D W) where
  and_then_same :
      {A B : Type 0} {P : A → Dependencies R M N Ch Conn D → Type 0}
      (k k' : A → Action (State lib) B) (d : Dependencies R M N Ch Conn D)
      (x : (GoError ⊎ A) × State lib)
      → ((a : A) (d' : Dependencies R M N Ch Conn D) (w : W)
          → Extends d d'
          → P a d'
          → k a (d', w) ≡ k' a (d', w))
      → Leaves lib d P x
      → and_then k x ≡ and_then k' x
  and_then_same k k' d (inl err, (d', w)) f (x, p) = refl
  and_then_same k k' d (inr a, (d', w)) f (x, p) = f a d' w x p

  get_db_and_do_migrate-opened :
      (name name' url url' : Text) (d : Dependencies R M N Ch Conn D) (db : D) (w : W)
      → d.db ≡ opened db
      → get_db_and_do_migrate lib name url (d, w) ≡ get_db_and_do_migrate lib name' url' (d, w)
  unfolding get_db_and_do_migrate
  get_db_and_do_migrate-opened name name' url url' d db w e =
      ap (λ t. (t.0, (record d { db = t.1 }, t.2)))
        (once_do-opened (open_db lib name url) (open_db lib name' url') d.db db w e)

  module _ (join_path : Text → Text → Text) (cfg : DriverSettings) (other : DbSettings) where
    abbrev with_other : DriverSettings
    with_other = record cfg { database = other }

    start_cache_same :
        (jobs : SchedulerChoice R D) (events : EventChoice R N Ch)
        (d : Dependencies R M N Ch Conn D) (db : D) (w : W)
        → d.db ≡ opened db
        → start_cache lib join_path cfg jobs events (d, w)
          ≡ start_cache lib join_path with_other jobs events (d, w)
    unfolding start_cache started_with
    start_cache_same jobs events d db w e =
        and_then_same {P = KeepsCache} (started_with lib join_path cfg jobs events)
          (started_with lib join_path with_other jobs events) d
          (cache_driver_of lib (driver cfg.cache.driver_name) (cache_connection_string cfg.cache)
            cfg.cache.prefix_name (d, w))
          (λ caches. λ d'. λ w'. λ x. λ p. ap (kept lib _) (
            get_db_and_do_migrate-opened _ _ _ _ d' db w'
              (Stays-opened d.db d'.db db x.db_stays e)))
          (cache_driver_of-Leaves lib (driver cfg.cache.driver_name)
            (cache_connection_string cfg.cache) cfg.cache.prefix_name d w)

    start_events_same :
        (jobs : SchedulerChoice R D) (d : Dependencies R M N Ch Conn D) (db : D) (w : W)
        → d.db ≡ opened db
        → start_events lib join_path cfg jobs (d, w)
          ≡ start_events lib join_path with_other jobs (d, w)
    unfolding start_events
    start_events_same jobs d db w e =
        and_then_same {P = KeepsEvents} (start_cache lib join_path cfg jobs)
          (start_cache lib join_path with_other jobs) d
          (event_driver_of lib (driver cfg.event.driver_name) (event_connection_string cfg.event) []
            (d, w))
          (λ events. λ d'. λ w'. λ x.
            λ p. start_cache_same jobs events d' db w' (Stays-opened d.db d'.db db x.db_stays e))
          (event_driver_of-Leaves lib (driver cfg.event.driver_name)
            (event_connection_string cfg.event) [] d w)

    job_scheduler_driver_sqlite :
        (s : State lib)
        → driver cfg.scheduler.driver_name ≡ txt "sqlite"
        → job_scheduler_driver lib join_path cfg.scheduler s
          ≡ kept lib
              (λ db. sql_storage db (scheduler_run_every cfg.scheduler) (concurrency cfg.scheduler))
              (get_db_and_do_migrate lib
                (driver cfg.scheduler.driver_name)
                (scheduler_connection_string join_path cfg.scheduler)
                s)
    unfolding job_scheduler_driver
    job_scheduler_driver_sqlite s e = rw (is_other e) (rw (is_one e) refl)

    job_scheduler_driver-opened :
        (d : Dependencies R M N Ch Conn D) (w : W)
        → driver cfg.scheduler.driver_name ≡ txt "sqlite"
        → Leaves lib d
            (λ _. λ d'. (db : D) × (d'.db ≡ opened db))
            (job_scheduler_driver lib join_path cfg.scheduler (d, w))
    job_scheduler_driver-opened d w e = rw (job_scheduler_driver_sqlite (d, w) e) (
        Leaves-kept lib (λ _. λ d'. (db : D) × (d'.db ≡ opened db)) _ d
          (get_db_and_do_migrate lib (driver cfg.scheduler.driver_name)
            (scheduler_connection_string join_path cfg.scheduler) (d, w))
          (λ db. λ d'. λ x. λ p. (db, p))
          (get_db_and_do_migrate-Leaves lib (driver cfg.scheduler.driver_name)
            (scheduler_connection_string join_path cfg.scheduler) d w))

    -- With a scheduler over sqlite the settings of the database have no effect: whatever they are,
    -- the start gives the same result and the same state.
    pub start_ignores_db :
        (s : State lib)
        → driver cfg.scheduler.driver_name ≡ txt "sqlite"
        → start lib join_path cfg s ≡ start lib join_path with_other s
    unfolding start
    start_ignores_db (d, w) e =
        and_then_same {P = λ _. λ d'. (db : D) × (d'.db ≡ opened db)}
          (start_events lib join_path cfg) (start_events lib join_path with_other) d
          (job_scheduler_driver lib join_path cfg.scheduler (d, w))
          (λ jobs. λ d'. λ w'. λ x. λ (db, p). start_events_same jobs d' db w' p)
          (job_scheduler_driver-opened d w e)
