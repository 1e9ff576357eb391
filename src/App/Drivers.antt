-- ===== src/App/Drivers.antt =====
-- cmd/app: the drivers that the settings name, and the order in which `run` opens them.
pub mod Shared
pub mod Sqlite
use clean_architect.Common.Int.{ℤ}
use clean_architect.Cache.{Action, Duration}
use clean_architect.Errs.{GoError}
use clean_architect.Config.{driver}
use clean_architect.Config.Settings.{
  SchedulerSettings, EventSettings, CacheSettings, DbSettings, scheduler_connection_string,
  event_connection_string, cache_connection_string, db_connection_string, scheduler_run_every,
  concurrency,
}
use clean_architect.App.Dependencies.{
  Libraries, State, get_redis_client, get_memcache_client, get_nats_client, get_rabbitmq_channel,
  get_db_and_do_migrate,
}
use clean_architect.Common.{
  ◌⊎◌, inl, inr, none, some, List, [], ◌∷◌, if◌then◌else◌, ◌==◌, nat_eq, Text, txt, text_eq,
}

-- cache.Driver as it is chosen here.
pub data CacheChoice (R M : Type 0) : Type 0 where
  redis_cache : R → Text → CacheChoice R M
  memcached_cache : M → Text → CacheChoice R M
  in_memory_cache : CacheChoice R M

-- bus.Driver
pub data EventChoice (R N Ch : Type 0) : Type 0 where
  redis_broker : R → EventChoice R N Ch
  nats_broker : N → EventChoice R N Ch
  rabbit_broker : Ch → EventChoice R N Ch
  in_memory_broker : List Text → EventChoice R N Ch

-- scheduler.Driver: a storage with the period and the concurrency, or none.
pub data SchedulerChoice (R D : Type 0) : Type 0 where
  redis_storage : R → Duration → ℤ → SchedulerChoice R D
  sql_storage : D → Duration → ℤ → SchedulerChoice R D
  file_storage : Duration → ℤ → SchedulerChoice R D
  discarding : SchedulerChoice R D

-- The parts of config.AppConfig that the drivers are made of.
pub record DriverSettings : Type 0 where
  pub scheduler : SchedulerSettings
  pub event : EventSettings
  pub cache : CacheSettings
  pub database : DbSettings

-- What `run` has opened before it makes its loggers.
pub record Started (R M N Ch D : Type 0) : Type 0 where
  pub sched : SchedulerChoice R D
  pub event_driver : EventChoice R N Ch
  pub cache_driver : CacheChoice R M
  pub main_db : D

-- `x, err := ...; if err != nil { return err }`
abbrev pub and_then : {S A B : Type 0} → (A → Action S B) → (GoError ⊎ A) × S → (GoError ⊎ B) × S
and_then k (inl err, s) = (inl err, s)
and_then k (inr a, s) = k a s

module _ {R M N Ch Conn D W : Type 0} (lib : Libraries R M N Ch Conn D W) where
  abbrev pub kept : {A B : Type 0} → (A → B) → (GoError ⊎ A) × State lib → (GoError ⊎ B) × State lib
  kept make (inl err, s) = (inl err, s)
  kept make (inr a, s) = (inr (make a), s)

  -- CacheDriver. Beside an error a driver over a nil client is returned, which `run` drops.
  unfoldable pub cache_driver_of : Text → Text → Text → Action (State lib) (CacheChoice R M)
  unfolding get_redis_client get_memcache_client
  cache_driver_of driver_name url prefix s =
      if driver_name == txt "redis"
      then kept (λ client. redis_cache client prefix) (get_redis_client lib url s)
      else if driver_name == txt "memcached"
      then kept (λ client. memcached_cache client prefix) (get_memcache_client lib url s)
      else (inr in_memory_cache, s)

  -- bus.NewRabbitBroker: the queues are declared in order, up to the first that fails.
  unfoldable pub new_rabbit_broker : Ch → List Text → Action (State lib) (EventChoice R N Ch)
  new_rabbit_broker channel [] s = (inr (rabbit_broker channel), s)
  new_rabbit_broker channel (queue ∷ queues) (d, w) =
      let (err, w') = lib.queue_declare channel queue w in
      let rest = new_rabbit_broker channel queues (d, w') in
      elim err [ some e ↦ (inl e, (d, w')) | none ↦ rest ]

  unfoldable pub event_driver_of : Text → Text → List Text → Action (State lib) (EventChoice R N Ch)
  unfolding get_redis_client get_nats_client get_rabbitmq_channel new_rabbit_broker
  event_driver_of driver_name url queues s =
      if driver_name == txt "redis"
      then kept redis_broker (get_redis_client lib url s)
      else if driver_name == txt "nats"
      then kept nats_broker (get_nats_client lib url s)
      else if driver_name == txt "rabbitmq"
      then and_then (λ channel. new_rabbit_broker channel queues) (get_rabbitmq_channel lib url s)
      else (inr (in_memory_broker queues), s)

  -- JobSchedulerDriver; filepath.Join is a parameter.
  unfoldable pub job_scheduler_driver :
      (Text → Text → Text) → SchedulerSettings → Action (State lib) (SchedulerChoice R D)
  unfolding driver scheduler_connection_string scheduler_run_every concurrency get_redis_client
      get_db_and_do_migrate
  job_scheduler_driver join_path cfg s =
      if driver cfg.driver_name == txt "redis"
      then kept (λ client. redis_storage client (scheduler_run_every cfg) (concurrency cfg))
          (get_redis_client lib (scheduler_connection_string join_path cfg) s)
      else if driver cfg.driver_name == txt "sqlite"
      then kept (λ db. sql_storage db (scheduler_run_every cfg) (concurrency cfg))
          (get_db_and_do_migrate lib (driver cfg.driver_name)
            (scheduler_connection_string join_path cfg) s)
      else if driver cfg.driver_name == txt "file"
      then (inr (file_storage (scheduler_run_every cfg) (concurrency cfg)), s)
      else (inr discarding, s)

  module _ (join_path : Text → Text → Text) (cfg : DriverSettings) where
    abbrev pub started_with :
        SchedulerChoice R D
        → EventChoice R N Ch
        → CacheChoice R M
        → Action (State lib) (Started R M N Ch D)
    unfolding get_db_and_do_migrate driver db_connection_string
    started_with jobs events caches s =
        kept
          (λ db. record {
            sched = jobs;
            event_driver = events;
            cache_driver = caches;
            main_db = db;
          })
          (get_db_and_do_migrate lib (driver cfg.database.driver_name)
            (db_connection_string join_path cfg.database) s)

    abbrev pub start_cache :
        SchedulerChoice R D → EventChoice R N Ch → Action (State lib) (Started R M N Ch D)
    unfolding cache_driver_of driver cache_connection_string get_db_and_do_migrate
        db_connection_string
    start_cache jobs events s = and_then (started_with jobs events) (
        cache_driver_of (driver cfg.cache.driver_name) (cache_connection_string cfg.cache)
          cfg.cache.prefix_name s)

    abbrev pub start_events : SchedulerChoice R D → Action (State lib) (Started R M N Ch D)
    unfolding event_driver_of driver event_connection_string cache_driver_of cache_connection_string
        get_db_and_do_migrate db_connection_string
    start_events jobs s =
        and_then (start_cache jobs)
          (event_driver_of (driver cfg.event.driver_name) (event_connection_string cfg.event) [] s)

    -- The beginning of `run`: each failure returns at once, and leaves open what was opened.
    unfoldable pub start : Action (State lib) (Started R M N Ch D)
    unfolding job_scheduler_driver event_driver_of driver event_connection_string cache_driver_of
        cache_connection_string get_db_and_do_migrate db_connection_string
    start s = and_then start_events (job_scheduler_driver join_path cfg.scheduler s)
