-- ===== src/App/Drivers/Shared.antt =====
-- cmd/app: which clients the drivers share.
use clean_architect.App.Drivers.{
  event_connection_string, db_connection_string, cache_connection_string, started_with,
  start_events, start_cache, start, DriverSettings, CacheChoice, redis_cache, memcached_cache,
  in_memory_cache, EventChoice, redis_broker, nats_broker, rabbit_broker, in_memory_broker,
  SchedulerChoice, redis_storage, sql_storage, file_storage, discarding, Started, and_then, kept,
  cache_driver_of, new_rabbit_broker, event_driver_of, job_scheduler_driver,
}
use clean_architect.Cache.{Action}
use clean_architect.Errs.{GoError}
use clean_architect.Config.{driver}
use clean_architect.Config.Settings.{SchedulerSettings, scheduler_connection_string}
use clean_architect.App.Dependencies.{
  OnceOf, opened, Libraries, Dependencies, State, get_redis_client, get_memcache_client,
  get_nats_client, get_rabbitmq_channel, get_db_and_do_migrate,
}
use clean_architect.App.Dependencies.Slots.{
  Stays, Extends, Extends-self, Extends-trans, Leaves, get_redis_client-Leaves,
  get_memcache_client-Leaves, get_nats_client-Leaves, get_rabbitmq_channel-Leaves,
  get_db_and_do_migrate-Leaves,
}
use clean_architect.Common.{
  ◌≡◌, ◌⊎◌, inl, inr, Bool, true, false, List, [], ◌∷◌, if◌then◌else◌, Option-cases, ◌==◌, nat_eq,
  Text, txt, text_eq,
}

pub Stays-opened : {C : Type 0} (a b : OnceOf C) (c : C) → Stays a b → a ≡ opened c → b ≡ opened c
Stays-opened a b c stays e = rw e at stays

-- The client of each driver is the one that the dependencies hold.
module _ {R M N Ch Conn D : Type 0} where
  abbrev pub KeepsScheduler : SchedulerChoice R D → Dependencies R M N Ch Conn D → Type 0
  KeepsScheduler (redis_storage c every level) d = d.redis ≡ opened c
  KeepsScheduler (sql_storage db every level) d = d.db ≡ opened db
  KeepsScheduler (file_storage every level) d = Unit {0}
  KeepsScheduler discarding d = Unit {0}

  abbrev pub KeepsEvents : EventChoice R N Ch → Dependencies R M N Ch Conn D → Type 0
  KeepsEvents (redis_broker c) d = d.redis ≡ opened c
  KeepsEvents (nats_broker c) d = d.nats ≡ opened c
  KeepsEvents (rabbit_broker ch) d = (conn : Conn) × (d.rabbitmq ≡ opened (conn, ch))
  KeepsEvents (in_memory_broker queues) d = Unit {0}

  abbrev pub KeepsCache : CacheChoice R M → Dependencies R M N Ch Conn D → Type 0
  KeepsCache (redis_cache c prefix) d = d.redis ≡ opened c
  KeepsCache (memcached_cache c prefix) d = d.memcache ≡ opened c
  KeepsCache in_memory_cache d = Unit {0}

  pub record Keeps (started : Started R M N Ch D) (d : Dependencies R M N Ch Conn D) : Type 0 where
    pub keeps_scheduler : KeepsScheduler started.sched d
    pub keeps_events : KeepsEvents started.event_driver d
    pub keeps_cache : KeepsCache started.cache_driver d
    pub keeps_db : d.db ≡ opened started.main_db

  KeepsScheduler-Extends :
      (jobs : SchedulerChoice R D) (d d' : Dependencies R M N Ch Conn D)
      → Extends d d'
      → KeepsScheduler jobs d
      → KeepsScheduler jobs d'
  KeepsScheduler-Extends (redis_storage c every level) d d' x k =
      Stays-opened d.redis d'.redis c x.redis_stays k
  KeepsScheduler-Extends (sql_storage db every level) d d' x k =
      Stays-opened d.db d'.db db x.db_stays k
  KeepsScheduler-Extends (file_storage every level) d d' x k = tt
  KeepsScheduler-Extends discarding d d' x k = tt

  KeepsEvents-Extends :
      (events : EventChoice R N Ch) (d d' : Dependencies R M N Ch Conn D)
      → Extends d d'
      → KeepsEvents events d
      → KeepsEvents events d'
  KeepsEvents-Extends (redis_broker c) d d' x k = Stays-opened d.redis d'.redis c x.redis_stays k
  KeepsEvents-Extends (nats_broker c) d d' x k = Stays-opened d.nats d'.nats c x.nats_stays k
  KeepsEvents-Extends (rabbit_broker ch) d d' x (conn, k) =
      (conn, Stays-opened d.rabbitmq d'.rabbitmq (conn, ch) x.rabbitmq_stays k)
  KeepsEvents-Extends (in_memory_broker queues) d d' x k = tt

  KeepsCache-Extends :
      (caches : CacheChoice R M) (d d' : Dependencies R M N Ch Conn D)
      → Extends d d'
      → KeepsCache caches d
      → KeepsCache caches d'
  KeepsCache-Extends (redis_cache c prefix) d d' x k =
      Stays-opened d.redis d'.redis c x.redis_stays k
  KeepsCache-Extends (memcached_cache c prefix) d d' x k =
      Stays-opened d.memcache d'.memcache c x.memcache_stays k
  KeepsCache-Extends in_memory_cache d d' x k = tt

module _ {R M N Ch Conn D W : Type 0} (lib : Libraries R M N Ch Conn D W) where
  pub Leaves-kept :
      {A B : Type 0} {P : A → Dependencies R M N Ch Conn D → Type 0}
      (Q : B → Dependencies R M N Ch Conn D → Type 0) (make : A → B)
      (d : Dependencies R M N Ch Conn D) (x : (GoError ⊎ A) × State lib)
      → ((a : A) (d' : Dependencies R M N Ch Conn D) → Extends d d' → P a d' → Q (make a) d')
      → Leaves lib d P x
      → Leaves lib d Q (kept lib make x)
  Leaves-kept Q make d (inl err, (d', w)) f (x, p) = (x, tt)
  Leaves-kept Q make d (inr a, (d', w)) f (x, p) = (x, f a d' x p)

  pub Leaves-and_then :
      {A B : Type 0} {P : A → Dependencies R M N Ch Conn D → Type 0}
      (Q : B → Dependencies R M N Ch Conn D → Type 0) (k : A → Action (State lib) B)
      (d : Dependencies R M N Ch Conn D) (x : (GoError ⊎ A) × State lib)
      → ((a : A) (d' : Dependencies R M N Ch Conn D) (w : W)
          → Extends d d'
          → P a d'
          → Leaves lib d' Q (k a (d', w)))
      → Leaves lib d P x
      → Leaves lib d Q (and_then k x)
  Leaves-and_then Q k d (inl err, (d', w)) f (x, p) = (x, tt)
  Leaves-and_then Q k d (inr a, (d', w)) f (x, p) =
      let (y, q) = f a d' w x p in (Extends-trans d d' (k a (d', w)).1.0 x y, q)

  Leaves-if :
      {A : Type 0} (P : A → Dependencies R M N Ch Conn D → Type 0)
      (d : Dependencies R M N Ch Conn D) (b : Bool) (x y : (GoError ⊎ A) × State lib)
      → Leaves lib d P x
      → Leaves lib d P y
      → Leaves lib d P (if b then x else y)
  Leaves-if P d true x y p q = p
  Leaves-if P d false x y p q = q

  pub cache_driver_of-Leaves :
      (name url prefix : Text) (d : Dependencies R M N Ch Conn D) (w : W)
      → Leaves lib d KeepsCache (cache_driver_of lib name url prefix (d, w))
  unfolding cache_driver_of
  cache_driver_of-Leaves name url prefix d w =
      Leaves-if KeepsCache d (name == txt "redis") _ _
        (Leaves-kept KeepsCache (λ c. redis_cache c prefix) d (get_redis_client lib url (d, w))
          (λ _. λ _. λ _. λ p. p) (get_redis_client-Leaves lib url d w))
        (Leaves-if KeepsCache d (name == txt "memcached") _ _
          (Leaves-kept KeepsCache (λ c. memcached_cache c prefix) d
            (get_memcache_client lib url (d, w)) (λ _. λ _. λ _. λ p. p)
            (get_memcache_client-Leaves lib url d w))
          (Extends-self d, tt))

  new_rabbit_broker-Leaves :
      (ch : Ch) (queues : List Text) (d : Dependencies R M N Ch Conn D) (w : W)
      → ((conn : Conn) × (d.rabbitmq ≡ opened (conn, ch)))
      → Leaves lib d KeepsEvents (new_rabbit_broker lib ch queues (d, w))
  unfolding new_rabbit_broker
  new_rabbit_broker-Leaves ch [] d w p = (Extends-self d, p)
  new_rabbit_broker-Leaves ch (queue ∷ queues) d w p =
      elim (Option-cases (lib.queue_declare ch queue w).0) [
        | inl e ↦
            rw (new_rabbit_broker, e)
              (new_rabbit_broker-Leaves ch queues d (lib.queue_declare ch queue w).1 p)
        | inr (err, e) ↦ rw (new_rabbit_broker, e) (Extends-self d, tt)
      ]

  pub event_driver_of-Leaves :
      (name url : Text) (queues : List Text) (d : Dependencies R M N Ch Conn D) (w : W)
      → Leaves lib d KeepsEvents (event_driver_of lib name url queues (d, w))
  unfolding event_driver_of
  event_driver_of-Leaves name url queues d w =
      Leaves-if KeepsEvents d (name == txt "redis") _ _
        (Leaves-kept KeepsEvents redis_broker d (get_redis_client lib url (d, w))
          (λ _. λ _. λ _. λ p. p) (get_redis_client-Leaves lib url d w))
        (Leaves-if KeepsEvents d (name == txt "nats") _ _
          (Leaves-kept KeepsEvents nats_broker d (get_nats_client lib url (d, w))
            (λ _. λ _. λ _. λ p. p) (get_nats_client-Leaves lib url d w))
          (Leaves-if KeepsEvents d (name == txt "rabbitmq") _ _
            (Leaves-and_then KeepsEvents (λ ch. new_rabbit_broker lib ch queues) d
              (get_rabbitmq_channel lib url (d, w))
              (λ ch. λ d'. λ w'. λ _. new_rabbit_broker-Leaves ch queues d' w')
              (get_rabbitmq_channel-Leaves lib url d w))
            (Extends-self d, tt)))

  module _ (join_path : Text → Text → Text) where
    job_scheduler_driver-Leaves :
        (cfg : SchedulerSettings) (d : Dependencies R M N Ch Conn D) (w : W)
        → Leaves lib d KeepsScheduler (job_scheduler_driver lib join_path cfg (d, w))
    unfolding job_scheduler_driver
    job_scheduler_driver-Leaves cfg d w =
        let url = scheduler_connection_string join_path cfg in
        Leaves-if KeepsScheduler d (driver cfg.driver_name == txt "redis") _ _
          (Leaves-kept KeepsScheduler _ d (get_redis_client lib url (d, w)) (λ _. λ _. λ _. λ p. p)
            (get_redis_client-Leaves lib url d w))
          (Leaves-if KeepsScheduler d (driver cfg.driver_name == txt "sqlite") _ _
            (Leaves-kept KeepsScheduler _ d
              (get_db_and_do_migrate lib (driver cfg.driver_name) url (d, w))
              (λ _. λ _. λ _. λ p. p)
              (get_db_and_do_migrate-Leaves lib (driver cfg.driver_name) url d w))
            (Leaves-if KeepsScheduler d (driver cfg.driver_name == txt "file") _ _
              (Extends-self d, tt) (Extends-self d, tt)))

    module _ (cfg : DriverSettings) where
      started_with-Leaves :
          (jobs : SchedulerChoice R D) (events : EventChoice R N Ch) (caches : CacheChoice R M)
          (d : Dependencies R M N Ch Conn D) (w : W)
          → KeepsScheduler jobs d
          → KeepsEvents events d
          → KeepsCache caches d
          → Leaves lib d Keeps (started_with lib join_path cfg jobs events caches (d, w))
      unfolding started_with
      started_with-Leaves jobs events caches d w kj ke kc =
          Leaves-kept Keeps _ d _
            (λ db. λ d'. λ x. λ p. record {
              keeps_scheduler = KeepsScheduler-Extends jobs d d' x kj;
              keeps_events = KeepsEvents-Extends events d d' x ke;
              keeps_cache = KeepsCache-Extends caches d d' x kc;
              keeps_db = p;
            })
            (get_db_and_do_migrate-Leaves lib (driver cfg.database.driver_name)
              (db_connection_string join_path cfg.database) d w)

      start_cache-Leaves :
          (jobs : SchedulerChoice R D) (events : EventChoice R N Ch)
          (d : Dependencies R M N Ch Conn D) (w : W)
          → KeepsScheduler jobs d
          → KeepsEvents events d
          → Leaves lib d Keeps (start_cache lib join_path cfg jobs events (d, w))
      unfolding start_cache
      start_cache-Leaves jobs events d w kj ke =
          Leaves-and_then Keeps _ d _
            (λ caches. λ d'. λ w'. λ x. λ kc.
              started_with-Leaves jobs events caches d' w' (KeepsScheduler-Extends jobs d d' x kj)
                (KeepsEvents-Extends events d d' x ke) kc)
            (cache_driver_of-Leaves (driver cfg.cache.driver_name)
              (cache_connection_string cfg.cache) cfg.cache.prefix_name d w)

      start_events-Leaves :
          (jobs : SchedulerChoice R D) (d : Dependencies R M N Ch Conn D) (w : W)
          → KeepsScheduler jobs d
          → Leaves lib d Keeps (start_events lib join_path cfg jobs (d, w))
      unfolding start_events
      start_events-Leaves jobs d w kj =
          Leaves-and_then Keeps _ d _
            (λ events. λ d'. λ w'. λ x.
              λ ke. start_cache-Leaves jobs events d' w' (KeepsScheduler-Extends jobs d d' x kj) ke)
            (event_driver_of-Leaves (driver cfg.event.driver_name)
              (event_connection_string cfg.event) [] d w)

      -- Whatever the settings and the answers of the libraries: a client that was open stays the
      -- same, and if the start succeeds, the clients of the scheduler, of the events, of the cache and
      -- of the database are those that the dependencies hold: drivers of one kind share one client.
      pub start-Leaves :
          (d : Dependencies R M N Ch Conn D) (w : W)
          → Leaves lib d Keeps (start lib join_path cfg (d, w))
      unfolding start
      start-Leaves d w =
          Leaves-and_then Keeps _ d _
            (λ jobs. λ d'. λ w'. λ _. λ kj. start_events-Leaves jobs d' w' kj)
            (job_scheduler_driver-Leaves cfg.scheduler d w)
