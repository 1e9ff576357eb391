-- ===== src/App/Dependencies.antt =====
-- cmd/app/app.go: clients that are opened once, at their first use.
pub mod Slots
use clean_architect.Cache.{Action}
use clean_architect.Errs.{GoError, text_error, wrapped, joined, message}
use clean_architect.Common.{
  ◌⊎◌, inl, inr, Option, none, some, ◌++◌, if◌then◌else◌, ◌==◌, nat_eq, Text, txt, text_eq,
}

-- A client, its error and its sync.Once as one value: the code reads and writes the three together, under
-- the same Once. What a wrong pairing of the fields would do is out of the model.
pub data OnceOf (C : Type 0) : Type 0 where
  untried : OnceOf C
  opened : C → OnceOf C
  refused : GoError → OnceOf C

-- What migrator.Up answers; `no_change` is migrate.ErrNoChange.
pub data Migration : Type 0 where
  migrated : Migration
  no_change : Migration
  not_migrated : GoError → Migration

-- The client libraries, over the state `W` of the world outside: clients of redis, memcached and
-- nats, channels and connections of rabbitmq, and databases.
pub record Libraries (R M N Ch Conn D W : Type 0) : Type 0 where
  pub redis_client_of : Text → GoError ⊎ R
  pub redis_ping : R → W → Option GoError × W
  pub memcache_client_of : Text → M
  pub memcache_ping : M → W → Option GoError × W
  pub nats_connect : Text → W → (GoError ⊎ N) × W
  pub amqp_dial : Text → W → (GoError ⊎ Conn) × W
  pub amqp_channel : Conn → W → (GoError ⊎ Ch) × W
  pub sql_connect : Text → Text → W → (GoError ⊎ D) × W
  pub sql_ping : D → W → Option GoError × W
  pub with_instance : Text → D → W → Option GoError × W
  pub new_migrator : Text → D → W → Option GoError × W
  pub queue_declare : Ch → Text → W → Option GoError × W
  pub migrate_up : Text → D → W → Migration × W
  pub nats_close : N → W → W
  pub redis_close : R → W → Option GoError × W
  pub memcache_close : M → W → Option GoError × W
  pub channel_close : Ch → W → Option GoError × W
  pub connection_close : Conn → W → Option GoError × W

-- type dependencies
pub record Dependencies (R M N Ch Conn D : Type 0) : Type 0 where
  pub redis : OnceOf R
  pub memcache : OnceOf M
  pub nats : OnceOf N
  pub rabbitmq : OnceOf (Conn × Ch)
  pub db : OnceOf D

abbrev pub untouched : {R M N Ch Conn D : Type 0} → Dependencies R M N Ch Conn D
untouched = record {
  redis = untried;
  memcache = untried;
  nats = untried;
  rabbitmq = untried;
  db = untried;
}

abbrev tried : {C : Type 0} → GoError ⊎ C → OnceOf C
tried (inl err) = refused err
tried (inr c) = opened c

-- once.Do(connect), and the client and the error that stand after it.
unfoldable pub once_do :
    {C W : Type 0} → (W → (GoError ⊎ C) × W) → OnceOf C → W → (GoError ⊎ C) × OnceOf C × W
once_do connect untried w = let (r, w') = connect w in (r, tried r, w')
once_do connect (opened c) w = (inr c, opened c, w)
once_do connect (refused err) w = (inl err, refused err, w)

-- A client that has to answer a ping.
abbrev pinged : {C W : Type 0} → C → Option GoError × W → (GoError ⊎ C) × W
pinged c (none, w) = (inr c, w)
pinged c (some err, w) = (inl err, w)

-- errors.Join(err, e) where both may be nil. A join of one error, which prints and matches as the
-- error does, is that error.
abbrev pub join_errors : Option GoError → Option GoError → Option GoError
join_errors none e = e
join_errors (some err) none = some err
join_errors (some err) (some e) = some (joined err e)

module _ {R M N Ch Conn D W : Type 0} (lib : Libraries R M N Ch Conn D W) where
  abbrev pub State : Type 0
  State = Dependencies R M N Ch Conn D × W

  abbrev pub open_redis : Text → W → (GoError ⊎ R) × W
  open_redis url w = elim (lib.redis_client_of url) [
    | inl err ↦ (inl err, w)
    | inr client ↦ pinged client (lib.redis_ping client w)
  ]

  unfoldable pub get_redis_client : Text → Action State R
  unfolding once_do
  get_redis_client url (d, w) =
      let (r, slot, w') = once_do (open_redis url) d.redis w in (r, (record d { redis = slot }, w'))

  abbrev pub open_memcache : Text → W → (GoError ⊎ M) × W
  open_memcache url w =
      pinged (lib.memcache_client_of url) (lib.memcache_ping (lib.memcache_client_of url) w)

  unfoldable pub get_memcache_client : Text → Action State M
  unfolding once_do
  get_memcache_client url (d, w) =
      let (r, slot, w') = once_do (open_memcache url) d.memcache w in
      (r, (record d { memcache = slot }, w'))

  unfoldable pub get_nats_client : Text → Action State N
  unfolding once_do
  get_nats_client url (d, w) =
      let (r, slot, w') = once_do (lib.nats_connect url) d.nats w in
      (r, (record d { nats = slot }, w'))

  abbrev with_connection : Conn → (GoError ⊎ Ch) × W → (GoError ⊎ (Conn × Ch)) × W
  with_connection conn (inl err, w) = (inl err, w)
  with_connection conn (inr channel, w) = (inr (conn, channel), w)

  abbrev dialled : (GoError ⊎ Conn) × W → (GoError ⊎ (Conn × Ch)) × W
  dialled (inl err, w) = (inl err, w)
  dialled (inr conn, w) = with_connection conn (lib.amqp_channel conn w)

  abbrev pub open_rabbitmq : Text → W → (GoError ⊎ (Conn × Ch)) × W
  open_rabbitmq url w = dialled (lib.amqp_dial url w)

  abbrev pub channel_of : GoError ⊎ (Conn × Ch) → GoError ⊎ Ch
  channel_of (inl err) = inl err
  channel_of (inr (conn, channel)) = inr channel

  unfoldable pub get_rabbitmq_channel : Text → Action State Ch
  unfolding once_do
  get_rabbitmq_channel url (d, w) =
      let (r, slot, w') = once_do (open_rabbitmq url) d.rabbitmq w in
      (channel_of r, (record d { rabbitmq = slot }, w'))

  -- dbMigratorDriver
  unfoldable pub db_migrator_driver : Text → D → W → Option GoError × W
  db_migrator_driver driver db w =
      if driver == txt "sqlite"
      then lib.with_instance driver db w
      else if driver == txt "postgres"
      then lib.with_instance driver db w
      else if driver == txt "mysql"
      then lib.with_instance driver db w
      else (some (text_error (txt "undefined database migrator driver")), w)

  -- fmt.Errorf with the verb %v, which keeps the text only.
  abbrev worded : Text → GoError → GoError
  worded context err = text_error (context ++ message err)

  abbrev gone_up : D → Migration × W → (GoError ⊎ D) × W
  gone_up db (migrated, w) = (inr db, w)
  gone_up db (no_change, w) = (inr db, w)
  gone_up db (not_migrated err, w) = (inl (worded (txt "failed to do migrate: ") err), w)

  abbrev set_up : Text → D → Option GoError × W → (GoError ⊎ D) × W
  set_up driver db (some err, w) = (inl (worded (txt "failed to setup migrator: ") err), w)
  set_up driver db (none, w) = gone_up db (lib.migrate_up driver db w)

  abbrev loaded : Text → D → Option GoError × W → (GoError ⊎ D) × W
  loaded driver db (some err, w) =
      (inl (worded (txt "failed to load database migrator driver: ") err), w)
  loaded driver db (none, w) = set_up driver db (lib.new_migrator driver db w)

  abbrev reached : Text → D → Option GoError × W → (GoError ⊎ D) × W
  reached driver db (some err, w) = (inl (wrapped (txt "failed to ping database: ") err), w)
  reached driver db (none, w) = loaded driver db (db_migrator_driver driver db w)

  abbrev connected : Text → (GoError ⊎ D) × W → (GoError ⊎ D) × W
  connected driver (inl err, w) = (inl (wrapped (txt "failed to connect database: ") err), w)
  connected driver (inr db, w) = reached driver db (lib.sql_ping db w)

  abbrev pub open_db : Text → Text → W → (GoError ⊎ D) × W
  unfolding db_migrator_driver message
  open_db driver url w = connected driver (lib.sql_connect driver url w)

  unfoldable pub get_db_and_do_migrate : Text → Text → Action State D
  unfolding once_do db_migrator_driver message
  get_db_and_do_migrate driver url (d, w) =
      let (r, slot, w') = once_do (open_db driver url) d.db w in (r, (record d { db = slot }, w'))

  abbrev closing :
      {C : Type 0}
      → (C → W → Option GoError × W)
      → OnceOf C
      → Option GoError × W
      → Option GoError × W
  closing close (opened c) (err, w) = let (e, w') = close c w in (join_errors err e, w')
  closing close untried (err, w) = (err, w)
  closing close (refused _) (err, w) = (err, w)

  abbrev close_nats : OnceOf N → W → W
  close_nats (opened c) w = lib.nats_close c w
  close_nats untried w = w
  close_nats (refused _) w = w

  -- Close; the channel of rabbitmq is closed before its connection.
  unfoldable pub close : State → Option GoError × W
  close (d, w) =
      closing (λ c. lib.connection_close c.0) d.rabbitmq
        (closing (λ c. lib.channel_close c.1) d.rabbitmq
          (closing lib.memcache_close d.memcache
            (closing lib.redis_close d.redis (none, close_nats d.nats w))))
