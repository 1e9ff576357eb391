-- ===== src/Config/Settings.antt =====
-- The settings as records, with their methods.
use clean_architect.Common.Int.{ℤ, pos, is_pos, wrap64, ◌*ℤ◌}
use clean_architect.Cache.{Duration}
use clean_architect.Config.{driver, get_redis_url, url_of, postgres_url, mysql_url}
use clean_architect.Common.{ℕ, [], ◌++◌, if◌then◌else◌, ◌==◌, nat_eq, Text, txt, text_eq, decimal}

pub record CacheSettings : Type 0 where
  pub driver_name : Text
  pub ip : Text
  pub port : ℕ
  pub prefix_name : Text
  pub user_name : Text
  pub password : Text
  pub db_number : ℕ

pub record EventSettings : Type 0 where
  pub driver_name : Text
  pub ip : Text
  pub port : ℕ
  pub user_name : Text
  pub password : Text
  pub db_number : ℕ

pub record QueueSettings : Type 0 where
  pub driver_name : Text
  pub ip : Text
  pub port : ℕ
  pub user_name : Text
  pub password : Text
  pub db_number : ℕ
  pub run_every_milli_seconds : ℤ

pub record DbSettings : Type 0 where
  pub driver_name : Text
  pub ip : Text
  pub port : ℕ
  pub user_name : Text
  pub password : Text
  pub name : Text
  pub path : Text

pub record SchedulerSettings : Type 0 where
  pub driver_name : Text
  pub ip : Text
  pub port : ℕ
  pub user_name : Text
  pub password : Text
  pub db_number : ℕ
  pub name : Text
  pub path : Text
  pub concurrency_level : ℤ
  pub run_every_seconds : ℤ

unfoldable pub cache_connection_string : CacheSettings → Text
unfolding driver get_redis_url url_of decimal
cache_connection_string c =
    if driver c.driver_name == txt "redis"
    then get_redis_url c.ip (decimal c.port) c.user_name c.password (decimal c.db_number)
    else if driver c.driver_name == txt "memcached"
    then url_of c.ip c.port c.user_name c.password
    else []

unfoldable pub event_connection_string : EventSettings → Text
unfolding driver get_redis_url url_of decimal
event_connection_string e =
    if driver e.driver_name == txt "rabbitmq"
    then txt "amqp://" ++ url_of e.ip e.port e.user_name e.password
    else if driver e.driver_name == txt "redis"
    then get_redis_url e.ip (decimal e.port) e.user_name e.password (decimal e.db_number)
    else if driver e.driver_name == txt "nats"
    then txt "nats://" ++ url_of e.ip e.port e.user_name e.password
    else []

unfoldable pub queue_connection_string : QueueSettings → Text
unfolding driver get_redis_url decimal
queue_connection_string q =
    if driver q.driver_name == txt "redis"
    then get_redis_url q.ip (decimal q.port) q.user_name q.password (decimal q.db_number)
    else []

-- filepath.Join is a parameter.
module _ (join_path : Text → Text → Text) where
  unfoldable pub db_connection_string : DbSettings → Text
  unfolding driver postgres_url mysql_url
  db_connection_string db =
      if driver db.driver_name == txt "postgres"
      then postgres_url db.user_name db.password db.ip db.port db.name
      else if driver db.driver_name == txt "mysql"
      then mysql_url db.user_name db.password db.ip db.port db.name
      else if driver db.driver_name == txt "sqlite"
      then join_path db.path db.name ++ txt ".sqlite"
      else []

  unfoldable pub scheduler_connection_string : SchedulerSettings → Text
  unfolding driver get_redis_url postgres_url mysql_url decimal
  scheduler_connection_string s =
      if driver s.driver_name == txt "redis"
      then get_redis_url s.ip (decimal s.port) s.user_name s.password (decimal s.db_number)
      else if driver s.driver_name == txt "postgres"
      then postgres_url s.user_name s.password s.ip s.port s.name
      else if driver s.driver_name == txt "mysql"
      then mysql_url s.user_name s.password s.ip s.port s.name
      else if driver s.driver_name == txt "sqlite"
      then join_path s.path s.name ++ txt ".sqlite"
      else []

unfoldable pub concurrency : SchedulerSettings → ℤ
unfolding is_pos
concurrency s = if is_pos s.concurrency_level then s.concurrency_level else pos 1

abbrev pub second : Duration
second = pos 1_000_000_000

abbrev pub millisecond : Duration
millisecond = pos 1_000_000

-- The product of durations wraps around in 64 bits.
unfoldable pub scheduler_run_every : SchedulerSettings → Duration
unfolding is_pos wrap64 ◌*ℤ◌
scheduler_run_every s =
    if is_pos s.run_every_seconds then wrap64 (second *ℤ s.run_every_seconds) else second

unfoldable pub queue_run_every : QueueSettings → Duration
unfolding wrap64 ◌*ℤ◌
queue_run_every q = wrap64 (millisecond *ℤ q.run_every_milli_seconds)
