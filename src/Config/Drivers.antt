-- ===== src/Config/Drivers.antt =====
-- Which drivers have a connection string.
use clean_architect.Config.{driver, is_empty, get_redis_url, url_of, postgres_url, mysql_url}
use clean_architect.Config.Settings.{
  CacheSettings, EventSettings, QueueSettings, DbSettings, SchedulerSettings,
  cache_connection_string, event_connection_string, queue_connection_string, db_connection_string,
  scheduler_connection_string,
}
use clean_architect.Common.{
  ℕ, ◌≡◌, refl, Bool, true, false, not, ◌||◌, List, [], ◌∷◌, ◌++◌, arith, ◌==◌, nat_eq, Text, txt,
  text_eq, decimal,
}

not_empty : (s t : Text) (c : ℕ) → is_empty (s ++ (c ∷ t)) ≡ false
unfolding is_empty
not_empty [] t c = refl
not_empty (d ∷ s) t c = refl

get_redis_url_full :
    (ip port username password db : Text)
    → is_empty (get_redis_url ip port username password db) ≡ false
unfolding get_redis_url is_empty
get_redis_url_full ip port username password db = refl

url_of_full :
    (ip : Text) (port : ℕ) (user_name password : Text)
    → is_empty (url_of ip port user_name password) ≡ false
unfolding url_of
url_of_full ip port user_name password = ground (
  arith,
  not_empty ip (decimal port) 58,
  not_empty user_name (password ++ (txt "@" ++ (ip ++ (txt ":" ++ decimal port)))) 58,
)

postgres_url_full :
    (user_name password ip : Text) (port : ℕ) (name : Text)
    → is_empty (postgres_url user_name password ip port name) ≡ false
unfolding postgres_url is_empty
postgres_url_full user_name password ip port name = refl

mysql_url_full :
    (user_name password ip : Text) (port : ℕ) (name : Text)
    → is_empty (mysql_url user_name password ip port name) ≡ false
unfolding mysql_url
mysql_url_full user_name password ip port name = not_empty user_name _ 58

-- The driver's name is one of the list.
abbrev pub names_one : List Text → Text → Bool
names_one [] driver_name = false
names_one (d ∷ drivers) driver_name = (driver driver_name == d) || names_one drivers driver_name

empty_nil : is_empty [] ≡ true
unfolding is_empty
empty_nil = refl

cache-is_empty :
    (c : CacheSettings)
    → is_empty (cache_connection_string c)
      ≡ not (names_one (txt "redis" ∷ txt "memcached" ∷ []) c.driver_name)
unfolding cache_connection_string
cache-is_empty c = ground (
  arith,
  get_redis_url_full c.ip (decimal c.port) c.user_name c.password (decimal c.db_number),
  url_of_full c.ip c.port c.user_name c.password,
  empty_nil,
)

event-is_empty :
    (e : EventSettings)
    → is_empty (event_connection_string e)
      ≡ not (names_one (txt "rabbitmq" ∷ txt "redis" ∷ txt "nats" ∷ []) e.driver_name)
unfolding event_connection_string
event-is_empty e = ground (
  arith,
  get_redis_url_full e.ip (decimal e.port) e.user_name e.password (decimal e.db_number),
  not_empty [] (txt "mqp://" ++ url_of e.ip e.port e.user_name e.password) 97,
  not_empty [] (txt "ats://" ++ url_of e.ip e.port e.user_name e.password) 110,
  empty_nil,
)

queue-is_empty :
    (q : QueueSettings)
    → is_empty (queue_connection_string q) ≡ not (names_one (txt "redis" ∷ []) q.driver_name)
unfolding queue_connection_string
queue-is_empty q = ground (
  arith,
  get_redis_url_full q.ip (decimal q.port) q.user_name q.password (decimal q.db_number),
  empty_nil,
)

db-is_empty :
    (join_path : Text → Text → Text) (d : DbSettings)
    → is_empty (db_connection_string join_path d)
      ≡ not (names_one (txt "postgres" ∷ txt "mysql" ∷ txt "sqlite" ∷ []) d.driver_name)
unfolding db_connection_string
db-is_empty join_path d = ground (
  arith,
  postgres_url_full d.user_name d.password d.ip d.port d.name,
  mysql_url_full d.user_name d.password d.ip d.port d.name,
  not_empty (join_path d.path d.name) (txt "sqlite") 46,
  empty_nil,
)

scheduler-is_empty :
    (join_path : Text → Text → Text) (s : SchedulerSettings)
    → is_empty (scheduler_connection_string join_path s)
      ≡ not
          (names_one (txt "redis" ∷ txt "postgres" ∷ txt "mysql" ∷ txt "sqlite" ∷ []) s.driver_name)
unfolding scheduler_connection_string
scheduler-is_empty join_path s = ground (
  arith,
  get_redis_url_full s.ip (decimal s.port) s.user_name s.password (decimal s.db_number),
  postgres_url_full s.user_name s.password s.ip s.port s.name,
  mysql_url_full s.user_name s.password s.ip s.port s.name,
  not_empty (join_path s.path s.name) (txt "sqlite") 46,
  empty_nil,
)

-- A connection string is empty exactly if the driver's name, without spaces around it and in lower
-- case, is none of those that the settings know: redis and memcached for the cache; rabbitmq, redis
-- and nats for the events; redis for the queue; postgres, mysql and sqlite for the database; and
-- these and redis for the scheduler.
pub connection_strings-is_empty :
    (join_path : Text → Text → Text) (c : CacheSettings) (e : EventSettings) (q : QueueSettings)
    (d : DbSettings) (s : SchedulerSettings)
    → (is_empty (cache_connection_string c)
        ≡ not (names_one (txt "redis" ∷ txt "memcached" ∷ []) c.driver_name))
      × (is_empty (event_connection_string e)
          ≡ not (names_one (txt "rabbitmq" ∷ txt "redis" ∷ txt "nats" ∷ []) e.driver_name))
      × (is_empty (queue_connection_string q) ≡ not (names_one (txt "redis" ∷ []) q.driver_name))
      × (is_empty (db_connection_string join_path d)
          ≡ not (names_one (txt "postgres" ∷ txt "mysql" ∷ txt "sqlite" ∷ []) d.driver_name))
      × (is_empty (scheduler_connection_string join_path s)
          ≡ not (
              names_one
                (txt "redis" ∷ txt "postgres" ∷ txt "mysql" ∷ txt "sqlite" ∷ [])
                s.driver_name))
connection_strings-is_empty join_path c e q d s = (
  cache-is_empty c,
  event-is_empty e,
  queue-is_empty q,
  db-is_empty join_path d,
  scheduler-is_empty join_path s,
)
