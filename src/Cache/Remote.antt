-- ===== src/Cache/Remote.antt =====
-- pkg/cache/redis.go and memcached.go: drivers over a server, whose client is a parameter.
pub mod Redis
pub mod Memcached
use clean_architect.Common.Int.{ℤ, pos, negsuc, to_word64}
use clean_architect.Cache.{Duration, Action, Driver}
use clean_architect.Errs.{GoError, sentinel, cache_missed}
use clean_architect.Common.{ℕ, zero, suc, ◌+◌, ◌/◌, ◌⊎◌, inl, inr, ◌++◌, nat_eq, Text, text_eq}

-- What a server answers to a read: `missing` is redis.Nil or memcache.ErrCacheMiss.
pub data Reply : Type 0 where
  missing : Reply
  failed : GoError → Reply
  found : Text → Reply

-- The client of redis: a duration of 0 is for ever.
pub record RedisClient (S : Type 0) : Type 0 where
  pub set : ℕ → Text → Text → Duration → Action S (Unit {0})
  pub get : ℕ → Text → S → Reply × S
  pub del : ℕ → Text → Action S (Unit {0})

-- The client of memcached: an item carries its expiration in seconds, an int32.
pub record MemcachedClient (S : Type 0) : Type 0 where
  pub set : ℕ → Text → Text → ℤ → Action S (Unit {0})
  pub get : ℕ → Text → S → Reply × S
  pub delete : ℕ → Text → Action S (Unit {0})

abbrev pub replied : {S : Type 0} → Reply × S → (GoError ⊎ Text) × S
replied (missing, s) = (inl (sentinel cache_missed), s)
replied (failed err, s) = (inl err, s)
replied (found content, s) = (inr content, s)

module _ {S : Type 0} (client : RedisClient S) (prefix : Text) where
  unfoldable pub redis_set : ℕ → Text → Text → Duration → Action S (Unit {0})
  redis_set now key content ttl s = client.set now (prefix ++ key) content ttl s

  unfoldable pub redis_get : ℕ → Text → Action S Text
  redis_get now key s = replied (client.get now (prefix ++ key) s)

  unfoldable pub redis_delete : ℕ → Text → Action S (Unit {0})
  redis_delete now key s = client.del now (prefix ++ key) s

  -- NewRedisDriver
  abbrev pub redis_driver : Driver S
  redis_driver = record { set = redis_set; get = redis_get; delete = redis_delete }

-- int32(ttl.Seconds()): the conversion drops the fraction of a second. Only durations whose seconds
-- an int32 holds are modelled: Go leaves the conversion of others to the machine.
unfoldable pub expiration : Duration → ℤ
expiration (pos n) = pos (n / 1_000_000_000)
expiration (negsuc n) = elim ((n + 1) / 1_000_000_000) [
  | zero ↦ pos 0
  | suc seconds ↦ negsuc seconds
]

module _ {S : Type 0} (client : MemcachedClient S) (prefix : Text) where
  unfoldable pub memcached_set : ℕ → Text → Text → Duration → Action S (Unit {0})
  unfolding expiration
  memcached_set now key content ttl s = client.set now (prefix ++ key) content (expiration ttl) s

  unfoldable pub memcached_get : ℕ → Text → Action S Text
  memcached_get now key s = replied (client.get now (prefix ++ key) s)

  unfoldable pub memcached_delete : ℕ → Text → Action S (Unit {0})
  memcached_delete now key s = client.delete now (prefix ++ key) s

  -- NewMemCachedDriver
  abbrev pub memcached_driver : Driver S
  memcached_driver = record { set = memcached_set; get = memcached_get; delete = memcached_delete }
