-- ===== src/App/Dependencies/Slots.antt =====
-- What one use of a client leaves in the dependencies.
use clean_architect.App.Dependencies.{
  GoError, OnceOf, untried, opened, refused, once_do, Libraries, Dependencies, State,
  get_redis_client, get_memcache_client, get_nats_client, get_rabbitmq_channel,
  get_db_and_do_migrate, open_redis, open_memcache, open_rabbitmq, open_db, channel_of,
}
use clean_architect.Common.{◌≡◌, refl, ◌⊎◌, inl, inr, arith, Sum-cases, nat_eq, Text, text_eq}

-- A client that is open is still the same.
abbrev pub Stays : {C : Type 0} → OnceOf C → OnceOf C → Type 0
Stays untried b = Unit {0}
Stays (opened c) b = b ≡ opened c
Stays (refused err) b = Unit {0}

pub Stays-self : {C : Type 0} (a : OnceOf C) → Stays a a
Stays-self untried = tt
Stays-self (opened c) = refl
Stays-self (refused err) = tt

pub Stays-trans : {C : Type 0} (a b c : OnceOf C) → Stays a b → Stays b c → Stays a c
Stays-trans untried b c p q = tt
Stays-trans (opened x) b c p q = rw p at q
Stays-trans (refused err) b c p q = tt

-- The property of the value, where there is one.
abbrev pub After : {A : Type 0} → (A → Type 0) → GoError ⊎ A → Type 0
After P (inl err) = Unit {0}
After P (inr a) = P a

pub After-map :
    {A : Type 0} {P Q : A → Type 0} (r : GoError ⊎ A)
    → ((a : A) → P a → Q a)
    → After P r
    → After Q r
After-map (inl err) f p = tt
After-map (inr a) f p = f a p

once_do-Stays :
    {C W : Type 0} (connect : W → (GoError ⊎ C) × W) (slot : OnceOf C) (w : W)
    → Stays slot (once_do connect slot w).1
      × After (λ c. (once_do connect slot w).1 ≡ opened c) (once_do connect slot w).0
unfolding once_do
once_do-Stays connect untried w = elim (Sum-cases (connect w).0) [
  | inl (err, e) ↦ (tt, ground (arith, e))
  | inr (c, e) ↦ (tt, ground (arith, e))
]
once_do-Stays connect (opened c) w = (refl, refl)
once_do-Stays connect (refused err) w = (tt, tt)

module _ {R M N Ch Conn D : Type 0} where
  pub record Extends (d d' : Dependencies R M N Ch Conn D) : Type 0 where
    pub redis_stays : Stays d.redis d'.redis
    pub memcache_stays : Stays d.memcache d'.memcache
    pub nats_stays : Stays d.nats d'.nats
    pub rabbitmq_stays : Stays d.rabbitmq d'.rabbitmq
    pub db_stays : Stays d.db d'.db

  pub Extends-self : (d : Dependencies R M N Ch Conn D) → Extends d d
  Extends-self d = record {
    redis_stays = Stays-self d.redis;
    memcache_stays = Stays-self d.memcache;
    nats_stays = Stays-self d.nats;
    rabbitmq_stays = Stays-self d.rabbitmq;
    db_stays = Stays-self d.db;
  }

  pub Extends-trans :
      (d e f : Dependencies R M N Ch Conn D) → Extends d e → Extends e f → Extends d f
  Extends-trans d e f p q = record {
    redis_stays = Stays-trans d.redis e.redis f.redis p.redis_stays q.redis_stays;
    memcache_stays = Stays-trans d.memcache e.memcache f.memcache p.memcache_stays q.memcache_stays;
    nats_stays = Stays-trans d.nats e.nats f.nats p.nats_stays q.nats_stays;
    rabbitmq_stays = Stays-trans d.rabbitmq e.rabbitmq f.rabbitmq p.rabbitmq_stays q.rabbitmq_stays;
    db_stays = Stays-trans d.db e.db f.db p.db_stays q.db_stays;
  }

module _ {R M N Ch Conn D W : Type 0} (lib : Libraries R M N Ch Conn D W) where
  -- From the dependencies `d`, what a call leaves extends them, and a value has the property.
  abbrev pub Leaves :
      {A : Type 0}
      → Dependencies R M N Ch Conn D
      → (A → Dependencies R M N Ch Conn D → Type 0)
      → (GoError ⊎ A) × State lib
      → Type 0
  Leaves d P (r, (d', w)) = Extends d d' × After (λ a. P a d') r

  pub get_redis_client-Leaves :
      (url : Text) (d : Dependencies R M N Ch Conn D) (w : W)
      → Leaves d (λ c. λ d'. d'.redis ≡ opened c) (get_redis_client lib url (d, w))
  unfolding get_redis_client
  get_redis_client-Leaves url d w =
      let (stays, got) = once_do-Stays (open_redis lib url) d.redis w in
      (
        record {
          redis_stays = stays;
          memcache_stays = Stays-self d.memcache;
          nats_stays = Stays-self d.nats;
          rabbitmq_stays = Stays-self d.rabbitmq;
          db_stays = Stays-self d.db;
        },
        got,
      )

  pub get_memcache_client-Leaves :
      (url : Text) (d : Dependencies R M N Ch Conn D) (w : W)
      → Leaves d (λ c. λ d'. d'.memcache ≡ opened c) (get_memcache_client lib url (d, w))
  unfolding get_memcache_client
  get_memcache_client-Leaves url d w =
      let (stays, got) = once_do-Stays (open_memcache lib url) d.memcache w in
      (
        record {
          redis_stays = Stays-self d.redis;
          memcache_stays = stays;
          nats_stays = Stays-self d.nats;
          rabbitmq_stays = Stays-self d.rabbitmq;
          db_stays = Stays-self d.db;
        },
        got,
      )

  pub get_nats_client-Leaves :
      (url : Text) (d : Dependencies R M N Ch Conn D) (w : W)
      → Leaves d (λ c. λ d'. d'.nats ≡ opened c) (get_nats_client lib url (d, w))
  unfolding get_nats_client
  get_nats_client-Leaves url d w =
      let (stays, got) = once_do-Stays (lib.nats_connect url) d.nats w in
      (
        record {
          redis_stays = Stays-self d.redis;
          memcache_stays = Stays-self d.memcache;
          nats_stays = stays;
          rabbitmq_stays = Stays-self d.rabbitmq;
          db_stays = Stays-self d.db;
        },
        got,
      )

  After-channel_of :
      (slot : OnceOf (Conn × Ch)) (r : GoError ⊎ (Conn × Ch))
      → After (λ c. slot ≡ opened c) r
      → After (λ ch. (conn : Conn) × (slot ≡ opened (conn, ch))) (channel_of lib r)
  After-channel_of slot (inl err) p = tt
  After-channel_of slot (inr (conn, ch)) p = (conn, p)

  pub get_rabbitmq_channel-Leaves :
      (url : Text) (d : Dependencies R M N Ch Conn D) (w : W)
      → Leaves d
          (λ c. λ d'. (conn : Conn) × (d'.rabbitmq ≡ opened (conn, c)))
          (get_rabbitmq_channel lib url (d, w))
  unfolding get_rabbitmq_channel
  get_rabbitmq_channel-Leaves url d w =
      let (stays, got) = once_do-Stays (open_rabbitmq lib url) d.rabbitmq w in
      (
        record {
          redis_stays = Stays-self d.redis;
          memcache_stays = Stays-self d.memcache;
          nats_stays = Stays-self d.nats;
          rabbitmq_stays = stays;
          db_stays = Stays-self d.db;
        },
        After-channel_of (once_do (open_rabbitmq lib url) d.rabbitmq w).1
            (once_do (open_rabbitmq lib url) d.rabbitmq w).0 got,
      )

  pub get_db_and_do_migrate-Leaves :
      (driver url : Text) (d : Dependencies R M N Ch Conn D) (w : W)
      → Leaves d (λ c. λ d'. d'.db ≡ opened c) (get_db_and_do_migrate lib driver url (d, w))
  unfolding get_db_and_do_migrate
  get_db_and_do_migrate-Leaves driver url d w =
      let (stays, got) = once_do-Stays (open_db lib driver url) d.db w in
      (
        record {
          redis_stays = Stays-self d.redis;
          memcache_stays = Stays-self d.memcache;
          nats_stays = Stays-self d.nats;
          rabbitmq_stays = Stays-self d.rabbitmq;
          db_stays = stays;
        },
        got,
      )
