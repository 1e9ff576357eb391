-- ===== src/Cache/Remote/Redis.antt =====
-- The redis driver keeps the contract of the cache.
use clean_architect.Cache.{Duration}
use clean_architect.Cache.InMemory.Laws.{answer}
use clean_architect.Cache.Lawful.{IsCache}
use clean_architect.Cache.Remote.{
  Reply, missing, found, RedisClient, replied, redis_set, redis_get, redis_delete, redis_driver,
}
use clean_architect.Common.{
  ℕ, ◌≤◌, ◌≡◌, refl, ◌∙◌, ◌⊎◌, inr, false, Option, none, some, [], ◌∷◌, ◌++◌, arith, nat_beq_iff,
  ◌==◌, nat_eq, Text, text_beq, text_eq,
}

abbrev pub reply_of : Option Text → Reply
reply_of none = missing
reply_of (some content) = found content

-- A server of redis that answers every command: a string that is set is read under its key, or
-- nothing is, until it is deleted or set again; no other key is touched.
pub record AnswersRedis {S : Type 0} (client : RedisClient S) : Type 0 where
  pub held : ℕ → S → Text → Option Text
  pub get_held : (now : ℕ) (k : Text) (s : S) → (client.get now k s).0 ≡ reply_of (held now s k)
  pub get_keeps :
      (now later : ℕ) (k j : Text) (s : S)
      → now ≤ later
      → held later (client.get now k s).1 j ≡ held later s j
  pub set_done :
      (now : ℕ) (k content : Text) (ttl : Duration) (s : S)
      → (client.set now k content ttl s).0 ≡ inr tt
  pub set_self :
      (now later : ℕ) (k content : Text) (ttl : Duration) (s : S)
      → (held later (client.set now k content ttl s).1 k ≡ none)
        ⊎ (held later (client.set now k content ttl s).1 k ≡ some content)
  pub set_other :
      (now later : ℕ) (k j content : Text) (ttl : Duration) (s : S)
      → (k == j) ≡ false
      → held later (client.set now k content ttl s).1 j ≡ held later s j
  pub del_done : (now : ℕ) (k : Text) (s : S) → (client.del now k s).0 ≡ inr tt
  pub del_self : (now later : ℕ) (k : Text) (s : S) → held later (client.del now k s).1 k ≡ none
  pub del_other :
      (now later : ℕ) (k j : Text) (s : S)
      → (k == j) ≡ false
      → held later (client.del now k s).1 j ≡ held later s j

-- The prefix keeps keys apart.
pub beq-prefix : (p k j : Text) → (p ++ k == p ++ j) ≡ (k == j)
unfolding text_beq
beq-prefix [] k j = refl
beq-prefix (c ∷ p) k j = rw ((nat_beq_iff c c).1 refl) (beq-prefix p k j)

module _ {S : Type 0} (client : RedisClient S) (prefix : Text) where
  replied_of : (r : Reply × S) (o : Option Text) → r.0 ≡ reply_of o → (replied r).0 ≡ answer o
  replied_of (missing, s) none h = refl
  replied_of (missing, s) (some c) h = cc
  replied_of (found d, s) none h = cc
  replied_of (found d, s) (some c) h = ground (arith, h)
  replied_of (Reply.failed e, s) none h = cc
  replied_of (Reply.failed e, s) (some c) h = cc

  replied-store : (r : Reply × S) → (replied r).1 ≡ r.1
  replied-store (missing, s) = refl
  replied-store (found d, s) = refl
  replied-store (Reply.failed e, s) = refl

  -- Over a server that answers every command as documented, the driver of redis keeps the contract
  -- of the cache, whatever its prefix: a key is read where it was set, and other keys are not touched.
  pub redis_driver-IsCache : AnswersRedis client → IsCache (redis_driver client prefix)
  unfolding redis_set redis_get redis_delete
  redis_driver-IsCache h = record {
    seen = λ now s k. h.held now s (prefix ++ k);
    get_seen = λ now k s. replied_of _ _ (h.get_held now (prefix ++ k) s);
    get_keeps = λ now later k j s le.
        rw (replied-store (client.get now (prefix ++ k) s)) (h.get_keeps now later _ _ s le);
    set_done = λ now k content ttl s. h.set_done now _ content ttl s;
    set_self = λ now later k content ttl s. h.set_self now later _ content ttl s;
    set_other = λ now later k j content ttl s e.
        h.set_other now later _ _ content ttl s (beq-prefix prefix k j ∙ e);
    delete_done = λ now k s. h.del_done now _ s;
    delete_self = λ now later k s. h.del_self now later _ s;
    delete_other = λ now later k j s e. h.del_other now later _ _ s (beq-prefix prefix k j ∙ e);
  }
