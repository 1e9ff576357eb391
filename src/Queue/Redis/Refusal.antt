-- ===== src/Queue/Redis/Refusal.antt =====
-- What becomes of a payload that is enqueued in redis.
use clean_architect.Errs.{GoError}
use clean_architect.Queue.{Payload}
use clean_architect.Queue.Redis.{struct, RedisList, PayloadCodec, job_queue, redis_enqueue}
use clean_architect.Common.{◌≡◌, refl, inl, inr, some, Sum-cases, nat_eq, Text, text_eq}

-- go-redis refuses an argument that it cannot marshal: a struct without a method of its own for that.
abbrev pub RefusesStructs : {S : Type 0} → RedisList S → Type 0
RefusesStructs {S} client =
    (key : Text) (p : Payload) (s : S)
    → (err : GoError) × (client.rpush key (struct p) s ≡ (some err, s))

-- Over a client that refuses structs every EnQueue fails and stores nothing, whether the payload can be
-- encoded or not.
pub redis_enqueue_fails :
    {S : Type 0} (client : RedisList S) (gob : PayloadCodec) (p : Payload) (s : S)
    → RefusesStructs client
    → (err : GoError) × (redis_enqueue client gob p s ≡ (some err, s))
unfolding redis_enqueue
redis_enqueue_fails client gob p s refuses = elim (Sum-cases (gob.encode_payload p)) [
  | inl (err, e) ↦ (err, rw (e, redis_enqueue) refl)
  | inr (buf, e) ↦ let (err, r) = refuses job_queue p s in (err, rw (e, redis_enqueue) r)
]
