-- ===== src/Queue/Redis.antt =====
-- pkg/queue/redis.go: a list of redis.
pub mod Refusal
use clean_architect.Cache.{Action}
use clean_architect.Errs.{GoError}
use clean_architect.Queue.{Payload}
use clean_architect.Common.{◌⊎◌, inl, inr, Option, none, some, nat_eq, Text, txt, text_eq}

-- An argument of a command: bytes, or a struct of the program.
pub data RedisArgument : Type 0 where
  bytes : Text → RedisArgument
  struct : Payload → RedisArgument

-- The client of redis over a state, and encoding/gob for payloads; `decode_into` leaves its error and
-- the variable that it decodes into.
pub record RedisList (S : Type 0) : Type 0 where
  pub rpush : Text → RedisArgument → S → Option GoError × S
  pub lpop : Text → Action S Text

pub record PayloadCodec : Type 0 where
  pub encode_payload : Payload → GoError ⊎ Text
  pub decode_into : Payload → Text → Option GoError × Payload

abbrev pub job_queue : Text
job_queue = txt "job_queue"

module _ {S : Type 0} (client : RedisList S) (gob : PayloadCodec) where
  -- EnQueue: the payload is encoded into a buffer, and pushed itself.
  unfoldable pub redis_enqueue : Payload → S → Option GoError × S
  redis_enqueue data_in s = elim (gob.encode_payload data_in) [
    | inl err ↦ (some err, s)
    | inr buf ↦ client.rpush job_queue (struct data_in) s
  ]

  abbrev delivered : Option GoError × Payload → (GoError ⊎ Payload) × Payload
  delivered (some err, payload) = (inl err, payload)
  delivered (none, payload) = (inr payload, payload)

  abbrev popped : Payload → (GoError ⊎ Text) × S → (GoError ⊎ Payload) × Payload × S
  popped payload (inl err, s) = (inl err, payload, s)
  popped payload (inr bytes_in, s) =
      let (r, payload') = delivered (gob.decode_into payload bytes_in) in (r, payload', s)

  -- case <-tick.C of DeQueue: what is sent on one of the channels, the loop's variable and the state.
  unfoldable pub redis_dequeue : Payload → S → (GoError ⊎ Payload) × Payload × S
  redis_dequeue payload s = popped payload (client.lpop job_queue s)
