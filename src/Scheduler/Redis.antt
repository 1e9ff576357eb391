-- ===== src/Scheduler/Redis.antt =====
-- pkg/scheduler/redis.go: a task is a member of a sorted set, and its payload stands under its id.
pub mod Names
use clean_architect.Cache.{Action}
use clean_architect.Domain.{Time}
use clean_architect.Errs.{GoError}
use clean_architect.Scheduler.{Retrieved, Storage}
use clean_architect.Scheduler.Files.{text_ltb, first_part}
use clean_architect.Common.{
  ℕ, ◌⊎◌, inl, inr, Bool, ◌&&◌, ◌||◌, Option, none, some, [], ◌∷◌, ◌++◌, ltb, nat_beq,
  if◌then◌else◌, nat_eq, Text, txt, text_eq, split, trim_left, decimal, Dict, lookup, insert,
  remove,
}

-- The commands whose answer the code looks at.
pub data Command : Type 0 where
  exec zrangebyscore get zrem zadd del : Command

-- The sorted sets `scheduler` and `scheduler-failed`, with their scores, and the keys. A score is a
-- time in seconds, which a float64 holds exactly below 2 ^ 53.
pub record Redis : Type 0 where
  pub scheduler : Dict Text ℕ
  pub scheduler_failed : Dict Text ℕ
  pub keys : Dict Text Text

-- fmt.Sprintf("task_%s_%d_%d", …)
unfoldable pub id_of : Text → ℕ → ℕ → Text
unfolding decimal
id_of task_name at number =
    txt "task_" ++ (task_name ++ (txt "_" ++ (decimal at ++ (txt "_" ++ decimal number))))

-- strings.Split(strings.TrimLeft(taskID, "task_"), "_")[0]; the second argument is a set of bytes.
unfoldable pub redis_task_name : Text → Text
unfolding trim_left split
redis_task_name task_id = first_part (split 95 (trim_left (txt "task_") task_id))

-- The order of a sorted set: by score, then by member.
abbrev earlier : Text × ℕ → Text × ℕ → Bool
earlier (a, m) (b, n) = ltb m n || (nat_beq m n && text_ltb a b)

-- ZRANGEBYSCORE scheduler -inf now LIMIT 0 1
unfoldable pub first_due : ℕ → Dict Text ℕ → Option (Text × ℕ)
unfolding text_ltb
first_due now [] = none
first_due now ((id, score) ∷ set) =
    let rest = first_due now set in
    if ltb now score then rest else (elim rest [
      | none ↦ some (id, score)
      | some e ↦ some (if earlier e (id, score) then e else (id, score))
    ])

-- `fault` is the error with which the server answers a command, `unix` is Time.Unix for the times
-- from 1970 on, and `random` is what rand.IntN(100) gives.
module _ (fault : Command → Option GoError) (nil : GoError) (unix : Time → ℕ) where
  abbrev answered : {A : Type 0} → Command → Redis → (GoError ⊎ A) × Redis → (GoError ⊎ A) × Redis
  answered command r rest = elim (fault command) [ some err ↦ (inl err, r) | none ↦ rest ]

  -- Store: the two commands of the pipeline run together.
  unfoldable pub store : ℕ → Text → Time → Text → Action Redis (Unit {0})
  unfolding id_of insert
  store random task_name schedule_at payload r =
      let id = id_of task_name (unix schedule_at) random in
      answered exec r (
        inr tt,
        record r {
          scheduler = insert id (unix schedule_at) r.scheduler;
          keys = insert id payload r.keys;
        },
      )

  -- A missing key is the error redis.Nil.
  abbrev taken : Text → Option Text → Redis → (GoError ⊎ Option Retrieved) × Redis
  taken id none r = (inl nil, r)
  taken id (some payload) r = answered zrem r (
    inr (some (record { task_id = id; task_name = redis_task_name id; content = payload })),
    record r { scheduler = remove id r.scheduler },
  )

  abbrev found_due : Option (Text × ℕ) → Redis → (GoError ⊎ Option Retrieved) × Redis
  found_due none r = (inr none, r)
  found_due (some e) r = answered get r (taken e.0 (lookup e.0 r.keys) r)

  -- Retrieve
  unfoldable pub retrieve : Time → Action Redis (Option Retrieved)
  unfolding first_due redis_task_name lookup remove
  retrieve now r = answered zrangebyscore r (found_due (first_due (unix now) r.scheduler) r)

  -- Failure
  unfoldable pub failure : Time → Text → Action Redis (Unit {0})
  unfolding insert
  failure now task_id r =
      answered zadd r
        (inr tt, record r { scheduler_failed = insert task_id (unix now) r.scheduler_failed })

  -- Done
  unfoldable pub done : Time → Text → Action Redis (Unit {0})
  unfolding remove
  done now task_id r = answered del r (inr tt, record r { keys = remove task_id r.keys })
