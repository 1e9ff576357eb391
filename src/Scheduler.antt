-- ===== src/Scheduler.antt =====
-- pkg/scheduler: tasks that are stored for a time, retrieved by a polling loop and executed.
pub mod Loop
pub mod Files
pub mod Redis
pub mod Database
use clean_architect.Cache.{Action}
use clean_architect.Domain.{Time}
use clean_architect.Errs.{GoError, sentinel, executor_not_defined}
use clean_architect.Common.{inl, Option, none, some, nat_eq, Text, text_eq, Dict, lookup, insert}

-- What Retrieve returns beside its error: `none` is a nil `data`.
pub record Retrieved : Type 0 where
  pub task_id : Text
  pub task_name : Text
  pub content : Text

-- The interface `Storage` over a state `S`. Each call is given the time at which it runs.
pub record Storage (S : Type 0) : Type 0 where
  pub store : Time → Text → Time → Text → Action S (Unit {0})
  pub retrieve : Time → Action S (Option Retrieved)
  pub failure : Time → Text → Action S (Unit {0})
  pub done : Time → Text → Action S (Unit {0})

-- type JobExecutor: the error that it returns on a payload.
abbrev pub JobExecutor : Type 0
JobExecutor = Text → Option GoError

-- RegisterExecutor
unfoldable pub register_executor :
    Text → JobExecutor → Dict Text JobExecutor → Dict Text JobExecutor
unfolding insert
register_executor task executor executors = insert task executor executors

-- ScheduleTask
unfoldable pub schedule_task :
    {S : Type 0}
    → Storage S
    → Dict Text JobExecutor
    → Time
    → Text
    → Time
    → Text
    → Action S (Unit {0})
unfolding lookup
schedule_task storage executors now task schedule_at payload s = elim (lookup task executors) [
  | none ↦ (inl (sentinel executor_not_defined), s)
  | some executor ↦ storage.store now task schedule_at payload s
]

-- pkg/scheduler/discard.go: the driver that accepts every task and executes none.
unfoldable pub discard_schedule_task : Text → Time → Text → Option GoError
discard_schedule_task task schedule_at payload = none
