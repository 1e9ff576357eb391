-- ===== src/Scheduler/Loop.antt =====
-- The loop of `Start` and the goroutines of its jobs, as a relation between states.
pub mod Bounds
pub mod Progress
pub mod Stopping
use clean_architect.Domain.{Time}
use clean_architect.Errs.{GoError, sentinel, executor_not_defined}
use clean_architect.Scheduler.{Storage, Retrieved, JobExecutor}
use clean_architect.Common.{
  ℕ, ◌+◌, ◌-◌, ◌<◌, ◌≡◌, ◌⊎◌, inl, inr, Bool, true, false, Option, none, some, List, [], ◌∷◌, ◌++◌,
  if◌then◌else◌, nat_eq, Text, text_eq, Dict, lookup,
}

-- A task with the executor that was found for it.
pub record Job : Type 0 where
  pub task_id : Text
  pub executor : JobExecutor
  pub content : Text

-- `waiting` is the job for which the loop blocks on `s.sem <- struct{}{}`; `held` is the number of
-- values in the semaphore; `running` are the goroutines; `errors` is what was sent on `errCh`, which
-- a reader takes at once; `stopped` is set when the loop has returned and both channels are closed.
pub record State (S : Type 0) : Type 0 where
  pub storage : S
  pub waiting : Option Job
  pub held : ℕ
  pub running : List Job
  pub errors : List GoError
  pub stopped : Bool
  pub panicked : Bool

abbrev pub start : {S : Type 0} → S → State S
start s = record {
  storage = s;
  waiting = none;
  held = 0;
  running = [];
  errors = [];
  stopped = false;
  panicked = false;
}

module _ {S : Type 0} (store : Storage S) (executors : Dict Text JobExecutor) where
  -- errCh <- err: a send on the closed channel panics.
  unfoldable pub send : GoError → State S → State S
  send err s =
      if s.stopped
      then record s { panicked = true }
      else record s { errors = s.errors ++ (err ∷ []) }

  abbrev send_error : {A : Type 0} → GoError ⊎ A → State S → State S
  send_error (inl err) s = send err s
  send_error (inr a) s = s

  abbrev found : Retrieved → Option JobExecutor → State S → State S
  found r none s = send (sentinel executor_not_defined) s
  found r (some executor) s = record s {
    waiting = some (record { task_id = r.task_id; executor = executor; content = r.content });
  }

  abbrev polled : GoError ⊎ Option Retrieved → State S → State S
  polled (inl err) s = send err s
  polled (inr none) s = s
  polled (inr (some r)) s = found r (lookup r.task_name executors) s

  -- case <-tick.C, up to the wait for the semaphore.
  unfoldable pub poll : Time → State S → State S
  unfolding send lookup
  poll now s =
      let (result, storage) = store.retrieve now s.storage in
      polled result (record s { storage = storage })

  abbrev settle : Time → Job → Option GoError → State S → State S
  settle now j none s =
      let (result, storage) = store.done now j.task_id s.storage in
      send_error result (record s { storage = storage })
  settle now j (some err) s =
      let s' = send err s in
      let (result, storage) = store.failure now j.task_id s'.storage in
      send_error result (record s' { storage = storage })

  -- The rest of a goroutine: the executor, then Failure or Done.
  unfoldable pub finish : Time → Job → State S → State S
  unfolding send
  finish now j s = settle now j (j.executor j.content) s

  -- `case <-ctx.Done()` and the deferred calls: the error of the context is sent, then the channels
  -- are closed.
  unfoldable pub stop : GoError → State S → State S
  unfolding send
  stop err s = let s' = send err s in record s' { stopped = true }

  -- A step: the loop polls while it is neither stopped nor waiting; the waiting job starts while the
  -- semaphore has room for it; a goroutine ends, in any order; the context is cancelled while the
  -- loop stands in its `select`.
  pub data Step (concurrency : ℕ) : State S → State S → Type 0 where
    tick :
        (s : State S) (now : Time)
        → s.stopped ≡ false
        → s.waiting ≡ none
        → Step concurrency s (poll now s)
    enter :
        (s : State S) (j : Job)
        → s.waiting ≡ some j
        → s.held < concurrency
        → Step concurrency s
            (record s { waiting = none; held = s.held + 1; running = j ∷ s.running })
    leave :
        (s : State S) (now : Time) (before : List Job) (j : Job) (after : List Job)
        → s.running ≡ before ++ (j ∷ after)
        → Step concurrency s
            (finish now j (record s { held = s.held - 1; running = before ++ after }))
    cancel :
        (s : State S) (err : GoError)
        → s.stopped ≡ false
        → s.waiting ≡ none
        → Step concurrency s (stop err s)

  pub data Steps (concurrency : ℕ) (s : State S) : State S → Type 0 where
    here : Steps concurrency s s
    next : {t u : State S} → Steps concurrency s t → Step concurrency t u → Steps concurrency s u
