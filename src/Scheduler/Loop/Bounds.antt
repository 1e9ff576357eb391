-- ===== src/Scheduler/Loop/Bounds.antt =====
-- The semaphore bounds the goroutines.
use clean_architect.Scheduler.Loop.{
  cancel, here, leave, enter, tick, next, start, stop, Steps, Step, Job, State, poll, finish,
}
use clean_architect.Common.{
  ◌∷◌, length-append, List, ap, ◌++◌, ◌-◌, refl, ℕ, ◌≤◌, ◌≡◌, arith, nat_eq, length, Text, text_eq,
  Dict,
}
use clean_architect.Scheduler.{GoError, Storage, JobExecutor}
use clean_architect.Domain.{Time}

-- The semaphore holds one value for each goroutine, and no more than its capacity.
pub record IsBounded {S : Type 0} (concurrency : ℕ) (s : State S) : Type 0 where
  pub counted : s.held ≡ length s.running
  pub within : s.held ≤ concurrency

module _ {S : Type 0} (store : Storage S) (executors : Dict Text JobExecutor)
    (concurrency : ℕ) where
  poll-SameJobs :
      (now : Time) (s : State S)
      → ((poll store executors now s).held ≡ s.held)
        × ((poll store executors now s).running ≡ s.running)
  unfolding poll
  poll-SameJobs now s = ground arith

  finish-SameJobs :
      (now : Time) (j : Job) (s : State S)
      → ((finish store executors now j s).held ≡ s.held)
        × ((finish store executors now j s).running ≡ s.running)
  unfolding finish
  finish-SameJobs now j s = ground arith

  stop-SameJobs :
      (err : GoError) (s : State S)
      → ((stop store executors err s).held ≡ s.held)
        × ((stop store executors err s).running ≡ s.running)
  unfolding stop
  stop-SameJobs err s = ground arith

  same-IsBounded :
      (s t : State S)
      → (t.held ≡ s.held) × (t.running ≡ s.running)
      → IsBounded concurrency s
      → IsBounded concurrency t
  same-IsBounded s t (h, r) b = record { counted = rw (h, r) b.counted; within = rw h b.within }

  Step-IsBounded :
      {s t : State S}
      → Step store executors concurrency s t
      → IsBounded concurrency s
      → IsBounded concurrency t
  Step-IsBounded (tick s now live idle) b =
      same-IsBounded s (poll store executors now s) (poll-SameJobs now s) b
  Step-IsBounded (enter s j e room) b = record {
    counted = omega (arith, b.counted);
    within = omega (arith, room);
  }
  Step-IsBounded (leave s now before j after e) b =
      let s' : State S = record s { held = s.held - 1; running = before ++ after } in
      same-IsBounded s' (finish store executors now j s') (finish-SameJobs now j s') (record {
        counted = omega (
          arith,
          b.counted,
          ap (λ (l : List Job). length l) e,
          length-append before (j ∷ after),
          length-append before after,
        );
        within = omega (arith, b.within);
      })
  Step-IsBounded (cancel s err live idle) b =
      same-IsBounded s (stop store executors err s) (stop-SameJobs err s) b

  -- In every state that the loop and its goroutines reach from the start, whatever the storage, the
  -- executors and the order of the steps, the semaphore holds exactly one value for each running
  -- goroutine, and there are at most `concurrency` of them.
  pub Steps-IsBounded :
      (s : S) {t : State S}
      → Steps store executors concurrency (start s) t
      → IsBounded concurrency t
  Steps-IsBounded s here = record { counted = refl; within = omega arith }
  Steps-IsBounded s (next steps step) = Step-IsBounded step (Steps-IsBounded s steps)
