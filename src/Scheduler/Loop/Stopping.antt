-- ===== src/Scheduler/Loop/Stopping.antt =====
-- Cancellation of the loop's context.
use clean_architect.Domain.{Time}
use clean_architect.Errs.{GoError}
use clean_architect.Scheduler.{Storage, JobExecutor}
use clean_architect.Scheduler.Loop.{
  Job, State, start, poll, finish, stop, Step, tick, enter, leave, cancel, Steps, here, next,
}
use clean_architect.Common.{
  ℕ, ◌-◌, ◌≡◌, refl, true, false, none, some, List, ◌∷◌, ◌++◌, arith, nat_eq, Text, text_eq, Dict,
}

module _ {S : Type 0} (store : Storage S) (executors : Dict Text JobExecutor)
    (concurrency : ℕ) where
  -- A send panics only on the closed channel.
  abbrev pub IsCalm : State S → Type 0
  IsCalm s = s.stopped ≡ false → s.panicked ≡ false

  Step-IsCalm : {s t : State S} → Step store executors concurrency s t → IsCalm s → IsCalm t
  unfolding poll finish stop
  Step-IsCalm (tick s now live idle) c = ground (arith, c live)
  Step-IsCalm (enter s j e room) c = c
  Step-IsCalm (leave s now before j after e) c = ground arith
  Step-IsCalm (cancel s err live idle) c = ground arith

  -- Until the context is cancelled nothing panics.
  pub Steps-IsCalm :
      (s : S) {t : State S} → Steps store executors concurrency (start s) t → IsCalm t
  Steps-IsCalm s here = λ e. refl
  Steps-IsCalm s (next steps step) = Step-IsCalm step (Steps-IsCalm s steps)

  -- After the cancellation a goroutine whose executor fails panics: from any state that has not
  -- panicked, in which the loop can be cancelled and such a goroutine runs, the cancellation is a
  -- step that panics not, the end of that goroutine is a step from there, and it panics.
  pub cancel_then_fail :
      (s : State S) (err failed : GoError) (now : Time) (before : List Job) (j : Job)
      (after : List Job)
      → s.panicked ≡ false
      → s.stopped ≡ false
      → s.waiting ≡ none
      → s.running ≡ before ++ (j ∷ after)
      → j.executor j.content ≡ some failed
      → let t = stop store executors err s in
        let u =
          finish store executors now j
            (record t { held = t.held - 1; running = before ++ after }) in
        Step store executors concurrency s t
        × (t.panicked ≡ false)
        × Step store executors concurrency t u
        × (u.panicked ≡ true)
  unfolding stop finish
  cancel_then_fail s err failed now before j after calm live idle e fails =
      let t = stop store executors err s in
      (
        cancel s err live idle,
        ground (arith, calm, live),
        leave t now before j after (ground (arith, e)),
        ground (arith, fails),
      )
