-- ===== src/Scheduler/Loop/Progress.antt =====
-- A job that waits for the semaphore gets its turn.
use clean_architect.Domain.{Time}
use clean_architect.Scheduler.{Storage, JobExecutor}
use clean_architect.Scheduler.Loop.{Job, State, finish, Step, enter, leave}
use clean_architect.Scheduler.Loop.Bounds.{IsBounded}
use clean_architect.Common.{
  ℕ, ◌+◌, ◌-◌, ◌≤◌, ◌<◌, ◌≡◌, refl, ◌∙◌, ◌⊎◌, inl, inr, false, none, some, List, [], ◌∷◌, arith,
  ltb, ltb→lt, Bool-cases, nat_eq, length, Text, text_eq, Dict,
}

first_job : (l : List Job) → 0 < length l → (j : Job) × (rest : List Job) × (l ≡ j ∷ rest)
first_job [] h = absurd (omega arith)
first_job (j ∷ rest) h = (j, rest, refl)

not_ltb : (a b : ℕ) → ltb a b ≡ false → b ≤ a
not_ltb a b h = ground arith

module _ {S : Type 0} (store : Storage S) (executors : Dict Text JobExecutor)
    (concurrency : ℕ) where
  finish-waiting :
      (now : Time) (j : Job) (s : State S) → (finish store executors now j s).waiting ≡ s.waiting
  unfolding finish
  finish-waiting now j s = ground arith

  finish-held :
      (now : Time) (j : Job) (s : State S) → (finish store executors now j s).held ≡ s.held
  unfolding finish
  finish-held now j s = ground arith

  -- One step, in which `j` enters.
  abbrev pub Enters : State S → Job → Type 0
  Enters s j =
      (u : State S) × Step store executors concurrency s u
      × (u.running ≡ j ∷ s.running)
      × (u.waiting ≡ none)

  entered : (s : State S) (j : Job) → s.waiting ≡ some j → s.held < concurrency → Enters s j
  entered s j e room = (
    record s { waiting = none; held = s.held + 1; running = j ∷ s.running },
    enter s j e room,
    refl,
    refl,
  )

  -- With a positive capacity, from any bounded state in which the job `j` waits: either one step,
  -- the entry of `j`, leads to a state in which `j` runs and the loop waits for nothing, or the
  -- semaphore is full, and two steps do, the end of a running goroutine, whatever its executor and
  -- the storage answer, and then the entry.
  pub waiting_starts :
      (s : State S) (j : Job) (now : Time)
      → 0 < concurrency
      → IsBounded concurrency s
      → s.waiting ≡ some j
      → Enters s j
        ⊎ ((s.held ≡ concurrency)
            × (k : Job) × (rest : List Job) × (s.running ≡ k ∷ rest)
            × (let t =
                  finish store executors now k (record s { held = s.held - 1; running = rest }) in
                Step store executors concurrency s t × Enters t j))
  waiting_starts s j now positive b e = elim (Bool-cases (ltb s.held concurrency)) [
    | inl room ↦ inl (entered s j e (ltb→lt s.held concurrency room))
    | inr full ↦
        let (k, rest, e') =
          first_job s.running (omega (arith, b.counted, not_ltb s.held concurrency full)) in
        let s' : State S = record s { held = s.held - 1; running = rest } in
        let t = finish store executors now k s' in
        inr (
          omega (arith, not_ltb s.held concurrency full, b.within),
          k,
          rest,
          e',
          (
            leave s now [] k rest e',
            entered t j (finish-waiting now k s' ∙ e)
                (omega (arith, finish-held now k s', b.within)),
          ),
        )
  ]
