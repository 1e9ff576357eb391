-- ===== src/Examples/Tasks.antt =====
-- The scheduler.
use clean_architect.Common.{
  inl, if◌then◌else◌, ◌==◌, ◌⊎◌, ◌≡◌, refl, inr, true, false, none, some, List, [], ◌∷◌, ◌++◌,
  arith, nat_eq, contains, Text, txt, text_beq, text_eq, Dict,
}
use clean_architect.Errs.{GoError, text_error}
use clean_architect.Scheduler.{Storage, JobExecutor}
use clean_architect.Scheduler.Loop.{
  Job, State, start, Steps, here, next, tick, enter, poll, Step, stop, finish,
}
use clean_architect.Scheduler.Loop.Bounds.{IsBounded, Steps-IsBounded}
use clean_architect.Scheduler.Loop.Progress.{Enters, waiting_starts}
use clean_architect.Scheduler.Loop.Stopping.{cancel_then_fail}
use clean_architect.Domain.{Time}
use clean_architect.Scheduler.Files.{
  Disk, in_scheduled, store, retrieve, done, failure, file_name_of,
}
use clean_architect.Scheduler.Files.Retrieving.{empty_disk, retrieve-store_file}
use clean_architect.Scheduler.Files.Names.{IsTrimmed}

-- The ids of the tasks that are due, all of one name.
abbrev due : Storage (List Text)
due = record {
  store = λ now name at payload s. (inr tt, s ++ (payload ∷ []));
  retrieve = λ now s. elim s [
    | [] ↦ (inr none, [])
    | id ∷ ids ↦ (inr (some (record { task_id = id; task_name = txt "mail"; content = id })), ids)
  ];
  failure = λ now id s. (inr tt, s);
  done = λ now id s. (inr tt, s);
}

abbrev failing : JobExecutor
failing payload = some (text_error (txt "refused"))

abbrev executors : Dict Text JobExecutor
executors = (txt "mail", failing) ∷ []

abbrev job : Text → Job
job id = record { task_id = id; executor = failing; content = id }

abbrev waiting : State (List Text)
waiting = record (start (txt "b" ∷ [])) { waiting = some (job (txt "a")) }

abbrev running : State (List Text)
running = record (start (txt "b" ∷ [])) { running = job (txt "a") ∷ []; held = 1 }

first_step : Steps due executors 2 (start (txt "a" ∷ txt "b" ∷ [])) running
unfolding poll text_beq
first_step =
    next (next here (tick (start (txt "a" ∷ txt "b" ∷ [])) 5 refl refl))
      (enter waiting (job (txt "a")) refl (omega arith))

Steps-IsBounded_example : IsBounded 2 running
Steps-IsBounded_example = Steps-IsBounded due executors 2 (txt "a" ∷ txt "b" ∷ []) first_step

-- The semaphore is full and a second job waits.
abbrev full : State (List Text)
full = record running { waiting = some (job (txt "b")) }

full-IsBounded : IsBounded 1 full
full-IsBounded = record { counted = refl; within = omega arith }

waiting_starts_example :
    Enters due executors 1 full (job (txt "b"))
    ⊎ ((full.held ≡ 1)
        × (k : Job) × (rest : List Job) × (full.running ≡ k ∷ rest)
        × (let t = finish due executors 5 k (record full { held = 0; running = rest }) in
            Step due executors 1 full t × Enters due executors 1 t (job (txt "b"))))
waiting_starts_example =
    waiting_starts due executors 1 full (job (txt "b")) 5 (omega arith) full-IsBounded refl

abbrev cancelled : State (List Text)
cancelled = stop due executors (text_error (txt "context canceled")) running

abbrev failed_late : State (List Text)
failed_late = finish due executors 5 (job (txt "a")) (record cancelled { held = 0; running = [] })

cancel_then_fail_example :
    Step due executors 2 running cancelled
    × (cancelled.panicked ≡ false)
    × Step due executors 2 cancelled failed_late
    × (failed_late.panicked ≡ true)
unfolding stop finish
cancel_then_fail_example =
    cancel_then_fail due executors 2 running (text_error (txt "context canceled"))
      (text_error (txt "refused")) 5 [] (job (txt "a")) [] refl refl refl refl refl

abbrev noon : Text
noon = txt "2024-05-01T12:00:00Z"

noon-IsTrimmed : IsTrimmed (txt "mail") noon
unfolding contains
noon-IsTrimmed = record {
  first = 50;
  others = txt "024-05-01T12:00:00Z";
  begins = refl;
  first_kept = refl;
  before = txt "2024-05-01T12:00:00";
  last = 90;
  ends = refl;
  last_kept = refl;
}

abbrev format : Time → Text
format t = noon

abbrev parse : Text → GoError ⊎ Time
parse text = if text == noon then inr 5 else inl (text_error (txt "cannot parse"))

abbrev mail_file : Text
mail_file = file_name_of (λ call. none) format parse (txt "mail") 5

abbrev mail_stored : Disk
mail_stored =
    (store (λ call. none) format parse in_scheduled 0 (txt "mail") 5 (txt "body") empty_disk).1

abbrev mail_moved : Disk
mail_moved = record empty_disk { executing = (mail_file, txt "body") ∷ [] }

retrieve-store_file_example :
    (retrieve (λ call. none) format parse 7 mail_stored ≡ (
      inr (some (record { task_id = mail_file; task_name = txt "mail"; content = txt "body" })),
      mail_moved,
    ))
    × (retrieve (λ call. none) format parse 4 mail_stored ≡ (inr none, mail_stored))
    × (done (λ call. none) format parse 9 mail_file mail_moved ≡ (inr tt, empty_disk))
    × (failure (λ call. none) format parse 9 mail_file mail_moved
        ≡ (inr tt, record empty_disk { failed = (mail_file, txt "body") ∷ [] }))
unfolding text_beq
retrieve-store_file_example =
    retrieve-store_file format parse in_scheduled (λ s. λ free. refl) 5 7 4 9 (txt "mail")
      (txt "body") (refl, (refl, (refl, (refl, tt)))) (refl, (refl, (refl, (refl, tt))))
      (
        refl,
        (
          refl,
          (
            refl,
            (
              refl,
              (
                refl,
                (
                  refl,
                  (
                    refl,
                    (
                      refl,
                      (
                        refl,
                        (
                          refl,
                          (
                            refl,
                            (
                              refl,
                              (refl, (refl, (refl, (refl, (refl, (refl, (refl, (refl, tt)))))))),
                            ),
                          ),
                        ),
                      ),
                    ),
                  ),
                ),
              ),
            ),
          ),
        ),
      )
      noon-IsTrimmed refl (omega arith) (omega arith)
