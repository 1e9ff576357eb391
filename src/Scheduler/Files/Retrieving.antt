-- ===== src/Scheduler/Files/Retrieving.antt =====
-- A task that is stored in a file and retrieved.
use clean_architect.Domain.{Time}
use clean_architect.Errs.{GoError}
use clean_architect.Scheduler.Files.{
  Disk, Place, in_scheduled, store, retrieve, failure, done, file_name_of,
}
use clean_architect.Scheduler.Files.Names.{IsTrimmed, names-file_of}
use clean_architect.Common.{
  ◌≤◌, ◌<◌, ◌≡◌, ◌⊎◌, inr, none, some, [], ◌∷◌, ◌++◌, append_assoc, ℕ, refl, txt, arith, nat_eq,
  Text, text_eq, IsFree, beq_refl,
}

-- The directories of a fresh start.
abbrev pub empty_disk : Disk
empty_disk = record { scheduled = []; executing = []; failed = []; others = [] }

-- What filepath.Join documents: the path of a directory and a name without a slash (47), which is
-- neither empty nor made of dots alone, is that file of the directory.
abbrev pub JoinsNames : (Text → Place) → Type 0
JoinsNames place =
    (s : Text) → IsFree 47 s → place (s ++ txt ".task") ≡ in_scheduled (s ++ txt ".task")

IsFree-append : (c : ℕ) (s t : Text) → IsFree c s → IsFree c t → IsFree c (s ++ t)
IsFree-append c [] t h k = k
IsFree-append c (d ∷ s) t (o, h) k = (o, IsFree-append c s t h k)

module _ (format_time : Time → Text) (parse_time : Text → GoError ⊎ Time) (place : Text → Place)
    (joins : JoinsNames place) where
  -- The name of a task's file is such a name, if the name of the task and its time have no slash.
  placed :
      (task_name : Text) (at : Time)
      → IsFree 47 task_name
      → IsFree 47 (format_time at)
      → let name = file_name_of (λ call. none) format_time parse_time task_name at in
        place name ≡ in_scheduled name
  placed task_name at named timed =
      rw (← append_assoc task_name (txt "_" ++ format_time at) (txt ".task")) (
        joins (task_name ++ (txt "_" ++ format_time at))
          (IsFree-append 47 task_name (txt "_" ++ format_time at) named (refl, timed)))

  -- Where no call of package os fails: a task that is alone on the disk, whose name has no underscore
  -- and no slash and whose text of the time has no slash, is kept by the trims and read back by the
  -- parser, is retrieved at that time or later with its file's name, its name and its payload, and
  -- its file is moved to the executing directory. Before that time Retrieve finds nothing and moves
  -- nothing. After it, Done empties the disk, and Failure moves the file to the failed directory.
  pub retrieve-store_file :
      (at now early later : Time) (task_name payload : Text)
      → IsFree 95 task_name
      → IsFree 47 task_name
      → IsFree 47 (format_time at)
      → IsTrimmed task_name (format_time at)
      → parse_time (format_time at) ≡ inr at
      → at ≤ now
      → early < at
      → let name = file_name_of (λ call. none) format_time parse_time task_name at in
        let stored =
          (store (λ call. none) format_time parse_time place 0 task_name at payload empty_disk).1 in
        let moved : Disk = record empty_disk { executing = (name, payload) ∷ [] } in
        (retrieve (λ call. none) format_time parse_time now stored ≡ (
          inr (some (record { task_id = name; task_name = task_name; content = payload })),
          moved,
        ))
        × (retrieve (λ call. none) format_time parse_time early stored ≡ (inr none, stored))
        × (done (λ call. none) format_time parse_time later name moved ≡ (inr tt, empty_disk))
        × (failure (λ call. none) format_time parse_time later name moved
            ≡ (inr tt, record empty_disk { failed = (name, payload) ∷ [] }))
  unfolding store retrieve done failure
  retrieve-store_file at now early later task_name payload free no_slash no_slash' trimmed parsed
        due soon =
      let name = file_name_of (λ call. none) format_time parse_time task_name at in
      let (named, timed) = names-file_of task_name (format_time at) free trimmed in
      let there = placed task_name at no_slash no_slash' in
      (
        ground (arith, there, named, timed, parsed, beq_refl name),
        ground (arith, there, named, timed, parsed, beq_refl name),
        ground (arith, beq_refl name),
        ground (arith, beq_refl name),
      )
