-- ===== src/Scheduler/Files.antt =====
-- pkg/scheduler/file.go: a task is a file, whose name holds the task's name and its time.
pub mod Names
pub mod Retrieving
use clean_architect.Cache.{Action}
use clean_architect.Domain.{Time}
use clean_architect.Errs.{GoError, text_error, joined}
use clean_architect.Scheduler.{Retrieved, Storage}
use clean_architect.Common.{
  ◌⊎◌, inl, inr, Bool, true, false, ◌&&◌, ◌||◌, Option, none, some, List, [], ◌∷◌, ◌++◌, ltb,
  nat_beq, if◌then◌else◌, nat_eq, Text, txt, text_eq, split, trim_left, trim_right, Dict, lookup,
  insert, remove,
}

-- The calls of package os that can fail.
pub data Syscall : Type 0 where
  mkdir create write glob remove_file rename open_file read : Syscall

-- The files that stand directly in the three directories, by name, and all others by path, as those
-- of a subdirectory, which Glob does not list. A subdirectory whose own name ends in ".task" is left
-- out.
pub record Disk : Type 0 where
  pub scheduled : Dict Text Text
  pub executing : Dict Text Text
  pub failed : Dict Text Text
  pub others : Dict Text Text

-- What filepath.Join(taskDirectory, …) names: a file of one of the three directories, or another path.
pub data Place : Type 0 where
  in_scheduled in_executing in_failed elsewhere : Text → Place

-- The order of slices.Sort on names.
unfoldable pub text_ltb : Text → Text → Bool
text_ltb [] [] = false
text_ltb [] (d ∷ t) = true
text_ltb (c ∷ s) [] = false
text_ltb (c ∷ s) (d ∷ t) = ltb c d || (nat_beq c d && text_ltb s t)

-- The first name of the sorted directory listing; the names all end in ".task", which Store writes.
unfoldable pub least_name : Dict Text Text → Option Text
unfolding text_ltb
least_name [] = none
least_name ((name, content) ∷ files) = elim (least_name files) [
  | none ↦ some name
  | some other ↦ some (if text_ltb other name then other else name)
]

abbrev pub first_part : List Text → Text
first_part [] = []
first_part (p ∷ ps) = p

-- strings.Split(fileName, "_")[0]
unfoldable pub task_name_of : Text → Text
unfolding split
task_name_of file_name = first_part (split 95 file_name)

-- TrimLeft and TrimRight take sets of bytes, not a prefix and a suffix.
unfoldable pub schedule_time_of : Text → Text
unfolding task_name_of trim_left trim_right
schedule_time_of file_name =
    trim_right (txt ".task") (trim_left (task_name_of file_name ++ txt "_") file_name)

-- The operating system may refuse a call: `fault` gives its error. Time.Format and time.Parse with
-- the layout RFC3339Nano are parameters.
module _ (fault : Syscall → Option GoError) (format_time : Time → Text)
    (parse_time : Text → GoError ⊎ Time) where
  abbrev pub file_name_of : Text → Time → Text
  file_name_of task_name schedule_at =
      task_name ++ (txt "_" ++ (format_time schedule_at ++ txt ".task"))

  -- A call that can be refused, and what follows it.
  abbrev attempt : {A : Type 0} → Syscall → Disk → (GoError ⊎ A) × Disk → (GoError ⊎ A) × Disk
  attempt call d rest = elim (fault call) [ some err ↦ (inl err, d) | none ↦ rest ]

  abbrev with_file : Place → Text → Disk → Disk
  with_file (in_scheduled name) content d = record d { scheduled = insert name content d.scheduled }
  with_file (in_executing name) content d = record d { executing = insert name content d.executing }
  with_file (in_failed name) content d = record d { failed = insert name content d.failed }
  with_file (elsewhere path) content d = record d { others = insert path content d.others }

  -- Store: `place` is filepath.Join(taskDirectory, …), which cleans the path, so that a name with a
  -- slash may be a file of another directory. os.Create truncates the file before the payload is
  -- written.
  unfoldable pub store : (Text → Place) → Time → Text → Time → Text → Action Disk (Unit {0})
  unfolding insert
  store place now task_name schedule_at payload d =
      let file = place (file_name_of task_name schedule_at) in
      attempt mkdir d
        (attempt create d (attempt write (with_file file [] d) (inr tt, with_file file payload d)))

  abbrev without_scheduled : Text → Disk → Disk
  without_scheduled name d = record d { scheduled = remove name d.scheduled }

  -- A file whose time does not parse: errors.Join(err, os.Remove(…)), where Join drops a nil.
  abbrev discard_file : Text → GoError → Disk → (GoError ⊎ Option Retrieved) × Disk
  discard_file name err d = elim (fault remove_file) [
    | some err' ↦ (inl (joined err err'), d)
    | none ↦ (inl err, without_scheduled name d)
  ]

  abbrev content_or : Option Text → Text
  content_or none = []
  content_or (some c) = c

  abbrev move_to_executing : Text → Disk → Disk
  move_to_executing name d = record d {
    scheduled = remove name d.scheduled;
    executing = insert name (content_or (lookup name d.scheduled)) d.executing;
  }

  -- A file whose time has come.
  abbrev take_file : Text → Disk → (GoError ⊎ Option Retrieved) × Disk
  take_file name d =
      let d' = move_to_executing name d in
      attempt mkdir d (
        attempt rename d (
          attempt open_file d' (
            attempt read d' (
              inr (
                  some (record {
                    task_id = name;
                    task_name = task_name_of name;
                    content = content_or (lookup name d.scheduled);
                  })),
              d',
            ))))

  abbrev retrieve_file : Time → Text → Disk → (GoError ⊎ Option Retrieved) × Disk
  retrieve_file now name d = elim (parse_time (schedule_time_of name)) [
    | inl err ↦ discard_file name err d
    | inr scheduled_at ↦ if ltb now scheduled_at then (inr none, d) else take_file name d
  ]

  abbrev retrieve_first : Time → Option Text → Disk → (GoError ⊎ Option Retrieved) × Disk
  retrieve_first now none d = (inr none, d)
  retrieve_first now (some name) d = retrieve_file now name d

  -- Retrieve
  unfoldable pub retrieve : Time → Action Disk (Option Retrieved)
  unfolding least_name schedule_time_of task_name_of lookup insert remove
  retrieve now d = attempt glob d (retrieve_first now (least_name d.scheduled) d)

  not_there : GoError
  not_there = text_error (txt "no such file or directory")

  -- Failure
  unfoldable pub failure : Time → Text → Action Disk (Unit {0})
  unfolding lookup insert remove not_there
  failure now file_name d = attempt mkdir d (
      attempt rename d (elim (lookup file_name d.executing) [
        | none ↦ (inl not_there, d)
        | some content ↦ (
          inr tt,
          record d {
            executing = remove file_name d.executing;
            failed = insert file_name content d.failed;
          },
        )
      ]))

  -- Done
  unfoldable pub done : Time → Text → Action Disk (Unit {0})
  unfolding lookup remove not_there
  done now file_name d = attempt remove_file d (elim (lookup file_name d.executing) [
    | none ↦ (inl not_there, d)
    | some content ↦ (inr tt, record d { executing = remove file_name d.executing })
  ])

  abbrev pub file_storage : (Text → Place) → Storage Disk
  file_storage place = record {
    store = store place;
    retrieve = retrieve;
    failure = failure;
    done = done;
  }
