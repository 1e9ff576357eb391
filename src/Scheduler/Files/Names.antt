-- ===== src/Scheduler/Files/Names.antt =====
-- The name of a task's file, taken apart again.
use clean_architect.Scheduler.Files.{task_name_of, schedule_time_of}
use clean_architect.Common.{
  ℕ, ◌≡◌, refl, Bool, false, ◌&&◌, [], ◌∷◌, ◌++◌, append_assoc, arith, leb, nat_eq, contains, Text,
  txt, text_eq, trim_left, trim_right, AllIn, trim_right-append, trim_left-append, IsFree,
  split_parts-append, AllIn-self,
}

-- The bytes that TrimLeft removes for a task.
abbrev pub cutset : Text → Text
cutset task_name = task_name ++ txt "_"

-- The name of the file of a task, for the text of its time.
abbrev pub file_of : Text → Text → Text
file_of task_name time = task_name ++ (txt "_" ++ (time ++ txt ".task"))

-- A text of a time that both trims stop at: its first byte is not in the cutset of the task, its
-- last byte is not in ".task".
pub record IsTrimmed (task_name time : Text) : Type 0 where
  pub first : ℕ
  pub others : Text
  pub begins : time ≡ first ∷ others
  pub first_kept : contains (cutset task_name) first ≡ false
  pub before : Text
  pub last : ℕ
  pub ends : time ≡ before ++ (last ∷ [])
  pub last_kept : contains (txt ".task") last ≡ false

pub task_name_of-file_of :
    (task_name time : Text)
    → IsFree 95 task_name
    → task_name_of (file_of task_name time) ≡ task_name
unfolding task_name_of
task_name_of-file_of task_name time h = split_parts-append 95 task_name (time ++ txt ".task") h

suffix_cut : AllIn (txt ".task") (txt ".task")
suffix_cut = AllIn-self (txt ".task")

trimmed_left :
    (task_name time : Text)
    → IsTrimmed task_name time
    → trim_left (cutset task_name) (file_of task_name time) ≡ time ++ txt ".task"
trimmed_left task_name time h =
    rw (h.begins, ← append_assoc task_name (txt "_") ((h.first ∷ h.others) ++ txt ".task"))
      (trim_left-append (cutset task_name) (cutset task_name) h.first (h.others ++ txt ".task")
        (AllIn-self (cutset task_name)) h.first_kept)

trimmed_right :
    (task_name time : Text)
    → IsTrimmed task_name time
    → trim_right (txt ".task") (time ++ txt ".task") ≡ time
trimmed_right task_name time h =
    rw (h.ends, append_assoc h.before (h.last ∷ []) (txt ".task"))
      (trim_right-append (txt ".task") h.before h.last (txt ".task") h.last_kept suffix_cut)

schedule_time_lem :
    (name : Text)
    → schedule_time_of name ≡ trim_right (txt ".task") (trim_left (cutset (task_name_of name)) name)
unfolding schedule_time_of
schedule_time_lem name = refl

-- For a task whose name has no underscore and a time that both trims stop at, the name of the file
-- that Store writes is taken apart into the task's name and the text of the time.
pub names-file_of :
    (task_name time : Text)
    → IsFree 95 task_name
    → IsTrimmed task_name time
    → (task_name_of (file_of task_name time) ≡ task_name)
      × (schedule_time_of (file_of task_name time) ≡ time)
names-file_of task_name time h t = (
  task_name_of-file_of task_name time h,
  rw
      (
        schedule_time_lem (file_of task_name time),
        task_name_of-file_of task_name time h,
        trimmed_left task_name time t,
      )
      (trimmed_right task_name time t),
)

-- The first byte is a digit, as in every text of the layout RFC3339Nano.
abbrev pub starts_with_digit : Text → Bool
starts_with_digit [] = false
starts_with_digit (c ∷ s) = leb 48 c && leb c 57

trim_right-no_digit :
    (cut : Text) (c : ℕ) (s : Text)
    → (leb 48 c && leb c 57) ≡ false
    → starts_with_digit (trim_right cut (c ∷ s)) ≡ false
unfolding trim_right
trim_right-no_digit cut c s h = ground arith

assoc_underscore :
    (a : Text) (c : ℕ) (b time : Text)
    → file_of (a ++ (95 ∷ c ∷ b)) time ≡ a ++ (95 ∷ c ∷ (b ++ (txt "_" ++ (time ++ txt ".task"))))
assoc_underscore a c b time = append_assoc a (95 ∷ c ∷ b) (txt "_" ++ (time ++ txt ".task"))

task_name_underscore :
    (a : Text) (c : ℕ) (b time : Text)
    → IsFree 95 a
    → task_name_of (file_of (a ++ (95 ∷ c ∷ b)) time) ≡ a
unfolding task_name_of
task_name_underscore a c b time h =
    rw (assoc_underscore a c b time)
      (split_parts-append 95 a (c ∷ (b ++ (txt "_" ++ (time ++ txt ".task")))) h)

trimmed_underscore :
    (a : Text) (c : ℕ) (b time : Text)
    → contains (cutset a) c ≡ false
    → trim_left (cutset a) (file_of (a ++ (95 ∷ c ∷ b)) time)
      ≡ c ∷ (b ++ (txt "_" ++ (time ++ txt ".task")))
trimmed_underscore a c b time k =
    rw
      (
        assoc_underscore a c b time,
        ← append_assoc a (txt "_") (c ∷ (b ++ (txt "_" ++ (time ++ txt ".task")))),
      )
      (trim_left-append (cutset a) (cutset a) c (b ++ (txt "_" ++ (time ++ txt ".task")))
        (AllIn-self (cutset a)) k)

-- For a task whose name has an underscore, followed by a byte that is no digit and does not stand
-- before it, what is taken for the time does not start with a digit.
pub schedule_time_of-underscore :
    (a : Text) (c : ℕ) (b time : Text)
    → IsFree 95 a
    → (leb 48 c && leb c 57) ≡ false
    → contains (cutset a) c ≡ false
    → starts_with_digit (schedule_time_of (file_of (a ++ (95 ∷ c ∷ b)) time)) ≡ false
schedule_time_of-underscore a c b time h d k =
    rw
      (
        schedule_time_lem (file_of (a ++ (95 ∷ c ∷ b)) time),
        task_name_underscore a c b time h,
        trimmed_underscore a c b time k,
      )
      (trim_right-no_digit (txt ".task") c (b ++ (txt "_" ++ (time ++ txt ".task"))) d)
