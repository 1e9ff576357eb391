-- ===== src/Scheduler/Redis/Names.antt =====
-- What becomes of a task's name in its id.
use clean_architect.Scheduler.Redis.{first_part, id_of, redis_task_name, store, retrieve}
use clean_architect.Domain.{Time}
use clean_architect.Errs.{GoError}
use clean_architect.Common.{
  ℕ, ◌≤◌, ◌≡◌, refl, inr, true, false, none, some, [], ◌∷◌, ◌++◌, append_assoc, arith, nat_eq,
  contains, All-append, Text, txt, text_eq, split, trim_left, decimal, AllIn, trim_left-append,
  IsFree, split_parts-append, AllIn-self, beq_refl,
}

abbrev pub prefix : Text
prefix = txt "task_"

AllIn-append : (cut s t : Text) → AllIn cut s → AllIn cut t → AllIn cut (s ++ t)
AllIn-append cut s t h k = All-append (λ c. contains cut c ≡ true) s t h k

trim_left-id_of :
    (p : Text) (c : ℕ) (s : Text) (at number : ℕ)
    → AllIn prefix p
    → contains prefix c ≡ false
    → trim_left prefix (id_of (p ++ (c ∷ s)) at number)
      ≡ (c ∷ s) ++ (95 ∷ (decimal at ++ (txt "_" ++ decimal number)))
unfolding id_of
trim_left-id_of p c s at number h k =
    let rest : Text = 95 ∷ (decimal at ++ (txt "_" ++ decimal number)) in
    rw (append_assoc p (c ∷ s) rest, ← append_assoc prefix p (c ∷ (s ++ rest)))
      (trim_left-append prefix (prefix ++ p) c (s ++ rest)
        (AllIn-append prefix prefix p (AllIn-self prefix) h) k)

redis_task_name_lem : (id : Text) → redis_task_name id ≡ first_part (split 95 (trim_left prefix id))
unfolding redis_task_name
redis_task_name_lem id = refl

first-split : (s t : Text) → IsFree 95 s → first_part (split 95 (s ++ (95 ∷ t))) ≡ s
unfolding split
first-split s t h = split_parts-append 95 s t h

-- The name is recovered without its longest beginning of the bytes `t`, `a`, `s`, `k` and `_`: for a
-- name that is such a beginning `p`, then a byte `c` that is none of them, then the rest `s`, with no
-- underscore in `c` and `s`, it is `c` and `s`.
pub redis_task_name-id_of :
    (p : Text) (c : ℕ) (s : Text) (at number : ℕ)
    → AllIn prefix p
    → contains prefix c ≡ false
    → IsFree 95 (c ∷ s)
    → redis_task_name (id_of (p ++ (c ∷ s)) at number) ≡ c ∷ s
redis_task_name-id_of p c s at number h k free =
    let rest : Text = decimal at ++ (txt "_" ++ decimal number) in
    rw (redis_task_name_lem (id_of (p ++ (c ∷ s)) at number), trim_left-id_of p c s at number h k)
      (first-split (c ∷ s) rest free)

-- What Retrieve then returns for a task that is alone in the storage and due, where no command fails:
-- its id, that name and its payload; and the task is out of the sorted set, with its payload kept.
pub retrieve-store :
    (nil : GoError) (unix : Time → ℕ) (p : Text) (c : ℕ) (s : Text) (at now : Time) (random : ℕ)
    (payload : Text)
    → AllIn prefix p
    → contains prefix c ≡ false
    → IsFree 95 (c ∷ s)
    → unix at ≤ unix now
    → retrieve
        (λ command. none)
        nil
        unix
        now
        (store
          (λ command. none)
          nil
          unix
          random
          (p ++ (c ∷ s))
          at
          payload
          (record { scheduler = []; scheduler_failed = []; keys = [] })).1
      ≡ (
        inr (
            some (record {
              task_id = id_of (p ++ (c ∷ s)) (unix at) random;
              task_name = c ∷ s;
              content = payload;
            })),
        record {
          scheduler = [];
          scheduler_failed = [];
          keys = (id_of (p ++ (c ∷ s)) (unix at) random, payload) ∷ [];
        },
      )
unfolding retrieve store
retrieve-store nil unix p c s at now random payload h k free due =
    let id = id_of (p ++ (c ∷ s)) (unix at) random in
    ground (arith, beq_refl id, redis_task_name-id_of p c s (unix at) random h k free)
