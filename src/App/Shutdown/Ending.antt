-- ===== src/App/Shutdown/Ending.antt =====
-- The end of the shutdown is reached, in a bounded number of steps.
use clean_architect.Common.{
  ◌⊎◌, ℕ, ◌+◌, ◌≡◌, Bool, true, false, Option, List, [], ◌∷◌, nat_eq, text_eq,
}
use clean_architect.App.Shutdown.{
  Phase, calling, sent, finished, sending, Serving, serving, stopped, reporting, Shutdown, Moves,
}
use clean_architect.Errs.{GoError}

abbrev phase_left : Phase → ℕ
phase_left calling = 3
phase_left (sending e) = 2
phase_left sent = 1
phase_left finished = 0

abbrev phases_left : List Phase → ℕ
phases_left [] = 0
phases_left (p ∷ ps) = phase_left p + phases_left ps

abbrev serving_left : Serving → ℕ
serving_left serving = 2
serving_left (reporting e) = 1
serving_left stopped = 0

abbrev flag_left : Bool → ℕ
flag_left true = 0
flag_left false = 1

-- How many steps are left at most.
abbrev left : Shutdown → ℕ
left s =
    phases_left s.workers
    + serving_left s.web
    + serving_left s.grpc
    + flag_left s.closed
    + flag_left s.ended

-- One of the functions has not returned.
abbrev pub Calls : List Phase → Type 0
Calls [] = ⊥
Calls (p ∷ ps) = (p ≡ calling) ⊎ Calls ps

-- Some goroutine whose function has returned can move.
pub data CanMove (ps : List Phase) : Type 0 where
  can_send : (e : Option GoError) (qs : List Phase) → Moves (sending e) sent ps qs → CanMove ps
  can_finish : (qs : List Phase) → Moves sent finished ps qs → CanMove ps
