-- ===== src/App/Shutdown/Errors.antt =====
-- The errors of the shutdown's functions reach the result of `run`.
use clean_architect.Errs.{GoError, joined}
use clean_architect.App.Dependencies.{join_errors}
use clean_architect.App.Shutdown.{
  Phase, calling, sent, finished, sending, Serving, serving, stopped, reporting, Shutdown, Moves,
  here, there, Step, returns, receives, wg_done, closes, ends, web_returns, grpc_returns,
  web_reports, grpc_reports, panics, Steps, nil, next, assigns,
}
use clean_architect.Common.{
  ℕ, ◌≡◌, refl, ◌≢◌, ◌⊎◌, inl, inr, Bool, true, false, Option, none, some, List, [], ◌∷◌, arith,
  nat_eq, All, text_eq,
}

-- `e` is one of the errors that are joined in the other.
pub data InJoin (e : GoError) : GoError → Type 0 where
  itself : InJoin e e
  on_left : (a b : GoError) → InJoin e a → InJoin e (joined a b)
  on_right : (a b : GoError) → InJoin e b → InJoin e (joined a b)

abbrev pub Holds : GoError → Option GoError → Type 0
Holds e none = ⊥
Holds e (some x) = InJoin e x

-- One of the goroutines sends `e`.
abbrev pub Sends : GoError → List Phase → Type 0
Sends e [] = ⊥
Sends e (p ∷ ps) = (p ≡ sending (some e)) ⊎ Sends e ps

Holds-join_errors :
    (e : GoError) (err other : Option GoError) → Holds e err → Holds e (join_errors err other)
Holds-join_errors e none other h = elim h [ ]
Holds-join_errors e (some x) none h = h
Holds-join_errors e (some x) (some y) h = on_left x y h

join_errors-Holds : (e : GoError) (err : Option GoError) → Holds e (join_errors err (some e))
join_errors-Holds e none = itself
join_errors-Holds e (some x) = on_right x e itself

-- Another goroutine's move, or the one that hands over `e`.
Moves-Sends :
    (e : GoError) (p q : Phase) (ps qs : List Phase)
    → Moves p q ps qs
    → Sends e ps
    → (p ≡ sending (some e)) ⊎ Sends e qs
Moves-Sends e p q ps qs (here rest) (inl o) = inl o
Moves-Sends e p q ps qs (here rest) (inr o) = inr (inr o)
Moves-Sends e p q ps qs (there x rest rest' m) (inl o) = inr (inl o)
Moves-Sends e p q ps qs (there x rest rest' m) (inr o) = elim (Moves-Sends e p q rest rest' m o) [
  | inl h ↦ inl h
  | inr h ↦ inr (inr h)
]

finished-Sends : (e : GoError) (ps : List Phase) → All (λ p. p ≡ finished) ps → ¬ Sends e ps
finished-Sends e [] all h = elim h [ ]
finished-Sends e (p ∷ ps) (o, all) (inl h) = grind arith
finished-Sends e (p ∷ ps) (o, all) (inr h) = finished-Sends e ps all h

finished-Moves :
    (p q : Phase) (ps qs : List Phase)
    → Moves p q ps qs
    → p ≢ finished
    → ¬ All (λ r. r ≡ finished) ps
finished-Moves p q ps qs (here rest) differs (o, all) = differs o
finished-Moves p q ps qs (there x rest rest' m) differs (o, all) =
    finished-Moves p q rest rest' m differs all

-- No server is left, the channel is closed only behind all goroutines, the loop ends only with it,
-- and `e` is about to be sent or has been joined.
pub record Tracks (e : GoError) (s : Shutdown) : Type 0 where
  pub web_stopped : s.web ≡ stopped
  pub grpc_stopped : s.grpc ≡ stopped
  pub closed_behind : s.closed ≡ true → All (λ p. p ≡ finished) s.workers
  pub ended_closed : s.ended ≡ true → s.closed ≡ true
  pub tracked : Holds e s.err ⊎ Sends e s.workers

serving-stopped : {v : Serving} → v ≡ serving → ¬ (v ≡ stopped)
serving-stopped p q = grind arith

reporting-stopped : {v : Serving} {x : GoError} → v ≡ reporting x → ¬ (v ≡ stopped)
reporting-stopped p q = grind arith

true-false : {b : Bool} → b ≡ true → ¬ (b ≡ false)
true-false p q = grind arith

sending_same : {x y : Option GoError} → sending x ≡ sending y → x ≡ y
sending_same o = grind arith

module _ (e : GoError) (f : GoError → Bool) where
  moved :
      (p q : Phase) (ps qs : List Phase) (err : Option GoError)
      → Moves p q ps qs
      → p ≢ sending (some e)
      → Holds e err ⊎ Sends e ps
      → Holds e err ⊎ Sends e qs
  moved p q ps qs err m differs (inl h) = inl h
  moved p q ps qs err m differs (inr h) = elim (Moves-Sends e p q ps qs m h) [
    | inl o ↦ elim (differs o) [ ]
    | inr o ↦ inr o
  ]

  handed :
      (x : Option GoError) (ps qs : List Phase) (err : Option GoError)
      → Moves (sending x) sent ps qs
      → Holds e err ⊎ Sends e ps
      → Holds e (join_errors err x) ⊎ Sends e qs
  handed x ps qs err m (inl h) = inl (Holds-join_errors e err x h)
  handed x ps qs err m (inr h) = elim (Moves-Sends e (sending x) sent ps qs m h) [
    | inl o ↦ inl (rw (sending_same o) (join_errors-Holds e err))
    | inr o ↦ inr o
  ]

  Step-Tracks : (s t : Shutdown) → Step f s t → Tracks e s → Tracks e t
  Step-Tracks s t (returns _ x ws m) k = record {
    web_stopped = k.web_stopped;
    grpc_stopped = k.grpc_stopped;
    closed_behind = λ c.
        elim (finished-Moves calling (sending x) s.workers ws m (λ d. grind arith)
          (k.closed_behind c)) [ ];
    ended_closed = k.ended_closed;
    tracked = moved calling (sending x) s.workers ws s.err m (λ d. grind arith) k.tracked;
  }
  Step-Tracks s t (receives _ x ws _ m) k = record {
    web_stopped = k.web_stopped;
    grpc_stopped = k.grpc_stopped;
    closed_behind = λ c.
        elim (finished-Moves (sending x) sent s.workers ws m (λ d. grind arith)
          (k.closed_behind c)) [ ];
    ended_closed = k.ended_closed;
    tracked = handed x s.workers ws s.err m k.tracked;
  }
  Step-Tracks s t (wg_done _ ws m) k = record {
    web_stopped = k.web_stopped;
    grpc_stopped = k.grpc_stopped;
    closed_behind = λ c.
        elim (finished-Moves sent finished s.workers ws m (λ d. grind arith)
          (k.closed_behind c)) [ ];
    ended_closed = k.ended_closed;
    tracked = moved sent finished s.workers ws s.err m (λ d. grind arith) k.tracked;
  }
  Step-Tracks s t (closes _ _ all) k = record {
    web_stopped = k.web_stopped;
    grpc_stopped = k.grpc_stopped;
    closed_behind = λ _. all;
    ended_closed = λ _. refl;
    tracked = k.tracked;
  }
  Step-Tracks s t (ends _ c _) k = record {
    web_stopped = k.web_stopped;
    grpc_stopped = k.grpc_stopped;
    closed_behind = k.closed_behind;
    ended_closed = λ _. c;
    tracked = k.tracked;
  }
  Step-Tracks s t (web_returns _ x o) k = elim (serving-stopped o k.web_stopped) [ ]
  Step-Tracks s t (grpc_returns _ x o) k = elim (serving-stopped o k.grpc_stopped) [ ]
  Step-Tracks s t (web_reports _ x o _ _) k = elim (reporting-stopped o k.web_stopped) [ ]
  Step-Tracks s t (grpc_reports _ x o _ _) k = elim (reporting-stopped o k.grpc_stopped) [ ]
  Step-Tracks s t (panics _ x (inl o) _ _) k = elim (reporting-stopped o k.web_stopped) [ ]
  Step-Tracks s t (panics _ x (inr o) _ _) k = elim (reporting-stopped o k.grpc_stopped) [ ]

  Steps-Tracks : (k n : ℕ) (s t : Shutdown) → Steps f k n s t → k ≡ 0 → Tracks e s → Tracks e t
  Steps-Tracks k n s t (nil _) none_assigned h = h
  Steps-Tracks k n s t (next _ m _ u _ step steps) none_assigned h =
      Steps-Tracks k m u t steps none_assigned (Step-Tracks s u step h)
  Steps-Tracks k n s t (assigns l _ _ _ x steps) none_assigned h = absurd (omega arith)

  ended-Holds : (t : Shutdown) → Tracks e t → t.ended ≡ true → Holds e t.err
  ended-Holds t k o = elim k.tracked [
    | inl h ↦ h
    | inr h ↦ elim (finished-Sends e t.workers (k.closed_behind (k.ended_closed o)) h) [ ]
  ]

  -- Where both servers have stopped before and the goroutine of the scheduler assigns no error
  -- meanwhile: once a function has returned the error `e`, so that its goroutine is about to send it
  -- while the channel is open, then after any steps to the end of the loop the result holds `e`,
  -- alone or joined with others.
  pub errors_reach_result :
      (s t : Shutdown) (n : ℕ)
      → s.web ≡ stopped
      → s.grpc ≡ stopped
      → s.closed ≡ false
      → s.ended ≡ false
      → Sends e s.workers
      → Steps f 0 n s t
      → t.ended ≡ true
      → Holds e t.err
  errors_reach_result s t n web grpc open_still going sends steps o =
      ended-Holds t
        (Steps-Tracks 0 n s t steps refl record {
          web_stopped = web;
          grpc_stopped = grpc;
          closed_behind = λ c. elim (true-false c open_still) [ ];
          ended_closed = λ c. elim (true-false c going) [ ];
          tracked = inr sends;
        })
        o
