-- ===== src/App/Shutdown.antt =====
-- cmd/app/main.go: the end of `run`, from the `select` on, as the steps of its goroutines.
pub mod Ending
pub mod Errors
use clean_architect.Common.{
  ◌⊎◌, ℕ, suc, ◌≡◌, Bool, true, false, Option, none, some, List, [], ◌∷◌, if◌then◌else◌, nat_eq,
  All, txt, text_eq,
}
use clean_architect.Errs.{GoError, wrapped}
use clean_architect.App.Dependencies.{join_errors}

-- A goroutine of the shutdown: inside its function, at `errCh <- f()`, before and after wg.Done.
pub data Phase : Type 0 where
  calling sent finished : Phase
  sending : Option GoError → Phase

-- A goroutine of a server: inside Run, at the send of the wrapped error, at its end.
pub data Serving : Type 0 where
  serving stopped : Serving
  reporting : GoError → Serving

-- `closed` is the channel's, `ended` the loop's over it, which a panic ends too (`crashed`); `err` is
-- the variable of `run`, which the goroutines of the servers and of the scheduler assign too.
pub record Shutdown : Type 0 where
  pub workers : List Phase
  pub web : Serving
  pub grpc : Serving
  pub closed : Bool
  pub ended : Bool
  pub err : Option GoError
  pub crashed : Bool

-- One of the goroutines moves from `p` to `q`.
pub data Moves (p q : Phase) : List Phase → List Phase → Type 0 where
  here : (ps : List Phase) → Moves p q (p ∷ ps) (q ∷ ps)
  there : (x : Phase) (ps qs : List Phase) → Moves p q ps qs → Moves p q (x ∷ ps) (x ∷ qs)

-- The state in which the four goroutines have been started.
abbrev pub begun : Option GoError → Serving → Serving → Shutdown
begun err web grpc = record {
  workers = calling ∷ calling ∷ calling ∷ calling ∷ [];
  web = web;
  grpc = grpc;
  closed = false;
  ended = false;
  err = err;
  crashed = false;
}

abbrev pub web_after : (GoError → Bool) → Option GoError → Serving
web_after server_closed none = stopped
web_after server_closed (some e) =
    if server_closed e then stopped else reporting (wrapped (txt "failed to run web server: ") e)

abbrev pub grpc_after : Option GoError → Serving
grpc_after none = stopped
grpc_after (some e) = reporting (wrapped (txt "failed to run grpc server: ") e)

-- The steps, where `server_closed` is the test for http.ErrServerClosed. The channel is unbuffered:
-- a send is received by the loop in the same step. A function of the shutdown may return, but nothing
-- says that it does: GracefulStop of the gRPC server may wait for ever. An assignment of `err` and the text that is made
-- of it are one step. A server's send on the closed channel panics.
pub data Step (server_closed : GoError → Bool) : Shutdown → Shutdown → Type 0 where
  returns :
      (s : Shutdown) (e : Option GoError) (ws : List Phase)
      → Moves calling (sending e) s.workers ws
      → Step server_closed s (record s { workers = ws })
  receives :
      (s : Shutdown) (e : Option GoError) (ws : List Phase)
      → s.ended ≡ false
      → Moves (sending e) sent s.workers ws
      → Step server_closed s (record s { workers = ws; err = join_errors s.err e })
  wg_done :
      (s : Shutdown) (ws : List Phase)
      → Moves sent finished s.workers ws
      → Step server_closed s (record s { workers = ws })
  closes :
      (s : Shutdown)
      → s.closed ≡ false
      → All (λ p. p ≡ finished) s.workers
      → Step server_closed s (record s { closed = true })
  ends :
      (s : Shutdown)
      → s.closed ≡ true
      → s.ended ≡ false
      → Step server_closed s (record s { ended = true })
  web_returns :
      (s : Shutdown) (e : Option GoError)
      → s.web ≡ serving
      → Step server_closed s (record s { web = web_after server_closed e; err = e })
  grpc_returns :
      (s : Shutdown) (e : Option GoError)
      → s.grpc ≡ serving
      → Step server_closed s (record s { grpc = grpc_after e; err = e })
  web_reports :
      (s : Shutdown) (e : GoError)
      → s.web ≡ reporting e
      → s.closed ≡ false
      → s.ended ≡ false
      → Step server_closed s (record s { web = stopped; err = join_errors s.err (some e) })
  grpc_reports :
      (s : Shutdown) (e : GoError)
      → s.grpc ≡ reporting e
      → s.closed ≡ false
      → s.ended ≡ false
      → Step server_closed s (record s { grpc = stopped; err = join_errors s.err (some e) })
  panics :
      (s : Shutdown) (e : GoError)
      → (s.web ≡ reporting e) ⊎ (s.grpc ≡ reporting e)
      → s.closed ≡ true
      → s.ended ≡ false
      → Step server_closed s (record s { ended = true; crashed = true })

-- `n` steps, between which the goroutine of the scheduler, whose context outlives `run`, assigns `k`
-- errors of its channel to the variable.
pub data Steps (server_closed : GoError → Bool) : ℕ → ℕ → Shutdown → Shutdown → Type 0 where
  nil : (s : Shutdown) → Steps server_closed 0 0 s s
  next :
      (k n : ℕ) (s t u : Shutdown)
      → Step server_closed s t
      → Steps server_closed k n t u
      → Steps server_closed k (suc n) s u
  assigns :
      (k n : ℕ) (s u : Shutdown) (e : GoError)
      → Steps server_closed k n (record s { err = some e }) u
      → Steps server_closed (suc k) n s u
