-- ===== src/Queue/Order.antt =====
-- The order in which payloads leave the queue.
use clean_architect.Queue.{Value, payload, Payload, enqueue, enqueue_all, run}
use clean_architect.Common.{
  ℕ, zero, suc, ◌≤◌, ◌≡◌, refl, sym, ◌∙◌, List, [], ◌∷◌, ◌++◌, map, append-nil, append_assoc, arith,
  nat_eq, length, text_eq,
}

-- The payload that a receiver gets for a payload that was put in.
abbrev pub wrap : Payload → Payload
wrap p = record { content = payload p.content }

abbrev stored : Payload → Value
stored p = payload p.content

enqueue_all-append :
    (ps : List Payload) (queue : List Value) → enqueue_all ps queue ≡ queue ++ map stored ps
unfolding enqueue_all
enqueue_all-append [] queue = sym (append-nil queue)
enqueue_all-append (p ∷ ps) queue =
    enqueue_all-append ps (enqueue p queue) ∙ append_assoc queue (stored p ∷ []) (map stored ps)

run-stored : (ps : List Payload) (n : ℕ) → length ps ≤ n → run n (map stored ps) ≡ (map wrap ps, [])
unfolding run
run-stored [] zero h = refl
run-stored [] (suc n) h = rw (run-stored [] n (omega arith)) refl
run-stored (p ∷ ps) zero h = absurd (omega arith)
run-stored (p ∷ ps) (suc n) h = rw (run-stored ps n (omega arith)) refl

-- Payloads that are put into an empty queue are sent in that order, each once, within as many ticks
-- as there are payloads, and any further ticks send nothing; each arrives inside another Payload.
pub run-enqueue_all :
    (ps : List Payload) (n : ℕ) → length ps ≤ n → run n (enqueue_all ps []) ≡ (map wrap ps, [])
run-enqueue_all ps n h = rw (enqueue_all-append ps []) (run-stored ps n h)
