-- ===== src/Queue.antt =====
-- pkg/queue/queue.go and in_memory.go: a list of payloads, from which a loop takes one at each tick.
pub mod Order
pub mod Redis
use clean_architect.Common.{
  ℕ, zero, suc, Option, none, some, List, [], ◌∷◌, ◌++◌, nat_eq, Text, text_eq,
}

-- A value of type `any`: one of the program's own, or a Payload that holds a value.
pub data Value : Type 0 where
  plain : Text → Value
  payload : Value → Value

-- type Payload
pub record Payload : Type 0 where
  pub content : Value

-- EnQueue: the Payload itself is pushed, as a value.
unfoldable pub enqueue : Payload → List Value → List Value
enqueue p queue = queue ++ (payload p.content ∷ [])

-- case <-tick.C of DeQueue: what is sent on the channel, and the list that is left.
unfoldable pub dequeue : List Value → Option Payload × List Value
dequeue [] = (none, [])
dequeue (v ∷ queue) = (some (record { content = v }), queue)

unfoldable pub enqueue_all : List Payload → List Value → List Value
unfolding enqueue
enqueue_all [] queue = queue
enqueue_all (p ∷ ps) queue = enqueue_all ps (enqueue p queue)

abbrev sent : Option Payload → List Payload → List Payload
sent none ps = ps
sent (some p) ps = p ∷ ps

-- What is sent in `n` ticks, and the list that is left.
unfoldable pub run : ℕ → List Value → List Payload × List Value
unfolding dequeue
run zero queue = ([], queue)
run (suc n) queue =
    let (first, rest) = dequeue queue in
    let (others, left) = run n rest in (sent first others, left)
