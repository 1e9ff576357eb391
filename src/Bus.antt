-- ===== src/Bus.antt =====
-- pkg/bus: values that are encoded into bytes and published on a subject, over a driver.
pub mod Delivery
use clean_architect.Errs.{GoError, text_error}
use clean_architect.Common.{
  ◌⊎◌, inl, inr, Option, none, some, List, [], ◌∷◌, ◌++◌, nat_eq, Text, txt, text_eq, Dict, lookup,
  insert,
}

-- Publish of the interface `Driver`, over a state `S`.
abbrev pub Publisher : Type 0 → Type 0
Publisher S = Text → Text → S → Option GoError × S

-- encoding/gob for one type of values; `decode_into` leaves its error and the variable that it
-- decodes into, of which it changes the fields that the bytes hold.
pub record EventCodec (T : Type 0) : Type 0 where
  pub encode_event : T → GoError ⊎ Text
  pub decode_into : T → Text → Option GoError × T

module _ {T : Type 0} (gob : EventCodec T) where
  -- EventBus.Publish
  unfoldable pub publish : {S : Type 0} → Publisher S → Text → T → S → Option GoError × S
  publish drv subject content s = elim (gob.encode_event content) [
    | inl err ↦ (some err, s)
    | inr bytes ↦ drv subject bytes s
  ]

  -- The second goroutine of EventBus.Subscribe: for the bytes that arrive, what it sends on the two
  -- channels in that order. Its variable is declared before the loop.
  unfoldable pub forward : T → List Text → List (GoError ⊎ T)
  forward v [] = []
  forward v (b ∷ bs) =
      let (err, v') = gob.decode_into v b in
      let rest = forward v' bs in elim err [ some e ↦ inl e ∷ rest | none ↦ inr v' ∷ rest ]

-- in-memory.go: for each queue the bytes of the goroutines that wait to send them.
abbrev pub Queues : Type 0
Queues = Dict Text (List Text)

-- NewInMemoryDriver
unfoldable pub new_in_memory : List Text → Queues
unfolding insert
new_in_memory [] = []
new_in_memory (queue ∷ queues) = insert queue [] (new_in_memory queues)

-- Publish
unfoldable pub in_memory_publish : Publisher Queues
unfolding lookup insert
in_memory_publish subject content m = elim (lookup subject m) [
  | none ↦ (some (text_error (txt "queue doesn't exists")), m)
  | some waiting ↦ (none, insert subject (waiting ++ (content ∷ [])) m)
]

-- Subscribe: the channel of the queue, by what waits at it.
unfoldable pub in_memory_subscribe : Text → Queues → GoError ⊎ List Text
unfolding lookup
in_memory_subscribe subject m = elim (lookup subject m) [
  | none ↦ inl (text_error (txt "queue doesn't exists"))
  | some waiting ↦ inr waiting
]
