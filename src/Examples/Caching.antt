-- ===== src/Examples/Caching.antt =====
-- The cache and the reads and writes through it.
use clean_architect.Common.Int.{pos}
use clean_architect.Cache.{Action}
use clean_architect.Cache.InMemory.Laws.{answer, is_over, get-set}
use clean_architect.Domain.{User}
use clean_architect.Errs.{sentinel, cache_missed}
use clean_architect.Service.Users.{minute}
use clean_architect.Synq.{World}
use clean_architect.Synq.Coherence.{stale_fill}
use clean_architect.Examples.{alice, gob, world}
use clean_architect.Common.{
  ◌≡◌, refl, inr, none, some, [], ◌∷◌, if◌then◌else◌, ◌==◌, nat_eq, Text, txt, text_eq,
}
use clean_architect.Cache.InMemory
use clean_architect.Repository.Memory
use clean_architect.Synq

abbrev key : Text
key = txt "1"

abbrev read_alice : Action Memory.Store User
read_alice = Memory.get_by_id 1

abbrev write_alice : Action Memory.Store (Unit {0})
write_alice = Memory.update alice

abbrev delete_alice : Action Memory.Store (Unit {0})
delete_alice = Memory.delete 1

-- A user that is not there.
abbrev delete_bob : Action Memory.Store (Unit {0})
delete_bob = Memory.delete 2

get-set_example : (InMemory.get 8 key (InMemory.set 5 key (txt "v") (pos 3) []).1).0 ≡ (
    if key == key
    then answer (if is_over 5 8 (pos 3) then none else some (txt "v"))
    else (InMemory.get 8 key []).0)
get-set_example = get-set 5 8 key key (txt "v") (pos 3) []

abbrev store : InMemory.Store
store = (key, record { content = txt "v"; expires_at = 4 }) ∷ []

stale_fill_example :
    (Synq.get InMemory.driver gob 8 key read_alice minute (
      Synq.drain InMemory.driver gob 5
        (Synq.delete InMemory.driver gob 5 key delete_alice
          (Synq.get_async InMemory.driver gob 5 key read_alice minute world).1).1)).0
    ≡ inr alice
unfolding Memory.delete Memory.get_by_id clean_architect.Cache.get InMemory.get
stale_fill_example =
    stale_fill gob 5 8 key alice (txt "alice") delete_alice read_alice read_alice minute minute
      world (sentinel cache_missed) refl (refl, refl) refl refl refl refl
