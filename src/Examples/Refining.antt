-- ===== src/Examples/Refining.antt =====
-- Runs through the cache against the database alone, and a server of redis in a dictionary.
use clean_architect.Common.Int.{pos}
use clean_architect.Cache.{Codec, Action}
use clean_architect.Cache.InMemory.Laws.{answer}
use clean_architect.Cache.Lawful.{IsCache, driver-IsCache}
use clean_architect.Cache.Remote.{RedisClient, redis_driver}
use clean_architect.Cache.Remote.Redis.{reply_of, AnswersRedis, redis_driver-IsCache}
use clean_architect.Errs.{GoError, sentinel, user_not_found}
use clean_architect.Synq.{World}
use clean_architect.Synq.Refinement.{
  Op, get_op, set_op, delete_op, run, run_directly, Sets, Deletes,
}
use clean_architect.Synq.Refinement.Trace.{run_refines}
use clean_architect.Synq.Refinement.Async.{run_async, run_async_refines}
use clean_architect.Common.{
  ap, ◌∙◌, ◌≤◌, ℕ, ◌≡◌, refl, sym, ◌⊎◌, inl, inr, Option, none, some, List, [], ◌∷◌, nat_eq, Text,
  txt, text_eq, Dict, lookup, insert, remove, lookup-insert, lookup-remove, beq_refl,
}
use clean_architect.Cache.InMemory

abbrev plain : Codec Text
plain = record { encode = λ v. inr v; decode = λ b. inr b }

abbrev Table : Type 0
Table = Dict Text Text

abbrev row_of : Option Text → GoError ⊎ Text
row_of none = inl (sentinel user_not_found)
row_of (some v) = inr v

abbrev value_of : Table → Text → GoError ⊎ Text
value_of table key = row_of (lookup key table)

abbrev put : Text → Text → Action Table (Unit {0})
put key v table = (inr tt, insert key v table)

abbrev drop_row : Text → Action Table (Unit {0})
drop_row key table = (inr tt, remove key table)

put-Sets :
    (key v : Text) (table : Table)
    → Sets InMemory.driver driver-IsCache plain value_of key v table (put key v table)
put-Sets key v table = (
  rw (lookup-insert key key v table, beq_refl key) refl,
  λ j differs. rw (lookup-insert key j v table, differs) refl,
)

drop_row-Deletes :
    (key : Text) (table : Table)
    → Deletes InMemory.driver driver-IsCache plain value_of key table (drop_row key table)
drop_row-Deletes key table = λ j differs. rw (lookup-remove key j table, differs) refl

abbrev start_world : World InMemory.Store Table Text
start_world = record { store = []; db = (txt "b", txt "y") ∷ []; pending = [] }

abbrev calls : List (Op Table Text)
calls =
    set_op 1 (txt "a") (txt "x") (put (txt "a") (txt "x")) (pos 10)
    ∷ get_op 1 (txt "a") (pos 10)
    ∷ get_op 1 (txt "b") (pos 10)
    ∷ delete_op 1 (txt "a") (drop_row (txt "a"))
    ∷ get_op 1 (txt "a") (pos 10)
    ∷ []

no_bytes :
    {err : GoError} {bytes : Text} {A : Type 0} → ◌≡◌ {A = GoError ⊎ Text} (inl err) (inr bytes) → A
no_bytes e = cc

nothing_seen :
    {A : Type 0} (later : ℕ) (key bytes : Text)
    → 0 ≤ later
    → driver-IsCache.seen later [] key ≡ some bytes
    → A
unfolding InMemory.get lookup
nothing_seen later key bytes le e = no_bytes (driver-IsCache.get_seen later key [] ∙ ap answer e)

run_refines_example :
    run InMemory.driver plain value_of 0 calls start_world
    ≡ run_directly value_of calls start_world.db
run_refines_example =
    run_refines InMemory.driver driver-IsCache plain value_of (λ v. λ bytes. λ e. sym e) 0 calls
      start_world
      (
        (put-Sets (txt "a") (txt "x"), (txt "x", refl)),
        (tt, (tt, (drop_row-Deletes (txt "a"), (tt, tt)))),
      )
      (λ later. λ key. λ bytes. λ le. λ e. nothing_seen later key bytes le e)

run_async_refines_example :
    run_async InMemory.driver plain value_of 0 calls start_world
    ≡ run_directly value_of calls start_world.db
run_async_refines_example =
    run_async_refines InMemory.driver driver-IsCache plain value_of (λ v. λ bytes. λ e. sym e) 0
      calls start_world
      (
        (put-Sets (txt "a") (txt "x"), (txt "x", refl)),
        (tt, (tt, (drop_row-Deletes (txt "a"), (tt, tt)))),
      )
      refl (λ later. λ key. λ bytes. λ le. λ e. nothing_seen later key bytes le e)

-- A server that forgets the durations.
abbrev dictionary_client : RedisClient Table
dictionary_client = record {
  set = λ now. λ key. λ content. λ ttl. λ s. (inr tt, insert key content s);
  get = λ now. λ key. λ s. (reply_of (lookup key s), s);
  del = λ now. λ key. λ s. (inr tt, remove key s);
}

dictionary-AnswersRedis : AnswersRedis dictionary_client
dictionary-AnswersRedis = record {
  held = λ now. λ s. λ k. lookup k s;
  get_held = λ now. λ k. λ s. refl;
  get_keeps = λ now. λ later. λ k. λ j. λ s. λ le. refl;
  set_done = λ now. λ k. λ content. λ ttl. λ s. refl;
  set_self = λ now.
      λ later. λ k. λ content. λ ttl. λ s. inr (rw (lookup-insert k k content s, beq_refl k) refl);
  set_other = λ now.
      λ later. λ k. λ j. λ content. λ ttl. λ s. λ e. rw (lookup-insert k j content s, e) refl;
  del_done = λ now. λ k. λ s. refl;
  del_self = λ now. λ later. λ k. λ s. rw (lookup-remove k k s, beq_refl k) refl;
  del_other = λ now. λ later. λ k. λ j. λ s. λ e. rw (lookup-remove k j s, e) refl;
}

redis_driver-IsCache_example : IsCache (redis_driver dictionary_client (txt "app:"))
redis_driver-IsCache_example =
    redis_driver-IsCache dictionary_client (txt "app:") dictionary-AnswersRedis
