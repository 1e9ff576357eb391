-- ===== src/Examples/Storages.antt =====
-- The storages and the queue.
use clean_architect.Domain.{UserRow, Time}
use clean_architect.Errs.{GoError, text_error}
use clean_architect.Paginate.{Filter}
use clean_architect.Mongoutil.{filter_aggregate}
use clean_architect.Mongoutil.Filters.{element, filter_aggregate-eq-concat_map}
use clean_architect.Queue.{Payload, plain}
use clean_architect.Repository.Sql.{Database, Value, affected, Fetched, no_rows, row}
use clean_architect.Scheduler.Redis.{id_of, retrieve, store}
use clean_architect.Scheduler.Redis.Names.{retrieve-store}
use clean_architect.Common.{
  ℕ, ◌-◌, ◌≡◌, refl, inl, inr, Option, none, some, List, [], ◌∷◌, ◌++◌, arith, nat_eq, concat_map,
  contains, Text, txt, text_eq, Dict,
}

abbrev format : Time → Text
format t = txt "0001-01-01T00:00:00Z"

abbrev parse : Text → Option Time
parse t = some 5

abbrev fetch_row : Text → List Value → List UserRow → Fetched
fetch_row statement values [] = no_rows
fetch_row statement values (r ∷ rows) = row r

-- A table that is fetched from its start.
abbrev table : Database (List UserRow)
table = record {
  exec = λ statement values rows. (affected 0, rows);
  fetch = fetch_row;
  select = λ rows statement args. inr rows;
  count = λ rows statement args. inl (text_error (txt "no count"));
}

abbrev nil : GoError
nil = text_error (txt "redis: nil")

-- Of the name `sales` the first two bytes are lost.
retrieve-store_example :
    retrieve
      (λ command. none)
      nil
      (λ t. t)
      9
      (store
        (λ command. none)
        nil
        (λ t. t)
        42
        (txt "sa" ++ txt "les")
        7
        (txt "body")
        (record { scheduler = []; scheduler_failed = []; keys = [] })).1
    ≡ (
      inr (
          some (record {
            task_id = id_of (txt "sa" ++ txt "les") 7 42;
            task_name = txt "les";
            content = txt "body";
          })),
      record {
        scheduler = [];
        scheduler_failed = [];
        keys = (id_of (txt "sa" ++ txt "les") 7 42, txt "body") ∷ [];
      },
    )
unfolding contains
retrieve-store_example =
    retrieve-store nil (λ t. t) (txt "sa") 108 (txt "es") 7 9 42 (txt "body") (refl, (refl, tt))
      refl (refl, (refl, (refl, tt))) (omega arith)

abbrev payloads : List Payload
payloads = record { content = plain (txt "a") } ∷ record { content = plain (txt "b") } ∷ []

-- Texts of one byte are numbers.
abbrev digit : Text → Option ℕ
digit (c ∷ []) = some (c - 48)
digit _ = none

abbrev columns : Dict Text Text
columns = (txt "age", txt "age") ∷ []

abbrev filters : List Filter
filters =
    record { key = txt "age"; value = txt "7"; condition = txt "gte" }
    ∷ record { key = txt "age"; value = txt "7"; condition = txt "in" }
    ∷ []

filter_aggregate-eq-concat_map_example :
    filter_aggregate digit parse filters columns ≡ concat_map (element digit parse columns) filters
filter_aggregate-eq-concat_map_example = filter_aggregate-eq-concat_map digit parse filters columns

abbrev one_value : Filter
one_value = record { key = txt "age"; value = txt "7"; condition = txt "in" }
