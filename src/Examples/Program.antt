-- ===== src/Examples/Program.antt =====
-- The program's start, its log and its end.
use clean_architect.Common.Int.{pos}
use clean_architect.App.Dependencies.{Libraries, migrated, State, untouched}
use clean_architect.App.Dependencies.Slots.{Leaves}
use clean_architect.App.Drivers.{DriverSettings, start}
use clean_architect.App.Drivers.Shared.{Keeps, start-Leaves}
use clean_architect.App.Drivers.Sqlite.{start_ignores_db}
use clean_architect.App.Shutdown.{
  Shutdown, Phase, stopped, serving, calling, sending, sent, finished, here, begun, nil, next,
  receives, wg_done, closes, ends,
}
use clean_architect.App.Shutdown.Errors.{Holds, errors_reach_result}
use clean_architect.Config.Settings.{DbSettings}
use clean_architect.Errs.{GoError, text_error}
use clean_architect.Logger.{Clock, LoggerSettings, Outside, log_writer}
use clean_architect.Logger.Fanout.{log_writer_ignores_remote}
use clean_architect.Examples.Setup.{join_path, cache, event, db, scheduler}
use clean_architect.Common.{
  ℕ, suc, ◌≡◌, refl, inl, inr, Bool, true, false, none, some, List, [], ◌∷◌, nat_eq, length, Text,
  txt, text_eq,
}

-- Clients are their addresses, and the world outside counts the calls.
abbrev libraries : Libraries Text Text Text Text Text Text ℕ
libraries = record {
  redis_client_of = λ url. inr url;
  redis_ping = λ c. λ w. (none, suc w);
  memcache_client_of = λ url. url;
  memcache_ping = λ c. λ w. (some (text_error (txt "refused")), suc w);
  nats_connect = λ url. λ w. (inr url, suc w);
  amqp_dial = λ url. λ w. (inr url, suc w);
  amqp_channel = λ c. λ w. (inr c, suc w);
  sql_connect = λ name. λ url. λ w. (inr url, suc w);
  sql_ping = λ d. λ w. (none, suc w);
  with_instance = λ name. λ d. λ w. (none, suc w);
  new_migrator = λ name. λ d. λ w. (none, suc w);
  queue_declare = λ c. λ queue. λ w. (none, suc w);
  migrate_up = λ name. λ d. λ w. (migrated, suc w);
  nats_close = λ c. λ w. suc w;
  redis_close = λ c. λ w. (none, suc w);
  memcache_close = λ c. λ w. (none, suc w);
  channel_close = λ c. λ w. (none, suc w);
  connection_close = λ c. λ w. (none, suc w);
}

abbrev fresh_state : State libraries
fresh_state = (untouched, 0)

abbrev settings : DriverSettings
settings = record {
  scheduler = record scheduler { driver_name = txt "sqlite" };
  event = event;
  cache = cache;
  database = db;
}

start-Leaves_example :
    Leaves libraries untouched Keeps (start libraries join_path settings (untouched, 0))
start-Leaves_example = start-Leaves libraries join_path settings untouched 0

abbrev other_db : DbSettings
other_db = record db { driver_name = txt "postgres" }

start_ignores_db_example :
    start libraries join_path settings fresh_state
    ≡ start libraries join_path (record settings { database = other_db }) fresh_state
unfolding clean_architect.Config.driver
start_ignores_db_example = start_ignores_db libraries join_path settings other_db fresh_state refl

-- Writers that keep what they are given.
abbrev recording : Outside (List Text)
recording = record {
  dir_of = λ path. path;
  missing = λ path. λ s. false;
  mkdir_all = λ path. λ s. (none, s);
  open_file = λ path. λ s. (none, s);
  write_file = λ path. λ p. λ s. ((length p, none), p ∷ s);
  post = λ url. λ p. λ s. p ∷ s;
  stdout = λ p. λ s. ((length p, none), p ∷ s);
}

abbrev log_settings : LoggerSettings
log_settings = record {
  log_level = pos 0;
  directory_path = txt "log";
  file_creation_mode_type = pos 0;
  remote_address_url = txt "http://log";
  console_printer = true;
}

abbrev noon : Clock
noon = record { year = 2024; month = 5; day = 1; hour = 12 }

log_writer_ignores_remote_example :
    log_writer recording log_settings noon (txt "line") []
    ≡ log_writer recording (record log_settings { remote_address_url = [] }) noon (txt "line") []
unfolding clean_architect.Logger.file_type
log_writer_ignores_remote_example =
    log_writer_ignores_remote recording log_settings noon (txt "line") [] [] (λ e. cc) refl
      (λ e. cc)

-- All errors of the servers are those of a closed one.
abbrev any_closed : GoError → Bool
any_closed e = true

abbrev first_ws : List Phase
first_ws = sending none ∷ calling ∷ calling ∷ calling ∷ []

abbrev one_returned : Shutdown
one_returned = record (begun none serving serving) { workers = first_ws }

-- The scheduler assigns an error after the first function has returned.
abbrev one_assigned : Shutdown
one_assigned = record one_returned { err = some (text_error (txt "no task")) }

abbrev broken : GoError
broken = text_error (txt "broken")

-- The state in which one goroutine is left, with the error of its function.
abbrev last_one : Shutdown
last_one = record (begun none stopped stopped) { workers = sending (some broken) ∷ [] }

abbrev received : Shutdown
received = record last_one { workers = sent ∷ []; err = some broken }

abbrev all_done : Shutdown
all_done = record received { workers = finished ∷ [] }

abbrev all_closed : Shutdown
all_closed = record all_done { closed = true }

abbrev at_end : Shutdown
at_end = record all_closed { ended = true }

errors_reach_result_example : Holds broken at_end.err
errors_reach_result_example =
    errors_reach_result broken any_closed last_one at_end 4 refl refl refl refl (inl refl)
      (next 0 3 last_one received at_end
        (receives last_one (some broken) (sent ∷ []) refl (here []))
        (next 0 2 received all_done at_end (wg_done received (finished ∷ []) (here [])) (
          next 0 1 all_done all_closed at_end (closes all_done refl (refl, tt))
            (next 0 0 all_closed at_end at_end (ends all_closed refl refl) (nil at_end)))))
      refl
