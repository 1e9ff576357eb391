-- ===== src/Examples/Setup.antt =====
-- The settings and the server.
use clean_architect.Common.Int.{negsuc, pos, is_pos}
use clean_architect.Config.Settings.{
  CacheSettings, EventSettings, QueueSettings, DbSettings, SchedulerSettings, concurrency,
  scheduler_run_every,
}
use clean_architect.Config.Timing.{scheduler-is_pos}
use clean_architect.Server.{ServerOption, with_write_timeout, with_timeouts}
use clean_architect.Common.{◌≡◌, true, List, [], ◌∷◌, ◌++◌, nat_eq, Text, txt, text_eq}

abbrev host : Text
host = txt "127.0.0.1"

abbrev pub cache : CacheSettings
cache = record {
  driver_name = txt " Redis ";
  ip = host;
  port = 6379;
  prefix_name = [];
  user_name = [];
  password = [];
  db_number = 0;
}

abbrev pub event : EventSettings
event = record {
  driver_name = txt "kafka";
  ip = host;
  port = 9092;
  user_name = [];
  password = [];
  db_number = 0;
}

abbrev queue : QueueSettings
queue = record {
  driver_name = [];
  ip = host;
  port = 6379;
  user_name = [];
  password = [];
  db_number = 0;
  run_every_milli_seconds = pos 100;
}

abbrev pub db : DbSettings
db = record {
  driver_name = txt "sqlite";
  ip = host;
  port = 3306;
  user_name = txt "amir";
  password = txt "mirzaei";
  name = txt "clean-architect";
  path = txt ".";
}

abbrev pub scheduler : SchedulerSettings
scheduler = record {
  driver_name = txt "MySQL";
  ip = host;
  port = 3306;
  user_name = txt "amir";
  password = txt "mirzaei";
  db_number = 0;
  name = txt "clean-architect";
  path = txt ".";
  concurrency_level = negsuc 4;
  run_every_seconds = pos 3;
}

-- A negative number of seconds, which the guard replaces.
abbrev negative_period : SchedulerSettings
negative_period = record scheduler { run_every_seconds = negsuc 4 }

abbrev pub join_path : Text → Text → Text
join_path a b = a ++ (txt "/" ++ b)

scheduler-is_pos_example :
    (is_pos (concurrency negative_period) ≡ true)
    × (is_pos (scheduler_run_every negative_period) ≡ true)
scheduler-is_pos_example = scheduler-is_pos negative_period tt

abbrev options : List ServerOption
options = with_write_timeout (pos 1) ∷ with_timeouts (pos 1) (pos 2) (pos 3) (pos 4) (pos 5) ∷ []
