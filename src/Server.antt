-- ===== src/Server.antt =====
-- pkg/server/webserver: the construction of the HTTP server from options.
pub mod Timeouts
use clean_architect.Common.Int.{pos}
use clean_architect.Cache.{Duration}
use clean_architect.Errs.{GoError, joined}
use clean_architect.Common.{
  ℕ, Bool, true, false, Option, none, some, List, [], ◌∷◌, nat_eq, Text, txt, text_eq,
}

-- The fields of http.Server that the package sets, and its own timeout of the shutdown.
pub record Server : Type 0 where
  pub addr : Text
  pub error_log : Bool
  pub max_header_bytes : ℕ
  pub idle_timeout : Duration
  pub read_timeout : Duration
  pub write_timeout : Duration
  pub read_header_timeout : Duration
  pub shutdown_timeout : Duration

abbrev pub address : Text
address = txt "0.0.0.0:8071"

abbrev pub max_header_bytes : ℕ
max_header_bytes = 128

abbrev pub idle_timeout : Duration
idle_timeout = pos 10_000_000_000

abbrev pub read_timeout : Duration
read_timeout = pos 7_000_000_000

abbrev pub write_timeout : Duration
write_timeout = pos 15_000_000_000

abbrev pub read_header_timeout : Duration
read_header_timeout = pos 1_000_000_000

abbrev pub shutdown_timeout : Duration
shutdown_timeout = pos 15_000_000_000

-- The options of the package; of a logger only that one is set is kept.
pub data ServerOption : Type 0 where
  with_address : Text → ServerOption
  with_logger : ServerOption
  with_max_header_bytes : ℕ → ServerOption
  with_idle_timeout : Duration → ServerOption
  with_read_timeout : Duration → ServerOption
  with_write_timeout : Duration → ServerOption
  with_read_header_timeout : Duration → ServerOption
  with_shutdown_timeout : Duration → ServerOption
  with_timeouts : Duration → Duration → Duration → Duration → Duration → ServerOption

-- What each option does to the server. WithWriteTimeout and WithReadHeaderTimeout both assign to
-- ReadTimeout.
unfoldable pub apply : ServerOption → Server → Server
apply (with_address a) s = record s { addr = a }
apply with_logger s = record s { error_log = true }
apply (with_max_header_bytes n) s = record s { max_header_bytes = n }
apply (with_idle_timeout idle) s = record s { idle_timeout = idle }
apply (with_read_timeout read) s = record s { read_timeout = read }
apply (with_write_timeout write) s = record s { read_timeout = write }
apply (with_read_header_timeout read) s = record s { read_timeout = read }
apply (with_shutdown_timeout shutdown) s = record s { shutdown_timeout = shutdown }
apply (with_timeouts idle read write read_header shutdown) s =
    let s1 = record s { idle_timeout = idle } in
    let s2 = record s1 { read_timeout = read } in
    let s3 = record s2 { read_timeout = write } in
    let s4 = record s3 { read_timeout = read_header } in record s4 { shutdown_timeout = shutdown }

unfoldable pub apply_all : List ServerOption → Server → Server
unfolding apply
apply_all [] s = s
apply_all (o ∷ options) s = apply_all options (apply o s)

-- New; the handler plays no part in the options.
unfoldable pub new : List ServerOption → Server
unfolding apply_all
new options = apply_all options (record {
  addr = address;
  error_log = false;
  max_header_bytes = max_header_bytes;
  idle_timeout = idle_timeout;
  read_timeout = read_timeout;
  write_timeout = write_timeout;
  read_header_timeout = read_header_timeout;
  shutdown_timeout = shutdown_timeout;
})

-- GracefulShutdown, given what Shutdown and Close of http.Server answer.
unfoldable pub graceful_shutdown : Option GoError → Option GoError → Option GoError
graceful_shutdown none close = none
graceful_shutdown (some err) none = some err
graceful_shutdown (some err) (some err2) = some (joined err err2)
