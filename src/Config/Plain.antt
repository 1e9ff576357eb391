-- ===== src/Config/Plain.antt =====
-- pkg/config: the settings of the tokens, of the two servers and of the logger.
use clean_architect.Common.Int.{ℤ, pos, of_word64, wrap64, ◌*ℤ◌}
use clean_architect.Cache.{Duration}
use clean_architect.Config.Settings.{second}
use clean_architect.Logger.{LoggerSettings}
use clean_architect.Common.{ℕ, Bool, ◌++◌, nat_eq, Text, txt, text_eq, decimal}

pub record AuthSettings : Type 0 where
  pub secret_key : Text
  pub life_time_in_minutes : ℤ

-- LifeTime
unfoldable pub life_time : AuthSettings → Duration
unfolding wrap64 ◌*ℤ◌
life_time a = wrap64 (a.life_time_in_minutes *ℤ pos 60_000_000_000)

pub record GrpcSettings : Type 0 where
  pub binding_ip_address : Text
  pub port : ℕ
  pub max_receive_msg_size_in_bytes : ℤ
  pub read_buffer_size_in_bytes : ℤ
  pub has_reflection_flag : Bool
  pub shutdown_timeout_in_sec : ℕ

pub record WebSettings : Type 0 where
  pub binding_ip_address : Text
  pub port : ℕ
  pub read_timeout_in_sec : ℕ
  pub idle_timeout_in_sec : ℕ
  pub write_timeout_in_sec : ℕ
  pub read_header_timeout_in_sec : ℕ
  pub shutdown_timeout_in_sec : ℕ

-- Address
unfoldable pub address_of : Text → ℕ → Text
unfolding decimal
address_of ip port = ip ++ txt ":" ++ decimal port

unfoldable pub grpc_address : GrpcSettings → Text
unfolding address_of
grpc_address g = address_of g.binding_ip_address g.port

unfoldable pub web_address : WebSettings → Text
unfolding address_of
web_address w = address_of w.binding_ip_address w.port

-- time.Duration(n) * time.Second for a `uint`.
unfoldable pub in_seconds : ℕ → Duration
unfolding of_word64 wrap64 ◌*ℤ◌
in_seconds n = wrap64 (of_word64 n *ℤ second)

unfoldable pub grpc_shutdown_timeout : GrpcSettings → Duration
unfolding in_seconds
grpc_shutdown_timeout g = in_seconds g.shutdown_timeout_in_sec

unfoldable pub web_read_timeout : WebSettings → Duration
unfolding in_seconds
web_read_timeout w = in_seconds w.read_timeout_in_sec

unfoldable pub web_idle_timeout : WebSettings → Duration
unfolding in_seconds
web_idle_timeout w = in_seconds w.idle_timeout_in_sec

unfoldable pub web_write_timeout : WebSettings → Duration
unfolding in_seconds
web_write_timeout w = in_seconds w.write_timeout_in_sec

unfoldable pub web_read_header_timeout : WebSettings → Duration
unfolding in_seconds
web_read_header_timeout w = in_seconds w.read_header_timeout_in_sec

unfoldable pub web_shutdown_timeout : WebSettings → Duration
unfolding in_seconds
web_shutdown_timeout w = in_seconds w.shutdown_timeout_in_sec

-- Level
unfoldable pub log_level_of : LoggerSettings → ℤ
unfolding wrap64 ◌*ℤ◌
log_level_of l = wrap64 (l.log_level *ℤ pos 4)
