-- ===== src/App/Web.antt =====
-- cmd/app/main.go: the HTTP server that `run` makes of its settings.
use clean_architect.Config.Plain.{
  WebSettings, web_address, web_read_timeout, web_idle_timeout, web_write_timeout,
  web_read_header_timeout, web_shutdown_timeout,
}
use clean_architect.Server.{
  Server, ServerOption, with_address, with_logger, with_timeouts, new, apply, apply_all,
  write_timeout, read_header_timeout,
}
use clean_architect.Common.{ℕ, ◌≡◌, refl, List, [], ◌∷◌, nat_eq, text_eq}

-- The options that `run` hands to webserver.New.
abbrev pub web_options : WebSettings → List ServerOption
unfolding web_address web_idle_timeout web_read_timeout web_write_timeout web_read_header_timeout
    web_shutdown_timeout
web_options cfg =
    with_address (web_address cfg)
    ∷ with_logger
    ∷ with_timeouts (web_idle_timeout cfg) (web_read_timeout cfg) (web_write_timeout cfg)
        (web_read_header_timeout cfg) (web_shutdown_timeout cfg)
    ∷ []

unfoldable pub web_server : WebSettings → Server
unfolding new web_options
web_server cfg = new (web_options cfg)

-- Whatever the settings of the web server: it listens on their address and has their timeouts of the
-- idle connection and of the shutdown; but the time that they give to the reading of a header is the
-- timeout of the whole reading, and their own timeouts of the reading and of the writing reach
-- nothing: two settings that differ only there make the same server.
pub web_server_lem :
    (cfg : WebSettings) (read write : ℕ)
    → (web_server cfg
        ≡ web_server (record cfg { read_timeout_in_sec = read; write_timeout_in_sec = write }))
      × ((web_server cfg).addr ≡ web_address cfg)
      × ((web_server cfg).idle_timeout ≡ web_idle_timeout cfg)
      × ((web_server cfg).shutdown_timeout ≡ web_shutdown_timeout cfg)
      × ((web_server cfg).read_timeout ≡ web_read_header_timeout cfg)
      × ((web_server cfg).read_header_timeout ≡ read_header_timeout)
      × ((web_server cfg).write_timeout ≡ write_timeout)
unfolding web_server new apply_all apply web_options
web_server_lem cfg read write = (refl, refl, refl, refl, refl, refl, refl)
