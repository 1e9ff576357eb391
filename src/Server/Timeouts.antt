-- ===== src/Server/Timeouts.antt =====
-- Which timeouts the options reach.
use clean_architect.Server.{
  Server, ServerOption, with_address, with_logger, with_max_header_bytes, with_idle_timeout,
  with_read_timeout, with_write_timeout, with_read_header_timeout, with_shutdown_timeout,
  with_timeouts, apply, apply_all, new, write_timeout, read_header_timeout,
}
use clean_architect.Common.{◌≡◌, refl, ◌∙◌, List, [], ◌∷◌, nat_eq, text_eq}

-- The two timeouts that stay as they are.
abbrev pub SameTimeouts : Server → Server → Type 0
SameTimeouts s t =
    (t.write_timeout ≡ s.write_timeout) × (t.read_header_timeout ≡ s.read_header_timeout)

apply-SameTimeouts : (o : ServerOption) (s : Server) → SameTimeouts s (apply o s)
unfolding apply
apply-SameTimeouts (with_address a) s = (refl, refl)
apply-SameTimeouts with_logger s = (refl, refl)
apply-SameTimeouts (with_max_header_bytes n) s = (refl, refl)
apply-SameTimeouts (with_idle_timeout idle) s = (refl, refl)
apply-SameTimeouts (with_read_timeout read) s = (refl, refl)
apply-SameTimeouts (with_write_timeout write) s = (refl, refl)
apply-SameTimeouts (with_read_header_timeout read) s = (refl, refl)
apply-SameTimeouts (with_shutdown_timeout shutdown) s = (refl, refl)
apply-SameTimeouts (with_timeouts idle read write read_header shutdown) s = (refl, refl)

apply_all-SameTimeouts :
    (options : List ServerOption) (s : Server) → SameTimeouts s (apply_all options s)
unfolding apply_all
apply_all-SameTimeouts [] s = (refl, refl)
apply_all-SameTimeouts (o ∷ options) s =
    let (w, h) = apply-SameTimeouts o s in
    let (w', h') = apply_all-SameTimeouts options (apply o s) in (w' ∙ w, h' ∙ h)

-- Whatever options a server is made with, WithWriteTimeout, WithReadHeaderTimeout and WithTimeouts
-- among them: its timeouts of the writing and of the reading of the header are the default ones.
pub new-SameTimeouts :
    (options : List ServerOption)
    → ((new options).write_timeout ≡ write_timeout)
      × ((new options).read_header_timeout ≡ read_header_timeout)
unfolding new
new-SameTimeouts options = apply_all-SameTimeouts options _
