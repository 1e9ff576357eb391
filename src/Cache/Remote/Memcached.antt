-- ===== src/Cache/Remote/Memcached.antt =====
-- Where the driver of memcached differs.
use clean_architect.Common.Int.{ℤ, pos, negsuc}
use clean_architect.Cache.Remote.{expiration}
use clean_architect.Common.{ℕ, ◌*◌, ◌/◌, ◌≤◌, ◌<◌, ◌≡◌, refl, ap, ◌↔◌, arith, nat_eq, text_eq}

magnitude : ℤ → ℕ
magnitude (pos m) = m
magnitude (negsuc m) = m

-- A time to live is sent as the expiration 0, with which memcached keeps an item for ever, exactly if
-- it is below a second; a longer one is sent as its whole seconds, which are at most the time to live.
pub expiration-zero_iff :
    (n : ℕ)
    → ((expiration (pos n) ≡ pos 0) ↔ (n < 1_000_000_000))
      × ((m : ℕ) × (expiration (pos n) ≡ pos m) × (m * 1_000_000_000 ≤ n))
unfolding expiration magnitude
expiration-zero_iff n = (
  (λ e. omega (arith, ap magnitude e), λ h. ap pos (omega (arith, h))),
  (n / 1_000_000_000, refl, omega arith),
)
