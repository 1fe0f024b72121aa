-- ===== src/RateLimiter.antt =====
-- The publish rate limit of a connection (`RateLimiter` of crates/entmoot-node/src/connection.rs), in
-- the arithmetic of `f64` (RateLimiter/Float). An instant is its number of nanoseconds.
pub mod Float
pub mod Bounds
mod Runs
use entmoot.Common.{ℕ, ◌+◌, ◌*◌, ◌-◌, Bool, true, false, min, leb, ◌==◌, if◌then◌else◌}
use entmoot.RateLimiter.Float.{one, nearest, as_secs_f64}

-- The rate as the whole number that it is, the tokens in parts.
pub record RateLimiter : Type 0 where
  pub rate : ℕ
  pub tokens : ℕ
  pub last : ℕ

unfoldable pub new_limiter : ℕ → ℕ → RateLimiter
new_limiter rate_per_sec now = record {
  rate = rate_per_sec;
  tokens = rate_per_sec * one;
  last = now;
}

-- The tokens at the instant `now`.
unfoldable pub refill : ℕ → RateLimiter → ℕ
unfolding nearest as_secs_f64
refill now r =
    min (nearest (r.tokens + nearest (r.rate * as_secs_f64 (now - r.last)))) (r.rate * one)

-- The end of `allow`, with the tokens at that instant.
unfoldable pub spend : ℕ → ℕ → RateLimiter → Bool × RateLimiter
unfolding nearest
spend filled now r =
    if leb one filled
    then (true, record r { tokens = nearest (filled - one); last = now })
    else (false, record r { tokens = filled; last = now })

-- `RateLimiter::allow`, at the instant `now`.
unfoldable pub allow : ℕ → RateLimiter → Bool × RateLimiter
unfolding refill spend
allow now r = if r.rate == 0 then (true, r) else spend (refill now r) now r
