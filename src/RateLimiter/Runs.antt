-- ===== src/RateLimiter/Runs.antt =====
-- A rate limiter at concrete instants.
use entmoot.Common.{◌*◌, ◌≡◌, refl, true, false}
use entmoot.RateLimiter.Float.{as_secs_f64, one}
use entmoot.RateLimiter.{new_limiter, allow}

-- A tenth of a second is 0x1.999999999999ap-4.
tenth : as_secs_f64 100000000 * 72057594037927936 ≡ 7205759403792794 * one
unfolding as_secs_f64
tenth = refl

-- At two a second, a limiter that was emptied lets one through after half a second, not before.
half_second :
    let r = (allow 7 (allow 7 (new_limiter 2 7)).1).1 in
    ((allow 7 r).0 ≡ false) × ((allow 500000006 r).0 ≡ false) × ((allow 500000007 r).0 ≡ true)
unfolding allow new_limiter
half_second = (refl, refl, refl)
