-- ===== src/RateLimiter/Bounds.antt =====
-- The rate limiter as a bucket of whole tokens.
use entmoot.Common.{
  ℕ, ◌+◌, ◌*◌, ◌-◌, ◌^◌, ◌<◌, Bool, true, false, List, [], ◌∷◌, min, leb, if◌then◌else◌,
}
use entmoot.RateLimiter.{RateLimiter, allow}

abbrev add_if : Bool → ℕ → ℕ
add_if true n = n + 1
add_if false n = n

-- Calls after one another, each so many seconds later than the one before: how many were allowed.
unfoldable pub allow_all : List ℕ → RateLimiter → ℕ
unfolding allow
allow_all [] r = 0
allow_all (k ∷ ks) r =
    let (ok, r') = allow (r.last + k * 1000000000) r in add_if ok (allow_all ks r')

abbrev left : ℕ → ℕ
left filled = if leb 1 filled then filled - 1 else filled

-- A bucket of as many tokens as the rate, which gains that many each second.
unfoldable pub bucket : ℕ → ℕ → List ℕ → ℕ
bucket rate tokens [] = 0
bucket rate tokens (k ∷ ks) =
    let filled = min (tokens + rate * k) rate in
    add_if (leb 1 filled) (bucket rate (left filled) ks)

abbrev pub elapsed : List ℕ → ℕ
elapsed [] = 0
elapsed (k ∷ ks) = k + elapsed ks

-- So much later the tokens are still a number of 53 bits.
abbrev pub IsExact : ℕ → ℕ → Type 0
IsExact rate k = rate * k + rate < 2 ^ 53
