-- ===== src/RateLimiter/Float.antt =====
-- Arithmetic of `f64` on numbers that are not negative, as the rate limiter uses it.
--
-- A number is that many parts of 2 ^ (- 100). What the limiter computes is at least 2 ^ (- 30) or 0,
-- or a difference of such, and so a multiple of 2 ^ (- 82): each is a whole number of parts.
use entmoot.Common.{
  ℕ, zero, suc, ◌+◌, ◌*◌, ◌/◌, ◌%◌, ◌^◌, ◌≤◌, ◌<◌, ◌≡◌, refl, subst, Bool-cases, inl, inr, true,
  ltb, ◌==◌, if◌then◌else◌, arith,
}

abbrev pub one : ℕ
one = 2 ^ 100

-- A number as a significand of 53 bits at most, a power of two, and the rest below that.
pub record Parts : Type 0 where
  pub significand : ℕ
  pub weight : ℕ
  pub rest : ℕ

parts : ℕ → ℕ → Parts
parts zero x = record { significand = x; weight = 1; rest = 0 }
parts (suc fuel) x =
    let p = parts fuel (x / 2) in
    if ltb x (2 ^ 53)
    then record { significand = x; weight = 1; rest = 0 }
    else record { significand = p.significand; weight = 2 * p.weight; rest = 2 * p.rest + x % 2 }

-- To the nearest number of 53 bits, and between two to the even one. The fuel is enough for 2 ^ 309
-- parts.
unfoldable pub nearest : ℕ → ℕ
unfolding parts
nearest x =
    let p = parts 256 x in
    let low = p.significand * p.weight in
    let high = (p.significand + 1) * p.weight in
    if ltb (2 * p.rest) p.weight
    then low
    else if ltb p.weight (2 * p.rest)
    then high
    else if p.significand % 2 == 0
    then low
    else high

-- `a as f64 / b as f64`, for a quotient of 2 ^ (- 30) at least or 0: one more bit says whether the
-- division leaves a rest.
unfoldable pub quotient : ℕ → (b : ℕ) → ℕ
unfolding nearest
quotient a b = nearest (2 * (a * one / b) + (if (a * one) % b == 0 then 0 else 1)) / 2

-- `Duration::as_secs_f64` of so many nanoseconds.
unfoldable pub as_secs_f64 : ℕ → ℕ
unfolding quotient
as_secs_f64 nanos =
    nearest (nearest (nanos / 1000000000 * one) + quotient (nanos % 1000000000) 1000000000)

-- A number of 53 bits, doubled so often.
abbrev doubled : ℕ → ℕ → ℕ
doubled zero m = m
doubled (suc j) m = 2 * doubled j m

parts-doubled :
    (fuel j m : ℕ)
    → m < 2 ^ 53
    → ((parts fuel (doubled j m)).rest ≡ 0)
      × ((parts fuel (doubled j m)).significand * (parts fuel (doubled j m)).weight ≡ doubled j m)
      × (1 ≤ (parts fuel (doubled j m)).weight)
unfolding parts
parts-doubled zero j m h = (refl, omega arith, omega arith)
parts-doubled (suc fuel) zero m h = ground arith
parts-doubled (suc fuel) (suc j) m h = elim (Bool-cases (ltb (2 * doubled j m) (2 ^ 53))) [
  | inl e ↦ rw e (refl, omega arith, omega arith)
  | inr e ↦
      let half : (2 * doubled j m) / 2 ≡ doubled j m = omega arith in
      let even : (2 * doubled j m) % 2 ≡ 0 = omega arith in
      let (r, v, w) = parts-doubled fuel j m h in
      rw (e, half, even) (omega (arith, r), omega (arith, v), omega (arith, w))
]

below_rest : (r w : ℕ) → r ≡ 0 → 1 ≤ w → ltb (2 * r) w ≡ true
below_rest r w h k = ground arith

pub nearest-doubled : (j m : ℕ) → m < 2 ^ 53 → nearest (doubled j m) ≡ doubled j m
unfolding nearest
nearest-doubled j m h =
    let (r, v, w) = parts-doubled 256 j m h in
    let p = parts 256 (doubled j m) in
    let below : ltb (2 * p.rest) p.weight ≡ true = below_rest p.rest p.weight r w in rw below v

doubled-scale : (m : ℕ) → doubled 100 m ≡ m * one
doubled-scale m = omega arith

-- Whole numbers below 2 ^ 53 are exact.
pub nearest-whole : (m : ℕ) → m < 2 ^ 53 → nearest (m * one) ≡ m * one
nearest-whole m h = subst (λ x. nearest x ≡ x) (doubled-scale m) (nearest-doubled 100 m h)

quotient_zero : quotient 0 1000000000 ≡ 0
unfolding quotient
quotient_zero = refl

-- So are whole seconds.
pub as_secs_f64_whole : (k : ℕ) → k < 2 ^ 53 → as_secs_f64 (k * 1000000000) ≡ k * one
unfolding as_secs_f64
as_secs_f64_whole k h =
    let whole : k * 1000000000 / 1000000000 ≡ k = omega arith in
    let none_left : k * 1000000000 % 1000000000 ≡ 0 = omega arith in
    let same : k * one + 0 ≡ k * one = omega arith in
    rw (whole, none_left, quotient_zero, nearest-whole k h, same) (nearest-whole k h)
