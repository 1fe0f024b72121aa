-- ===== src/Admission.antt =====
-- crates/entmoot-node/src/admission.rs: how fast CONNECTs are let in. The rate limiter of the
-- `governor` crate is a parameter.
pub mod Bursts
pub mod Runs
use entmoot.Common.{ℕ, max, Bool, true, Option, none, some, ◌==◌, if◌then◌else◌}

-- `RateLimiter::direct` with a quota of so many cells a second and so large a burst, and `check` at
-- an instant.
pub record Governor : Type 1 where
  pub Limiter : Type 0
  pub direct : ℕ → ℕ → Limiter
  pub check : ℕ → Limiter → Bool × Limiter

module _ (gov : Governor) where
  pub record ConnectAdmission : Type 0 where
    pub limiter : Option gov.Limiter

  unfoldable pub new_admission : ℕ → ℕ → ConnectAdmission
  new_admission rate_per_sec burst =
      if rate_per_sec == 0
      then record { limiter = none }
      else record { limiter = some (gov.direct rate_per_sec (max burst rate_per_sec)) }

  unfoldable pub admit : ℕ → ConnectAdmission → Bool × ConnectAdmission
  admit now a = elim a.limiter [
    | none ↦ (true, a)
    | some l ↦ let (ok, l') = gov.check now l in (ok, record { limiter = some l' })
  ]
