-- ===== src/Admission/Bursts.antt =====
-- How many of the CONNECTs of a burst are let in.
use entmoot.Common.{
  ℕ, zero, suc, ◌+◌, ◌≡◌, ◌≢◌, refl, ap, none, some, max, min, ◌==◌, if◌then◌else◌, arith,
}
use entmoot.Admission.{Governor, ConnectAdmission, new_admission, admit}

-- How many of so many checks in a row at one instant succeed.
pub checks : (gov : Governor) → ℕ → ℕ → gov.Limiter → ℕ
checks gov zero now l = 0
checks gov (suc n) now l =
    let (ok, l') = gov.check now l in (if ok then 1 else 0) + checks gov n now l'

unfoldable pub admits : (gov : Governor) → ℕ → ℕ → ConnectAdmission gov → ℕ
admits gov zero now a = 0
admits gov (suc n) now a =
    let (ok, a') = admit gov now a in (if ok then 1 else 0) + admits gov n now a'

-- What `governor` promises of a burst: of the checks at one instant, a new limiter lets so many pass as
-- its burst says.
pub HoldsBurst : Governor → Type 0
HoldsBurst gov =
    (rate burst now n : ℕ)
    → rate ≢ 0
    → burst ≢ 0
    → checks gov n now (gov.direct rate burst) ≡ min n burst

module _ (gov : Governor) where
  admits-none : (n now : ℕ) → admits gov n now (record { limiter = none }) ≡ n
  unfolding admits admit
  admits-none zero now = refl
  admits-none (suc n) now = omega (arith, admits-none n now)

  admits-some :
      (n now : ℕ) (l : gov.Limiter)
      → admits gov n now (record { limiter = some l }) ≡ checks gov n now l
  unfolding admits admit checks
  admits-some zero now l = refl
  admits-some (suc n) now l =
      ap (λ k. (if (gov.check now l).0 then 1 else 0) + k) (admits-some n now (gov.check now l).1)

  -- Of a burst of CONNECTs, a node without a rate lets in all, and one with a rate the configured
  -- burst, or the rate itself if that is more. The limiter keeps its promise.
  pub admits-new_admission :
      HoldsBurst gov
      → (rate burst n now : ℕ)
      → admits gov n now (new_admission gov rate burst)
        ≡ (if rate == 0 then n else min n (max burst rate))
  unfolding new_admission HoldsBurst
  admits-new_admission h rate burst n now = ground (
    arith,
    admits-none n now,
    admits-some n now (gov.direct rate (max burst rate)),
    h rate (max burst rate) now n,
  )
