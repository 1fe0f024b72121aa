-- ===== src/Staleness.antt =====
-- crates/entmoot-core/src/staleness.rs: how old a retained value may be before it is flagged.
pub mod FirstMatch
mod Runs
use mathlib.Core.Option
use entmoot.Common.{ℕ, Option, none, some, List, [], ◌∷◌, Bool, Str, if◌then◌else◌}
use entmoot.Config.{StalenessRule}
use entmoot.Topic.{topic_matches}

pub record StalenessPolicy : Type 0 where
  pub rules : List StalenessRule
  pub default_secs : ℕ

-- `iter().find(p)`
abbrev pub find {ℓ} : {A : Type ℓ} → (A → Bool) → List A → Option A
find p [] = none
find p (x ∷ xs) = if p x then some x else find p xs

abbrev pub unwrap_or {ℓ} : {A : Type ℓ} → Option A → A → A
unwrap_or none d = d
unwrap_or (some a) d = a

unfoldable pub bound_secs : StalenessPolicy → Str → ℕ
bound_secs p topic_name =
    unwrap_or
      (Option.map (λ r. r.bound_secs) (find (λ r. topic_matches r.filter topic_name) p.rules))
      p.default_secs
