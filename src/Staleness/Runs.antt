-- ===== src/Staleness/Runs.antt =====
-- The bounds of a concrete policy.
use entmoot.Common.{ℕ, List, [], ◌∷◌, codes}
use entmoot.Config.{StalenessRule}

abbrev rule : ℕ → StalenessRule
rule n = record { filter = codes "a/#"; bound_secs = n }

abbrev other : List StalenessRule
other = (record { filter = codes "b"; bound_secs = 9 }) ∷ []
