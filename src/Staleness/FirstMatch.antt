-- ===== src/Staleness/FirstMatch.antt =====
-- Which rule decides.
use entmoot.Common.{ℕ, ◌≡◌, refl, true, false, ◌++◌, List, [], ◌∷◌, Str, All}
use entmoot.Config.{StalenessRule}
use entmoot.Topic.{topic_matches}
use entmoot.Staleness.{find, bound_secs}

abbrev pub Misses : Str → StalenessRule → Type 0
Misses t r = topic_matches r.filter t ≡ false

module _ (t : Str) where
  find-append :
      (before : List StalenessRule) (rest : List StalenessRule)
      → All (Misses t) before
      → find (λ r. topic_matches r.filter t) (before ++ rest)
        ≡ find (λ r. topic_matches r.filter t) rest
  find-append [] rest h = refl
  find-append (r ∷ before) rest h = rw h.0 (find-append before rest h.1)

  -- The first rule in the order of the configuration whose filter matches gives the bound, whatever
  -- stands behind it; a policy of only the rules in front of it, which do not match, gives its
  -- default.
  pub bound_secs_first_match :
      (before after : List StalenessRule) (r : StalenessRule) (default_secs : ℕ)
      → All (Misses t) before
      → topic_matches r.filter t ≡ true
      → (bound_secs (record { rules = before ++ (r ∷ after); default_secs = default_secs }) t
          ≡ r.bound_secs)
        × (bound_secs (record { rules = before; default_secs = default_secs }) t ≡ default_secs)
  unfolding bound_secs
  bound_secs_first_match before after r d h m =
      (rw (find-append before (r ∷ after) h, m), nothing before h)
    where
      nothing :
          (before : List StalenessRule)
          → All (Misses t) before
          → bound_secs (record { rules = before; default_secs = d }) t ≡ d
      nothing [] h = refl
      nothing (q ∷ before) h = rw h.0 (nothing before h.1)
