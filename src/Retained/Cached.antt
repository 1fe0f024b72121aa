-- ===== src/Retained/Cached.antt =====
-- The coalescing cache of scans.
use entmoot.Common.{
  ◌+◌, ◌≤◌, ◌≡◌, refl, ◌⊎◌, inl, inr, Option, none, some, List, Bytes, Str, arith, Option-cases,
}
use entmoot.Topic.{retained_keyexpr_to_topic}
use entmoot.Retained.{
  MatchCache, SystemTime, RetainedEntry, RetainedStore, scan, insert, remove, matching,
  matching_cached, apply_sample, decode_envelope,
}

module _ (mc : MatchCache) where
  -- Whatever the cache holds for a filter is what a scan would give now.
  abbrev pub IsCoherent : RetainedStore mc → Type 0
  IsCoherent s =
      (f : Str) (r : List RetainedEntry) → mc.hit s.match_cache f ≡ some r → r ≡ scan s.entries f

  insert-IsCoherent :
      (t : Str) (p : Bytes) (w : SystemTime) (s : RetainedStore mc) → IsCoherent (insert mc t p w s)
  unfolding insert
  insert-IsCoherent t p w s f r h = cc (h, mc.hit-invalidate_all s.match_cache f)

  remove-IsCoherent : (t : Str) (s : RetainedStore mc) → IsCoherent (remove mc t s)
  unfolding remove
  remove-IsCoherent t s f r h = cc (h, mc.hit-invalidate_all s.match_cache f)

  -- A cached match is always a current one, it leaves the replica alone, keeps the cache coherent,
  -- and it scans once at most; it changes nothing unless the cache has no entry for the filter. The
  -- cache is coherent before.
  pub matching_cached_lem :
      (f : Str) (s : RetainedStore mc)
      → IsCoherent s
      → ((matching_cached mc f s).0 ≡ (matching mc f s).0)
        × ((matching_cached mc f s).1.entries ≡ s.entries)
        × ((matching_cached mc f s).1.scans ≤ s.scans + 1)
        × ((mc.hit s.match_cache f ≡ none) ⊎ ((matching_cached mc f s).1 ≡ s))
        × IsCoherent (matching_cached mc f s).1
  unfolding matching_cached
  matching_cached_lem f s h = elim (Option-cases (mc.hit s.match_cache f)) [
    | inl e ↦ rw (e, matching_cached) (refl, refl, omega arith, inl refl, filled)
    | inr (r, e) ↦ rw (e, matching_cached) (h f r e, refl, omega arith, inr refl, h)
  ]
    where
      filled :
          IsCoherent (record (matching mc f s).1 {
            match_cache = mc.fill s.match_cache f (matching mc f s).0;
          })
      filled g r q = elim (mc.hit-fill s.match_cache f g (scan s.entries f) r q) [
        | inl (same, e) ↦ rw (same, e)
        | inr e ↦ h g r e
      ]

  -- Every sample that replication applies leaves the cache coherent, whatever it carries.
  pub apply_sample-IsCoherent :
      (scope ke : Str) (sample : Option Bytes) (s : RetainedStore mc)
      → IsCoherent s
      → IsCoherent (apply_sample mc scope ke sample s)
  unfolding apply_sample
  apply_sample-IsCoherent scope ke none s h =
      elim (Option-cases (retained_keyexpr_to_topic ke scope)) [
        | inl e ↦ rw (e, apply_sample) h
        | inr (t, e) ↦ rw (e, apply_sample) (remove-IsCoherent t s)
      ]
  apply_sample-IsCoherent scope ke (some raw) s h =
      elim (Option-cases (retained_keyexpr_to_topic ke scope)) [
        | inl e ↦ rw (e, apply_sample) h
        | inr (t, e) ↦ elim (Option-cases (decode_envelope raw)) [
          | inl d ↦ rw (e, d, apply_sample) h
          | inr ((p, w), d) ↦ rw (e, d, apply_sample) (insert-IsCoherent t p w s)
        ]
      ]
