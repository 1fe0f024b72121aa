-- ===== src/Topic/Routing/Internal.antt =====
-- What the bus routes of the keyspaces `@sys`, `@meta` and `@retained` of
-- crates/entmoot-core/src/topic.rs.
use entmoot.Common.{
  Lacks-of_all, ℕ, ◌-◌, ◌≡◌, refl, ◌∙◌, Bool, true, false, ◌&&◌, List, [], ◌∷◌, Str, ok, slash,
  split, Lacks, str_eq_refl, split-cases, is_empty, str_eq, str_eq_iff, any, length, All,
  Bool-cases, inl, inr, arith,
}
use entmoot.Topic.{
  filter_to_keyexpr, filter_chunks, topic_matches, starts_with_at, plus_level, hash_level,
  sys_prefix, sys_chunk, meta_prefix, meta_chunk, under, retained_chunk, retained_keyexpr,
  sys_keyexpr, meta_keyexpr,
}
use entmoot.Topic.Matching.{matches_levels, topic_matches-eq-levels}
use entmoot.Topic.Chunks.{
  IsLiteral, star, stars, IsVisible, Chunk, sys, meta, any_one, any_rest, itself,
  filter_chunk-Chunk, filter_chunks-eq-ok, none_behind, scope_chunks, split-scoped,
  filter_to_keyexpr-chunks, split-under, IsLiteral-of_any,
}
use entmoot.Topic.Routing.{IsMatching, levels-agree, scope-agrees}

-- Whatever begins with `@` is no wildcard and no visible level.
at-ne : (x c : Str) → starts_with_at x ≡ true → starts_with_at c ≡ false → str_eq x c ≡ false
unfolding str_eq
at-ne [] c h k = cc
at-ne (b ∷ x) [] h k = refl
at-ne (b ∷ x) (d ∷ c) h k = ground arith

visible-ne-prefix :
    (l : Str) → IsVisible l → (str_eq l sys_prefix ≡ false) × (str_eq l meta_prefix ≡ false)
unfolding str_eq
visible-ne-prefix [] v = (refl, refl)
visible-ne-prefix (b ∷ l) v = let a = v.literal.plain.0.1 in ground arith

abbrev head_or : Str → List Str → Str
head_or d [] = d
head_or d (l ∷ ls) = l

abbrev pub first_level : Str → Str
first_level s = head_or [] (split slash s)

module _ (intersects : List Str → List Str → Bool) (bus : IsMatching intersects) where
  -- A key whose first chunk begins with `@` is reached by that chunk only.
  hidden-agrees :
      (last : ℕ) (l c x : Str) (f ts : List Str)
      → Chunk 0 last l c
      → (0 ≡ last → f ≡ [])
      → IsLiteral x
      → starts_with_at x ≡ true
      → intersects (c ∷ f) (x ∷ ts) ≡ (str_eq x c && intersects f ts)
  hidden-agrees last l c x f ts (sys z e d) fin lit h =
      rw d (bus.literal sys_chunk x f ts (IsLiteral-of_any sys_chunk refl refl) lit)
  hidden-agrees last l c x f ts (meta z e d) fin lit h =
      rw d (bus.literal meta_chunk x f ts (IsLiteral-of_any meta_chunk refl refl) lit)
  hidden-agrees last l c x f ts (any_one e d) fin lit h =
      rw (d, bus.star_one x f ts lit, h, at-ne x star h refl)
  hidden-agrees last l c x f ts (any_rest e d z) fin lit h =
      rw (d, fin z, bus.stars_more x ts lit, h, at-ne x stars h refl)
  hidden-agrees last l c x f ts (itself e v p q) fin lit h =
      rw e (bus.literal l x f ts v.literal lit)

  -- The first level of a filter against a keyspace of the node.
  abbrev Reads : Str → Str → Str → Str → Type 0
  Reads prefix chunk l c = str_eq chunk c ≡ str_eq l prefix

  first-Reads :
      (last : ℕ) (l c : Str)
      → Chunk 0 last l c
      → Reads sys_prefix sys_chunk l c
        × Reads meta_prefix meta_chunk l c
        × (str_eq retained_chunk c ≡ false)
  unfolding str_eq
  first-Reads last l c (sys z e d) = rw (e, d) (refl, refl, refl)
  first-Reads last l c (meta z e d) = rw (e, d) (refl, refl, refl)
  first-Reads last l c (any_one e d) = rw (e, d) (refl, refl, refl)
  first-Reads last l c (any_rest e d z) = rw (e, d) (refl, refl, refl)
  first-Reads last l c (itself e v p q) =
      let (a, b) = visible-ne-prefix l v in
      rw (e, a, b)
        (
          at-ne sys_chunk l refl v.visible,
          at-ne meta_chunk l refl v.visible,
          at-ne retained_chunk l refl v.visible,
        )

  same-level :
      (prefix : Str) (l : Str) (ls ts : List Str)
      → (str_eq prefix hash_level ≡ false) × (str_eq prefix plus_level ≡ false)
      → (str_eq l prefix && matches_levels ls ts)
        ≡ (str_eq l prefix && matches_levels (l ∷ ls) (prefix ∷ ts))
  unfolding matches_levels
  same-level prefix l ls ts h = elim (Bool-cases (str_eq l prefix)) [
    | inl e ↦ let same = (str_eq_iff l prefix).0 e in rw (same, str_eq_refl prefix, h.0, h.1)
    | inr e ↦ rw e
  ]

  -- One keyspace of the node, behind its prefix.
  keyspace-agrees :
      (prefix chunk filter s : Str) (out : List Str)
      → IsLiteral chunk
      → starts_with_at chunk ≡ true
      → Lacks slash prefix
      → (str_eq prefix hash_level ≡ false) × (str_eq prefix plus_level ≡ false)
      → ((l c : Str) → Chunk 0 (length (split slash filter) - 1) l c → Reads prefix chunk l c)
      → any is_empty (split slash filter) ≡ false
      → filter_chunks 0 (length (split slash filter) - 1) (split slash filter) ≡ ok out
      → All IsVisible (split slash s)
      → intersects out (chunk ∷ split slash s)
        ≡ (str_eq (first_level filter) prefix && topic_matches filter (under prefix s))
  keyspace-agrees prefix chunk filter s out lit at lacks ne reads n h v =
      let (l, ls, p) = split-cases slash filter in
      let n' : any is_empty (l ∷ ls) ≡ false = rw p at n in
      let h' : filter_chunks 0 (length (l ∷ ls) - 1) (l ∷ ls) ≡ ok out = rw p at h in
      let (c, f, q, r, e) = filter_chunks-eq-ok 0 (length (l ∷ ls) - 1) l ls out h' in
      let k : Chunk 0 (length (l ∷ ls) - 1) l c = filter_chunk-Chunk 0 _ l c (ground arith) q in
      let k' : Chunk 0 (length (split slash filter) - 1) l c = rw p k in
      rw (e, topic_matches-eq-levels filter (under prefix s), split-under prefix s lacks, p)
        (hidden-agrees _ l c chunk f (split slash s) k (none_behind 1 _ 0 ls f (omega arith) r) lit
            at
          ∙ rw
              (
                reads l c k',
                levels-agree intersects bus 1 (length (l ∷ ls) - 1) ls f (split slash s)
                    (ground arith) (omega arith) r (λ z. absurd (omega arith)) v,
              )
              (same-level prefix l ls (split slash s) ne))

  retained-agrees :
      (filter : Str) (out ts : List Str)
      → any is_empty (split slash filter) ≡ false
      → filter_chunks 0 (length (split slash filter) - 1) (split slash filter) ≡ ok out
      → intersects out (retained_chunk ∷ ts) ≡ false
  retained-agrees filter out ts n h =
      let (l, ls, p) = split-cases slash filter in
      let n' : any is_empty (l ∷ ls) ≡ false = rw p at n in
      let h' : filter_chunks 0 (length (l ∷ ls) - 1) (l ∷ ls) ≡ ok out = rw p at h in
      let (c, f, q, r, e) = filter_chunks-eq-ok 0 (length (l ∷ ls) - 1) l ls out h' in
      let k : Chunk 0 (length (l ∷ ls) - 1) l c = filter_chunk-Chunk 0 _ l c (ground arith) q in
      rw e (
        hidden-agrees _ l c retained_chunk f ts k (none_behind 1 _ 0 ls f (omega arith) r)
          (IsLiteral-of_any retained_chunk refl refl) refl
        ∙ rw (first-Reads _ l c k).2)

  -- An accepted filter receives what is published at a path under `$SYS` or `$meta` exactly if it matches
  -- and begins with that very level, and a wildcard in front does not reach there; no filter receives
  -- the retained copy of a topic. The levels of the path are not empty, do not begin with `@` and hold
  -- none of `*` and `$`; those of the scope are not empty and hold none of `*` and `$`.
  pub routes_internal :
      (filter s t scope ke : Str)
      → filter_to_keyexpr filter scope ≡ ok ke
      → All IsVisible (split slash s)
      → All IsLiteral (scope_chunks scope)
      → (intersects (split slash ke) (split slash (sys_keyexpr s scope))
          ≡ (str_eq (first_level filter) sys_prefix && topic_matches filter (under sys_prefix s)))
        × (intersects (split slash ke) (split slash (meta_keyexpr s scope)) ≡ (
            str_eq (first_level filter) meta_prefix && topic_matches filter (under meta_prefix s)))
        × (intersects (split slash ke) (split slash (retained_keyexpr t scope)) ≡ false)
  unfolding sys_keyexpr meta_keyexpr retained_keyexpr str_eq
  routes_internal filter s t scope ke h v sc =
      let (out, e, r, n) = filter_to_keyexpr-chunks filter scope ke h in
      (
        rw
            (
              e,
              split-scoped scope (under sys_chunk s),
              split-under sys_chunk s (Lacks-of_all slash sys_chunk refl),
            )
            (scope-agrees intersects bus (scope_chunks scope) out (sys_chunk ∷ split slash s) sc
              ∙ keyspace-agrees sys_prefix sys_chunk filter s out
                  (IsLiteral-of_any sys_chunk refl refl) refl (Lacks-of_all slash sys_prefix refl)
                  (refl, refl) (λ l c k. (first-Reads _ l c k).0) n r v),
        rw
            (
              e,
              split-scoped scope (under meta_chunk s),
              split-under meta_chunk s (Lacks-of_all slash meta_chunk refl),
            )
            (scope-agrees intersects bus (scope_chunks scope) out (meta_chunk ∷ split slash s) sc
              ∙ keyspace-agrees meta_prefix meta_chunk filter s out
                  (IsLiteral-of_any meta_chunk refl refl) refl (Lacks-of_all slash meta_prefix refl)
                  (refl, refl) (λ l c k. (first-Reads _ l c k).1) n r v),
        rw
            (
              e,
              split-scoped scope (under retained_chunk t),
              split-under retained_chunk t (Lacks-of_all slash retained_chunk refl),
            )
            (scope-agrees intersects bus (scope_chunks scope) out (retained_chunk ∷ split slash t)
                sc
              ∙ retained-agrees filter out (split slash t) n r),
      )
