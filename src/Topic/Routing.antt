-- ===== src/Topic/Routing.antt =====
-- What the bus routes: the key expressions that crates/entmoot-core/src/topic.rs makes of filters and
-- of topics, under the matching of the bus.
--
-- That matching is a parameter, with the rules that Zenoh documents for concrete keys.
pub mod Internal
pub mod Runs
use entmoot.Common.{
  Lacks-of_all, ℕ, zero, suc, ◌+◌, ◌-◌, ◌≡◌, refl, sym, ap, ◌∙◌, ◌≢◌, Bool, true, false, not, ◌&&◌,
  List, [], ◌∷◌, ◌++◌, Str, ok, >>=-eq-ok, codes, slash, split, join, split-append, split-join,
  split-Lacks, split-ne-nil, Lacks, str_eq_refl, split-cases, split_of_Lacks, is_empty, str_eq,
  str_eq_iff, any, all, contains, length, All, ◌==◌, Bool-cases, inl, inr, arith, if◌then◌else◌,
}
use entmoot.Topic.{
  topic_to_keyexpr, filter_to_keyexpr, filter_chunk, filter_chunks, topic_matches, scoped,
  starts_with_at, check_chars, check_level_chars, plus_level, hash_level, sys_prefix, sys_chunk,
  meta_prefix, meta_chunk, levels, under, retained_chunk, retained_keyexpr, sys_keyexpr,
  meta_keyexpr,
}
use entmoot.Topic.Levels.{IsName, IsAllowed, topic_to_keyexpr_iff, levels-eq-ok}
use entmoot.Topic.Matching.{matches_levels, topic_matches-eq-levels}
use entmoot.Topic.Chunks.{
  IsLiteral, star, stars, IsVisible, IsName-IsVisible, names-IsVisible, Chunk, sys, meta, any_one,
  any_rest, itself, filter_chunk-Chunk, filter_chunks-eq-ok, none_behind, scope_chunks,
  split-scoped, filter_to_keyexpr-chunks, split-under, whole, IsLiteral-of_any,
}

-- A key expression against a key, as their chunks: `*` takes one chunk and `**` any number, but
-- none that begins with `@`. Only a `**` at the end is described, since no other is made here.
pub record IsMatching (intersects : List Str → List Str → Bool) : Type 0 where
  pub ends : intersects [] [] ≡ true
  pub longer : (x : Str) (t : List Str) → intersects [] (x ∷ t) ≡ false
  pub literal :
      (c x : Str) (f t : List Str)
      → IsLiteral c
      → IsLiteral x
      → intersects (c ∷ f) (x ∷ t) ≡ (str_eq x c && intersects f t)
  pub literal_ends : (c : Str) (f : List Str) → IsLiteral c → intersects (c ∷ f) [] ≡ false
  pub star_one :
      (x : Str) (f t : List Str)
      → IsLiteral x
      → intersects (star ∷ f) (x ∷ t) ≡ (not (starts_with_at x) && intersects f t)
  pub star_ends : (f : List Str) → intersects (star ∷ f) [] ≡ false
  pub stars_more :
      (x : Str) (t : List Str)
      → IsLiteral x
      → intersects (stars ∷ []) (x ∷ t) ≡ (not (starts_with_at x) && intersects (stars ∷ []) t)
  pub stars_ends : intersects (stars ∷ []) [] ≡ true

-- The first chunk of a client's topic is a name, which holds no `$`.
abbrev Begins : List Str → Type 0
Begins [] = Unit
Begins (x ∷ ts) = IsName x

name-ne-prefix :
    (x : Str) → IsName x → (str_eq x sys_prefix ≡ false) × (str_eq x meta_prefix ≡ false)
unfolding str_eq
name-ne-prefix [] n = (refl, refl)
name-ne-prefix (b ∷ x) n = let a = n.allowed.0.3 in ground arith

visible-ne-chunk :
    (x : Str)
    → starts_with_at x ≡ false
    → (str_eq x sys_chunk ≡ false) × (str_eq x meta_chunk ≡ false)
unfolding str_eq
visible-ne-chunk [] n = (refl, refl)
visible-ne-chunk (b ∷ x) n = ground arith

names-Begins : (ts : List Str) → All IsName ts → Begins ts
names-Begins [] h = tt
names-Begins (x ∷ ts) h = h.0

module _ (intersects : List Str → List Str → Bool) (bus : IsMatching intersects) where
  stars-true : (ts : List Str) → All IsVisible ts → intersects (stars ∷ []) ts ≡ true
  stars-true [] h = bus.stars_ends
  stars-true (x ∷ ts) h = rw (bus.stars_more x ts h.0.literal, h.0.visible, stars-true ts h.1)

  -- A prefix that only names the keyspace of another first chunk.
  prefix-agrees :
      (prefix chunk : Str) (f ls ts : List Str)
      → IsLiteral chunk
      → (str_eq prefix hash_level ≡ false) × (str_eq prefix plus_level ≡ false)
      → ((x : Str) → IsName x → (str_eq x prefix ≡ false) × (str_eq x chunk ≡ false))
      → Begins ts
      → intersects (chunk ∷ f) ts ≡ matches_levels (prefix ∷ ls) ts
  unfolding matches_levels
  prefix-agrees prefix chunk f ls [] lit d other b = rw d.0 (bus.literal_ends chunk f lit)
  prefix-agrees prefix chunk f ls (x ∷ ts) lit d other n =
      let (p, q) = other x n in
      rw (d.0, d.1, p, bus.literal chunk x f ts lit (IsName-IsVisible x n).literal, q)

  -- A level of a filter, before the rest of it.
  level-agrees :
      (i last : ℕ) (l c : Str) (f ls ts : List Str)
      → (i ≡ 0 → Begins ts)
      → Chunk i last l c
      → (i ≡ last → f ≡ [])
      → All IsVisible ts
      → ((us : List Str) → All IsVisible us → intersects f us ≡ matches_levels ls us)
      → intersects (c ∷ f) ts ≡ matches_levels (l ∷ ls) ts
  unfolding matches_levels str_eq
  level-agrees i last l c f ls ts first (sys z e d) fin h rest =
      rw (e, d)
        (prefix-agrees sys_prefix sys_chunk f ls ts (IsLiteral-of_any sys_chunk refl refl)
          (refl, refl)
          (λ x n. ((name-ne-prefix x n).0, (visible-ne-chunk x (IsName-IsVisible x n).visible).0))
          (first z))
  level-agrees i last l c f ls ts first (meta z e d) fin h rest =
      rw (e, d)
        (prefix-agrees meta_prefix meta_chunk f ls ts (IsLiteral-of_any meta_chunk refl refl)
          (refl, refl)
          (λ x n. ((name-ne-prefix x n).1, (visible-ne-chunk x (IsName-IsVisible x n).visible).1))
          (first z))
  level-agrees i last l c f ls [] first (any_one e d) fin h rest = rw (e, d) (bus.star_ends f)
  level-agrees i last l c f ls (x ∷ ts) first (any_one e d) fin h rest =
      rw (e, d, bus.star_one x f ts h.0.literal, h.0.visible) (rest ts h.1)
  level-agrees i last l c f ls [] first (any_rest e d z) fin h rest =
      rw (e, d, fin z) bus.stars_ends
  level-agrees i last l c f ls (x ∷ ts) first (any_rest e d z) fin h rest =
      rw (e, d, fin z) (stars-true (x ∷ ts) h)
  level-agrees i last l c f ls [] first (itself e v p q) fin h rest =
      rw (e, q) (bus.literal_ends l f v.literal)
  level-agrees i last l c f ls (x ∷ ts) first (itself e v p q) fin h rest =
      rw (e, q, p, bus.literal l x f ts v.literal h.0.literal, rest ts h.1) (ground arith)

  pub levels-agree :
      (i last : ℕ) (ls out ts : List Str)
      → any is_empty ls ≡ false
      → i + length ls ≡ suc last
      → filter_chunks i last ls ≡ ok out
      → (i ≡ 0 → Begins ts)
      → All IsVisible ts
      → intersects out ts ≡ matches_levels ls ts
  unfolding filter_chunks
  levels-agree i last [] out [] n m h first v =
      unfold matches_levels in let e : out ≡ [] = cc in rw e bus.ends
  levels-agree i last [] out (x ∷ ts) n m h first v =
      unfold matches_levels in let e : out ≡ [] = cc in rw e (bus.longer x ts)
  levels-agree i last (l ∷ ls) out ts n m h first v =
      let (c, f, p, q, e) = filter_chunks-eq-ok i last l ls out h in
      rw e (
        level-agrees i last l c f ls ts first (filter_chunk-Chunk i last l c (ground arith) p)
          (none_behind (suc i) last i ls f (omega arith) q) v
          (λ us w.
            levels-agree (suc i) last ls f us (ground arith) (omega arith) q
              (λ z. absurd (omega arith)) w))

  -- A scope that is no wildcard routes to itself.
  pub scope-agrees :
      (scope f t : List Str)
      → All IsLiteral scope
      → intersects (scope ++ f) (scope ++ t) ≡ intersects f t
  scope-agrees [] f t h = refl
  scope-agrees (s ∷ scope) f t h =
      rw (bus.literal s s (scope ++ f) (scope ++ t) h.0 h.0, str_eq_refl s)
        (scope-agrees scope f t h.1)

  -- The bus routes a publish to a subscription exactly if the topic matches the filter, for every
  -- filter and topic that are accepted and in every scope without wildcards.
  pub routes :
      (filter t scope ke k : Str)
      → filter_to_keyexpr filter scope ≡ ok ke
      → topic_to_keyexpr t scope ≡ ok k
      → All IsLiteral (scope_chunks scope)
      → intersects (split slash ke) (split slash k) ≡ topic_matches filter t
  routes filter t scope ke k h g sc =
      let (out, e, r, n) = filter_to_keyexpr-chunks filter scope ke h in
      let (names, q) = (topic_to_keyexpr_iff t scope k).0 g in
      rw (e, q, split-scoped scope t)
        (scope-agrees (scope_chunks scope) out (split slash t) sc
          ∙ levels-agree 0 (length (split slash filter) - 1) (split slash filter) out
              (split slash t) n (whole filter) r (λ z. names-Begins _ names)
              (names-IsVisible _ names)
          ∙ sym (topic_matches-eq-levels filter t))
