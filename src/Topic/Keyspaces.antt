-- ===== src/Topic/Keyspaces.antt =====
-- The internal keyspaces `@retained`, `@sys` and `@meta`: what clients can see of them, and that no
-- publish reaches them.
use entmoot.Common.{
  ℕ, ◌≡◌, refl, sym, ap, ◌∙◌, ◌≢◌, ◌⊎◌, inl, inr, true, false, none, some, List, [], ◌∷◌, ◌++◌, Str,
  ok, >>=-eq-ok, slash, strip_prefix, arith, join, is_empty, any, length, ◌-◌, join-cons,
  split-ne-nil,
}
use entmoot.Topic.{
  topic_to_keyexpr, filter_to_keyexpr, filter_chunk, filter_chunks, keyexpr_to_topic, scoped,
  starts_with_at, unscoped_to_topic, retained_keyexpr, retained_keyexpr_to_topic, sys_keyexpr,
  levels, check_level_chars, meta_keyexpr, retained_chunk, sys_chunk, sys_prefix, meta_chunk,
  meta_prefix, under,
}
use entmoot.Topic.Levels.{topic_to_keyexpr_iff, starts_with_at-IsTopic, levels-eq-ok}
use entmoot.Topic.RoundTrip.{strip_scope-scoped, scoped-injective}

-- The retained copy of a topic is found again under the topic, and never surfaces as one.
pub retained_keyexpr_roundtrip :
    (t scope : Str)
    → (retained_keyexpr_to_topic (retained_keyexpr t scope) scope ≡ some t)
      × (keyexpr_to_topic (retained_keyexpr t scope) scope ≡ none)
unfolding retained_keyexpr_to_topic retained_keyexpr keyexpr_to_topic unscoped_to_topic strip_prefix
retained_keyexpr_roundtrip t scope = (
  rw (strip_scope-scoped (under retained_chunk t) scope),
  rw (strip_scope-scoped (under retained_chunk t) scope),
)

-- A stat published under `@sys` surfaces as `$SYS/...`, an annotation under `@meta` as `$meta/...`,
-- and neither is taken for a retained copy.
pub annotations_roundtrip :
    (s scope : Str)
    → (keyexpr_to_topic (sys_keyexpr s scope) scope ≡ some (under sys_prefix s))
      × (keyexpr_to_topic (meta_keyexpr s scope) scope ≡ some (under meta_prefix s))
      × (retained_keyexpr_to_topic (sys_keyexpr s scope) scope ≡ none)
      × (retained_keyexpr_to_topic (meta_keyexpr s scope) scope ≡ none)
unfolding retained_keyexpr_to_topic sys_keyexpr meta_keyexpr keyexpr_to_topic unscoped_to_topic
    strip_prefix
annotations_roundtrip s scope = (
  rw (strip_scope-scoped (under sys_chunk s) scope),
  rw (strip_scope-scoped (under meta_chunk s) scope),
  rw (strip_scope-scoped (under sys_chunk s) scope),
  rw (strip_scope-scoped (under meta_chunk s) scope),
)

hidden_ne :
    (t u scope k : Str)
    → starts_with_at u ≡ true
    → topic_to_keyexpr t scope ≡ ok k
    → k ≢ scoped scope u
hidden_ne t u scope k h e q =
    let (n, p) = (topic_to_keyexpr_iff t scope k).0 e in
    let same = scoped-injective t u scope (sym p ∙ q) in
    cc (starts_with_at-IsTopic t n, ap starts_with_at same)

-- No accepted publish writes a key of the retained store, of the stats or of the annotations.
pub topic_to_keyexpr-unforgeable :
    (t u scope k : Str)
    → topic_to_keyexpr t scope ≡ ok k
    → (k ≢ retained_keyexpr u scope) × (k ≢ sys_keyexpr u scope) × (k ≢ meta_keyexpr u scope)
unfolding retained_keyexpr sys_keyexpr meta_keyexpr
topic_to_keyexpr-unforgeable t u scope k e = (
  hidden_ne t (under retained_chunk u) scope k refl e,
  hidden_ne t (under sys_chunk u) scope k refl e,
  hidden_ne t (under meta_chunk u) scope k refl e,
)

visible-not_retained : (t : Str) → starts_with_at t ≡ false → strip_prefix retained_chunk t ≡ none
unfolding strip_prefix
visible-not_retained [] h = refl
visible-not_retained (x ∷ t) h = ground arith

-- The key of a publish is never taken for a retained copy.
pub topic_to_keyexpr-not_retained :
    (t scope k : Str) → topic_to_keyexpr t scope ≡ ok k → retained_keyexpr_to_topic k scope ≡ none
unfolding retained_keyexpr_to_topic
topic_to_keyexpr-not_retained t scope k e =
    let (n, p) = (topic_to_keyexpr_iff t scope k).0 e in
    rw (p, strip_scope-scoped t scope, visible-not_retained t (starts_with_at-IsTopic t n))

-- What the first level of a filter can become: a chunk that does not begin with `@`, or one of the
-- two keyspaces that clients may read.
abbrev IsClientChunk : Str → Type 0
IsClientChunk c =
    (is_empty c ≡ false) × ((starts_with_at c ≡ false) ⊎ (c ≡ sys_chunk) ⊎ (c ≡ meta_chunk))

filter_chunk-IsClientChunk :
    (i last : ℕ) (l c : Str) → is_empty l ≡ false → filter_chunk i last l ≡ ok c → IsClientChunk c
unfolding filter_chunk check_level_chars
filter_chunk-IsClientChunk i last l c n h = ground arith

not_retained : (c r : Str) → IsClientChunk c → strip_prefix retained_chunk (c ++ r) ≡ none
unfolding strip_prefix
not_retained [] r (n, h) = cc
not_retained (x ∷ s) r (n, inl v) = ground arith
not_retained (x ∷ s) r (n, inr (inl e)) = ap (λ (c : Str). strip_prefix retained_chunk (c ++ r)) e
not_retained (x ∷ s) r (n, inr (inr e)) = ap (λ (c : Str). strip_prefix retained_chunk (c ++ r)) e

filter_chunks-not_retained :
    (last : ℕ) (ls out : List Str)
    → ls ≢ []
    → any is_empty ls ≡ false
    → filter_chunks 0 last ls ≡ ok out
    → strip_prefix retained_chunk (join slash out) ≡ none
unfolding filter_chunks
filter_chunks-not_retained last [] out ne n h = absurd (ne refl)
filter_chunks-not_retained last (l ∷ ls) out ne n h =
    let (c, p, q) = >>=-eq-ok (filter_chunk 0 last l) _ h in
    let (cs, r, s) = >>=-eq-ok (filter_chunks 1 last ls) _ q in
    let (tail, t) = join-cons slash c cs in
    let same : out ≡ c ∷ cs = cc s in
    rw (same, t) (not_retained c tail (filter_chunk-IsClientChunk 0 last l c (ground arith) p))

-- No subscription that is accepted names a key of the retained store.
pub filter_to_keyexpr-unobservable :
    (f scope k : Str) → filter_to_keyexpr f scope ≡ ok k → retained_keyexpr_to_topic k scope ≡ none
unfolding filter_to_keyexpr retained_keyexpr_to_topic
filter_to_keyexpr-unobservable f scope k h =
    let (ls, p, q) = >>=-eq-ok (levels f) _ h in
    let (out, r, s) = >>=-eq-ok (filter_chunks 0 (length ls - 1) ls) _ q in
    let (e, n) = levels-eq-ok f ls p in
    let same : k ≡ scoped scope (join slash out) = cc s in
    let hidden = filter_chunks-not_retained _ ls out (λ z. split-ne-nil slash f (sym e ∙ z)) n r in
    rw (same, strip_scope-scoped (join slash out) scope, hidden)

-- Behind the scope only the two readable keyspaces surface: a topic that a key maps to never
-- begins with `@`.
pub keyexpr_to_topic-visible :
    (k scope t : Str) → keyexpr_to_topic k scope ≡ some t → starts_with_at t ≡ false
unfolding keyexpr_to_topic unscoped_to_topic
keyexpr_to_topic-visible k scope t h = ground arith
