-- ===== src/Topic/RoundTrip.antt =====
-- What goes out under a key expression comes back as the topic that was published.
use entmoot.Common.{
  ◌≡◌, refl, false, some, [], ◌∷◌, Str, ok, slash, strip_prefix, strip_prefix-append, arith,
}
use entmoot.Topic.{
  topic_to_keyexpr, keyexpr_to_topic, strip_scope, scoped, starts_with_at, unscoped_to_topic,
}
use entmoot.Topic.Levels.{topic_to_keyexpr_iff, starts_with_at-IsTopic}

-- Stripping a scope undoes prefixing it, whatever stands behind it.
pub strip_scope-scoped : (ke scope : Str) → strip_scope (scoped scope ke) scope ≡ some ke
unfolding strip_scope scoped
strip_scope-scoped ke [] = refl
strip_scope-scoped ke (x ∷ s) =
    rw (strip_prefix-append (x ∷ s) (slash ∷ ke)) (strip_prefix-append (slash ∷ []) ke)

pub scoped-injective : (ke le scope : Str) → scoped scope ke ≡ scoped scope le → ke ≡ le
scoped-injective ke le scope e = cc (e, strip_scope-scoped ke scope, strip_scope-scoped le scope)

unscoped_plain : (t : Str) → starts_with_at t ≡ false → unscoped_to_topic t ≡ some t
unfolding unscoped_to_topic strip_prefix
unscoped_plain [] h = refl
unscoped_plain (x ∷ s) h = ground arith

-- A published topic comes back from its key expression, under every scope.
pub keyexpr_to_topic-topic_to_keyexpr :
    (t scope k : Str) → topic_to_keyexpr t scope ≡ ok k → keyexpr_to_topic k scope ≡ some t
unfolding keyexpr_to_topic
keyexpr_to_topic-topic_to_keyexpr t scope k h =
    let (n, e) = (topic_to_keyexpr_iff t scope k).0 h in
    rw (e, strip_scope-scoped t scope) (unscoped_plain t (starts_with_at-IsTopic t n))
