-- ===== src/Topic/Runs.antt =====
-- The unit tests of topic.rs, and the theorems about topics at concrete inputs.
use entmoot.Common.{
  ◌≡◌, ◌≢◌, ◌⊎◌, ◌↔◌, slash, refl, true, false, none, some, ok, err, codes, split, str_eq,
  strip_prefix, join, [],
}
use entmoot.Topic.{
  empty, empty_level, hash_not_last, wildcard_in_topic, reserved_char, partial_wildcard, levels,
  check_level_chars, check_topic_levels, filter_chunk, filter_chunks, scoped, topic_to_keyexpr,
  filter_to_keyexpr, keyexpr_to_topic, strip_scope, topic_matches, matches_from, filter_covers,
  covers_levels, retained_keyexpr, retained_keyexpr_to_topic, sys_keyexpr, meta_keyexpr,
}
use entmoot.Topic.Levels.{IsTopic, topic_to_keyexpr_iff}
use entmoot.Topic.RoundTrip.{keyexpr_to_topic-topic_to_keyexpr}
use entmoot.Topic.Matching.{Matches, IsMatch, is_dollar, begins_wild, topic_matches_iff}
use entmoot.Topic.Coverage.{filter_covers_sound}
use entmoot.Topic.Keyspaces.{topic_to_keyexpr-unforgeable, filter_to_keyexpr-unobservable}

plain_topics :
    (topic_to_keyexpr (codes "plant/kiln1/temp") [] ≡ ok (codes "plant/kiln1/temp"))
    × (topic_to_keyexpr (codes "a/b") (codes "entmoot") ≡ ok (codes "entmoot/a/b"))
unfolding topic_to_keyexpr levels check_topic_levels check_level_chars scoped split join
plain_topics = (refl, refl)

wildcards_translate :
    (filter_to_keyexpr (codes "plant/+/temp") [] ≡ ok (codes "plant/*/temp"))
    × (filter_to_keyexpr (codes "plant/#") [] ≡ ok (codes "plant/**"))
    × (filter_to_keyexpr (codes "$SYS/broker/+/uptime") (codes "s")
        ≡ ok (codes "s/@sys/broker/*/uptime"))
unfolding filter_to_keyexpr levels filter_chunks filter_chunk check_level_chars scoped split join
    str_eq
wildcards_translate = (refl, refl, refl)

invalid_shapes :
    (topic_to_keyexpr [] [] ≡ err empty)
    × (topic_to_keyexpr (codes "a//b") [] ≡ err empty_level)
    × (topic_to_keyexpr (codes "a/+/b") [] ≡ err (wildcard_in_topic b'+'))
    × (topic_to_keyexpr (codes "$SYS/x") [] ≡ err (reserved_char b'$'))
    × (topic_to_keyexpr (codes "a/@retained/b") [] ≡ err (reserved_char b'@'))
    × (filter_to_keyexpr (codes "a/#/b") [] ≡ err hash_not_last)
    × (filter_to_keyexpr (codes "a/b+/c") [] ≡ err (partial_wildcard (codes "b+")))
    × (filter_to_keyexpr (codes "a/$SYS/#") [] ≡ err (reserved_char b'$'))
unfolding topic_to_keyexpr filter_to_keyexpr levels check_topic_levels filter_chunks filter_chunk
    check_level_chars scoped split join str_eq
invalid_shapes = (refl, refl, refl, refl, refl, refl, refl, refl)

matching_cases :
    (topic_matches (codes "plant/+/temp") (codes "plant/kiln1/temp") ≡ true)
    × (topic_matches (codes "plant/#") (codes "plant") ≡ true)
    × (topic_matches (codes "plant/+") (codes "plant/kiln1/temp") ≡ false)
    × (topic_matches (codes "+") (codes "a/b") ≡ false)
unfolding topic_matches matches_from split str_eq
matching_cases = (refl, refl, refl, refl)

coverage :
    (filter_covers (codes "plant/#") (codes "plant/+/temp") ≡ true)
    × (filter_covers (codes "plant/#") (codes "plant") ≡ true)
    × (filter_covers (codes "plant/+") (codes "plant/#") ≡ false)
    × (filter_covers (codes "a/b") (codes "a/b/c") ≡ false)
unfolding filter_covers covers_levels split str_eq
coverage = (refl, refl, refl, refl)

sys_keyspace :
    (keyexpr_to_topic (codes "s/@sys/broker/n1/uptime") (codes "s")
      ≡ some (codes "$SYS/broker/n1/uptime"))
    × (keyexpr_to_topic (codes "s/@sys") (codes "s") ≡ none)
    × (retained_keyexpr_to_topic (codes "s/@retained/a/b") (codes "s") ≡ some (codes "a/b"))
    × (keyexpr_to_topic (codes "s/@retained/a/b") (codes "s") ≡ none)
unfolding keyexpr_to_topic retained_keyexpr_to_topic strip_scope strip_prefix
sys_keyspace = (refl, refl, refl, refl)

covered_topic : topic_matches (codes "a/#") (codes "a/b/c") ≡ true
unfolding topic_matches matches_from filter_covers covers_levels split str_eq
covered_topic = filter_covers_sound (codes "a/#") (codes "a/+/c") (codes "a/b/c") refl refl

topic_matches_iff_example :
    (IsMatch (codes "a/#") (codes "a") → topic_matches (codes "a/#") (codes "a") ≡ true)
    × (topic_matches (codes "a/#") (codes "a") ≡ true
        → IsMatch (codes "a/#") (codes "a")
          ⊎ ((is_dollar (codes "a") ≡ true)
              × (begins_wild (split slash (codes "a/#")) ≡ true)
              × Matches (split slash (codes "a/#")) (split slash (codes "a"))))
unfolding filter_to_keyexpr levels filter_chunks filter_chunk check_level_chars scoped split join
    str_eq
topic_matches_iff_example =
    topic_matches_iff (codes "a/#") (codes "a") (codes "s") (codes "s/a/**") refl

-- MQTT has no match here.
reserved_topic : topic_matches (codes "#") (codes "$SYS/x") ≡ true
unfolding topic_matches matches_from split str_eq
reserved_topic = refl

surfaces_again : keyexpr_to_topic (codes "s/a/b") (codes "s") ≡ some (codes "a/b")
unfolding topic_to_keyexpr levels check_topic_levels check_level_chars scoped split join
surfaces_again = keyexpr_to_topic-topic_to_keyexpr (codes "a/b") (codes "s") (codes "s/a/b") refl

accepted_in_scope :
    (topic_to_keyexpr (codes "a/b") (codes "s") ≡ ok (codes "s/a/b"))
    ↔ (IsTopic (codes "a/b") × (codes "s/a/b" ≡ scoped (codes "s") (codes "a/b")))
accepted_in_scope = topic_to_keyexpr_iff (codes "a/b") (codes "s") (codes "s/a/b")

topic_to_keyexpr-unforgeable_example :
    (codes "a/b" ≢ retained_keyexpr (codes "b") [])
    × (codes "a/b" ≢ sys_keyexpr (codes "b") [])
    × (codes "a/b" ≢ meta_keyexpr (codes "b") [])
unfolding topic_to_keyexpr levels check_topic_levels check_level_chars scoped split join
topic_to_keyexpr-unforgeable_example =
    topic_to_keyexpr-unforgeable (codes "a/b") (codes "b") [] (codes "a/b") refl

unobservable_filter : retained_keyexpr_to_topic (codes "s/**") (codes "s") ≡ none
unfolding filter_to_keyexpr levels filter_chunks filter_chunk check_level_chars scoped split join
    str_eq
unobservable_filter = filter_to_keyexpr-unobservable (codes "#") (codes "s") (codes "s/**") refl
