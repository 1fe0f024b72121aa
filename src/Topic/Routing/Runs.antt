-- ===== src/Topic/Routing/Runs.antt =====
-- A matching that keeps the rules of the bus, and the theorems about routing under it.
use entmoot.Common.{
  ◌≡◌, refl, Bool, true, false, not, ◌&&◌, ◌||◌, List, [], ◌∷◌, Str, codes, slash, split, join,
  str_eq, if◌then◌else◌, arith,
}
use entmoot.Topic.{
  topic_to_keyexpr, filter_to_keyexpr, filter_chunk, filter_chunks, topic_matches, scoped, levels,
  check_level_chars, check_topic_levels, starts_with_at, sys_prefix, meta_prefix, under,
  sys_keyexpr, meta_keyexpr, retained_keyexpr,
}
use entmoot.Topic.Chunks.{IsLiteral, star, stars, IsLiteral-of_any}
use entmoot.Topic.Routing.{IsMatching, routes}
use entmoot.Topic.Routing.Internal.{first_level, routes_internal}

pub meet : List Str → List Str → Bool
meet [] [] = true
meet [] (x ∷ t) = false
meet (c ∷ f) [] = str_eq c stars && meet f []
meet (c ∷ f) (x ∷ t) =
    let none_taken = meet f (x ∷ t) in
    let more = meet (c ∷ f) t in
    let rest = meet f t in
    if str_eq c stars
    then none_taken || (not (starts_with_at x) && more)
    else if str_eq c star
    then not (starts_with_at x) && rest
    else str_eq x c && rest

literal-ne : (c : Str) → IsLiteral c → (str_eq c stars ≡ false) × (str_eq c star ≡ false)
unfolding str_eq
literal-ne [] n = absurd (n.nonempty refl)
literal-ne (b ∷ c) n = let a = n.plain.0.0 in ground arith

pub meet-IsMatching : IsMatching meet
unfolding meet str_eq
meet-IsMatching = record {
  ends = refl;
  longer = λ x t. refl;
  literal = λ c x f t lc lx. let (p, q) = literal-ne c lc in rw (p, q);
  literal_ends = λ c f lc. rw (literal-ne c lc).0;
  star_one = λ x f t lx. refl;
  star_ends = λ f. refl;
  stars_more = λ x t lx. refl;
  stars_ends = refl;
}

routes_example :
    meet (split slash (codes "mesh/plant/*/**")) (split slash (codes "mesh/plant/kiln1/temp"))
    ≡ topic_matches (codes "plant/+/#") (codes "plant/kiln1/temp")
unfolding filter_to_keyexpr topic_to_keyexpr levels filter_chunks filter_chunk check_topic_levels
    check_level_chars scoped split join str_eq
routes_example =
    routes meet meet-IsMatching (codes "plant/+/#") (codes "plant/kiln1/temp") (codes "mesh") _ _
      refl refl (IsLiteral-of_any (codes "mesh") refl refl, tt)

routes_internal_example :
    (meet
        (split slash (codes "@sys/broker/**"))
        (split slash (sys_keyexpr (codes "broker/n1/version") []))
      ≡ (str_eq (first_level (codes "$SYS/broker/#")) sys_prefix
          && topic_matches (codes "$SYS/broker/#") (under sys_prefix (codes "broker/n1/version"))))
    × (meet
          (split slash (codes "@sys/broker/**"))
          (split slash (meta_keyexpr (codes "broker/n1/version") []))
        ≡ (str_eq (first_level (codes "$SYS/broker/#")) meta_prefix
            && topic_matches
                (codes "$SYS/broker/#")
                (under meta_prefix (codes "broker/n1/version"))))
    × (meet (split slash (codes "@sys/broker/**")) (split slash (retained_keyexpr (codes "a") []))
        ≡ false)
unfolding filter_to_keyexpr levels filter_chunks filter_chunk check_level_chars scoped split join
    str_eq
routes_internal_example =
    routes_internal meet meet-IsMatching (codes "$SYS/broker/#") (codes "broker/n1/version")
      (codes "a") [] _ refl
      (
        record { literal = IsLiteral-of_any (codes "broker") refl refl; visible = refl },
        (
          record { literal = IsLiteral-of_any (codes "n1") refl refl; visible = refl },
          (record { literal = IsLiteral-of_any (codes "version") refl refl; visible = refl }, tt),
        ),
      )
      tt

-- A wildcard in front does not reach the stats, and `#` at the end reaches its parent.
routes_cases :
    (meet (codes "**" ∷ []) (split slash (sys_keyexpr (codes "broker/n1/version") [])) ≡ false)
    × (meet (split slash (codes "a/**")) (split slash (codes "a")) ≡ true)
    × (meet (split slash (codes "*/b/**")) (split slash (codes "a/b/c/d")) ≡ true)
unfolding meet sys_keyexpr scoped split str_eq
routes_cases = (refl, refl, refl)
