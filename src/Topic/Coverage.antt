-- ===== src/Topic/Coverage.antt =====
-- `filter_covers`, by which ACLs grant subscriptions, against `topic_matches`.
use entmoot.Common.{
  ◌≡◌, refl, sym, ◌∙◌, true, false, List, [], ◌∷◌, Str, slash, split, str_eq, str_eq_iff,
  str_eq_refl, All, arith,
}
use entmoot.Topic.{topic_matches, filter_covers, covers_levels, plus_level, hash_level}
use entmoot.Topic.Matching.{matches_levels, topic_matches-eq-levels}

covers_levels_sound :
    (o i t : List Str)
    → covers_levels o i ≡ true
    → matches_levels i t ≡ true
    → matches_levels o t ≡ true
unfolding covers_levels matches_levels
covers_levels_sound [] [] t h m = m
covers_levels_sound [] (x ∷ i) t h m = cc
covers_levels_sound (l ∷ o) [] [] h m = h
covers_levels_sound (l ∷ o) [] (y ∷ t) h m = cc
covers_levels_sound (l ∷ o) (x ∷ i) [] h m =
    ground (arith, str_eq_iff l x, str_eq_iff x hash_level, str_eq_iff l hash_level)
covers_levels_sound (l ∷ o) (x ∷ i) (y ∷ t) h m = ground (
  arith,
  str_eq_iff l x,
  str_eq_iff x hash_level,
  str_eq_iff l hash_level,
  str_eq_iff l plus_level,
  covers_levels_sound o i t,
)

-- A granted filter matches every topic that a filter it covers matches.
pub filter_covers_sound :
    (outer inner t : Str)
    → filter_covers outer inner ≡ true
    → topic_matches inner t ≡ true
    → topic_matches outer t ≡ true
unfolding filter_covers
filter_covers_sound outer inner t h m =
    topic_matches-eq-levels outer t
    ∙ covers_levels_sound _ _ _ h (sym (topic_matches-eq-levels inner t) ∙ m)

covers_levels_refl : (o : List Str) → covers_levels o o ≡ true
unfolding covers_levels
covers_levels_refl [] = refl
covers_levels_refl (l ∷ o) = ground (arith, covers_levels_refl o, str_eq_refl l)

covers_levels_trans :
    (a b c : List Str)
    → covers_levels a b ≡ true
    → covers_levels b c ≡ true
    → covers_levels a c ≡ true
unfolding covers_levels
covers_levels_trans [] [] c h k = k
covers_levels_trans [] (y ∷ b) c h k = cc
covers_levels_trans (x ∷ a) [] [] h k = h
covers_levels_trans (x ∷ a) [] (z ∷ c) h k = cc
covers_levels_trans (x ∷ a) (y ∷ b) [] h k =
    ground (arith, str_eq_iff x y, str_eq_iff y hash_level, str_eq_iff x hash_level)
covers_levels_trans (x ∷ a) (y ∷ b) (z ∷ c) h k = ground (
  arith,
  covers_levels_trans a b c,
  str_eq_iff x y,
  str_eq_iff y z,
  str_eq_iff x z,
  str_eq_iff x hash_level,
  str_eq_iff y hash_level,
  str_eq_iff z hash_level,
  str_eq_iff x plus_level,
  str_eq_iff y plus_level,
)

-- Coverage orders the filters: every filter covers itself, and coverage chains.
pub filter_covers_preorder :
    (a b c : Str)
    → filter_covers a b ≡ true
    → filter_covers b c ≡ true
    → (filter_covers a a ≡ true) × (filter_covers a c ≡ true)
unfolding filter_covers
filter_covers_preorder a b c h k =
    (covers_levels_refl _, covers_levels_trans (split slash a) (split slash b) (split slash c) h k)

-- A level that is no wildcard.
abbrev pub IsConcrete : Str → Type 0
IsConcrete l = (str_eq l hash_level ≡ false) × (str_eq l plus_level ≡ false)

covers_levels-concrete :
    (o t : List Str) → All IsConcrete t → covers_levels o t ≡ matches_levels o t
unfolding covers_levels matches_levels
covers_levels-concrete [] [] h = refl
covers_levels-concrete [] (x ∷ t) h = refl
covers_levels-concrete (l ∷ o) [] h = refl
covers_levels-concrete (l ∷ o) (x ∷ t) h =
    ground (arith, covers_levels-concrete o t h.1, str_eq_iff l x, str_eq_iff x l)

-- On a topic without wildcards, to cover it as a filter and to match it are one test.
pub filter_covers-concrete :
    (outer t : Str) → All IsConcrete (split slash t) → filter_covers outer t ≡ topic_matches outer t
unfolding filter_covers
filter_covers-concrete outer t h =
    covers_levels-concrete _ _ h ∙ sym (topic_matches-eq-levels outer t)
