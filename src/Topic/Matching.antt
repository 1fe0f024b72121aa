-- ===== src/Topic/Matching.antt =====
-- `topic_matches` against the rules of MQTT, stated as a relation.
use entmoot.Common.{
  ℕ, zero, suc, ◌+◌, ◌≤◌, ◌<◌, ◌≡◌, refl, sym, ◌∙◌, Bool, true, false, none, some, List, [], ◌∷◌,
  Str, slash, split, str_eq, str_eq_iff, length, drop, get_elem?, arith, if◌then◌else◌, Bool-cases,
  inl, inr, ◌⊎◌, ◌==◌, ◌||◌, ok, any, is_empty,
}
use entmoot.Topic.Chunks.{
  Chunk, sys, meta, any_one, any_rest, itself, filter_chunk-Chunk, filter_chunks-eq-ok,
  filter_to_keyexpr-chunks, whole,
}
use entmoot.Topic.{
  topic_matches, filter_to_keyexpr, filter_chunks, matches_from, plus_level, hash_level,
}

-- A filter, as its levels, against a topic: a last `#` matches whatever is left, also nothing, `+`
-- one level, and any other level itself.
pub data Matches : List Str → List Str → Type 0 where
  done : Matches [] []
  rest : {l : Str} {t : List Str} → l ≡ hash_level → Matches (l ∷ []) t
  one : {l x : Str} {f t : List Str} → l ≡ plus_level → Matches f t → Matches (l ∷ f) (x ∷ t)
  same : {l x : Str} {f t : List Str} → x ≡ l → Matches f t → Matches (l ∷ f) (x ∷ t)

abbrev pub is_dollar : Str → Bool
is_dollar [] = false
is_dollar (b ∷ t) = b == b'$'

abbrev pub begins_wild : List Str → Bool
begins_wild [] = false
begins_wild (l ∷ f) = str_eq l hash_level || str_eq l plus_level

-- MQTT 3.1.1, section 4.7: the levels match, and a wildcard in front matches no topic that begins
-- with `$`.
pub record IsMatch (filter t : Str) : Type 0 where
  pub by_levels : Matches (split slash filter) (split slash t)
  pub outside : is_dollar t ≡ true → begins_wild (split slash filter) ≡ false

-- The structural reading of the indexed loop.
unfoldable pub matches_levels : List Str → List Str → Bool
matches_levels [] [] = true
matches_levels [] (x ∷ t) = false
matches_levels (l ∷ f) [] = str_eq l hash_level
matches_levels (l ∷ f) (x ∷ t) =
    let more = matches_levels f t in
    if str_eq l hash_level
    then true
    else if str_eq l plus_level
    then more
    else if str_eq x l
    then more
    else false

get_elem?-drop-none :
    (i : ℕ) (t : List Str) → drop i t ≡ [] → (get_elem? t i ≡ none) × (length t ≤ i)
get_elem?-drop-none zero [] h = (refl, omega arith)
get_elem?-drop-none zero (x ∷ t) h = cc
get_elem?-drop-none (suc i) [] h = (refl, omega arith)
get_elem?-drop-none (suc i) (x ∷ t) h = let (p, q) = get_elem?-drop-none i t h in (p, omega arith)

get_elem?-drop-some :
    (i : ℕ) (t : List Str) (x : Str) (r : List Str)
    → drop i t ≡ x ∷ r
    → (get_elem? t i ≡ some x) × (drop (suc i) t ≡ r) × (i < length t)
get_elem?-drop-some zero [] x r h = cc
get_elem?-drop-some zero (y ∷ t) x r h = (ground arith, ground arith, omega arith)
get_elem?-drop-some (suc i) [] x r h = cc
get_elem?-drop-some (suc i) (y ∷ t) x r h =
    let (p, q, s) = get_elem?-drop-some i t x r h in (p, q, omega arith)

drop-length : (i : ℕ) (t : List Str) → i ≤ length t → (i + length (drop i t)) ≡ length t
drop-length zero t h = omega arith
drop-length (suc i) [] h = absurd (omega arith)
drop-length (suc i) (x ∷ t) h = omega (arith, drop-length i t)

pub matches_from-eq-matches_levels :
    (i n : ℕ) (f t r : List Str)
    → drop i t ≡ r
    → i ≤ length t
    → n ≡ i + length f
    → matches_from i n f t ≡ matches_levels f r
unfolding matches_from matches_levels
matches_from-eq-matches_levels i n [] t [] e h c = ground (arith, get_elem?-drop-none i t e)
matches_from-eq-matches_levels i n [] t (x ∷ r) e h c =
    ground (arith, get_elem?-drop-some i t x r e)
matches_from-eq-matches_levels i n (l ∷ f) t [] e h c = ground (arith, get_elem?-drop-none i t e)
matches_from-eq-matches_levels i n (l ∷ f) t (x ∷ r) e h c =
    let (p, q, s) = get_elem?-drop-some i t x r e in
    ground
      (arith, p, s, matches_from-eq-matches_levels (suc i) n f t r q (omega arith) (omega arith))

pub topic_matches-eq-levels :
    (filter t : Str) → topic_matches filter t ≡ matches_levels (split slash filter) (split slash t)
unfolding topic_matches
topic_matches-eq-levels filter t =
    matches_from-eq-matches_levels 0 _ (split slash filter) (split slash t) (split slash t) refl
      (omega arith) (omega arith)

-- `#` stands last only.
abbrev IsHashLast : List Str → Type 0
IsHashLast [] = Unit {0}
IsHashLast (l ∷ []) = Unit {0}
IsHashLast (l ∷ m ∷ f) = (str_eq l hash_level ≡ false) × IsHashLast (m ∷ f)

Chunk-inner : (i last : ℕ) (l c : Str) → i < last → Chunk i last l c → str_eq l hash_level ≡ false
unfolding str_eq
Chunk-inner i last l c h (sys z e d) = rw e refl
Chunk-inner i last l c h (meta z e d) = rw e refl
Chunk-inner i last l c h (any_one e d) = rw e refl
Chunk-inner i last l c h (any_rest e d z) = absurd (omega arith)
Chunk-inner i last l c h (itself e v p q) = q

filter_chunks-IsHashLast :
    (i last : ℕ) (ls out : List Str)
    → any is_empty ls ≡ false
    → filter_chunks i last ls ≡ ok out
    → i + length ls ≡ suc last
    → IsHashLast ls
filter_chunks-IsHashLast i last [] out n h e = tt
filter_chunks-IsHashLast i last (l ∷ []) out n h e = tt
filter_chunks-IsHashLast i last (l ∷ m ∷ ls) out n h e =
    let (c, f, p, q, z) = filter_chunks-eq-ok i last l (m ∷ ls) out h in
    (
      Chunk-inner i last l c (omega arith) (filter_chunk-Chunk i last l c (ground arith) p),
      filter_chunks-IsHashLast (suc i) last (m ∷ ls) f (ground arith) q (omega arith),
    )

later : (l : Str) (f : List Str) → IsHashLast (l ∷ f) → IsHashLast f
later l [] h = tt
later l (m ∷ f) h = h.1

hash-rest :
    (l : Str) (f t : List Str) → IsHashLast (l ∷ f) → str_eq l hash_level ≡ true → Matches (l ∷ f) t
hash-rest l [] t h e = rest ((str_eq_iff l hash_level).0 e)
hash-rest l (m ∷ f) t h e = cc (h.0, e)

matches_levels-sound : (f t : List Str) → IsHashLast f → matches_levels f t ≡ true → Matches f t
unfolding matches_levels
matches_levels-sound [] [] v h = done
matches_levels-sound [] (x ∷ t) v h = cc
matches_levels-sound (l ∷ f) [] v h = hash-rest l f [] v h
matches_levels-sound (l ∷ f) (x ∷ t) v h = elim (Bool-cases (str_eq l hash_level)) [
  | inl e ↦ hash-rest l f (x ∷ t) v e
  | inr e ↦ elim (Bool-cases (str_eq l plus_level)) [
    | inl p ↦
        one ((str_eq_iff l plus_level).0 p) (matches_levels-sound f t (later l f v) (ground arith))
    | inr p ↦ elim (Bool-cases (str_eq x l)) [
      | inl q ↦ same ((str_eq_iff x l).0 q) (matches_levels-sound f t (later l f v) (ground arith))
      | inr q ↦ ground arith
    ]
  ]
]

matches_levels_complete : (f t : List Str) → Matches f t → matches_levels f t ≡ true
unfolding matches_levels
matches_levels_complete _ _ done = refl
matches_levels_complete (l ∷ f) [] (rest e) = (str_eq_iff l hash_level).1 e
matches_levels_complete (l ∷ f) (x ∷ t) (rest e) = rw ((str_eq_iff l hash_level).1 e)
matches_levels_complete (l ∷ f) (x ∷ t) (one e m) =
    ground (arith, str_eq_iff l plus_level, matches_levels_complete f t m)
matches_levels_complete (l ∷ f) (x ∷ t) (same e m) =
    ground (arith, str_eq_iff x l, matches_levels_complete f t m)

-- For a filter that is accepted, `topic_matches` finds every match of MQTT. What it finds beyond is
-- a topic that begins with `$` under a filter that begins with a wildcard.
pub topic_matches_iff :
    (filter t scope ke : Str)
    → filter_to_keyexpr filter scope ≡ ok ke
    → (IsMatch filter t → topic_matches filter t ≡ true)
      × (topic_matches filter t ≡ true
          → IsMatch filter t
            ⊎ ((is_dollar t ≡ true)
                × (begins_wild (split slash filter) ≡ true)
                × Matches (split slash filter) (split slash t)))
topic_matches_iff filter t scope ke h = (
  (λ m. topic_matches-eq-levels filter t ∙ matches_levels_complete _ _ m.by_levels),
  (λ m. found (matches_levels-sound _ _ valid (sym (topic_matches-eq-levels filter t) ∙ m))),
)
  where
    valid : IsHashLast (split slash filter)
    valid =
        let (out, p, q, n) = filter_to_keyexpr-chunks filter scope ke h in
        filter_chunks-IsHashLast 0 _ (split slash filter) out n q (whole filter)

    found :
        Matches (split slash filter) (split slash t)
        → IsMatch filter t
          ⊎ ((is_dollar t ≡ true)
              × (begins_wild (split slash filter) ≡ true)
              × Matches (split slash filter) (split slash t))
    found m = elim (Bool-cases (begins_wild (split slash filter))) [
      | inr w ↦ inl (record { by_levels = m; outside = λ r. w })
      | inl w ↦ elim (Bool-cases (is_dollar t)) [
        | inl r ↦ inr (r, w, m)
        | inr r ↦ inl (record { by_levels = m; outside = λ z. cc (z, r) })
      ]
    ]
