-- ===== src/Topic/Levels.antt =====
-- The topics that `topic_to_keyexpr` accepts, described without the code's tests.
use entmoot.Common.{
  ℕ, ◌≡◌, refl, ◌≢◌, ◌↔◌, false, some, List, [], ◌∷◌, Str, ok, >>=-eq-ok, All, any, contains, slash,
  split, split-cons, join-split, is_empty, arith, ◌==◌, get_elem?, Bool-cases, inl, inr,
}
use entmoot.Topic.{
  check_chars, check_level_chars, check_topic_level, check_topic_levels, levels, topic_to_keyexpr,
  scoped, starts_with_at,
}

-- A byte that may stand in a level of a published topic.
abbrev pub IsAllowed : ℕ → Type 0
IsAllowed c = (c ≢ b'+') × (c ≢ b'#') × (c ≢ b'*') × (c ≢ b'$') × (c ≢ b'?')

-- A level of a published topic: not empty, not hidden behind a leading `@`, and without the
-- characters that MQTT or the bus reads as syntax.
pub record IsName (l : Str) : Type 0 where
  pub nonempty : l ≢ []
  pub visible : get_elem? l 0 ≢ some b'@'
  pub allowed : All IsAllowed l

chars-IsAllowed :
    (l : Str)
    → contains b'+' l ≡ false
    → contains b'#' l ≡ false
    → check_chars l ≡ ok tt
    → All IsAllowed l
unfolding check_chars
chars-IsAllowed [] p h c = tt
chars-IsAllowed (x ∷ l) p h c = ground (arith, chars-IsAllowed l)

contains-Allowed :
    (l : Str) → All IsAllowed l → (contains b'+' l ≡ false) × (contains b'#' l ≡ false)
contains-Allowed [] h = (refl, refl)
contains-Allowed (x ∷ l) h = ground (arith, contains-Allowed l)

check_chars-Allowed : (l : Str) → All IsAllowed l → check_chars l ≡ ok tt
unfolding check_chars
check_chars-Allowed [] h = refl
check_chars-Allowed (x ∷ l) h = ground (arith, check_chars-Allowed l)

check_topic_level_sound : (l : Str) → is_empty l ≡ false → check_topic_level l ≡ ok tt → IsName l
unfolding check_topic_level check_level_chars
check_topic_level_sound [] e h = cc
check_topic_level_sound (x ∷ l) e h = record {
  nonempty = λ q. cc;
  visible = λ q. ground arith;
  allowed = ground (arith, chars-IsAllowed (x ∷ l));
}

check_topic_level_complete : (l : Str) → IsName l → check_topic_level l ≡ ok tt
unfolding check_topic_level check_level_chars
check_topic_level_complete [] n = absurd (n.nonempty refl)
check_topic_level_complete (x ∷ l) n =
    ground
      (arith, n.visible, contains-Allowed (x ∷ l) n.allowed, check_chars-Allowed (x ∷ l) n.allowed)

check_topic_levels_sound :
    (ls : List Str) → any is_empty ls ≡ false → check_topic_levels ls ≡ ok tt → All IsName ls
unfolding check_topic_levels
check_topic_levels_sound [] e h = tt
check_topic_levels_sound (l ∷ ls) e h =
    let (t, p, q) = >>=-eq-ok (check_topic_level l) (λ _. check_topic_levels ls) h in
    (check_topic_level_sound l (ground arith) p, check_topic_levels_sound ls (ground arith) q)

check_topic_levels_complete :
    (ls : List Str) → All IsName ls → (any is_empty ls ≡ false) × (check_topic_levels ls ≡ ok tt)
unfolding check_topic_levels
check_topic_levels_complete [] h = (refl, refl)
check_topic_levels_complete ([] ∷ ls) (n, h) = absurd (n.nonempty refl)
check_topic_levels_complete ((x ∷ l) ∷ ls) (n, h) =
    let (p, q) = check_topic_levels_complete ls h in
    (p, rw (check_topic_level_complete (x ∷ l) n) q)

-- A topic is well formed if each of its levels is a name.
abbrev pub IsTopic : Str → Type 0
IsTopic t = All IsName (split slash t)

pub levels-eq-ok :
    (s : Str) (ls : List Str) → levels s ≡ ok ls → (ls ≡ split slash s) × (any is_empty ls ≡ false)
unfolding levels
levels-eq-ok [] ls h = cc
levels-eq-ok (x ∷ s) ls h = ground arith

levels_complete : (s : Str) → any is_empty (split slash s) ≡ false → levels s ≡ ok (split slash s)
unfolding levels
levels_complete [] h = unfold split in cc
levels_complete (x ∷ s) h = rw h

-- `topic_to_keyexpr` succeeds exactly on the topics whose levels are all names, and its result is
-- the topic itself behind the scope.
pub topic_to_keyexpr_iff :
    (t scope k : Str) → (topic_to_keyexpr t scope ≡ ok k) ↔ (IsTopic t × (k ≡ scoped scope t))
unfolding topic_to_keyexpr
topic_to_keyexpr_iff t scope k = (forward, backward)
  where
    forward : topic_to_keyexpr t scope ≡ ok k → IsTopic t × (k ≡ scoped scope t)
    forward h =
        let (ls, p, q) = >>=-eq-ok (levels t) _ h in
        let (u, r, s) = >>=-eq-ok (check_topic_levels ls) _ q in
        let (e, n) = levels-eq-ok t ls p in
        let names = check_topic_levels_sound ls n r in
        (rw (← e) names, cc (s, e, join-split slash t))

    backward : IsTopic t × (k ≡ scoped scope t) → topic_to_keyexpr t scope ≡ ok k
    backward (names, e) =
        let (n, r) = check_topic_levels_complete (split slash t) names in
        rw (levels_complete t n, r, join-split slash t, e)

-- The first byte of a topic is not `@`.
pub starts_with_at-IsTopic : (t : Str) → IsTopic t → starts_with_at t ≡ false
starts_with_at-IsTopic [] n = refl
starts_with_at-IsTopic (x ∷ s) n = elim (Bool-cases (x == slash)) [
  | inl e ↦ ground arith
  | inr e ↦
      let (l, ls, p) = split-cons slash x s e in
      let names : All IsName ((x ∷ l) ∷ ls) = rw p at n in
      let visible = names.0.visible in ground arith
]
