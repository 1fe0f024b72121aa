-- ===== src/Auth/Grants.antt =====
-- The ACL: what a grant allows.
use entmoot.Common.{
  ℕ, ◌≡◌, refl, sym, ◌∙◌, ◌↔◌, Bool, true, false, ◌&&◌, some, List, [], ◌∷◌, Str, any, any-true,
  any_of_elem, select, get_elem?, arith,
}
use entmoot.Config.{AclRule}
use entmoot.Topic.{topic_matches, filter_covers}
use entmoot.Topic.Coverage.{filter_covers_sound}
use entmoot.Auth.{Acl, applies_to, may_publish, may_subscribe}

-- A rule for the user, and a pattern of it, in the configured lists.
pub record Grant (rules : List AclRule) (user : Str) (patterns : AclRule → List Str)
    (P : Str → Type 0) : Type 0 where
  pub rule : AclRule
  pub rule_at : ℕ
  pub rule_found : get_elem? rules rule_at ≡ some rule
  pub applies : applies_to user rule ≡ true
  pub pattern_at : ℕ
  pub pat : Str
  pub pat_found : get_elem? (patterns rule) pattern_at ≡ some pat
  pub holds : P pat

any-select {ℓ} :
    {A : Type ℓ} (p q : A → Bool) (xs : List A) → any p (select q xs) ≡ any (λ x. q x && p x) xs
any-select p q [] = refl
any-select p q (x ∷ xs) = ground (arith, any-select p q xs)

module _ (rules : List AclRule) (user : Str) (patterns : AclRule → List Str)
    (test : Str → Bool) where
  abbrev both : AclRule → Bool
  both r = applies_to user r && any test (patterns r)

  granted_iff :
      (any (λ r. any test (patterns r)) (select (applies_to user) rules) ≡ true)
      ↔ Grant rules user patterns (λ pat. test pat ≡ true)
  granted_iff = (forward, backward)
    where
      forward :
          any (λ r. any test (patterns r)) (select (applies_to user) rules) ≡ true
          → Grant rules user patterns (λ pat. test pat ≡ true)
      forward h =
          let (i, r, at, ok) =
            any-true both rules
              (sym (any-select (λ r. any test (patterns r)) (applies_to user) rules) ∙ h) in
          let (j, pat, at_pat, holds) = any-true test (patterns r) (ground arith) in
          record {
            rule = r;
            rule_at = i;
            rule_found = at;
            applies = ground arith;
            pattern_at = j;
            pat = pat;
            pat_found = at_pat;
            holds = holds;
          }

      backward :
          Grant rules user patterns (λ pat. test pat ≡ true)
          → any (λ r. any test (patterns r)) (select (applies_to user) rules) ≡ true
      backward g =
          any-select (λ r. any test (patterns r)) (applies_to user) rules
          ∙ any_of_elem both rules g.rule_at g.rule g.rule_found (
              rw (
                g.applies,
                any_of_elem test (patterns g.rule) g.pattern_at g.pat g.pat_found g.holds,
              ))

-- Under `deny`, a publish is permitted exactly if a rule for the user, or for everyone, lists a
-- publish filter that matches the topic.
pub may_publish_iff :
    (acl : Acl) (user t : Str)
    → acl.default_allow ≡ false
    → (may_publish acl user t ≡ true)
      ↔ Grant acl.rules user (λ r. r.publish) (λ pat. topic_matches pat t ≡ true)
unfolding may_publish
may_publish_iff acl user t d =
    rw d (granted_iff acl.rules user (λ r. r.publish) (λ pat. topic_matches pat t))

-- Under `deny`, whatever topic a permitted subscription matches, a subscribe filter granted to the
-- user matches it too: no subscription reads more than was granted.
pub may_subscribe_sound :
    (acl : Acl) (user f t : Str)
    → acl.default_allow ≡ false
    → may_subscribe acl user f ≡ true
    → topic_matches f t ≡ true
    → Grant acl.rules user (λ r. r.subscribe) (λ pat. topic_matches pat t ≡ true)
unfolding may_subscribe
may_subscribe_sound acl user f t d h m =
    let g =
      (granted_iff acl.rules user (λ r. r.subscribe) (λ pat. filter_covers pat f)).0 (rw d at h) in
    record {
      rule = g.rule;
      rule_at = g.rule_at;
      rule_found = g.rule_found;
      applies = g.applies;
      pattern_at = g.pattern_at;
      pat = g.pat;
      pat_found = g.pat_found;
      holds = filter_covers_sound g.pat f t g.holds m;
    }
