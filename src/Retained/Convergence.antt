-- ===== src/Retained/Convergence.antt =====
-- Replicas that hear the same changes: what a node holds does not depend on the order in which
-- changes of different topics reach it, nor on how its map and its cache stand.
use mathlib.Core.Quot
use mathlib.Core.Quot.{Quot, Quot-set}
use entmoot.Common.{
  ◌≡◌, ◌≢◌, refl, sym, ap, ◌∙◌, Option, none, some, List, [], ◌∷◌, Bytes, Str, str_eq, str_eq_iff,
  arith, if◌then◌else◌, Bool-cases, Option-cases, inl, inr,
}
use entmoot.Common.Dict
use entmoot.Common.Dict.{get-insert, get-remove}
use entmoot.Topic.{retained_keyexpr_to_topic}
use entmoot.Retained.{
  MatchCache, SystemTime, RetainedStore, Entries, insert, remove, apply_sample, decode_envelope,
}

-- A sample as the bus delivers it: its key, and the payload of a put.
abbrev pub Heard : Type 0
Heard = Str × Option Bytes

abbrev Value : Type 0
Value = Option (Bytes × SystemTime)

-- Two maps that hold the same value for each topic.
abbrev pub SameValues : Entries → Entries → Type 0
SameValues d e = (j : Str) → Dict.get j d ≡ Dict.get j e

-- What a node holds, whatever the order of its entries.
abbrev pub View : Type 0
View = Quot SameValues

-- Which topic a sample changes, and to what.
effect : Str → Heard → Option (Str × Value)
effect scope (ke, sample) = elim (retained_keyexpr_to_topic ke scope) [
  | none ↦ none
  | some t ↦ elim sample [
    | none ↦ some (t, none)
    | some raw ↦ elim (decode_envelope raw) [ none ↦ none | some v ↦ some (t, some v) ]
  ]
]

-- Not of the same topic.
unfoldable pub AreApart : Str → Heard → Heard → Type 0
AreApart scope a b =
    (t : Str)
    → retained_keyexpr_to_topic a.0 scope ≡ some t
    → retained_keyexpr_to_topic b.0 scope ≢ some t

-- The same samples, those of each topic in the same order.
pub data Reorders (scope : Str) : List Heard → List Heard → Type 0 where
  same : (log : List Heard) → Reorders scope log log
  swap :
      (a b : Heard) (log : List Heard)
      → AreApart scope a b
      → Reorders scope (a ∷ b ∷ log) (b ∷ a ∷ log)
  later :
      (a : Heard) {log log' : List Heard}
      → Reorders scope log log'
      → Reorders scope (a ∷ log) (a ∷ log')
  both :
      {log log' log'' : List Heard}
      → Reorders scope log log'
      → Reorders scope log' log''
      → Reorders scope log log''

-- The value at a topic after an effect.
overwrite : Option (Str × Value) → Str → Value → Value
overwrite none j v = v
overwrite (some (t, w)) j v = if str_eq t j then w else v

Value_set : IsSet Value
Value_set = hlevel

module _ (mc : MatchCache) (scope : Str) where
  -- The live replication of `wire`, over the samples that its subscriber receives.
  unfoldable pub replication : List Heard → RetainedStore mc → RetainedStore mc
  replication [] s = s
  replication ((ke, sample) ∷ log) s = replication log (apply_sample mc scope ke sample s)

  unfoldable pub view : RetainedStore mc → View
  view s = Quot.mk s.entries

  get-apply_sample :
      (a : Heard) (j : Str) (s : RetainedStore mc)
      → Dict.get j (apply_sample mc scope a.0 a.1 s).entries
        ≡ overwrite (effect scope a) j (Dict.get j s.entries)
  unfolding apply_sample effect overwrite insert remove
  get-apply_sample (ke, none) j s = elim (Option-cases (retained_keyexpr_to_topic ke scope)) [
    | inl e ↦ rw (e, apply_sample, effect) refl
    | inr (t, e) ↦ rw (e, apply_sample, effect) (get-remove t j s.entries)
  ]
  get-apply_sample (ke, some raw) j s = elim (Option-cases (retained_keyexpr_to_topic ke scope)) [
    | inl e ↦ rw (e, apply_sample, effect) refl
    | inr (t, e) ↦ elim (Option-cases (decode_envelope raw)) [
      | inl d ↦ rw (e, d, apply_sample, effect) refl
      | inr (v, d) ↦ rw (e, d, apply_sample, effect) (get-insert t j v s.entries)
    ]
  ]

  effect-topic :
      (a : Heard) (t : Str) (w : Value)
      → effect scope a ≡ some (t, w)
      → retained_keyexpr_to_topic a.0 scope ≡ some t
  unfolding effect
  effect-topic (ke, none) t w h = ground arith
  effect-topic (ke, some raw) t w h = ground arith

  apart_comm :
      (t u j : Str) (w x v : Value)
      → t ≢ u
      → overwrite (some (t, w)) j (overwrite (some (u, x)) j v)
        ≡ overwrite (some (u, x)) j (overwrite (some (t, w)) j v)
  unfolding overwrite
  apart_comm t u j w x v ne = elim (Bool-cases (str_eq t j)) [
    | inr e ↦ rw e refl
    | inl e ↦ elim (Bool-cases (str_eq u j)) [
      | inr f ↦ rw (e, f) refl
      | inl f ↦ absurd (ne ((str_eq_iff t j).0 e ∙ sym ((str_eq_iff u j).0 f)))
    ]
  ]

  overwrite_comm :
      (a b : Heard) (j : Str) (v : Value)
      → AreApart scope a b
      → overwrite (effect scope a) j (overwrite (effect scope b) j v)
        ≡ overwrite (effect scope b) j (overwrite (effect scope a) j v)
  unfolding overwrite AreApart
  overwrite_comm a b j v h = elim (Option-cases (effect scope a)) [
    | inl e ↦ rw e refl
    | inr ((t, w), e) ↦ elim (Option-cases (effect scope b)) [
      | inl f ↦ rw (e, f) refl
      | inr ((u, x), f) ↦
          rw (e, f)
            (apart_comm t u j w x v
              (λ q. h t (effect-topic a t w e) (effect-topic b u x f ∙ ap some (sym q))))
    ]
  ]

  apply_sample-SameValues :
      (a : Heard) (s s' : RetainedStore mc)
      → SameValues s.entries s'.entries
      → SameValues
          (apply_sample mc scope a.0 a.1 s).entries
          (apply_sample mc scope a.0 a.1 s').entries
  apply_sample-SameValues a s s' h j =
      get-apply_sample a j s
      ∙ ap (overwrite (effect scope a) j) (h j)
      ∙ sym (get-apply_sample a j s')

  replication-SameValues :
      (log : List Heard) (s s' : RetainedStore mc)
      → SameValues s.entries s'.entries
      → SameValues (replication log s).entries (replication log s').entries
  unfolding replication
  replication-SameValues [] s s' h = h
  replication-SameValues (a ∷ log) s s' h =
      replication-SameValues log (apply_sample mc scope a.0 a.1 s)
        (apply_sample mc scope a.0 a.1 s') (apply_sample-SameValues a s s' h)

  Reorders-SameValues :
      (log log' : List Heard) (s s' : RetainedStore mc)
      → Reorders scope log log'
      → SameValues s.entries s'.entries
      → SameValues (replication log s).entries (replication log' s').entries
  unfolding replication
  Reorders-SameValues log _ s s' (same _) h = replication-SameValues log s s' h
  Reorders-SameValues _ _ s s' (later a r) h =
      Reorders-SameValues _ _ (apply_sample mc scope a.0 a.1 s) (apply_sample mc scope a.0 a.1 s') r
        (apply_sample-SameValues a s s' h)
  Reorders-SameValues _ _ s s' (both p q) h =
      λ j. Reorders-SameValues _ _ s s p (λ i. refl) j ∙ Reorders-SameValues _ _ s s' q h j
  Reorders-SameValues _ _ s s' (swap a b log apart) h =
      replication-SameValues log (apply_sample mc scope b.0 b.1 (apply_sample mc scope a.0 a.1 s))
        (apply_sample mc scope a.0 a.1 (apply_sample mc scope b.0 b.1 s'))
        (λ j.
          get-apply_sample b j (apply_sample mc scope a.0 a.1 s)
          ∙ ap (overwrite (effect scope b) j)
              (get-apply_sample a j s ∙ ap (overwrite (effect scope a) j) (h j))
          ∙ sym (overwrite_comm a b j (Dict.get j s'.entries) apart)
          ∙ ap (overwrite (effect scope a) j) (sym (get-apply_sample b j s'))
          ∙ sym (get-apply_sample a j (apply_sample mc scope b.0 b.1 s')))

  -- The value at a topic is a function of the view.
  value_at : Str → View → Value
  value_at j = Quot.lift Value_set (Dict.get j) (λ d e h. h j)

  view-SameValues : (s s' : RetainedStore mc) → view s ≡ view s' → SameValues s.entries s'.entries
  unfolding view value_at
  view-SameValues s s' h j = ap (value_at j) h

  -- Two nodes that hold the same and hear the same changes, those of each topic in the same order,
  -- still hold the same, however the changes of different topics are interleaved for each, and
  -- whatever their maps and caches look like.
  pub replication-Reorders :
      (log log' : List Heard) (s s' : RetainedStore mc)
      → Reorders scope log log'
      → view s ≡ view s'
      → view (replication log s) ≡ view (replication log' s')
  unfolding view
  replication-Reorders log log' s s' r h =
      Quot.sound (Reorders-SameValues log log' s s' r (view-SameValues s s' h))
