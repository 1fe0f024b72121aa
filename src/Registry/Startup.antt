-- ===== src/Registry/Startup.antt =====
-- The restoration of all persistent sessions at startup (`rehydrate` of
-- crates/entmoot-node/src/session.rs).
--
-- The listing of the directory is a parameter: a path for each entry, in any order, or `none` for one
-- that cannot be read.
use entmoot.Common.{
  ℕ, ◌+◌, ◌<◌, ◌≡◌, refl, sym, ap, ◌∙◌, subst, Bool, false, Option, none, some, List, [], ◌∷◌,
  Result, ok, err, Str, codes, slash, drop, length, ◌-◌, is_ok, if◌then◌else◌, str_eq, Bool-cases,
  Result-cases, inl, inr, arith,
}
use entmoot.Common.Dict
use entmoot.Common.Dict.{Dict, get-insert}
use entmoot.Mqtt.{QoS, QosCodec}
use entmoot.Auth.{Acl}
use entmoot.Codec.{ReadError, missing}
use entmoot.Persist.{Disk, load_subs}
use entmoot.Session.{SessionState}
use entmoot.Registry.{Registry, new_registry}
use entmoot.Registry.Rehydration.{rehydrate_one, rehydrate_one_lem, IsRestored}
use entmoot.Registry.Rehydration.Text.{HoldsText, rehydrate_one-HoldsText}

abbrev ends_with : Str → Str → Bool
ends_with p s = str_eq (drop (length s - length p) s) p

-- `path.extension() == Some("subs")`: a file that is named `.subs` has no extension.
has_subs_extension : Str → Bool
has_subs_extension path =
    if ends_with (slash ∷ codes ".subs") path then false else ends_with (codes ".subs") path

module _ (codec : QosCodec) (acl : Acl) (scope : Str) (declares : Str → Bool) where
  -- The loop: how many sessions were restored, or an error after those before it.
  unfoldable pub rehydrate_entries :
      List (Option Str) → ℕ → Registry → Result ℕ ReadError × Registry
  unfolding has_subs_extension
  rehydrate_entries [] restored r = (ok restored, r)
  rehydrate_entries (none ∷ entries) restored r = (err missing, r)
  rehydrate_entries (some path ∷ entries) restored r =
      if has_subs_extension path
      then (let (result, r') = rehydrate_one codec acl scope declares path r in
          rehydrate_entries entries (if is_ok result then restored + 1 else restored) r')
      else rehydrate_entries entries restored r

  -- `listing` is `none` if the directory is not there, or there is none.
  unfoldable pub rehydrate : Option (List (Option Str)) → Registry → Result ℕ ReadError × Registry
  unfolding rehydrate_entries
  rehydrate none r = (ok 0, r)
  rehydrate (some entries) r = rehydrate_entries entries 0 r

  pub rehydrate_one-shape :
      (path client_id identity : Str) (filters : List (Str × QoS)) (r : Registry)
      → load_subs codec r.host.disk path ≡ ok (client_id, identity, filters)
      → let r' = (rehydrate_one codec acl scope declares path r).1 in
        (r'.sessions ≡ Dict.insert client_id r.next_ref r.sessions)
        × (r'.next_ref ≡ r.next_ref + 1)
        × ((ref : ℕ) → ref < r.next_ref → r'.store ref ≡ r.store ref)
  unfolding rehydrate_one
  rehydrate_one-shape path client_id identity filters r e =
      rw (e, rehydrate_one) (refl, refl, λ ref l. ground arith)

  pub rehydrate_one-err :
      (path : Str) (r : Registry) (x : ReadError)
      → load_subs codec r.host.disk path ≡ err x
      → (rehydrate_one codec acl scope declares path r).1 ≡ r
  unfolding rehydrate_one
  rehydrate_one-err path r x e = rw (e, rehydrate_one)

  -- What the restoration of one session establishes holds of all sessions in the end.
  module _ (P : SessionState → Type 0)
      (restores : (path client_id identity : Str) (filters : List (Str × QoS)) (r : Registry)
        → load_subs codec r.host.disk path ≡ ok (client_id, identity, filters)
        → P ((rehydrate_one codec acl scope declares path r).1.store r.next_ref)) where
    IsRestoredAll : Registry → Type 0
    IsRestoredAll r =
        (j : Str) (ref : ℕ)
        → Dict.get j r.sessions ≡ some ref
        → (ref < r.next_ref) × P (r.store ref)

    -- Another session beside those of a registry.
    joined-IsRestoredAll :
        (client_id : Str) (r r' : Registry)
        → r'.sessions ≡ Dict.insert client_id r.next_ref r.sessions
        → r'.next_ref ≡ r.next_ref + 1
        → ((ref : ℕ) → ref < r.next_ref → r'.store ref ≡ r.store ref)
        → P (r'.store r.next_ref)
        → IsRestoredAll r
        → IsRestoredAll r'
    unfolding IsRestoredAll
    joined-IsRestoredAll client_id r r' s n same made v j ref g =
        let found =
          sym (get-insert client_id j r.next_ref r.sessions) ∙ ap (Dict.get j) (sym s) ∙ g in
        elim (Bool-cases (str_eq client_id j)) [
          | inl e ↦
              let own : r.next_ref ≡ ref = ground (arith, found) in
              (omega (arith, own, n), subst (λ k. P (r'.store k)) own made)
          | inr e ↦
              let (lt, kept) = v j ref (ground (arith, found)) in
              (omega (arith, lt, n), subst P (sym (same ref lt)) kept)
        ]

    rehydrate_one-IsRestoredAll :
        (path : Str) (r : Registry)
        → IsRestoredAll r
        → IsRestoredAll (rehydrate_one codec acl scope declares path r).1
    rehydrate_one-IsRestoredAll path r v = elim (Result-cases (load_subs codec r.host.disk path)) [
      | inr (x, e) ↦ subst IsRestoredAll (sym (rehydrate_one-err path r x e)) v
      | inl ((client_id, identity, filters), e) ↦
          let (s, n, same) = rehydrate_one-shape path client_id identity filters r e in
          joined-IsRestoredAll client_id r (rehydrate_one codec acl scope declares path r).1 s n
            same (restores path client_id identity filters r e) v
    ]

    rehydrate_entries-IsRestoredAll :
        (entries : List (Option Str)) (restored : ℕ) (r : Registry)
        → IsRestoredAll r
        → IsRestoredAll (rehydrate_entries entries restored r).1
    unfolding rehydrate_entries
    rehydrate_entries-IsRestoredAll [] restored r v = v
    rehydrate_entries-IsRestoredAll (none ∷ entries) restored r v = v
    rehydrate_entries-IsRestoredAll (some path ∷ entries) restored r v =
        elim (Bool-cases (has_subs_extension path)) [
          | inr e ↦ rw e (rehydrate_entries-IsRestoredAll entries restored r v)
          | inl e ↦ rw e (
              rehydrate_entries-IsRestoredAll entries
                (if is_ok (rehydrate_one codec acl scope declares path r).0
                  then restored + 1
                  else restored)
                (rehydrate_one codec acl scope declares path r).1
                (rehydrate_one-IsRestoredAll path r v))
        ]

    rehydrate_all :
        (listing : Option (List (Option Str))) (max_queue : ℕ) (slow_grace : Option ℕ)
        (queue_dir : Option Str) (disk : Disk) (j : Str) (ref : ℕ)
        → let r = (rehydrate listing (new_registry max_queue slow_grace queue_dir disk)).1 in
          Dict.get j r.sessions ≡ some ref → P (r.store ref)
    unfolding rehydrate new_registry IsRestoredAll Dict.get
    rehydrate_all none max_queue slow_grace queue_dir disk j ref g = cc
    rehydrate_all (some entries) max_queue slow_grace queue_dir disk j ref g =
        (rehydrate_entries-IsRestoredAll entries 0
          (new_registry max_queue slow_grace queue_dir disk) (λ i k h. cc) j ref g).1

  -- After the start of a node, whatever files it found and in whatever order, a session of its registry
  -- is offline and holds only subscriptions that the rules in force allow the identity it belongs
  -- to; also if the listing fails on the way.
  pub rehydrate-IsRestored :
      (listing : Option (List (Option Str))) (max_queue : ℕ) (slow_grace : Option ℕ)
      (queue_dir : Option Str) (disk : Disk) (j : Str) (ref : ℕ)
      → let r = (rehydrate listing (new_registry max_queue slow_grace queue_dir disk)).1 in
        Dict.get j r.sessions ≡ some ref → (identity : Str) × IsRestored acl identity (r.store ref)
  rehydrate-IsRestored =
      rehydrate_all (λ s. (identity : Str) × IsRestored acl identity s)
        (λ path c i fs r e. (i, (rehydrate_one_lem codec acl scope declares path c i fs r e).2))

  -- After the start of a node, whatever bytes its state files held and in whatever order, the strings
  -- of every session of its registry are UTF-8: the client id, the identity, the filters of its
  -- subscriptions and the topics of its queue; and the queue is no longer than the limit.
  pub rehydrate-HoldsText :
      (listing : Option (List (Option Str))) (max_queue : ℕ) (slow_grace : Option ℕ)
      (queue_dir : Option Str) (disk : Disk) (j : Str) (ref : ℕ)
      → let r = (rehydrate listing (new_registry max_queue slow_grace queue_dir disk)).1 in
        Dict.get j r.sessions ≡ some ref → HoldsText (r.store ref)
  rehydrate-HoldsText = rehydrate_all HoldsText (λ path c i fs r e.
      rehydrate_one-HoldsText codec acl scope declares path c r
        (rehydrate_one_lem codec acl scope declares path c i fs r e).0)
