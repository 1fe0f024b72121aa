-- ===== src/Registry/Rehydration.antt =====
-- The restoration of persistent sessions at startup (`rehydrate_one` of
-- crates/entmoot-node/src/session.rs).
pub mod Text
use entmoot.Common.{
  ℕ, ◌+◌, ◌≡◌, refl, sym, ap, ◌∙◌, subst, str_eq_iff, Bool, true, false, none, some, List, [], ◌∷◌,
  Result, ok, err, Str, if◌then◌else◌, All, Result-cases, Bool-cases, inl, inr, arith,
}
use entmoot.Common.Dict
use entmoot.Common.Dict.{Dict, get-insert}
use entmoot.Mqtt.{QoS, QosCodec}
use entmoot.Topic.{filter_to_keyexpr}
use entmoot.Auth.{Acl, may_subscribe}
use entmoot.Codec.{ReadError}
use entmoot.Persist.{queue_path, load_subs}
use entmoot.Session.{SessionState, Host, SubEntry, new, insert_sub, persist_subs, expired}
use entmoot.Registry.{Registry, assign}

-- `declares ke` is whether the bus takes a subscriber on a key expression.
module _ (codec : QosCodec) (acl : Acl) (scope : Str) (declares : Str → Bool) where
  -- `activate_subscription`, on a session: the session, the host and the next task; unchanged if
  -- the filter is invalid or the bus refuses it.
  unfoldable pub activate_subscription :
      Str → QoS → SessionState × Host × ℕ → Bool × SessionState × Host × ℕ
  activate_subscription filter granted (s, h, task) = elim (filter_to_keyexpr filter scope) [
    | err e ↦ (false, s, h, task)
    | ok ke ↦
        if declares ke
        then (let (s', h') = insert_sub codec filter granted task s h in (true, s', h', task + 1))
        else (false, s, h, task)
  ]

  activate_all : Str → List (Str × QoS) → SessionState × Host × ℕ → SessionState × Host × ℕ
  activate_all identity [] (s, h, task) = (s, h, task)
  activate_all identity ((filter, qos) ∷ rest) (s, h, task) =
      if may_subscribe acl identity filter
      then (let (done, s', h', task') = activate_subscription filter qos (s, h, task) in
          activate_all identity rest (s', h', task'))
      else activate_all identity rest (s, h, task)

  -- The session that `rehydrate_one` makes of a loaded file.
  restored : Str → Str → Str → Registry → SessionState
  restored path client_id identity r =
      let s =
        new client_id r.max_queue r.slow_grace (queue_path r.queue_dir client_id) (some path)
          r.host.disk in
      record s { inner = record s.inner { identity = identity } }

  unfoldable pub rehydrate_one : Str → Registry → Result Str ReadError × Registry
  unfolding activate_all restored
  rehydrate_one path r = elim (load_subs codec r.host.disk path) [
    | err e ↦ (err e, r)
    | ok (client_id, identity, filters) ↦
        let s = restored path client_id identity r in
        let (s', h, task) = activate_all identity filters (s, r.host, r.next_task) in
        (
          ok client_id,
          record r {
            sessions = Dict.insert client_id r.next_ref r.sessions;
            store = assign r.next_ref s' r.store;
            next_ref = r.next_ref + 1;
            next_task = task;
            host = persist_subs codec s' h;
          },
        )
  ]

-- What restoration makes of a session: it is offline without an offline time, and each of its
-- subscriptions is one that the rules in force allow its identity.
pub record IsRestored (acl : Acl) (identity : Str) (s : SessionState) : Type 0 where
  pub offline : s.sink ≡ none
  pub since : s.offline_since ≡ none
  pub owner : s.identity ≡ identity
  pub allowed : All (λ (e : Str × SubEntry). may_subscribe acl identity e.0 ≡ true) s.subs

All-insert :
    (p : Str → Bool) (k : Str) (v : SubEntry) (d : Dict SubEntry)
    → p k ≡ true
    → All (λ (e : Str × SubEntry). p e.0 ≡ true) d
    → All (λ (e : Str × SubEntry). p e.0 ≡ true) (Dict.insert k v d)
unfolding Dict.insert
All-insert p k v [] h all = (h, tt)
All-insert p k v ((j, w) ∷ d) h all = ground (arith, All-insert p k v d h all.1)

module _ (codec : QosCodec) (acl : Acl) (scope : Str) (declares : Str → Bool) where
  activate_subscription-IsRestored :
      (identity filter : Str) (granted : QoS) (s : SessionState) (h : Host) (task : ℕ)
      → may_subscribe acl identity filter ≡ true
      → IsRestored acl identity s
      → IsRestored acl identity
          (activate_subscription codec acl scope declares filter granted (s, h, task)).1
  unfolding activate_subscription insert_sub
  activate_subscription-IsRestored identity filter granted s h task m v =
      elim (Result-cases (filter_to_keyexpr filter scope)) [
        | inr (e, q) ↦ rw (q, activate_subscription) v
        | inl (ke, q) ↦ elim (Bool-cases (declares ke)) [
          | inl d ↦
              rw (q, d, activate_subscription)
                (record {
                  offline = v.offline;
                  since = v.since;
                  owner = v.owner;
                  allowed = All-insert (may_subscribe acl identity) filter _ s.subs m v.allowed;
                })
          | inr d ↦ rw (q, d, activate_subscription) v
        ]
      ]

  activate_all-IsRestored :
      (identity : Str) (filters : List (Str × QoS)) (s : SessionState) (h : Host) (task : ℕ)
      → IsRestored acl identity s
      → IsRestored acl identity
          (activate_all codec acl scope declares identity filters (s, h, task)).0
  unfolding activate_all
  activate_all-IsRestored identity [] s h task v = v
  activate_all-IsRestored identity ((f, q) ∷ rest) s h task v =
      elim (Bool-cases (may_subscribe acl identity f)) [
        | inl m ↦ rw m (
            activate_all-IsRestored identity rest _ _ _
              (activate_subscription-IsRestored identity f q s h task m v))
        | inr m ↦ rw m (activate_all-IsRestored identity rest s h task v)
      ]

  restored-IsRestored :
      (path client_id identity : Str) (r : Registry)
      → IsRestored acl identity (restored codec acl scope declares path client_id identity r)
  unfolding restored new
  restored-IsRestored path client_id identity r = record {
    offline = refl;
    since = refl;
    owner = refl;
    allowed = tt;
  }

  never_expires :
      (now expiry : ℕ) (s : SessionState) → s.offline_since ≡ none → expired now expiry s ≡ false
  unfolding expired
  never_expires now expiry s e = ground arith

  -- A session restored from its file stands in the registry under the client id that the file names.
  -- It holds no subscription that the rules in force deny the identity of the file. It is offline,
  -- but has no offline time, so that no sweep ever takes it for expired.
  pub rehydrate_one_lem :
      (path client_id identity : Str) (filters : List (Str × QoS)) (r : Registry)
      → load_subs codec r.host.disk path ≡ ok (client_id, identity, filters)
      → let (result, r') = rehydrate_one codec acl scope declares path r in
        (result ≡ ok client_id)
        × (Dict.get client_id r'.sessions ≡ some r.next_ref)
        × IsRestored acl identity (r'.store r.next_ref)
        × ((now expiry : ℕ) → expired now expiry (r'.store r.next_ref) ≡ false)
  unfolding rehydrate_one
  rehydrate_one_lem path client_id identity filters r e =
      rw (e, rehydrate_one)
        (
          refl,
          ground (
            arith,
            get-insert client_id client_id r.next_ref r.sessions,
            str_eq_iff client_id client_id,
          ),
          subst (IsRestored acl identity) (sym assigned) kept,
          (λ now expiry.
              never_expires now expiry _ (ap (λ s. s.offline_since) assigned ∙ kept.since)),
        )
    where
      loaded : SessionState
      loaded = restored codec acl scope declares path client_id identity r

      done : SessionState × Host × ℕ
      done = activate_all codec acl scope declares identity filters (loaded, r.host, r.next_task)

      assigned : assign r.next_ref done.0 r.store r.next_ref ≡ done.0
      assigned = ground arith

      kept : IsRestored acl identity done.0
      kept =
          activate_all-IsRestored identity filters loaded r.host r.next_task
            (restored-IsRestored path client_id identity r)

  activate_all-client_id :
      (identity : Str) (filters : List (Str × QoS)) (s : SessionState) (h : Host) (task : ℕ)
      → (activate_all codec acl scope declares identity filters (s, h, task)).0.client_id
        ≡ s.client_id
  unfolding activate_all activate_subscription insert_sub
  activate_all-client_id identity [] s h task = refl
  activate_all-client_id identity ((f, q) ∷ rest) s h task =
      let (done, s', h', task') = activate_subscription codec acl scope declares f q (s, h, task) in
      ground (
        arith,
        activate_all-client_id identity rest s' h' task',
        activate_all-client_id identity rest s h task,
      )

  pub rehydrate_one-client_id :
      (path client_id identity : Str) (filters : List (Str × QoS)) (r : Registry)
      → load_subs codec r.host.disk path ≡ ok (client_id, identity, filters)
      → ((rehydrate_one codec acl scope declares path r).1.store r.next_ref).client_id ≡ client_id
  unfolding rehydrate_one restored new
  rehydrate_one-client_id path client_id identity filters r e =
      let s = restored codec acl scope declares path client_id identity r in
      let named = activate_all-client_id identity filters s r.host r.next_task in
      rw (e, rehydrate_one) (ground (arith, named))
