-- ===== src/Registry/Rehydration/Text.antt =====
-- Strings of a restored session: whatever its files hold, they are text.
use entmoot.Common.{
  ℕ, ◌≤◌, ◌≡◌, length, sym, subst, Bool, Option, none, some, List, [], ◌∷◌, ok, Str, Result-cases,
  Bool-cases, inl, inr, arith,
}
use entmoot.Common.Dict
use entmoot.Common.Dict.{Dict}
use entmoot.Mqtt.{QoS, QosCodec}
use entmoot.Topic.{filter_to_keyexpr}
use entmoot.Auth.{Acl, may_subscribe}
use entmoot.Persist.{load_subs, load_queue, Disk}
use entmoot.Persist.Text.{IsText, Titled, load_queue-Titled, load_subs-IsText}
use entmoot.Session.{SessionState, Host, SubEntry, new, insert_sub, restored_queue}
use entmoot.Session.Invariant.{restored_queue_bounded}
use entmoot.Registry.{Registry, assign}
use entmoot.Registry.Rehydration.{activate_subscription, activate_all, restored, rehydrate_one}

pub record HoldsText (s : SessionState) : Type 0 where
  pub client_text : IsText s.client_id
  pub identity_text : IsText s.identity
  pub filters_text : Titled s.subs
  pub topics_text : Titled s.queue
  pub queue_bounded : length s.queue ≤ s.max_queue

insert-Titled :
    (k : Str) (v : SubEntry) (d : Dict SubEntry) → IsText k → Titled d → Titled (Dict.insert k v d)
unfolding Dict.insert
insert-Titled k v [] h all = (h, tt)
insert-Titled k v ((j, w) ∷ d) h all = ground (arith, insert-Titled k v d h all.1)

restored_queue-Titled :
    (path : Option Str) (n : ℕ) (disk : Disk) → Titled (restored_queue path n disk)
unfolding restored_queue
restored_queue-Titled none n disk = tt
restored_queue-Titled (some path) n disk = elim (Result-cases (load_queue disk path n)) [
  | inl (queue, e) ↦ rw (e, restored_queue) (load_queue-Titled disk path n queue e)
  | inr (x, e) ↦ rw (e, restored_queue) tt
]

module _ (codec : QosCodec) (acl : Acl) (scope : Str) (declares : Str → Bool) where
  activate_subscription-HoldsText :
      (filter : Str) (granted : QoS) (s : SessionState) (h : Host) (task : ℕ)
      → IsText filter
      → HoldsText s
      → HoldsText (activate_subscription codec acl scope declares filter granted (s, h, task)).1
  unfolding activate_subscription insert_sub
  activate_subscription-HoldsText filter granted s h task t v =
      elim (Result-cases (filter_to_keyexpr filter scope)) [
        | inr (e, q) ↦ rw (q, activate_subscription) v
        | inl (ke, q) ↦ elim (Bool-cases (declares ke)) [
          | inl d ↦
              rw (q, d, activate_subscription)
                (record {
                  client_text = v.client_text;
                  identity_text = v.identity_text;
                  filters_text = insert-Titled filter _ s.subs t v.filters_text;
                  topics_text = v.topics_text;
                  queue_bounded = v.queue_bounded;
                })
          | inr d ↦ rw (q, d, activate_subscription) v
        ]
      ]

  activate_all-HoldsText :
      (identity : Str) (filters : List (Str × QoS)) (s : SessionState) (h : Host) (task : ℕ)
      → Titled filters
      → HoldsText s
      → HoldsText (activate_all codec acl scope declares identity filters (s, h, task)).0
  unfolding activate_all
  activate_all-HoldsText identity [] s h task t v = v
  activate_all-HoldsText identity ((f, q) ∷ rest) s h task t v =
      elim (Bool-cases (may_subscribe acl identity f)) [
        | inl m ↦ rw m (
            activate_all-HoldsText identity rest _ _ _ t.1
              (activate_subscription-HoldsText f q s h task t.0 v))
        | inr m ↦ rw m (activate_all-HoldsText identity rest s h task t.1 v)
      ]

  restored-HoldsText :
      (path client_id identity : Str) (r : Registry)
      → IsText client_id
      → IsText identity
      → HoldsText (restored codec acl scope declares path client_id identity r)
  unfolding restored new
  restored-HoldsText path client_id identity r c i = record {
    client_text = c;
    identity_text = i;
    filters_text = tt;
    topics_text = restored_queue-Titled _ r.max_queue r.host.disk;
    queue_bounded = restored_queue_bounded _ r.max_queue r.host.disk;
  }

  assigned : (s : SessionState) (r : Registry) → assign r.next_ref s r.store r.next_ref ≡ s
  assigned s r = ground arith

  -- In a session that is restored from its files, whatever bytes they hold, the client id, the
  -- identity, the filters of the subscriptions and the topics of the queue are UTF-8, and the queue
  -- is no longer than its limit.
  pub rehydrate_one-HoldsText :
      (path client_id : Str) (r : Registry)
      → (rehydrate_one codec acl scope declares path r).0 ≡ ok client_id
      → HoldsText ((rehydrate_one codec acl scope declares path r).1.store r.next_ref)
  unfolding rehydrate_one restored new
  rehydrate_one-HoldsText path client_id r h =
      elim (Result-cases (load_subs codec r.host.disk path)) [
        | inr (x, e) ↦ let q = rw (e, rehydrate_one) at h in cc q
        | inl ((c, i, filters), e) ↦
            let (client, identity, titles) =
              load_subs-IsText codec r.host.disk path c i filters e in
            let s = restored codec acl scope declares path c i r in
            let kept =
              activate_all-HoldsText i filters s r.host r.next_task titles
                (restored-HoldsText path c i r client identity) in
            rw (e, rehydrate_one) (subst HoldsText (sym (assigned _ r)) kept)
      ]
