-- ===== src/Connection/Subscribing.antt =====
-- What a subscription request leads to.
use entmoot.Bus.{BusOp}
use entmoot.Common.{◌≡◌, ◌≢◌, Bool, true, none, some, Str, str_eq_iff, arith}
use entmoot.Common.Dict
use entmoot.Common.Dict.{get-insert}
use entmoot.Mqtt.{QoS, at_most_once, at_least_once, exactly_once, QosCodec}
use entmoot.Auth.{Acl, may_subscribe}
use entmoot.Session.{insert_sub}
use entmoot.Registry.Rehydration.{activate_subscription}
use entmoot.Connection.{
  Client, granted_qos, subscribe, denied, with_session, client_event, try_bus, on_bus,
}

module _ (acl : Acl) (scope : Str) (takes : BusOp → Bool) (codec : QosCodec) (declares : Str → Bool)
    (node_id : Str) where
  client_event-session :
      (event : Str) (c : Client)
      → (client_event acl scope takes node_id event c).session ≡ c.session
  unfolding client_event try_bus on_bus
  client_event-session event c = ground arith

  granted-ne-exactly_once : (q : QoS) → granted_qos q ≢ exactly_once
  granted-ne-exactly_once at_most_once = λ e. cc
  granted-ne-exactly_once at_least_once = λ e. cc
  granted-ne-exactly_once exactly_once = λ e. cc

  -- A subscription that is granted is one that the ACL permits, at QoS 1 at most, and the session
  -- holds it with that QoS.
  pub subscribe-eq-some :
      (filter : Str) (req_qos q : QoS) (c : Client)
      → (subscribe acl scope takes codec declares node_id filter req_qos c).0 ≡ some q
      → (may_subscribe acl c.identity filter ≡ true)
        × (q ≢ exactly_once)
        × (Dict.get filter
              (subscribe acl scope takes codec declares node_id filter req_qos c).1.session.subs
            ≡ some (record { qos = q; task = c.next_task }))
  unfolding subscribe activate_subscription insert_sub denied with_session
  subscribe-eq-some filter req_qos q c h = ground (
    arith,
    granted-ne-exactly_once req_qos,
    get-insert filter filter (record { qos = granted_qos req_qos; task = c.next_task })
        c.session.subs,
    str_eq_iff filter filter,
  )

  -- A subscription that is refused leaves the session as it was.
  pub subscribe-eq-none :
      (filter : Str) (req_qos : QoS) (c : Client)
      → (subscribe acl scope takes codec declares node_id filter req_qos c).0 ≡ none
      → (subscribe acl scope takes codec declares node_id filter req_qos c).1.session ≡ c.session
  unfolding subscribe activate_subscription denied with_session
  subscribe-eq-none filter req_qos c h = ground arith
