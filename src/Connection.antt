-- ===== src/Connection.antt =====
-- What a connection does with the packets of its client (`Client` of
-- crates/entmoot-node/src/connection.rs): publishes, subscriptions, the last will;
-- RetainedDelivery has the retained messages that follow a subscription.
--
-- `takes` is whether the bus takes an operation; a send fails exactly if the writer is closed. The
-- packets that go out, the operations on the bus and the counters are logs of the state.
pub mod Publishing
pub mod Subscribing
pub mod RetainedDelivery
pub mod Framing
pub mod Loop
pub mod Arrival
pub mod Sending
pub mod Authority
pub mod Suback
pub mod Serve
pub mod EndToEnd
pub mod Runs
use entmoot.Common.{
  ℕ, ◌+◌, Bool, true, false, Option, none, some, List, [], ◌∷◌, ◌++◌, Result, ok, err, Str, Bytes,
  codes, slash, is_empty, any, ◌==◌, if◌then◌else◌,
}
use entmoot.Bus.{BusOp, put, delete}
use entmoot.Metrics.{Metrics}
use entmoot.Mqtt.{
  QoS, at_most_once, at_least_once, exactly_once, QosCodec, Publish, LastWill, Packet, pub_ack,
  pub_rec,
}
use entmoot.Topic.{TopicError, topic_to_keyexpr, filter_to_keyexpr, retained_keyexpr, meta_keyexpr}
use entmoot.Auth.{Acl, may_publish, may_subscribe}
use entmoot.RateLimiter.{RateLimiter, allow}
use entmoot.Retained.{SystemTime, encode_envelope}
use entmoot.Session.{SessionState, Host, KickReason}
use entmoot.Registry.Rehydration.{activate_subscription}

-- What makes a handler fail, and so ends the connection.
pub data ClientError : Type 0 where
  rate_exceeded bus_refused writer_closed : ClientError
  invalid_topic : TopicError → ClientError
  read_error keep_alive_expired duplicate_connect unexpected_packet : ClientError
  kicked_for : KickReason → ClientError
  no_connect connect_unreadable connect_late reply_failed : ClientError

pub record Client : Type 0 where
  pub session : SessionState
  pub host : Host
  pub next_task : ℕ
  pub id : Str
  pub identity : Str
  pub keep_alive : ℕ
  pub will : Option LastWill
  pub rate : RateLimiter
  pub inflight_qos2 : List ℕ
  pub metrics : Metrics
  pub bus : List BusOp
  pub sent : List Packet
  pub writer_open : Bool

-- A handler's result, and the state it leaves.
abbrev pub Handled : Type 0
Handled = Result (Unit {0}) ClientError × Client

-- `?`
abbrev pub then_do : Handled → (Client → Handled) → Handled
then_do (err e, c) next = (err e, c)
then_do (ok u, c) next = next c

abbrev pub done : Client → Handled
done c = (ok tt, c)

unfoldable pub send : Packet → Client → Handled
send p c =
    if c.writer_open then done (record c { sent = c.sent ++ (p ∷ []) }) else (err writer_closed, c)

-- `HashSet::insert`
abbrev pub insert_id : ℕ → List ℕ → List ℕ
insert_id k ids = if any (λ j. j == k) ids then ids else k ∷ ids

-- `{granted:?}`
abbrev pub qos_name : QoS → Str
qos_name at_most_once = codes "AtMostOnce"
qos_name at_least_once = codes "AtLeastOnce"
qos_name exactly_once = codes "ExactlyOnce"

-- At most QoS 1 is granted.
abbrev pub granted_qos : QoS → QoS
granted_qos at_most_once = at_most_once
granted_qos at_least_once = at_least_once
granted_qos exactly_once = at_least_once

module _ (acl : Acl) (scope : Str) (takes : BusOp → Bool) where
  unfoldable pub on_bus : BusOp → Client → Handled
  on_bus op c =
      if takes op then done (record c { bus = c.bus ++ (op ∷ []) }) else (err bus_refused, c)

  retained_op : SystemTime → Publish → BusOp
  retained_op now p =
      let rke = retained_keyexpr p.topic scope in
      if is_empty p.payload then delete rke else put rke (encode_envelope p.payload now)

  -- What is left of a permitted publish once it is on the bus.
  retain_step : SystemTime → Publish → Client → Handled
  unfolding on_bus retained_op
  retain_step now p c =
      let c' = record c {
        metrics = record c.metrics { messages_in_total = c.metrics.messages_in_total + 1 };
      } in
      if p.retain then on_bus (retained_op now p) c' else done c'

  -- The branch of `handle_publish` for a permitted publish.
  relay : SystemTime → Str → Publish → Client → Handled
  unfolding on_bus retain_step
  relay now ke p c = then_do (on_bus (put ke p.payload) c) (retain_step now p)

  ack_for : QoS → ℕ → Client → Handled
  unfolding send
  ack_for at_most_once pkid c = done c
  ack_for at_least_once pkid c = send (pub_ack pkid) c
  ack_for exactly_once pkid c =
      send (pub_rec pkid) (record c { inflight_qos2 = insert_id pkid c.inflight_qos2 })

  acknowledge : Publish → Client → Handled
  unfolding ack_for
  acknowledge p c = ack_for p.qos p.pkid c

  -- `instant` is the reading of the monotonic clock, `now` that of the system clock.
  unfoldable pub handle_publish : ℕ → SystemTime → Publish → Client → Handled
  unfolding relay acknowledge
  handle_publish instant now p c =
      let (allowed, rate) = allow instant c.rate in
      let c' = record c { rate = rate } in
      if allowed
      then elim (topic_to_keyexpr p.topic scope) [
        | err e ↦ (err (invalid_topic e), c')
        | ok ke ↦
            if may_publish acl c.identity p.topic
            then then_do (relay now ke p c') (acknowledge p)
            else acknowledge p (record c' {
              metrics = record c.metrics {
                publish_denied_total = c.metrics.publish_denied_total + 1;
              };
            })
      ]
      else (
        err rate_exceeded,
        record c' {
          metrics = record c.metrics {
            rate_limit_disconnects_total = c.metrics.rate_limit_disconnects_total + 1;
          };
        },
      )

  -- A refusal by the bus is logged and nothing more.
  unfoldable pub try_bus : BusOp → Client → Client
  unfolding on_bus
  try_bus op c = (on_bus op c).1

  unfoldable pub fire_will : SystemTime → Client → Client
  unfolding try_bus
  fire_will now c = elim c.will [
    | none ↦ c
    | some will ↦
        let c' = record c { will = none } in
        if may_publish acl c.identity will.topic
        then elim (topic_to_keyexpr will.topic scope) [
          | err e ↦ c'
          | ok ke ↦
              let published = try_bus (put ke will.message) c' in
              if will.retain
              then if is_empty will.message
                then published
                else try_bus
                    (put (retained_keyexpr will.topic scope) (encode_envelope will.message now))
                    published
              else published
        ]
        else c'
  ]

  -- `publish_client_event`
  unfoldable pub client_event : Str → Str → Client → Client
  unfolding try_bus
  client_event node_id event c =
      try_bus (put (meta_keyexpr (codes "clients/" ++ (node_id ++ (slash ∷ c.id))) scope) event) c

  denied : Client → Client
  denied c = record c {
    metrics = record c.metrics { subscribe_denied_total = c.metrics.subscribe_denied_total + 1 };
  }

  -- The session, the host and the next task that `activate_subscription` leaves.
  with_session : SessionState × Host × ℕ → Client → Client
  with_session (s, h, task) c = record c { session = s; host = h; next_task = task }

  -- The QoS granted, or `none` for a failure.
  unfoldable pub subscribe :
      QosCodec → (Str → Bool) → Str → Str → QoS → Client → Option QoS × Client
  unfolding client_event denied with_session
  subscribe codec declares node_id filter req_qos c = elim (filter_to_keyexpr filter scope) [
    | err e ↦ (none, denied c)
    | ok ke ↦
        if may_subscribe acl c.identity filter
        then (let granted = granted_qos req_qos in
            let (active, s, h, task) =
              activate_subscription codec acl scope declares filter granted
                (c.session, c.host, c.next_task) in
            let c' = with_session (s, h, task) c in
            if active
            then (
              some granted,
              client_event node_id
                  (codes "subscribe filter=" ++ (filter ++ (codes " qos=" ++ qos_name granted)))
                  (record c' {
                    metrics = record c'.metrics {
                      subscribes_total = c'.metrics.subscribes_total + 1;
                    };
                  }),
            )
            else (none, c'))
        else (none, denied c)
  ]
