-- ===== src/Connection/Authority/Handlers.antt =====
-- Every handler of a connection adds only authorized operations to the log.
use entmoot.Common.{
  ℕ, ◌+◌, codes, ◌++◌, ◌≡◌, refl, ap, ◌∙◌, Bool, true, false, Option, none, some, ok, Str,
  Bool-cases, Result-cases, inl, inr, if◌then◌else◌, is_empty,
}
use entmoot.Registry.Rehydration.{activate_subscription}
use entmoot.Session.{SessionState, Host}
use entmoot.Mqtt.{QoS, QosCodec, Publish, at_most_once, at_least_once, exactly_once}
use entmoot.Bus.{BusOp, put}
use entmoot.Topic.{topic_to_keyexpr, filter_to_keyexpr}
use entmoot.Auth.{Acl, may_publish, may_subscribe}
use entmoot.Retained.{SystemTime}
use entmoot.RateLimiter.{allow}
use entmoot.Connection.{
  Client, done, on_bus, try_bus, relay, retain_step, retained_op, ack_for, acknowledge,
  handle_publish, client_event, subscribe, denied, insert_id, with_session, granted_qos, qos_name,
}
use entmoot.Connection.Framing.{can_encode}
use entmoot.Connection.Authority.{
  IsAuthorized, publishes, retains, clears, annotates, Extends, Extends-same, Extends-trans,
  on_bus-Extends, if-Extends, send-Extends, then_do-Extends,
}

module _ (acl : Acl) (scope : Str) (takes : BusOp → Bool) where
  abbrev Grows : Client → Client → Type 0
  Grows c c' = Extends acl scope takes c c'

  retained_op-IsAuthorized :
      (now : SystemTime) (p : Publish) (identity ke : Str)
      → topic_to_keyexpr p.topic scope ≡ ok ke
      → may_publish acl identity p.topic ≡ true
      → IsAuthorized acl scope identity (retained_op acl scope takes now p)
  unfolding retained_op
  retained_op-IsAuthorized now p identity ke k m = elim (Bool-cases (is_empty p.payload)) [
    | inl e ↦ rw e (clears p.topic ke k m)
    | inr e ↦ rw e (retains p.topic ke _ k m)
  ]

  retain_step-Extends :
      (now : SystemTime) (ke : Str) (p : Publish) (c : Client)
      → topic_to_keyexpr p.topic scope ≡ ok ke
      → may_publish acl c.identity p.topic ≡ true
      → Grows c (retain_step acl scope takes now p c).1
  unfolding retain_step
  retain_step-Extends now ke p c k m =
      let c' = record c {
        metrics = record c.metrics { messages_in_total = c.metrics.messages_in_total + 1 };
      } in
      let op = retained_op acl scope takes now p in
      Extends-trans acl scope takes (Extends-same acl scope takes c c' refl refl refl refl) (
        if-Extends acl scope takes c' p.retain (on_bus acl scope takes op c') (done c')
          (on_bus-Extends acl scope takes op c' (retained_op-IsAuthorized now p c.identity ke k m))
          (Extends-same acl scope takes c' c' refl refl refl refl))

  relay-Extends :
      (now : SystemTime) (ke : Str) (p : Publish) (c : Client)
      → topic_to_keyexpr p.topic scope ≡ ok ke
      → may_publish acl c.identity p.topic ≡ true
      → Grows c (relay acl scope takes now ke p c).1
  unfolding relay
  relay-Extends now ke p c k m =
      let op = put ke p.payload in
      then_do-Extends acl scope takes c (on_bus acl scope takes op c)
        (retain_step acl scope takes now p)
        (on_bus-Extends acl scope takes op c (publishes p.topic ke p.payload k m))
        (λ d e. Extends-trans acl scope takes e (
          retain_step-Extends now ke p d k
            (ap (λ i. may_publish acl i p.topic) e.same_identity ∙ m)))

  ack_for-Extends : (q : QoS) (k : ℕ) (c : Client) → Grows c (ack_for acl scope takes q k c).1
  unfolding ack_for can_encode
  ack_for-Extends at_most_once k c = Extends-same acl scope takes c c refl refl refl refl
  ack_for-Extends at_least_once k c = send-Extends acl scope takes _ c refl
  ack_for-Extends exactly_once k c =
      let c' = record c { inflight_qos2 = insert_id k c.inflight_qos2 } in
      Extends-trans acl scope takes (Extends-same acl scope takes c c' refl refl refl refl)
        (send-Extends acl scope takes _ c' refl)

  acknowledge-Extends : (p : Publish) (c : Client) → Grows c (acknowledge acl scope takes p c).1
  unfolding acknowledge
  acknowledge-Extends p c = ack_for-Extends p.qos p.pkid c

  pub handle_publish-Extends :
      (instant : ℕ) (now : SystemTime) (p : Publish) (c : Client)
      → Grows c (handle_publish acl scope takes instant now p c).1
  unfolding handle_publish
  handle_publish-Extends instant now p c =
      let c' = record c { rate = (allow instant c.rate).1 } in
      let same = Extends-same acl scope takes c c' refl refl refl refl in
      elim (Bool-cases (allow instant c.rate).0) [
        | inr a ↦ rw a (Extends-same acl scope takes c _ refl refl refl refl)
        | inl a ↦ elim (Result-cases (topic_to_keyexpr p.topic scope)) [
          | inr (e, k) ↦ rw (a, k) same
          | inl (ke, k) ↦ elim (Bool-cases (may_publish acl c.identity p.topic)) [
            | inr m ↦
                rw (a, k, m)
                  (let c'' = record c' {
                    metrics = record c.metrics {
                      publish_denied_total = c.metrics.publish_denied_total + 1;
                    };
                  } in
                    Extends-trans acl scope takes
                      (Extends-same acl scope takes c c'' refl refl refl refl)
                      (acknowledge-Extends p c''))
            | inl m ↦
                rw (a, k, m)
                  (Extends-trans acl scope takes same (
                    then_do-Extends acl scope takes c' (relay acl scope takes now ke p c')
                      (acknowledge acl scope takes p) (relay-Extends now ke p c' k m)
                      (λ d e. Extends-trans acl scope takes e (acknowledge-Extends p d))))
          ]
        ]
      ]

  pub client_event-Extends :
      (node_id event : Str) (c : Client) → Grows c (client_event acl scope takes node_id event c)
  unfolding client_event try_bus
  client_event-Extends node_id event c = on_bus-Extends acl scope takes _ c (annotates _ event)

  denied-Extends : (c : Client) → Grows c (denied acl scope takes c)
  unfolding denied
  denied-Extends c = Extends-same acl scope takes c _ refl refl refl refl

  with_session-Extends :
      (s : SessionState × Host × ℕ) (c : Client) → Grows c (with_session acl scope takes s c)
  unfolding with_session
  with_session-Extends (s, h, task) c = Extends-same acl scope takes c _ refl refl refl refl

  activated-Extends :
      (node_id event : Str) (active : Bool) (q : QoS) (c d : Client)
      → Grows c d
      → Grows c
          (if◌then◌else◌ {A = Option QoS × Client} active
            (
              some q,
              client_event acl scope takes node_id event (record d {
                metrics = record d.metrics { subscribes_total = d.metrics.subscribes_total + 1 };
              }),
            )
            (none, d)).1
  activated-Extends node_id event false q c d g = g
  activated-Extends node_id event true q c d g =
      let d' = record d {
        metrics = record d.metrics { subscribes_total = d.metrics.subscribes_total + 1 };
      } in
      Extends-trans acl scope takes g (
        Extends-trans acl scope takes (Extends-same acl scope takes d d' refl refl refl refl)
          (client_event-Extends node_id event d'))

  pub subscribe-Extends :
      (codec : QosCodec) (declares : Str → Bool) (node_id filter : Str) (req_qos : QoS) (c : Client)
      → Grows c (subscribe acl scope takes codec declares node_id filter req_qos c).1
  unfolding subscribe
  subscribe-Extends codec declares node_id filter req_qos c =
      let q = granted_qos req_qos in
      let active =
        activate_subscription codec acl scope declares filter q (c.session, c.host, c.next_task) in
      let s : SessionState × Host × ℕ = (active.1, active.2, active.3) in
      elim (Result-cases (filter_to_keyexpr filter scope)) [
        | inr (e, k) ↦ rw (k, subscribe) (denied-Extends c)
        | inl (ke, k) ↦ elim (Bool-cases (may_subscribe acl c.identity filter)) [
          | inr m ↦ rw (k, m, subscribe) (denied-Extends c)
          | inl m ↦
              rw (k, m, subscribe)
                (activated-Extends node_id
                  (codes "subscribe filter=" ++ (filter ++ (codes " qos=" ++ qos_name q))) active.0
                  q c (with_session acl scope takes s c) (with_session-Extends s c))
        ]
      ]
