-- ===== src/Connection/Suback.antt =====
-- What answers a SUBSCRIBE.
use entmoot.Common.{
  ℕ, ◌≡◌, refl, ap, ◌∙◌, Bool, true, false, Option, none, some, List, [], ◌∷◌, ◌++◌, append_assoc,
  Str, map, ok, err, Result-cases, inl, inr, ◌&&◌, if◌then◌else◌, arith,
}
use entmoot.Mqtt.{QoS, QosCodec, Packet, at_most_once, at_least_once, exactly_once}
use entmoot.Topic.{filter_to_keyexpr}
use entmoot.Registry.Rehydration.{activate_subscription}
use entmoot.Bus.{BusOp}
use entmoot.Auth.{Acl, may_subscribe}
use entmoot.Staleness.{StalenessPolicy}
use entmoot.Retained.{SystemTime, MatchCache, RetainedStore}
use entmoot.Connection.{
  Client, granted_qos, send, subscribe, client_event, denied, with_session, try_bus, on_bus,
}
use entmoot.Connection.Sending.{send_open}
use entmoot.Connection.Loop.{after, subscribe_all, deliver_granted, handle_subscribe}
use entmoot.Connection.Authority.Rounds.{deliver_granted-Extends}

abbrev pub at_most_one : QoS → QoS
at_most_one at_most_once = at_most_once
at_most_one at_least_once = at_least_once
at_most_one exactly_once = at_least_once

granted-at_most_one : (q : QoS) → granted_qos q ≡ at_most_one q
granted-at_most_one at_most_once = refl
granted-at_most_one at_least_once = refl
granted-at_most_one exactly_once = refl

module _ (codec : QosCodec) (acl : Acl) (scope : Str) (takes : BusOp → Bool) (declares : Str → Bool)
    (policy : StalenessPolicy) (node_id : Str) (mc : MatchCache) where
  subscribe-quiet :
      (filter : Str) (q : QoS) (c : Client)
      → let c' = (subscribe acl scope takes codec declares node_id filter q c).1 in
        (c'.sent ≡ c.sent) × (c'.writer_open ≡ c.writer_open)
  unfolding subscribe client_event try_bus on_bus denied with_session
  subscribe-quiet filter q c = ground arith

  subscribe_all-quiet :
      (filters : List (Str × QoS)) (c : Client)
      → let c' = (subscribe_all codec acl scope takes declares policy node_id mc filters c).1 in
        (c'.sent ≡ c.sent) × (c'.writer_open ≡ c.writer_open)
  unfolding subscribe_all
  subscribe_all-quiet [] c = (refl, refl)
  subscribe_all-quiet ((path, q) ∷ filters) c =
      let c' = (subscribe acl scope takes codec declares node_id path q c).1 in
      let here = subscribe-quiet path q c in
      let rest = subscribe_all-quiet filters c' in (rest.0 ∙ here.0, rest.1 ∙ here.1)

  -- Whether the bus takes a subscriber on a filter.
  pub declared : Str → Bool
  declared filter = elim (filter_to_keyexpr filter scope) [ err e ↦ false | ok ke ↦ declares ke ]

  -- The code that an identity is due for a filter: QoS 2 becomes QoS 1, and there is none if the rules
  -- do not allow the filter or the bus does not take it.
  pub code_due : Str → Str × QoS → Option QoS
  code_due identity (filter, q) =
      if may_subscribe acl identity filter && declared filter then some (at_most_one q) else none

  subscribe-code_due :
      (filter : Str) (q : QoS) (c : Client)
      → (subscribe acl scope takes codec declares node_id filter q c).0
        ≡ code_due c.identity (filter, q)
  unfolding subscribe activate_subscription code_due declared
  subscribe-code_due filter q c = elim (Result-cases (filter_to_keyexpr filter scope)) [
    | inr (e, p) ↦ ground (arith, p)
    | inl (ke, p) ↦ ground (arith, p, granted-at_most_one q)
  ]

  subscribe-identity :
      (filter : Str) (q : QoS) (c : Client)
      → (subscribe acl scope takes codec declares node_id filter q c).1.identity ≡ c.identity
  unfolding subscribe client_event try_bus on_bus denied with_session
  subscribe-identity filter q c = ground arith

  subscribe_all-code_due :
      (filters : List (Str × QoS)) (c : Client)
      → (subscribe_all codec acl scope takes declares policy node_id mc filters c).0.0
        ≡ map (code_due c.identity) filters
  unfolding subscribe_all
  subscribe_all-code_due [] c = refl
  subscribe_all-code_due ((path, q) ∷ filters) c =
      let c' = (subscribe acl scope takes codec declares node_id path q c).1 in
      rw (subscribe-code_due path q c) (
        ap (λ codes. code_due c.identity (path, q) ∷ codes)
          (subscribe_all-code_due filters c'
            ∙ ap (λ i. map (code_due i) filters) (subscribe-identity path q c)))

  -- Of the packets that the connection itself sends, the first for a SUBSCRIBE is a SUBACK with its
  -- identifier and, for each filter in turn, the code due: the requested QoS but QoS 1 for 2, or a
  -- failure if the filter is invalid, the ACL denies it or the bus refuses the subscriber. The
  -- writer is open.
  pub handle_subscribe-sub_ack :
      (clock : ℕ → ℕ → SystemTime) (pkid : ℕ) (filters : List (Str × QoS)) (c : Client)
      (store : RetainedStore mc)
      → c.writer_open ≡ true
      → (rest : List Packet) × ((handle_subscribe codec acl scope takes declares policy node_id mc
            clock pkid filters
            (c, store)).0.1.sent
          ≡ c.sent ++ (Packet.sub_ack pkid (map (code_due c.identity) filters) ∷ rest))
  unfolding handle_subscribe
  handle_subscribe-sub_ack clock pkid filters c store w =
      let ((codes, granted), c') =
        subscribe_all codec acl scope takes declares policy node_id mc filters c in
      let quiet = subscribe_all-quiet filters c in
      let ack = Packet.sub_ack pkid codes in
      let d = record c' { sent = c'.sent ++ (ack ∷ []) } in
      let g =
        deliver_granted-Extends codec acl scope takes declares policy node_id mc clock 0 granted d
          store in
      let sending : after mc (send ack c', store)
            (deliver_granted codec acl scope takes declares policy node_id mc clock 0 granted)
          ≡ deliver_granted codec acl scope takes declares policy node_id mc clock 0 granted d
              store =
        ap
          (λ h.
            after mc (h, store)
              (deliver_granted codec acl scope takes declares policy node_id mc clock 0 granted))
          (send_open ack c' (quiet.1 ∙ w)) in
      (
        g.packets,
        ap (λ r. r.0.1.sent) sending
            ∙ g.sent
            ∙ ap (λ l. (l ++ (ack ∷ [])) ++ g.packets) quiet.0
            ∙ append_assoc c.sent (ack ∷ []) g.packets
            ∙ ap (λ l. c.sent ++ (Packet.sub_ack pkid l ∷ g.packets))
                (subscribe_all-code_due filters c),
      )
