-- ===== src/Connection/EndToEnd.antt =====
-- From a publish to the clients that have subscribed, over the bus.
mod Runs
use entmoot.Common.{
  ℕ, ◌+◌, ◌≡◌, refl, sym, ap, ◌∙◌, Bool, true, false, none, some, List, [], ◌∷◌, ◌++◌, append-nil,
  append_assoc, ok, Str, Bytes, slash, split, All, is_empty, if◌then◌else◌, arith, Bool-cases, inl,
  inr,
}
use entmoot.Bus.{BusOp, put, delete}
use entmoot.Mqtt.{QoS, Publish}
use entmoot.Metrics.{Metrics}
use entmoot.Topic.{
  topic_to_keyexpr, filter_to_keyexpr, topic_matches, retained_keyexpr, keyexpr_to_topic,
}
use entmoot.Topic.Levels.{topic_to_keyexpr_iff}
use entmoot.Topic.RoundTrip.{keyexpr_to_topic-topic_to_keyexpr}
use entmoot.Topic.Chunks.{IsLiteral, scope_chunks, names-IsVisible}
use entmoot.Topic.Routing.{IsMatching, routes}
use entmoot.Topic.Routing.Internal.{routes_internal}
use entmoot.Auth.{Acl, may_publish}
use entmoot.RateLimiter.{allow}
use entmoot.Retained.{SystemTime, encode_envelope}
use entmoot.Delivery.{World, accepted, finished, sent, deliver, packet}
use entmoot.Delivery.Sequential.{deliver_online, pkid_for}
use entmoot.Delivery.Forwarding.{hear, hear_at, forward, count_delivery}
use entmoot.Connection.{Client, handle_publish}
use entmoot.Connection.Publishing.{published, handle_publish-permitted}

module _ (intersects : List Str → List Str → Bool) (bus : IsMatching intersects) (scope : Str)
    (plain : All IsLiteral (scope_chunks scope)) where
  -- What the publish itself becomes.
  abbrev forwarded : QoS → ℕ → Publish → World × Metrics → World × Metrics
  forwarded granted now p (w, m) = (
    (deliver p.topic p.payload granted accepted now w).1,
    record m { messages_out_total = m.messages_out_total + 1 },
  )

  forward-online :
      (granted : QoS) (k : Str) (now tx : ℕ) (p : Publish) (w : World) (m : Metrics)
      → topic_to_keyexpr p.topic scope ≡ ok k
      → w.session.sink ≡ some tx
      → forward scope granted k p.payload accepted now (w, m) ≡ forwarded granted now p (w, m)
  unfolding forward count_delivery
  forward-online granted k now tx p w m e s = rw (
    keyexpr_to_topic-topic_to_keyexpr p.topic scope k e,
    forward,
    (deliver_online p.topic p.payload granted now tx w s).0,
  )

  module _ (granted : QoS) (filter ke : Str) (now : ℕ)
      (accepted_filter : filter_to_keyexpr filter scope ≡ ok ke) where
    hear_at-publish :
        (k : Str) (tx : ℕ) (p : Publish) (w : World) (m : Metrics)
        → topic_to_keyexpr p.topic scope ≡ ok k
        → w.session.sink ≡ some tx
        → hear_at intersects scope granted ke accepted now k p.payload (w, m)
          ≡ (if topic_matches filter p.topic then forwarded granted now p (w, m) else (w, m))
    unfolding hear_at
    hear_at-publish k tx p w m e s = rw (
      routes intersects bus filter p.topic scope ke k accepted_filter e plain,
      forward-online granted k now tx p w m e s,
    )

    -- The retained copy of a publish reaches no subscription.
    hear_at-retained :
        (t k : Str) (payload : Bytes) (w : World × Metrics)
        → topic_to_keyexpr t scope ≡ ok k
        → hear_at intersects scope granted ke accepted now (retained_keyexpr t scope) payload w ≡ w
    unfolding hear_at
    hear_at-retained t k payload w e =
        let (names, q) = (topic_to_keyexpr_iff t scope k).0 e in
        let hidden =
          (routes_internal intersects bus filter t t scope ke accepted_filter
            (names-IsVisible _ names) plain).2 in
        rw hidden

    hear-published :
        (k : Str) (tx : ℕ) (at : SystemTime) (p : Publish) (w : World) (m : Metrics)
        → topic_to_keyexpr p.topic scope ≡ ok k
        → w.session.sink ≡ some tx
        → hear intersects scope granted ke accepted now (published scope k at p) (w, m)
          ≡ (if topic_matches filter p.topic then forwarded granted now p (w, m) else (w, m))
    unfolding hear
    hear-published k tx at p w m e s =
        let first = hear_at-publish k tx p w m e s in
        let later = hear_at-retained p.topic k in
        elim (Bool-cases p.retain) [
          | inr n ↦ rw n first
          | inl r ↦ elim (Bool-cases (is_empty p.payload)) [
            | inl c ↦ rw (r, c) (later [] _ e ∙ first)
            | inr c ↦ rw (r, c) (later (encode_envelope p.payload at) _ e ∙ first)
          ]
        ]

    -- A publish that a node accepts reaches a client that has subscribed, is connected and keeps up,
    -- exactly if the topic matches the filter: then the client is sent the topic and the payload
    -- once, at the QoS of its subscription, and not as a retained message; if not, nothing becomes
    -- of it. That holds at whichever node the client is, and with or without the retain flag.
    -- Accepted means: within the rate, with a valid topic, permitted by the ACL, on a bus that takes
    -- everything.
    pub handle_publish-hear :
        (acl : Acl) (takes : BusOp → Bool) (instant : ℕ) (at : SystemTime) (p : Publish)
        (c : Client) (k : Str) (tx : ℕ) (w : World) (m : Metrics)
        → (allow instant c.rate).0 ≡ true
        → topic_to_keyexpr p.topic scope ≡ ok k
        → may_publish acl c.identity p.topic ≡ true
        → ((op : BusOp) → takes op ≡ true)
        → c.bus ≡ []
        → w.session.sink ≡ some tx
        → let heard =
            hear intersects scope granted ke accepted now
              (handle_publish acl scope takes instant at p c).1.bus
              (w, m) in
          (heard.0.outbox
            ≡ w.outbox
              ++ (if topic_matches filter p.topic
                  then (
                    tx,
                    packet p.topic p.payload granted (pkid_for p.topic p.payload granted w.session),
                  )
                    ∷ []
                  else []))
          × (heard.1.messages_out_total
              ≡ m.messages_out_total + (if topic_matches filter p.topic then 1 else 0))
    handle_publish-hear acl takes instant at p c k tx w m a e may t empty s =
        let same =
          ap (λ ops. hear intersects scope granted ke accepted now ops (w, m))
            (handle_publish-permitted acl scope takes instant at p c k a e may t
              ∙ ap (λ log. log ++ published scope k at p) empty)
          ∙ hear-published k tx at p w m e s in
        elim (Bool-cases (topic_matches filter p.topic)) [
          | inl y ↦ rw (same, y) ((deliver_online p.topic p.payload granted now tx w s).1, refl)
          | inr n ↦ rw (same, n) (sym (append-nil w.outbox), omega arith)
        ]
