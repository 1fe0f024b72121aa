-- ===== src/Delivery/Forwarding.antt =====
-- The task of a subscription (spawned by `activate_subscription`, crates/entmoot-node/src/session.rs),
-- with nothing in between its steps.
--
-- A sample is what the bus carries: a key, a payload, which is empty for a deletion, and with it what
-- becomes of a send and the time. Which samples the bus hands to the task is a parameter.
use entmoot.Common.{
  ℕ, ◌+◌, Bool, none, some, List, [], ◌∷◌, Str, Bytes, slash, split, if◌then◌else◌,
}
use entmoot.Bus.{BusOp, put, delete}
use entmoot.Mqtt.{QoS}
use entmoot.Metrics.{Metrics}
use entmoot.Topic.{keyexpr_to_topic}
use entmoot.Delivery.{World, Phase, finished, sent, queued, SendOutcome, deliver}

-- The counter that a delivery bumps.
unfoldable pub count_delivery : Phase → Metrics → Metrics
count_delivery (finished sent) m = record m { messages_out_total = m.messages_out_total + 1 }
count_delivery (finished queued) m = record m {
  messages_queued_total = m.messages_queued_total + 1;
}
count_delivery phase m = m

-- One round of the task's loop.
unfoldable pub forward :
    Str → QoS → Str → Bytes → SendOutcome → ℕ → World × Metrics → World × Metrics
unfolding count_delivery
forward scope granted ke payload outcome now (w, m) = elim (keyexpr_to_topic ke scope) [
  | none ↦ (w, m)
  | some t ↦
      let (phase, w') = deliver t payload granted outcome now w in (w', count_delivery phase m)
]

module _ (intersects : List Str → List Str → Bool) (scope : Str) (granted : QoS) (ke : Str)
    (outcome : SendOutcome) (now : ℕ) where
  -- The task of the subscriber on `ke`, when the bus carries these operations.
  unfoldable pub hear_at : Str → Bytes → World × Metrics → World × Metrics
  hear_at key payload w =
      if intersects (split slash ke) (split slash key)
      then forward scope granted key payload outcome now w
      else w

  unfoldable pub hear : List BusOp → World × Metrics → World × Metrics
  hear [] w = w
  hear (put key payload ∷ ops) w = hear ops (hear_at key payload w)
  hear (delete key ∷ ops) w = hear ops (hear_at key [] w)
