-- ===== src/Delivery/Interleaving.antt =====
-- Deliveries, connections and subscriptions acting on one session in any order.
use entmoot.Common.{ℕ, ◌<◌, Option, List, [], Str, Bytes, arith, Bool-cases, inl, inr}
use entmoot.Mqtt.{QoS, QosCodec, Publish}
use entmoot.Persist.Queue.{push_bounded-last}
use entmoot.Session.{
  SessionState, Host, is_some, take_kick_reason, next_pkid, detach_conn, kick_current, abort_subs,
  attach_conn, insert_sub, remove_sub, new,
}
use entmoot.Session.Invariant.{
  IsValid, new-IsValid, next_pkid-IsValid, detach_conn-IsValid, kick_current-IsValid,
  evict_slow-IsValid, abort_subs-IsValid, attach_conn-IsValid, insert_sub-IsValid,
  remove_sub-IsValid, take_kick_reason-IsValid,
}
use entmoot.Delivery.{
  World, Phase, SendOutcome, start, offline, sending, finished, accepted, timed_out, closed,
  clear_sink, deliver_step, start_step, sending_step, offline_step, enqueue,
}

clear_sink-IsValid : (now tx : ℕ) (s : SessionState) → IsValid s → IsValid (clear_sink now tx s)
unfolding clear_sink
clear_sink-IsValid now tx s v = ground arith

module _ (topic : Str) (payload : Bytes) (qos : QoS) where
  start_step-IsValid :
      (w : World) → IsValid w.session → IsValid (start_step topic payload qos w).1.session
  unfolding start_step
  start_step-IsValid w v = ground (arith, next_pkid-IsValid w.session v)

  sending_step-IsValid :
      (outcome : SendOutcome) (now tx : ℕ) (p : Publish) (w : World)
      → IsValid w.session
      → IsValid (sending_step topic payload qos outcome now tx p w).1.session
  unfolding sending_step
  sending_step-IsValid accepted now tx p w v = v
  sending_step-IsValid closed now tx p w v = clear_sink-IsValid now tx w.session v
  sending_step-IsValid timed_out now tx p w v = elim (Bool-cases (is_some w.session.slow_grace)) [
    | inl g ↦ rw g (clear_sink-IsValid now tx _ (evict_slow-IsValid now tx w.session w.host v))
    | inr g ↦ rw g (clear_sink-IsValid now tx w.session v)
  ]

  enqueue-IsValid :
      (s : SessionState) → 0 < s.max_queue → IsValid s → IsValid (enqueue topic payload qos s)
  unfolding enqueue
  enqueue-IsValid s pos v = record {
    bounded = (push_bounded-last s.max_queue s.queue [] (topic, payload) pos v.bounded).0;
    counter = v.counter;
    clock = v.clock;
    attached = v.attached;
  }

  offline_step-IsValid :
      (w : World) → IsValid w.session → IsValid (offline_step topic payload qos w).1.session
  unfolding offline_step
  offline_step-IsValid w v = ground (arith, enqueue-IsValid w.session)

  deliver_step-IsValid :
      (outcome : SendOutcome) (now : ℕ) (phase : Phase) (w : World)
      → IsValid w.session
      → IsValid (deliver_step topic payload qos outcome now phase w).1.session
  unfolding deliver_step
  deliver_step-IsValid outcome now start w v = start_step-IsValid w v
  deliver_step-IsValid outcome now (sending tx p) w v = sending_step-IsValid outcome now tx p w v
  deliver_step-IsValid outcome now offline w v = offline_step-IsValid w v
  deliver_step-IsValid outcome now (finished d) w v = v

-- One operation on a session, of any of its users: connections, subscription tasks that are at any
-- point of a delivery, the registry. A connection detaches with the epoch that its attach returned,
-- which is never 0.
pub data Step (codec : QosCodec) : SessionState → SessionState → Type 0 where
  attaches :
      (identity : Str) (sink kick : ℕ) (h : Host) (s : SessionState)
      → Step codec s (attach_conn codec identity sink kick s h).1
  detaches :
      (now epoch : ℕ) (s : SessionState) → 0 < epoch → Step codec s (detach_conn now epoch s).1
  kicks : (h : Host) (s : SessionState) → Step codec s (kick_current s h).0
  reads_reason : (s : SessionState) → Step codec s (take_kick_reason s).1
  numbers : (s : SessionState) → Step codec s (next_pkid s).1
  subscribes :
      (filter : Str) (qos : QoS) (task : ℕ) (h : Host) (s : SessionState)
      → Step codec s (insert_sub codec filter qos task s h).0
  unsubscribes :
      (filter : Str) (h : Host) (s : SessionState) → Step codec s (remove_sub codec filter s h).0
  aborts : (h : Host) (s : SessionState) → Step codec s (abort_subs s h).0
  delivers :
      (topic : Str) (payload : Bytes) (qos : QoS) (outcome : SendOutcome) (now : ℕ) (phase : Phase)
      (h : Host) (outbox : List (ℕ × Publish)) (n : ℕ) (s : SessionState)
      → Step codec s
          (deliver_step topic payload qos outcome now phase
            (record { session = s; host = h; outbox = outbox; evictions = n })).1.session

pub data Reach (codec : QosCodec) (s : SessionState) : SessionState → Type 0 where
  here : Reach codec s s
  next : {t u : SessionState} → Reach codec s t → Step codec t u → Reach codec s u

Step-IsValid : (codec : QosCodec) {s t : SessionState} → Step codec s t → IsValid s → IsValid t
Step-IsValid codec (attaches identity sink kick h s) v =
    attach_conn-IsValid codec identity sink kick s h v
Step-IsValid codec (detaches now epoch s pos) v = detach_conn-IsValid now epoch s pos v
Step-IsValid codec (kicks h s) v = kick_current-IsValid s h v
Step-IsValid codec (reads_reason s) v = take_kick_reason-IsValid s v
Step-IsValid codec (numbers s) v = next_pkid-IsValid s v
Step-IsValid codec (subscribes filter qos task h s) v =
    insert_sub-IsValid codec filter qos task s h v
Step-IsValid codec (unsubscribes filter h s) v = remove_sub-IsValid codec filter s h v
Step-IsValid codec (aborts h s) v = abort_subs-IsValid s h v
Step-IsValid codec (delivers topic payload qos outcome now phase h outbox n s) v =
    deliver_step-IsValid topic payload qos outcome now phase _ v

Reach-IsValid : (codec : QosCodec) {s t : SessionState} → IsValid s → Reach codec s t → IsValid t
Reach-IsValid codec v here = v
Reach-IsValid codec v (next r st) = Step-IsValid codec st (Reach-IsValid codec v r)

-- However deliveries, connections and subscriptions interleave on a session made by `new`, its queue
-- never exceeds its bound, its identifier counter stays a 16-bit number, and it has an offline time
-- exactly while it was attached once and has no channel.
pub Reach-new-IsValid :
    (codec : QosCodec) (client_id : Str) (n : ℕ) (grace : Option ℕ) (qp sp : Option Str) (h : Host)
    {s : SessionState}
    → Reach codec (new client_id n grace qp sp h.disk) s
    → IsValid s
Reach-new-IsValid codec client_id n grace qp sp h r =
    Reach-IsValid codec (new-IsValid client_id n grace qp sp h.disk) r
