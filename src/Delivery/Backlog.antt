-- ===== src/Delivery/Backlog.antt =====
-- The offline queue from disconnect to reconnect.
use entmoot.Common.{
  ℕ, ◌≤◌, ◌<◌, ◌≡◌, refl, sym, ◌∙◌, inl, none, List, [], ◌∷◌, ◌++◌, Str, length, arith, append-nil,
}
use entmoot.Mqtt.{QosCodec, at_least_once}
use entmoot.Persist.{Message, push_bounded}
use entmoot.Persist.Queue.{last, push_bounded-last, last_short}
use entmoot.Session.{Host, attach_conn}
use entmoot.Delivery.{World, accepted, deliver}
use entmoot.Delivery.Sequential.{deliver_offline}

deliver-max_queue :
    (topic : Str) (payload : List ℕ) (now : ℕ) (w : World)
    → w.session.sink ≡ none
    → (deliver topic payload at_least_once accepted now w).1.session.max_queue ≡ w.session.max_queue
unfolding deliver
deliver-max_queue topic payload now w e = ground arith

-- Messages of QoS 1 that arrive one after another.
pub deliver_all : ℕ → List Message → World → World
deliver_all now [] w = w
deliver_all now ((topic, payload) ∷ ms) w =
    deliver_all now ms (deliver topic payload at_least_once accepted now w).1

deliver_all_queue :
    (now n : ℕ) (ms : List Message) (w : World)
    → w.session.sink ≡ none
    → w.session.max_queue ≡ n
    → 0 < n
    → length w.session.queue ≤ n
    → (deliver_all now ms w).session.queue ≡ last n (w.session.queue ++ ms)
unfolding deliver_all
deliver_all_queue now n [] w e q pos h = rw append-nil (sym (last_short n w.session.queue h))
deliver_all_queue now n ((t, p) ∷ ms) w e q pos h =
    let w' = (deliver t p at_least_once accepted now w).1 in
    let (done, queue, sink, outbox) = deliver_offline t p at_least_once accepted now w (inl e) in
    let (bound, kept) = push_bounded-last n w.session.queue ms (t, p) pos h in
    let pushed : w'.session.queue ≡ push_bounded n w.session.queue (t, p) = ground arith in
    deliver_all_queue now n ms w' sink (deliver-max_queue t p now w e ∙ q) pos (rw pushed bound)
    ∙ rw pushed kept

-- The backlog that a client is handed when it reconnects is the last `max_queue` of what it had
-- queued and what came since, in the order of arrival, and the queue is empty after. The session is
-- one that is offline, may queue and has no more than `max_queue` messages.
pub attach_conn-deliver_all :
    (codec : QosCodec) (identity : Str) (sink kick now : ℕ) (ms : List Message) (w : World)
    (h : Host)
    → w.session.sink ≡ none
    → 0 < w.session.max_queue
    → length w.session.queue ≤ w.session.max_queue
    → ((attach_conn codec identity sink kick (deliver_all now ms w).session h).0.1
        ≡ last w.session.max_queue (w.session.queue ++ ms))
      × ((attach_conn codec identity sink kick (deliver_all now ms w).session h).1.queue ≡ [])
unfolding attach_conn
attach_conn-deliver_all codec identity sink kick now ms w h e pos b =
    (deliver_all_queue now w.session.max_queue ms w e refl pos b, refl)
