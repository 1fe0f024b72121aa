-- ===== src/Delivery/Sequential.antt =====
-- What `deliver` does when nothing comes in between.
use entmoot.Common.{
  ℕ, ◌≡◌, refl, ◌≢◌, ◌⊎◌, inl, inr, ◌||◌, none, some, List, [], ◌∷◌, ◌++◌, Str, Bytes, ◌==◌, arith,
  if◌then◌else◌,
}
use entmoot.Mqtt.{QoS, is_at_most_once}
use entmoot.Persist.{Message, push_bounded}
use entmoot.Session.{SessionState, next_pkid, evict_slow}
use entmoot.Delivery.{
  World, Delivery, SendOutcome, finished, sent, queued, dropped, accepted, timed_out, closed,
  clear_sink, deliver, packet,
}

next_pkid-keeps :
    (s : SessionState)
    → ((next_pkid s).1.inner ≡ s.inner)
      × ((next_pkid s).1.max_queue ≡ s.max_queue)
      × ((next_pkid s).1.slow_grace ≡ s.slow_grace)
unfolding next_pkid
next_pkid-keeps s = (refl, refl, refl)

module _ (topic : Str) (payload : Bytes) (qos : QoS) where
  -- The identifier that the message travels under.
  abbrev pub pkid_for : SessionState → ℕ
  pkid_for s = if is_at_most_once qos then 0 else (next_pkid s).0

  -- A client that is connected and keeps up gets the message, once, on its own channel, with a fresh
  -- identifier if it is to be acknowledged; nothing is queued.
  pub deliver_online :
      (now tx : ℕ) (w : World)
      → w.session.sink ≡ some tx
      → ((deliver topic payload qos accepted now w).0 ≡ finished sent)
        × ((deliver topic payload qos accepted now w).1.outbox
            ≡ w.outbox ++ ((tx, packet topic payload qos (pkid_for w.session)) ∷ []))
        × ((deliver topic payload qos accepted now w).1.session.inner ≡ w.session.inner)
  unfolding deliver
  deliver_online now tx w e = ground (arith, next_pkid-keeps w.session)

  -- Where a message goes that no channel takes.
  abbrev pub offline_fate : SessionState → Delivery
  offline_fate s = if is_at_most_once qos || s.max_queue == 0 then dropped else queued

  abbrev pub offline_queue : SessionState → List Message
  offline_queue s =
      if is_at_most_once qos || s.max_queue == 0
      then s.queue
      else push_bounded s.max_queue s.queue (topic, payload)

  -- A message for a client that is away, or whose channel does not take it, is queued if it is to be
  -- acknowledged and the session has a queue, and dropped otherwise. The session is offline then,
  -- and no channel got the message.
  pub deliver_offline :
      (outcome : SendOutcome) (now : ℕ) (w : World)
      → (w.session.sink ≡ none) ⊎ (outcome ≢ accepted)
      → ((deliver topic payload qos outcome now w).0 ≡ finished (offline_fate w.session))
        × ((deliver topic payload qos outcome now w).1.session.queue ≡ offline_queue w.session)
        × ((deliver topic payload qos outcome now w).1.session.sink ≡ none)
        × ((deliver topic payload qos outcome now w).1.outbox ≡ w.outbox)
  unfolding deliver clear_sink evict_slow
  deliver_offline accepted now w (inl e) = ground (arith, next_pkid-keeps w.session)
  deliver_offline accepted now w (inr h) = absurd (h refl)
  deliver_offline timed_out now w h = ground (arith, next_pkid-keeps w.session)
  deliver_offline closed now w h = ground (arith, next_pkid-keeps w.session)
