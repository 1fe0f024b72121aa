-- ===== src/Delivery.antt =====
-- `SessionState::deliver` of crates/entmoot-node/src/session.rs, as the steps between which other
-- operations on the session may come: the reading of the sink, the end of a send, the offline path.
--
-- What becomes of a send (`SendOutcome`) is decided by the channel: an argument of the step.
pub mod Sequential
pub mod Interleaving
pub mod Backlog
pub mod Forwarding
mod Runs
use entmoot.Common.{
  ℕ, suc, zero, ◌+◌, ◌-◌, Bool, true, false, ◌||◌, Option, none, some, List, [], ◌∷◌, ◌++◌, Str,
  Bytes, length, leb, ◌==◌, if◌then◌else◌,
}
use entmoot.Mqtt.{QoS, Publish, is_at_most_once}
use entmoot.Persist.{Message, push_bounded}
use entmoot.Session.{
  SessionState, Inner, Host, same_channel, is_some, next_pkid, evict_slow, persist_queue,
}

pub data Delivery : Type 0 where
  sent queued dropped : Delivery

pub data SendOutcome : Type 0 where
  accepted timed_out closed : SendOutcome

-- Where the loop of `deliver` stands.
pub data Phase : Type 0 where
  start offline : Phase
  sending : ℕ → Publish → Phase
  finished : Delivery → Phase

-- `outbox` is what the channels took, and `evictions` the metric of slow consumers.
pub record World : Type 0 where
  pub session : SessionState
  pub host : Host
  pub outbox : List (ℕ × Publish)
  pub evictions : ℕ

-- `if inner.sink is still tx { inner.sink = None; inner.offline_since = now }`
unfoldable pub clear_sink : ℕ → ℕ → SessionState → SessionState
clear_sink now tx s =
    if same_channel s.sink tx
    then record s { inner = record s.inner { sink = none; offline_since = some now } }
    else s

abbrev pub packet : Str → Bytes → QoS → ℕ → Publish
packet topic payload qos pkid = record {
  topic = topic;
  qos = qos;
  pkid = pkid;
  retain = false;
  payload = payload;
}

module _ (topic : Str) (payload : Bytes) (qos : QoS) where
  start_step : World → Phase × World
  start_step w = elim w.session.sink [
    | none ↦ (offline, w)
    | some tx ↦
        if is_at_most_once qos
        then (sending tx (packet topic payload qos 0), w)
        else (let (id, s) = next_pkid w.session in
            (sending tx (packet topic payload qos id), record w { session = s }))
  ]

  evicted : ℕ → ℕ → World → World
  evicted now tx w =
      let (s, h, n) = evict_slow now tx w.session w.host in
      record w { session = s; host = h; evictions = w.evictions + n }

  cleared : ℕ → ℕ → World → World
  cleared now tx w = record w { session = clear_sink now tx w.session }

  sending_step : SendOutcome → ℕ → ℕ → Publish → World → Phase × World
  unfolding evicted cleared
  sending_step accepted now tx p w =
      (finished sent, record w { outbox = w.outbox ++ ((tx, p) ∷ []) })
  sending_step timed_out now tx p w =
      (start, cleared now tx (if is_some w.session.slow_grace then evicted now tx w else w))
  sending_step closed now tx p w = (start, cleared now tx w)

  enqueue : SessionState → SessionState
  enqueue s = record s {
    inner = record s.inner {
      queue = push_bounded s.max_queue s.queue (topic, payload);
      dropped = if leb s.max_queue (length s.queue) then s.dropped + 1 else s.dropped;
    };
  }

  offline_step : World → Phase × World
  unfolding enqueue
  offline_step w =
      if is_at_most_once qos || w.session.max_queue == 0
      then (finished dropped, w)
      else if is_some w.session.sink
      then (start, w)
      else (let s = enqueue w.session in
          (finished queued, record w { session = s; host = persist_queue s w.host }))

  unfoldable pub deliver_step : SendOutcome → ℕ → Phase → World → Phase × World
  unfolding start_step sending_step offline_step
  deliver_step outcome now start w = start_step w
  deliver_step outcome now (sending tx p) w = sending_step outcome now tx p w
  deliver_step outcome now offline w = offline_step w
  deliver_step outcome now (finished d) w = (finished d, w)

  -- The loop with nothing in between, for as many steps as the fuel allows.
  unfoldable pub run : ℕ → SendOutcome → ℕ → Phase → World → Phase × World
  unfolding deliver_step
  run zero outcome now phase w = (phase, w)
  run (suc fuel) outcome now phase w =
      let (phase', w') = deliver_step outcome now phase w in run fuel outcome now phase' w'

  unfoldable pub deliver : SendOutcome → ℕ → World → Phase × World
  unfolding run
  deliver outcome now w = run 4 outcome now start w
