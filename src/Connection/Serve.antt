-- ===== src/Connection/Serve.antt =====
-- A connection from its first packet to its end (`serve` of
-- crates/entmoot-node/src/connection.rs).
--
-- Logs of packets, of operations on the bus and of counters are the connection's own. What the other
-- tasks do to the node while the loop runs is `meanwhile`, and may be anything.
pub mod Greeting
pub mod Farewell
pub mod Abandoned
pub mod Growth
pub mod Lifetime
mod Runs
use entmoot.Common.{
  ℕ, ◌+◌, Bool, false, Option, none, some, List, [], ◌∷◌, ◌++◌, Result, ok, err, Str, Bytes, codes,
  is_ok, if◌then◌else◌,
}
use entmoot.Metrics.{default_metrics}
use entmoot.Mqtt
use entmoot.Mqtt.{QosCodec, Packet, Publish, Connect, success, service_unavailable, at_least_once}
use entmoot.Bus.{BusOp}
use entmoot.Admission.{Governor, ConnectAdmission, admit}
use entmoot.Persist.{Message}
use entmoot.Session.{next_pkid}
use entmoot.Registry.{Registry, AttachOutcome, attach, detach, assign}
use entmoot.RateLimiter.{new_limiter}
use entmoot.Retained.{SystemTime, MatchCache, RetainedStore}
use entmoot.Connection.{Client, ClientError, Handled, then_do, done, send, fire_will, client_event}
use entmoot.Connection.Loop.{Event, Conn, run}
use entmoot.Connection.Arrival.{
  Arrival, Broker, Report, report, rejected, refuse, refusal, client_name, shown, first_connect,
  identify,
}

module _ (gov : Governor) (mc : MatchCache) where
  -- The parts of `Broker` that connections share.
  pub record Shared : Type 0 where
    pub connect_admission : ConnectAdmission gov
    pub registry : Registry
    pub retained : RetainedStore mc

module _ (codec : QosCodec) (digest : Bytes → Bytes) (takes : BusOp → Bool) (declares : Str → Bool)
    (gov : Governor) (mc : MatchCache) (b : Broker) where
  -- The session, until the loop starts.
  pub record Opened : Type 0 where
    pub client : Client
    pub clean : Bool
    pub outcome : AttachOutcome

  unfoldable pub open_session : Arrival → Connect → Str → Shared gov mc → Opened × Shared gov mc
  open_session a connect identity s =
      let (client_id, clean) = client_name a.nanos connect in
      let (outcome, r) = attach codec client_id identity clean a.sink a.kick s.registry in
      (
        record {
          client = record {
            session = r.store outcome.session;
            host = r.host;
            next_task = r.next_task;
            id = client_id;
            identity = identity;
            keep_alive = connect.keep_alive;
            will = connect.last_will;
            rate = new_limiter b.max_publish_rate a.instant;
            inflight_qos2 = [];
            metrics = record default_metrics { connections_total = 1 };
            bus = [];
            sent = [];
            writer_open = a.writer_open;
          };
          clean = clean;
          outcome = outcome;
        },
        record s { registry = r },
      )

  -- Everything up to the session: the connection is over with a report, or has one.
  unfoldable pub accept :
      Arrival → Shared gov mc → Result (Opened × Shared gov mc) (Report × Shared gov mc)
  unfolding open_session
  accept a s = elim (first_connect a.first) [
    | err e ↦ err (rejected (err e) [] default_metrics, s)
    | ok connect ↦
        let (admitted, admission) = admit gov a.instant s.connect_admission in
        let s' = record s { connect_admission = admission } in
        if admitted
        then elim (identify digest b a.cert_identity connect) [
          | err denied ↦ err (
            refuse a.written (refusal denied)
                (record default_metrics { connect_refused_total = 1 }),
            s',
          )
          | ok identity ↦ ok (open_session a connect identity s')
        ]
        else err (
          refuse a.written service_unavailable (record default_metrics { connect_shed_total = 1 }),
          s',
        )
  ]

  -- The backlog drains first.
  unfoldable pub drain : List Message → Client → Handled
  drain [] c = done c
  drain ((t, payload) ∷ backlog) c =
      let (pkid, s) = next_pkid c.session in
      let p : Publish = record {
        topic = t;
        qos = at_least_once;
        pkid = pkid;
        retain = false;
        payload = payload;
      } in
      then_do (send (Packet.publish p) (record c { session = s })) (λ c'. drain backlog (record c' {
        metrics = record c'.metrics { messages_out_total = c'.metrics.messages_out_total + 1 };
      }))

  -- From the CONNACK to the end of the backlog.
  unfoldable pub welcome : Str → Bool → AttachOutcome → Client → Handled
  welcome peer clean outcome c =
      then_do (send (Packet.conn_ack success outcome.session_present) c) (λ c'.
        drain outcome.backlog (
          client_event b.acl b.scope takes b.id
            (codes "connect addr=" ++ (peer ++ (codes " clean=" ++ shown clean))) c'))

  -- The session of a connection goes back to the registry.
  unfoldable pub give_back : ℕ → Client → Registry → Registry
  give_back ref c r = record r {
    store = assign ref c.session r.store;
    host = c.host;
    next_task = c.next_task;
  }

  -- What follows the loop.
  unfoldable pub finish :
      SystemTime
      → ℕ
      → Bool
      → AttachOutcome
      → Result (Unit {0}) ClientError
      → Client
      → Registry
      → Client × Registry
  finish now instant clean outcome result c r =
      let c' = if is_ok result then c else fire_will b.acl b.scope takes now c in
      let reason = if is_ok result then codes "clean" else codes "abnormal" in
      (
        client_event b.acl b.scope takes b.id (codes "disconnect reason=" ++ reason) c',
        detach instant outcome.session outcome.epoch clean (give_back outcome.session c' r),
      )

  -- The readings of the clocks and the events of a connection that has a session, and what the other
  -- tasks do meanwhile to the node.
  pub record Course : Type 0 where
    pub events : List Event
    pub meanwhile : Shared gov mc → Shared gov mc
    pub now : SystemTime
    pub instant : ℕ

  -- What follows the loop, if it has ended.
  unfoldable pub ended :
      Course
      → Bool
      → AttachOutcome
      → Option (Result (Unit {0}) ClientError) × Conn mc
      → Shared gov mc
      → Report × Shared gov mc
  unfolding give_back finish
  ended course clean outcome (none, (c, store)) s = (
    report none c,
    record s { registry = give_back outcome.session c s.registry; retained = store },
  )
  ended course clean outcome (some result, (c, store)) s =
      let (c', registry) = finish course.now course.instant clean outcome result c s.registry in
      (report (some result) c', record s { registry = registry; retained = store })

  -- What follows the greeting.
  unfoldable pub greeted :
      Course → Bool → AttachOutcome → Handled → Shared gov mc → Report × Shared gov mc
  unfolding give_back ended
  greeted course clean outcome (err e, c) s =
      (report (some (err e)) c, record s { registry = give_back outcome.session c s.registry })
  greeted course clean outcome (ok u, c) s =
      ended course clean outcome
        (run codec b.acl b.scope takes declares b.staleness b.id mc course.events (c, s.retained))
        (course.meanwhile s)

  unfoldable pub serve : Arrival → Course → Shared gov mc → Report × Shared gov mc
  unfolding accept welcome greeted
  serve a course s = elim (accept a s) [
    | err refused ↦ refused
    | ok (o, s') ↦ greeted course o.clean o.outcome (welcome a.peer o.clean o.outcome o.client) s'
  ]
