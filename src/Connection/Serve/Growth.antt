-- ===== src/Connection/Serve/Growth.antt =====
-- How a connection grows from the greeting to its last will: authorized operations and packets that
-- the writer can encode.
use entmoot.Common.{
  ℕ, ◌+◌, ◌≡◌, refl, sym, ap, ◌∙◌, inl, inr, Bool, true, false, Option, none, some, List, [], ◌∷◌,
  ◌++◌, Result, ok, err, Str, Bytes, codes, All, Bool-cases, Option-cases, Result-cases,
  if◌then◌else◌, is_empty, subst,
}
use entmoot.Mqtt.{QosCodec, Packet, Publish, LastWill, at_least_once, success}
use entmoot.Bus.{BusOp, put}
use entmoot.Auth.{may_publish}
use entmoot.Topic.{topic_to_keyexpr, retained_keyexpr}
use entmoot.Persist.{Message}
use entmoot.Session.{next_pkid}
use entmoot.Registry.{Registry, AttachOutcome}
use entmoot.Admission.{Governor}
use entmoot.Retained.{SystemTime, MatchCache, encode_envelope}
use entmoot.Connection.{Client, ClientError, Handled, send, fire_will, try_bus, client_event}
use entmoot.Connection.Framing.{can_encode}
use entmoot.Connection.Loop.{Conn, run}
use entmoot.Connection.Authority.{
  IsAuthorized, publishes, retains, Extends, Extends-same, Extends-trans, on_bus-Extends, if-same,
  send-Extends, then_do-Extends,
}
use entmoot.Connection.Authority.Handlers.{client_event-Extends}
use entmoot.Connection.Authority.Rounds.{run-Keeps}
use entmoot.Connection.Arrival.{Broker, Report, report, shown}
use entmoot.Connection.Serve.{Shared, Opened, Course, drain, welcome, finish, ended, greeted}

module _ (codec : QosCodec) (digest : Bytes → Bytes) (takes : BusOp → Bool) (declares : Str → Bool)
    (gov : Governor) (mc : MatchCache) (b : Broker) where
  abbrev pub Grows : Client → Client → Type 0
  Grows c c' = Extends b.acl b.scope takes c c'

  -- Without its last will.
  abbrev pub bare : Client → Client
  bare c = record c { will = none }

  Extends-bare : (c d : Client) → Grows c d → Grows (bare c) (bare d)
  Extends-bare c d g = record {
    ops = g.ops;
    log = g.log;
    authorized = g.authorized;
    packets = g.packets;
    sent = g.sent;
    encodable = g.encodable;
    same_identity = g.same_identity;
    same_will = refl;
  }

  try_bus-Extends :
      (op : BusOp) (c : Client)
      → IsAuthorized b.acl b.scope c.identity op
      → Grows c (try_bus b.acl b.scope takes op c)
  unfolding try_bus
  try_bus-Extends = on_bus-Extends b.acl b.scope takes

  will_sent-Extends :
      (ke : Str) (now : SystemTime) (will : LastWill) (c : Client)
      → topic_to_keyexpr will.topic b.scope ≡ ok ke
      → may_publish b.acl c.identity will.topic ≡ true
      → let fired = try_bus b.acl b.scope takes (put ke will.message) c in
        let kept = put (retained_keyexpr will.topic b.scope) (encode_envelope will.message now) in
        Grows c (
          if will.retain
          then if is_empty will.message then fired else try_bus b.acl b.scope takes kept fired
          else fired)
  will_sent-Extends ke now will c k m =
      let fired = try_bus b.acl b.scope takes (put ke will.message) c in
      let raw = encode_envelope will.message now in
      let kept =
        try_bus b.acl b.scope takes (put (retained_keyexpr will.topic b.scope) raw) fired in
      let g = try_bus-Extends (put ke will.message) c (publishes will.topic ke will.message k m) in
      let m' = ap (λ i. may_publish b.acl i will.topic) g.same_identity ∙ m in
      if-same b.acl b.scope takes c will.retain (if is_empty will.message then fired else kept)
        fired
        (if-same b.acl b.scope takes c (is_empty will.message) fired kept g (
          Extends-trans b.acl b.scope takes g
            (try_bus-Extends _ fired (retains will.topic ke raw k m'))))
        g

  fire_will-Extends :
      (now : SystemTime) (c : Client) → Grows (bare c) (bare (fire_will b.acl b.scope takes now c))
  unfolding fire_will
  fire_will-Extends now c =
      let c' = bare c in
      let same = Extends-same b.acl b.scope takes c' c' refl refl refl refl in
      elim (Option-cases c.will) [
        | inl w ↦ rw (w, fire_will) same
        | inr (will, w) ↦ elim (Bool-cases (may_publish b.acl c.identity will.topic)) [
          | inr m ↦ rw (w, m, fire_will) same
          | inl m ↦ elim (Result-cases (topic_to_keyexpr will.topic b.scope)) [
            | inr (e, k) ↦ rw (w, m, k, fire_will) same
            | inl (ke, k) ↦
                rw (w, m, k, fire_will) (Extends-bare c' _ (will_sent-Extends ke now will c' k m))
          ]
        ]
      ]

  drain-Extends :
      (backlog : List Message) (c : Client)
      → Grows c (drain codec digest takes declares gov mc b backlog c).1
  unfolding drain can_encode
  drain-Extends [] c = Extends-same b.acl b.scope takes c c refl refl refl refl
  drain-Extends ((t, payload) ∷ backlog) c =
      let (pkid, s) = next_pkid c.session in
      let p : Publish = record {
        topic = t;
        qos = at_least_once;
        pkid = pkid;
        retain = false;
        payload = payload;
      } in
      let c' = record c { session = s } in
      let counted = λ (d : Client). record d {
        metrics = record d.metrics { messages_out_total = d.metrics.messages_out_total + 1 };
      } in
      then_do-Extends b.acl b.scope takes c (send (Packet.publish p) c')
        (λ d. drain codec digest takes declares gov mc b backlog (counted d))
        (Extends-trans b.acl b.scope takes
          (Extends-same b.acl b.scope takes c c' refl refl refl refl)
          (send-Extends b.acl b.scope takes (Packet.publish p) c' refl))
        (λ d g. Extends-trans b.acl b.scope takes g (
          Extends-trans b.acl b.scope takes
            (Extends-same b.acl b.scope takes d (counted d) refl refl refl refl)
            (drain-Extends backlog (counted d))))

  pub welcome-Extends :
      (peer : Str) (clean : Bool) (o : AttachOutcome) (c : Client)
      → Grows c (welcome codec digest takes declares gov mc b peer clean o c).1
  unfolding welcome can_encode
  welcome-Extends peer clean o c =
      let event = codes "connect addr=" ++ (peer ++ (codes " clean=" ++ shown clean)) in
      then_do-Extends b.acl b.scope takes c (send (Packet.conn_ack success o.session_present) c)
        (λ d.
          drain codec digest takes declares gov mc b o.backlog
            (client_event b.acl b.scope takes b.id event d))
        (send-Extends b.acl b.scope takes (Packet.conn_ack success o.session_present) c refl)
        (λ d g. Extends-trans b.acl b.scope takes g (
          Extends-trans b.acl b.scope takes (client_event-Extends b.acl b.scope takes b.id event d)
            (drain-Extends o.backlog (client_event b.acl b.scope takes b.id event d))))

  -- The logs of a report are those of a client that the connection's client grew into.
  pub record Continues (c : Client) (r : Report) : Type 0 where
    pub last : Client
    pub same_report : r ≡ report r.result last
    pub grown : Grows (bare c) (bare last)

  finish-Extends :
      (now : SystemTime) (instant : ℕ) (clean : Bool) (o : AttachOutcome)
      (result : Result (Unit {0}) ClientError) (c : Client) (r : Registry)
      → Grows
          (bare c)
          (bare (finish codec digest takes declares gov mc b now instant clean o result c r).0)
  unfolding finish
  finish-Extends now instant clean o (ok u) c r =
      Extends-bare c _ (client_event-Extends b.acl b.scope takes b.id _ c)
  finish-Extends now instant clean o (err e) c r =
      let c' = fire_will b.acl b.scope takes now c in
      Extends-trans b.acl b.scope takes (fire_will-Extends now c)
        (Extends-bare c' _ (client_event-Extends b.acl b.scope takes b.id _ c'))

  ended-Continues :
      (course : Course codec digest takes declares gov mc b) (clean : Bool) (o : AttachOutcome)
      (t : Option (Result (Unit {0}) ClientError) × Conn mc) (s : Shared gov mc)
      → Continues t.1.0 (ended codec digest takes declares gov mc b course clean o t s).0
  unfolding ended
  ended-Continues course clean o (none, (c, store)) s = record {
    last = c;
    same_report = refl;
    grown = Extends-same b.acl b.scope takes _ _ refl refl refl refl;
  }
  ended-Continues course clean o (some result, (c, store)) s = record {
    last =
        (finish codec digest takes declares gov mc b course.now course.instant clean o result c
          s.registry).0;
    same_report = refl;
    grown = finish-Extends course.now course.instant clean o result c s.registry;
  }

  pub greeted-Continues :
      (course : Course codec digest takes declares gov mc b) (clean : Bool) (o : AttachOutcome)
      (h : Handled) (s : Shared gov mc)
      → Continues h.1 (greeted codec digest takes declares gov mc b course clean o h s).0
  unfolding greeted
  greeted-Continues course clean o (err e, c) s = record {
    last = c;
    same_report = refl;
    grown = Extends-same b.acl b.scope takes _ _ refl refl refl refl;
  }
  greeted-Continues course clean o (ok u, c) s =
      let t =
        run codec b.acl b.scope takes declares b.staleness b.id mc course.events (c, s.retained) in
      let k = ended-Continues course clean o t (course.meanwhile s) in
      record {
        last = k.last;
        same_report = k.same_report;
        grown =
            Extends-trans b.acl b.scope takes
              (Extends-bare _ t.1.0 (
                run-Keeps codec b.acl b.scope takes declares b.staleness b.id mc course.events c
                  s.retained))
              k.grown;
      }

  pub session-Continues :
      (peer : Str) (course : Course codec digest takes declares gov mc b)
      (o : Opened codec digest takes declares gov mc b) (s : Shared gov mc)
      → Continues o.client
          (greeted codec digest takes declares gov mc b course o.clean o.outcome
            (welcome codec digest takes declares gov mc b peer o.clean o.outcome o.client)
            s).0
  session-Continues peer course o s =
      let h = welcome codec digest takes declares gov mc b peer o.clean o.outcome o.client in
      let k = greeted-Continues course o.clean o.outcome h s in
      record {
        last = k.last;
        same_report = k.same_report;
        grown =
            Extends-trans b.acl b.scope takes
              (Extends-bare o.client h.1 (welcome-Extends peer o.clean o.outcome o.client)) k.grown;
      }

  pub Continues-logs :
      (c : Client) (r : Report)
      → Continues c r
      → c.bus ≡ []
      → c.sent ≡ []
      → All (IsAuthorized b.acl b.scope c.identity) r.bus × All (λ p. can_encode p ≡ true) r.sent
  Continues-logs c r k no_bus no_sent =
      let g = k.grown in
      let bus_path =
        ap (λ (x : Report). x.bus) k.same_report ∙ g.log ∙ ap (λ l. l ++ g.ops) no_bus in
      let sent_path =
        ap (λ (x : Report). x.sent) k.same_report ∙ g.sent ∙ ap (λ l. l ++ g.packets) no_sent in
      (
        subst (All (IsAuthorized b.acl b.scope c.identity)) (sym bus_path) g.authorized,
        subst (All (λ p. can_encode p ≡ true)) (sym sent_path) g.encodable,
      )
