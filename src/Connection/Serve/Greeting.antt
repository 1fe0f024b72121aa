-- ===== src/Connection/Serve/Greeting.antt =====
-- What a client gets that is let in: the CONNACK, and then its backlog.
use entmoot.Common.{
  ◌+◌, ◌≡◌, refl, sym, ap, ◌∙◌, Bool, true, false, List, [], ◌∷◌, ◌++◌, append_assoc, append-nil,
  map, ok, Str, Bytes, codes, arith,
}
use entmoot.Mqtt.{QosCodec, Packet, Publish, Connect, at_least_once, success}
use entmoot.Bus.{BusOp}
use entmoot.Persist.{Message}
use entmoot.Session.{SessionState, next_pkid}
use entmoot.Registry.{AttachOutcome, attach}
use entmoot.Admission.{Governor, admit}
use entmoot.Retained.{MatchCache}
use entmoot.Connection.{Client, Handled, then_do, client_event, try_bus, on_bus}
use entmoot.Connection.Sending.{send_open}
use entmoot.Connection.Arrival.{Arrival, Broker, client_name, first_connect, identify, shown}
use entmoot.Connection.Serve.{Shared, Course, accept, open_session, drain, welcome, serve}
use entmoot.Connection.Serve.Growth.{greeted-Continues}

-- The packets for a backlog, from a session that numbers them.
pub backlog_packets : SessionState → List Message → List Publish
backlog_packets s [] = []
backlog_packets s ((t, payload) ∷ backlog) =
    record {
      topic = t;
      qos = at_least_once;
      pkid = (next_pkid s).0;
      retain = false;
      payload = payload;
    }
    ∷ backlog_packets (next_pkid s).1 backlog

module _ (codec : QosCodec) (digest : Bytes → Bytes) (takes : BusOp → Bool) (declares : Str → Bool)
    (gov : Governor) (mc : MatchCache) (b : Broker) where
  drain_lem :
      (backlog : List Message) (c : Client)
      → c.writer_open ≡ true
      → ((drain codec digest takes declares gov mc b backlog c).0 ≡ ok tt)
        × ((drain codec digest takes declares gov mc b backlog c).1.sent
            ≡ c.sent ++ map Packet.publish (backlog_packets c.session backlog))
  unfolding drain backlog_packets
  drain_lem [] c w = (refl, sym (append-nil c.sent))
  drain_lem ((t, payload) ∷ backlog) c w =
      let (pkid, s) = next_pkid c.session in
      let p : Publish = record {
        topic = t;
        qos = at_least_once;
        pkid = pkid;
        retain = false;
        payload = payload;
      } in
      let c' = record c { session = s } in
      let counted = λ (d : Client). record d {
        metrics = record d.metrics { messages_out_total = d.metrics.messages_out_total + 1 };
      } in
      let sending =
        ap (λ h. then_do h (λ d. drain codec digest takes declares gov mc b backlog (counted d)))
          (send_open (Packet.publish p) c' w) in
      let rest =
        drain_lem backlog (counted (record c' { sent = c.sent ++ (Packet.publish p ∷ []) })) w in
      (
        ap (λ (h : Handled). h.0) sending ∙ rest.0,
        ap (λ (h : Handled). h.1.sent) sending
            ∙ rest.1
            ∙ append_assoc c.sent (Packet.publish p ∷ [])
                (map Packet.publish (backlog_packets s backlog)),
      )

  client_event-same :
      (event : Str) (c : Client)
      → let c' = client_event b.acl b.scope takes b.id event c in
        (c'.sent ≡ c.sent) × (c'.session ≡ c.session) × (c'.writer_open ≡ c.writer_open)
  unfolding client_event try_bus on_bus
  client_event-same event c = ground arith

  pub welcome_lem :
      (peer : Str) (clean : Bool) (o : AttachOutcome) (c : Client)
      → c.writer_open ≡ true
      → let h = welcome codec digest takes declares gov mc b peer clean o c in
        (h.0 ≡ ok tt)
        × (h.1.sent
            ≡ c.sent
              ++ (Packet.conn_ack success o.session_present
                  ∷ map Packet.publish (backlog_packets c.session o.backlog)))
  unfolding welcome
  welcome_lem peer clean o c w =
      let event = codes "connect addr=" ++ (peer ++ (codes " clean=" ++ shown clean)) in
      let ack = Packet.conn_ack success o.session_present in
      let next = λ (d : Client).
        drain codec digest takes declares gov mc b o.backlog
          (client_event b.acl b.scope takes b.id event d) in
      let d = record c { sent = c.sent ++ (ack ∷ []) } in
      let sending = ap (λ h. then_do h next) (send_open ack c w) in
      let e = client_event b.acl b.scope takes b.id event d in
      let same = client_event-same event d in
      let rest = drain_lem o.backlog e (same.2 ∙ w) in
      (
        ap (λ (h : Handled). h.0) sending ∙ rest.0,
        ap (λ (h : Handled). h.1.sent) sending
            ∙ rest.1
            ∙ ap (λ l. l ++ map Packet.publish (backlog_packets e.session o.backlog)) same.0
            ∙ append_assoc c.sent (ack ∷ [])
                (map Packet.publish (backlog_packets e.session o.backlog))
            ∙ ap (λ s. c.sent ++ (ack ∷ map Packet.publish (backlog_packets s o.backlog))) same.1,
      )

  -- A client that sends a CONNECT, passes admission and proves an identity is let in if its writer is
  -- open. Of the packets that its connection itself hands to the writer, the first is a CONNACK that
  -- says whether its session was there, then comes its whole backlog in order, and only then any
  -- other. Publishes that the session's tasks hand to the same writer may stand before or between; the
  -- backlog is numbered as if none of them drew an identifier meanwhile.
  pub serve-welcome :
      (a : Arrival) (course : Course codec digest takes declares gov mc b) (s : Shared gov mc)
      (connect : Connect) (identity : Str)
      → first_connect a.first ≡ ok connect
      → (admit gov a.instant s.connect_admission).0 ≡ true
      → identify digest b a.cert_identity connect ≡ ok identity
      → a.writer_open ≡ true
      → let (client_id, clean) = client_name a.nanos connect in
        let (o, r) = attach codec client_id identity clean a.sink a.kick s.registry in
        (rest : List Packet) × ((serve codec digest takes declares gov mc b a course s).0.sent
          ≡ (Packet.conn_ack success o.session_present
              ∷ map Packet.publish (backlog_packets (r.store o.session) o.backlog))
            ++ rest)
  unfolding serve accept open_session
  serve-welcome a course s connect identity f m i w =
      let s' = record s { connect_admission = (admit gov a.instant s.connect_admission).1 } in
      let (o, s'') = open_session codec digest takes declares gov mc b a connect identity s' in
      let h = welcome codec digest takes declares gov mc b a.peer o.clean o.outcome o.client in
      let k =
        greeted-Continues codec digest takes declares gov mc b course o.clean o.outcome h s'' in
      let l = welcome_lem a.peer o.clean o.outcome o.client w in
      rw (f, m, i, accept, serve)
        (
          k.grown.packets,
          ap (λ x. x.sent) k.same_report ∙ k.grown.sent ∙ ap (λ p. p ++ k.grown.packets) l.1,
        )
