-- ===== src/Connection/Serve/Abandoned.antt =====
-- A connection that fails between its attach and its loop.
use entmoot.Common.{
  ℕ, ◌≡◌, refl, ap, ◌∙◌, Bool, true, false, some, [], ok, err, Str, Bytes, arith, str_eq_iff,
}
use entmoot.Common.Dict
use entmoot.Mqtt.{QosCodec, Connect}
use entmoot.Bus.{BusOp}
use entmoot.Admission.{Governor, admit}
use entmoot.Session.{SessionState}
use entmoot.Registry.{attach, assign}
use entmoot.Registry.Attach.{attach_lem}
use entmoot.Retained.{MatchCache}
use entmoot.Connection.{writer_closed, send}
use entmoot.Connection.Arrival.{Arrival, Broker, client_name, first_connect, identify}
use entmoot.Connection.Serve.{
  Shared, Course, accept, open_session, welcome, give_back, greeted, serve,
}

module _ (codec : QosCodec) (digest : Bytes → Bytes) (takes : BusOp → Bool) (declares : Str → Bool)
    (gov : Governor) (mc : MatchCache) (b : Broker) where
  assign-same : (ref : ℕ) (s : SessionState) (store : ℕ → SessionState) → assign ref s store ref ≡ s
  assign-same ref s store = ground arith

  -- If the writer has closed before the CONNACK, the connection is over with nothing sent, but it is
  -- not detached: its session stays in the registry, and online on the channel that has closed.
  pub serve-abandoned :
      (a : Arrival) (course : Course codec digest takes declares gov mc b) (s : Shared gov mc)
      (connect : Connect) (identity : Str)
      → first_connect a.first ≡ ok connect
      → (admit gov a.instant s.connect_admission).0 ≡ true
      → identify digest b a.cert_identity connect ≡ ok identity
      → a.writer_open ≡ false
      → let (client_id, clean) = client_name a.nanos connect in
        let (o, r) = attach codec client_id identity clean a.sink a.kick s.registry in
        let (report, s') = serve codec digest takes declares gov mc b a course s in
        (report.result ≡ some (err writer_closed))
        × (report.sent ≡ [])
        × (Dict.get client_id s'.registry.sessions ≡ some o.session)
        × ((s'.registry.store o.session).sink ≡ some a.sink)
  unfolding serve accept open_session welcome send greeted give_back
  serve-abandoned a course s connect identity f m i w =
      let (client_id, clean) = client_name a.nanos connect in
      let (o, r) = attach codec client_id identity clean a.sink a.kick s.registry in
      let (entry, online) =
        attach_lem codec client_id identity a.sink a.kick clean s.registry client_id in
      rw (f, m, i, accept, w, send, welcome, greeted, serve)
        (
          refl,
          refl,
          ground (arith, entry, str_eq_iff client_id client_id),
          ap (λ (x : SessionState). x.sink) (assign-same o.session (r.store o.session) r.store)
              ∙ online.0,
        )
