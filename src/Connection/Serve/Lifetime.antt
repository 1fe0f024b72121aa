-- ===== src/Connection/Serve/Lifetime.antt =====
-- What a connection may do from its first packet to its last will.
use entmoot.Common.{
  ◌≡◌, refl, ap, ◌⊎◌, ◌≢◌, inl, inr, Bool, true, false, List, [], ◌∷◌, Result, ok, err, Str, Bytes,
  All, Bool-cases, Result-cases, subst,
}
use entmoot.Mqtt.{service_unavailable, ConnectReturnCode, QosCodec, Packet, Connect, success}
use entmoot.Bus.{BusOp}
use entmoot.Auth.{ConnectDenied, bad_credentials, anonymous_not_allowed}
use entmoot.Admission.{Governor, admit}
use entmoot.Metrics.{Metrics, default_metrics}
use entmoot.Retained.{MatchCache}
use entmoot.Connection.Framing.{can_encode}
use entmoot.Connection.Authority.{IsAuthorized}
use entmoot.Connection.Arrival.{Arrival, Broker, Report, refuse, refusal, first_connect, identify}
use entmoot.Connection.Serve.{Shared, Opened, Course, accept, open_session, serve}
use entmoot.Connection.Serve.Growth.{session-Continues, Continues-logs}

module _ (codec : QosCodec) (digest : Bytes → Bytes) (takes : BusOp → Bool) (declares : Str → Bool)
    (gov : Governor) (mc : MatchCache) (b : Broker) where
  -- The identity that the client's certificate or its credentials prove.
  abbrev pub Proves : Arrival → Str → Type 0
  Proves a identity =
      (connect : Connect) × (first_connect a.first ≡ ok connect)
      × (identify digest b a.cert_identity connect ≡ ok identity)

  abbrev Encodable : List Packet → Type 0
  Encodable = All (λ p. can_encode p ≡ true)

  -- At most one packet, a CONNACK that refuses.
  pub IsRefusal : List Packet → Type 0
  IsRefusal sent =
      (sent ≡ [])
      ⊎ ((code : ConnectReturnCode) × (code ≢ success) × (sent ≡ Packet.conn_ack code false ∷ []))

  -- What there is to know of the two outcomes of `accept`.
  pub IsLawful :
      Arrival
      → Shared gov mc
      → Result
          (Opened codec digest takes declares gov mc b × Shared gov mc)
          (Report × Shared gov mc)
      → Type 0
  IsLawful a s (err (r, s')) =
      (r.bus ≡ [])
      × Encodable r.sent
      × (s'.registry ≡ s.registry)
      × (s'.retained ≡ s.retained)
      × (r.metrics.connections_total ≡ 0)
      × IsRefusal r.sent
  IsLawful a s (ok (o, s')) =
      Proves a o.client.identity × (o.client.bus ≡ []) × (o.client.sent ≡ [])

  refuse_lem :
      (written : Bool) (code : ConnectReturnCode) (m : Metrics)
      → code ≢ success
      → let r = refuse written code m in
        (r.bus ≡ []) × Encodable r.sent × (r.metrics ≡ m) × IsRefusal r.sent
  unfolding can_encode IsRefusal
  refuse_lem true code m n = (refl, (refl, tt), refl, inr (code, n, refl))
  refuse_lem false code m n = (refl, tt, refl, inl refl)

  refusal-ne-success : (d : ConnectDenied) → refusal d ≢ success
  refusal-ne-success bad_credentials = λ e. cc
  refusal-ne-success anonymous_not_allowed = λ e. cc

  accept-IsLawful :
      (a : Arrival) (s : Shared gov mc)
      → IsLawful a s (accept codec digest takes declares gov mc b a s)
  unfolding accept IsLawful IsRefusal open_session
  accept-IsLawful a s = elim (Result-cases (first_connect a.first)) [
    | inr (e, f) ↦ rw (f, accept) (refl, tt, refl, refl, refl, inl refl)
    | inl (connect, f) ↦ elim (Bool-cases (admit gov a.instant s.connect_admission).0) [
      | inr m ↦
          let l =
            refuse_lem a.written service_unavailable
              (record default_metrics { connect_shed_total = 1 }) (λ e. cc) in
          rw (f, m, accept)
            (l.0, l.1, refl, refl, ap (λ (x : Metrics). x.connections_total) l.2, l.3)
      | inl m ↦ elim (Result-cases (identify digest b a.cert_identity connect)) [
        | inr (d, i) ↦
            let l =
              refuse_lem a.written (refusal d)
                (record default_metrics { connect_refused_total = 1 }) (refusal-ne-success d) in
            rw (f, m, i, accept)
              (l.0, l.1, refl, refl, ap (λ (x : Metrics). x.connections_total) l.2, l.3)
        | inl (identity, i) ↦ rw (f, m, i, accept) ((connect, f, i), refl, refl)
      ]
    ]
  ]

  -- Whatever arrives, whatever the client sends and whatever the other tasks do, a connection has put
  -- on the bus either nothing, or only operations that are authorized for the identity which the
  -- client's certificate or credentials prove; the last will is among them. And each packet
  -- that it sends is one that the writer can encode.
  pub serve-IsAuthorized :
      (a : Arrival) (course : Course codec digest takes declares gov mc b) (s : Shared gov mc)
      → let r = (serve codec digest takes declares gov mc b a course s).0 in
        ((r.bus ≡ [])
          ⊎ ((identity : Str) × Proves a identity
              × All (IsAuthorized b.acl b.scope identity) r.bus))
        × Encodable r.sent
  unfolding serve IsLawful
  serve-IsAuthorized a course s =
      let law = accept-IsLawful a s in
      elim (Result-cases (accept codec digest takes declares gov mc b a s)) [
        | inr ((r, s'), e) ↦ let l = subst (IsLawful a s) e law in rw (e, serve) (inl l.0, l.1)
        | inl ((o, s'), e) ↦
            let l = subst (IsLawful a s) e law in
            let k = session-Continues codec digest takes declares gov mc b a.peer course o s' in
            let w = Continues-logs codec digest takes declares gov mc b o.client _ k l.1 l.2 in
            rw (e, serve) (inr (o.client.identity, l.0, w.0), w.1)
      ]

  -- A client that proves no identity gets no session: nothing reaches the bus, the registry and the
  -- retained messages stay as they were, no connection is counted, and at most a CONNACK that refuses is
  -- sent.
  pub serve-unproven :
      (a : Arrival) (course : Course codec digest takes declares gov mc b) (s : Shared gov mc)
      → ((identity : Str) → ¬ Proves a identity)
      → let (r, s') = serve codec digest takes declares gov mc b a course s in
        (r.bus ≡ [])
        × IsRefusal r.sent
        × (s'.registry ≡ s.registry)
        × (s'.retained ≡ s.retained)
        × (r.metrics.connections_total ≡ 0)
  unfolding serve IsLawful
  serve-unproven a course s h =
      let law = accept-IsLawful a s in
      elim (Result-cases (accept codec digest takes declares gov mc b a s)) [
        | inr ((r, s'), e) ↦
            let l = subst (IsLawful a s) e law in rw (e, serve) (l.0, l.5, l.2, l.3, l.4)
        | inl ((o, s'), e) ↦ let l = subst (IsLawful a s) e law in absurd (h o.client.identity l.0)
      ]
