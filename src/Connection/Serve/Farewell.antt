-- ===== src/Connection/Serve/Farewell.antt =====
-- What becomes of the last will and of the session when a connection ends.
use entmoot.Common.{
  ◌==◌, ℕ, ◌≡◌, ap, ◌∙◌, Bool, Option, none, some, List, [], ◌∷◌, ◌++◌, slash, Result, ok, err, Str,
  Bytes, codes, if◌then◌else◌, arith, is_ok,
}
use entmoot.Mqtt.{QosCodec, LastWill}
use entmoot.Bus.{BusOp, put}
use entmoot.Topic.{meta_keyexpr}
use entmoot.Admission.{Governor}
use entmoot.Session.{SessionState, detach_conn, abort_subs}
use entmoot.Registry.{Registry, AttachOutcome, detach}
use entmoot.Retained.{SystemTime, MatchCache, RetainedStore}
use entmoot.Connection.{Client, Handled, ClientError, fire_will, try_bus, on_bus}
use entmoot.Connection.Publishing.{willed}
use entmoot.Connection.Loop.{run}
use entmoot.Connection.Arrival.{Arrival, Broker}
use entmoot.Connection.Serve.{Shared, Course, accept, welcome, give_back, finish, ended}

-- What a connection publishes last for its client: after an error its last will, and else nothing.
pub last_words : Str → Str → SystemTime → LastWill → Result (Unit {0}) ClientError → List BusOp
last_words scope ke now will (ok u) = []
last_words scope ke now will (err e) = willed scope ke now will

module _ (codec : QosCodec) (digest : Bytes → Bytes) (takes : BusOp → Bool) (declares : Str → Bool)
    (gov : Governor) (mc : MatchCache) (b : Broker) where
  -- The notice about a client, and the one that it has gone.
  notice : Client → Str → BusOp
  notice c event = put (meta_keyexpr (codes "clients/" ++ (b.id ++ (slash ∷ c.id))) b.scope) event

  pub gone : Client → Result (Unit {0}) ClientError → BusOp
  unfolding notice
  gone c (ok u) = notice c (codes "disconnect reason=clean")
  gone c (err e) = notice c (codes "disconnect reason=abnormal")

  fire_will-session :
      (now : SystemTime) (c : Client) → (fire_will b.acl b.scope takes now c).session ≡ c.session
  unfolding fire_will try_bus on_bus
  fire_will-session now c = ground arith

  detach-sink :
      (now ref epoch : ℕ) (clean : Bool) (r : Registry)
      → ((detach now ref epoch clean r).store ref).sink
        ≡ (if (r.store ref).epoch == epoch then none else (r.store ref).sink)
  unfolding detach detach_conn abort_subs
  detach-sink now ref epoch clean r = ground arith

  -- A connection whose loop has ended leaves its session offline, unless another connection has taken
  -- the session over; then the session keeps the other's channel.
  pub ended-sink :
      (course : Course codec digest takes declares gov mc b) (clean : Bool) (o : AttachOutcome)
      (result : Result (Unit {0}) ClientError) (c : Client) (store : RetainedStore mc)
      (s : Shared gov mc)
      → ((ended codec digest takes declares gov mc b course clean o
            (some result, (c, store))
            s).1.registry.store
          o.session).sink
        ≡ (if c.session.epoch == o.epoch then none else c.session.sink)
  unfolding ended finish give_back
  ended-sink course clean o result c store s =
      let c' = if is_ok result then c else fire_will b.acl b.scope takes course.now c in
      let same : c'.session ≡ c.session = ground (arith, fire_will-session course.now c) in
      let r = give_back codec digest takes declares gov mc b o.session c' s.registry in
      let own : r.store o.session ≡ c.session = ground (arith, same) in
      detach-sink course.instant o.session o.epoch clean r
      ∙ ap (λ (x : SessionState). if x.epoch == o.epoch then none else x.sink) own

  -- The client as its loop leaves it, if the connection is let in and greeted.
  greeted_client :
      Course codec digest takes declares gov mc b → Handled → Shared gov mc → Option Client
  greeted_client course (err e, c) s = none
  greeted_client course (ok u, c) s =
      some
        (run codec b.acl b.scope takes declares b.staleness b.id mc course.events
          (c, s.retained)).1.0

  pub loop_client :
      Arrival → Course codec digest takes declares gov mc b → Shared gov mc → Option Client
  unfolding greeted_client
  loop_client a course s = elim (accept codec digest takes declares gov mc b a s) [
    | err e ↦ none
    | ok (o, s') ↦
        greeted_client course
          (welcome codec digest takes declares gov mc b a.peer o.clean o.outcome o.client) s'
  ]
