-- ===== src/Connection/Serve/Runs.antt =====
-- A connection from its CONNECT to its last will, at concrete inputs.
use entmoot.Common.{
  ℕ, ◌-◌, ◌≡◌, ◌⊎◌, refl, ap, ◌∙◌, Bool, true, false, none, some, List, [], ◌∷◌, ◌++◌, map, ok, err,
  Str, Bytes, codes, All, ◌==◌, if◌then◌else◌,
}
use entmoot.Common.Dict
use entmoot.Mqtt
use entmoot.Mqtt.{Connect, LastWill, Packet, protocol_codec, at_least_once}
use entmoot.Admission.{Governor, admit}
use entmoot.Auth.{authenticate, anonymous_not_allowed}
use entmoot.Registry.{AttachOutcome, new_registry, attach}
use entmoot.Connection.{writer_closed, read_error}
use entmoot.Connection.Framing.{can_encode}
use entmoot.Connection.Loop.{received, read_failed}
use entmoot.Connection.Authority.{IsAuthorized}
use entmoot.Connection.Runs.{
  forgetful, replica, open_rules, no_policy, last_will, message, host, all, client,
}
use entmoot.Connection.Arrival.{
  Arrival, arrived, Broker, Report, client_name, first_connect, identify,
}
use entmoot.Connection.Serve.{Shared, Course, serve, ended}
use entmoot.Connection.Serve.Lifetime.{Proves, IsRefusal, serve-IsAuthorized, serve-unproven}
use entmoot.Connection.Serve.Greeting.{backlog_packets, serve-welcome}
use entmoot.Connection.Serve.Farewell.{ended-sink}
use entmoot.Connection.Serve.Abandoned.{serve-abandoned}

-- A limiter that lets a burst pass and then nothing.
abbrev counting : Governor
counting = record {
  Limiter = ℕ;
  direct = λ rate burst. burst;
  check = λ now l. if l == 0 then (false, 0) else (true, l - 1);
}

abbrev digest : Bytes → Bytes
digest b = b

abbrev any_key : Str → Bool
any_key ke = true

abbrev node : Broker
node = record {
  id = codes "n";
  scope = [];
  auth = record { users = []; allow_anonymous = false };
  acl = open_rules;
  staleness = no_policy;
  max_publish_rate = 0;
}

abbrev request : Connect
request = record {
  keep_alive = 60;
  client_id = codes "c";
  clean_session = true;
  last_will = some last_will;
  login = none;
}

abbrev arrival : Arrival
arrival = record {
  first = arrived (Packet.connect request);
  cert_identity = some (codes "ann");
  peer = codes "p";
  instant = 5;
  nanos = 7;
  written = true;
  writer_open = true;
  sink = 3;
  kick = 4;
}

abbrev shared : Shared counting forgetful
shared = record {
  connect_admission = record { limiter = none };
  registry = new_registry 10 none none host.disk;
  retained = replica;
}

-- The client publishes, and then its socket fails.
abbrev course : Course protocol_codec digest all any_key counting forgetful node
course = record {
  events = received 6 (λ m n. 7000000) (Packet.publish message) ∷ read_failed ∷ [];
  meanwhile = λ s. s;
  now = 9000000;
  instant = 8;
}

abbrev served : Arrival → Report × Shared counting forgetful
served a = serve protocol_codec digest all any_key counting forgetful node a course shared

abbrev Proven : Arrival → Str → Type 0
Proven = Proves protocol_codec digest all any_key counting forgetful node

serve-IsAuthorized_example :
    (((served arrival).0.bus ≡ [])
      ⊎ ((identity : Str) × Proven arrival identity
          × All (IsAuthorized open_rules [] identity) (served arrival).0.bus))
    × All (λ p. can_encode p ≡ true) (served arrival).0.sent
serve-IsAuthorized_example =
    serve-IsAuthorized protocol_codec digest all any_key counting forgetful node arrival course
      shared

-- A client with neither a certificate nor credentials.
abbrev stranger : Arrival
stranger = record arrival { cert_identity = none }

stranger_unproven : (identity : Str) → ¬ Proven stranger identity
unfolding first_connect identify authenticate
stranger_unproven identity (connect, f, p) =
    let same : request ≡ connect = cc f in
    let q : err anonymous_not_allowed ≡ ok identity = ap (identify digest node none) same ∙ p in
    cc q

serve-unproven_example :
    let (r, s') = served stranger in
    (r.bus ≡ [])
    × IsRefusal protocol_codec digest all any_key counting forgetful node r.sent
    × (s'.registry ≡ shared.registry)
    × (s'.retained ≡ shared.retained)
    × (r.metrics.connections_total ≡ 0)
serve-unproven_example =
    serve-unproven protocol_codec digest all any_key counting forgetful node stranger course shared
      stranger_unproven

serve-welcome_example :
    let (client_id, clean) = client_name 7 request in
    let (o, r) = attach protocol_codec client_id (codes "ann") clean 3 4 shared.registry in
    (rest : List Packet) × ((served arrival).0.sent
      ≡ (Packet.conn_ack Mqtt.success o.session_present
          ∷ map Packet.publish (backlog_packets (r.store o.session) o.backlog))
        ++ rest)
unfolding first_connect admit identify
serve-welcome_example =
    serve-welcome protocol_codec digest all any_key counting forgetful node arrival course shared
      request (codes "ann") refl refl refl refl

abbrev outcome : AttachOutcome
outcome = record { session = 0; session_present = false; epoch = 0; backlog = [] }

ended-sink_example :
    ((ended protocol_codec digest all any_key counting forgetful node course true outcome
        (some (err read_error), (client, replica))
        shared).1.registry.store
      0).sink
    ≡ (if client.session.epoch == 0 then none else client.session.sink)
ended-sink_example =
    ended-sink protocol_codec digest all any_key counting forgetful node course true outcome
      (err read_error) client replica shared

serve-abandoned_example :
    let (o, r) = attach protocol_codec (codes "c") (codes "ann") true 3 4 shared.registry in
    let (report, s') = served (record arrival { writer_open = false }) in
    (report.result ≡ some (err writer_closed))
    × (report.sent ≡ [])
    × (Dict.get (codes "c") s'.registry.sessions ≡ some o.session)
    × ((s'.registry.store o.session).sink ≡ some 3)
unfolding first_connect admit identify client_name
serve-abandoned_example =
    serve-abandoned protocol_codec digest all any_key counting forgetful node
      (record arrival { writer_open = false }) course shared request (codes "ann") refl refl refl
      refl
