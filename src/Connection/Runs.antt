-- ===== src/Connection/Runs.antt =====
-- The theorems about connections at concrete inputs.
use entmoot.Bus.{BusOp}
use entmoot.Mqtt.{LastWill, publish}
use entmoot.Metrics.{default_metrics}
use entmoot.Common.{
  ◌++◌, ◌≡◌, ◌≢◌, ◌⊎◌, inr, refl, Bool, true, false, none, some, List, [], ok, Str, codes, str_eq,
  if◌then◌else◌, arith, split, join,
}
use entmoot.Common.Dict
use entmoot.Mqtt.{Publish, at_least_once, exactly_once, protocol_codec}
use entmoot.Topic.{
  topic_to_keyexpr, filter_to_keyexpr, levels, check_topic_levels, check_level_chars, filter_chunks,
  filter_chunk, scoped,
}
use entmoot.Auth.{Acl, may_publish, may_subscribe}
use entmoot.RateLimiter.{new_limiter, allow}
use entmoot.Registry.Rehydration.{activate_subscription}
use entmoot.Retained.{MatchCache, RetainedEntry, RetainedStore}
use entmoot.Retained.Replication.{whole}
use entmoot.Session.{new, Host}
use entmoot.Connection.{Client, handle_publish, subscribe}
use entmoot.Connection.Publishing.{replicate, handle_publish-replicate}
use entmoot.Connection.RetainedDelivery.{deliver_retained, Carries, deliver_retained_lem}
use entmoot.Staleness.{StalenessPolicy}
use entmoot.Mqtt
use entmoot.Mqtt.{QoS, Packet}
use entmoot.Connection.Loop.{handle_subscribe}
use entmoot.Connection.Suback.{code_due, handle_subscribe-sub_ack}
use entmoot.Retained.Cached.{IsCoherent}
use entmoot.Retained.{scan}
use entmoot.Common.{map, ◌∷◌}
use entmoot.Connection.Subscribing.{subscribe-eq-some}

abbrev pub host : Host
host = record { disk = record { files = []; writable = true }; effects = [] }

abbrev pub last_will : LastWill
last_will = record { topic = codes "a/will"; message = codes "bye"; retain = true }

abbrev pub client : Client
client = record {
  session = new (codes "c") 10 none none none host.disk;
  host = host;
  next_task = 3;
  id = codes "c";
  identity = codes "ann";
  keep_alive = 60;
  will = some last_will;
  rate = new_limiter 0 0;
  inflight_qos2 = [];
  metrics = default_metrics;
  bus = [];
  sent = [];
  writer_open = true;
}

abbrev pub message : Publish
message = record {
  topic = codes "a/b";
  qos = at_least_once;
  pkid = 9;
  retain = true;
  payload = codes "21";
}

abbrev pub open_rules : Acl
open_rules = record { default_allow = true; rules = [] }

abbrev closed_rules : Acl
closed_rules = record { default_allow = false; rules = [] }

abbrev pub all : BusOp → Bool
all op = true

pub no_hit :
    (f g : Str) (v r : List RetainedEntry) → none ≡ some r → ((g ≡ f) × (r ≡ v)) ⊎ (none ≡ some r)
no_hit f g v r h = inr h

abbrev pub no_policy : StalenessPolicy
no_policy = record { rules = []; default_secs = 0 }

-- A cache that keeps nothing.
abbrev pub forgetful : MatchCache
forgetful = record {
  Cache = Unit {0};
  hit = λ c f. none;
  fill = λ c f v. c;
  invalidate_all = λ c. c;
  hit-invalidate_all = λ c f. refl;
  hit-fill = λ c. no_hit;
}

abbrev pub replica : RetainedStore forgetful
replica = record { entries = []; dirty = false; match_cache = tt; scans = 0 }

valid_topic : topic_to_keyexpr (codes "a/b") [] ≡ ok (codes "a/b")
unfolding topic_to_keyexpr levels check_topic_levels check_level_chars scoped split join
valid_topic = refl

handle_publish-replicate_example :
    Dict.get
      (codes "a/b")
      (replicate open_rules [] all forgetful
        (handle_publish open_rules [] all 5 7000000 message client).1.bus
        replica).entries
    ≡ (if str_eq (codes "a/b") (codes "a/b") then some (codes "21", whole 7000000) else none)
unfolding may_publish allow new_limiter Dict.get
handle_publish-replicate_example =
    handle_publish-replicate open_rules [] all forgetful 5 7000000 message client (codes "a/b")
      (codes "a/b") replica refl valid_topic refl (λ op. refl) refl refl (omega arith)

granted_at_once :
    let (q, c') =
      subscribe open_rules [] all protocol_codec
        (λ ke. true)
        (codes "n")
        (codes "a/#")
        exactly_once
        client in
    (may_subscribe open_rules (codes "ann") (codes "a/#") ≡ true)
    × (at_least_once ≢ exactly_once)
    × (Dict.get (codes "a/#") c'.session.subs ≡ some (record { qos = at_least_once; task = 3 }))
unfolding subscribe may_subscribe filter_to_keyexpr levels filter_chunks filter_chunk
    check_level_chars scoped split join str_eq activate_subscription
granted_at_once =
    subscribe-eq-some open_rules [] all protocol_codec (λ ke. true) (codes "n") (codes "a/#")
      exactly_once at_least_once client refl

abbrev filled : RetainedStore forgetful
filled = record replica { entries = (codes "a/b", (codes "21", 5000000)) ∷ [] }

filled-IsCoherent : IsCoherent forgetful filled
filled-IsCoherent f r h = cc

deliver_retained_lem_example :
    (ps : List Publish) × ((deliver_retained open_rules [] all no_policy forgetful
        (codes "a/+")
        at_least_once
        (λ n. 7)
        filled
        client).0.0
      ≡ ok tt)
    × ((deliver_retained open_rules [] all no_policy forgetful
          (codes "a/+")
          at_least_once
          (λ n. 7)
          filled
          client).0.1.sent
        ≡ map publish ps)
    × Carries open_rules [] all no_policy at_least_once (scan filled.entries (codes "a/+")) ps
    × ((deliver_retained open_rules [] all no_policy forgetful
          (codes "a/+")
          at_least_once
          (λ n. 7)
          filled
          client).1.entries
        ≡ filled.entries)
deliver_retained_lem_example =
    deliver_retained_lem open_rules [] all no_policy forgetful (codes "a/+") at_least_once (λ n. 7)
      filled client filled-IsCoherent refl

abbrev requests : List (Str × QoS)
requests = (codes "a/#", exactly_once) ∷ (codes "b", at_least_once) ∷ []

handle_subscribe-sub_ack_example :
    (rest : List Packet) × ((handle_subscribe protocol_codec open_rules [] all
        (λ ke. true)
        no_policy
        (codes "n")
        forgetful
        (λ m n. 7)
        9
        requests
        (client, replica)).0.1.sent
      ≡ []
        ++ (Mqtt.sub_ack 9 (
              map
                (code_due protocol_codec open_rules [] all
                  (λ ke. true)
                  no_policy
                  (codes "n")
                  forgetful
                  client.identity)
                requests)
            ∷ rest))
handle_subscribe-sub_ack_example =
    handle_subscribe-sub_ack protocol_codec open_rules [] all (λ ke. true) no_policy (codes "n")
      forgetful (λ m n. 7) 9 requests client replica refl
