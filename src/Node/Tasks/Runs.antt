-- ===== src/Node/Tasks/Runs.antt =====
-- A start that succeeds, one whose TLS files are bad, and one at which the bus refuses the queryable.
use entmoot.Common.{◌≡◌, refl, Bool, true, false, none, some, ◌⊎◌, List, [], ◌∷◌, err, codes}
use entmoot.Config.{NodeConfig, default_node_config}
use entmoot.Node.Mesh.{ZenohConfig, zenoh_config, set, set_mtu}
use entmoot.Node.Tasks
use entmoot.Node.Tasks.{
  World, run, retained_subscriber, retained_queryable, prepare, Task, save_snapshots, replicate,
  answer_queries, fetch, serve_health, publish_sys, sweep_sessions, accept_mqtt, accept_tls,
}
use entmoot.Node.Tasks.Handle.{run-err}

abbrev pub lenient : ZenohConfig
lenient = record { Config = Unit {0}; initial = tt; insert_json5 = λ zc key val. some tt }

abbrev pub world : Bool → Bool → World lenient
world acceptor queryable = record {
  opens = λ zc. true;
  binds = λ l addr. true;
  accepts_tls = λ t. acceptor;
  creates = λ dir. true;
  declares_subscriber = true;
  declares_queryable = queryable;
  restores = 2;
}

abbrev pub durable : NodeConfig
durable = record default_node_config {
  data_dir = some (codes "d");
  health_listen = some (codes "0.0.0.0:8080");
  tls = some (record {
    listen = codes "0.0.0.0:8883";
    cert_file = codes "c";
    key_file = codes "k";
    client_ca_file = none;
  });
}

bad_tls : run (λ c. c) lenient (world false true) durable ≡ (err Tasks.tls_acceptor, [])
unfolding run zenoh_config set set_mtu
bad_tls = refl

abbrev pub all_tasks : List Task
all_tasks =
    save_snapshots ∷ replicate ∷ answer_queries ∷ fetch ∷ serve_health ∷ publish_sys
    ∷ sweep_sessions ∷ accept_mqtt ∷ accept_tls ∷ []

queryable_refused :
    (prepare (λ c. c) lenient (world true false) durable ≡ err retained_queryable)
      × ((run (λ c. c) lenient (world true false) durable).1 ≡ [])
    ⊎ (retained_queryable ≡ retained_subscriber)
      × ((run (λ c. c) lenient (world true false) durable).1 ≡ save_snapshots ∷ [])
    ⊎ (retained_queryable ≡ retained_queryable)
      × ((run (λ c. c) lenient (world true false) durable).1 ≡ save_snapshots ∷ replicate ∷ [])
unfolding run zenoh_config set set_mtu
queryable_refused = run-err (λ c. c) lenient (world true false) durable retained_queryable refl
