-- ===== src/Lib.antt =====
-- Entmoot: an MQTT 3.1.1 broker whose nodes share messages over a Zenoh bus.
--
-- A client of a node has a session. What it publishes is checked against the ACL, translated to a key
-- expression and put on the bus; every subscription of a session is a task that takes samples from
-- the bus and delivers them into the session, which sends them to the connection or queues them while
-- the client is away. Retained messages live in a reserved keyspace of the bus; every node keeps a
-- replica of them. Sessions and replica survive a restart in files.
--
-- Files, and the code they model:
--   Common      Rust's strings, maps, options and results as the sources use them
--   Topic       crates/entmoot-core/src/topic.rs: topics, filters, key expressions, matching
--   Config      crates/entmoot-core/src/config.rs, and the overrides of crates/entmoot-node/src/main.rs
--               (main around them is Node/Launch)
--   Auth        crates/entmoot-core/src/auth.rs: Authenticator, Acl
--   Staleness   crates/entmoot-core/src/staleness.rs: StalenessPolicy
--   Codec       integers, chunks and UTF-8 as the state files hold them (read_chunk, write_chunk of
--               crates/entmoot-node/src/session.rs)
--   Persist     the state files of sessions (load_queue, save_queue, load_subs, save_subs and the
--               paths, crates/entmoot-node/src/session.rs)
--   Session     SessionState of crates/entmoot-node/src/session.rs, one function per method
--   Delivery    SessionState::deliver, as the steps between which other operations may come, and the
--               task of a subscription (Delivery/Forwarding)
--   Registry    SessionRegistry (attach, detach, sweep, stats), with rehydrate_one and
--               activate_subscription in Registry/Rehydration and rehydrate in Registry/Startup
--   Retained    crates/entmoot-node/src/retained.rs: RetainedStore, its snapshot, and the tasks of
--               wire: catch-up, replication (Retained/Convergence), snapshots (Retained/Wiring)
--   RateLimiter, Connection
--               crates/entmoot-node/src/connection.rs: RateLimiter; Client with its handlers, its
--               loop (Connection/Loop), serve around it (Connection/Arrival, Connection/Serve), and the
--               packets over a stream with the writer task (Connection/Framing)
--   Admission   crates/entmoot-node/src/admission.rs: ConnectAdmission
--   Metrics     crates/entmoot-node/src/metrics.rs: Metrics, render (Metrics/Page), sys_publish
--               (Metrics/Sys)
--   Http        the answers of serve in crates/entmoot-node/src/metrics.rs and in health.rs beside it
--   Node        crates/entmoot-node/src/lib.rs: spawn_client and ConnGuard; what run builds of a
--               configuration and restores (Node/Startup); zenoh_config (Node/Mesh); the steps of
--               run that can fail, the tasks that it spawns, and shutdown (Node/Tasks); tls_acceptor,
--               peer_cn and the accept loops (Node/Tls)
--   Mqtt, Bus   the types of the mqttbytes crate that the node uses, and what it asks of the bus
-- A module below one of these holds what its name says is proved of it; each Runs module evaluates
-- the definitions and applies the theorems at concrete inputs.
--
-- State and time: a method that changes a struct returns the changed struct. What lies outside a
-- session (disk, wake-ups, aborted tasks) is a `Host`. Instants are arguments; the mutex of a session
-- makes each of its methods one step, and a delivery is several. The loop of a connection is a function
-- of the list of what its select yields; among these events is whatever other tasks do to the session.
-- The packets, the operations on the bus and the counters of a connection are logs of its own: what the
-- tasks of a session hand to the same writer is not among its packets, and its greeting is one step.
--
-- Bounds and fuel: numbers are natural numbers, cut with `% 2 ^ w` where the code casts or wraps (the
-- identifier counter, the milliseconds of an envelope, the bytes of a length). The readers of files
-- run on as much fuel as the file has bytes, since each round of their loops takes a byte at least;
-- `stuck` stands for fuel that has run out. `deliver` runs for four steps, the longest way through its loop when
-- nothing comes between; `pkid_loop` for two.
--
-- Parameters: the SHA-256 digest, the byte of a QoS (`QosCodec`), the cache of scans (`MatchCache`),
-- the answers of the bus to a subscriber (`declares`) and to an operation (`takes`), the outcome of a send
-- (`SendOutcome`), the limiter of the governor crate (`Governor`), the parser of the mqttbytes crate,
-- the listing of the state directory, the matching of key expressions by Zenoh (`IsMatching`), its
-- configuration (`ZenohConfig`), the TOML parser, what `{:?}` prints beyond ASCII (`debug_wide`), what
-- the system answers to a start (`World`), and files, PEM, X.509 and handshakes of TLS (`TlsLibrary`).
--
-- Not modelled: sockets, the TLS protocol, the packet format of mqttbytes, the bus itself, the syntax of
-- TOML and of flags, logging. The f64 of the rate limiter is computed on whole numbers of parts, rounded
-- as IEEE 754 does; counters and connections are too few to wrap.
pub mod Common
pub mod Topic
pub mod Config
pub mod Auth
pub mod Staleness
pub mod Codec
pub mod Retained
pub mod Mqtt
pub mod Bus
pub mod Admission
pub mod Metrics
pub mod Http
pub mod Persist
pub mod Session
pub mod Delivery
pub mod Registry
pub mod RateLimiter
pub mod Connection
pub mod Node
