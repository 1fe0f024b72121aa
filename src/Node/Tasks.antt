-- ===== src/Node/Tasks.antt =====
-- The start and the end of a node (`run` and `BrokerHandle::shutdown` of
-- crates/entmoot-node/src/lib.rs, and the tasks of `wire` in crates/entmoot-node/src/retained.rs): which
-- steps can fail, and which tasks are spawned.
--
-- What the system and the bus answer is a parameter.
pub mod Handle
pub mod Runs
use native.Mathlib.Decide.{ℕ_discrete}
use entmoot.Common.{
  ℕ, zero, suc, Bool, true, false, not, Option, none, some, List, [], ◌∷◌, ◌++◌, Result, ok, err,
  ◌>>=◌, Str, ltb, select, if◌then◌else◌,
}
use entmoot.Config.{NodeConfig, TlsConfig}
use entmoot.Node.Mesh.{ZenohConfig, zenoh_config}

-- In the order in which `wire` and `run` spawn them.
pub data Task : Type 0 where
  save_snapshots replicate answer_queries fetch : Task
  serve_metrics serve_health publish_sys sweep_sessions accept_mqtt accept_tls : Task
  -- of a subscription that `rehydrate` restores, by its number
  forwarding : ℕ → Task

pub data Listener : Type 0 where
  mqtt metrics health tls : Listener

pub data StartError : Type 0 where
  zenoh_key : Str → StartError
  zenoh_open tls_acceptor create_data_dir retained_subscriber retained_queryable : StartError
  bind : Listener → StartError

-- The answers of the system and of the bus.
pub record World (z : ZenohConfig) : Type 0 where
  pub opens : z.Config → Bool
  pub binds : Listener → Str → Bool
  -- whether the files that `tls_acceptor` reads make an acceptor
  pub accepts_tls : TlsConfig → Bool
  pub creates : Str → Bool
  pub declares_subscriber : Bool
  pub declares_queryable : Bool
  -- how many subscriptions `rehydrate` restores (Registry/Startup)
  pub restores : ℕ

-- The handles that are kept, and the tasks that run.
pub record Spawned : Type 0 where
  pub handles : List Task
  pub running : List Task

-- The tasks of `rehydrate`, whose handles its sessions keep.
unfoldable pub forwards : ℕ → List Task
forwards zero = []
forwards (suc n) = forwarding n ∷ forwards n

-- `tasks.push(tokio::spawn(...))`
abbrev pub spawn : Task → Spawned → Spawned
spawn t s = record { handles = s.handles ++ (t ∷ []); running = s.running ++ (t ∷ []) }

abbrev pub spawn_if : Bool → Task → Spawned → Spawned
spawn_if b t s = if b then spawn t s else s

abbrev pub is_some {ℓ} : {A : Type ℓ} → Option A → Bool
is_some none = false
is_some (some a) = true

abbrev pub check : Bool → StartError → Result (Unit {0}) StartError
check b e = if b then ok tt else err e

abbrev pub map_err {ℓ} : {A : Type ℓ} → Result A Str → Result A StartError
map_err (ok a) = ok a
map_err (err key) = err (zenoh_key key)

module _ (debug_wide : Str → Str) (z : ZenohConfig) (w : World z) where
  -- `wire`: its result, and what it has spawned by then.
  unfoldable pub wire : Bool → Result (Unit {0}) StartError × Spawned
  wire persists =
      let s = spawn_if persists save_snapshots (record { handles = []; running = [] }) in
      let s' = spawn replicate s in
      if w.declares_subscriber
      then (if w.declares_queryable
          then (ok tt, spawn fetch (spawn answer_queries s'))
          else (err retained_queryable, s'))
      else (err retained_subscriber, s)

  unfoldable pub bind_tls : Option TlsConfig → Result (Unit {0}) StartError
  bind_tls none = ok tt
  bind_tls (some t) = do
    _ ← check (w.accepts_tls t) tls_acceptor
    check (w.binds tls t.listen) (bind tls)

  unfoldable pub bind_optional : Listener → Option Str → Result (Unit {0}) StartError
  bind_optional l none = ok tt
  bind_optional l (some addr) = check (w.binds l addr) (bind l)

  unfoldable pub create_state_dir : Option Str → Result (Unit {0}) StartError
  create_state_dir none = ok tt
  create_state_dir (some dir) = check (w.creates dir) create_data_dir

  -- `run` up to `wire`.
  unfoldable pub prepare : NodeConfig → Result (Unit {0}) StartError
  unfolding bind_tls bind_optional create_state_dir
  prepare cfg = do
    zc ← map_err (zenoh_config debug_wide z cfg)
    _ ← check (w.opens zc) zenoh_open
    _ ← check (w.binds mqtt cfg.mqtt_listen) (bind mqtt)
    _ ← bind_tls cfg.tls
    _ ← bind_optional metrics cfg.metrics_listen
    _ ← bind_optional health cfg.health_listen
    create_state_dir cfg.data_dir

  -- `run` behind `wire`: nothing here can fail.
  unfoldable pub spawn_own : NodeConfig → Spawned → Spawned
  spawn_own cfg s =
      let s1 = spawn_if (is_some cfg.metrics_listen) serve_metrics s in
      let s2 = spawn_if (is_some cfg.health_listen) serve_health s1 in
      let s3 = spawn_if (ltb 0 cfg.sys_interval_secs) publish_sys s2 in
      let s4 = spawn_if (ltb 0 cfg.session_expiry_secs) sweep_sessions s3 in
      spawn_if (is_some cfg.tls) accept_tls (spawn accept_mqtt s4)

  -- `rehydrate`: no handle of its tasks is among those of the node.
  unfoldable pub rehydrated : Spawned → Spawned
  unfolding forwards
  rehydrated s = record s { running = s.running ++ forwards w.restores }

  -- `run` from the result of `wire` on.
  unfoldable pub wired :
      NodeConfig
      → Result (Unit {0}) StartError × Spawned
      → Result (List Task) StartError × List Task
  unfolding rehydrated spawn_own
  wired cfg (err e, s) = (err e, s.running)
  wired cfg (ok _, s) = let s' = spawn_own cfg (rehydrated s) in (ok s'.handles, s'.running)

  unfoldable pub prepared :
      NodeConfig → Result (Unit {0}) StartError → Result (List Task) StartError × List Task
  unfolding wire wired
  prepared cfg (err e) = (err e, [])
  prepared cfg (ok _) = wired cfg (wire (is_some cfg.data_dir))

  unfoldable pub run : NodeConfig → Result (List Task) StartError × List Task
  unfolding prepare prepared
  run cfg = prepared cfg (prepare cfg)

pub Task-discrete : Discrete Task
Task-discrete = hlevel (ℕ_discrete)

abbrev pub is_no {ℓ} : {A : Type ℓ} → Dec A → Bool
is_no (yes a) = false
is_no (no n) = true

-- `task.abort()`
unfoldable pub abort : Task → List Task → List Task
abort t = select (λ u. is_no (Task-discrete u t))

-- The loop of `BrokerHandle::shutdown`.
unfoldable pub shutdown : List Task → List Task → List Task
unfolding abort
shutdown [] running = running
shutdown (t ∷ handles) running = shutdown handles (abort t running)
