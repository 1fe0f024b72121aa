-- ===== src/Node.antt =====
-- The connections of a node (`spawn_client`, `ConnGuard` and `Broker::connections` of
-- crates/entmoot-node/src/lib.rs).
--
-- A socket is one of `tasks` from the `fetch_add` that counts it to the `fetch_sub` that its guard
-- does; in between it is served, or on its way out. Both are atomic, and those of different sockets
-- come in any order. That 2 ^ 64 sockets are open at once is left out.
pub mod Limit
pub mod Startup
pub mod Mesh
pub mod Tasks
pub mod Tls
pub mod Launch
mod Runs
use entmoot.Common.{ℕ, zero, suc, ◌+◌, ◌-◌, List, [], ◌∷◌, ◌++◌, ltb, if◌then◌else◌}

-- After the comparison with the limit.
pub data ClientTask : Type 0 where
  rejecting serving : ClientTask

pub record Connections : Type 0 where
  pub conn_count : ℕ
  pub tasks : List ClientTask

unfoldable pub idle : Connections
idle = record { conn_count = 0; tasks = [] }

-- `spawn_client` up to the comparison.
unfoldable pub spawn_client : ℕ → Connections → Connections
spawn_client max_connections n =
    let count = n.conn_count + 1 in
    record {
      conn_count = count;
      tasks = (if ltb max_connections count then rejecting else serving) ∷ n.tasks;
    }

-- The guard of the socket with so many newer ones is dropped.
remove_at : ℕ → List ClientTask → List ClientTask
remove_at n [] = []
remove_at zero (t ∷ tasks) = tasks
remove_at (suc n) (t ∷ tasks) = t ∷ remove_at n tasks

unfoldable pub drop_guard : ℕ → Connections → Connections
unfolding remove_at
drop_guard place n = record { conn_count = n.conn_count - 1; tasks = remove_at place n.tasks }
