-- ===== src/Node/Limit.antt =====
-- The connection limit under every interleaving of sockets that come and go.
use entmoot.Common.{
  ℕ, zero, suc, ◌-◌, ◌≤◌, ◌<◌, ◌≡◌, refl, List, [], ◌∷◌, length, ltb, if◌then◌else◌, arith,
}
use entmoot.Node.{
  Connections, ClientTask, rejecting, serving, idle, spawn_client, remove_at, drop_guard,
}

pub data Step (max_connections : ℕ) : Connections → Connections → Type 0 where
  arrives : (n : Connections) → Step max_connections n (spawn_client max_connections n)
  leaves :
      (place : ℕ) (n : Connections)
      → place < length n.tasks
      → Step max_connections n (drop_guard place n)

pub data Reach (max_connections : ℕ) : Connections → Type 0 where
  here : Reach max_connections idle
  next :
      {n n' : Connections}
      → Reach max_connections n
      → Step max_connections n n'
      → Reach max_connections n'

-- How many sockets are served.
pub served : List ClientTask → ℕ
served [] = 0
served (serving ∷ tasks) = suc (served tasks)
served (rejecting ∷ tasks) = served tasks

served-remove_at :
    (place : ℕ) (tasks : List ClientTask) → served (remove_at place tasks) ≤ served tasks
unfolding served remove_at
served-remove_at place [] = omega arith
served-remove_at zero (serving ∷ tasks) = omega arith
served-remove_at zero (rejecting ∷ tasks) = omega arith
served-remove_at (suc place) (serving ∷ tasks) = omega (arith, served-remove_at place tasks)
served-remove_at (suc place) (rejecting ∷ tasks) = omega (arith, served-remove_at place tasks)

served-length : (tasks : List ClientTask) → served tasks ≤ length tasks
unfolding served
served-length [] = omega arith
served-length (serving ∷ tasks) = omega (arith, served-length tasks)
served-length (rejecting ∷ tasks) = omega (arith, served-length tasks)

length-remove_at :
    (place : ℕ) (tasks : List ClientTask)
    → place < length tasks
    → length (remove_at place tasks) ≡ length tasks - 1
unfolding remove_at
length-remove_at place [] h = omega arith
length-remove_at zero (t ∷ tasks) h = omega arith
length-remove_at (suc place) (t ∷ tasks) h = omega (arith, length-remove_at place tasks)

pub record IsCounted (max_connections : ℕ) (n : Connections) : Type 0 where
  pub counted : n.conn_count ≡ length n.tasks
  pub within : served n.tasks ≤ max_connections

spawn_client-IsCounted :
    (max_connections : ℕ) (n : Connections)
    → IsCounted max_connections n
    → IsCounted max_connections (spawn_client max_connections n)
unfolding spawn_client served
spawn_client-IsCounted max_connections n v = record {
  counted = ground (arith, v.counted);
  within = ground (arith, v.counted, v.within, served-length n.tasks);
}

drop_guard-IsCounted :
    (max_connections place : ℕ) (n : Connections)
    → place < length n.tasks
    → IsCounted max_connections n
    → IsCounted max_connections (drop_guard place n)
unfolding drop_guard
drop_guard-IsCounted max_connections place n h v = record {
  counted = omega (arith, v.counted, length-remove_at place n.tasks h);
  within = omega (arith, v.within, served-remove_at place n.tasks);
}

Reach-IsCounted :
    (max_connections : ℕ) (n : Connections) → Reach max_connections n → IsCounted max_connections n
unfolding idle served
Reach-IsCounted max_connections n here = record { counted = refl; within = omega arith }
Reach-IsCounted max_connections n (next r (arrives m)) =
    spawn_client-IsCounted max_connections m (Reach-IsCounted max_connections m r)
Reach-IsCounted max_connections n (next r (leaves place m h)) =
    drop_guard-IsCounted max_connections place m h (Reach-IsCounted max_connections m r)

-- In whatever order sockets come and go, the node counts exactly the sockets that are open and never
-- serves more than its limit; and a socket that comes is served exactly if fewer than the limit are
-- open.
pub Reach-served :
    (max_connections : ℕ) (n : Connections)
    → Reach max_connections n
    → (n.conn_count ≡ length n.tasks)
      × (served n.tasks ≤ max_connections)
      × ((spawn_client max_connections n).tasks
          ≡ (if ltb (length n.tasks) max_connections then serving else rejecting) ∷ n.tasks)
unfolding spawn_client
Reach-served max_connections n r =
    let v = Reach-IsCounted max_connections n r in (v.counted, v.within, ground (arith, v.counted))
