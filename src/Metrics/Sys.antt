-- ===== src/Metrics/Sys.antt =====
-- The statistics on `$SYS` (one round of `sys_publish` of crates/entmoot-node/src/metrics.rs).
use entmoot.Common.{
  ℕ, ◌≡◌, ◌≢◌, refl, Bool, List, [], ◌∷◌, ◌++◌, ok, Str, Bytes, codes, slash, digits, All,
  if◌then◌else◌, Bool-cases, inl, inr,
}
use entmoot.Bus.{BusOp, put}
use entmoot.Topic.{topic_to_keyexpr, sys_keyexpr}
use entmoot.Topic.Keyspaces.{topic_to_keyexpr-unforgeable}
use entmoot.Metrics.Page.{Sample}

-- The paths and their values; `uptime` is in seconds.
unfoldable pub stats_of : Str → ℕ → Sample → List (Str × Str)
stats_of version uptime b =
    (codes "clients/connected", digits 20 b.connections)
    ∷ (codes "messages/received", digits 20 b.metrics.messages_in_total)
    ∷ (codes "messages/sent", digits 20 b.metrics.messages_out_total)
    ∷ (codes "retained/count", digits 20 b.retained_len)
    ∷ (codes "sessions/count", digits 20 b.stats.sessions)
    ∷ (codes "sessions/offline", digits 20 b.stats.offline)
    ∷ (codes "uptime/seconds", digits 20 uptime)
    ∷ (codes "version", version)
    ∷ []

-- The loop over them: an operation that the bus does not take is logged and nothing more.
publish_stats : (BusOp → Bool) → Str → Str → List (Str × Str) → List BusOp
publish_stats takes id scope [] = []
publish_stats takes id scope ((path, value) ∷ stats) =
    let suffix = codes "broker/" ++ (id ++ (slash ∷ path)) in
    let op = put (sys_keyexpr suffix scope) value in
    let rest = publish_stats takes id scope stats in if takes op then op ∷ rest else rest

unfoldable pub sys_publish : (BusOp → Bool) → Str → Str → ℕ → Sample → List BusOp
unfolding publish_stats stats_of
sys_publish takes scope version uptime b =
    publish_stats takes b.id scope (stats_of version uptime b)

-- An operation at a key that no publish of a client writes.
pub IsReserved : Str → BusOp → Type 0
IsReserved scope op =
    (ke : Str) × (raw : Bytes) × (op ≡ put ke raw)
    × ((t k : Str) → topic_to_keyexpr t scope ≡ ok k → k ≢ ke)

publish_stats-IsReserved :
    (takes : BusOp → Bool) (id scope : Str) (stats : List (Str × Str))
    → All (IsReserved scope) (publish_stats takes id scope stats)
unfolding publish_stats IsReserved
publish_stats-IsReserved takes id scope [] = tt
publish_stats-IsReserved takes id scope ((path, value) ∷ stats) =
    let suffix = codes "broker/" ++ (id ++ (slash ∷ path)) in
    let op = put (sys_keyexpr suffix scope) value in
    let rest = publish_stats-IsReserved takes id scope stats in
    elim (Bool-cases (takes op)) [
      | inl e ↦
          rw (e, publish_stats)
            (
              (
                sys_keyexpr suffix scope,
                value,
                refl,
                λ t k h. (topic_to_keyexpr-unforgeable t suffix scope k h).1,
              ),
              rest,
            )
      | inr e ↦ rw (e, publish_stats) rest
    ]

-- Every statistic that a node publishes goes to a key that no accepted publish of a client writes.
pub sys_publish-IsReserved :
    (takes : BusOp → Bool) (scope version : Str) (uptime : ℕ) (b : Sample)
    → All (IsReserved scope) (sys_publish takes scope version uptime b)
unfolding sys_publish
sys_publish-IsReserved takes scope version uptime b =
    publish_stats-IsReserved takes b.id scope (stats_of version uptime b)
