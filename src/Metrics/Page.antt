-- ===== src/Metrics/Page.antt =====
-- The metrics page (`render` of crates/entmoot-node/src/metrics.rs).
use Prim.Native.String.{String}
use entmoot.Common.{ℕ, List, [], ◌∷◌, ◌++◌, Str, codes, digits}
use entmoot.Metrics.{Metrics}
use entmoot.Registry.{Stats}

-- What the page shows of a node.
pub record Sample : Type 0 where
  pub id : Str
  pub connections : ℕ
  pub metrics : Metrics
  pub stats : Stats
  pub scan_count : ℕ
  pub retained_len : ℕ

pub record Series : Type 0 where
  pub name : Str
  pub kind : Str
  pub help : Str
  pub value : ℕ

abbrev metric : String → String → String → ℕ → Series
metric name kind help value = record {
  name = codes name;
  kind = codes kind;
  help = codes help;
  value = value;
}

abbrev pub newline : ℕ
newline = 0x0a

-- The three lines of `metric`.
unfoldable pub lines_of : Str → Series → List Str
lines_of id s =
    (codes "# HELP entmoot_" ++ (s.name ++ (codes " " ++ s.help)))
    ∷ (codes "# TYPE entmoot_" ++ (s.name ++ (codes " " ++ s.kind)))
    ∷ (codes "entmoot_"
        ++ (s.name ++ (codes "{node=\"" ++ (id ++ (codes "\"} " ++ digits 20 s.value)))))
    ∷ []

-- `writeln!` for each.
unfoldable pub write_lines : List Str → Str → Str
write_lines [] rest = rest
write_lines (l ∷ ls) rest = l ++ (newline ∷ write_lines ls rest)

unfoldable pub series : Sample → List Series
series b =
    metric "connections_current" "gauge" "Open MQTT connections" b.connections
    ∷ metric "connections_total" "counter" "MQTT connections accepted since start"
        b.metrics.connections_total
    ∷ metric "connect_refused_total" "counter" "CONNECTs refused (auth)"
        b.metrics.connect_refused_total
    ∷ metric "connect_shed_total" "counter"
        "CONNECTs shed by admission control (reconnect-storm protection)"
        b.metrics.connect_shed_total
    ∷ metric "messages_in_total" "counter" "PUBLISH packets accepted from clients"
        b.metrics.messages_in_total
    ∷ metric "messages_out_total" "counter" "PUBLISH packets delivered to clients"
        b.metrics.messages_out_total
    ∷ metric "messages_queued_total" "counter" "Messages queued for offline sessions"
        b.metrics.messages_queued_total
    ∷ metric "publish_denied_total" "counter" "Publishes dropped by ACL"
        b.metrics.publish_denied_total
    ∷ metric "subscribe_denied_total" "counter" "Subscriptions refused by ACL or validation"
        b.metrics.subscribe_denied_total
    ∷ metric "subscribes_total" "counter" "Subscriptions granted" b.metrics.subscribes_total
    ∷ metric "retained_scans_total" "counter"
        "Retained-store scans performed (denominator for the reconnect-storm coalescing ratio: scans / subscribes_total)"
        b.scan_count
    ∷ metric "stale_retained_total" "counter"
        "Retained deliveries flagged stale on $meta/<topic> (partition-heal staleness bound exceeded)"
        b.metrics.stale_retained_total
    ∷ metric "rate_limit_disconnects_total" "counter"
        "Clients disconnected for exceeding the publish rate" b.metrics.rate_limit_disconnects_total
    ∷ metric "slow_consumer_evictions_total" "counter"
        "Clients evicted because their outbound queue stayed full"
        b.metrics.slow_consumer_evictions_total
    ∷ metric "retained_messages" "gauge" "Retained messages replicated on this node" b.retained_len
    ∷ metric "sessions" "gauge" "Known MQTT sessions (connected + offline persistent)"
        b.stats.sessions
    ∷ metric "sessions_offline" "gauge" "Offline persistent sessions" b.stats.offline
    ∷ metric "session_queue_depth" "gauge" "QoS 1 messages currently queued for offline sessions"
        b.stats.queued
    ∷ metric "session_queue_dropped_total" "counter" "Messages dropped from full offline queues"
        b.stats.dropped
    ∷ []

unfoldable pub write_series : Str → List Series → Str
unfolding lines_of write_lines
write_series id [] = []
write_series id (s ∷ rest) = write_lines (lines_of id s) (write_series id rest)

unfoldable pub render : Sample → Str
unfolding series write_series
render b = write_series b.id (series b)
