-- ===== src/Metrics.antt =====
-- The counters of a node (`Metrics` of crates/entmoot-node/src/metrics.rs).
--
-- The counters have 64 bits; that they wrap after 2 ^ 64 events is not modelled.
pub mod Page
pub mod Lines
pub mod Sys
mod Runs
use entmoot.Common.{ℕ}

pub record Metrics : Type 0 where
  pub connections_total : ℕ
  pub connect_refused_total : ℕ
  pub connect_shed_total : ℕ
  pub messages_in_total : ℕ
  pub messages_out_total : ℕ
  pub messages_queued_total : ℕ
  pub publish_denied_total : ℕ
  pub subscribe_denied_total : ℕ
  pub subscribes_total : ℕ
  pub stale_retained_total : ℕ
  pub rate_limit_disconnects_total : ℕ
  pub slow_consumer_evictions_total : ℕ

-- `Metrics::default`
abbrev pub default_metrics : Metrics
default_metrics = record {
  connections_total = 0;
  connect_refused_total = 0;
  connect_shed_total = 0;
  messages_in_total = 0;
  messages_out_total = 0;
  messages_queued_total = 0;
  publish_denied_total = 0;
  subscribe_denied_total = 0;
  subscribes_total = 0;
  stale_retained_total = 0;
  rate_limit_disconnects_total = 0;
  slow_consumer_evictions_total = 0;
}
