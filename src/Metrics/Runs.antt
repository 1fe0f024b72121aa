-- ===== src/Metrics/Runs.antt =====
-- The statistics of a node at concrete counters.
use entmoot.Common.{Bool, true, codes, All}
use entmoot.Bus.{BusOp}
use entmoot.Metrics.{default_metrics}
use entmoot.Metrics.Page.{Sample}
use entmoot.Metrics.Sys.{sys_publish, IsReserved, sys_publish-IsReserved}

abbrev sample : Sample
sample = record {
  id = codes "n1";
  connections = 2;
  metrics = record default_metrics { messages_in_total = 7 };
  stats = record { sessions = 3; offline = 1; queued = 0; dropped = 0 };
  scan_count = 4;
  retained_len = 5;
}

abbrev all : BusOp → Bool
all op = true

sample-IsReserved :
    All (IsReserved (codes "site")) (sys_publish all (codes "site") (codes "0.1.0") 60 sample)
sample-IsReserved = sys_publish-IsReserved all (codes "site") (codes "0.1.0") 60 sample
