-- ===== src/Bus.antt =====
-- What a node asks of its session on the Zenoh bus (`session.put`, `session.delete`). The bus itself
-- is not modelled: the nodes keep a log of these operations.
use entmoot.Common.{Str, Bytes}

pub data BusOp : Type 0 where
  put : Str → Bytes → BusOp
  delete : Str → BusOp
