-- ===== src/Connection/Arrival.antt =====
-- The start of a connection (`serve` of crates/entmoot-node/src/connection.rs): its first packet, who
-- the client is, and how it is refused.
use entmoot.Common.{
  ℕ, Bool, true, false, Option, none, some, List, [], ◌∷◌, ◌++◌, Result, ok, err, Str, Bytes, codes,
  is_empty, digits, if◌then◌else◌,
}
use entmoot.Metrics.{Metrics}
use entmoot.Mqtt.{Packet, Connect, ConnectReturnCode, bad_user_name_password, not_authorized}
use entmoot.Bus.{BusOp}
use entmoot.Auth.{
  Acl, Authenticator, ConnectDenied, bad_credentials, anonymous_not_allowed, authenticate,
}
use entmoot.Staleness.{StalenessPolicy}
use entmoot.Connection.{
  Client, ClientError, no_connect, connect_unreadable, connect_late, reply_failed,
}

-- What the first read yields.
pub data First : Type 0 where
  arrived : Packet → First
  unreadable late : First

-- An accepted socket, with the readings of the clocks and the outcomes of the writes.
pub record Arrival : Type 0 where
  pub first : First
  pub cert_identity : Option Str
  pub peer : Str
  pub instant : ℕ
  pub nanos : ℕ
  pub written : Bool
  pub writer_open : Bool
  pub sink : ℕ
  pub kick : ℕ

-- The parts of `Broker` that do not change.
pub record Broker : Type 0 where
  pub id : Str
  pub scope : Str
  pub auth : Authenticator
  pub acl : Acl
  pub staleness : StalenessPolicy
  pub max_publish_rate : ℕ

-- What a connection has done: its result, unless it still waits, and its logs.
pub record Report : Type 0 where
  pub result : Option (Result (Unit {0}) ClientError)
  pub sent : List Packet
  pub bus : List BusOp
  pub metrics : Metrics

abbrev pub report : Option (Result (Unit {0}) ClientError) → Client → Report
report result c = record { result = result; sent = c.sent; bus = c.bus; metrics = c.metrics }

-- A connection that ends before its session is attached.
abbrev pub rejected : Result (Unit {0}) ClientError → List Packet → Metrics → Report
rejected result sent metrics = record {
  result = some result;
  sent = sent;
  bus = [];
  metrics = metrics;
}

-- A refusal by CONNACK.
abbrev pub refuse : Bool → ConnectReturnCode → Metrics → Report
refuse written code metrics =
    if written
    then rejected (ok tt) (Packet.conn_ack code false ∷ []) metrics
    else rejected (err reply_failed) [] metrics

abbrev pub refusal : ConnectDenied → ConnectReturnCode
refusal bad_credentials = bad_user_name_password
refusal anonymous_not_allowed = not_authorized

-- The client's name, and whether its session is clean.
unfoldable pub client_name : ℕ → Connect → Str × Bool
unfolding digits
client_name nanos connect =
    if is_empty connect.client_id
    then (codes "entmoot-anon-" ++ digits 39 nanos, true)
    else (connect.client_id, connect.clean_session)

abbrev pub shown : Bool → Str
shown true = codes "true"
shown false = codes "false"

as_connect : Packet → Result Connect ClientError
as_connect (Packet.connect c) = ok c
as_connect other = err no_connect

-- The first packet must be a CONNECT.
unfoldable pub first_connect : First → Result Connect ClientError
unfolding as_connect
first_connect (arrived p) = as_connect p
first_connect unreadable = err connect_unreadable
first_connect late = err connect_late

module _ (digest : Bytes → Bytes) (b : Broker) where
  unfoldable pub identify : Option Str → Connect → Result Str ConnectDenied
  identify (some cn) connect = ok cn
  identify none connect = authenticate digest b.auth connect.login
