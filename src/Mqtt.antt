-- ===== src/Mqtt.antt =====
-- The types of the `mqttbytes` crate that the node builds and matches on. Its wire format is not
-- modelled; the byte that stands for a QoS is a parameter (`QosCodec`).
use entmoot.Common.{ℕ, ◌≡◌, Bool, refl, ◌==◌, if◌then◌else◌, Option, some, none, List, Str, Bytes}

pub data QoS : Type 0 where
  at_most_once at_least_once exactly_once : QoS

abbrev pub is_at_most_once : QoS → Bool
is_at_most_once at_most_once = Bool.true
is_at_most_once at_least_once = Bool.false
is_at_most_once exactly_once = Bool.false

-- `qos as u8` and `mqttbytes::qos`, which reads such a byte back.
pub record QosCodec : Type 0 where
  pub to_byte : QoS → ℕ
  pub of_byte : ℕ → Option QoS
  pub of_byte-to_byte : (q : QoS) → of_byte (to_byte q) ≡ some q

pub record Publish : Type 0 where
  pub topic : Str
  pub qos : QoS
  pub pkid : ℕ
  pub retain : Bool
  pub payload : Bytes

pub record LastWill : Type 0 where
  pub topic : Str
  pub message : Bytes
  pub retain : Bool

pub record Connect : Type 0 where
  pub keep_alive : ℕ
  pub client_id : Str
  pub clean_session : Bool
  pub last_will : Option LastWill
  pub login : Option (Str × Str)

pub data ConnectReturnCode : Type 0 where
  success service_unavailable bad_user_name_password not_authorized : ConnectReturnCode

-- A code of a SUBACK is the QoS granted, or `none` for a failure.
pub data Packet : Type 0 where
  connect : Connect → Packet
  conn_ack : ConnectReturnCode → Bool → Packet
  publish : Publish → Packet
  pub_ack pub_rec pub_rel pub_comp : ℕ → Packet
  subscribe : ℕ → List (Str × QoS) → Packet
  sub_ack : ℕ → List (Option QoS) → Packet
  unsubscribe : ℕ → List Str → Packet
  unsub_ack : ℕ → Packet
  ping_req ping_resp disconnect : Packet

-- The bytes of the protocol, at which theorems about a `QosCodec` are tried.
abbrev pub protocol_codec : QosCodec
protocol_codec = record { to_byte = to_byte; of_byte = of_byte; of_byte-to_byte = of_byte-to_byte }
  where
    to_byte : QoS → ℕ
    to_byte at_most_once = 0
    to_byte at_least_once = 1
    to_byte exactly_once = 2

    of_byte : ℕ → Option QoS
    of_byte b =
        if b == 0
        then some at_most_once
        else if b == 1
        then some at_least_once
        else if b == 2
        then some exactly_once
        else none

    of_byte-to_byte : (q : QoS) → of_byte (to_byte q) ≡ some q
    of_byte-to_byte at_most_once = refl
    of_byte-to_byte at_least_once = refl
    of_byte-to_byte exactly_once = refl
