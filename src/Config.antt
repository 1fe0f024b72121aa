-- ===== src/Config.antt =====
-- crates/entmoot-core/src/config.rs: the node's configuration and its defaults, and the overrides
-- of crates/entmoot-node/src/main.rs (`main` around them is Node/Launch).
pub mod Overrides
use entmoot.Common.{ℕ, ◌*◌, Bool, true, Option, none, List, [], ◌∷◌, Str, codes}

pub data Policy : Type 0 where
  allow deny : Policy

pub record UserCred : Type 0 where
  pub name : Str
  pub password_sha256 : Str

pub record AclRule : Type 0 where
  pub user : Str
  pub publish : List Str
  pub subscribe : List Str

pub record StalenessRule : Type 0 where
  pub filter : Str
  pub bound_secs : ℕ

pub record TlsConfig : Type 0 where
  pub listen : Str
  pub cert_file : Str
  pub key_file : Str
  pub client_ca_file : Option Str

pub record AuthConfig : Type 0 where
  pub allow_anonymous : Bool
  pub default_policy : Policy
  pub users : List UserCred

pub record NodeConfig : Type 0 where
  pub id : Str
  pub mqtt_listen : Str
  pub zenoh_listen : List Str
  pub peers : List Str
  pub scope : Str
  pub max_packet_size : ℕ
  pub max_connections : ℕ
  pub max_publish_rate : ℕ
  pub data_dir : Option Str
  pub metrics_listen : Option Str
  pub health_listen : Option Str
  pub session_expiry_secs : ℕ
  pub max_queued_per_session : ℕ
  pub slow_consumer_grace_ms : ℕ
  pub sys_interval_secs : ℕ
  pub connect_admission_rate : ℕ
  pub connect_admission_burst : ℕ
  pub retained_staleness_secs : ℕ
  pub staleness : List StalenessRule
  pub zenoh_link_mtu : Option ℕ
  pub tls : Option TlsConfig
  pub auth : AuthConfig
  pub acl : List AclRule

abbrev pub default_auth_config : AuthConfig
default_auth_config = record { allow_anonymous = true; default_policy = allow; users = [] }

abbrev pub default_acl_rule : AclRule
default_acl_rule = record { user = codes "*"; publish = []; subscribe = [] }

abbrev pub default_tls_listen : Str
default_tls_listen = codes "0.0.0.0:8883"

abbrev pub default_node_config : NodeConfig
default_node_config = record {
  id = codes "entmoot-0";
  mqtt_listen = codes "0.0.0.0:1883";
  zenoh_listen = codes "tcp/0.0.0.0:7447" ∷ [];
  peers = [];
  scope = [];
  max_packet_size = 256 * 1024;
  max_connections = 10000;
  max_publish_rate = 0;
  data_dir = none;
  metrics_listen = none;
  health_listen = none;
  session_expiry_secs = 24 * 60 * 60;
  max_queued_per_session = 1000;
  slow_consumer_grace_ms = 5000;
  sys_interval_secs = 10;
  connect_admission_rate = 0;
  connect_admission_burst = 0;
  retained_staleness_secs = 0;
  staleness = [];
  zenoh_link_mtu = none;
  tls = none;
  auth = default_auth_config;
  acl = [];
}
