-- ===== src/Config/Overrides.antt =====
-- crates/entmoot-node/src/main.rs: the command-line flags, and how they override the configuration.
use entmoot.Common.{
  ℕ, ◌≡◌, refl, Bool, ◌&&◌, Option, none, some, List, [], ◌∷◌, Str, is_empty, arith,
}
use entmoot.Config.{NodeConfig}

pub record Args : Type 0 where
  pub config : Option Str
  pub hash_password : Option Str
  pub id : Option Str
  pub mqtt : Option Str
  pub zenoh_listen : List Str
  pub peers : List Str
  pub scope : Option Str
  pub max_packet_size : Option ℕ
  pub connect_admission_rate : Option ℕ
  pub connect_admission_burst : Option ℕ
  pub retained_staleness_secs : Option ℕ
  pub zenoh_link_mtu : Option ℕ

abbrev override {ℓ} : {A : Type ℓ} → Option A → A → A
override none old = old
override (some new) old = new

abbrev override_list {ℓ} : {A : Type ℓ} → List A → List A → List A
override_list [] old = old
override_list (x ∷ xs) old = x ∷ xs

abbrev override_some {ℓ} : {A : Type ℓ} → Option A → Option A → Option A
override_some none old = old
override_some (some new) old = some new

unfoldable pub apply_args : Args → NodeConfig → NodeConfig
apply_args args cfg = record cfg {
  id = override args.id cfg.id;
  mqtt_listen = override args.mqtt cfg.mqtt_listen;
  zenoh_listen = override_list args.zenoh_listen cfg.zenoh_listen;
  peers = override_list args.peers cfg.peers;
  scope = override args.scope cfg.scope;
  max_packet_size = override args.max_packet_size cfg.max_packet_size;
  connect_admission_rate = override args.connect_admission_rate cfg.connect_admission_rate;
  connect_admission_burst = override args.connect_admission_burst cfg.connect_admission_burst;
  retained_staleness_secs = override args.retained_staleness_secs cfg.retained_staleness_secs;
  zenoh_link_mtu = override_some args.zenoh_link_mtu cfg.zenoh_link_mtu;
}

-- `cfg.auth.allow_anonymous && cfg.auth.users.is_empty()`: when `main` warns of an open node.
unfoldable pub is_open : NodeConfig → Bool
is_open cfg = cfg.auth.allow_anonymous && is_empty cfg.auth.users

-- No flag changes the security settings, and applying the flags twice is applying them once.
pub apply_args_lem :
    (args : Args) (cfg : NodeConfig)
    → ((apply_args args cfg).auth ≡ cfg.auth)
      × ((apply_args args cfg).acl ≡ cfg.acl)
      × ((apply_args args cfg).tls ≡ cfg.tls)
      × (is_open (apply_args args cfg) ≡ is_open cfg)
      × (apply_args args (apply_args args cfg) ≡ apply_args args cfg)
unfolding apply_args is_open
apply_args_lem args cfg = (refl, refl, refl, refl, ground arith)
