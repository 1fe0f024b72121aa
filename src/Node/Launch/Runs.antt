-- ===== src/Node/Launch/Runs.antt =====
-- A start from a file with one flag, and a call for the hash of a password.
use entmoot.Common.{◌≡◌, refl, true, Option, none, some, [], Str, codes}
use entmoot.Config.Overrides.{Args}
use entmoot.Auth.{sha256_hex, hex}
use entmoot.Node.Tasks.Runs.{lenient, world}
use entmoot.Node.Launch.{main, printed, parsing, config_error}

abbrev renamed : Args
renamed = record {
  config = some (codes "e.toml");
  hash_password = none;
  id = some (codes "n7");
  mqtt = none;
  zenoh_listen = [];
  peers = [];
  scope = none;
  max_packet_size = none;
  connect_admission_rate = none;
  connect_admission_burst = none;
  retained_staleness_secs = none;
  zenoh_link_mtu = none;
}

abbrev any_file : Str → Option Str
any_file path = some path

-- The digest here is the text itself.
hashed :
    main any_file
      (λ raw. none)
      (λ s. s)
      (λ c. c)
      lenient
      (world true true)
      (record renamed { hash_password = some (codes "hi") })
    ≡ printed (codes "6869")
unfolding main sha256_hex hex
hashed = refl

unparsed :
    main any_file (λ raw. none) (λ s. s) (λ c. c) lenient (world true true) renamed
    ≡ config_error (parsing (codes "e.toml"))
unfolding main
unparsed = refl
