-- ===== src/Node/Runs.antt =====
-- The connection limit for three sockets, and a start from a directory with one session.
use entmoot.Common.{
  ◌≡◌, refl, ◌≤◌, ◌++◌, [], ◌∷◌, none, some, true, Bytes, codes, length, ltb, str_eq, strip_prefix,
  split, if◌then◌else◌, arith,
}
use entmoot.Config.{NodeConfig, default_node_config, default_auth_config, default_acl_rule, deny}
use entmoot.Mqtt.{at_least_once, protocol_codec}
use entmoot.Common.Dict
use entmoot.Auth.{new_acl, may_subscribe}
use entmoot.Codec.{is_utf8, from_utf8, from_be_bytes, read_chunk}
use entmoot.Session.{new, insert_sub}
use entmoot.Registry.{new_registry}
use entmoot.Registry.Rehydration.{rehydrate_one, activate_subscription}
use entmoot.Registry.Startup.{rehydrate}
use entmoot.Auth.Grants.{Grant}
use entmoot.Topic.{
  topic_matches, filter_covers, covers_levels, levels, filter_to_keyexpr, filter_chunks,
  filter_chunk, check_level_chars, matches_from,
}
use entmoot.Persist.{Disk, load_subs, decode_subs, read_file}
use entmoot.Admission.Runs.{counting}
use entmoot.Connection.Runs.{forgetful}
use entmoot.Node.Startup.{queue_dir_of, start, start-Grant}
use entmoot.Node.{Connections, rejecting, serving, idle, spawn_client, drop_guard}
use entmoot.Node.Limit.{Reach, here, next, arrives, leaves, served, Reach-served}

-- Two sockets come, the first of them leaves, a third comes.
abbrev after_three : Connections
after_three = spawn_client 2 (drop_guard 1 (spawn_client 2 (spawn_client 2 idle)))

after_three-Reach : Reach 2 after_three
after_three-Reach =
    next
      (next (next (next here (arrives idle)) (arrives (spawn_client 2 idle)))
        (leaves 1 (spawn_client 2 (spawn_client 2 idle)) (unfold spawn_client idle in omega arith)))
      (arrives (drop_guard 1 (spawn_client 2 (spawn_client 2 idle))))

Reach-served_example :
    (after_three.conn_count ≡ length after_three.tasks)
    × (served after_three.tasks ≤ 2)
    × ((spawn_client 2 after_three).tasks
        ≡ (if ltb (length after_three.tasks) 2 then serving else rejecting) ∷ after_three.tasks)
Reach-served_example = Reach-served 2 after_three after_three-Reach

-- A session of client `c`, whose user is anonymous, that subscribes to `a/#`.
abbrev saved : Bytes
saved =
    codes "ENTMOOT-S1"
    ++ (0x0a ∷ 0 ∷ 0 ∷ 0 ∷ 1 ∷ b'c' ∷ 0 ∷ 0 ∷ 0 ∷ 0 ∷ 0 ∷ 0 ∷ 0 ∷ 3 ∷ b'a' ∷ b'/' ∷ b'#' ∷ 1 ∷ [])

abbrev saved_disk : Disk
saved_disk = record { files = (codes "d/session-queues/63.subs", saved) ∷ []; writable = true }

abbrev guarded : NodeConfig
guarded = record default_node_config {
  data_dir = some (codes "d");
  auth = record default_auth_config { default_policy = deny };
  acl = record default_acl_rule { subscribe = codes "#" ∷ [] } ∷ [];
}

start-Grant_example :
    Grant guarded.acl
      ((start protocol_codec
          (λ ke. true)
          counting
          forgetful
          tt
          guarded
          saved_disk
          none
          (some (some (codes "d/session-queues/63.subs") ∷ []))).registry.store
        0).identity
      (λ x. x.subscribe)
      (λ pat. topic_matches pat (codes "a/b") ≡ true)
unfolding start rehydrate rehydrate_one load_subs decode_subs read_file Dict.get Dict.insert str_eq
    is_utf8 from_be_bytes read_chunk new_registry strip_prefix from_utf8 new_acl may_subscribe
    filter_covers covers_levels levels topic_matches insert_sub queue_dir_of split
    activate_subscription filter_to_keyexpr filter_chunks filter_chunk check_level_chars new
    matches_from
start-Grant_example =
    start-Grant protocol_codec (λ ke. true) counting forgetful tt guarded saved_disk none
      (some (some (codes "d/session-queues/63.subs") ∷ [])) (codes "c") (codes "a/#") (codes "a/b")
      0 (record { qos = at_least_once; task = 0 }) refl refl refl refl
