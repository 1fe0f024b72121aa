-- ===== src/Connection/EndToEnd/Runs.antt =====
-- A retained publish on `a/b`, and a client that has subscribed to `a/#`.
use entmoot.Common.{◌+◌, ◌≡◌, refl, none, [], ◌∷◌, codes, split, join, str_eq, if◌then◌else◌}
use entmoot.Mqtt.{at_least_once, protocol_codec}
use entmoot.Metrics.{default_metrics}
use entmoot.Topic.{
  topic_to_keyexpr, filter_to_keyexpr, levels, check_topic_levels, check_level_chars, filter_chunks,
  filter_chunk, scoped, topic_matches,
}
use entmoot.Topic.Routing.Runs.{meet, meet-IsMatching}
use entmoot.Auth.{may_publish}
use entmoot.RateLimiter.{new_limiter, allow}
use entmoot.Session.{SessionState, new, attach_conn}
use entmoot.Delivery.{World, accepted, packet}
use entmoot.Delivery.Sequential.{pkid_for}
use entmoot.Delivery.Forwarding.{hear}
use entmoot.Connection.{handle_publish}
use entmoot.Connection.Runs.{host, client, message, open_rules, all}
use entmoot.Connection.EndToEnd.{handle_publish-hear}

abbrev online : SessionState
online = (attach_conn protocol_codec [] 7 8 (new (codes "d") 2 none none none host.disk) host).1

abbrev world : World
world = record { session = online; host = host; outbox = []; evictions = 0 }

handle_publish-hear_example :
    let heard =
      hear meet [] at_least_once
        (codes "a/**")
        accepted
        3
        (handle_publish open_rules [] all 5 7000000 message client).1.bus
        (world, default_metrics) in
    (heard.0.outbox ≡ (
      if topic_matches (codes "a/#") (codes "a/b")
      then (
        7,
        packet
            (codes "a/b")
            (codes "21")
            at_least_once
            (pkid_for (codes "a/b") (codes "21") at_least_once online),
      )
        ∷ []
      else []))
    × (heard.1.messages_out_total
        ≡ 0 + (if topic_matches (codes "a/#") (codes "a/b") then 1 else 0))
unfolding filter_to_keyexpr topic_to_keyexpr levels filter_chunks filter_chunk check_topic_levels
    check_level_chars scoped split join may_publish allow new_limiter attach_conn str_eq
handle_publish-hear_example =
    handle_publish-hear meet meet-IsMatching [] tt at_least_once (codes "a/#") (codes "a/**") 3 refl
      open_rules all 5 7000000 message client (codes "a/b") 7 world default_metrics refl refl refl
      (λ op. refl) refl refl
