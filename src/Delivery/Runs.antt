-- ===== src/Delivery/Runs.antt =====
-- Deliveries to a concrete session.
use entmoot.Common.{◌≡◌, refl, inr, true, none, some, List, [], ◌∷◌, codes, arith}
use entmoot.Mqtt.{at_least_once, protocol_codec}
use entmoot.Persist.{Message}
use entmoot.Persist.Queue.{last}
use entmoot.Session.{SessionState, Host, new, attach_conn}
use entmoot.Session.Invariant.{IsValid}
use entmoot.Delivery.{World, accepted, timed_out, finished, sent, packet, deliver}
use entmoot.Delivery.Sequential.{
  pkid_for, offline_fate, offline_queue, deliver_online, deliver_offline,
}
use entmoot.Delivery.Backlog.{deliver_all, attach_conn-deliver_all}
use entmoot.Delivery.Interleaving.{here, next, attaches, Reach-new-IsValid}

abbrev host : Host
host = record { disk = record { files = []; writable = true }; effects = [] }

abbrev fresh : SessionState
fresh = new (codes "c") 2 (some 5000) none none host.disk

abbrev online : SessionState
online = (attach_conn protocol_codec [] 7 8 fresh host).1

abbrev world : SessionState → World
world s = record { session = s; host = host; outbox = []; evictions = 0 }

delivered_online :
    ((deliver (codes "t") (codes "1") at_least_once accepted 3 (world online)).0 ≡ finished sent)
    × ((deliver (codes "t") (codes "1") at_least_once accepted 3 (world online)).1.outbox
        ≡ (
          7,
          packet
              (codes "t")
              (codes "1")
              at_least_once
              (pkid_for (codes "t") (codes "1") at_least_once online),
        )
          ∷ [])
    × ((deliver (codes "t") (codes "1") at_least_once accepted 3 (world online)).1.session.inner
        ≡ online.inner)
unfolding attach_conn
delivered_online = deliver_online (codes "t") (codes "1") at_least_once 3 7 (world online) refl

deliver_offline_example :
    ((deliver (codes "t") (codes "1") at_least_once timed_out 3 (world online)).0
      ≡ finished (offline_fate (codes "t") (codes "1") at_least_once online))
    × ((deliver (codes "t") (codes "1") at_least_once timed_out 3 (world online)).1.session.queue
        ≡ offline_queue (codes "t") (codes "1") at_least_once online)
    × ((deliver (codes "t") (codes "1") at_least_once timed_out 3 (world online)).1.session.sink
        ≡ none)
    × ((deliver (codes "t") (codes "1") at_least_once timed_out 3 (world online)).1.outbox ≡ [])
deliver_offline_example =
    deliver_offline (codes "t") (codes "1") at_least_once timed_out 3 (world online) (inr (λ e. cc))

abbrev three : List Message
three = (codes "a", codes "1") ∷ (codes "b", codes "2") ∷ (codes "c", codes "3") ∷ []

attach_conn-deliver_all_example :
    ((attach_conn protocol_codec [] 7 8 (deliver_all 3 three (world fresh)).session host).0.1
      ≡ last 2 three)
    × ((attach_conn protocol_codec [] 7 8 (deliver_all 3 three (world fresh)).session host).1.queue
        ≡ [])
unfolding new
attach_conn-deliver_all_example =
    attach_conn-deliver_all protocol_codec [] 7 8 3 three (world fresh) host refl (omega arith)
      (omega arith)

Reach-new-IsValid_example : IsValid online
Reach-new-IsValid_example =
    Reach-new-IsValid protocol_codec (codes "c") 2 (some 5000) none none host
      (next here (attaches [] 7 8 host fresh))
