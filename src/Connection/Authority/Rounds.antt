-- ===== src/Connection/Authority/Rounds.antt =====
-- Every round of a connection's loop, and so any run of it, adds only authorized operations to the
-- log.
use entmoot.Common.{
  ℕ, suc, ◌≡◌, refl, ap, Bool, true, false, Option, none, some, List, [], ◌∷◌, ◌++◌, Result, ok,
  err, Str, codes, All, leb, if◌then◌else◌,
}
use entmoot.Mqtt.{QoS, QosCodec, Packet, LastWill}
use entmoot.Bus.{BusOp}
use entmoot.Auth.{Acl}
use entmoot.Staleness.{StalenessPolicy}
use entmoot.Session.{remove_sub, take_kick_reason}
use entmoot.Retained.{SystemTime, MatchCache, RetainedStore}
use entmoot.Connection.{
  Client, ClientError, keep_alive_expired, Handled, send, subscribe, handle_publish, client_event,
}
use entmoot.Connection.Framing.{can_encode}
use entmoot.Connection.RetainedDelivery.{deliver_retained}
use entmoot.Connection.Loop.{
  Event, received, read_failed, silence, kicked, elsewhere, Conn, Turn, settle, after, proceed,
  subscribe_all, deliver_granted, handle_subscribe, unsubscribe_all, handle_packet, round, run,
  remove_id, idle_limit,
}
use entmoot.Connection.Authority.{IsAuthorized, Extends, Extends-same, Extends-trans, send-Extends}
use entmoot.Connection.Authority.Retained.{deliver_retained-Extends}
use entmoot.Connection.Authority.Handlers.{
  handle_publish-Extends, client_event-Extends, subscribe-Extends,
}

-- The last will after the loop: a clean disconnect discards it, and nothing else does.
unfoldable pub will_left :
    Option (Result (Unit {0}) ClientError) → Option LastWill → Option LastWill
will_left (some (ok u)) w = none
will_left (some (err e)) w = w
will_left none w = w

module _ (codec : QosCodec) (acl : Acl) (scope : Str) (takes : BusOp → Bool) (declares : Str → Bool)
    (policy : StalenessPolicy) (node_id : Str) (mc : MatchCache) where
  abbrev Grows : Client → Client → Type 0
  Grows c c' = Extends acl scope takes c c'

  subscribe_all-Extends :
      (filters : List (Str × QoS)) (c : Client)
      → Grows c (subscribe_all codec acl scope takes declares policy node_id mc filters c).1
  unfolding subscribe_all
  subscribe_all-Extends [] c = Extends-same acl scope takes c c refl refl refl refl
  subscribe_all-Extends ((path, qos) ∷ filters) c =
      Extends-trans acl scope takes
        (subscribe-Extends acl scope takes codec declares node_id path qos c)
        (subscribe_all-Extends filters
          (subscribe acl scope takes codec declares node_id path qos c).1)

  after-Extends :
      (c : Client) (h : Handled × RetainedStore mc)
      (next : Client → RetainedStore mc → Handled × RetainedStore mc)
      → Grows c h.0.1
      → ((d : Client) (store : RetainedStore mc) → Grows c d → Grows c (next d store).0.1)
      → Grows c (after mc h next).0.1
  after-Extends c ((ok u, d), store) next g k = k d store g
  after-Extends c ((err e, d), store) next g k = g

  pub deliver_granted-Extends :
      (clock : ℕ → ℕ → SystemTime) (n : ℕ) (granted : List (Str × QoS)) (c : Client)
      (store : RetainedStore mc)
      → Grows c
          (deliver_granted codec acl scope takes declares policy node_id mc clock n granted c
            store).0.1
  unfolding deliver_granted
  deliver_granted-Extends clock n [] c store = Extends-same acl scope takes c c refl refl refl refl
  deliver_granted-Extends clock n ((filter, qos) ∷ granted) c store =
      after-Extends c (deliver_retained acl scope takes policy mc filter qos (clock n) store c)
        (deliver_granted codec acl scope takes declares policy node_id mc clock (suc n) granted)
        (deliver_retained-Extends acl scope takes policy mc filter qos (clock n) store c)
        (λ d s g.
          Extends-trans acl scope takes g (deliver_granted-Extends clock (suc n) granted d s))

  pub handle_subscribe-Extends :
      (clock : ℕ → ℕ → SystemTime) (pkid : ℕ) (filters : List (Str × QoS)) (c : Client)
      (store : RetainedStore mc)
      → Grows c
          (handle_subscribe codec acl scope takes declares policy node_id mc clock pkid filters
            (c, store)).0.1
  unfolding handle_subscribe can_encode
  handle_subscribe-Extends clock pkid filters c store =
      let ((codes, granted), c') =
        subscribe_all codec acl scope takes declares policy node_id mc filters c in
      let ack = send (Packet.sub_ack pkid codes) c' in
      after-Extends c (ack, store)
        (deliver_granted codec acl scope takes declares policy node_id mc clock 0 granted)
        (Extends-trans acl scope takes (subscribe_all-Extends filters c)
          (send-Extends acl scope takes (Packet.sub_ack pkid codes) c' refl))
        (λ d s g. Extends-trans acl scope takes g (deliver_granted-Extends clock 0 granted d s))

  unsubscribe_all-Extends :
      (topics : List Str) (c : Client)
      → Grows c (unsubscribe_all codec acl scope takes declares policy node_id mc topics c)
  unfolding unsubscribe_all
  unsubscribe_all-Extends [] c = Extends-same acl scope takes c c refl refl refl refl
  unsubscribe_all-Extends (t ∷ topics) c =
      let (s, h) = remove_sub codec t c.session c.host in
      let c' = record c { session = s; host = h } in
      let event = codes "unsubscribe filter=" ++ t in
      Extends-trans acl scope takes (Extends-same acl scope takes c c' refl refl refl refl) (
        Extends-trans acl scope takes (client_event-Extends acl scope takes node_id event c')
          (unsubscribe_all-Extends topics (client_event acl scope takes node_id event c')))

  -- What is left of a connection when a turn of it ends.
  abbrev pub Keeps : Client → Turn mc → Type 0
  Keeps c t = Extends acl scope takes (record c { will = will_left t.0 c.will }) t.1.0

  settle-Keeps :
      (c : Client) (h : Handled × RetainedStore mc) → Grows c h.0.1 → Keeps c (settle mc h)
  unfolding will_left
  settle-Keeps c ((ok u, d), store) g = g
  settle-Keeps c ((err e, d), store) g = g

  handle_packet-Keeps :
      (instant : ℕ) (clock : ℕ → ℕ → SystemTime) (packet : Packet) (c : Client)
      (store : RetainedStore mc)
      → Keeps c (
          handle_packet codec acl scope takes declares policy node_id mc instant clock packet
            (c, store))
  unfolding handle_packet will_left can_encode
  handle_packet-Keeps instant clock (Packet.publish p) c store =
      settle-Keeps c (handle_publish acl scope takes instant (clock 0 0) p c, store)
        (handle_publish-Extends acl scope takes instant (clock 0 0) p c)
  handle_packet-Keeps instant clock (Packet.pub_rel k) c store =
      let c' = record c { inflight_qos2 = remove_id k c.inflight_qos2 } in
      settle-Keeps c (send (Packet.pub_comp k) c', store)
        (Extends-trans acl scope takes (Extends-same acl scope takes c c' refl refl refl refl)
          (send-Extends acl scope takes (Packet.pub_comp k) c' refl))
  handle_packet-Keeps instant clock (Packet.subscribe pkid filters) c store =
      settle-Keeps c
        (handle_subscribe codec acl scope takes declares policy node_id mc clock pkid filters
          (c, store))
        (handle_subscribe-Extends clock pkid filters c store)
  handle_packet-Keeps instant clock (Packet.unsubscribe pkid topics) c store =
      let c' = unsubscribe_all codec acl scope takes declares policy node_id mc topics c in
      settle-Keeps c (send (Packet.unsub_ack pkid) c', store)
        (Extends-trans acl scope takes (unsubscribe_all-Extends topics c)
          (send-Extends acl scope takes (Packet.unsub_ack pkid) c' refl))
  handle_packet-Keeps instant clock Packet.ping_req c store =
      settle-Keeps c (send Packet.ping_resp c, store)
        (send-Extends acl scope takes Packet.ping_resp c refl)
  handle_packet-Keeps instant clock Packet.disconnect c store =
      Extends-same acl scope takes _ _ refl refl refl refl
  handle_packet-Keeps instant clock (Packet.pub_ack k) c store =
      Extends-same acl scope takes c c refl refl refl refl
  handle_packet-Keeps instant clock (Packet.pub_rec k) c store =
      Extends-same acl scope takes c c refl refl refl refl
  handle_packet-Keeps instant clock (Packet.pub_comp k) c store =
      Extends-same acl scope takes c c refl refl refl refl
  handle_packet-Keeps instant clock (Packet.connect x) c store =
      Extends-same acl scope takes c c refl refl refl refl
  handle_packet-Keeps instant clock (Packet.conn_ack x y) c store =
      Extends-same acl scope takes c c refl refl refl refl
  handle_packet-Keeps instant clock (Packet.sub_ack x y) c store =
      Extends-same acl scope takes c c refl refl refl refl
  handle_packet-Keeps instant clock (Packet.unsub_ack x) c store =
      Extends-same acl scope takes c c refl refl refl refl
  handle_packet-Keeps instant clock Packet.ping_resp c store =
      Extends-same acl scope takes c c refl refl refl refl

  silence-Keeps :
      (c : Client) (store : RetainedStore mc) (b : Bool)
      → Keeps c (if b then some (err keep_alive_expired) else none, (c, store))
  unfolding will_left
  silence-Keeps c store true = Extends-same acl scope takes c c refl refl refl refl
  silence-Keeps c store false = Extends-same acl scope takes c c refl refl refl refl

  round-Keeps :
      (e : Event) (c : Client) (store : RetainedStore mc)
      → Keeps c (round codec acl scope takes declares policy node_id mc e (c, store))
  unfolding round will_left
  round-Keeps (received instant clock packet) c store =
      handle_packet-Keeps instant clock packet c store
  round-Keeps read_failed c store = Extends-same acl scope takes c c refl refl refl refl
  round-Keeps (silence ms) c store = silence-Keeps c store (leb (idle_limit c.keep_alive) ms)
  round-Keeps kicked c store =
      Extends-same acl scope takes c (record c { session = (take_kick_reason c.session).1 }) refl
        refl refl refl
  round-Keeps (elsewhere s h task writer) c store =
      Extends-same acl scope takes c
        (record c { session = s; host = h; next_task = task; writer_open = writer }) refl refl refl
        refl

  Extends-will :
      (c d : Client) (result : Option (Result (Unit {0}) ClientError))
      → Grows c d
      → Grows
          (record c { will = will_left result c.will })
          (record d { will = will_left result d.will })
  Extends-will c d result g = record {
    ops = g.ops;
    log = g.log;
    authorized = g.authorized;
    packets = g.packets;
    encodable = g.encodable;
    sent = g.sent;
    same_identity = g.same_identity;
    same_will = ap (will_left result) g.same_will;
  }

  proceed-Keeps :
      (c : Client) (t : Turn mc) (next : Conn mc → Turn mc)
      → Keeps c t
      → ((d : Client) (store : RetainedStore mc) → Keeps d (next (d, store)))
      → Keeps c (proceed mc t next)
  unfolding will_left
  proceed-Keeps c (some result, conn) next g k = g
  proceed-Keeps c (none, (d, store)) next g k =
      Extends-trans acl scope takes (Extends-will c d (next (d, store)).0 g) (k d store)

  pub run-Keeps :
      (events : List Event) (c : Client) (store : RetainedStore mc)
      → Keeps c (run codec acl scope takes declares policy node_id mc events (c, store))
  unfolding run will_left
  run-Keeps [] c store = Extends-same acl scope takes c c refl refl refl refl
  run-Keeps (e ∷ events) c store =
      proceed-Keeps c (round codec acl scope takes declares policy node_id mc e (c, store))
        (run codec acl scope takes declares policy node_id mc events) (round-Keeps e c store)
        (run-Keeps events)

  -- Whatever its client sends and whatever befalls it, a connection puts on the bus only what its
  -- client's identity may: a topic or its retained copy, where the ACL lets it publish, and the
  -- node's own annotations. The identity does not change either.
  pub run-IsAuthorized :
      (events : List Event) (c : Client) (store : RetainedStore mc)
      → let c' = (run codec acl scope takes declares policy node_id mc events (c, store)).1.0 in
        (ops : List BusOp) × (c'.bus ≡ c.bus ++ ops)
        × All (IsAuthorized acl scope c.identity) ops
        × (c'.identity ≡ c.identity)
  run-IsAuthorized events c store =
      let g = run-Keeps events c store in (g.ops, g.log, g.authorized, g.same_identity)

  -- The last will after the loop is the one before it, except that a clean disconnect has discarded
  -- it.
  pub run-will_left :
      (events : List Event) (c : Client) (store : RetainedStore mc)
      → let (result, conn) =
          run codec acl scope takes declares policy node_id mc events (c, store) in
        conn.0.will ≡ will_left result c.will
  run-will_left events c store = (run-Keeps events c store).same_will
