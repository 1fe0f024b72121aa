-- ===== src/Connection/Loop.antt =====
-- The loop of a connection over what its client sends and what befalls it (`Client::run` of
-- crates/entmoot-node/src/connection.rs).
--
-- An event is what the `select!` of one round yields, with the readings of the clocks that its
-- handler takes; `elsewhere` is what other tasks do to the session, the disk and the writer
-- between two rounds, and may be anything.
use entmoot.Common.{
  ℕ, suc, ◌*◌, ◌-◌, ◌/◌, ◌^◌, Bool, Option, none, some, List, [], ◌∷◌, ◌++◌, Result, ok, err, Str,
  codes, not, select, leb, ◌==◌, if◌then◌else◌,
}
use entmoot.Mqtt.{QoS, QosCodec, Packet}
use entmoot.Bus.{BusOp}
use entmoot.Auth.{Acl}
use entmoot.Staleness.{StalenessPolicy, unwrap_or}
use entmoot.Session.{SessionState, Host, takeover, take_kick_reason, remove_sub}
use entmoot.Retained.{SystemTime, MatchCache, RetainedStore}
use entmoot.Connection.{
  Client, ClientError, read_error, keep_alive_expired, duplicate_connect, unexpected_packet,
  kicked_for, Handled, send, handle_publish, subscribe, client_event,
}
use entmoot.Connection.RetainedDelivery.{deliver_retained}

pub data Event : Type 0 where
  received : ℕ → (ℕ → ℕ → SystemTime) → Packet → Event
  read_failed : Event
  silence : ℕ → Event
  kicked : Event
  elsewhere : SessionState → Host → ℕ → Bool → Event

-- `HashSet::remove`
abbrev pub remove_id : ℕ → List ℕ → List ℕ
remove_id k = select (λ j. not (j == k))

-- Milliseconds: one and a half times the keep-alive interval, or as good as never.
unfoldable pub idle_limit : ℕ → ℕ
idle_limit keep_alive = if keep_alive == 0 then (2 ^ 64 - 1) / 4 * 1000 else keep_alive * 1500

module _ (mc : MatchCache) where
  -- A connection's task, and the node's replica.
  abbrev pub Conn : Type 0
  Conn = Client × RetainedStore mc

  -- What the loop breaks with, or `none` if it goes on.
  abbrev pub Turn : Type 0
  Turn = Option (Result (Unit {0}) ClientError) × Conn

  abbrev pub settle : Handled × RetainedStore mc → Turn
  settle ((ok u, c), store) = (none, (c, store))
  settle ((err e, c), store) = (some (err e), (c, store))

  abbrev pub after :
      Handled × RetainedStore mc
      → (Client → RetainedStore mc → Handled × RetainedStore mc)
      → Handled × RetainedStore mc
  after ((ok u, c), store) next = next c store
  after ((err e, c), store) next = ((err e, c), store)

  abbrev pub proceed : Turn → (Conn → Turn) → Turn
  proceed (none, conn) next = next conn
  proceed (some result, conn) next = (some result, conn)

module _ (codec : QosCodec) (acl : Acl) (scope : Str) (takes : BusOp → Bool) (declares : Str → Bool)
    (policy : StalenessPolicy) (node_id : Str) (mc : MatchCache) where
  -- The codes for the SUBACK, and the filters granted.
  unfoldable pub subscribe_all :
      List (Str × QoS) → Client → (List (Option QoS) × List (Str × QoS)) × Client
  subscribe_all [] c = (([], []), c)
  subscribe_all ((path, qos) ∷ filters) c =
      let (code, c') = subscribe acl scope takes codec declares node_id path qos c in
      let ((codes, granted), c'') = subscribe_all filters c' in
      ((code ∷ codes, elim code [ none ↦ granted | some q ↦ (path, q) ∷ granted ]), c'')

  unfoldable pub deliver_granted :
      (ℕ → ℕ → SystemTime)
      → ℕ
      → List (Str × QoS)
      → Client
      → RetainedStore mc
      → Handled × RetainedStore mc
  deliver_granted clock n [] c store = ((ok tt, c), store)
  deliver_granted clock n ((filter, qos) ∷ granted) c store =
      after mc (deliver_retained acl scope takes policy mc filter qos (clock n) store c)
        (deliver_granted clock (suc n) granted)

  unfoldable pub handle_subscribe :
      (ℕ → ℕ → SystemTime) → ℕ → List (Str × QoS) → Conn mc → Handled × RetainedStore mc
  handle_subscribe clock pkid filters (c, store) =
      let ((codes, granted), c') = subscribe_all filters c in
      after mc (send (Packet.sub_ack pkid codes) c', store) (deliver_granted clock 0 granted)

  unfoldable pub unsubscribe_all : List Str → Client → Client
  unsubscribe_all [] c = c
  unsubscribe_all (t ∷ topics) c =
      let (s, h) = remove_sub codec t c.session c.host in
      unsubscribe_all topics (
        client_event acl scope takes node_id (codes "unsubscribe filter=" ++ t)
          (record c { session = s; host = h }))

  unfoldable pub handle_packet : ℕ → (ℕ → ℕ → SystemTime) → Packet → Conn mc → Turn mc
  handle_packet instant clock (Packet.publish p) (c, store) =
      settle mc (handle_publish acl scope takes instant (clock 0 0) p c, store)
  handle_packet instant clock (Packet.pub_rel k) (c, store) =
      settle mc
        (send (Packet.pub_comp k) (record c { inflight_qos2 = remove_id k c.inflight_qos2 }), store)
  handle_packet instant clock (Packet.subscribe pkid filters) (c, store) =
      settle mc (handle_subscribe clock pkid filters (c, store))
  handle_packet instant clock (Packet.unsubscribe pkid topics) (c, store) =
      settle mc (send (Packet.unsub_ack pkid) (unsubscribe_all topics c), store)
  handle_packet instant clock Packet.ping_req (c, store) =
      settle mc (send Packet.ping_resp c, store)
  handle_packet instant clock Packet.disconnect (c, store) =
      (some (ok tt), (record c { will = none }, store))
  handle_packet instant clock (Packet.pub_ack k) (c, store) = (none, (c, store))
  handle_packet instant clock (Packet.pub_rec k) (c, store) = (none, (c, store))
  handle_packet instant clock (Packet.pub_comp k) (c, store) = (none, (c, store))
  handle_packet instant clock (Packet.connect x) (c, store) =
      (some (err duplicate_connect), (c, store))
  handle_packet instant clock (Packet.conn_ack x y) (c, store) =
      (some (err unexpected_packet), (c, store))
  handle_packet instant clock (Packet.sub_ack x y) (c, store) =
      (some (err unexpected_packet), (c, store))
  handle_packet instant clock (Packet.unsub_ack x) (c, store) =
      (some (err unexpected_packet), (c, store))
  handle_packet instant clock Packet.ping_resp (c, store) =
      (some (err unexpected_packet), (c, store))

  -- One round.
  unfoldable pub round : Event → Conn mc → Turn mc
  round (received instant clock packet) conn = handle_packet instant clock packet conn
  round read_failed conn = (some (err read_error), conn)
  round (silence ms) (c, store) =
      (if leb (idle_limit c.keep_alive) ms then some (err keep_alive_expired) else none, (c, store))
  round kicked (c, store) =
      let (reason, s) = take_kick_reason c.session in
      (some (err (kicked_for (unwrap_or reason takeover))), (record c { session = s }, store))
  round (elsewhere s h task writer) (c, store) =
      (none, (record c { session = s; host = h; next_task = task; writer_open = writer }, store))

  -- The loop over these events: `none` if it is still waiting after them.
  unfoldable pub run : List Event → Conn mc → Turn mc
  run [] conn = (none, conn)
  run (e ∷ events) conn = proceed mc (round e conn) (run events)
