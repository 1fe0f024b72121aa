-- ===== src/Connection/Authority.antt =====
-- What the client of a connection can put on the bus.
pub mod Retained
pub mod Handlers
pub mod Rounds
use entmoot.Common.{
  ℕ, suc, ◌≡◌, refl, sym, ap, ◌∙◌, subst, Bool, true, false, Option, none, some, List, [], ◌∷◌,
  ◌++◌, append_assoc, append-nil, Result, ok, err, Str, Bytes, All, All-append, Bool-cases,
  Option-cases, Result-cases, inl, inr, if◌then◌else◌, arith, is_empty,
}
use entmoot.Mqtt
use entmoot.Mqtt.{QoS, QosCodec, Packet, Publish, LastWill}
use entmoot.Bus.{BusOp, put, delete}
use entmoot.Topic.{topic_to_keyexpr, retained_keyexpr, meta_keyexpr}
use entmoot.Auth.{Acl, may_publish}
use entmoot.Staleness.{StalenessPolicy}
use entmoot.Retained.{SystemTime, MatchCache, RetainedEntry, RetainedStore, matching_cached}
use entmoot.RateLimiter.{allow}
use entmoot.Connection.{
  Client, ClientError, writer_closed, Handled, then_do, done, send, on_bus, try_bus, relay,
  retained_op, acknowledge, handle_publish, client_event, subscribe, denied, with_session,
}
use entmoot.Connection.Framing.{can_encode}
use entmoot.Connection.RetainedDelivery.{
  deliver_retained, deliver_entries, retained_packet, flag_if_stale,
}
use entmoot.Connection.Loop.{
  Event, received, read_failed, silence, kicked, elsewhere, Conn, Turn, settle, after, proceed,
  subscribe_all, deliver_granted, handle_subscribe, unsubscribe_all, handle_packet, round, run,
}

-- An operation that this identity may cause: on a topic that the ACL lets it publish to, or on its
-- retained copy, or an annotation of the node's own.
pub data IsAuthorized (acl : Acl) (scope identity : Str) : BusOp → Type 0 where
  publishes :
      (t ke : Str) (payload : Bytes)
      → topic_to_keyexpr t scope ≡ ok ke
      → may_publish acl identity t ≡ true
      → IsAuthorized acl scope identity (put ke payload)
  retains :
      (t ke : Str) (raw : Bytes)
      → topic_to_keyexpr t scope ≡ ok ke
      → may_publish acl identity t ≡ true
      → IsAuthorized acl scope identity (put (retained_keyexpr t scope) raw)
  clears :
      (t ke : Str)
      → topic_to_keyexpr t scope ≡ ok ke
      → may_publish acl identity t ≡ true
      → IsAuthorized acl scope identity (delete (retained_keyexpr t scope))
  annotates :
      (suffix : Str) (raw : Bytes)
      → IsAuthorized acl scope identity (put (meta_keyexpr suffix scope) raw)

module _ (acl : Acl) (scope : Str) (takes : BusOp → Bool) where
  -- What a handler may do to its client's state: add authorized operations to the log, and send
  -- packets.
  pub record Extends (c c' : Client) : Type 0 where
    pub ops : List BusOp
    pub log : c'.bus ≡ c.bus ++ ops
    pub authorized : All (IsAuthorized acl scope c.identity) ops
    pub packets : List Packet
    pub sent : c'.sent ≡ c.sent ++ packets
    pub encodable : All (λ p. can_encode p ≡ true) packets
    pub same_identity : c'.identity ≡ c.identity
    pub same_will : c'.will ≡ c.will

  pub Extends-same :
      (c c' : Client)
      → c'.bus ≡ c.bus
      → c'.sent ≡ c.sent
      → c'.identity ≡ c.identity
      → c'.will ≡ c.will
      → Extends c c'
  Extends-same c c' b p i w = record {
    ops = [];
    log = b ∙ sym (append-nil c.bus);
    authorized = tt;
    packets = [];
    encodable = tt;
    sent = p ∙ sym (append-nil c.sent);
    same_identity = i;
    same_will = w;
  }

  pub Extends-trans : {c d e : Client} → Extends c d → Extends d e → Extends c e
  Extends-trans {c} p q = record {
    ops = p.ops ++ q.ops;
    log = q.log ∙ ap (λ l. l ++ q.ops) p.log ∙ append_assoc c.bus p.ops q.ops;
    authorized =
        All-append _ p.ops q.ops p.authorized
          (subst (λ i. All (IsAuthorized acl scope i) q.ops) p.same_identity q.authorized);
    packets = p.packets ++ q.packets;
    sent = q.sent ∙ ap (λ l. l ++ q.packets) p.sent ∙ append_assoc c.sent p.packets q.packets;
    encodable = All-append _ p.packets q.packets p.encodable q.encodable;
    same_identity = q.same_identity ∙ p.same_identity;
    same_will = q.same_will ∙ p.same_will;
  }

  pub on_bus-Extends :
      (op : BusOp) (c : Client)
      → IsAuthorized acl scope c.identity op
      → Extends c (on_bus acl scope takes op c).1
  unfolding on_bus
  on_bus-Extends op c a = elim (Bool-cases (takes op)) [
    | inl t ↦ rw t (record {
      ops = op ∷ [];
      log = refl;
      authorized = (a, tt);
      packets = [];
      encodable = tt;
      sent = sym (append-nil c.sent);
      same_identity = refl;
      same_will = refl;
    })
    | inr t ↦ rw t (Extends-same c c refl refl refl refl)
  ]

  pub if-Extends :
      (c : Client) (b : Bool) (h h' : Handled)
      → Extends c h.1
      → Extends c h'.1
      → Extends c (if b then h else h').1
  if-Extends c true h h' p q = p
  if-Extends c false h h' p q = q

  pub if-same :
      (c : Client) (b : Bool) (d d' : Client)
      → Extends c d
      → Extends c d'
      → Extends c (if b then d else d')
  if-same c true d d' p q = p
  if-same c false d d' p q = q

  pub send-Extends : (p : Packet) (c : Client) → can_encode p ≡ true → Extends c (send p c).1
  unfolding send
  send-Extends p c e =
      if-Extends c c.writer_open (done (record c { sent = c.sent ++ (p ∷ []) }))
        (err writer_closed, c)
        (record {
          ops = [];
          log = sym (append-nil c.bus);
          authorized = tt;
          packets = p ∷ [];
          sent = refl;
          encodable = (e, tt);
          same_identity = refl;
          same_will = refl;
        })
        (Extends-same c c refl refl refl refl)

  pub then_do-Extends :
      (c : Client) (h : Handled) (next : Client → Handled)
      → Extends c h.1
      → ((d : Client) → Extends c d → Extends c (next d).1)
      → Extends c (then_do h next).1
  then_do-Extends c (ok u, d) next p k = k d p
  then_do-Extends c (err e, d) next p k = p
