-- ===== src/Connection/RetainedDelivery.antt =====
-- The retained messages that follow a subscription (`deliver_retained` and `flag_if_stale` of
-- crates/entmoot-node/src/connection.rs).
use entmoot.Bus.{BusOp, put}
use entmoot.Mqtt.{publish}
use entmoot.Common.{
  digits, ℕ, suc, ◌+◌, ◌*◌, ◌-◌, ◌/◌, ◌≡◌, refl, sym, ap, ◌∙◌, subst, Bool, true, List, [], ◌∷◌,
  ◌++◌, map, append_assoc, append-nil, ok, err, Str, Bytes, codes, All, ltb, ◌==◌, if◌then◌else◌,
  arith,
}
use entmoot.Mqtt.{QoS, Publish, is_at_most_once}
use entmoot.Topic.{meta_keyexpr}
use entmoot.Auth.{Acl}
use entmoot.Staleness.{StalenessPolicy, bound_secs}
use entmoot.Session.{next_pkid}
use entmoot.Retained.{
  SystemTime, MatchCache, RetainedEntry, RetainedStore, scan, matching, matching_cached,
}
use entmoot.Retained.Cached.{IsCoherent, matching_cached_lem}
use entmoot.Connection.{writer_closed, Client, Handled, then_do, done, send, on_bus, try_bus}

abbrev pub second : ℕ
second = 1000000000

module _ (acl : Acl) (scope : Str) (takes : BusOp → Bool) (policy : StalenessPolicy) where
  unfoldable pub flag : Str → ℕ → ℕ → Client → Client
  unfolding digits
  flag topic_name age bound c =
      let msg =
        codes "stale=true age_secs="
        ++ (digits 20 (age / second) ++ (codes " bound_secs=" ++ digits 20 bound)) in
      let c' = try_bus acl scope takes (put (meta_keyexpr topic_name scope) msg) c in
      record c' {
        metrics = record c'.metrics { stale_retained_total = c'.metrics.stale_retained_total + 1 };
      }

  unfoldable pub flag_if_stale : SystemTime → Str → SystemTime → Client → Client
  unfolding flag
  flag_if_stale now topic_name written_at c =
      let bound = bound_secs policy topic_name in
      let age = now - written_at in
      if bound == 0 then c else if ltb age (bound * second) then c else flag topic_name age bound c

  -- The packet of one match: an identifier is taken for it if it is to be acknowledged.
  unfoldable pub retained_packet : QoS → RetainedEntry → Client → Publish × Client
  retained_packet qos (topic_name, payload, written_at) c =
      let p : Publish = record {
        topic = topic_name;
        qos = qos;
        pkid = 0;
        retain = true;
        payload = payload;
      } in
      if is_at_most_once qos
      then (p, c)
      else (let (id, s) = next_pkid c.session in (record p { pkid = id }, record c { session = s }))

  -- What is left of a delivery once its packet is sent.
  unfoldable pub delivered : SystemTime → Str → SystemTime → Client → Client
  delivered now topic_name written_at c = flag_if_stale now topic_name written_at (record c {
    metrics = record c.metrics { messages_out_total = c.metrics.messages_out_total + 1 };
  })

  -- The loop; `clock n` is the time at which the entry number `n` is looked at.
  unfoldable pub deliver_entries :
      QoS → (ℕ → SystemTime) → List RetainedEntry → ℕ → Client → Handled
  unfolding retained_packet delivered
  deliver_entries qos clock [] n c = done c
  deliver_entries qos clock ((t, payload, written_at) ∷ rest) n c =
      let (p, c₁) = retained_packet qos (t, payload, written_at) c in
      then_do (send (publish p) c₁)
        (λ c₂. deliver_entries qos clock rest (suc n) (delivered (clock n) t written_at c₂))

  module _ (mc : MatchCache) where
    unfoldable pub deliver_retained :
        Str → QoS → (ℕ → SystemTime) → RetainedStore mc → Client → Handled × RetainedStore mc
    unfolding deliver_entries
    deliver_retained filter qos clock store c =
        let (matches, store') = matching_cached mc filter store in
        (deliver_entries qos clock matches 0 c, store')

  abbrev pub contents_of : Publish → Str × Bytes
  contents_of p = (p.topic, p.payload)

  abbrev pub value_of : RetainedEntry → Str × Bytes
  value_of (t, payload, written_at) = (t, payload)

  -- Retained packets for these entries, in their order.
  pub record Carries (qos : QoS) (entries : List RetainedEntry) (ps : List Publish) : Type 0 where
    pub contents : map contents_of ps ≡ map value_of entries
    pub flagged : All (λ (p : Publish). (p.retain ≡ true) × (p.qos ≡ qos)) ps

  flag_if_stale-sent :
      (now : SystemTime) (t : Str) (w : SystemTime) (c : Client)
      → ((flag_if_stale now t w c).sent ≡ c.sent)
        × ((flag_if_stale now t w c).writer_open ≡ c.writer_open)
  unfolding flag_if_stale try_bus on_bus
  flag_if_stale-sent now t w c = ground arith

  retained_packet_lem :
      (qos : QoS) (t : Str) (payload : Bytes) (w : SystemTime) (c : Client)
      → let (p, c') = retained_packet qos (t, payload, w) c in
        (c'.sent ≡ c.sent)
        × (c'.writer_open ≡ c.writer_open)
        × (contents_of p ≡ (t, payload))
        × ((p.retain ≡ true) × (p.qos ≡ qos))
  unfolding retained_packet
  retained_packet_lem qos t payload w c = ground arith

  deliver_entries-sent :
      (qos : QoS) (clock : ℕ → SystemTime) (entries : List RetainedEntry) (n : ℕ) (c : Client)
      → c.writer_open ≡ true
      → (ps : List Publish) × ((deliver_entries qos clock entries n c).0 ≡ ok tt)
        × ((deliver_entries qos clock entries n c).1.sent ≡ c.sent ++ map publish ps)
        × Carries qos entries ps
  unfolding deliver_entries send
  deliver_entries-sent qos clock [] n c h =
      ([], refl, sym (append-nil c.sent), record { contents = refl; flagged = tt })
  deliver_entries-sent qos clock ((t, payload, w) ∷ rest) n c h =
      let (p, c₁) = retained_packet qos (t, payload, w) c in
      let (same_sent, same_writer, body, retained) = retained_packet_lem qos t payload w c in
      let c₂ = record c₁ {
        sent = c₁.sent ++ (publish p ∷ []);
        metrics = record c₁.metrics { messages_out_total = c₁.metrics.messages_out_total + 1 };
      } in
      let (kept, still) = flag_if_stale-sent (clock n) t w c₂ in
      let (ps, fine, log, carries) =
        deliver_entries-sent qos clock rest (suc n) (flag_if_stale (clock n) t w c₂)
          (still ∙ same_writer ∙ h) in
      let sending : deliver_entries qos clock ((t, payload, w) ∷ rest) n c
          ≡ deliver_entries qos clock rest (suc n) (flag_if_stale (clock n) t w c₂) =
        ap
          (λ b.
            then_do
              (if b
                then done (record c₁ { sent = c₁.sent ++ (publish p ∷ []) })
                else (err writer_closed, c₁))
              (λ c'. deliver_entries qos clock rest (suc n) (
                flag_if_stale (clock n) t w (record c' {
                  metrics = record c'.metrics {
                    messages_out_total = c'.metrics.messages_out_total + 1;
                  };
                }))))
          (same_writer ∙ h) in
      (
        p ∷ ps,
        ap (λ r. r.0) sending ∙ fine,
        ap (λ r. r.1.sent) sending
            ∙ log
            ∙ ap (λ s. s ++ map publish ps) (kept ∙ ap (λ s. s ++ (publish p ∷ [])) same_sent)
            ∙ append_assoc c.sent (publish p ∷ []) (map publish ps),
        record { contents = cc (body, carries.contents); flagged = (retained, carries.flagged) },
      )

  module _ (mc : MatchCache) where
    -- A client that is granted a filter gets, in order, a packet for each retained message that
    -- matches the filter now and no other, flagged as retained and at the granted QoS; the replica
    -- stays as it was. The writer is open, and what is cached are current scans.
    pub deliver_retained_lem :
        (filter : Str) (qos : QoS) (clock : ℕ → SystemTime) (store : RetainedStore mc) (c : Client)
        → IsCoherent mc store
        → c.writer_open ≡ true
        → (ps : List Publish) × ((deliver_retained mc filter qos clock store c).0.0 ≡ ok tt)
          × ((deliver_retained mc filter qos clock store c).0.1.sent ≡ c.sent ++ map publish ps)
          × Carries qos (scan store.entries filter) ps
          × ((deliver_retained mc filter qos clock store c).1.entries ≡ store.entries)
    unfolding deliver_retained matching
    deliver_retained_lem filter qos clock store c h w =
        let m = matching_cached_lem mc filter store h in
        let (ps, fine, log, carries) =
          deliver_entries-sent qos clock (matching_cached mc filter store).0 0 c w in
        (ps, fine, log, subst (λ es. Carries qos es ps) m.0 carries, m.1)
