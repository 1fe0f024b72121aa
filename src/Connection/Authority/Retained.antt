-- ===== src/Connection/Authority/Retained.antt =====
-- Delivering retained messages adds only the node's own annotations to the log.
use entmoot.Common.{
  digits, ℕ, suc, ◌+◌, ◌-◌, ◌*◌, ◌/◌, ltb, ◌==◌, codes, ◌++◌, refl, Bool, List, [], ◌∷◌, Str,
  Bool-cases, inl, inr, if◌then◌else◌,
}
use entmoot.Mqtt.{publish, QoS, is_at_most_once}
use entmoot.Bus.{BusOp, put}
use entmoot.Topic.{meta_keyexpr}
use entmoot.Auth.{Acl}
use entmoot.Staleness.{StalenessPolicy, bound_secs}
use entmoot.Retained.{SystemTime, MatchCache, RetainedEntry, RetainedStore, matching_cached}
use entmoot.Connection.{Client, on_bus, try_bus, send}
use entmoot.Connection.Framing.{can_encode}
use entmoot.Connection.RetainedDelivery.{
  deliver_retained, deliver_entries, retained_packet, flag, flag_if_stale, delivered, second,
}
use entmoot.Connection.Authority.{
  annotates, Extends, Extends-same, Extends-trans, on_bus-Extends, if-same, send-Extends,
  then_do-Extends,
}

module _ (acl : Acl) (scope : Str) (takes : BusOp → Bool) where
  abbrev Grows : Client → Client → Type 0
  Grows c c' = Extends acl scope takes c c'

  flag-Extends :
      (policy : StalenessPolicy) (t : Str) (age bound : ℕ) (c : Client)
      → Grows c (flag acl scope takes policy t age bound c)
  unfolding flag try_bus
  flag-Extends policy t age bound c =
      let said =
        codes "stale=true age_secs="
        ++ (digits 20 (age / second) ++ (codes " bound_secs=" ++ digits 20 bound)) in
      let op = put (meta_keyexpr t scope) said in
      Extends-trans acl scope takes (on_bus-Extends acl scope takes op c (annotates t said))
        (Extends-same acl scope takes (on_bus acl scope takes op c).1 _ refl refl refl refl)

  flag_if_stale-Extends :
      (policy : StalenessPolicy) (now : SystemTime) (t : Str) (w : SystemTime) (c : Client)
      → Grows c (flag_if_stale acl scope takes policy now t w c)
  unfolding flag_if_stale
  flag_if_stale-Extends policy now t w c =
      let bound = bound_secs policy t in
      let same = Extends-same acl scope takes c c refl refl refl refl in
      let flagged = flag acl scope takes policy t (now - w) bound c in
      if-same acl scope takes c (bound == 0) c
        (if ltb (now - w) (bound * second) then c else flagged) same
        (if-same acl scope takes c (ltb (now - w) (bound * second)) c flagged same
          (flag-Extends policy t (now - w) bound c))

  retained_packet-Extends :
      (policy : StalenessPolicy) (qos : QoS) (e : RetainedEntry) (c : Client)
      → Grows c (retained_packet acl scope takes policy qos e c).1
  unfolding retained_packet
  retained_packet-Extends policy qos (t, payload, w) c = elim (Bool-cases (is_at_most_once qos)) [
    | inl q ↦ rw q (Extends-same acl scope takes c c refl refl refl refl)
    | inr q ↦ rw q (Extends-same acl scope takes c _ refl refl refl refl)
  ]

  delivered-Extends :
      (policy : StalenessPolicy) (now : SystemTime) (t : Str) (w : SystemTime) (c : Client)
      → Grows c (delivered acl scope takes policy now t w c)
  unfolding delivered
  delivered-Extends policy now t w c =
      let c' = record c {
        metrics = record c.metrics { messages_out_total = c.metrics.messages_out_total + 1 };
      } in
      Extends-trans acl scope takes (Extends-same acl scope takes c c' refl refl refl refl)
        (flag_if_stale-Extends policy now t w c')

  deliver_entries-Extends :
      (policy : StalenessPolicy) (qos : QoS) (clock : ℕ → SystemTime) (es : List RetainedEntry)
      (n : ℕ) (c : Client)
      → Grows c (deliver_entries acl scope takes policy qos clock es n c).1
  unfolding deliver_entries can_encode
  deliver_entries-Extends policy qos clock [] n c =
      Extends-same acl scope takes c c refl refl refl refl
  deliver_entries-Extends policy qos clock ((t, payload, w) ∷ es) n c =
      let (p, c₁) = retained_packet acl scope takes policy qos (t, payload, w) c in
      let rest = λ (d : Client).
        deliver_entries acl scope takes policy qos clock es (suc n)
          (delivered acl scope takes policy (clock n) t w d) in
      Extends-trans acl scope takes (retained_packet-Extends policy qos (t, payload, w) c) (
        then_do-Extends acl scope takes c₁ (send (publish p) c₁) rest
          (send-Extends acl scope takes (publish p) c₁ refl)
          (λ d e. Extends-trans acl scope takes e (
            Extends-trans acl scope takes (delivered-Extends policy (clock n) t w d) (
              deliver_entries-Extends policy qos clock es (suc n)
                (delivered acl scope takes policy (clock n) t w d)))))

  pub deliver_retained-Extends :
      (policy : StalenessPolicy) (mc : MatchCache) (filter : Str) (qos : QoS)
      (clock : ℕ → SystemTime) (store : RetainedStore mc) (c : Client)
      → Grows c (deliver_retained acl scope takes policy mc filter qos clock store c).0.1
  unfolding deliver_retained
  deliver_retained-Extends policy mc filter qos clock store c =
      deliver_entries-Extends policy qos clock (matching_cached mc filter store).0 0 c
