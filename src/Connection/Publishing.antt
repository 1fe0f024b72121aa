-- ===== src/Connection/Publishing.antt =====
-- What a publish, or a last will, puts on the bus, and what becomes of it at a node that replicates.
use entmoot.Bus.{BusOp, delete, put}
use entmoot.Mqtt.{LastWill}
use entmoot.Common.{
  ℕ, ◌≡◌, ap, ◌∙◌, Bool, true, false, none, some, List, [], ◌∷◌, ◌++◌, append_assoc, ok, Str, Bytes,
  is_empty, str_eq, if◌then◌else◌, arith, Bool-cases, inl, inr,
}
use entmoot.Common.Dict
use entmoot.Mqtt.{Publish}
use entmoot.Topic.{topic_to_keyexpr, retained_keyexpr}
use entmoot.Topic.Keyspaces.{topic_to_keyexpr-not_retained}
use entmoot.Auth.{Acl, may_publish}
use entmoot.RateLimiter.{allow}
use entmoot.Retained.{SystemTime, MatchCache, RetainedStore, apply_sample, encode_envelope}
use entmoot.Retained.Replication.{Fits, whole, apply_sample_lem}
use entmoot.Connection.{
  Client, handle_publish, relay, acknowledge, retained_op, on_bus, send, fire_will, try_bus,
}

-- What the bus is to carry for an accepted publish.
abbrev pub published : Str → Str → SystemTime → Publish → List BusOp
published scope ke now p =
    put ke p.payload
    ∷ (if p.retain
        then (if is_empty p.payload
            then delete (retained_keyexpr p.topic scope)
            else put (retained_keyexpr p.topic scope) (encode_envelope p.payload now))
          ∷ []
        else [])

module _ (acl : Acl) (scope : Str) (takes : BusOp → Bool) where
  acknowledge-bus : (p : Publish) (c : Client) → (acknowledge acl scope takes p c).1.bus ≡ c.bus
  unfolding acknowledge send
  acknowledge-bus p c = ground arith

  -- A publish that the ACL denies reaches nothing on the bus, whatever else becomes of it.
  pub handle_publish-denied :
      (instant : ℕ) (now : SystemTime) (p : Publish) (c : Client)
      → may_publish acl c.identity p.topic ≡ false
      → (handle_publish acl scope takes instant now p c).1.bus ≡ c.bus
  unfolding handle_publish
  handle_publish-denied instant now p c h = ground (arith, acknowledge-bus p)

  relay-bus :
      (now : SystemTime) (ke : Str) (p : Publish) (c : Client)
      → ((op : BusOp) → takes op ≡ true)
      → ((relay acl scope takes now ke p c).0 ≡ ok tt)
        × ((relay acl scope takes now ke p c).1.bus ≡ c.bus ++ published scope ke now p)
  unfolding relay retained_op on_bus
  relay-bus now ke p c t =
      let rke = retained_keyexpr p.topic scope in
      ground (
        arith,
        t (put ke p.payload),
        t (delete rke),
        t (put rke (encode_envelope p.payload now)),
        append_assoc c.bus (put ke p.payload ∷ []) (delete rke ∷ []),
        append_assoc c.bus (put ke p.payload ∷ []) (put rke (encode_envelope p.payload now) ∷ []),
      )

  -- A permitted publish within the rate, on a bus that takes everything, puts exactly its operations
  -- on the bus, in order.
  pub handle_publish-permitted :
      (instant : ℕ) (now : SystemTime) (p : Publish) (c : Client) (ke : Str)
      → (allow instant c.rate).0 ≡ true
      → topic_to_keyexpr p.topic scope ≡ ok ke
      → may_publish acl c.identity p.topic ≡ true
      → ((op : BusOp) → takes op ≡ true)
      → (handle_publish acl scope takes instant now p c).1.bus ≡ c.bus ++ published scope ke now p
  unfolding handle_publish
  handle_publish-permitted instant now p c ke a k m t =
      let c' = record c { rate = (allow instant c.rate).1 } in
      let (done, bus) = relay-bus now ke p c' t in
      ground (arith, acknowledge-bus p (relay acl scope takes now ke p c').1, done, bus)

  module _ (mc : MatchCache) where
    -- A node that hears these operations on its subscription to the retained keyspace.
    unfoldable pub replicate : List BusOp → RetainedStore mc → RetainedStore mc
    replicate [] s = s
    replicate (put ke raw ∷ ops) s = replicate ops (apply_sample mc scope ke (some raw) s)
    replicate (delete ke ∷ ops) s = replicate ops (apply_sample mc scope ke none s)

    ignored :
        (t ke : Str) (raw : Bytes) (s : RetainedStore mc)
        → topic_to_keyexpr t scope ≡ ok ke
        → apply_sample mc scope ke (some raw) s ≡ s
    unfolding apply_sample
    ignored t ke raw s e = rw (topic_to_keyexpr-not_retained t scope ke e, apply_sample)

    published-replicate :
        (ke j : Str) (now : SystemTime) (p : Publish) (s : RetainedStore mc)
        → topic_to_keyexpr p.topic scope ≡ ok ke
        → p.retain ≡ true
        → Fits now
        → Dict.get j (replicate (published scope ke now p) s).entries ≡ (
            if str_eq p.topic j
            then (if is_empty p.payload then none else some (p.payload, whole now))
            else Dict.get j s.entries)
    unfolding replicate
    published-replicate ke j now p s e r f =
        let stored = apply_sample_lem mc scope p.topic j p.payload now s f in
        elim (Bool-cases (is_empty p.payload)) [
          | inl q ↦ rw (r, q, ignored p.topic ke p.payload s e) stored.1
          | inr q ↦ rw (r, q, ignored p.topic ke p.payload s e) stored.0
        ]

    -- A retained publish that a node accepts reaches every replica that hears the bus: the topic
    -- holds the payload there, with its write time to the millisecond, or nothing if the payload is
    -- empty, and every other topic what it held. Accepted means: within the rate, with a valid topic,
    -- permitted by the ACL, on a bus that takes everything.
    pub handle_publish-replicate :
        (instant : ℕ) (now : SystemTime) (p : Publish) (c : Client) (ke j : Str)
        (s : RetainedStore mc)
        → (allow instant c.rate).0 ≡ true
        → topic_to_keyexpr p.topic scope ≡ ok ke
        → may_publish acl c.identity p.topic ≡ true
        → ((op : BusOp) → takes op ≡ true)
        → c.bus ≡ []
        → p.retain ≡ true
        → Fits now
        → Dict.get j (replicate (handle_publish acl scope takes instant now p c).1.bus s).entries
          ≡ (if str_eq p.topic j
              then (if is_empty p.payload then none else some (p.payload, whole now))
              else Dict.get j s.entries)
    handle_publish-replicate instant now p c ke j s a k m t b r f =
        ap (λ ops. Dict.get j (replicate ops s).entries)
          (handle_publish-permitted instant now p c ke a k m t
            ∙ ap (λ log. log ++ published scope ke now p) b)
        ∙ published-replicate ke j now p s k r f

-- What the bus is to carry for a last will: a retained will that is empty clears nothing.
abbrev pub willed : Str → Str → SystemTime → LastWill → List BusOp
willed scope ke now will =
    put ke will.message
    ∷ (if will.retain
        then if is_empty will.message
          then []
          else put (retained_keyexpr will.topic scope) (encode_envelope will.message now) ∷ []
        else [])

module _ (acl : Acl) (scope : Str) (takes : BusOp → Bool) where
  fire_will-will : (now : SystemTime) (c : Client) → (fire_will acl scope takes now c).will ≡ none
  unfolding fire_will try_bus on_bus
  fire_will-will now c = ground arith

  nothing_left :
      (now : SystemTime) (c : Client) → c.will ≡ none → fire_will acl scope takes now c ≡ c
  unfolding fire_will
  nothing_left now c e = ground arith

  -- A last will is fired once: after a first time, nothing is left to fire.
  pub fire_will_once :
      (now later : SystemTime) (c : Client)
      → fire_will acl scope takes later (fire_will acl scope takes now c)
        ≡ fire_will acl scope takes now c
  fire_will_once now later c = nothing_left later _ (fire_will-will now c)

  -- A will that the ACL denies puts nothing on the bus.
  pub fire_will-denied :
      (now : SystemTime) (will : LastWill) (c : Client)
      → c.will ≡ some will
      → may_publish acl c.identity will.topic ≡ false
      → (fire_will acl scope takes now c).bus ≡ c.bus
  unfolding fire_will
  fire_will-denied now will c e m = rw (e, m, fire_will)

  -- A permitted will is published, and retained unless it is empty.
  pub fire_will-permitted :
      (now : SystemTime) (will : LastWill) (c : Client) (ke : Str)
      → c.will ≡ some will
      → topic_to_keyexpr will.topic scope ≡ ok ke
      → may_publish acl c.identity will.topic ≡ true
      → ((op : BusOp) → takes op ≡ true)
      → (fire_will acl scope takes now c).bus ≡ c.bus ++ willed scope ke now will
  unfolding fire_will try_bus on_bus
  fire_will-permitted now will c ke e k m t =
      let envelope = put (retained_keyexpr will.topic scope) (encode_envelope will.message now) in
      ground (
        arith,
        t (put ke will.message),
        t envelope,
        append_assoc c.bus (put ke will.message ∷ []) (envelope ∷ []),
      )
