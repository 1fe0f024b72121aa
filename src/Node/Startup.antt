-- ===== src/Node/Startup.antt =====
-- What a node starts from (`run` of crates/entmoot-node/src/lib.rs, between its listeners and its
-- tasks): the broker that it builds of its configuration, and the sessions that it restores.
use entmoot.Common.{
  ℕ, ◌≡◌, sym, ap, ◌∙◌, subst, Bool, true, false, Option, none, some, List, [], ◌∷◌, ◌++◌, Str,
  Bytes, codes, slash, ltb, not, ◌==◌, str_eq, str_eq_iff, All, Bool-cases, inl, inr, arith,
  if◌then◌else◌,
}
use mathlib.Core.Option
use entmoot.Common.Dict
use entmoot.Common.Dict.{Dict}
use entmoot.Mqtt.{QosCodec}
use entmoot.Config.{NodeConfig, deny}
use entmoot.Auth.{is_allow, new_authenticator, new_acl, may_subscribe}
use entmoot.Auth.Grants.{Grant, may_subscribe_sound}
use entmoot.Admission.{Governor, new_admission}
use entmoot.Topic.{topic_matches}
use entmoot.Persist.{Disk}
use entmoot.Session.{SubEntry}
use entmoot.Registry.{new_registry}
use entmoot.Registry.Startup.{rehydrate, rehydrate-IsRestored}
use entmoot.Retained.{MatchCache}
use entmoot.Retained.Wiring.{restore}
use entmoot.Connection.Arrival.{Broker}
use entmoot.Connection.Serve.{Shared}

unfoldable pub broker_of : NodeConfig → Broker
broker_of cfg = record {
  id = cfg.id;
  scope = cfg.scope;
  auth = new_authenticator cfg.auth;
  acl = new_acl cfg.acl cfg.auth.default_policy;
  staleness = record { rules = cfg.staleness; default_secs = cfg.retained_staleness_secs };
  max_publish_rate = cfg.max_publish_rate;
}

needs_separator : Str → Bool
needs_separator [] = false
needs_separator (c ∷ []) = not (c == slash)
needs_separator (c ∷ d ∷ rest) = needs_separator (d ∷ rest)

-- `dir.join("session-queues")`
unfoldable pub queue_dir_of : NodeConfig → Option Str
unfolding needs_separator
queue_dir_of cfg =
    Option.map
      (λ dir.
        if needs_separator dir
        then dir ++ (slash ∷ codes "session-queues")
        else dir ++ codes "session-queues")
      cfg.data_dir

abbrev pub slow_grace_of : NodeConfig → Option ℕ
slow_grace_of cfg =
    if ltb 0 cfg.slow_consumer_grace_ms then some cfg.slow_consumer_grace_ms else none

module _ (codec : QosCodec) (declares : Str → Bool) (gov : Governor) (mc : MatchCache)
    (empty : mc.Cache) where
  -- `snapshot` is the file of retained messages, `listing` that of the directory of sessions; each is
  -- `none` if it is not there, or without a state directory.
  unfoldable pub start :
      NodeConfig → Disk → Option Bytes → Option (List (Option Str)) → Shared gov mc
  unfolding broker_of
  start cfg disk snapshot listing =
      let b = broker_of cfg in
      record {
        connect_admission =
            new_admission gov cfg.connect_admission_rate cfg.connect_admission_burst;
        registry =
            (rehydrate codec b.acl b.scope declares listing (
              new_registry cfg.max_queued_per_session (slow_grace_of cfg) (queue_dir_of cfg)
                disk)).1;
        retained = (restore mc empty snapshot).store;
      }

  held :
      (p : Str → Bool) (k : Str) (v : SubEntry) (d : Dict SubEntry)
      → Dict.get k d ≡ some v
      → All (λ (e : Str × SubEntry). p e.0 ≡ true) d
      → p k ≡ true
  unfolding Dict.get
  held p k v [] g h = cc
  held p k v ((j, w) ∷ d) g h = elim (Bool-cases (str_eq j k)) [
    | inl e ↦ ap p (sym ((str_eq_iff j k).0 e)) ∙ h.0
    | inr e ↦ held p k v d (ground (arith, g, e)) h.1
  ]

  -- A node whose policy is to deny starts with no session that reads more than its configuration
  -- grants: whatever topic a restored subscription matches, a subscribe filter that the
  -- configuration grants to the session's identity matches it too.
  pub start-Grant :
      (cfg : NodeConfig) (disk : Disk) (snapshot : Option Bytes)
      (listing : Option (List (Option Str))) (j f t : Str) (ref : ℕ) (e : SubEntry)
      → let r = (start cfg disk snapshot listing).registry in
        cfg.auth.default_policy ≡ deny
        → Dict.get j r.sessions ≡ some ref
        → Dict.get f (r.store ref).subs ≡ some e
        → topic_matches f t ≡ true
        → Grant cfg.acl
            (r.store ref).identity
            (λ x. x.subscribe)
            (λ pat. topic_matches pat t ≡ true)
  unfolding start new_acl
  start-Grant cfg disk snapshot listing j f t ref e d g s m =
      let b = broker_of cfg in
      let (identity, kept) =
        rehydrate-IsRestored codec b.acl b.scope declares listing cfg.max_queued_per_session
          (slow_grace_of cfg) (queue_dir_of cfg) disk j ref g in
      subst (λ i. Grant cfg.acl i (λ x. x.subscribe) (λ pat. topic_matches pat t ≡ true))
        (sym kept.owner)
        (may_subscribe_sound b.acl identity f t (ap is_allow d)
          (held (may_subscribe b.acl identity) f e
            ((start cfg disk snapshot listing).registry.store ref).subs s kept.allowed)
          m)
