-- ===== src/Retained/Replication.antt =====
-- Replication over the bus: what one node publishes as retained, or serves to a late joiner, the
-- other nodes store.
use entmoot.Common.{
  ◌*◌, ◌/◌, ◌^◌, ◌<◌, ◌≡◌, refl, ◌∙◌, Option, none, some, [], ◌∷◌, Bytes, Str, arith, All, or_else,
  str_eq, if◌then◌else◌, str_eq_iff, map,
}
use entmoot.Common.Dict
use entmoot.Common.Dict.{get-Fresh, DistinctKeys, Fresh, get-insert, get-remove}
use entmoot.Topic.{retained_keyexpr}
use entmoot.Topic.Keyspaces.{retained_keyexpr_roundtrip}
use entmoot.Retained.{
  MatchCache, SystemTime, RetainedStore, Entries, insert, remove, apply_sample, encode_envelope,
  replies, catch_up, snapshot,
}
use entmoot.Retained.Envelope.{decode_envelope-encode_envelope}

-- A time to the millisecond, as it travels.
abbrev pub whole : SystemTime → SystemTime
whole t = t / 1000000 * 1000000

abbrev pub Fits : SystemTime → Type 0
Fits t = t / 1000000 < 2 ^ 64

module _ (mc : MatchCache) where
  -- A retained put on the bus stores its payload, with its write time to the millisecond, under its
  -- topic and under no other; a retained delete clears its topic and no other. The write time is one
  -- whose milliseconds fit in 64 bits.
  pub apply_sample_lem :
      (scope t j : Str) (p : Bytes) (w : SystemTime) (s : RetainedStore mc)
      → Fits w
      → (Dict.get j
            (apply_sample mc scope
              (retained_keyexpr t scope)
              (some (encode_envelope p w))
              s).entries
          ≡ (if str_eq t j then some (p, whole w) else Dict.get j s.entries))
        × (Dict.get j (apply_sample mc scope (retained_keyexpr t scope) none s).entries
            ≡ (if str_eq t j then none else Dict.get j s.entries))
  unfolding apply_sample insert remove
  apply_sample_lem scope t j p w s h = (
    ground (
      arith,
      retained_keyexpr_roundtrip t scope,
      decode_envelope-encode_envelope p w,
      get-insert t j (p, whole w) s.entries,
    ),
    ground (arith, retained_keyexpr_roundtrip t scope, get-remove t j s.entries),
  )

  abbrev pub whole_value : Option (Bytes × SystemTime) → Option (Bytes × SystemTime)
  whole_value none = none
  whole_value (some (p, w)) = some (p, whole w)

  catch_up-entries :
      (scope j : Str) (d : Entries) (s : RetainedStore mc)
      → All (λ e. Fits e.1.1) d
      → DistinctKeys d
      → Dict.get j
          (catch_up mc scope
            (map (λ e. (retained_keyexpr e.0 scope, encode_envelope e.1 e.2)) (snapshot d))
            s).entries
        ≡ or_else (whole_value (Dict.get j d)) (Dict.get j s.entries)
  unfolding catch_up snapshot Dict.get
  catch_up-entries scope j [] s f k = refl
  catch_up-entries scope j ((t, (p, w)) ∷ d) s f k =
      let s' = apply_sample mc scope (retained_keyexpr t scope) (some (encode_envelope p w)) s in
      catch_up-entries scope j d s' f.1 k.1
      ∙ ground (arith, apply_sample_lem scope t j p w s f.0, get-Fresh j d, str_eq_iff t j)

  -- A node that catches up from a peer has, for every topic that the peer retains, the peer's value
  -- with its write time to the millisecond, whatever it had before; other topics keep theirs. The
  -- peer holds each topic once, with write times whose milliseconds fit in 64 bits.
  pub catch_up-replies :
      (scope j : Str) (peer s : RetainedStore mc)
      → All (λ e. Fits e.1.1) peer.entries
      → DistinctKeys peer.entries
      → Dict.get j (catch_up mc scope (replies mc scope peer) s).entries
        ≡ or_else (whole_value (Dict.get j peer.entries)) (Dict.get j s.entries)
  unfolding replies
  catch_up-replies scope j peer s f k = catch_up-entries scope j peer.entries s f k
