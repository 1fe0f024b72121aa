-- ===== src/Registry/Interleaving.antt =====
-- The registry under all its operations, in any order.
use entmoot.Common.{
  ℕ, ◌≡◌, refl, sym, ap, ◌∙◌, subst, Bool, Option, some, Str, Result-cases, inl, inr, arith,
}
use entmoot.Common.Dict
use entmoot.Common.Dict.{
  Dict, DistinctKeys, get-insert, get-remove, insert-DistinctKeys, remove-DistinctKeys,
}
use entmoot.Mqtt.{QosCodec}
use entmoot.Auth.{Acl}
use entmoot.Persist.{Disk, load_subs}
use entmoot.Session.{SessionState, Host}
use entmoot.Registry.{Registry, new_registry, assign, attach, detach, sweep}
use entmoot.Registry.Rehydration.{rehydrate_one, rehydrate_one-client_id}
use entmoot.Registry.Startup.{rehydrate_one-shape, rehydrate_one-err}
use entmoot.Registry.Invariant.{
  IsSound, assign-names, entered-IsSound, fewer-IsSound, attach-IsSound, detach-IsSound,
  sweep-IsSound,
}

module _ (codec : QosCodec) (acl : Acl) (scope : Str) (declares : Str → Bool) where
  rehydrate_one-IsSound :
      (path : Str) (r : Registry)
      → IsSound r
      → IsSound (rehydrate_one codec acl scope declares path r).1
  rehydrate_one-IsSound path r v = elim (Result-cases (load_subs codec r.host.disk path)) [
    | inr (x, e) ↦ subst IsSound (sym (rehydrate_one-err codec acl scope declares path r x e)) v
    | inl ((client_id, identity, filters), e) ↦
        let (s, n, same) =
          rehydrate_one-shape codec acl scope declares path client_id identity filters r e in
        entered-IsSound client_id r.next_ref r (rehydrate_one codec acl scope declares path r).1 s
          (omega (arith, n)) (omega (arith, n))
          (rehydrate_one-client_id codec acl scope declares path client_id identity filters r e)
          (λ k l. ap (λ (x : SessionState). x.client_id) (same k l)) v
  ]

  -- One operation on the registry, or a change of a session by one who holds it.
  pub data Step : Registry → Registry → Type 0 where
    attaches :
        (client_id identity : Str) (clean : Bool) (sink kick : ℕ) (r : Registry)
        → Step r (attach codec client_id identity clean sink kick r).1
    detaches :
        (now ref epoch : ℕ) (clean : Bool) (r : Registry) → Step r (detach now ref epoch clean r)
    sweeps : (now expiry : ℕ) (r : Registry) → Step r (sweep now expiry r)
    restores :
        (path : Str) (r : Registry) → Step r (rehydrate_one codec acl scope declares path r).1
    changes :
        (ref : ℕ) (s : SessionState) (h : Host) (task : ℕ) (r : Registry)
        → s.client_id ≡ (r.store ref).client_id
        → Step r (record r { store = assign ref s r.store; host = h; next_task = task })

  pub data Reach : Registry → Type 0 where
    here :
        (max_queue : ℕ) (slow_grace : Option ℕ) (queue_dir : Option Str) (disk : Disk)
        → Reach (new_registry max_queue slow_grace queue_dir disk)
    next : {r r' : Registry} → Reach r → Step r r' → Reach r'

  Reach-IsSound : (r : Registry) → Reach r → IsSound r
  unfolding new_registry Dict.get
  Reach-IsSound _ (here max_queue slow_grace queue_dir disk) = record {
    distinct = tt;
    own = λ j ref g. cc;
  }
  Reach-IsSound _ (next p (attaches client_id identity clean sink kick r)) =
      attach-IsSound codec client_id identity clean sink kick r (Reach-IsSound r p)
  Reach-IsSound _ (next p (detaches now ref epoch clean r)) =
      detach-IsSound now ref epoch clean r (Reach-IsSound r p)
  Reach-IsSound _ (next p (sweeps now expiry r)) = sweep-IsSound now expiry r (Reach-IsSound r p)
  Reach-IsSound _ (next p (restores path r)) = rehydrate_one-IsSound path r (Reach-IsSound r p)
  Reach-IsSound _ (next p (changes ref s h task r e)) =
      let v = Reach-IsSound r p in
      fewer-IsSound r (record r { store = assign ref s r.store; host = h; next_task = task })
        v.distinct refl (λ j k g. g) (λ k. assign-names ref s r.store k e) v

  -- In whatever order connections attach and end, sweeps run and files are restored: each client id
  -- stands once in the registry, a session that stands under a client id was made under that id,
  -- and so two client ids that have one session are the same.
  pub Reach-unshared :
      (r : Registry) (i j : Str) (ref : ℕ)
      → Reach r
      → Dict.get i r.sessions ≡ some ref
      → Dict.get j r.sessions ≡ some ref
      → DistinctKeys r.sessions × ((r.store ref).client_id ≡ i) × (i ≡ j)
  Reach-unshared r i j ref p g h =
      let v = Reach-IsSound r p in
      let mine = (v.own i ref g).1 in (v.distinct, mine, sym mine ∙ (v.own j ref h).1)
