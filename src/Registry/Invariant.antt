-- ===== src/Registry/Invariant.antt =====
-- What every operation keeps of the registry: whose session stands under a client id.
use entmoot.Common.{
  ℕ, ◌≤◌, ◌<◌, ◌≡◌, refl, sym, ap, ◌∙◌, subst, Bool, true, false, not, Option, none, some, List, [],
  ◌∷◌, Str, str_eq, str_eq_iff, select, Bool-cases, Option-cases, inl, inr, arith,
}
use entmoot.Common.Dict
use entmoot.Common.Dict.{
  Dict, DistinctKeys, get-insert, get-remove, insert-DistinctKeys, remove-DistinctKeys,
}
use entmoot.Mqtt.{QosCodec}
use entmoot.Session.{
  SessionState, Host, new, attach_conn, detach_conn, kick_current, abort_subs, expired,
}
use entmoot.Registry.{
  Registry, assign, alloc, dismiss, remove_files, find_session, connect, attach, detach,
  discard_all, sweep,
}
use entmoot.Registry.Attach.{find_session-sessions}
use entmoot.Registry.Detach.{get-select, discard_all-sessions, unless}

-- The sessions of a store, by name: those below a bound keep theirs.
abbrev pub KeepsNames : ℕ → (ℕ → SessionState) → (ℕ → SessionState) → Type 0
KeepsNames bound store store' = (k : ℕ) → k < bound → (store' k).client_id ≡ (store k).client_id

-- Each client id stands once, for a session that was made, and that is the client's own.
pub record IsSound (r : Registry) : Type 0 where
  pub distinct : DistinctKeys r.sessions
  pub own :
      (j : Str) (ref : ℕ)
      → Dict.get j r.sessions ≡ some ref
      → (ref < r.next_ref) × ((r.store ref).client_id ≡ j)

pub assign-names :
    (ref : ℕ) (s : SessionState) (store : ℕ → SessionState) (k : ℕ)
    → s.client_id ≡ (store ref).client_id
    → (assign ref s store k).client_id ≡ (store k).client_id
assign-names ref s store k e = ground (arith, e)

abort_subs-name : (s : SessionState) (h : Host) → (abort_subs s h).0.client_id ≡ s.client_id
unfolding abort_subs
abort_subs-name s h = refl

kick_current-name : (s : SessionState) (h : Host) → (kick_current s h).0.client_id ≡ s.client_id
unfolding kick_current
kick_current-name s h = ground arith

dismiss-names :
    (ref : ℕ) (r : Registry) (k : ℕ) → ((dismiss ref r).store k).client_id ≡ (r.store k).client_id
unfolding dismiss
dismiss-names ref r k =
    let (s, h) = kick_current (r.store ref) r.host in
    assign-names ref (abort_subs s h).0 r.store k
      (abort_subs-name s h ∙ kick_current-name (r.store ref) r.host)

dismiss-next_ref : (ref : ℕ) (r : Registry) → (dismiss ref r).next_ref ≡ r.next_ref
unfolding dismiss
dismiss-next_ref ref r = refl

-- What `find_session` leaves.
record IsFound (client_id : Str) (r : Registry) (found : (ℕ × Bool) × Registry) : Type 0 where
  made : found.0.0 < found.1.next_ref
  more : r.next_ref ≤ found.1.next_ref
  named : (found.1.store found.0.0).client_id ≡ client_id
  kept : KeepsNames r.next_ref r.store found.1.store

alloc-IsFound :
    (client_id : Str) (qp sp : Option Str) (present : Bool) (r r' : Registry)
    → r'.next_ref ≡ r.next_ref
    → KeepsNames r.next_ref r.store r'.store
    → let (ref, r'') = alloc client_id qp sp r' in IsFound client_id r ((ref, present), r'')
unfolding alloc new
alloc-IsFound client_id qp sp present r r' n k = record {
  made = omega arith;
  more = omega (arith, n);
  named = ground arith;
  kept = λ j l. ground (arith, k j l, n);
}

find_session-IsFound :
    (client_id : Str) (clean : Bool) (r : Registry)
    → IsSound r
    → IsFound client_id r (find_session client_id clean r)
unfolding find_session remove_files
find_session-IsFound client_id true r v = elim (Option-cases (Dict.get client_id r.sessions)) [
  | inl e ↦
      rw (e, find_session)
        (alloc-IsFound client_id none none false r (remove_files client_id r) refl (λ k l. refl))
  | inr (ref, e) ↦
      rw (e, find_session)
        (alloc-IsFound client_id none none false r (remove_files client_id (dismiss ref r))
          (dismiss-next_ref ref r) (λ k l. dismiss-names ref r k))
]
find_session-IsFound client_id false r v = elim (Option-cases (Dict.get client_id r.sessions)) [
  | inl e ↦ rw (e, find_session) (alloc-IsFound client_id _ _ _ r r refl (λ k l. refl))
  | inr (ref, e) ↦
      rw (e, find_session)
        (record {
          made = (v.own client_id ref e).0;
          more = omega arith;
          named = (v.own client_id ref e).1;
          kept = λ k l. refl;
        })
]

-- A session under a client id, beside those of a registry.
pub entered-IsSound :
    (client_id : Str) (ref : ℕ) (r r' : Registry)
    → r'.sessions ≡ Dict.insert client_id ref r.sessions
    → ref < r'.next_ref
    → r.next_ref ≤ r'.next_ref
    → (r'.store ref).client_id ≡ client_id
    → KeepsNames r.next_ref r.store r'.store
    → IsSound r
    → IsSound r'
entered-IsSound client_id ref r r' s made more named kept v = record {
  distinct = subst DistinctKeys (sym s) (insert-DistinctKeys client_id ref r.sessions v.distinct);
  own = λ j k g.
      let found = sym (get-insert client_id j ref r.sessions) ∙ ap (Dict.get j) (sym s) ∙ g in
      elim (Bool-cases (str_eq client_id j)) [
        | inl e ↦
            let same : ref ≡ k = ground (arith, found) in
            (
              omega (arith, same, made),
              ap (λ i. (r'.store i).client_id) (sym same) ∙ named ∙ (str_eq_iff client_id j).0 e,
            )
        | inr e ↦
            let (lt, name) = v.own j k (ground (arith, found)) in
            (omega (arith, lt, more), kept k lt ∙ name)
      ];
}

module _ (codec : QosCodec) where
  attach_conn-name :
      (identity : Str) (sink kick : ℕ) (s : SessionState) (h : Host)
      → (attach_conn codec identity sink kick s h).1.client_id ≡ s.client_id
  unfolding attach_conn
  attach_conn-name identity sink kick s h = refl

  pub attach-IsSound :
      (client_id identity : Str) (clean : Bool) (sink kick : ℕ) (r : Registry)
      → IsSound r
      → IsSound (attach codec client_id identity clean sink kick r).1
  unfolding attach connect
  attach-IsSound client_id identity clean sink kick r v =
      let found = find_session client_id clean r in
      let ref = found.0.0 in
      let f = find_session-IsFound client_id clean r v in
      let s = (attach_conn codec identity sink kick (found.1.store ref) found.1.host).1 in
      let name = attach_conn-name identity sink kick (found.1.store ref) found.1.host in
      entered-IsSound client_id ref r (attach codec client_id identity clean sink kick r).1
        (ap (Dict.insert client_id ref)
          (find_session-sessions codec client_id identity sink kick clean r))
        f.made f.more (assign-names ref s found.1.store ref name ∙ f.named)
        (λ k l. assign-names ref s found.1.store k name ∙ f.kept k l) v

-- Fewer entries, and sessions with the same names.
pub fewer-IsSound :
    (r r' : Registry)
    → DistinctKeys r'.sessions
    → r'.next_ref ≡ r.next_ref
    → ((j : Str) (ref : ℕ) → Dict.get j r'.sessions ≡ some ref → Dict.get j r.sessions ≡ some ref)
    → ((k : ℕ) → (r'.store k).client_id ≡ (r.store k).client_id)
    → IsSound r
    → IsSound r'
fewer-IsSound r r' d n sub names v = record {
  distinct = d;
  own = λ j ref g.
      let (lt, name) = v.own j ref (sub j ref g) in (omega (arith, lt, n), names ref ∙ name);
}

pub detach-IsSound :
    (now ref epoch : ℕ) (clean : Bool) (r : Registry)
    → IsSound r
    → IsSound (detach now ref epoch clean r)
unfolding detach detach_conn abort_subs
detach-IsSound now ref epoch clean r v =
    let id = (r.store ref).client_id in
    fewer-IsSound r (detach now ref epoch clean r)
      (ground (arith, remove-DistinctKeys id r.sessions v.distinct, v.distinct)) (ground arith)
      (λ j k g. ground (arith, g, get-remove id j r.sessions)) (λ k. ground arith) v

discard_all-names :
    (gone : List (Str × ℕ)) (r : Registry) (k : ℕ)
    → ((discard_all gone r).store k).client_id ≡ (r.store k).client_id
unfolding discard_all
discard_all-names [] r k = refl
discard_all-names ((id, ref) ∷ gone) r k =
    let (s, h) = abort_subs (r.store ref) r.host in
    discard_all-names gone _ k ∙ assign-names ref s r.store k (abort_subs-name (r.store ref) r.host)

discard_all-next_ref :
    (gone : List (Str × ℕ)) (r : Registry) → (discard_all gone r).next_ref ≡ r.next_ref
unfolding discard_all
discard_all-next_ref [] r = refl
discard_all-next_ref ((id, ref) ∷ gone) r = discard_all-next_ref gone _

select-Fresh :
    (p : Str × ℕ → Bool) (k : Str) (d : Dict ℕ) → Dict.Fresh k d → Dict.Fresh k (select p d)
select-Fresh p k [] h = tt
select-Fresh p k (e ∷ d) h = elim (Bool-cases (p e)) [
  | inl t ↦ rw t (h.0, select-Fresh p k d h.1)
  | inr t ↦ rw t (select-Fresh p k d h.1)
]

select-DistinctKeys : (p : Str × ℕ → Bool) (d : Dict ℕ) → DistinctKeys d → DistinctKeys (select p d)
select-DistinctKeys p [] h = tt
select-DistinctKeys p ((k, ref) ∷ d) h = elim (Bool-cases (p (k, ref))) [
  | inl t ↦ rw t (select-Fresh p k d h.0, select-DistinctKeys p d h.1)
  | inr t ↦ rw t (select-DistinctKeys p d h.1)
]

unless-eq-some :
    (gone : ℕ → Bool) (o : Option ℕ) (ref : ℕ) → unless gone o ≡ some ref → o ≡ some ref
unless-eq-some gone none ref h = cc
unless-eq-some gone (some k) ref h = ground arith

pub sweep-IsSound : (now expiry : ℕ) (r : Registry) → IsSound r → IsSound (sweep now expiry r)
unfolding sweep
sweep-IsSound now expiry r v =
    let gone = λ (e : Str × ℕ). expired now expiry (r.store e.1) in
    let left = select (λ (e : Str × ℕ). not (gone e)) r.sessions in
    let swept = record r { sessions = left } in
    let lost = select gone r.sessions in
    let s = discard_all-sessions lost swept in
    fewer-IsSound r (sweep now expiry r)
      (subst DistinctKeys (sym s)
        (select-DistinctKeys (λ (e : Str × ℕ). not (gone e)) r.sessions v.distinct))
      (discard_all-next_ref lost swept)
      (λ j ref g.
        unless-eq-some (λ k. expired now expiry (r.store k)) (Dict.get j r.sessions) ref
          (sym (get-select (λ k. expired now expiry (r.store k)) j r.sessions v.distinct)
            ∙ ap (Dict.get j) (sym s)
            ∙ g))
      (λ k. discard_all-names lost swept k) v
