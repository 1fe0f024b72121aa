-- ===== src/Registry/Attach.antt =====
-- What a connecting client gets.
use entmoot.Common.{
  ℕ, ◌+◌, ◌≡◌, refl, sym, ap, ◌∙◌, Bool, true, false, not, ◌&&◌, ◌||◌, none, some, [], Str, arith,
  str_eq, if◌then◌else◌, subst, Option-cases, inl, inr,
}
use entmoot.Common.Dict
use entmoot.Common.Dict.{get-insert}
use entmoot.Mqtt.{QosCodec}
use entmoot.Persist.{queue_path, subs_path}
use entmoot.Session.{attach_conn, new, is_some, detach_conn}
use entmoot.Registry.{Registry, AttachOutcome, attach, connect, find_session, exists, detach}

module _ (codec : QosCodec) (client_id identity : Str) (sink kick : ℕ) where
  -- `session_present` is true exactly if the client asks for its old session and the registry has
  -- one, or a state file of the client is on the disk.
  pub attach-session_present :
      (clean : Bool) (r : Registry)
      → (attach codec client_id identity clean sink kick r).0.session_present ≡ (
          not clean
          && (is_some (Dict.get client_id r.sessions)
              || (exists (queue_path r.queue_dir client_id) r.host.disk
                  || exists (subs_path r.queue_dir client_id) r.host.disk)))
  unfolding attach find_session queue_path
  attach-session_present true r = elim (Option-cases (Dict.get client_id r.sessions)) [
    | inl e ↦ rw (e, find_session)
    | inr (ref, e) ↦ rw (e, find_session)
  ]
  attach-session_present false r = elim (Option-cases (Dict.get client_id r.sessions)) [
    | inl e ↦ rw (e, find_session)
    | inr (ref, e) ↦ rw (e, find_session)
  ]

  -- The session of an outcome as its connection finds it.
  abbrev pub IsOnline : AttachOutcome → Registry → Type 0
  IsOnline o r =
      ((r.store o.session).sink ≡ some sink)
      × ((r.store o.session).kick ≡ some kick)
      × ((r.store o.session).epoch ≡ o.epoch)
      × ((r.store o.session).identity ≡ identity)
      × ((r.store o.session).queue ≡ [])
      × ((r.store o.session).offline_since ≡ none)

  connect_lem :
      (found : (ℕ × Bool) × Registry) (j : Str)
      → let (o, r') = connect codec client_id identity sink kick found in
        (Dict.get j r'.sessions
          ≡ (if str_eq client_id j then some o.session else Dict.get j found.1.sessions))
        × IsOnline o r'
  unfolding connect attach_conn
  connect_lem ((ref, present), r) j = (
    get-insert client_id j ref r.sessions,
    (ground arith, ground arith, ground arith, ground arith, ground arith, ground arith),
  )

  pub find_session-sessions :
      (clean : Bool) (r : Registry) → (find_session client_id clean r).1.sessions ≡ r.sessions
  unfolding find_session
  find_session-sessions true r = elim (Option-cases (Dict.get client_id r.sessions)) [
    | inl e ↦ rw (e, find_session)
    | inr (ref, e) ↦ rw (e, find_session)
  ]
  find_session-sessions false r = elim (Option-cases (Dict.get client_id r.sessions)) [
    | inl e ↦ rw (e, find_session)
    | inr (ref, e) ↦ rw (e, find_session)
  ]

  -- After an attach, clean or not, the client's entry is the session of the outcome, no other entry
  -- has changed, and that session is online on the new channel, with the outcome's epoch, the
  -- client's identity and an empty queue.
  pub attach_lem :
      (clean : Bool) (r : Registry) (j : Str)
      → let (o, r') = attach codec client_id identity clean sink kick r in
        (Dict.get j r'.sessions
          ≡ (if str_eq client_id j then some o.session else Dict.get j r.sessions))
        × IsOnline o r'
  unfolding attach
  attach_lem clean r j =
      let p = connect_lem (find_session client_id clean r) j in
      (
        subst
            (λ d. Dict.get j (attach codec client_id identity clean sink kick r).1.sessions ≡ (
              if str_eq client_id j
              then some (attach codec client_id identity clean sink kick r).0.session
              else Dict.get j d))
            (find_session-sessions clean r) p.0,
        p.1,
      )

  -- A clean attach starts from nothing: a session that was never in the store, with no
  -- subscriptions, no backlog and no state files, whatever the registry holds for the client.
  pub attach_clean :
      (r : Registry)
      → let (o, r') = attach codec client_id identity true sink kick r in
        (o.session ≡ r.next_ref)
        × (o.session_present ≡ false)
        × (o.backlog ≡ [])
        × ((r'.store o.session).subs ≡ [])
        × ((r'.store o.session).queue_path ≡ none)
        × ((r'.store o.session).subs_path ≡ none)
  unfolding attach connect attach_conn find_session new
  attach_clean r = elim (Option-cases (Dict.get client_id r.sessions)) [
    | inl e ↦
        rw (e, find_session) (refl, refl, ground arith, ground arith, ground arith, ground arith)
    | inr (ref, e) ↦
        rw (e, find_session) (refl, refl, ground arith, ground arith, ground arith, ground arith)
  ]

  -- An attach that resumes a session hands its queue over as the backlog and keeps its
  -- subscriptions, whichever identity the client has authenticated as.
  pub attach_resume :
      (r : Registry) (ref : ℕ)
      → Dict.get client_id r.sessions ≡ some ref
      → let (o, r') = attach codec client_id identity false sink kick r in
        (o.session ≡ ref)
        × (o.backlog ≡ (r.store ref).queue)
        × (o.epoch ≡ (r.store ref).epoch + 1)
        × ((r'.store o.session).subs ≡ (r.store ref).subs)
  unfolding attach connect attach_conn find_session
  attach_resume r ref e = rw (e, find_session) (refl, refl, refl, ground arith)

  -- A session outlives its connection: if that ends and was not clean, the client's next attach without
  -- the clean flag finds the same session, on the new channel under the next epoch and the identity
  -- it has now, is told so, gets what was queued as the backlog and keeps the subscriptions. Before,
  -- the client's entry was that session, and nothing comes between.
  pub attach-detach :
      (now ref : ℕ) (r : Registry)
      → Dict.get client_id r.sessions ≡ some ref
      → let (o, r') =
          attach codec client_id identity false sink kick
            (detach now ref (r.store ref).epoch false r) in
        (o.session ≡ ref)
        × (o.session_present ≡ true)
        × (o.epoch ≡ (r.store ref).epoch + 1)
        × (o.backlog ≡ (r.store ref).queue)
        × ((r'.store ref).subs ≡ (r.store ref).subs)
        × IsOnline o r'
  unfolding detach detach_conn
  attach-detach now ref r e =
      let s = r.store ref in
      let d = detach now ref s.epoch false r in
      let same : d.sessions ≡ r.sessions = ground arith in
      let online = (attach_lem false d client_id).1 in
      let (o, b, p, subs) = attach_resume d ref (ap (Dict.get client_id) same ∙ e) in
      let present = attach-session_present false d in
      (
        o,
        present ∙ rw (same, e) refl,
        p ∙ ground arith,
        b ∙ ground arith,
        ap (λ j. ((attach codec client_id identity false sink kick d).1.store j).subs) (sym o)
            ∙ subs
            ∙ ground arith,
        online,
      )
