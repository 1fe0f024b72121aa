-- ===== src/Registry/Detach.antt =====
-- How sessions leave the registry: the end of their connection, and the sweep of expired ones.
use entmoot.Common.{
  ℕ, ◌≡◌, ◌≢◌, refl, ap, ◌∙◌, Bool, false, not, ◌&&◌, Option, none, some, List, [], ◌∷◌, Str, arith,
  str_eq, str_eq_iff, ◌==◌, if◌then◌else◌, select,
}
use entmoot.Common.Dict
use entmoot.Common.Dict.{get-Fresh, Dict, get-remove, Fresh, DistinctKeys}
use entmoot.Session.{detach_conn, abort_subs, expired, discard_state_files}
use entmoot.Registry.{Registry, detach, sweep, discard_all}

-- The connection that ends was superseded: another has the session.
pub detach_superseded :
    (now ref epoch : ℕ) (clean : Bool) (r : Registry)
    → (r.store ref).epoch ≢ epoch
    → detach now ref epoch clean r ≡ r
unfolding detach detach_conn
detach_superseded now ref epoch clean r h = ground arith

-- Whether an entry of the registry is the session `ref` itself.
abbrev pub is_own : ℕ → Option ℕ → Bool
is_own ref none = false
is_own ref (some cur) = cur == ref

-- The end of a session's current connection removes an entry of the registry only if the client had
-- asked for a clean session and the entry is still that session; every other entry stays.
pub detach_current :
    (now ref : ℕ) (clean : Bool) (r : Registry) (j : Str)
    → let s = r.store ref in
      Dict.get j (detach now ref s.epoch clean r).sessions ≡ (
        if clean && (is_own ref (Dict.get s.client_id r.sessions) && str_eq s.client_id j)
        then none
        else Dict.get j r.sessions)
unfolding detach detach_conn abort_subs discard_state_files
detach_current now ref clean r j = ground (arith, get-remove (r.store ref).client_id j r.sessions)

pub discard_all-sessions :
    (gone : List (Str × ℕ)) (r : Registry) → (discard_all gone r).sessions ≡ r.sessions
unfolding discard_all abort_subs discard_state_files
discard_all-sessions [] r = refl
discard_all-sessions ((id, ref) ∷ gone) r = discard_all-sessions gone _

-- What a test on a session leaves of an entry.
abbrev pub unless : (ℕ → Bool) → Option ℕ → Option ℕ
unless gone none = none
unless gone (some ref) = if gone ref then none else some ref

pub get-select :
    (gone : ℕ → Bool) (j : Str) (d : Dict ℕ)
    → DistinctKeys d
    → Dict.get j (select (λ (e : Str × ℕ). not (gone e.1)) d) ≡ unless gone (Dict.get j d)
unfolding Dict.get
get-select gone j [] h = refl
get-select gone j ((k, ref) ∷ d) h =
    ground (arith, get-select gone j d h.1, get-Fresh k d h.0, str_eq_iff k j)

-- A sweep removes exactly the sessions that have been offline for longer than the expiry, from a
-- registry in which each client id stands once.
pub get-sweep :
    (now expiry : ℕ) (r : Registry) (j : Str)
    → DistinctKeys r.sessions
    → Dict.get j (sweep now expiry r).sessions
      ≡ unless (λ ref. expired now expiry (r.store ref)) (Dict.get j r.sessions)
unfolding sweep
get-sweep now expiry r j h =
    ap (Dict.get j) (
      discard_all-sessions (select (λ (e : Str × ℕ). expired now expiry (r.store e.1)) r.sessions)
        (record r {
          sessions = select (λ (e : Str × ℕ). not (expired now expiry (r.store e.1))) r.sessions;
        }))
    ∙ get-select (λ ref. expired now expiry (r.store ref)) j r.sessions h
