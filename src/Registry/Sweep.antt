-- ===== src/Registry/Sweep.antt =====
-- What a sweep takes: which sessions, and their state files.
use entmoot.Common.{
  ℕ, ◌+◌, ◌<◌, ◌≡◌, refl, ap, ◌∙◌, subst, ◌==◌, not, Bool, true, Option, none, some, List, [], ◌∷◌,
  Str, arith, str_eq, str_eq_iff, select, All, Bool-cases, Option-cases, inl, inr, ◌⊎◌,
}
use entmoot.Common.Dict
use entmoot.Common.Dict.{Dict, get-remove, DistinctKeys}
use entmoot.Persist.{remove_state_file}
use entmoot.Session.{SessionState, Host, abort_subs, expired, discard, discard_state_files}
use entmoot.Registry.{Registry, sweep, discard_all, assign}
use entmoot.Registry.Detach.{get-sweep, unless}

-- A session that went offline at `since`, longer ago than the expiry.
pub record IsOverdue (now expiry : ℕ) (s : SessionState) : Type 0 where
  pub since : ℕ
  pub went : s.offline_since ≡ some since
  pub overdue : since + expiry < now

expired-IsOverdue :
    (now expiry : ℕ) (s : SessionState) → expired now expiry s ≡ true → IsOverdue now expiry s
unfolding expired
expired-IsOverdue now expiry s h = elim (Option-cases s.offline_since) [
  | inl e ↦ let q = rw e at h in cc q
  | inr (t, e) ↦ record { since = t; went = e; overdue = ground (arith, e) }
]

IsOverdue-expired :
    (now expiry : ℕ) (s : SessionState) → IsOverdue now expiry s → expired now expiry s ≡ true
unfolding expired
IsOverdue-expired now expiry s h = let w = h.went in let o = h.overdue in ground arith

-- No file stands at a path of the host's disk, which takes writes.
pub record IsRemoved (path : Str) (h : Host) : Type 0 where
  pub absent : Dict.get path h.disk.files ≡ none
  pub writable : h.disk.writable ≡ true

discard-IsRemoved :
    (path : Str) (q : Option Str) (h : Host) → IsRemoved path h → IsRemoved path (discard q h)
unfolding discard remove_state_file
discard-IsRemoved path none h r = r
discard-IsRemoved path (some p) h r =
    let w = r.writable in
    let a = r.absent in
    record { absent = ground (arith, get-remove p path h.disk.files); writable = ground arith }

discard-removes :
    (path : Str) (h : Host) → h.disk.writable ≡ true → IsRemoved path (discard (some path) h)
unfolding discard remove_state_file
discard-removes path h w = record {
  absent = ground (arith, get-remove path path h.disk.files, str_eq_iff path path);
  writable = ground arith;
}

discard-writable :
    (q : Option Str) (h : Host) → h.disk.writable ≡ true → (discard q h).disk.writable ≡ true
unfolding discard remove_state_file
discard-writable none h w = w
discard-writable (some p) h w = ground arith

-- Whether a path is one of a session's state files.
abbrev pub IsStateFile : Str → SessionState → Type 0
IsStateFile path s = (s.queue_path ≡ some path) ⊎ (s.subs_path ≡ some path)

discard_state_files-IsRemoved :
    (path : Str) (s : SessionState) (h : Host)
    → IsRemoved path h
    → IsRemoved path (discard_state_files s h)
unfolding discard_state_files
discard_state_files-IsRemoved path s h r =
    discard-IsRemoved path s.subs_path _ (discard-IsRemoved path s.queue_path h r)

discard_state_files-removes :
    (path : Str) (s : SessionState) (h : Host)
    → h.disk.writable ≡ true
    → IsStateFile path s
    → IsRemoved path (discard_state_files s h)
unfolding discard_state_files
discard_state_files-removes path s h w (inl e) =
    rw e (discard-IsRemoved path s.subs_path _ (discard-removes path h w))
discard_state_files-removes path s h w (inr e) =
    rw e (discard-removes path _ (discard-writable s.queue_path h w))

discard_state_files-writable :
    (s : SessionState) (h : Host)
    → h.disk.writable ≡ true
    → (discard_state_files s h).disk.writable ≡ true
unfolding discard_state_files
discard_state_files-writable s h w =
    discard-writable s.subs_path _ (discard-writable s.queue_path h w)

discard_all-IsRemoved :
    (path : Str) (gone : List (Str × ℕ)) (r : Registry)
    → IsRemoved path r.host
    → IsRemoved path (discard_all gone r).host
unfolding discard_all abort_subs
discard_all-IsRemoved path [] r h = h
discard_all-IsRemoved path ((id, ref) ∷ gone) r h =
    discard_all-IsRemoved path gone _
      (discard_state_files-IsRemoved path _ _ (record { absent = h.absent; writable = h.writable }))

All-map :
    {P Q : Str × ℕ → Type 0} (xs : List (Str × ℕ))
    → ((e : Str × ℕ) → P e → Q e)
    → All P xs
    → All Q xs
All-map [] f h = tt
All-map (x ∷ xs) f h = (f x h.0, All-map xs f h.1)

-- All that is gone has no state file left.
IsCleared : Registry → Host → Str × ℕ → Type 0
IsCleared r h e = (path : Str) → IsStateFile path (r.store e.1) → IsRemoved path h

discard_all-IsCleared :
    (gone : List (Str × ℕ)) (r : Registry)
    → r.host.disk.writable ≡ true
    → All (IsCleared r (discard_all gone r).host) gone
unfolding discard_all abort_subs IsCleared
discard_all-IsCleared [] r w = tt
discard_all-IsCleared ((id, ref) ∷ gone) r w =
    (here, All-map gone (λ e c path f. c path (same e.1 path f)) (discard_all-IsCleared gone r' w'))
  where
    r' : Registry
    r' =
        let (s, h) = abort_subs (r.store ref) r.host in
        record r { store = assign ref s r.store; host = discard_state_files s h }

    w' : r'.host.disk.writable ≡ true
    w' = discard_state_files-writable _ _ w

    same : (j : ℕ) (path : Str) → IsStateFile path (r.store j) → IsStateFile path (r'.store j)
    same j path f = elim (Bool-cases (j == ref)) [
      | inl e ↦
          let at_ref : j ≡ ref = ground (arith, e) in
          rw (e, assign) (subst (λ i. IsStateFile path (r.store i)) at_ref f)
      | inr e ↦ rw (e, assign) f
    ]

    here : IsCleared r (discard_all ((id, ref) ∷ gone) r).host (id, ref)
    here path f = discard_all-IsRemoved path gone _ (discard_state_files-removes path _ _ w f)

-- Among what a test on sessions selects are those that it holds of.
All-selected :
    (P : ℕ → Type 0) (gone : ℕ → Bool) (j : Str) (ref : ℕ) (d : Dict ℕ)
    → All (λ (e : Str × ℕ). P e.1) (select (λ (e : Str × ℕ). gone e.1) d)
    → Dict.get j d ≡ some ref
    → gone ref ≡ true
    → P ref
unfolding Dict.get
All-selected P gone j ref [] h g t = cc
All-selected P gone j ref ((k, i) ∷ d) h g t = elim (Bool-cases (str_eq k j)) [
  | inl e ↦
      let own : i ≡ ref = ground (arith, g) in
      let here : gone i ≡ true = ground (arith, t, own) in subst P own ((rw here at h).0)
  | inr e ↦ elim (Bool-cases (gone i)) [
    | inl y ↦ All-selected P gone j ref d ((rw y at h).1) (rw e at g) t
    | inr n ↦ All-selected P gone j ref d (rw n at h) (rw e at g) t
  ]
]

sweep-clears :
    (now expiry : ℕ) (r : Registry) (j : Str) (ref : ℕ)
    → r.host.disk.writable ≡ true
    → Dict.get j r.sessions ≡ some ref
    → expired now expiry (r.store ref) ≡ true
    → (path : Str) → IsStateFile path (r.store ref)
    → IsRemoved path (sweep now expiry r).host
unfolding sweep IsCleared
sweep-clears now expiry r j ref w g x =
    let gone = λ (i : ℕ). expired now expiry (r.store i) in
    let kept = select (λ (e : Str × ℕ). not (gone e.1)) r.sessions in
    All-selected
      (λ i. (path : Str) → IsStateFile path (r.store i) → IsRemoved path (sweep now expiry r).host)
      gone j ref r.sessions
      (discard_all-IsCleared (select (λ (e : Str × ℕ). gone e.1) r.sessions)
        (record r { sessions = kept }) w)
      g x

-- A sweep of a registry in which each client id stands once, on a disk that takes writes, removes a
-- session exactly if it went offline longer ago than the expiry, and then neither of its state files
-- is left on the disk. Every other session, also one that is offline for as long as the
-- expiry or without an offline time, stays in its entry.
pub sweep_lem :
    (now expiry : ℕ) (r : Registry) (j : Str) (ref : ℕ)
    → DistinctKeys r.sessions
    → r.host.disk.writable ≡ true
    → Dict.get j r.sessions ≡ some ref
    → let r' = sweep now expiry r in
      (IsOverdue now expiry (r.store ref)
        → (Dict.get j r'.sessions ≡ none)
          × ((path : Str)
              → IsStateFile path (r.store ref)
              → Dict.get path r'.host.disk.files ≡ none))
      × (¬ IsOverdue now expiry (r.store ref) → Dict.get j r'.sessions ≡ some ref)
sweep_lem now expiry r j ref d w g = (taken, stays)
  where
    entry :
        Dict.get j (sweep now expiry r).sessions
        ≡ unless (λ i. expired now expiry (r.store i)) (some ref)
    entry = get-sweep now expiry r j d ∙ ap (unless (λ i. expired now expiry (r.store i))) g

    taken :
        IsOverdue now expiry (r.store ref)
        → (Dict.get j (sweep now expiry r).sessions ≡ none)
          × ((path : Str)
              → IsStateFile path (r.store ref)
              → Dict.get path (sweep now expiry r).host.disk.files ≡ none)
    taken o =
        let x = IsOverdue-expired now expiry (r.store ref) o in
        (entry ∙ rw x refl, λ path f. (sweep-clears now expiry r j ref w g x path f).absent)

    stays :
        ¬ IsOverdue now expiry (r.store ref) → Dict.get j (sweep now expiry r).sessions ≡ some ref
    stays n = elim (Bool-cases (expired now expiry (r.store ref))) [
      | inl x ↦ absurd (n (expired-IsOverdue now expiry (r.store ref) x))
      | inr x ↦ entry ∙ rw x refl
    ]
