-- ===== src/Node/Tasks/Handle.antt =====
-- What the handle of a node holds, and what a start that fails leaves behind.
use entmoot.Common.{
  ℕ, zero, suc, ◌≡◌, refl, sym, ap, ◌∙◌, subst, ◌≢◌, append-nil, append_assoc, All-append, ◌⊎◌, inl,
  inr, Bool, true, false, List, [], ◌∷◌, ◌++◌, Result, ok, err, Str, All, Bool-cases, if◌then◌else◌,
  arith, ltb,
}
use entmoot.Config.{NodeConfig}
use entmoot.Node.Mesh.{ZenohConfig}
use entmoot.Node.Tasks.{
  Task, save_snapshots, replicate, answer_queries, fetch, forwarding, forwards, rehydrated,
  StartError, retained_subscriber, retained_queryable, World, Spawned, spawn, spawn_if, is_some,
  is_no, serve_metrics, serve_health, publish_sys, sweep_sessions, accept_mqtt, accept_tls, wire,
  prepare, spawn_own, run, wired, prepared, Task-discrete, abort, shutdown,
}

-- Whether a task is that of a restored subscription.
abbrev is_forward : Task → Bool
is_forward (forwarding n) = true
is_forward save_snapshots = false
is_forward replicate = false
is_forward answer_queries = false
is_forward fetch = false
is_forward serve_metrics = false
is_forward serve_health = false
is_forward publish_sys = false
is_forward sweep_sessions = false
is_forward accept_mqtt = false
is_forward accept_tls = false

abbrev Among : List Task → Task → Type 0
Among [] u = ⊥
Among (t ∷ ts) u = (u ≡ t) ⊎ Among ts u

-- What runs beside the tasks of the restored subscriptions has a handle; these have none.
record IsHeld (others : List Task) (s : Spawned) : Type 0 where
  pub before : List Task
  pub behind : List Task
  pub own : All (λ t. is_forward t ≡ false) s.handles
  pub held : s.handles ≡ before ++ behind
  pub runs : s.running ≡ (before ++ others) ++ behind

spawn-IsHeld :
    (others : List Task) (t : Task) (s : Spawned)
    → is_forward t ≡ false
    → IsHeld others s
    → IsHeld others (spawn t s)
spawn-IsHeld others t s f h = record {
  before = h.before;
  behind = h.behind ++ (t ∷ []);
  own = All-append _ s.handles (t ∷ []) h.own (f, tt);
  held = ap (λ ts. ts ++ (t ∷ [])) h.held ∙ append_assoc h.before h.behind (t ∷ []);
  runs = ap (λ ts. ts ++ (t ∷ [])) h.runs ∙ append_assoc (h.before ++ others) h.behind (t ∷ []);
}

spawn_if-IsHeld :
    (others : List Task) (b : Bool) (t : Task) (s : Spawned)
    → is_forward t ≡ false
    → IsHeld others s
    → IsHeld others (spawn_if b t s)
spawn_if-IsHeld others true t s f h = spawn-IsHeld others t s f h
spawn_if-IsHeld others false t s f h = h

is_no-cases {ℓ} : {A : Type ℓ} (d : Dec A) → (A × (is_no d ≡ false)) ⊎ (¬ A × (is_no d ≡ true))
is_no-cases (yes a) = inl (a, refl)
is_no-cases (no n) = inr (n, refl)

abort-Among : (t : Task) (ts us : List Task) → All (Among (t ∷ ts)) us → All (Among ts) (abort t us)
unfolding abort
abort-Among t ts [] h = tt
abort-Among t ts (u ∷ us) h = elim (is_no-cases (Task-discrete u t)) [
  | inl (e, n) ↦ rw n (abort-Among t ts us h.1)
  | inr (e, n) ↦ rw n (other (λ q. e q) h.0, abort-Among t ts us h.1)
]
  where
    other : (u ≢ t) → Among (t ∷ ts) u → Among ts u
    other n (inl e) = absurd (n e)
    other n (inr k) = k

shutdown-Among : (ts us : List Task) → All (Among ts) us → shutdown ts us ≡ []
unfolding shutdown
shutdown-Among [] [] h = refl
shutdown-Among [] (u ∷ us) h = absurd h.0
shutdown-Among (t ∷ ts) us h = shutdown-Among ts (abort t us) (abort-Among t ts us h)

later-Among : (t : Task) (ts us : List Task) → All (Among ts) us → All (Among (t ∷ ts)) us
later-Among t ts [] h = tt
later-Among t ts (u ∷ us) h = (inr h.0, later-Among t ts us h.1)

own-Among : (ts : List Task) → All (Among ts) ts
own-Among [] = tt
own-Among (t ∷ ts) = (inl refl, later-Among t ts ts (own-Among ts))

abort-append : (t : Task) (us vs : List Task) → abort t (us ++ vs) ≡ abort t us ++ abort t vs
unfolding abort
abort-append t [] vs = refl
abort-append t (u ∷ us) vs = ground (arith, abort-append t us vs)

shutdown-append : (ts us vs : List Task) → shutdown ts (us ++ vs) ≡ shutdown ts us ++ shutdown ts vs
unfolding shutdown
shutdown-append [] us vs = refl
shutdown-append (t ∷ ts) us vs =
    ap (shutdown ts) (abort-append t us vs) ∙ shutdown-append ts (abort t us) (abort t vs)

abort-forwards : (t : Task) (n : ℕ) → is_forward t ≡ false → abort t (forwards n) ≡ forwards n
unfolding abort forwards
abort-forwards t zero f = refl
abort-forwards t (suc n) f = elim (is_no-cases (Task-discrete (forwarding n) t)) [
  | inl (e, d) ↦ let clash : true ≡ false = ap is_forward e ∙ f in cc clash
  | inr (e, d) ↦ rw d (ap (◌∷◌ (forwarding n)) (abort-forwards t n f))
]

shutdown-forwards :
    (ts : List Task) (n : ℕ)
    → All (λ t. is_forward t ≡ false) ts
    → shutdown ts (forwards n) ≡ forwards n
unfolding shutdown
shutdown-forwards [] n h = refl
shutdown-forwards (t ∷ ts) n h =
    ap (shutdown ts) (abort-forwards t n h.0) ∙ shutdown-forwards ts n h.1

All-parts : (P : Task → Type 0) (us vs : List Task) → All P (us ++ vs) → All P us × All P vs
All-parts P [] vs h = (tt, h)
All-parts P (u ∷ us) vs h = let (p, q) = All-parts P us vs h.1 in ((h.0, p), q)

shutdown-IsHeld :
    (n : ℕ) (s : Spawned) → IsHeld (forwards n) s → shutdown s.handles s.running ≡ forwards n
shutdown-IsHeld n s h =
    let ts = s.handles in
    let among : All (Among ts) (h.before ++ h.behind) =
      subst (All (Among ts)) h.held (own-Among ts) in
    let (front, rest) = All-parts (Among ts) h.before h.behind among in
    ap (shutdown ts) h.runs
    ∙ shutdown-append ts (h.before ++ forwards n) h.behind
    ∙ ap (λ us. us ++ shutdown ts h.behind) (shutdown-append ts h.before (forwards n))
    ∙ rw
        (
          shutdown-Among ts h.before front,
          shutdown-Among ts h.behind rest,
          shutdown-forwards ts n h.own,
        )
        (append-nil (forwards n))

module _ (debug_wide : Str → Str) (z : ZenohConfig) (w : World z) where
  -- Before the restoration the two lists agree.
  IsFirst : Spawned → Type 0
  IsFirst s = (s.handles ≡ s.running) × All (λ t. is_forward t ≡ false) s.handles

  wire-IsFirst : (b : Bool) → IsFirst (wire debug_wide z w b).1
  unfolding wire IsFirst
  wire-IsFirst true = elim (Bool-cases w.declares_subscriber) [
    | inr n ↦ rw n (refl, (refl, tt))
    | inl y ↦ elim (Bool-cases w.declares_queryable) [
      | inr n ↦ rw (y, n) (refl, (refl, (refl, tt)))
      | inl q ↦ rw (y, q) (refl, (refl, (refl, (refl, (refl, tt)))))
    ]
  ]
  wire-IsFirst false = elim (Bool-cases w.declares_subscriber) [
    | inr n ↦ rw n (refl, tt)
    | inl y ↦ elim (Bool-cases w.declares_queryable) [
      | inr n ↦ rw (y, n) (refl, (refl, tt))
      | inl q ↦ rw (y, q) (refl, (refl, (refl, (refl, tt))))
    ]
  ]

  rehydrated-IsHeld :
      (s : Spawned) → IsFirst s → IsHeld (forwards w.restores) (rehydrated debug_wide z w s)
  unfolding rehydrated IsFirst
  rehydrated-IsHeld s h = record {
    before = s.running;
    behind = [];
    own = h.1;
    held = h.0 ∙ sym (append-nil s.running);
    runs = sym (append-nil _);
  }

  spawn_own-IsHeld :
      (others : List Task) (cfg : NodeConfig) (s : Spawned)
      → IsHeld others s
      → IsHeld others (spawn_own debug_wide z w cfg s)
  unfolding spawn_own
  spawn_own-IsHeld others cfg s h =
      let h1 = spawn_if-IsHeld others (is_some cfg.metrics_listen) serve_metrics s refl h in
      let h2 = spawn_if-IsHeld others (is_some cfg.health_listen) serve_health _ refl h1 in
      let h3 = spawn_if-IsHeld others (ltb 0 cfg.sys_interval_secs) publish_sys _ refl h2 in
      let h4 = spawn_if-IsHeld others (ltb 0 cfg.session_expiry_secs) sweep_sessions _ refl h3 in
      spawn_if-IsHeld others (is_some cfg.tls) accept_tls _ refl
        (spawn-IsHeld others accept_mqtt _ refl h4)

  wired-shutdown :
      (cfg : NodeConfig) (r : Result (Unit {0}) StartError) (s : Spawned) (tasks : List Task)
      → IsFirst s
      → (wired debug_wide z w cfg (r, s)).0 ≡ ok tasks
      → shutdown tasks (wired debug_wide z w cfg (r, s)).1 ≡ forwards w.restores
  unfolding wired
  wired-shutdown cfg (err e) s tasks first h = cc
  wired-shutdown cfg (ok _) s tasks first h =
      let s' = spawn_own debug_wide z w cfg (rehydrated debug_wide z w s) in
      let kept : s'.handles ≡ tasks = cc h in
      rw (← kept) (
        shutdown-IsHeld w.restores s'
          (spawn_own-IsHeld (forwards w.restores) cfg _ (rehydrated-IsHeld s first)))

  prepared-shutdown :
      (cfg : NodeConfig) (r : Result (Unit {0}) StartError) (tasks : List Task)
      → (prepared debug_wide z w cfg r).0 ≡ ok tasks
      → shutdown tasks (prepared debug_wide z w cfg r).1 ≡ forwards w.restores
  unfolding prepared
  prepared-shutdown cfg (err e) tasks h = cc
  prepared-shutdown cfg (ok _) tasks h =
      let (r, s) = wire debug_wide z w (is_some cfg.data_dir) in
      wired-shutdown cfg r s tasks (wire-IsFirst (is_some cfg.data_dir)) h

  -- What a failure leaves running.
  abbrev Left : NodeConfig → Result (Unit {0}) StartError → StartError → List Task → Type 0
  Left cfg r e running =
      let saving = if is_some cfg.data_dir then save_snapshots ∷ [] else [] in
      ((r ≡ err e) × (running ≡ []))
      ⊎ ((e ≡ retained_subscriber) × (running ≡ saving))
      ⊎ ((e ≡ retained_queryable) × (running ≡ saving ++ (replicate ∷ [])))

  prepared-Left :
      (cfg : NodeConfig) (r : Result (Unit {0}) StartError) (e : StartError)
      → (prepared debug_wide z w cfg r).0 ≡ err e
      → Left cfg r e (prepared debug_wide z w cfg r).1
  unfolding prepared wired wire
  prepared-Left cfg (err d) e h = inl (cc, refl)
  prepared-Left cfg (ok u) e h = elim (Bool-cases w.declares_subscriber) [
    | inr n ↦ inr (inl (ground arith, ground arith))
    | inl y ↦ elim (Bool-cases w.declares_queryable) [
      | inr n ↦ inr (inr (ground arith, ground arith))
      | inl q ↦ ground arith
    ]
  ]

  pub run-shutdown :
      (cfg : NodeConfig) (tasks : List Task)
      → (run debug_wide z w cfg).0 ≡ ok tasks
      → shutdown tasks (run debug_wide z w cfg).1 ≡ forwards w.restores
  unfolding run
  run-shutdown cfg tasks h = prepared-shutdown cfg (prepare debug_wide z w cfg) tasks h

  -- A start that fails has spawned nothing, unless it is the bus that refuses the subscriber or the
  -- queryable of retained messages: then the task that saves them goes on, if there is a state
  -- directory, and after a refused queryable the one that replicates them.
  pub run-err :
      (cfg : NodeConfig) (e : StartError)
      → (run debug_wide z w cfg).0 ≡ err e
      → Left cfg (prepare debug_wide z w cfg) e (run debug_wide z w cfg).1
  unfolding run
  run-err cfg e h = prepared-Left cfg (prepare debug_wide z w cfg) e h
