-- ===== src/Registry.antt =====
-- `SessionRegistry` of crates/entmoot-node/src/session.rs: the sessions by client id, and their
-- restoration at startup.
--
-- An `Arc<SessionState>` is a number, its place in `store`: a connection keeps the number of its
-- session also after the registry has put another session under the client id.
pub mod Attach
pub mod Detach
pub mod Sweep
pub mod Rehydration
pub mod Startup
pub mod Invariant
pub mod Interleaving
mod Runs
use entmoot.Common.{
  ℕ, suc, zero, ◌+◌, ◌-◌, Bool, true, false, not, ◌&&◌, ◌||◌, Option, none, some, List, [], ◌∷◌,
  ◌++◌, map, Result, ok, err, ◌>>=◌, Str, Bytes, codes, length, is_empty, select, split, slash,
  str_eq, ◌==◌, leb, if◌then◌else◌,
}
use entmoot.Common.Dict
use entmoot.Common.Dict.{Dict}
use entmoot.Mqtt.{QosCodec}
use entmoot.Persist.{Disk, Message, queue_path, subs_path, remove_state_file}
use entmoot.Session.{
  SessionState, Inner, Host, SubEntry, new, is_some, discard, discard_state_files, detach_conn,
  kick_current, expired, abort_subs, attach_conn,
}

pub record Registry : Type 0 where
  pub sessions : Dict ℕ
  pub store : ℕ → SessionState
  pub next_ref : ℕ
  pub next_task : ℕ
  pub max_queue : ℕ
  pub slow_grace : Option ℕ
  pub queue_dir : Option Str
  pub host : Host

pub record AttachOutcome : Type 0 where
  pub session : ℕ
  pub session_present : Bool
  pub epoch : ℕ
  pub backlog : List Message

abbrev pub assign : ℕ → SessionState → (ℕ → SessionState) → ℕ → SessionState
assign ref s store j = if j == ref then s else store j

-- `SessionRegistry::new`
unfoldable pub new_registry : ℕ → Option ℕ → Option Str → Disk → Registry
new_registry max_queue slow_grace queue_dir disk = record {
  sessions = [];
  store = λ ref. new [] max_queue slow_grace none none disk;
  next_ref = 0;
  next_task = 0;
  max_queue = max_queue;
  slow_grace = slow_grace;
  queue_dir = queue_dir;
  host = record { disk = disk; effects = [] };
}

-- `path.as_ref().is_some_and(|p| p.exists())`
abbrev pub exists : Option Str → Disk → Bool
exists none disk = false
exists (some path) disk = is_some (Dict.get path disk.files)

-- `Arc::new(SessionState::new(...))`
alloc : Str → Option Str → Option Str → Registry → ℕ × Registry
alloc client_id qp sp r = (
  r.next_ref,
  record r {
    store = assign r.next_ref (new client_id r.max_queue r.slow_grace qp sp r.host.disk) r.store;
    next_ref = r.next_ref + 1;
  },
)

-- The removal of both state files of a client.
remove_files : Str → Registry → Registry
remove_files client_id r = record r {
  host =
      discard (subs_path r.queue_dir client_id) (discard (queue_path r.queue_dir client_id) r.host);
}

-- `existing.kick_current(); existing.abort_subs();`
dismiss : ℕ → Registry → Registry
dismiss ref r =
    let (s, h) = kick_current (r.store ref) r.host in
    let (s', h') = abort_subs s h in record r { store = assign ref s' r.store; host = h' }

-- The part of `attach` under the lock: the session, and whether stored state was there.
unfoldable pub find_session : Str → Bool → Registry → (ℕ × Bool) × Registry
unfolding dismiss remove_files alloc discard
find_session client_id clean r = elim (Dict.get client_id r.sessions) [
  | some existing ↦
      if clean
      then (let (ref, r') =
            alloc client_id none none (remove_files client_id (dismiss existing r)) in
          ((ref, false), r'))
      else ((existing, true), r)
  | none ↦
      if clean
      then (let (ref, r') = alloc client_id none none (remove_files client_id r) in
          ((ref, false), r'))
      else (let qp = queue_path r.queue_dir client_id in
          let sp = subs_path r.queue_dir client_id in
          let (ref, r') = alloc client_id qp sp r in
          ((ref, exists qp r.host.disk || exists sp r.host.disk), r'))
]

unfoldable pub detach : ℕ → ℕ → ℕ → Bool → Registry → Registry
detach now ref epoch clean r =
    let (current, s) = detach_conn now epoch (r.store ref) in
    if current
    then (if clean
        then (let (s', h) = abort_subs s r.host in
            record r {
              sessions = elim (Dict.get s'.client_id r.sessions) [
                | none ↦ r.sessions
                | some cur ↦ if cur == ref then Dict.remove s'.client_id r.sessions else r.sessions
              ];
              store = assign ref s' r.store;
              host = discard_state_files s' h;
            })
        else record r { store = assign ref s r.store })
    else r

-- The loop over the expired sessions.
pub discard_all : List (Str × ℕ) → Registry → Registry
discard_all [] r = r
discard_all ((client_id, ref) ∷ rest) r =
    let (s, h) = abort_subs (r.store ref) r.host in
    discard_all rest (record r { store = assign ref s r.store; host = discard_state_files s h })

unfoldable pub sweep : ℕ → ℕ → Registry → Registry
unfolding discard_all
sweep now expiry r =
    let gone = λ (e : Str × ℕ). expired now expiry (r.store e.1) in
    discard_all (select gone r.sessions)
      (record r { sessions = select (λ e. not (gone e)) r.sessions })

pub record Stats : Type 0 where
  pub sessions : ℕ
  pub offline : ℕ
  pub queued : ℕ
  pub dropped : ℕ

stats_from : (ℕ → SessionState) → Dict ℕ → Stats
stats_from store [] = record { sessions = 0; offline = 0; queued = 0; dropped = 0 }
stats_from store ((client_id, ref) ∷ rest) =
    let s = store ref in
    let t = stats_from store rest in
    record {
      sessions = t.sessions + 1;
      offline = if is_some s.sink then t.offline else t.offline + 1;
      queued = t.queued + length s.queue;
      dropped = t.dropped + s.dropped;
    }

unfoldable pub stats : Registry → Stats
unfolding stats_from
stats r = stats_from r.store r.sessions

module _ (codec : QosCodec) where
  -- The part of `attach` after the lock, on the session found.
  connect : Str → Str → ℕ → ℕ → (ℕ × Bool) × Registry → AttachOutcome × Registry
  connect client_id identity sink kick ((ref, present), r) =
      let ((epoch, backlog), s, h) = attach_conn codec identity sink kick (r.store ref) r.host in
      (
        record { session = ref; session_present = present; epoch = epoch; backlog = backlog },
        record r {
          sessions = Dict.insert client_id ref r.sessions;
          store = assign ref s r.store;
          host = h;
        },
      )

  unfoldable pub attach : Str → Str → Bool → ℕ → ℕ → Registry → AttachOutcome × Registry
  unfolding connect
  attach client_id identity clean sink kick r =
      connect client_id identity sink kick (find_session client_id clean r)
