-- ===== src/Session.antt =====
-- The state of one MQTT session (`SessionState` of crates/entmoot-node/src/session.rs) and its
-- operations, one step each: the mutex of `Inner` makes them atomic.
--
-- An outbound channel (`mpsc::Sender`), a `Notify` and a task are numbers that name them. `Host` is
-- what the operations act on besides the session: the disk, and a log of the wake-ups and aborts.
-- Time is an argument.
pub mod Invariant
pub mod Identifiers
mod Runs
use entmoot.Common.{
  ℕ, zero, suc, ◌+◌, ◌-◌, ◌%◌, ◌^◌, Bool, true, false, not, Option, none, some, List, [], ◌∷◌, ◌++◌,
  map, Result, ok, err, Str, Bytes, length, str_eq, is_empty, ltb, ◌==◌, if◌then◌else◌,
}
use entmoot.Common.Dict
use entmoot.Common.Dict.{Dict}
use entmoot.Mqtt.{QoS, QosCodec}
use entmoot.Persist.{Disk, Message, save_queue, load_queue, save_subs, remove_state_file}

pub data KickReason : Type 0 where
  takeover slow : KickReason

pub record SubEntry : Type 0 where
  pub qos : QoS
  pub task : ℕ

pub record Inner : Type 0 where
  pub epoch : ℕ
  pub sink : Option ℕ
  pub kick : Option ℕ
  pub kick_reason : Option KickReason
  pub identity : Str
  pub subs : Dict SubEntry
  pub queue : List Message
  pub dropped : ℕ
  pub offline_since : Option ℕ

pub record SessionState : Type 0 where
  pub client_id : Str
  pub pkid : ℕ
  pub max_queue : ℕ
  pub slow_grace : Option ℕ
  pub queue_path : Option Str
  pub subs_path : Option Str
  pub inner : Inner
  pub open inner use *

-- `notified k`: all that wait on `k` are woken. `aborted t`: the task `t` is cancelled.
pub data Effect : Type 0 where
  notified aborted : ℕ → Effect

pub record Host : Type 0 where
  pub disk : Disk
  pub effects : List Effect

abbrev pub emit : List Effect → Host → Host
emit es h = record h { effects = h.effects ++ es }

abbrev pub is_some {ℓ} : {A : Type ℓ} → Option A → Bool
is_some none = false
is_some (some a) = true

abbrev notified_all : Option ℕ → List Effect
notified_all none = []
notified_all (some k) = notified k ∷ []

-- The queue that `SessionState::new` starts with: the file's, if it can be read.
unfoldable pub restored_queue : Option Str → ℕ → Disk → List Message
restored_queue none max_queue disk = []
restored_queue (some path) max_queue disk = elim (load_queue disk path max_queue) [
  | ok queue ↦ queue
  | err e ↦ []
]

unfoldable pub new : Str → ℕ → Option ℕ → Option Str → Option Str → Disk → SessionState
unfolding restored_queue
new client_id max_queue slow_grace queue_path subs_path disk = record {
  client_id = client_id;
  pkid = 1;
  max_queue = max_queue;
  slow_grace = slow_grace;
  queue_path = queue_path;
  subs_path = subs_path;
  inner = record {
    epoch = 0;
    sink = none;
    kick = none;
    kick_reason = none;
    identity = [];
    subs = [];
    queue = restored_queue queue_path max_queue disk;
    dropped = 0;
    offline_since = none;
  };
}

-- The reason is consumed.
unfoldable pub take_kick_reason : SessionState → Option KickReason × SessionState
take_kick_reason s = (s.kick_reason, record s { inner = record s.inner { kick_reason = none } })

-- `fetch_add` on the 16-bit counter until the value before is not 0. The identifier and the counter
-- after; the loop of `next_pkid` goes round twice at most, and `zero` is never reached from 2.
unfoldable pub pkid_loop : ℕ → ℕ → ℕ × ℕ
pkid_loop zero counter = (0, counter)
pkid_loop (suc fuel) counter =
    let counter' = (counter + 1) % 2 ^ 16 in
    let rest = pkid_loop fuel counter' in if counter == 0 then rest else (counter, counter')

unfoldable pub next_pkid : SessionState → ℕ × SessionState
unfolding pkid_loop
next_pkid s = let (id, counter) = pkid_loop 2 s.pkid in (id, record s { pkid = counter })

unfoldable pub persist_queue : SessionState → Host → Host
persist_queue s h = elim s.queue_path [
  | none ↦ h
  | some path ↦ record h { disk = save_queue path s.queue h.disk }
]

unfoldable pub discard : Option Str → Host → Host
discard none h = h
discard (some path) h = record h { disk = remove_state_file path h.disk }

unfoldable pub discard_state_files : SessionState → Host → Host
unfolding discard
discard_state_files s h = discard s.subs_path (discard s.queue_path h)

-- Returns false if this connection was already superseded.
unfoldable pub detach_conn : ℕ → ℕ → SessionState → Bool × SessionState
detach_conn now epoch s =
    if s.epoch == epoch
    then (
      true,
      record s { inner = record s.inner { sink = none; kick = none; offline_since = some now } },
    )
    else (false, s)

unfoldable pub kick_current : SessionState → Host → SessionState × Host
kick_current s h = elim s.kick [
  | none ↦ (s, h)
  | some k ↦ (
    record s { inner = record s.inner { kick_reason = some takeover } },
    emit (notified k ∷ []) h,
  )
]

unfoldable pub expired : ℕ → ℕ → SessionState → Bool
expired now expiry s = elim s.offline_since [ none ↦ false | some t ↦ ltb expiry (now - t) ]

abbrev pub same_channel : Option ℕ → ℕ → Bool
same_channel none tx = false
same_channel (some cur) tx = cur == tx

-- The last component counts `slow_consumer_evictions_total`.
unfoldable pub evict_slow : ℕ → ℕ → SessionState → Host → SessionState × Host × ℕ
evict_slow now tx s h =
    if same_channel s.sink tx
    then (
      record s {
        inner = record s.inner { kick_reason = some slow; sink = none; offline_since = some now };
      },
      emit (notified_all s.kick) h,
      1,
    )
    else (s, h, 0)

abort_entries : Dict SubEntry → List Effect
abort_entries d = map (λ e. aborted e.1.task) d

unfoldable pub abort_subs : SessionState → Host → SessionState × Host
unfolding abort_entries
abort_subs s h = (record s { inner = record s.inner { subs = [] } }, emit (abort_entries s.subs) h)

abbrev aborted_old : Option SubEntry → List Effect
aborted_old none = []
aborted_old (some old) = aborted old.task ∷ []

module _ (codec : QosCodec) where
  unfoldable pub persist_subs : SessionState → Host → Host
  persist_subs s h = elim s.subs_path [
    | none ↦ h
    | some path ↦ record h {
      disk = save_subs codec path s.client_id s.identity (map (λ e. (e.0, e.1.qos)) s.subs) h.disk;
    }
  ]

  -- The fields that a connection takes over, once the old one is kicked.
  attached : Str → ℕ → ℕ → SessionState → SessionState
  attached identity sink kick s = record s {
    inner = record s.inner {
      kick_reason = if is_some s.kick then some takeover else s.kick_reason;
      epoch = s.epoch + 1;
      sink = some sink;
      kick = some kick;
      offline_since = none;
      identity = identity;
    };
  }

  -- The epoch and the backlog, which leaves the queue and the disk.
  unfoldable pub attach_conn :
      Str → ℕ → ℕ → SessionState → Host → (ℕ × List Message) × SessionState × Host
  unfolding attached persist_subs discard
  attach_conn identity sink kick s h =
      let s' = attached identity sink kick s in
      let kicked = emit (notified_all s.kick) h in
      let changed = not (str_eq s.identity identity) in
      let saved =
        if changed then (if is_empty s.subs then kicked else persist_subs s' kicked) else kicked in
      (
        (s'.epoch, s'.queue),
        record s' { inner = record s'.inner { queue = [] } },
        discard s.queue_path saved,
      )

  unfoldable pub insert_sub : Str → QoS → ℕ → SessionState → Host → SessionState × Host
  unfolding persist_subs
  insert_sub filter qos task s h =
      let s' = record s {
        inner = record s.inner {
          subs = Dict.insert filter (record { qos = qos; task = task }) s.subs;
        };
      } in
      (s', persist_subs s' (emit (aborted_old (Dict.get filter s.subs)) h))

  unfoldable pub remove_sub : Str → SessionState → Host → SessionState × Host
  unfolding persist_subs
  remove_sub filter s h =
      let s' = record s { inner = record s.inner { subs = Dict.remove filter s.subs } } in
      (s', persist_subs s' (emit (aborted_old (Dict.get filter s.subs)) h))
