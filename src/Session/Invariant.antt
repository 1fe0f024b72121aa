-- ===== src/Session/Invariant.antt =====
-- What holds of a session in every state.
use entmoot.Common.{
  ℕ, ◌≤◌, ◌<◌, ◌^◌, ◌≡◌, refl, true, ◌&&◌, not, Option, none, some, Str, length, arith, ltb,
  Result-cases, inl, inr,
}
use entmoot.Mqtt.{QoS, QosCodec}
use entmoot.Persist.{Disk, load_queue}
use entmoot.Persist.Queue.Limits.{load_queue_bounded}
use entmoot.Session.{
  SessionState, Host, new, restored_queue, is_some, take_kick_reason, next_pkid, detach_conn,
  kick_current, evict_slow, abort_subs, attach_conn, insert_sub, remove_sub,
}
use entmoot.Session.Identifiers.{next_pkid_lem}

-- The queue keeps its bound, the counter of identifiers 16 bits, and the offline clock runs exactly
-- while a session that was once attached has no channel.
pub record IsValid (s : SessionState) : Type 0 where
  pub bounded : length s.queue ≤ s.max_queue
  pub counter : s.pkid < 2 ^ 16
  pub clock : is_some s.offline_since ≡ (ltb 0 s.epoch && not (is_some s.sink))
  pub attached : is_some s.sink ≡ true → 0 < s.epoch

pub restored_queue_bounded :
    (path : Option Str) (n : ℕ) (disk : Disk) → length (restored_queue path n disk) ≤ n
unfolding restored_queue
restored_queue_bounded none n disk = omega arith
restored_queue_bounded (some path) n disk = elim (Result-cases (load_queue disk path n)) [
  | inl (queue, e) ↦ rw (e, restored_queue) (load_queue_bounded disk path n queue e)
  | inr (x, e) ↦ rw (e, restored_queue) (omega arith)
]

pub new-IsValid :
    (client_id : Str) (n : ℕ) (grace : Option ℕ) (qp sp : Option Str) (disk : Disk)
    → IsValid (new client_id n grace qp sp disk)
unfolding new
new-IsValid client_id n grace qp sp disk = record {
  bounded = restored_queue_bounded qp n disk;
  counter = omega arith;
  clock = refl;
  attached = λ e. cc;
}

pub next_pkid-IsValid : (s : SessionState) → IsValid s → IsValid (next_pkid s).1
next_pkid-IsValid s v =
    let (id, small, next) = next_pkid_lem s v.counter in
    record {
      bounded = unfold next_pkid in v.bounded;
      counter = small;
      clock = unfold next_pkid in v.clock;
      attached = unfold next_pkid in v.attached;
    }

pub detach_conn-IsValid :
    (now epoch : ℕ) (s : SessionState) → 0 < epoch → IsValid s → IsValid (detach_conn now epoch s).1
unfolding detach_conn
detach_conn-IsValid now epoch s pos v = ground arith

pub kick_current-IsValid : (s : SessionState) (h : Host) → IsValid s → IsValid (kick_current s h).0
unfolding kick_current
kick_current-IsValid s h v = ground arith

pub evict_slow-IsValid :
    (now tx : ℕ) (s : SessionState) (h : Host) → IsValid s → IsValid (evict_slow now tx s h).0
unfolding evict_slow
evict_slow-IsValid now tx s h v = ground arith

module _ (codec : QosCodec) where
  pub attach_conn-IsValid :
      (identity : Str) (sink kick : ℕ) (s : SessionState) (h : Host)
      → IsValid s
      → IsValid (attach_conn codec identity sink kick s h).1
  unfolding attach_conn
  attach_conn-IsValid identity sink kick s h v = record {
    bounded = omega arith;
    counter = v.counter;
    clock = ground arith;
    attached = λ e. omega arith;
  }

  pub insert_sub-IsValid :
      (filter : Str) (qos : QoS) (task : ℕ) (s : SessionState) (h : Host)
      → IsValid s
      → IsValid (insert_sub codec filter qos task s h).0
  unfolding insert_sub
  insert_sub-IsValid filter qos task s h v = record {
    bounded = v.bounded;
    counter = v.counter;
    clock = v.clock;
    attached = v.attached;
  }

  pub remove_sub-IsValid :
      (filter : Str) (s : SessionState) (h : Host)
      → IsValid s
      → IsValid (remove_sub codec filter s h).0
  unfolding remove_sub
  remove_sub-IsValid filter s h v = record {
    bounded = v.bounded;
    counter = v.counter;
    clock = v.clock;
    attached = v.attached;
  }

pub abort_subs-IsValid : (s : SessionState) (h : Host) → IsValid s → IsValid (abort_subs s h).0
unfolding abort_subs
abort_subs-IsValid s h v = record {
  bounded = v.bounded;
  counter = v.counter;
  clock = v.clock;
  attached = v.attached;
}

pub take_kick_reason-IsValid : (s : SessionState) → IsValid s → IsValid (take_kick_reason s).1
unfolding take_kick_reason
take_kick_reason-IsValid s v = record {
  bounded = v.bounded;
  counter = v.counter;
  clock = v.clock;
  attached = v.attached;
}
