-- ===== src/Registry/Runs.antt =====
-- The theorems about the registry at concrete inputs.
use entmoot.Common.{
  ℕ, ◌+◌, ◌≡◌, refl, true, false, ◌&&◌, none, some, [], ◌∷◌, ◌++◌, Bytes, ok, Str, codes, str_eq,
  strip_prefix, if◌then◌else◌,
}
use entmoot.Common.Dict
use entmoot.Common.Dict.{DistinctKeys}
use entmoot.Registry.Interleaving.{Reach, here, next, attaches, Reach-unshared}
use entmoot.Mqtt.{at_least_once, protocol_codec}
use entmoot.Auth.{Acl}
use entmoot.Persist.{Disk, load_subs, decode_subs, read_file}
use entmoot.Session.{new, expired}
use entmoot.Codec.{is_utf8, from_utf8, from_be_bytes, read_chunk}
use entmoot.Registry.{find_session, Registry, new_registry, attach, detach, sweep}
use entmoot.Registry.Attach.{attach_clean, attach_resume, attach-detach, IsOnline}
use entmoot.Registry.Detach.{detach_current, is_own}
use entmoot.Registry.Sweep.{IsOverdue, IsStateFile, sweep_lem}
use entmoot.Registry.Startup.{rehydrate, rehydrate_entries, rehydrate-IsRestored}
use entmoot.Registry.Rehydration.{rehydrate_one, IsRestored, rehydrate_one_lem}

abbrev ann : Str
ann = codes "ann"

abbrev disk : Disk
disk = record { files = []; writable = true }

abbrev start : Registry
start = new_registry 10 (some 5000) none disk

abbrev one : Registry
one = record start {
  sessions = (ann, 0) ∷ [];
  store = λ ref. new ann 10 (some 5000) none none disk;
  next_ref = 1;
}

attached_clean :
    let (o, r') = attach protocol_codec ann [] true 7 8 one in
    (o.session ≡ one.next_ref)
    × (o.session_present ≡ false)
    × (o.backlog ≡ [])
    × ((r'.store o.session).subs ≡ [])
    × ((r'.store o.session).queue_path ≡ none)
    × ((r'.store o.session).subs_path ≡ none)
attached_clean = attach_clean protocol_codec ann [] 7 8 one

resumed :
    let (o, r') = attach protocol_codec ann [] false 7 8 one in
    (o.session ≡ 0)
    × (o.backlog ≡ (one.store 0).queue)
    × (o.epoch ≡ (one.store 0).epoch + 1)
    × ((r'.store o.session).subs ≡ (one.store 0).subs)
unfolding Dict.get str_eq
resumed = attach_resume protocol_codec ann [] 7 8 one 0 refl

attach-detach_example :
    let (o, r') =
      attach protocol_codec ann [] false 7 8 (detach 50 0 (one.store 0).epoch false one) in
    (o.session ≡ 0)
    × (o.session_present ≡ true)
    × (o.epoch ≡ (one.store 0).epoch + 1)
    × (o.backlog ≡ (one.store 0).queue)
    × ((r'.store 0).subs ≡ (one.store 0).subs)
    × IsOnline protocol_codec ann [] 7 8 o r'
unfolding Dict.get str_eq
attach-detach_example = attach-detach protocol_codec ann [] 7 8 50 0 one refl

current_detached : Dict.get ann (detach 50 0 (one.store 0).epoch true one).sessions ≡ (
    if true
      && (is_own 0 (Dict.get (one.store 0).client_id one.sessions)
          && str_eq (one.store 0).client_id ann)
    then none
    else Dict.get ann one.sessions)
current_detached = detach_current 50 0 true one ann

abbrev saved_queue : Bytes
saved_queue = codes "ENTMOOT-Q1" ++ (0x0a ∷ [])

-- A session that went offline at 100 and has a queue on the disk.
abbrev queue_file : Str
queue_file = codes "d/616e6e.queue"

abbrev offline : Registry
offline =
    let s = new ann 10 (some 5000) (some queue_file) none disk in
    record start {
      sessions = (ann, 0) ∷ [];
      store = λ ref. record s { inner = record s.inner { offline_since = some 100 } };
      next_ref = 1;
      host = record start.host {
        disk = record { files = (queue_file, saved_queue) ∷ []; writable = true };
      };
    }

sweep_lem_example :
    let r' = sweep 500 100 offline in
    (IsOverdue 500 100 (offline.store 0)
      → (Dict.get ann r'.sessions ≡ none)
        × ((path : Str)
            → IsStateFile path (offline.store 0)
            → Dict.get path r'.host.disk.files ≡ none))
    × (¬ IsOverdue 500 100 (offline.store 0) → Dict.get ann r'.sessions ≡ some 0)
unfolding Dict.get str_eq
sweep_lem_example = sweep_lem 500 100 offline ann 0 (tt, tt) refl refl

abbrev saved : Bytes
saved =
    codes "ENTMOOT-S1"
    ++ (0x0a ∷ 0 ∷ 0 ∷ 0 ∷ 1 ∷ b'c' ∷ 0 ∷ 0 ∷ 0 ∷ 0 ∷ 0 ∷ 0 ∷ 0 ∷ 3 ∷ b'a' ∷ b'/' ∷ b'#' ∷ 1 ∷ [])

abbrev restart : Registry
restart =
    new_registry 10 none (some (codes "d"))
      (record { files = (codes "d/63.subs", saved) ∷ []; writable = true })

abbrev open_rules : Acl
open_rules = record { default_allow = true; rules = [] }

rehydrate_one_lem_example :
    let (result, r') =
      rehydrate_one protocol_codec open_rules [] (λ ke. true) (codes "d/63.subs") restart in
    (result ≡ ok (codes "c"))
    × (Dict.get (codes "c") r'.sessions ≡ some 0)
    × IsRestored open_rules [] (r'.store 0)
    × ((now expiry : ℕ) → expired now expiry (r'.store 0) ≡ false)
unfolding load_subs decode_subs read_file Dict.get str_eq is_utf8 from_be_bytes read_chunk
    new_registry strip_prefix from_utf8
rehydrate_one_lem_example =
    rehydrate_one_lem protocol_codec open_rules [] (λ ke. true) (codes "d/63.subs") (codes "c") []
      ((codes "a/#", at_least_once) ∷ []) restart refl

abbrev saved_disk : Disk
saved_disk = record { files = (codes "d/63.subs", saved) ∷ []; writable = true }

-- A file that is not there, one that can be read, and then a failure.
saved_session :
    (identity : Str) × IsRestored open_rules identity (
      (rehydrate protocol_codec open_rules []
          (λ ke. true)
          (some (some (codes "d/64.subs") ∷ some (codes "d/63.subs") ∷ none ∷ []))
          (new_registry 10 none (some (codes "d")) saved_disk)).1.store
        0)
unfolding rehydrate rehydrate_entries rehydrate_one load_subs decode_subs read_file Dict.get
    Dict.insert str_eq is_utf8 from_be_bytes read_chunk new_registry strip_prefix from_utf8
saved_session =
    rehydrate-IsRestored protocol_codec open_rules [] (λ ke. true)
      (some (some (codes "d/64.subs") ∷ some (codes "d/63.subs") ∷ none ∷ [])) 10 none
      (some (codes "d")) saved_disk (codes "c") 0 refl

-- A client attaches twice.
abbrev twice : Registry
twice = (attach protocol_codec ann [] false 9 9 (attach protocol_codec ann [] true 7 8 start).1).1

twice-Reach : Reach protocol_codec open_rules [] (λ ke. true) twice
twice-Reach =
    next (next (here 10 (some 5000) none disk) (attaches ann [] true 7 8 start))
      (attaches ann [] false 9 9 (attach protocol_codec ann [] true 7 8 start).1)

Reach-unshared_example :
    DistinctKeys twice.sessions × ((twice.store 0).client_id ≡ ann) × (ann ≡ ann)
unfolding attach find_session Dict.get Dict.insert new_registry str_eq
Reach-unshared_example =
    Reach-unshared protocol_codec open_rules [] (λ ke. true) twice ann ann 0 twice-Reach refl refl
