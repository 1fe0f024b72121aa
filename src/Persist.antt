-- ===== src/Persist.antt =====
-- The files that a persistent session keeps under `data_dir` (the lower half of
-- crates/entmoot-node/src/session.rs): the offline queue and the subscriptions.
pub mod Queue
pub mod Subs
pub mod Text
pub mod Names
mod Runs
use entmoot.Common.{
  ℕ, zero, suc, ◌-◌, Bool, true, false, Option, none, some, List, [], ◌∷◌, ◌++◌, Result, ok, err,
  ◌>>=◌, ok_or, Bytes, Str, codes, slash, length, drop, strip_prefix, leb, ◌==◌, if◌then◌else◌,
}
use entmoot.Common.Dict
use entmoot.Common.Dict.{Dict}
use entmoot.Auth.{hex}
use entmoot.Mqtt.{QoS, QosCodec}
use entmoot.Codec.{
  ReadError, missing, bad_magic, truncated, bad_qos, stuck, read_chunk, write_chunk,
  split_at_checked, from_utf8,
}

-- The file system: the files by their paths, and whether it takes writes. The write of a temporary
-- file and its rename are one step.
pub record Disk : Type 0 where
  pub files : Dict Bytes
  pub writable : Bool

unfoldable pub read_file : Disk → Str → Result Bytes ReadError
read_file disk path = ok_or (Dict.get path disk.files) missing

unfoldable pub write_file : Str → Bytes → Disk → Disk
write_file path bytes disk =
    if disk.writable then record disk { files = Dict.insert path bytes disk.files } else disk

-- `remove_state_file`: errors are logged and nothing more.
unfoldable pub remove_state_file : Str → Disk → Disk
remove_state_file path disk =
    if disk.writable then record disk { files = Dict.remove path disk.files } else disk

abbrev pub queue_magic : Bytes
queue_magic = codes "ENTMOOT-Q1" ++ (0x0a ∷ [])

abbrev pub subs_magic : Bytes
subs_magic = codes "ENTMOOT-S1" ++ (0x0a ∷ [])

unfoldable pub hex_name : Str → Str
hex_name s = hex s

-- `dir.join(format!("{}.queue", hex_name(client_id)))`
unfoldable pub queue_path : Option Str → Str → Option Str
queue_path none client_id = none
queue_path (some dir) client_id = some (dir ++ (slash ∷ (hex_name client_id ++ codes ".queue")))

unfoldable pub subs_path : Option Str → Str → Option Str
subs_path none client_id = none
subs_path (some dir) client_id = some (dir ++ (slash ∷ (hex_name client_id ++ codes ".subs")))

abbrev pub Message : Type 0
Message = Str × Bytes

-- Push at the back of a queue that holds `max_queue` at most: from a full one the oldest goes first.
unfoldable pub push_bounded : ℕ → List Message → Message → List Message
push_bounded max_queue queue m =
    (if leb max_queue (length queue) then drop 1 queue else queue) ++ (m ∷ [])

encode_queue_from : Bytes → List Message → Result Bytes ReadError
encode_queue_from out [] = ok out
encode_queue_from out ((topic, payload) ∷ queue) = do
  out₁ ← write_chunk out topic
  out₂ ← write_chunk out₁ payload
  encode_queue_from out₂ queue

-- What `save_queue` writes.
unfoldable pub encode_queue : List Message → Result Bytes ReadError
unfolding encode_queue_from
encode_queue queue = encode_queue_from queue_magic queue

unfoldable pub save_queue : Str → List Message → Disk → Disk
save_queue path queue disk = elim (encode_queue queue) [
  | err e ↦ disk
  | ok out ↦ write_file path out disk
]

read_message : Bytes → Result (Message × Bytes) ReadError
read_message rest = do
  (topic_bytes, rest₁) ← read_chunk rest
  topic ← from_utf8 topic_bytes
  (payload, rest₂) ← read_chunk rest₁
  ok ((topic, payload), rest₂)

read_queue : ℕ → ℕ → Bytes → List Message → Result (List Message) ReadError
read_queue fuel max_queue [] queue = ok queue
read_queue zero max_queue (b ∷ bs) queue = err stuck
read_queue (suc fuel) max_queue (b ∷ bs) queue = elim (read_message (b ∷ bs)) [
  | err e ↦ err e
  | ok (m, rest) ↦ read_queue fuel max_queue rest (push_bounded max_queue queue m)
]

-- `load_queue` on the file's contents.
unfoldable pub decode_queue : ℕ → Bytes → Result (List Message) ReadError
unfolding read_queue read_message
decode_queue max_queue bytes = elim (strip_prefix queue_magic bytes) [
  | none ↦ err bad_magic
  | some body ↦ read_queue (length body) max_queue body []
]

unfoldable pub load_queue : Disk → Str → ℕ → Result (List Message) ReadError
load_queue disk path max_queue =
    if max_queue == 0 then ok [] else do bytes ← read_file disk path; decode_queue max_queue bytes

module _ (codec : QosCodec) where
  encode_subs_from : Bytes → List (Str × QoS) → Result Bytes ReadError
  encode_subs_from out [] = ok out
  encode_subs_from out ((filter, qos) ∷ entries) = do
    out₁ ← write_chunk out filter
    encode_subs_from (out₁ ++ (codec.to_byte qos ∷ [])) entries

  -- What `save_subs` writes for a list that is not empty.
  unfoldable pub encode_subs : Str → Str → List (Str × QoS) → Result Bytes ReadError
  unfolding encode_subs_from
  encode_subs client_id identity entries = do
    out₁ ← write_chunk subs_magic client_id
    out₂ ← write_chunk out₁ identity
    encode_subs_from out₂ entries

  write_encoded : Str → Result Bytes ReadError → Disk → Disk
  write_encoded path (err e) disk = disk
  write_encoded path (ok out) disk = write_file path out disk

  unfoldable pub save_subs : Str → Str → Str → List (Str × QoS) → Disk → Disk
  unfolding write_encoded
  save_subs path client_id identity [] disk = remove_state_file path disk
  save_subs path client_id identity (e ∷ es) disk =
      write_encoded path (encode_subs client_id identity (e ∷ es)) disk

  read_qos : Bytes → Result QoS ReadError
  read_qos [] = err bad_qos
  read_qos (b ∷ bs) = ok_or (codec.of_byte b) bad_qos

  read_sub : Bytes → Result ((Str × QoS) × Bytes) ReadError
  read_sub rest = do
    (filter_bytes, rest₁) ← read_chunk rest
    filter ← from_utf8 filter_bytes
    (qos_byte, tail) ← ok_or (split_at_checked 1 rest₁) truncated
    qos ← read_qos qos_byte
    ok ((filter, qos), tail)

  read_subs : ℕ → Bytes → List (Str × QoS) → Result (List (Str × QoS)) ReadError
  read_subs fuel [] entries = ok entries
  read_subs zero (b ∷ bs) entries = err stuck
  read_subs (suc fuel) (b ∷ bs) entries = elim (read_sub (b ∷ bs)) [
    | err e ↦ err e
    | ok (entry, rest) ↦ read_subs fuel rest (entries ++ (entry ∷ []))
  ]

  -- `load_subs` on the file's contents.
  unfoldable pub decode_subs : Bytes → Result (Str × Str × List (Str × QoS)) ReadError
  unfolding read_subs read_sub read_qos
  decode_subs bytes = do
    rest ← ok_or (strip_prefix subs_magic bytes) bad_magic
    (client_bytes, rest₁) ← read_chunk rest
    client_id ← from_utf8 client_bytes
    (identity_bytes, rest₂) ← read_chunk rest₁
    identity ← from_utf8 identity_bytes
    entries ← read_subs (length rest₂) rest₂ []
    ok (client_id, identity, entries)

  unfoldable pub load_subs : Disk → Str → Result (Str × Str × List (Str × QoS)) ReadError
  load_subs disk path = do bytes ← read_file disk path; decode_subs bytes
