-- ===== src/Retained.antt =====
-- crates/entmoot-node/src/retained.rs: the node's replica of the mesh's retained messages, its
-- snapshot on the disk and its copies on the bus.
--
-- A `SystemTime` is its number of nanoseconds since the epoch; times before it are left out.
-- The `moka` cache of scans is a parameter of the functions that use it (`MatchCache`).
pub mod Envelope
pub mod Snapshot
pub mod Cached
pub mod Replication
pub mod Wiring
pub mod Durability
pub mod Convergence
mod Runs
use entmoot.Common.{
  ℕ, zero, suc, ◌+◌, ◌*◌, ◌/◌, ◌%◌, ◌^◌, ◌≡◌, ◌⊎◌, Bool, true, false, Option, none, some, List, [],
  ◌∷◌, ◌++◌, map, Result, ok, err, ◌>>=◌, ok_or, Bytes, Str, codes, length, select, strip_prefix,
  if◌then◌else◌, is_empty,
}
use entmoot.Common.Dict
use entmoot.Common.Dict.{Dict}
use entmoot.Topic.{topic_matches, retained_keyexpr, retained_keyexpr_to_topic}
use entmoot.Codec.{
  ReadError, missing, bad_magic, truncated, stuck, to_be_bytes, from_be_bytes, split_at_checked,
  read_chunk, from_utf8,
}

abbrev pub SystemTime : Type 0
SystemTime = ℕ

-- `duration_since(UNIX_EPOCH).as_millis() as u64`
abbrev pub millis : SystemTime → ℕ
millis t = t / 1000000 % 2 ^ 64

-- `UNIX_EPOCH + Duration::from_millis(ms)`
abbrev pub from_millis : ℕ → SystemTime
from_millis ms = ms * 1000000

unfoldable pub encode_envelope : Bytes → SystemTime → Bytes
encode_envelope payload written_at = to_be_bytes 8 (millis written_at) ++ payload

unfoldable pub decode_envelope : Bytes → Option (Bytes × SystemTime)
decode_envelope bytes = elim (split_at_checked 8 bytes) [
  | none ↦ none
  | some (ts_bytes, payload) ↦ some (payload, from_millis (from_be_bytes ts_bytes))
]

abbrev pub RetainedEntry : Type 0
RetainedEntry = Str × Bytes × SystemTime

abbrev pub Entries : Type 0
Entries = Dict (Bytes × SystemTime)

-- The cache of `moka::future::Cache`: what a lookup finds, and the cache after an entry was loaded
-- and after `invalidate_all`. It may drop entries at any time, and it never makes one up.
pub record MatchCache : Type 1 where
  pub Cache : Type 0
  pub hit : Cache → Str → Option (List RetainedEntry)
  pub fill : Cache → Str → List RetainedEntry → Cache
  pub invalidate_all : Cache → Cache
  pub hit-invalidate_all : (c : Cache) (f : Str) → hit (invalidate_all c) f ≡ none
  pub hit-fill :
      (c : Cache) (f g : Str) (v r : List RetainedEntry)
      → hit (fill c f v) g ≡ some r
      → ((g ≡ f) × (r ≡ v)) ⊎ (hit c g ≡ some r)

-- One entry of a map, as `snapshot` and `matching` return it.
abbrev pub entry : Str × (Bytes × SystemTime) → RetainedEntry
entry (t, (p, ts)) = (t, p, ts)

-- The scan of `matching`, over the replica.
unfoldable pub scan : Entries → Str → List RetainedEntry
scan entries filter = map entry (select (λ e. topic_matches filter e.0) entries)

unfoldable pub snapshot : Entries → List RetainedEntry
snapshot entries = map entry entries

abbrev pub snapshot_magic : Bytes
snapshot_magic = codes "ENTMOOT-RET2" ++ (0x0a ∷ [])

-- One entry of a snapshot file. Lengths are cut to 32 bits (`as u32`).
unfoldable pub snapshot_record : RetainedEntry → Bytes
snapshot_record (t, payload, written_at) =
    to_be_bytes 4 (length t)
    ++ (t ++ (to_be_bytes 4 (length payload) ++ (payload ++ to_be_bytes 8 (millis written_at))))

snapshot_body : List RetainedEntry → Bytes
snapshot_body [] = []
snapshot_body (e ∷ es) = snapshot_record e ++ snapshot_body es

-- What `save_snapshot` writes to the file.
unfoldable pub save_snapshot : Entries → Bytes
unfolding snapshot_body
save_snapshot entries = snapshot_magic ++ snapshot_body (snapshot entries)

-- One round of the loop of `load_snapshot`: an entry, and what is left to read.
unfoldable pub read_entry : Bytes → Result (RetainedEntry × Bytes) ReadError
read_entry rest = do
  (topic_bytes, rest₁) ← read_chunk rest
  (payload, rest₂) ← read_chunk rest₁
  (ts_bytes, tail) ← ok_or (split_at_checked 8 rest₂) truncated
  t ← from_utf8 topic_bytes
  ok ((t, payload, from_millis (from_be_bytes ts_bytes)), tail)

-- The loop inserts as it reads: what stood before a malformed entry stays in the map.
unfoldable pub load_entries : ℕ → Bytes → Entries → ℕ → Entries × Result ℕ ReadError
load_entries fuel [] entries count = (entries, ok count)
load_entries zero (b ∷ bs) entries count = (entries, err stuck)
load_entries (suc fuel) (b ∷ bs) entries count = elim (read_entry (b ∷ bs)) [
  | err e ↦ (entries, err e)
  | ok ((t, payload, written_at), tail) ↦
      load_entries fuel tail (Dict.insert t (payload, written_at) entries) (count + 1)
]

-- Every round takes a byte at least, so that as many rounds as bytes are enough.
unfoldable pub load_snapshot : Option Bytes → Entries → Entries × Result ℕ ReadError
load_snapshot none entries = (entries, err missing)
load_snapshot (some file) entries = elim (strip_prefix snapshot_magic file) [
  | none ↦ (entries, err bad_magic)
  | some body ↦ load_entries (length body) body entries 0
]

module _ (mc : MatchCache) where
  pub record RetainedStore : Type 0 where
    pub entries : Entries
    pub dirty : Bool
    pub match_cache : mc.Cache
    pub scans : ℕ

  unfoldable pub insert : Str → Bytes → SystemTime → RetainedStore → RetainedStore
  insert topic_name payload written_at s = record {
    entries = Dict.insert topic_name (payload, written_at) s.entries;
    dirty = true;
    match_cache = mc.invalidate_all s.match_cache;
    scans = s.scans;
  }

  unfoldable pub remove : Str → RetainedStore → RetainedStore
  remove topic_name s = record {
    entries = Dict.remove topic_name s.entries;
    dirty = true;
    match_cache = mc.invalidate_all s.match_cache;
    scans = s.scans;
  }

  unfoldable pub len : RetainedStore → ℕ
  len s = length s.entries

  -- The flag before, and the store with the flag cleared.
  unfoldable pub take_dirty : RetainedStore → Bool × RetainedStore
  take_dirty s = (s.dirty, record s { dirty = false })

  unfoldable pub matching : Str → RetainedStore → List RetainedEntry × RetainedStore
  matching filter s = (scan s.entries filter, record s { scans = s.scans + 1 })

  -- `get_with_by_ref`: the cached value, or the loader's, which is then cached.
  unfoldable pub matching_cached : Str → RetainedStore → List RetainedEntry × RetainedStore
  unfolding matching
  matching_cached filter s = elim (mc.hit s.match_cache filter) [
    | some r ↦ (r, s)
    | none ↦
        let (r, s') = matching filter s in
        (r, record s' { match_cache = mc.fill s.match_cache filter r })
  ]

  -- One sample on the retained keyspace: a put with its payload, or a delete.
  unfoldable pub apply_sample : Str → Str → Option Bytes → RetainedStore → RetainedStore
  apply_sample scope ke sample s = elim (retained_keyexpr_to_topic ke scope) [
    | none ↦ s
    | some t ↦ elim sample [
      | none ↦ remove t s
      | some raw ↦ elim (decode_envelope raw) [
        | none ↦ s
        | some (payload, written_at) ↦ insert t payload written_at s
      ]
    ]
  ]

  -- What the queryable replies to one query.
  unfoldable pub replies : Str → RetainedStore → List (Str × Bytes)
  replies scope s =
      map (λ e. (retained_keyexpr e.0 scope, encode_envelope e.1 e.2)) (snapshot s.entries)

  -- The catch-up loop over the replies of the peers.
  unfoldable pub catch_up : Str → List (Str × Bytes) → RetainedStore → RetainedStore
  unfolding apply_sample
  catch_up scope [] s = s
  catch_up scope ((ke, raw) ∷ rest) s = catch_up scope rest (apply_sample scope ke (some raw) s)
