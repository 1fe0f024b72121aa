-- ===== src/Retained/Snapshot.antt =====
-- Saving the replica to the disk and loading it again.
use entmoot.Common.{
  ℕ, or_else, zero, suc, ◌+◌, ◌≤◌, ◌<◌, ◌≡◌, refl, ap, ◌∙◌, ◌≢◌, true, Option, none, some, [], ◌∷◌,
  ◌++◌, append_assoc, ok, err, Result-cases, >>=-eq-ok, ok_or, ok_or-eq-ok, Bytes, Str, length,
  length-append, All, arith, strip_prefix, strip_prefix-append, str_eq_iff, Option-cases, inl, inr,
}
use entmoot.Common.Dict
use entmoot.Common.Dict.{
  get-Fresh, Dict, DistinctKeys, Fresh, get-insert, insert-Fresh, insert-DistinctKeys,
}
use entmoot.Codec.{
  stuck, truncated, to_be_bytes, split_at_checked, read_chunk, from_utf8, is_utf8, u32_max,
}
use entmoot.Codec.Chunks.{
  length-to_be_bytes, split_at_checked-append, read_chunk_takes, read_chunk_framed,
  split_at_checked_takes,
}
use entmoot.Retained.{
  millis, from_millis, RetainedEntry, Entries, entry, snapshot, snapshot_magic, snapshot_record,
  snapshot_body, save_snapshot, read_entry, load_entries, load_snapshot,
}
use entmoot.Retained.Envelope.{from_millis-back}

-- What a file can hold of an entry: lengths below 2 ^ 32, a topic that is text, a whole millisecond.
pub record IsStorable (e : RetainedEntry) : Type 0 where
  pub topic_fits : length e.0 ≤ u32_max
  pub topic_text : is_utf8 e.0 ≡ true
  pub payload_fits : length e.1 ≤ u32_max
  pub whole_millis : from_millis (millis e.2) ≡ e.2

read_entry-snapshot_record :
    (e : RetainedEntry) (rest : Bytes)
    → IsStorable e
    → read_entry (snapshot_record e ++ rest) ≡ ok (e, rest)
unfolding read_entry snapshot_record from_utf8
read_entry-snapshot_record (t, p, ts) rest s =
    let stamp : Bytes = to_be_bytes 8 (millis ts) in
    let pn : Bytes = to_be_bytes 4 (length p) in
    rw (
      append_assoc (to_be_bytes 4 (length t)) _ rest,
      append_assoc t _ rest,
      append_assoc pn _ rest,
      append_assoc p stamp rest,
      read_chunk_framed t (pn ++ (p ++ (stamp ++ rest))) s.topic_fits,
      read_chunk_framed p (stamp ++ rest) s.payload_fits,
      split_at_checked-append stamp rest 8 (length-to_be_bytes 8 (millis ts)),
      s.topic_text,
      from_millis-back ts,
      s.whole_millis,
    )

-- Inserting all entries of one map into another.
unfoldable pub merge : Entries → Entries → Entries
merge acc [] = acc
merge acc ((k, v) ∷ d) = merge (Dict.insert k v acc) d

record_ne_nil :
    (e : RetainedEntry) (rest : Bytes)
    → (b : ℕ) × (bs : Bytes) × (snapshot_record e ++ rest ≡ b ∷ bs)
unfolding snapshot_record to_be_bytes
record_ne_nil (t, p, ts) rest = (_, _, refl)

record_longer :
    (e : RetainedEntry) (rest : Bytes) → length rest < length (snapshot_record e ++ rest)
unfolding snapshot_record
record_longer (t, p, ts) rest =
    let r = to_be_bytes 4 (length p) ++ (p ++ to_be_bytes 8 (millis ts)) in
    omega (
      arith,
      length-append (to_be_bytes 4 (length t) ++ (t ++ r)) rest,
      length-append (to_be_bytes 4 (length t)) (t ++ r),
      length-to_be_bytes 4 (length t),
    )

load_entries_step :
    (fuel : ℕ) (e : RetainedEntry) (rest : Bytes) (acc : Entries) (count : ℕ)
    → IsStorable e
    → load_entries (suc fuel) (snapshot_record e ++ rest) acc count
      ≡ load_entries fuel rest (Dict.insert e.0 (e.1, e.2) acc) (count + 1)
unfolding load_entries
load_entries_step fuel (t, p, ts) rest acc count s =
    let (b, bs, q) = record_ne_nil (t, p, ts) rest in
    let back = read_entry-snapshot_record (t, p, ts) rest s in
    rw q (rw (rw q at back, load_entries))

load_entries-body :
    (fuel : ℕ) (d acc : Entries) (count : ℕ)
    → All (λ e. IsStorable (entry e)) d
    → length (snapshot_body (snapshot d)) ≤ fuel
    → load_entries fuel (snapshot_body (snapshot d)) acc count
      ≡ (merge acc d, ok (count + length d))
unfolding snapshot_body snapshot merge
load_entries-body fuel [] acc count s h = unfold load_entries in ground arith
load_entries-body zero ((t, (p, ts)) ∷ d) acc count s h =
    let (b, bs, q) = record_ne_nil (t, p, ts) (snapshot_body (snapshot d)) in
    absurd (omega (arith, ap length q))
load_entries-body (suc fuel) ((t, (p, ts)) ∷ d) acc count s h =
    load_entries_step fuel (t, p, ts) (snapshot_body (snapshot d)) acc count s.0
    ∙ load_entries-body fuel d (Dict.insert t (p, ts) acc) (count + 1) s.1
        (omega (arith, record_longer (t, p, ts) (snapshot_body (snapshot d))))
    ∙ ground arith

get-merge :
    (j : Str) (acc d : Entries)
    → DistinctKeys d
    → Dict.get j (merge acc d) ≡ or_else (Dict.get j d) (Dict.get j acc)
unfolding merge Dict.get
get-merge j acc [] h = refl
get-merge j acc ((k, v) ∷ d) h =
    get-merge j (Dict.insert k v acc) d h.1
    ∙ ground (arith, get-insert k j v acc, get-Fresh j d, str_eq_iff k j)

-- Loading a saved replica into a store counts all its entries, and gives every topic that the
-- replica held its saved value back; other topics keep what the store had. Each entry is one that
-- the format can hold, and no topic stands twice in the replica.
pub load_snapshot-save_snapshot :
    (d acc : Entries)
    → All (λ e. IsStorable (entry e)) d
    → DistinctKeys d
    → (final : Entries) × (load_snapshot (some (save_snapshot d)) acc ≡ (final, ok (length d)))
      × ((j : Str) → Dict.get j final ≡ or_else (Dict.get j d) (Dict.get j acc))
unfolding load_snapshot save_snapshot
load_snapshot-save_snapshot d acc s k = (
  merge acc d,
  rw (strip_prefix-append snapshot_magic (snapshot_body (snapshot d)), load_snapshot)
      (load_entries-body _ d acc 0 s (omega arith) ∙ ground arith),
  λ j. get-merge j acc d k,
)

read_entry_takes :
    (bs : Bytes) (e : RetainedEntry) (rest : Bytes)
    → read_entry bs ≡ ok (e, rest)
    → length rest < length bs
unfolding read_entry
read_entry_takes bs e rest h =
    let ((t, r₁), p₁, q₁) = >>=-eq-ok (read_chunk bs) _ h in
    let ((p, r₂), p₂, q₂) = >>=-eq-ok (read_chunk r₁) _ q₁ in
    let ((ts, tail), p₃, q₃) = >>=-eq-ok (ok_or (split_at_checked 8 r₂) truncated) _ q₂ in
    let (text, p₄, q₄) = >>=-eq-ok (from_utf8 t) _ q₃ in
    let same : tail ≡ rest = cc q₄ in
    omega (
      arith,
      read_chunk_takes bs t r₁ p₁,
      read_chunk_takes r₁ p r₂ p₂,
      split_at_checked_takes 8 r₂ ts tail (ok_or-eq-ok _ _ p₃),
      ap length same,
    )

read_entry-ne-stuck : (bs : Bytes) → read_entry bs ≢ err stuck
unfolding read_entry read_chunk from_utf8
read_entry-ne-stuck bs h = ground arith

load_entries-ne-stuck :
    (fuel : ℕ) (bs : Bytes) (acc : Entries) (count : ℕ)
    → length bs ≤ fuel
    → (load_entries fuel bs acc count).1 ≢ err stuck
unfolding load_entries
load_entries-ne-stuck fuel [] acc count h = λ e. cc
load_entries-ne-stuck zero (b ∷ bs) acc count h = absurd (omega arith)
load_entries-ne-stuck (suc fuel) (b ∷ bs) acc count h = elim (Result-cases (read_entry (b ∷ bs))) [
  | inl (((t, p, ts), tail), e) ↦
      rw (e, load_entries)
        (load_entries-ne-stuck fuel tail (Dict.insert t (p, ts) acc) (count + 1)
          (omega (arith, read_entry_takes (b ∷ bs) (t, p, ts) tail e)))
  | inr (x, e) ↦ rw (e, load_entries) (λ q. read_entry-ne-stuck (b ∷ bs) (cc (e, q)))
]

-- The load of any file ends: its loop never runs out of the fuel it is given.
pub load_snapshot-ne-stuck :
    (file : Option Bytes) (acc : Entries) → (load_snapshot file acc).1 ≢ err stuck
unfolding load_snapshot
load_snapshot-ne-stuck none acc = λ e. cc
load_snapshot-ne-stuck (some file) acc = elim (Option-cases (strip_prefix snapshot_magic file)) [
  | inl e ↦ rw (e, load_snapshot) (λ q. cc)
  | inr (body, e) ↦
      rw (e, load_snapshot) (load_entries-ne-stuck (length body) body acc 0 (omega arith))
]
