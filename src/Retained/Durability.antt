-- ===== src/Retained/Durability.antt =====
-- What a restart finds of the retained messages.
use entmoot.Common.{
  ℕ, zero, suc, ◌≡◌, refl, ap, ◌∙◌, Bool, true, false, Option, none, some, [], ◌∷◌, Result, Bytes,
  Str, All, or_else, Bool-cases, Option-cases, Result-cases, inl, inr, arith, if◌then◌else◌,
  strip_prefix, length, ◌+◌,
}
use entmoot.Common.Dict
use entmoot.Common.Dict.{DistinctKeys, insert-DistinctKeys, remove-DistinctKeys}
use entmoot.Retained.{
  MatchCache, SystemTime, Entries, insert, remove, take_dirty, entry, save_snapshot, load_snapshot,
  load_entries, read_entry, snapshot_magic,
}
use entmoot.Retained.Snapshot.{IsStorable, load_snapshot-save_snapshot}
use entmoot.Retained.Wiring.{Durable, restore, tick_take, tick_save}

module _ (mc : MatchCache) (empty : mc.Cache) where
  -- A step of the node while its writes succeed.
  pub data Step : Durable mc → Durable mc → Type 0 where
    inserts :
        (t : Str) (payload : Bytes) (w : SystemTime) (d : Durable mc)
        → Step d (record d { store = insert mc t payload w d.store })
    removes : (t : Str) (d : Durable mc) → Step d (record d { store = remove mc t d.store })
    takes : (d : Durable mc) → d.saving ≡ false → Step d (tick_take mc d)
    saves :
        (d : Durable mc)
        → All (λ e. IsStorable (entry e)) d.store.entries
        → Step d (tick_save mc true d)

  pub data Reach (file : Option Bytes) : Durable mc → Type 0 where
    here : Reach file (restore mc empty file)
    next : {d d' : Durable mc} → Reach file d → Step d d' → Reach file d'

  -- What is not about to be saved is what a restart would find.
  pub record IsSaved (d : Durable mc) : Type 0 where
    pub distinct : DistinctKeys d.store.entries
    pub saved :
        d.store.dirty ≡ false
        → d.saving ≡ false
        → (j : Str)
        → Dict.get j (restore mc empty d.file).store.entries ≡ Dict.get j d.store.entries

  load_entries-DistinctKeys :
      (fuel : ℕ) (bs : Bytes) (acc : Entries) (count : ℕ)
      → DistinctKeys acc
      → DistinctKeys (load_entries fuel bs acc count).0
  unfolding load_entries
  load_entries-DistinctKeys fuel [] acc count h = h
  load_entries-DistinctKeys zero (b ∷ bs) acc count h = h
  load_entries-DistinctKeys (suc fuel) (b ∷ bs) acc count h =
      elim (Result-cases (read_entry (b ∷ bs))) [
        | inl (((t, p, ts), tail), e) ↦
            rw (e, load_entries)
              (load_entries-DistinctKeys fuel tail (Dict.insert t (p, ts) acc) (count + 1)
                (insert-DistinctKeys t (p, ts) acc h))
        | inr (x, e) ↦ rw (e, load_entries) h
      ]

  load_snapshot-DistinctKeys : (file : Option Bytes) → DistinctKeys (load_snapshot file []).0
  unfolding load_snapshot
  load_snapshot-DistinctKeys none = tt
  load_snapshot-DistinctKeys (some file) = elim (Option-cases (strip_prefix snapshot_magic file)) [
    | inl e ↦ rw (e, load_snapshot) tt
    | inr (body, e) ↦ rw (e, load_snapshot) (load_entries-DistinctKeys (length body) body [] 0 tt)
  ]

  restored-get :
      (es : Entries) (j : Str)
      → All (λ e. IsStorable (entry e)) es
      → DistinctKeys es
      → Dict.get j (load_snapshot (some (save_snapshot es)) []).0 ≡ Dict.get j es
  unfolding Dict.get
  restored-get es j s k =
      let (final, load, values) = load_snapshot-save_snapshot es [] s k in
      ap (λ (r : Entries × Result ℕ _). Dict.get j r.0) load ∙ values j ∙ or_none (Dict.get j es)
    where
      or_none : (o : Option (Bytes × SystemTime)) → or_else o none ≡ o
      or_none none = refl
      or_none (some v) = refl

  if-IsSaved : (b : Bool) (x y : Durable mc) → IsSaved x → IsSaved y → IsSaved (if b then x else y)
  if-IsSaved true x y p q = p
  if-IsSaved false x y p q = q

  Step-IsSaved : (d d' : Durable mc) → Step d d' → IsSaved d → IsSaved d'
  unfolding insert remove tick_take take_dirty tick_save restore
  Step-IsSaved _ _ (inserts t payload w d) v = record {
    distinct = insert-DistinctKeys t (payload, w) d.store.entries v.distinct;
    saved = λ e. cc;
  }
  Step-IsSaved _ _ (removes t d) v = record {
    distinct = remove-DistinctKeys t d.store.entries v.distinct;
    saved = λ e. cc;
  }
  Step-IsSaved _ _ (takes d h) v = record { distinct = v.distinct; saved = λ e f. v.saved f h }
  Step-IsSaved _ _ (saves d s) v =
      let written : Durable mc = record d {
        saving = false;
        file = some (save_snapshot d.store.entries);
      } in
      if-IsSaved d.saving written d
        (record {
          distinct = v.distinct;
          saved = λ e f j. restored-get d.store.entries j s v.distinct;
        })
        v

  Reach-IsSaved : (file : Option Bytes) (d : Durable mc) → Reach file d → IsSaved d
  unfolding restore take_dirty
  Reach-IsSaved file _ here = record {
    distinct = load_snapshot-DistinctKeys file;
    saved = λ e f j. refl;
  }
  Reach-IsSaved file _ (next {d} {d'} r s) = Step-IsSaved d d' s (Reach-IsSaved file d r)

  tick-file :
      (written : Bool) (d : Durable mc)
      → (tick_save mc written (tick_take mc d)).file ≡ (
          if d.store.dirty
          then if written then some (save_snapshot d.store.entries) else d.file
          else d.file)
  unfolding tick_take take_dirty tick_save
  tick-file written d = ground arith

  -- Whatever a node has done since it started, if its writes have succeeded: after one more round of the
  -- task that succeeds, a restart finds every retained message of the replica, with its value and
  -- its time, and no other. The entries are ones that the file can hold.
  pub Reach-restore :
      (file : Option Bytes) (d : Durable mc)
      → Reach file d
      → d.saving ≡ false
      → All (λ e. IsStorable (entry e)) d.store.entries
      → (j : Str)
      → Dict.get j (restore mc empty (tick_save mc true (tick_take mc d)).file).store.entries
        ≡ Dict.get j d.store.entries
  unfolding restore take_dirty
  Reach-restore file d r idle s j =
      let v = Reach-IsSaved file d r in
      elim (Bool-cases d.store.dirty) [
        | inl e ↦ rw (tick-file true d, e) (restored-get d.store.entries j s v.distinct)
        | inr e ↦ rw (tick-file true d, e) (v.saved e idle j)
      ]

  -- A write that fails is not tried again until something changes: the flag is down, and the file stays.
  pub tick_save-failed :
      (d : Durable mc)
      → let d' = tick_save mc false (tick_take mc d) in
        (d'.file ≡ d.file)
        × (d'.store.entries ≡ d.store.entries)
        × ((tick_save mc true (tick_take mc d')).file ≡ d.file)
  unfolding tick_take take_dirty tick_save
  tick_save-failed d = (ground arith, ground arith, ground arith)
