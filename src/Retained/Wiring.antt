-- ===== src/Retained/Wiring.antt =====
-- The snapshot of the replica while a node runs (the first task of `wire` in
-- crates/entmoot-node/src/retained.rs).
--
-- One round of the task clears the flag and then saves; other tasks change the replica before,
-- between and after the two. The write of the file is all or nothing (a rename).
use entmoot.Common.{Bool, false, Option, some, [], Bytes, if◌then◌else◌}
use entmoot.Retained.{MatchCache, RetainedStore, take_dirty, save_snapshot, load_snapshot}

module _ (mc : MatchCache) where
  -- `saving` is whether the task is between the two.
  pub record Durable : Type 0 where
    pub store : RetainedStore mc
    pub saving : Bool
    pub file : Option Bytes

  -- What a node starts from, with an empty cache: the snapshot, as far as it can be read. A file that
  -- is not there is not loaded, which is the same.
  unfoldable pub restore : mc.Cache → Option Bytes → Durable
  restore empty file =
      let loaded : RetainedStore mc = record {
        entries = (load_snapshot file []).0;
        dirty = false;
        match_cache = empty;
        scans = 0;
      } in
      record { store = (take_dirty mc loaded).1; saving = false; file = file }

  unfoldable pub tick_take : Durable → Durable
  tick_take d =
      let (dirty, store) = take_dirty mc d.store in record d { store = store; saving = dirty }

  -- `written` is whether the write succeeds.
  unfoldable pub tick_save : Bool → Durable → Durable
  tick_save written d =
      if d.saving
      then record d {
        saving = false;
        file = if written then some (save_snapshot d.store.entries) else d.file;
      }
      else d
