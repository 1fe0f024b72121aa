-- ===== src/Retained/Runs.antt =====
-- The theorems about retained messages at concrete inputs.
use entmoot.Common.{
  ◌≡◌, ◌≢◌, ◌⊎◌, refl, sym, ◌∙◌, inl, inr, true, false, none, some, or_else, List, [], ◌∷◌, ok, err,
  Str, codes, arith, str_eq, str_eq_iff, Bool-cases,
}
use entmoot.Common.Dict
use entmoot.Common.Dict.{Dict, get-insert, DistinctKeys}
use entmoot.Codec.{stuck, is_utf8}
use entmoot.Topic.{retained_keyexpr}
use entmoot.Retained.{
  insert, take_dirty, MatchCache, RetainedEntry, RetainedStore, Entries, encode_envelope, entry,
  save_snapshot, load_snapshot, replies, catch_up,
}
use entmoot.Retained.Wiring.{Durable, restore, tick_take, tick_save}
use entmoot.Retained.Durability.{here, next, inserts, Reach-restore}
use entmoot.Retained.Convergence.{Heard, AreApart, swap, replication, view, replication-Reorders}
use entmoot.Topic.Keyspaces.{retained_keyexpr_roundtrip}
use entmoot.Retained.Snapshot.{IsStorable, load_snapshot-save_snapshot, load_snapshot-ne-stuck}
use entmoot.Retained.Cached.{IsCoherent}
use entmoot.Retained.Replication.{whole_value, catch_up-replies}

-- A cache that keeps what it is given.
hit_fill :
    (c : Dict (List RetainedEntry)) (f g : Str) (v r : List RetainedEntry)
    → Dict.get g (Dict.insert f v c) ≡ some r
    → ((g ≡ f) × (r ≡ v)) ⊎ (Dict.get g c ≡ some r)
hit_fill c f g v r h = elim (Bool-cases (str_eq f g)) [
  | inl e ↦ inl (sym ((str_eq_iff f g).0 e), ground (arith, get-insert f g v c))
  | inr e ↦ inr (ground (arith, get-insert f g v c))
]

abbrev keeping : MatchCache
keeping = record {
  Cache = Dict (List RetainedEntry);
  hit = λ c f. Dict.get f c;
  fill = λ c f v. Dict.insert f v c;
  invalidate_all = λ c. [];
  hit-invalidate_all = λ c f. unfold Dict.get in refl;
  hit-fill = hit_fill;
}

abbrev kiln : Entries
kiln = (codes "a/b", (codes "21", 5000000)) ∷ []

abbrev nothing : Entries
nothing = []

abbrev store : RetainedStore keeping
store = record { entries = kiln; dirty = false; match_cache = []; scans = 0 }

store-IsCoherent : IsCoherent keeping store
unfolding Dict.get
store-IsCoherent f r h = cc

storable : IsStorable (entry (codes "a/b", (codes "21", 5000000)))
storable =
    unfold is_utf8 in
    record {
      topic_fits = omega arith;
      topic_text = refl;
      payload_fits = omega arith;
      whole_millis = refl;
    }

load_snapshot-save_snapshot_example :
    (final : Entries) × (load_snapshot (some (save_snapshot kiln)) nothing ≡ (final, ok 1))
    × ((j : Str) → Dict.get j final ≡ or_else (Dict.get j kiln) (Dict.get j nothing))
load_snapshot-save_snapshot_example =
    load_snapshot-save_snapshot kiln nothing (storable, tt) (tt, tt)

load_snapshot-ne-stuck_example : (load_snapshot (some (codes "garbage")) nothing).1 ≢ err stuck
load_snapshot-ne-stuck_example = load_snapshot-ne-stuck (some (codes "garbage")) nothing

-- A store with a fresher value than its peer.
abbrev fresher : RetainedStore keeping
fresher = record store { entries = (codes "a/b", (codes "30", 9000000)) ∷ [] }

catch_up-replies_example :
    Dict.get (codes "a/b") (catch_up keeping [] (replies keeping [] store) fresher).entries
    ≡ or_else
        (whole_value keeping (Dict.get (codes "a/b") kiln))
        (Dict.get (codes "a/b") fresher.entries)
catch_up-replies_example =
    catch_up-replies keeping [] (codes "a/b") store fresher (omega arith, tt) (tt, tt)

-- A node that starts without a file and retains one message.
abbrev started : Durable keeping
started = restore keeping [] none

abbrev written : Durable keeping
written = record started { store = insert keeping (codes "a/b") (codes "21") 5000000 started.store }

Reach-restore_example :
    Dict.get
      (codes "a/b")
      (restore keeping [] (tick_save keeping true (tick_take keeping written)).file).store.entries
    ≡ Dict.get (codes "a/b") written.store.entries
unfolding insert restore take_dirty load_snapshot Dict.insert
Reach-restore_example =
    Reach-restore keeping [] none written
      (next here (inserts (codes "a/b") (codes "21") 5000000 started)) refl (storable, tt)
      (codes "a/b")

-- Two nodes that hear of two topics in different orders.
abbrev first_put : Heard
first_put = (retained_keyexpr (codes "a") [], some (encode_envelope (codes "1") 5000000))

abbrev second_put : Heard
second_put = (retained_keyexpr (codes "b") [], none)

apart : AreApart [] first_put second_put
unfolding AreApart
apart t p q =
    let e : some (codes "a") ≡ some t = sym (retained_keyexpr_roundtrip (codes "a") []).0 ∙ p in
    let f : some (codes "b") ≡ some t = sym (retained_keyexpr_roundtrip (codes "b") []).0 ∙ q in
    let g : some (codes "a") ≡ some (codes "b") = e ∙ sym f in ground (arith, g)

replication-Reorders_example :
    view keeping [] (replication keeping [] (first_put ∷ second_put ∷ []) store)
    ≡ view keeping [] (replication keeping [] (second_put ∷ first_put ∷ []) store)
replication-Reorders_example =
    replication-Reorders keeping [] (first_put ∷ second_put ∷ []) (second_put ∷ first_put ∷ [])
      store store (swap first_put second_put [] apart) refl
