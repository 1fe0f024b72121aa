-- ===== src/Common/Dict.antt =====
-- `HashMap<String, V>` as an association list. Rust leaves the order of iteration open: here it is
-- the order of the list, and no theorem rests on it but through membership.
use mathlib.Core.Path.{◌≡◌, refl}
use mathlib.Core.Bool.{false}
use mathlib.Core.List.{List, [], ◌∷◌, ◌++◌}
use mathlib.Core.Option.{Option, none, some}
use native.Mathlib.Omega.{arith}
use entmoot.Common.Tests.{if◌then◌else◌}
use entmoot.Common.Text.{Str, str_eq, str_eq_iff}

abbrev pub Dict {ℓ} : Type ℓ → Type ℓ
Dict V = List (Str × V)

module _ {ℓ} {V : Type ℓ} where
  -- `map.get(k)`
  unfoldable pub get : Str → Dict V → Option V
  get k [] = none
  get k ((j, v) ∷ d) = if str_eq j k then some v else get k d

  -- `map.insert(k, v)`: an old entry is overwritten.
  unfoldable pub insert : Str → V → Dict V → Dict V
  insert k v [] = (k, v) ∷ []
  insert k v ((j, w) ∷ d) = if str_eq j k then (k, v) ∷ d else (j, w) ∷ insert k v d

  -- `map.remove(k)`
  unfoldable pub remove : Str → Dict V → Dict V
  remove k [] = []
  remove k ((j, w) ∷ d) = let rest = remove k d in if str_eq j k then rest else (j, w) ∷ rest

  pub get-insert :
      (k j : Str) (v : V) (d : Dict V)
      → get j (insert k v d) ≡ (if str_eq k j then some v else get j d)
  unfolding get insert
  get-insert k j v [] = refl
  get-insert k j v ((i, w) ∷ d) =
      ground (arith, get-insert k j v d, str_eq_iff i k, str_eq_iff i j, str_eq_iff k j)

  pub get-remove :
      (k j : Str) (d : Dict V) → get j (remove k d) ≡ (if str_eq k j then none else get j d)
  unfolding get remove
  get-remove k j [] = ground arith
  get-remove k j ((i, w) ∷ d) =
      ground (arith, get-remove k j d, str_eq_iff i k, str_eq_iff i j, str_eq_iff k j)

  -- No key stands in a dictionary twice.
  abbrev pub Fresh : Str → Dict V → Type 0
  Fresh k [] = Unit
  Fresh k ((j, v) ∷ d) = (str_eq j k ≡ false) × Fresh k d

  abbrev pub DistinctKeys : Dict V → Type 0
  DistinctKeys [] = Unit
  DistinctKeys ((k, v) ∷ d) = Fresh k d × DistinctKeys d

  pub get-Fresh : (k : Str) (d : Dict V) → Fresh k d → get k d ≡ none
  unfolding get
  get-Fresh k [] h = refl
  get-Fresh k ((j, v) ∷ d) h = rw h.0 (get-Fresh k d h.1)

  Fresh-insert :
      (i k : Str) (v : V) (d : Dict V) → Fresh i d → str_eq k i ≡ false → Fresh i (insert k v d)
  unfolding insert
  Fresh-insert i k v [] h n = (n, tt)
  Fresh-insert i k v ((j, w) ∷ d) h n = ground (arith, Fresh-insert i k v d h.1 n)

  pub insert-DistinctKeys :
      (k : Str) (v : V) (d : Dict V) → DistinctKeys d → DistinctKeys (insert k v d)
  unfolding insert
  insert-DistinctKeys k v [] h = (tt, tt)
  insert-DistinctKeys k v ((j, w) ∷ d) h = ground (
    arith,
    insert-DistinctKeys k v d h.1,
    Fresh-insert j k v d h.0,
    str_eq_iff j k,
    str_eq_iff k j,
  )

  Fresh-remove : (i k : Str) (d : Dict V) → Fresh i d → Fresh i (remove k d)
  unfolding remove
  Fresh-remove i k [] h = tt
  Fresh-remove i k ((j, w) ∷ d) h = ground (arith, Fresh-remove i k d h.1)

  pub remove-DistinctKeys : (k : Str) (d : Dict V) → DistinctKeys d → DistinctKeys (remove k d)
  unfolding remove
  remove-DistinctKeys k [] h = tt
  remove-DistinctKeys k ((j, w) ∷ d) h =
      ground (arith, remove-DistinctKeys k d h.1, Fresh-remove j k d h.0)

  -- Inserting a fresh key appends.
  pub insert-Fresh : (k : Str) (v : V) (d : Dict V) → Fresh k d → insert k v d ≡ d ++ ((k, v) ∷ [])
  unfolding insert
  insert-Fresh k v [] h = refl
  insert-Fresh k v ((j, w) ∷ d) h = rw (h.0, insert-Fresh k v d h.1)
