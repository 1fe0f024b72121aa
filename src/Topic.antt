-- ===== src/Topic.antt =====
-- crates/entmoot-core/src/topic.rs: MQTT topics and filters, and the key expressions of the bus.
pub mod Levels
pub mod RoundTrip
pub mod Keyspaces
pub mod Matching
pub mod Coverage
pub mod Chunks
pub mod Routing
mod Runs
use mathlib.Core.Option
use entmoot.Common.{
  ℕ, suc, ◌-◌, ◌&&◌, Bool, true, false, ◌||◌, Option, none, some, List, [], ◌∷◌, ◌++◌, Result, ok,
  err, ◌>>=◌, and_then, Str, codes, slash, is_empty, str_eq, strip_prefix, split, join, contains,
  any, length, get_elem?, ◌==◌, leb, if◌then◌else◌,
}

pub data TopicError : Type 0 where
  empty empty_level hash_not_last : TopicError
  wildcard_in_topic reserved_char : ℕ → TopicError
  partial_wildcard : Str → TopicError

abbrev pub plus_level : Str
plus_level = codes "+"

abbrev pub hash_level : Str
hash_level = codes "#"

abbrev pub retained_chunk : Str
retained_chunk = codes "@retained"

abbrev pub sys_prefix : Str
sys_prefix = codes "$SYS"

abbrev pub sys_chunk : Str
sys_chunk = codes "@sys"

abbrev pub meta_prefix : Str
meta_prefix = codes "$meta"

abbrev pub meta_chunk : Str
meta_chunk = codes "@meta"

-- `level.starts_with('@')`
abbrev pub starts_with_at : Str → Bool
starts_with_at [] = false
starts_with_at (c ∷ s) = c == b'@'

abbrev pub is_reserved : ℕ → Bool
is_reserved c = c == b'*' || c == b'$' || c == b'?'

-- The loop over `level.chars()`. The reserved characters are ASCII, so it runs over the bytes.
check_chars : Str → Result (Unit {0}) TopicError
check_chars [] = ok tt
check_chars (c ∷ s) = if is_reserved c then err (reserved_char c) else check_chars s

unfoldable pub check_level_chars : Str → Result (Unit {0}) TopicError
unfolding check_chars
check_level_chars level =
    if starts_with_at level then err (reserved_char b'@') else check_chars level

unfoldable pub levels : Str → Result (List Str) TopicError
levels s =
    if is_empty s
    then err empty
    else (let parts = split slash s in if any is_empty parts then err empty_level else ok parts)

unfoldable pub scoped : Str → Str → Str
scoped scope ke = if is_empty scope then ke else scope ++ (slash ∷ ke)

-- One round of the loop of `topic_to_keyexpr`.
check_topic_level : Str → Result (Unit {0}) TopicError
check_topic_level level =
    if contains b'+' level
    then err (wildcard_in_topic b'+')
    else if contains b'#' level
    then err (wildcard_in_topic b'#')
    else check_level_chars level

unfoldable pub check_topic_levels : List Str → Result (Unit {0}) TopicError
unfolding check_topic_level
check_topic_levels [] = ok tt
check_topic_levels (level ∷ rest) = do _ ← check_topic_level level; check_topic_levels rest

unfoldable pub topic_to_keyexpr : Str → Str → Result Str TopicError
topic_to_keyexpr topic scope = do
  parts ← levels topic
  _ ← check_topic_levels parts
  ok (scoped scope (join slash parts))

-- One round of the loop of `filter_to_keyexpr`: what is pushed for the level at `i`.
unfoldable pub filter_chunk : ℕ → ℕ → Str → Result Str TopicError
filter_chunk i last level =
    if i == 0 && str_eq level sys_prefix
    then ok sys_chunk
    else if i == 0 && str_eq level meta_prefix
    then ok meta_chunk
    else if str_eq level plus_level
    then ok (codes "*")
    else if str_eq level hash_level
    then (if i == last then ok (codes "**") else err hash_not_last)
    else if contains b'+' level || contains b'#' level
    then err (partial_wildcard level)
    else do _ ← check_level_chars level; ok level

unfoldable pub filter_chunks : ℕ → ℕ → List Str → Result (List Str) TopicError
filter_chunks i last [] = ok []
filter_chunks i last (level ∷ rest) = do
  chunk ← filter_chunk i last level
  out ← filter_chunks (suc i) last rest
  ok (chunk ∷ out)

unfoldable pub filter_to_keyexpr : Str → Str → Result Str TopicError
filter_to_keyexpr filter scope = do
  parts ← levels filter
  out ← filter_chunks 0 (length parts - 1) parts
  ok (scoped scope (join slash out))

unfoldable pub strip_scope : Str → Str → Option Str
strip_scope ke scope =
    if is_empty scope then some ke else and_then (strip_prefix scope ke) (strip_prefix (slash ∷ []))

-- `prefix/rest` for the text behind a chunk, which must go on with a slash.
abbrev surface : Str → Str → Option Str
surface prefix s = Option.map (λ rest. prefix ++ (slash ∷ rest)) (strip_prefix (slash ∷ []) s)

-- The body of `keyexpr_to_topic` behind the scope.
unscoped_to_topic : Str → Option Str
unscoped_to_topic rest = elim (strip_prefix sys_chunk rest) [
  | some sys ↦ surface sys_prefix sys
  | none ↦ elim (strip_prefix meta_chunk rest) [
    | some meta ↦ surface meta_prefix meta
    | none ↦ if starts_with_at rest then none else some rest
  ]
]

unfoldable pub keyexpr_to_topic : Str → Str → Option Str
unfolding unscoped_to_topic
keyexpr_to_topic ke scope = and_then (strip_scope ke scope) unscoped_to_topic

-- The loop of `topic_matches` from the level `i` of the filter on, which has `n` levels in all.
unfoldable pub matches_from : ℕ → ℕ → List Str → List Str → Bool
matches_from i n [] t = n == length t
matches_from i n (level ∷ f) t =
    let rest = matches_from (suc i) n f t in
    if str_eq level hash_level
    then true
    else if str_eq level plus_level
    then (if leb (length t) i then false else rest)
    else elim (get_elem? t i) [ none ↦ false | some l ↦ if str_eq l level then rest else false ]

unfoldable pub topic_matches : Str → Str → Bool
topic_matches filter topic_name =
    let f = split slash filter in matches_from 0 (length f) f (split slash topic_name)

-- The loop of `filter_covers`. Both lists are read at the same `idx`, so that the state is what is
-- left of each.
unfoldable pub covers_levels : List Str → List Str → Bool
covers_levels [] [] = true
covers_levels [] (i ∷ inner) = false
covers_levels (o ∷ outer) [] = str_eq o hash_level
covers_levels (o ∷ outer) (i ∷ inner) =
    let rest = covers_levels outer inner in
    if str_eq o hash_level
    then true
    else if str_eq o plus_level
    then (if str_eq i hash_level then false else rest)
    else if str_eq o i
    then rest
    else false

unfoldable pub filter_covers : Str → Str → Bool
filter_covers outer inner = covers_levels (split slash outer) (split slash inner)

-- `format!("{chunk}/{rest}")`
abbrev pub under : Str → Str → Str
under chunk rest = chunk ++ (slash ∷ rest)

unfoldable pub retained_keyexpr : Str → Str → Str
retained_keyexpr topic_name scope = scoped scope (under retained_chunk topic_name)

unfoldable pub retained_filter : Str → Str
retained_filter scope = scoped scope (under retained_chunk (codes "**"))

unfoldable pub retained_keyexpr_to_topic : Str → Str → Option Str
retained_keyexpr_to_topic ke scope =
    and_then (and_then (strip_scope ke scope) (strip_prefix retained_chunk))
      (strip_prefix (slash ∷ []))

unfoldable pub sys_keyexpr : Str → Str → Str
sys_keyexpr suffix scope = scoped scope (under sys_chunk suffix)

unfoldable pub meta_keyexpr : Str → Str → Str
meta_keyexpr topic_name scope = scoped scope (under meta_chunk topic_name)
