-- ===== src/Node/Mesh/Json.antt =====
-- The JSON arrays of `to_json_array`, read back.
use entmoot.Common.{
  ℕ, ◌≡◌, refl, ap, ◌≤◌, ◌<◌, Bool, true, false, digits, Option, none, some, List, [], ◌∷◌, ◌++◌,
  map, append-nil, append_assoc, Str, codes, join, ltb, ◌==◌, ◌||◌, All, if◌then◌else◌, arith,
  Bool-cases, inl, inr,
}
use entmoot.Node.Mesh.{debug_ascii, debug_chars, debug, to_json_array}

-- A reader of JSON arrays of strings without control characters, byte by byte: where it stands, the items before, and the
-- current item.
pub data Place : Type 0 where
  start first item escape behind comma finished : Place

unescape : ℕ → Option ℕ
unescape c =
    if c == b'"'
    then some c
    else if c == 0x5c
    then some c
    else if c == b'n'
    then some 0x0a
    else if c == b'r'
    then some 0x0d
    else if c == b't'
    then some 0x09
    else if c == b'0'
    then some 0
    else none

read_from : Place → List Str → Str → Str → Option (List Str)
read_from finished items cur [] = some items
read_from finished items cur (c ∷ s) = none
read_from start items cur [] = none
read_from start items cur (c ∷ s) =
    let next = read_from first items [] s in if c == b'[' then next else none
read_from first items cur [] = none
read_from first items cur (c ∷ s) =
    let next = read_from item items [] s in
    let done = read_from finished items [] s in
    if c == b'"' then next else if c == b']' then done else none
read_from item items cur [] = none
read_from item items cur (c ∷ s) =
    let closed = read_from behind (items ++ (cur ∷ [])) [] s in
    let escaped = read_from escape items cur s in
    let more = read_from item items (cur ++ (c ∷ [])) s in
    if c == b'"' then closed else if c == 0x5c then escaped else if ltb c 0x20 then none else more
read_from escape items cur [] = none
read_from escape items cur (c ∷ s) = elim (unescape c) [
  | none ↦ none
  | some x ↦ read_from item items (cur ++ (x ∷ [])) s
]
read_from behind items cur [] = none
read_from behind items cur (c ∷ s) =
    let next = read_from comma items [] s in
    let done = read_from finished items [] s in
    if c == b',' then next else if c == b']' then done else none
read_from comma items cur [] = none
read_from comma items cur (c ∷ s) =
    let next = read_from item items [] s in if c == b'"' then next else none

unfoldable pub read_array : Str → Option (List Str)
unfolding read_from unescape
read_array s = read_from start [] [] s

-- An ASCII character that JSON and `{:?}` write alike.
abbrev pub IsPlain : Str → Type 0
IsPlain = All (λ b. (0x20 ≤ b) × (b < 0x7f))

debug_ascii-quoted : (b : ℕ) → (b == b'"' || b == 0x5c) ≡ true → debug_ascii b ≡ 0x5c ∷ b ∷ []
unfolding debug_ascii
debug_ascii-quoted b e = ground arith

debug_ascii-itself :
    (b : ℕ) → (0x20 ≤ b) × (b < 0x7f) → (b == b'"' || b == 0x5c) ≡ false → debug_ascii b ≡ b ∷ []
unfolding debug_ascii
debug_ascii-itself b h e = ground arith

unescape-quoted : (b : ℕ) → (b == b'"' || b == 0x5c) ≡ true → unescape b ≡ some b
unfolding unescape
unescape-quoted b e = ground arith

read-item :
    (b : ℕ) (items : List Str) (cur rest : Str)
    → 0x20 ≤ b
    → (b == b'"' || b == 0x5c) ≡ false
    → read_from item items cur (b ∷ rest) ≡ read_from item items (cur ++ (b ∷ [])) rest
unfolding read_from
read-item b items cur rest l e = ground arith

read-escape :
    (b : ℕ) (items : List Str) (cur rest : Str)
    → unescape b ≡ some b
    → read_from item items cur (0x5c ∷ b ∷ rest) ≡ read_from item items (cur ++ (b ∷ [])) rest
unfolding read_from
read-escape b items cur rest e = ground (arith, e)

read-debug_ascii :
    (b : ℕ) (items : List Str) (cur rest : Str)
    → (0x20 ≤ b) × (b < 0x7f)
    → read_from item items cur (debug_ascii b ++ rest) ≡ read_from item items (cur ++ (b ∷ [])) rest
read-debug_ascii b items cur rest h = elim (Bool-cases (b == b'"' || b == 0x5c)) [
  | inl e ↦ rw (debug_ascii-quoted b e) (read-escape b items cur rest (unescape-quoted b e))
  | inr e ↦ rw (debug_ascii-itself b h e) (read-item b items cur rest h.0 e)
]

module _ (debug_wide : Str → Str) where
  read-debug_chars :
      (s : Str) (items : List Str) (cur rest : Str)
      → IsPlain s
      → read_from item items cur (debug_chars debug_wide 0 [] s ++ rest)
        ≡ read_from item items (cur ++ s) rest
  unfolding debug_chars
  read-debug_chars [] items cur rest h = rw (append-nil cur)
  read-debug_chars (b ∷ s) items cur rest h =
      let narrow : ltb b 0x80 ≡ true = ground arith in
      rw (
        narrow,
        append_assoc (debug_ascii b) (debug_chars debug_wide 0 [] s) rest,
        read-debug_ascii b items cur (debug_chars debug_wide 0 [] s ++ rest) h.0,
        read-debug_chars s items (cur ++ (b ∷ [])) rest h.1,
        append_assoc cur (b ∷ []) s,
      )

  -- What stands behind the first item: the others, each behind a comma, and the end.
  tail_of : List Str → Str
  tail_of [] = codes "]"
  tail_of (x ∷ xs) = b',' ∷ (debug debug_wide x ++ tail_of xs)

  join-tail_of :
      (x : Str) (xs : List Str)
      → join b',' (map (debug debug_wide) (x ∷ xs)) ++ codes "]" ≡ debug debug_wide x ++ tail_of xs
  unfolding join tail_of
  join-tail_of x [] = refl
  join-tail_of x (y ∷ ys) =
      simp (append_assoc) (ap (λ (r : Str). debug debug_wide x ++ (b',' ∷ r)) (join-tail_of y ys))

  read-item_rest :
      (x : Str) (items : List Str) (rest : Str)
      → IsPlain x
      → read_from item items [] (debug_chars debug_wide 0 [] x ++ (b'"' ∷ rest))
        ≡ read_from behind (items ++ (x ∷ [])) [] rest
  unfolding read_from
  read-item_rest x items rest h = read-debug_chars x items [] (b'"' ∷ rest) h

  read-tail_of :
      (xs items : List Str)
      → All IsPlain xs
      → read_from behind items [] (tail_of xs) ≡ some (items ++ xs)
  unfolding tail_of read_from debug
  read-tail_of [] items h = rw (append-nil items)
  read-tail_of (x ∷ xs) items h = rw (
    append_assoc (debug_chars debug_wide 0 [] x) (b'"' ∷ []) (tail_of xs),
    read-item_rest x items (tail_of xs) h.0,
    read-tail_of xs (items ++ (x ∷ [])) h.1,
    append_assoc items (x ∷ []) xs,
  )

  -- JSON arrays of plain endpoints read back as the endpoints, whatever quotes and commas they hold.
  pub read_array-to_json_array :
      (items : List Str)
      → All IsPlain items
      → read_array (to_json_array debug_wide items) ≡ some items
  unfolding read_array to_json_array read_from
  read_array-to_json_array [] h = unfold join in refl
  read_array-to_json_array (x ∷ xs) h = rw (
    join-tail_of x xs,
    append_assoc (debug_chars debug_wide 0 [] x) (b'"' ∷ []) (tail_of xs),
    read-item_rest x [] (tail_of xs) h.0,
    read-tail_of xs (x ∷ []) h.1,
  )

-- The values that `zenoh_config` writes, and how JSON5 reads them; a number as its decimal digits.
pub data Json : Type 0 where
  text number : Str → Json
  flag : Bool → Json
  texts : List Str → Json

pub data Reads : Str → Json → Type 0 where
  peer : Reads (codes "\"peer\"") (text (codes "peer"))
  off : Reads (codes "false") (flag false)
  decimal : (n : ℕ) → Reads (digits 20 n) (number (digits 20 n))
  array : {s : Str} {items : List Str} → read_array s ≡ some items → Reads s (texts items)
