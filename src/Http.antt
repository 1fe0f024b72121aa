-- ===== src/Http.antt =====
-- The answers of the two small HTTP endpoints (`serve` of crates/entmoot-node/src/metrics.rs and of
-- crates/entmoot-node/src/health.rs). What a read of the socket gives is an argument.
pub mod Reading
pub mod Request
mod Runs
use entmoot.Common.{
  ℕ, ◌+◌, ◌-◌, Bool, true, false, ◌&&◌, ◌||◌, Option, none, some, List, [], ◌∷◌, ◌++◌, Str, Bytes,
  codes, digits, length, get_elem?, is_empty, str_eq, and_then, leb, ◌==◌, if◌then◌else◌,
}
use entmoot.Codec.{from_utf8_lossy}
use entmoot.Metrics.Page.{Sample, render}

abbrev pub crlf : Str
crlf = 0x0d ∷ 0x0a ∷ []

-- A status, a type and a body as the two `format!`s put them.
unfoldable pub respond : Str → Str → Str → Bytes
respond status content_type body =
    codes "HTTP/1.1 "
    ++ (status
        ++ (crlf
            ++ (codes "Content-Type: "
                ++ (content_type
                    ++ (crlf
                        ++ (codes "Content-Length: "
                            ++ (digits 20 (length body)
                                ++ (crlf
                                    ++ (codes "Connection: close"
                                        ++ (crlf ++ (crlf ++ body)))))))))))

-- Every request gets the page.
unfoldable pub metrics_answer : Sample → Bytes
metrics_answer sample =
    respond (codes "200 OK") (codes "text/plain; version=0.0.4; charset=utf-8") (render sample)

abbrev in_range : ℕ → ℕ → ℕ → Bool
in_range lo hi c = leb lo c && leb c hi

-- `char::is_whitespace`, of a character as its bytes.
unfoldable pub is_whitespace : Str → Bool
is_whitespace [] = false
is_whitespace (a ∷ []) = in_range 0x09 0x0d a || a == 0x20
is_whitespace (a ∷ b ∷ []) = a == 0xc2 && (b == 0x85 || b == 0xa0)
is_whitespace (a ∷ b ∷ c ∷ []) =
    (a == 0xe1 && b == 0x9a && c == 0x80)
    || (a == 0xe2 && b == 0x80 && (in_range 0x80 0x8a c || c == 0xa8 || c == 0xa9 || c == 0xaf))
    || (a == 0xe2 && b == 0x81 && c == 0x9f)
    || (a == 0xe3 && b == 0x80 && c == 0x80)
is_whitespace (a ∷ b ∷ c ∷ d ∷ s) = false

-- `text.split_whitespace()` behind a word that has begun.
unfoldable pub split_whitespace : Str → List Str → List Str
unfolding is_whitespace
split_whitespace word [] = if is_empty word then [] else word ∷ []
split_whitespace word (c ∷ cs) =
    let next = split_whitespace [] cs in
    let longer = split_whitespace (word ++ c) cs in
    if is_whitespace c then (if is_empty word then next else word ∷ next) else longer

-- The characters before the first line feed. A `\r` there, which `lines` drops, is whitespace.
unfoldable pub line : List Str → List Str
line [] = []
line (c ∷ cs) = let rest = line cs in if str_eq c (0x0a ∷ []) then [] else c ∷ rest

-- `text.lines().next()`
abbrev pub first_line : List Str → Option (List Str)
first_line [] = none
first_line (c ∷ cs) = some (line (c ∷ cs))

abbrev pub or_default : Str → Option Str → Str
or_default d none = d
or_default d (some s) = s

unfoldable pub path_of : Bytes → Str
unfolding split_whitespace line
path_of request =
    or_default (codes "/")
      (and_then (first_line (from_utf8_lossy request)) (λ l. get_elem? (split_whitespace [] l) 1))

-- The answer to what was read: nothing, if the read failed or took too long.
unfoldable pub health_answer : Str → Str → Option Bytes → Bytes
unfolding path_of
health_answer id zid request =
    let path = path_of (elim request [ none ↦ [] | some bytes ↦ bytes ]) in
    let text = codes "text/plain; charset=utf-8" in
    if str_eq path (codes "/healthz")
    then respond (codes "200 OK") text (codes "ok" ++ (0x0a ∷ []))
    else if str_eq path (codes "/readyz")
    then respond (codes "200 OK") text
        (codes "ready node=" ++ (id ++ (codes " zid=" ++ (zid ++ (0x0a ∷ [])))))
    else respond (codes "404 Not Found") text (codes "not found" ++ (0x0a ∷ []))
