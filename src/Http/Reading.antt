-- ===== src/Http/Reading.antt =====
-- What a client reads of an HTTP answer.
use entmoot.Common.{
  Lacks-of_all, ℕ, zero, suc, ◌+◌, ◌-◌, ◌*◌, ◌/◌, ◌%◌, ◌^◌, ◌<◌, ◌≡◌, refl, ap, ◌∙◌, true, ◌&&◌,
  Option, none, some, List, [], ◌∷◌, ◌++◌, append_assoc, append-nil, Str, Bytes, codes, digits,
  digits-Lacks, Lacks, Lacks-append, split, split-line, join, join-split, length, take, take-append,
  strip_prefix, str_eq, leb, ltb, and_then, if◌then◌else◌, arith, sym, Bool-cases, inl, inr,
}
use native.Mathlib.Nat.{pow-suc}
use entmoot.Http.{crlf, respond}

-- A decimal number up to the end of its line.
pub read_number : ℕ → Str → ℕ
read_number acc [] = acc
read_number acc (c ∷ s) =
    let more = read_number (acc * 10 + (c - b'0')) s in
    if leb b'0' c && leb c b'9' then more else acc

-- The number behind the header, in whichever of the lines it stands.
pub content_length : List Str → Option ℕ
content_length [] = none
content_length (l ∷ ls) =
    let later = content_length ls in
    elim (strip_prefix (codes "Content-Length: ") l) [
      | none ↦ later
      | some n ↦ some (read_number 0 n)
    ]

abbrev cr : Str
cr = 0x0d ∷ []

-- The lines before the empty one, and those behind it.
pub read_head : List Str → Option (List Str × List Str)
read_head [] = none
read_head (l ∷ ls) =
    let rest = read_head ls in
    if str_eq l cr then some ([], ls) else and_then rest (λ (head, body). some (l ∷ head, body))

-- The first line, and as many bytes of the body as the header announces.
pub read_answer : Bytes → Option (Str × Str)
unfolding read_head content_length
read_answer bytes = and_then (read_head (split 0x0a bytes)) λ (head, body).
    and_then (content_length head)
      λ n. elim head [ [] ↦ none | status ∷ headers ↦ some (status, take n (join 0x0a body)) ]

read_digit :
    (acc d : ℕ) (rest : Str)
    → d < 10
    → read_number acc ((b'0' + d) ∷ rest) ≡ read_number (acc * 10 + d) rest
unfolding read_number
read_digit acc d rest h =
    let e : (b'0' + d) - b'0' ≡ d = omega arith in
    let t : (leb b'0' (b'0' + d) && leb (b'0' + d) b'9') ≡ true = ground arith in rw (t, e)

shorter : (fuel n : ℕ) → n < 10 ^ suc fuel → n / 10 < 10 ^ fuel
shorter fuel n h = omega (arith, pow-suc 10 fuel)

-- The digits of a number read as the number.
read_number-digits :
    (fuel n : ℕ) (rest : Str)
    → n < 10 ^ fuel
    → read_number 0 (digits fuel n ++ rest) ≡ read_number n rest
unfolding digits
read_number-digits zero n rest h = let e : n ≡ 0 = ground arith in rw e
read_number-digits (suc fuel) n rest h = elim (Bool-cases (ltb n 10)) [
  | inl e ↦
      let small : 0 * 10 + n % 10 ≡ n = ground arith in
      rw e (read_digit 0 (n % 10) rest (omega arith) ∙ ap (λ k. read_number k rest) small)
  | inr e ↦
      let whole : (n / 10) * 10 + n % 10 ≡ n = omega arith in
      let front : n / 10 < 10 ^ fuel = shorter fuel n h in
      rw
        (
          e,
          append_assoc (digits fuel (n / 10)) ((b'0' + n % 10) ∷ []) rest,
          read_number-digits fuel (n / 10) ((b'0' + n % 10) ∷ rest) front,
        )
        (read_digit (n / 10) (n % 10) rest (omega arith) ∙ ap (λ k. read_number k rest) whole)
]

read_number-cr : (n : ℕ) → read_number n cr ≡ n
unfolding read_number
read_number-cr n = refl

-- A line that ends as HTTP wants it.
line-crlf :
    (l rest : Str) → Lacks 0x0a l → split 0x0a (l ++ (crlf ++ rest)) ≡ (l ++ cr) ∷ split 0x0a rest
line-crlf l rest h =
    ap (split 0x0a) (sym (append_assoc l cr (0x0a ∷ rest)))
    ∙ split-line 0x0a (l ++ cr) rest (Lacks-append 0x0a l cr h (refl, tt))

take-all : (s : Str) → take (length s) s ≡ s
take-all s = ap (take (length s)) (sym (append-nil s)) ∙ take-append s []

abbrev status_line : Str → Str
status_line status = codes "HTTP/1.1 " ++ status

abbrev type_line : Str → Str
type_line content_type = codes "Content-Type: " ++ content_type

abbrev length_line : ℕ → Str
length_line n = codes "Content-Length: " ++ digits 20 n

respond-lines :
    (status content_type body : Str)
    → Lacks 0x0a status
    → Lacks 0x0a content_type
    → split 0x0a (respond status content_type body)
      ≡ (status_line status ++ cr)
        ∷ (type_line content_type ++ cr)
        ∷ (length_line (length body) ++ cr)
        ∷ (codes "Connection: close" ++ cr)
        ∷ cr
        ∷ split 0x0a body
unfolding respond
respond-lines status content_type body hs ht =
    line-crlf (status_line status) _
      (Lacks-append 0x0a (codes "HTTP/1.1 ") status (Lacks-of_all 0x0a (codes "HTTP/1.1 ") refl) hs)
    ∙ ap (◌∷◌ (status_line status ++ cr)) (
        line-crlf (type_line content_type) _ (
          Lacks-append 0x0a (codes "Content-Type: ") content_type
            (Lacks-of_all 0x0a (codes "Content-Type: ") refl) ht)
        ∙ ap (◌∷◌ (type_line content_type ++ cr)) (
            line-crlf (length_line (length body)) _ (
              Lacks-append 0x0a (codes "Content-Length: ") (digits 20 (length body))
                (Lacks-of_all 0x0a (codes "Content-Length: ") refl)
                (digits-Lacks 0x0a 20 (length body) (omega arith)))
            ∙ ap (◌∷◌ (length_line (length body) ++ cr)) (
                line-crlf (codes "Connection: close") (crlf ++ body)
                  (Lacks-of_all 0x0a (codes "Connection: close") refl)
                ∙ ap (◌∷◌ (codes "Connection: close" ++ cr)) (line-crlf [] body tt))))

-- A client of either endpoint reads the status, and the body whole and nothing besides, whatever bytes
-- the body is made of.
pub read_answer-respond :
    (status content_type body : Str)
    → Lacks 0x0a status
    → Lacks 0x0a content_type
    → length body < 10 ^ 20
    → read_answer (respond status content_type body)
      ≡ some (codes "HTTP/1.1 " ++ (status ++ cr), body)
unfolding read_answer read_head content_length str_eq strip_prefix
read_answer-respond status content_type body hs ht hb = rw (
  respond-lines status content_type body hs ht,
  read_number-digits 20 (length body) cr hb,
  join-split 0x0a body,
  read_number-cr (length body),
  take-all body,
)
