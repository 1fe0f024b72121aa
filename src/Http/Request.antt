-- ===== src/Http/Request.antt =====
-- What the health endpoint takes from a request.
use entmoot.Common.{
  Lacks-of_all, ◌+◌, ◌^◌, ◌<◌, ◌≤◌, ◌≡◌, refl, ap, true, false, ◌||◌, none, some, List, [], ◌∷◌,
  ◌++◌, Str, Bytes, codes, length, length-append, is_empty, str_eq, All, arith, ◌==◌, if◌then◌else◌,
  ltb, Lacks, Bool-cases, inl, inr, append-nil, append_assoc, All-append,
}
use entmoot.Codec.{from_utf8_lossy, lossy_run}
use entmoot.Http.{respond, health_answer, path_of, split_whitespace, line, first_line, in_range}
use entmoot.Http.Reading.{read_answer, read_answer-respond}

-- A word of printable ASCII.
abbrev pub IsWord : Str → Type 0
IsWord = All (λ b. (0x21 ≤ b) × (b < 0x7f))

-- The characters of ASCII are its bytes.
abbrev singles : Str → List Str
singles [] = []
singles (b ∷ s) = (b ∷ []) ∷ singles s

lossy_ascii :
    (s rest : Bytes)
    → All (λ b. b < 0x80) s
    → from_utf8_lossy (s ++ rest) ≡ singles s ++ from_utf8_lossy rest
unfolding from_utf8_lossy lossy_run
lossy_ascii [] rest h = refl
lossy_ascii (b ∷ s) rest h =
    let small : ltb b 0x80 ≡ true = ground arith in rw (small, lossy_ascii s rest h.1)

line-singles :
    (s : Str) (cs : List Str) → Lacks 0x0a s → line (singles s ++ cs) ≡ singles s ++ line cs
unfolding line str_eq
line-singles [] cs h = refl
line-singles (b ∷ s) cs h = rw (h.0, line-singles s cs h.1)

singles-append : (s t : Str) → singles (s ++ t) ≡ singles s ++ singles t
singles-append [] t = refl
singles-append (b ∷ s) t = ap (◌∷◌ (b ∷ [])) (singles-append s t)

split-word :
    (word s : Str) (cs : List Str)
    → IsWord s
    → split_whitespace word (singles s ++ cs) ≡ split_whitespace (word ++ s) cs
unfolding split_whitespace
split-word word [] cs h = rw (append-nil word)
split-word word (b ∷ s) cs h =
    let dark : (in_range 0x09 0x0d b || b == 0x20) ≡ false = ground arith in
    rw (dark, split-word (word ++ (b ∷ [])) s cs h.1, append_assoc word (b ∷ []) s)

split-space :
    (word : Str) (cs : List Str)
    → is_empty word ≡ false
    → split_whitespace word ((0x20 ∷ []) ∷ cs) ≡ word ∷ split_whitespace [] cs
unfolding split_whitespace
split-space word cs h = rw h

-- What stands before the rest of a request line.
abbrev opening : Str → Str → Str
opening method path = method ++ (0x20 ∷ (path ++ (0x20 ∷ [])))

word-ascii : (s : Str) → IsWord s → All (λ b. b < 0x80) s × Lacks 0x0a s
word-ascii [] h = (tt, tt)
word-ascii (b ∷ s) h = let (p, q) = word-ascii s h.1 in ((omega arith, p), (ground arith, q))

opening-ascii :
    (method path : Str)
    → IsWord method
    → IsWord path
    → All (λ b. b < 0x80) (opening method path) × Lacks 0x0a (opening method path)
opening-ascii method path hm hp =
    let (a, l) = word-ascii method hm in
    let (b, k) = word-ascii path hp in
    (
      All-append _ method _ a (omega arith, All-append _ path _ b (omega arith, tt)),
      All-append _ method _ l (refl, All-append _ path _ k (refl, tt)),
    )

words-opening :
    (method path : Str) (cs : List Str)
    → IsWord method
    → IsWord path
    → is_empty method ≡ false
    → is_empty path ≡ false
    → split_whitespace [] (singles (opening method path) ++ cs)
      ≡ method ∷ path ∷ split_whitespace [] cs
words-opening method path cs hm hp em ep =
    let sp : Str = 0x20 ∷ [] in
    let same : singles (opening method path) ++ cs
        ≡ singles method ++ (sp ∷ (singles path ++ (sp ∷ cs))) =
      rw (singles-append method (0x20 ∷ (path ++ (0x20 ∷ []))), singles-append path (0x20 ∷ []))
        (simp append_assoc) in
    rw (
      same,
      split-word [] method (sp ∷ (singles path ++ (sp ∷ cs))) hm,
      split-space method (singles path ++ (sp ∷ cs)) em,
      split-word [] path (sp ∷ cs) hp,
      split-space path cs ep,
    )

first_line-cons : (cs : List Str) → is_empty cs ≡ false → first_line cs ≡ some (line cs)
first_line-cons [] h = cc
first_line-cons (c ∷ cs) h = refl

not_empty :
    (s t : Str) (cs : List Str) → is_empty s ≡ false → is_empty (singles (s ++ t) ++ cs) ≡ false
not_empty [] t cs h = cc
not_empty (b ∷ s) t cs h = refl

path_of-request :
    (method path rest : Str)
    → IsWord method
    → IsWord path
    → is_empty method ≡ false
    → is_empty path ≡ false
    → path_of (method ++ (0x20 ∷ (path ++ (0x20 ∷ rest)))) ≡ path
unfolding path_of
path_of-request method path rest hm hp em ep =
    let same : method ++ (0x20 ∷ (path ++ (0x20 ∷ rest))) ≡ opening method path ++ rest =
      simp append_assoc in
    let (ascii, lacks) = opening-ascii method path hm hp in
    let cs = from_utf8_lossy rest in
    rw (
      same,
      lossy_ascii (opening method path) rest ascii,
      first_line-cons (singles (opening method path) ++ cs) (not_empty method _ cs em),
      line-singles (opening method path) cs lacks,
      words-opening method path (line cs) hm hp em ep,
    )

abbrev pub status_of : Str → Str
status_of status = codes "HTTP/1.1 " ++ (status ++ (0x0d ∷ []))

abbrev pub ready : Str → Str → Str
ready id zid = codes "ready node=" ++ (id ++ (codes " zid=" ++ (zid ++ (0x0a ∷ []))))

no_path : path_of [] ≡ codes "/"
unfolding path_of from_utf8_lossy
no_path = refl

abbrev found : Bytes → Bytes
found body = respond (codes "200 OK") (codes "text/plain; charset=utf-8") body

abbrev missing : Bytes
missing =
    respond (codes "404 Not Found") (codes "text/plain; charset=utf-8")
      (codes "not found" ++ (0x0a ∷ []))

text_Lacks : Lacks 0x0a (codes "text/plain; charset=utf-8")
text_Lacks = Lacks-of_all 0x0a (codes "text/plain; charset=utf-8") refl

read_answer-found :
    (body : Str)
    → length body < 10 ^ 20
    → read_answer (found body) ≡ some (status_of (codes "200 OK"), body)
read_answer-found body h =
    read_answer-respond (codes "200 OK") (codes "text/plain; charset=utf-8") body
      (Lacks-of_all 0x0a (codes "200 OK") refl) text_Lacks h

read_answer-missing :
    read_answer missing ≡ some (status_of (codes "404 Not Found"), codes "not found" ++ (0x0a ∷ []))
read_answer-missing =
    read_answer-respond (codes "404 Not Found") (codes "text/plain; charset=utf-8")
      (codes "not found" ++ (0x0a ∷ [])) (Lacks-of_all 0x0a (codes "404 Not Found") refl) text_Lacks
      (omega arith)

length-ready : (id zid : Str) → length id + length zid < 2 ^ 64 → length (ready id zid) < 10 ^ 20
length-ready id zid h = omega (
  arith,
  length-append {0} id (codes " zid=" ++ (zid ++ (0x0a ∷ []))),
  length-append {0} zid (0x0a ∷ []),
)

-- Whatever follows the path in the request, a probe of `/healthz` reads that the node is well, one of
-- `/readyz` which node and session are ready, and one of any other path that there is nothing. So
-- does one whose request cannot be read.
pub health_answer-read :
    (id zid method path rest : Str)
    → IsWord method
    → IsWord path
    → is_empty method ≡ false
    → is_empty path ≡ false
    → length id + length zid < 2 ^ 64
    → (read_answer (health_answer id zid (some (method ++ (0x20 ∷ (path ++ (0x20 ∷ rest))))))
        ≡ some (
            if str_eq path (codes "/healthz")
            then (status_of (codes "200 OK"), codes "ok" ++ (0x0a ∷ []))
            else if str_eq path (codes "/readyz")
            then (status_of (codes "200 OK"), ready id zid)
            else (status_of (codes "404 Not Found"), codes "not found" ++ (0x0a ∷ []))))
      × (read_answer (health_answer id zid none)
          ≡ some (status_of (codes "404 Not Found"), codes "not found" ++ (0x0a ∷ [])))
unfolding health_answer str_eq
health_answer-read id zid method path rest hm hp em ep fits = (
  rw (path_of-request method path rest hm hp em ep)
      (elim (Bool-cases (str_eq path (codes "/healthz"))) [
        | inl e ↦ rw e (read_answer-found (codes "ok" ++ (0x0a ∷ [])) (omega arith))
        | inr e ↦ elim (Bool-cases (str_eq path (codes "/readyz"))) [
          | inl f ↦ rw (e, f) (read_answer-found (ready id zid) (length-ready id zid fits))
          | inr f ↦ rw (e, f) read_answer-missing
        ]
      ]),
  rw no_path read_answer-missing,
)
