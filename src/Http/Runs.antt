-- ===== src/Http/Runs.antt =====
-- The HTTP endpoints at concrete requests.
use entmoot.Common.{
  Lacks-of_all, ◌≡◌, refl, none, some, [], ◌∷◌, ◌++◌, codes, str_eq, if◌then◌else◌, arith,
}
use entmoot.Codec.{from_utf8_lossy, replacement}
use entmoot.Http.{health_answer, path_of, respond}
use entmoot.Http.Reading.{read_answer, read_answer-respond}
use entmoot.Http.Request.{health_answer-read, status_of, ready}

-- A truncated character, a byte that begins none, and a whole character.
lossy :
    from_utf8_lossy (0xe2 ∷ 0x82 ∷ b'a' ∷ 0xff ∷ 0xc3 ∷ 0xa9 ∷ 0xc3 ∷ [])
    ≡ replacement ∷ (b'a' ∷ []) ∷ replacement ∷ (0xc3 ∷ 0xa9 ∷ []) ∷ replacement ∷ []
unfolding from_utf8_lossy
lossy = refl

-- A space of three bytes, a request of one word, and an empty line.
paths :
    (path_of (codes "GET" ++ (0xe2 ∷ 0x80 ∷ 0x83 ∷ codes "/readyz")) ≡ codes "/readyz")
    × (path_of (codes "GET") ≡ codes "/")
    × (path_of (0x0d ∷ 0x0a ∷ codes "GET /healthz") ≡ codes "/")
unfolding path_of from_utf8_lossy str_eq
paths = (refl, refl, refl)

read_answer-respond_example :
    read_answer
      (respond (codes "200 OK") (codes "text/plain") (b'a' ∷ 0x0d ∷ 0x0a ∷ 0x0d ∷ 0x0a ∷ b'b' ∷ []))
    ≡ some (status_of (codes "200 OK"), b'a' ∷ 0x0d ∷ 0x0a ∷ 0x0d ∷ 0x0a ∷ b'b' ∷ [])
read_answer-respond_example =
    read_answer-respond (codes "200 OK") (codes "text/plain")
      (b'a' ∷ 0x0d ∷ 0x0a ∷ 0x0d ∷ 0x0a ∷ b'b' ∷ []) (Lacks-of_all 0x0a (codes "200 OK") refl)
      (Lacks-of_all 0x0a (codes "text/plain") refl) (omega arith)

health_answer-read_example :
    (read_answer (health_answer (codes "n1") (codes "af3") (some (codes "GET /readyz HTTP/1.1")))
      ≡ some (
          if str_eq (codes "/readyz") (codes "/healthz")
          then (status_of (codes "200 OK"), codes "ok" ++ (0x0a ∷ []))
          else if str_eq (codes "/readyz") (codes "/readyz")
          then (status_of (codes "200 OK"), ready (codes "n1") (codes "af3"))
          else (status_of (codes "404 Not Found"), codes "not found" ++ (0x0a ∷ []))))
    × (read_answer (health_answer (codes "n1") (codes "af3") none)
        ≡ some (status_of (codes "404 Not Found"), codes "not found" ++ (0x0a ∷ [])))
health_answer-read_example =
    health_answer-read (codes "n1") (codes "af3") (codes "GET") (codes "/readyz") (codes "HTTP/1.1")
      (omega arith) (omega arith) refl refl (omega arith)
