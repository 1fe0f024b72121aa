-- ===== src/Connection/Framing/Chunking.antt =====
-- The packets that are read do not depend on how the network cuts the bytes.
use entmoot.Common.{
  ℕ, zero, suc, ◌≡◌, ◌≢◌, refl, sym, ap, ◌∙◌, subst, false, some, List, [], ◌∷◌, ◌++◌, append_assoc,
  append-nil, map, Result, ◌⊎◌, inl, inr, ok, err, Bytes, All, is_empty,
}
use entmoot.Mqtt.{Packet}
use entmoot.Connection.Framing.{
  Parsed, complete, insufficient, malformed, FrameError, closed_by_peer, bad_packet, Stream,
  read_from, read_packets,
}

-- The bytes of a stream that is cut into these pieces.
abbrev pub glue : List Bytes → Bytes
glue [] = []
glue (c ∷ cs) = c ++ glue cs

abbrev pub as_stream : List Bytes → Stream
as_stream = map some

-- What `v4::read` promises: bytes that follow a packet, or a malformed one, change nothing but what is
-- left in the buffer.
pub record IsIncremental (parse : Bytes → Parsed) : Type 0 where
  pub on_complete :
      (x y rest : Bytes) (p : Packet)
      → parse x ≡ complete p rest
      → parse (x ++ y) ≡ complete p (rest ++ y)
  pub on_malformed :
      (x y rest : Bytes)
      → parse x ≡ malformed rest
      → (left : Bytes) × (parse (x ++ y) ≡ malformed left)

module _ (parse : Bytes → Parsed) where
  is_empty-eq-false : (c : Bytes) → c ≢ [] → is_empty c ≡ false
  is_empty-eq-false [] n = absurd (n refl)
  is_empty-eq-false (x ∷ c) n = refl

  -- What a whole buffer holds first.
  pub whole : Parsed → Result Packet FrameError
  whole (complete p rest) = ok p
  whole insufficient = err closed_by_peer
  whole (malformed rest) = err bad_packet

  pub IsCut : Bytes → Result Packet FrameError × Bytes × Stream → Type 0
  IsCut bytes (ok p, rest, stream) =
      (pieces : List Bytes) × (stream ≡ as_stream pieces)
      × All (λ c. c ≢ []) pieces
      × (parse bytes ≡ complete p (rest ++ glue pieces))
  IsCut bytes (err e, rest, stream) = whole (parse bytes) ≡ err e

  Parsed-cases :
      (q : Parsed)
      → ((p : Packet) × (rest : Bytes) × (q ≡ complete p rest))
        ⊎ ((q ≡ insufficient) ⊎ ((rest : Bytes) × (q ≡ malformed rest)))
  Parsed-cases (complete p rest) = inl (p, rest, refl)
  Parsed-cases insufficient = inr (inl refl)
  Parsed-cases (malformed rest) = inr (inr (rest, refl))

  read_from-IsCut :
      IsIncremental parse
      → (pieces : List Bytes) (buf : Bytes) → All (λ c. c ≢ []) pieces
      → IsCut (buf ++ glue pieces) (read_from parse buf (as_stream pieces))
  unfolding read_from IsCut whole
  read_from-IsCut h [] buf ne =
      subst (λ x. IsCut x (read_from parse buf [])) (sym (append-nil buf))
        (elim (Parsed-cases (parse buf)) [
          | inl (p, rest, e) ↦
              rw (e, read_from, IsCut) ([], refl, tt, e ∙ ap (complete p) (sym (append-nil rest)))
          | inr (inl e) ↦ rw (e, read_from, IsCut) (ap whole e)
          | inr (inr (rest, e)) ↦ rw (e, read_from, IsCut) (ap whole e)
        ])
  read_from-IsCut h (c ∷ pieces) buf ne = elim (Parsed-cases (parse buf)) [
    | inl (p, rest, e) ↦
        rw (e, read_from) (c ∷ pieces, refl, ne, h.on_complete buf (c ++ glue pieces) rest p e)
    | inr (inl e) ↦
        rw (e, read_from, is_empty-eq-false c ne.0)
          (subst (λ x. IsCut x (read_from parse (buf ++ c) (as_stream pieces)))
            (append_assoc buf c (glue pieces)) (read_from-IsCut h pieces (buf ++ c) ne.1))
    | inr (inr (rest, e)) ↦
        let (left, q) = h.on_malformed buf (c ++ glue pieces) rest e in
        rw (e, read_from) (ap whole q)
  ]

  -- The packets in a buffer that holds all the bytes.
  unfoldable pub parse_packets : ℕ → Bytes → List Packet
  parse_packets zero bytes = []
  parse_packets (suc n) bytes = elim (parse bytes) [
    | complete p rest ↦ p ∷ parse_packets n rest
    | insufficient ↦ []
    | malformed rest ↦ []
  ]

  parse_packets-nil :
      (n : ℕ) (bytes : Bytes) (e : FrameError)
      → whole (parse bytes) ≡ err e
      → parse_packets (suc n) bytes ≡ []
  unfolding parse_packets whole
  parse_packets-nil n bytes e w = elim (Parsed-cases (parse bytes)) [
    | inl (p, rest, q) ↦ cc (w, q)
    | inr (inl q) ↦ rw (q, parse_packets) refl
    | inr (inr (rest, q)) ↦ rw (q, parse_packets) refl
  ]

  -- However the network cuts the bytes, a connection reads the packets that it would read if it had
  -- all the bytes at once, up to the first that is malformed or has not come in full. The parser is
  -- incremental, and no read yields nothing before the end.
  pub read_packets-as_stream :
      IsIncremental parse
      → (n : ℕ) (pieces : List Bytes) (buf : Bytes) → All (λ c. c ≢ []) pieces
      → read_packets parse n buf (as_stream pieces) ≡ parse_packets n (buf ++ glue pieces)
  unfolding read_packets parse_packets IsCut whole
  read_packets-as_stream h zero pieces buf ne = refl
  read_packets-as_stream h (suc n) pieces buf ne =
      go (λ left rest ne'. read_packets-as_stream h n left rest ne')
        (read_from parse buf (as_stream pieces)) refl
    where
      go :
          ((left : List Bytes) (rest : Bytes)
            → All (λ c. c ≢ []) left
            → read_packets parse n rest (as_stream left) ≡ parse_packets n (rest ++ glue left))
          → (r : Result Packet FrameError × Bytes × Stream)
          → read_from parse buf (as_stream pieces) ≡ r
          → read_packets parse (suc n) buf (as_stream pieces)
            ≡ parse_packets (suc n) (buf ++ glue pieces)
      go ih (ok p, rest, stream) e =
          let (left, s, ne', q) =
            subst (IsCut (buf ++ glue pieces)) e (read_from-IsCut h pieces buf ne) in
          rw (e, q, read_packets, parse_packets)
            (ap (λ l. p ∷ l)
              (ap (λ (x : Result Packet FrameError × Bytes × Stream). read_packets parse n x.1 x.2)
                  e
                ∙ ap (read_packets parse n rest) s
                ∙ ih left rest ne'))
      go ih (err f, rest, stream) e =
          let w = subst (IsCut (buf ++ glue pieces)) e (read_from-IsCut h pieces buf ne) in
          rw (e, read_packets) (sym (parse_packets-nil n (buf ++ glue pieces) f w))
