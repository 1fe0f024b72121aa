-- ===== src/Connection/Framing/Writing.antt =====
-- What a peer reads of what the writer task puts on the stream.
use entmoot.Common.{
  ℕ, zero, suc, ◌≤◌, ◌<◌, ◌^◌, ◌≡◌, refl, sym, ◌∙◌, ap, true, Option, none, some, List, [], ◌∷◌,
  ◌++◌, append-nil, Bytes, All, ◌≢◌, length, take, leb, leb_false→lt, leb→le, Option-cases,
  Bool-cases, inl, inr, if◌then◌else◌, arith,
}
use entmoot.Mqtt.{Packet, at_most_once}
use entmoot.Connection.Framing.{
  Parsed, complete, insufficient, can_encode, encode, run_writer, read_packets,
}
use entmoot.Connection.Framing.Chunking.{
  IsIncremental, as_stream, glue, parse_packets, read_packets-as_stream,
}

-- What a packet must be to come back as it was: identifiers and the length of a topic fit in 16 bits, a
-- publish at QoS 0 has no identifier, and a SUBACK has a code.
abbrev pub IsRepresentable : Packet → Type 0
IsRepresentable (Packet.publish p) =
    (p.qos ≡ at_most_once → p.pkid ≡ 0) × (p.pkid < 2 ^ 16) × (length p.topic < 2 ^ 16)
IsRepresentable (Packet.pub_ack k) = k < 2 ^ 16
IsRepresentable (Packet.pub_rec k) = k < 2 ^ 16
IsRepresentable (Packet.pub_comp k) = k < 2 ^ 16
IsRepresentable (Packet.sub_ack k codes) = (k < 2 ^ 16) × (codes ≢ [])
IsRepresentable (Packet.unsub_ack k) = k < 2 ^ 16
IsRepresentable (Packet.conn_ack code present) = Unit {0}
IsRepresentable Packet.ping_resp = Unit {0}
IsRepresentable (Packet.connect c) = Unit {0}
IsRepresentable (Packet.pub_rel k) = Unit {0}
IsRepresentable (Packet.subscribe k filters) = Unit {0}
IsRepresentable (Packet.unsubscribe k topics) = Unit {0}
IsRepresentable Packet.ping_req = Unit {0}
IsRepresentable Packet.disconnect = Unit {0}

-- A packet comes back as it was, and its bytes are no more than the peer accepts.
abbrev pub IsSendable : (Packet → Option Bytes) → ℕ → Packet → Type 0
IsSendable write limit p =
    (bytes : Bytes) → write p ≡ some bytes → IsRepresentable p × (length bytes ≤ limit)

-- What mqttbytes promises of its `write`s and its `read` with a limit: such a packet is read back,
-- whatever follows it, and a part of it waits for the rest.
pub record IsWire (write : Packet → Option Bytes) (limit : ℕ) (parse : Bytes → Parsed)
    : Type 0 where
  pub reads_back :
      (p : Packet) (bytes rest : Bytes)
      → can_encode p ≡ true
      → write p ≡ some bytes
      → IsRepresentable p
      → length bytes ≤ limit
      → parse (bytes ++ rest) ≡ complete p rest
  pub waits :
      (p : Packet) (bytes : Bytes) (k : ℕ)
      → can_encode p ≡ true
      → write p ≡ some bytes
      → length bytes ≤ limit
      → k < length bytes
      → parse (take k bytes) ≡ insufficient
  pub idle : parse [] ≡ insufficient

module _ (write : Packet → Option Bytes) (limit : ℕ) (parse : Bytes → Parsed) where
  -- The packets that can be encoded, up to the first whose write fails before its last byte.
  abbrev pub delivered : (ℕ → Option ℕ) → ℕ → List Packet → List Packet
  delivered breaks n [] = []
  delivered breaks n (p ∷ ps) =
      let left_out = delivered breaks n ps in
      let more = delivered breaks (suc n) ps in
      elim (encode write p) [
        | none ↦ left_out
        | some out ↦ elim (breaks n) [
          | none ↦ p ∷ more
          | some k ↦ if leb (length out) k then p ∷ [] else []
        ]
      ]

  take-whole : (k : ℕ) (s : Bytes) → length s ≤ k → take k s ≡ s
  take-whole zero [] h = refl
  take-whole (suc k) [] h = refl
  take-whole zero (b ∷ s) h = absurd (omega arith)
  take-whole (suc k) (b ∷ s) h = ap (◌∷◌ b) (take-whole k s (omega arith))

  encode-eq-some :
      (p : Packet) (out : Bytes)
      → encode write p ≡ some out
      → (can_encode p ≡ true) × (write p ≡ some out)
  unfolding encode
  encode-eq-some p out h = elim (Bool-cases (can_encode p)) [
    | inl e ↦ (e, rw e at h)
    | inr e ↦ let no_bytes : none ≡ some out = rw e at h in cc
  ]

  parse-complete :
      (n : ℕ) (bytes rest : Bytes) (p : Packet)
      → parse bytes ≡ complete p rest
      → parse_packets parse (suc n) bytes ≡ p ∷ parse_packets parse n rest
  unfolding parse_packets
  parse-complete n bytes rest p e = rw (e, parse_packets)

  parse-insufficient :
      (n : ℕ) (bytes : Bytes) → parse bytes ≡ insufficient → parse_packets parse (suc n) bytes ≡ []
  unfolding parse_packets
  parse-insufficient n bytes e = rw (e, parse_packets)

  parse-idle : IsWire write limit parse → (n : ℕ) → parse_packets parse n [] ≡ []
  unfolding parse_packets
  parse-idle w zero = refl
  parse-idle w (suc n) = parse-insufficient n [] w.idle

  parse-run_writer :
      IsWire write limit parse
      → (breaks : ℕ → Option ℕ) (fuel n : ℕ) (ps : List Packet) → All (IsSendable write limit) ps
      → length ps ≤ fuel
      → parse_packets parse fuel (run_writer write breaks n ps) ≡ delivered breaks n ps
  unfolding run_writer
  parse-run_writer w breaks fuel n [] v h = parse-idle w fuel
  parse-run_writer w breaks zero n (p ∷ ps) v h = absurd (omega arith)
  parse-run_writer w breaks (suc fuel) n (p ∷ ps) v h = elim (Option-cases (encode write p)) [
    | inl e ↦
        rw (e, run_writer, delivered) (parse-run_writer w breaks (suc fuel) n ps v.1 (omega arith))
    | inr (out, e) ↦
        let (can, wrote) = encode-eq-some p out e in
        let (sound, small) = v.0 out wrote in
        elim (Option-cases (breaks n)) [
          | inl b ↦
              let more = run_writer write breaks (suc n) ps in
              rw (e, run_writer, delivered, b)
                (parse-complete fuel (out ++ more) more p
                    (w.reads_back p out more can wrote sound small)
                  ∙ ap (◌∷◌ p) (parse-run_writer w breaks fuel (suc n) ps v.1 (omega arith)))
          | inr (k, b) ↦ elim (Bool-cases (leb (length out) k)) [
            | inl l ↦
                let alone : parse out ≡ complete p [] =
                  ap parse (sym (append-nil out)) ∙ w.reads_back p out [] can wrote sound small in
                rw (e, run_writer, delivered, b, l, take-whole k out (leb→le _ _ l))
                  (parse-complete fuel out [] p alone ∙ ap (◌∷◌ p) (parse-idle w fuel))
            | inr l ↦
                rw (e, run_writer, delivered, b, l)
                  (parse-insufficient fuel (take k out)
                    (w.waits p out k can wrote small (leb_false→lt _ _ l)))
          ]
        ]
  ]

  -- However the network cuts what the writer has put on the stream, the peer reads exactly the packets
  -- that were handed to the writer and can be encoded, in order, up to the first whose write fails
  -- before its last byte; of that one it reads nothing. The packets are representable on the
  -- wire and no larger than the peer accepts.
  pub read_packets-run_writer :
      IsWire write limit parse
      → IsIncremental parse
      → (breaks : ℕ → Option ℕ) (n : ℕ) (ps : List Packet) (pieces : List Bytes)
      → glue pieces ≡ run_writer write breaks 0 ps
      → All (λ c. c ≢ []) pieces
      → All (IsSendable write limit) ps
      → length ps ≤ n
      → read_packets parse n [] (as_stream pieces) ≡ delivered breaks 0 ps
  read_packets-run_writer w incremental breaks n ps pieces same full v enough =
      read_packets-as_stream parse incremental n pieces [] full
      ∙ ap (parse_packets parse n) same
      ∙ parse-run_writer w breaks n 0 ps v enough
