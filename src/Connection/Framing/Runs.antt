-- ===== src/Connection/Framing/Runs.antt =====
-- Reading packets from a stream with a parser of two packets, and writing PINGRESP.
use entmoot.Common.{
  ℕ, zero, suc, ◌+◌, ◌*◌, ◌/◌, ◌%◌, ◌≤◌, ◌⊎◌, inl, inr, ◌<◌, ◌≡◌, ◌≢◌, Option, none, some, true,
  length, take, ap, refl, List, [], ◌∷◌, ◌++◌, Bytes, All, ◌==◌, if◌then◌else◌, arith,
}
use entmoot.Mqtt.{Packet}
use entmoot.Connection.Framing.{
  Parsed, complete, insufficient, malformed, read_packets, can_encode, encode, run_writer,
}
use entmoot.Connection.Framing.Chunking.{
  IsIncremental, as_stream, glue, parse_packets, read_packets-as_stream,
}
use entmoot.Connection.Framing.Writing.{
  IsWire, IsRepresentable, IsSendable, read_packets-run_writer,
}

-- PINGREQ is 192 0, DISCONNECT is 224 0.
abbrev parse : Bytes → Parsed
parse [] = insufficient
parse (a ∷ []) = insufficient
parse (a ∷ b ∷ rest) =
    if a == 192
    then complete Packet.ping_req rest
    else if a == 224
    then complete Packet.disconnect rest
    else malformed rest

parse-IsIncremental : IsIncremental parse
parse-IsIncremental = record { on_complete = grows; on_malformed = stays }
  where
    grows :
        (x y rest : Bytes) (p : Packet)
        → parse x ≡ complete p rest
        → parse (x ++ y) ≡ complete p (rest ++ y)
    grows [] y rest p h = cc
    grows (a ∷ []) y rest p h = cc
    grows (a ∷ b ∷ x) y rest p h = ground arith

    stays :
        (x y rest : Bytes)
        → parse x ≡ malformed rest
        → (left : Bytes) × (parse (x ++ y) ≡ malformed left)
    stays [] y rest h = cc
    stays (a ∷ []) y rest h = cc
    stays (a ∷ b ∷ x) y rest h = (x ++ y, ground arith)

-- Two packets that arrive in three pieces.
abbrev pieces : List Bytes
pieces = (192 ∷ []) ∷ (0 ∷ 224 ∷ []) ∷ (0 ∷ []) ∷ []

pieces_full : All (λ c. c ≢ []) pieces
pieces_full = ((λ e. cc), ((λ e. cc), ((λ e. cc), tt)))

cut_pieces : read_packets parse 5 [] (as_stream pieces) ≡ parse_packets parse 5 ([] ++ glue pieces)
cut_pieces = read_packets-as_stream parse parse-IsIncremental 5 pieces [] pieces_full

both_read : parse_packets parse 5 (glue pieces) ≡ Packet.ping_req ∷ Packet.disconnect ∷ []
unfolding parse_packets
both_read = refl

-- PINGRESP is 208 0, PUBACK is 64 2 and the identifier in two bytes.
abbrev write : Packet → Option Bytes
write Packet.ping_resp = some (208 ∷ 0 ∷ [])
write (Packet.pub_ack k) = some (64 ∷ 2 ∷ k / 256 ∷ k % 256 ∷ [])
write p = none

abbrev parse_id : Bytes → Parsed
parse_id [] = insufficient
parse_id (c ∷ []) = insufficient
parse_id (c ∷ d ∷ rest) = complete (Packet.pub_ack (c * 256 + d)) rest

abbrev parse_resp : Bytes → Parsed
parse_resp [] = insufficient
parse_resp (a ∷ []) = insufficient
parse_resp (a ∷ b ∷ rest) =
    let ack = parse_id rest in
    if a == 208 then complete Packet.ping_resp rest else if a == 64 then ack else malformed rest

write_resp :
    (p : Packet) (bytes : Bytes)
    → write p ≡ some bytes
    → ((p ≡ Packet.ping_resp) × (bytes ≡ 208 ∷ 0 ∷ []))
      ⊎ ((k : ℕ) × (p ≡ Packet.pub_ack k) × (bytes ≡ 64 ∷ 2 ∷ k / 256 ∷ k % 256 ∷ []))
write_resp Packet.ping_resp bytes h = inl (refl, cc)
write_resp (Packet.pub_ack k) bytes h = inr (k, refl, cc)
write_resp _ bytes h = absurd (cc h)

whole_id : (k : ℕ) → (k / 256) * 256 + k % 256 ≡ k
whole_id k = omega arith

torn_ack : (k i : ℕ) → i < 4 → parse_resp (take i (64 ∷ 2 ∷ k / 256 ∷ k % 256 ∷ [])) ≡ insufficient
torn_ack k zero h = refl
torn_ack k (suc zero) h = refl
torn_ack k (suc (suc zero)) h = refl
torn_ack k (suc (suc (suc zero))) h = refl
torn_ack k (suc (suc (suc (suc i)))) h = absurd (omega arith)

torn_ping : (i : ℕ) → i < 2 → parse_resp (take i (208 ∷ 0 ∷ [])) ≡ insufficient
torn_ping zero h = refl
torn_ping (suc zero) h = refl
torn_ping (suc (suc i)) h = absurd (omega arith)

resp-IsWire : IsWire write 100 parse_resp
resp-IsWire = record { reads_back = back; waits = torn; idle = refl }
  where
    back :
        (p : Packet) (bytes rest : Bytes)
        → can_encode p ≡ true
        → write p ≡ some bytes
        → IsRepresentable p
        → length bytes ≤ 100
        → parse_resp (bytes ++ rest) ≡ complete p rest
    back p bytes rest can h r small = elim (write_resp p bytes h) [
      | inl (e, f) ↦ rw (e, f)
      | inr (k, e, f) ↦ rw (e, f, whole_id k)
    ]

    torn :
        (p : Packet) (bytes : Bytes) (k : ℕ)
        → can_encode p ≡ true
        → write p ≡ some bytes
        → length bytes ≤ 100
        → k < length bytes
        → parse_resp (take k bytes) ≡ insufficient
    torn p bytes k can h small l = elim (write_resp p bytes h) [
      | inl (e, f) ↦ rw f (torn_ping k (omega (arith, ap length f)))
      | inr (id, e, f) ↦ rw f (torn_ack id k (omega (arith, ap length f)))
    ]

id_grows :
    (x y rest : Bytes) (p : Packet)
    → parse_id x ≡ complete p rest
    → parse_id (x ++ y) ≡ complete p (rest ++ y)
id_grows [] y rest p h = cc
id_grows (c ∷ []) y rest p h = cc
id_grows (c ∷ d ∷ x) y rest p h = ground arith

id_sound : (x rest : Bytes) → parse_id x ≢ malformed rest
id_sound [] rest h = cc
id_sound (c ∷ []) rest h = cc
id_sound (c ∷ d ∷ x) rest h = cc

resp-IsIncremental : IsIncremental parse_resp
resp-IsIncremental = record { on_complete = grows; on_malformed = stays }
  where
    grows :
        (x y rest : Bytes) (p : Packet)
        → parse_resp x ≡ complete p rest
        → parse_resp (x ++ y) ≡ complete p (rest ++ y)
    grows [] y rest p h = cc
    grows (a ∷ []) y rest p h = cc
    grows (a ∷ b ∷ x) y rest p h = ground (arith, id_grows x y rest p)

    stays :
        (x y rest : Bytes)
        → parse_resp x ≡ malformed rest
        → (left : Bytes) × (parse_resp (x ++ y) ≡ malformed left)
    stays [] y rest h = cc
    stays (a ∷ []) y rest h = cc
    stays (a ∷ b ∷ x) y rest h = (x ++ y, ground (arith, id_sound x rest))

-- The third write breaks in its middle; PINGREQ cannot be encoded.
abbrev breaks : ℕ → Option ℕ
breaks n = if n == 2 then some 1 else none

abbrev handed : List Packet
handed =
    Packet.ping_resp
    ∷ Packet.ping_req
    ∷ Packet.pub_ack 300
    ∷ Packet.ping_resp
    ∷ Packet.ping_resp
    ∷ []

abbrev torn_pieces : List Bytes
torn_pieces = (208 ∷ []) ∷ (0 ∷ 64 ∷ 2 ∷ []) ∷ (1 ∷ 44 ∷ 208 ∷ []) ∷ []

ping_fits : (bytes : Bytes) → write Packet.ping_resp ≡ some bytes → length bytes ≤ 100
ping_fits bytes h = let e : 208 ∷ 0 ∷ [] ≡ bytes = cc in rw (← e) (omega arith)

handed-IsSendable : All (IsSendable write 100) handed
handed-IsSendable = (
  (λ bytes h. (tt, ping_fits bytes h)),
  (
    (λ bytes h. cc h),
    (
      (λ bytes h. let e : 64 ∷ 2 ∷ 1 ∷ 44 ∷ [] ≡ bytes = cc in rw (← e) (omega arith, omega arith)),
      ((λ bytes h. (tt, ping_fits bytes h)), ((λ bytes h. (tt, ping_fits bytes h)), tt)),
    ),
  ),
)

read_packets-run_writer_example :
    read_packets parse_resp 5 [] (as_stream torn_pieces)
    ≡ Packet.ping_resp ∷ Packet.pub_ack 300 ∷ []
unfolding run_writer encode can_encode
read_packets-run_writer_example =
    read_packets-run_writer write 100 parse_resp resp-IsWire resp-IsIncremental breaks 5 handed
      torn_pieces refl ((λ e. cc), ((λ e. cc), ((λ e. cc), tt))) handed-IsSendable (omega arith)
