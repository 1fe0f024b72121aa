-- ===== src/Connection/Framing.antt =====
-- Packets over a byte stream (`MqttConn`, `read_from` and `encode` of
-- crates/entmoot-node/src/connection.rs).
--
-- `mqttbytes::v4::read` and the `write` of each packet are parameters. The stream is the list of
-- what its reads yield: bytes, which are never none before the end, or a failure.
mod Chunking
mod Writing
mod Runs
use entmoot.Common.{
  ℕ, zero, suc, Bool, true, false, Option, none, some, List, [], ◌∷◌, ◌++◌, Result, ok, err, Bytes,
  is_empty, take, if◌then◌else◌,
}
use entmoot.Mqtt
use entmoot.Mqtt.{Packet}

-- What `v4::read` says of a buffer: a packet, and the bytes after it; or that bytes are missing; or
-- that it is malformed.
pub data Parsed : Type 0 where
  complete : Packet → Bytes → Parsed
  insufficient : Parsed
  malformed : Bytes → Parsed

pub data FrameError : Type 0 where
  closed_by_peer socket_read bad_packet : FrameError

-- A read of the socket: `none` if it fails. After the last one the peer has closed.
abbrev pub Stream : Type 0
Stream = List (Option Bytes)

-- `encode`: the packets that a node may write.
unfoldable pub can_encode : Packet → Bool
can_encode (Packet.conn_ack code present) = true
can_encode (Packet.publish p) = true
can_encode (Packet.pub_ack k) = true
can_encode (Packet.pub_rec k) = true
can_encode (Packet.pub_comp k) = true
can_encode (Packet.sub_ack k codes) = true
can_encode (Packet.unsub_ack k) = true
can_encode Packet.ping_resp = true
can_encode (Packet.connect c) = false
can_encode (Packet.pub_rel k) = false
can_encode (Packet.subscribe k filters) = false
can_encode (Packet.unsubscribe k topics) = false
can_encode Packet.ping_req = false
can_encode Packet.disconnect = false

module _ (parse : Bytes → Parsed) where
  -- `read_from`: the packet, the buffer after it and the rest of the stream.
  unfoldable pub read_from : Bytes → Stream → Result Packet FrameError × Bytes × Stream
  read_from buf [] = elim (parse buf) [
    | complete p rest ↦ (ok p, rest, [])
    | insufficient ↦ (err closed_by_peer, buf, [])
    | malformed rest ↦ (err bad_packet, rest, [])
  ]
  read_from buf (read ∷ stream) = elim (parse buf) [
    | complete p rest ↦ (ok p, rest, read ∷ stream)
    | malformed rest ↦ (err bad_packet, rest, read ∷ stream)
    | insufficient ↦ elim read [
      | none ↦ (err socket_read, buf, stream)
      | some bytes ↦
          if is_empty bytes
          then (err closed_by_peer, buf, stream)
          else read_from (buf ++ bytes) stream
    ]
  ]

  -- The packets of so many reads at most, up to the first that fails, as a connection's loop reads
  -- them.
  unfoldable pub read_packets : ℕ → Bytes → Stream → List Packet
  unfolding read_from
  read_packets zero buf stream = []
  read_packets (suc n) buf stream =
      let (read, rest, stream') = read_from buf stream in
      elim read [ ok p ↦ p ∷ read_packets n rest stream' | err e ↦ [] ]

module _ (write : Packet → Option Bytes) where
  -- `encode` into an empty buffer, or `none` for an error.
  unfoldable pub encode : Packet → Option Bytes
  unfolding can_encode
  encode p = if can_encode p then write p else none

  -- The writer task of `split`, from its write number `n` on, over the packets that come through its
  -- channel: what goes out. A packet that cannot be encoded is left out. `breaks n` says after how many
  -- bytes that write fails, if it does.
  unfoldable pub run_writer : (ℕ → Option ℕ) → ℕ → List Packet → Bytes
  run_writer breaks n [] = []
  run_writer breaks n (p ∷ ps) =
      let left_out = run_writer breaks n ps in
      let more = run_writer breaks (suc n) ps in
      elim (encode p) [
        | none ↦ left_out
        | some out ↦ elim (breaks n) [ none ↦ out ++ more | some k ↦ take k out ]
      ]
