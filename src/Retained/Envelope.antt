-- ===== src/Retained/Envelope.antt =====
-- The envelope that carries a retained value's write time over the bus.
use entmoot.Common.{◌*◌, ◌/◌, ◌^◌, ◌<◌, ◌≡◌, ◌↔◌, none, some, Bytes, length, arith}
use entmoot.Codec.{to_be_bytes, from_be_bytes, split_at_checked}
use entmoot.Codec.Chunks.{from_be_bytes-to_be_bytes, length-to_be_bytes, split_at_checked-append}
use entmoot.Retained.{SystemTime, millis, encode_envelope, decode_envelope}

pub from_millis-back : (t : SystemTime) → from_be_bytes (to_be_bytes 8 (millis t)) ≡ millis t
from_millis-back t = from_be_bytes-to_be_bytes 8 (millis t) (omega arith)

-- Every envelope is read back: the payload unchanged, and the write time cut to its millisecond (for
-- times that fit in 64 bits of milliseconds).
pub decode_envelope-encode_envelope :
    (payload : Bytes) (t : SystemTime)
    → t / 1000000 < 2 ^ 64
    → decode_envelope (encode_envelope payload t) ≡ some (payload, t / 1000000 * 1000000)
unfolding decode_envelope encode_envelope
decode_envelope-encode_envelope payload t h = ground (
  arith,
  split_at_checked-append (to_be_bytes 8 (millis t)) payload 8 (length-to_be_bytes 8 (millis t)),
  from_millis-back t,
)

-- Only what is shorter than a timestamp is no envelope.
pub decode_envelope-eq-none : (bytes : Bytes) → (decode_envelope bytes ≡ none) ↔ (length bytes < 8)
unfolding decode_envelope split_at_checked
decode_envelope-eq-none bytes = ((λ h. ground arith), (λ h. ground arith))
