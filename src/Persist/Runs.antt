-- ===== src/Persist/Runs.antt =====
-- The theorems about state files at concrete inputs.
use entmoot.Common.{◌≡◌, refl, true, List, [], ◌∷◌, ◌++◌, ok, str_eq, Str, Bytes, codes, arith, All}
use entmoot.Common.Dict
use entmoot.Mqtt.{QoS, at_least_once, protocol_codec}
use entmoot.Codec.{is_utf8, to_be_bytes, write_chunk}
use entmoot.Persist.{
  Disk, Message, encode_queue, load_queue, read_file, encode_subs, decode_subs, queue_magic,
}
use entmoot.Persist.Queue.{last, IsStorable, load_queue-encode_queue}
use entmoot.Persist.Subs.{decode_subs-encode_subs}

abbrev two : List Message
two = (codes "a", codes "1") ∷ (codes "b", codes "2") ∷ []

abbrev two_bytes : Bytes
two_bytes =
    queue_magic
    ++ (0 ∷ 0 ∷ 0 ∷ 1 ∷ b'a' ∷ 0 ∷ 0 ∷ 0 ∷ 1 ∷ b'1' ∷ 0 ∷ 0 ∷ 0 ∷ 1 ∷ b'b' ∷ 0 ∷ 0 ∷ 0 ∷ 1 ∷ b'2'
        ∷ [])

abbrev disk : Disk
disk = record { files = (codes "q", two_bytes) ∷ []; writable = true }

two-IsStorable : All IsStorable two
unfolding is_utf8
two-IsStorable = (
  record { topic_fits = omega arith; topic_text = refl; payload_fits = omega arith },
  (record { topic_fits = omega arith; topic_text = refl; payload_fits = omega arith }, tt),
)

encoded : encode_queue two ≡ ok two_bytes
unfolding encode_queue write_chunk to_be_bytes
encoded = refl

stored : read_file disk (codes "q") ≡ ok two_bytes
unfolding read_file Dict.get str_eq
stored = refl

the_last_one : load_queue disk (codes "q") 1 ≡ ok (last 1 two)
the_last_one =
    load_queue-encode_queue disk (codes "q") 1 two two_bytes two-IsStorable encoded stored

load_queue-encode_queue_example : load_queue disk (codes "q") 5 ≡ ok (last 5 two)
load_queue-encode_queue_example =
    load_queue-encode_queue disk (codes "q") 5 two two_bytes two-IsStorable encoded stored

abbrev one_sub : List (Str × QoS)
one_sub = (codes "a/#", at_least_once) ∷ []

abbrev subs_bytes : Bytes
subs_bytes =
    codes "ENTMOOT-S1"
    ++ (0x0a ∷ 0 ∷ 0 ∷ 0 ∷ 1 ∷ b'c' ∷ 0 ∷ 0 ∷ 0 ∷ 0 ∷ 0 ∷ 0 ∷ 0 ∷ 3 ∷ b'a' ∷ b'/' ∷ b'#' ∷ 1 ∷ [])

decode_subs-encode_subs_example :
    decode_subs protocol_codec subs_bytes ≡ ok (codes "c", [], one_sub)
unfolding encode_subs write_chunk to_be_bytes is_utf8
decode_subs-encode_subs_example =
    decode_subs-encode_subs protocol_codec (codes "c") [] one_sub subs_bytes
      (record { fits = omega arith; text = refl }) (record { fits = omega arith; text = refl })
      (record { fits = omega arith; text = refl }, tt) refl
